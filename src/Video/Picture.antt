-- ===== src/Video/Picture.antt =====
-- From a decoder's planes to the YUYV bytes that the Linux driver gets.
use phone_cam.Prelude.{
  ℕ, ◌+◌, ◌*◌, ◌/◌, ◌%◌, ◌^◌, ◌≤◌, ◌<◌, ◌≡◌, ap, ◌∙◌, sym, List, ok, arith, length, get_elem?,
}
use phone_cam.Video.Planes.{Nv12Frame, copy_rows, interleave, Plane, is_odd, planar_to_nv12}
use phone_cam.Video.Convert.{YuyvFrame, Converter, new_converter, convert, convert_rows}
use phone_cam.Video.Rows.{get_elem?-copy_rows, get_elem?-interleave_even, get_elem?-interleave_odd}
use phone_cam.Video.Pixels.{IsEvenSize, Checked, rows_pixel}
use phone_cam.Video.Pack.{
  nv12, IsPicture, planar-IsPicture, planar-eq, blue_length, red_length, nv12-Checked,
}

pub new_converter-IsEvenSize :
    (w h : ℕ) → IsEvenSize w h → new_converter w h ≡ ok (record { width = w; height = h })
unfolding new_converter is_odd
new_converter-IsEvenSize w h s = ground arith

pub convert-Checked :
    (k : Converter) (f : Nv12Frame)
    → Checked k f
    → f.y_stride * k.height < 2 ^ 64
    → f.uv_stride * (k.height / 2) < 2 ^ 64
    → k.width * k.height < 2 ^ 63
    → convert k f
      ≡ ok
          (record { width = k.width; height = k.height; bytes = convert_rows f k.width 0 k.height })
unfolding convert
convert-Checked k f c y uv p = ground arith

-- The source bytes of a pixel in pictures of width `w`: luma, and the chroma sample of its two by
-- two block, blue in an even column and red in an odd one.
abbrev pub PixelOf : ℕ → Plane → Plane → Plane → List ℕ → ℕ → ℕ → Type 0
PixelOf w y u v bytes r c =
    (get_elem? bytes (2 * (r * w + c)) ≡ get_elem? y.bytes (r * y.stride + c))
    × (c % 2 ≡ 0
        → get_elem? bytes (2 * (r * w + c) + 1) ≡ get_elem? u.bytes (r / 2 * u.stride + c / 2))
    × (c % 2 ≡ 1
        → get_elem? bytes (2 * (r * w + c) + 1) ≡ get_elem? v.bytes (r / 2 * v.stride + c / 2))

module _ (w h pts : ℕ) (y u v : Plane) (p : IsPicture w h pts y u v) where
  area_fits : length y.bytes < 2 ^ 63 → w * h < 2 ^ 63
  area_fits m = let wide = p.luma.wide in let long = p.luma.long in grind arith

  nv12_converts :
      length y.bytes < 2 ^ 63
      → convert (record { width = w; height = h }) (nv12 w h pts y u v)
        ≡ ok (record { width = w; height = h; bytes = convert_rows (nv12 w h pts y u v) w 0 h })
  nv12_converts m =
      let area = area_fits m in
      convert-Checked (record { width = w; height = h }) (nv12 w h pts y u v)
        (nv12-Checked w h pts y u v p) (omega arith)
        (let half : h / 2 ≤ h = omega arith in grind arith) area

  nv12_pixel :
      (r c : ℕ) → r < h → c < w → PixelOf w y u v (convert_rows (nv12 w h pts y u v) w 0 h) r c
  nv12_pixel r c hr hc =
      let q = rows_pixel (nv12 w h pts y u v) w h p.size r c (nv12-Checked w h pts y u v p) hr hc in
      let half_row : r / 2 < h / 2 = omega (arith, p.size.height_even) in
      let half_column : c / 2 < w / 2 = omega (arith, p.size.width_even) in
      let us = copy_rows u.bytes u.stride (w / 2) 0 (h / 2) in
      let vs = copy_rows v.bytes v.stride (w / 2) 0 (h / 2) in
      let lengths : length us ≡ length vs =
        blue_length w h pts y u v p ∙ sym (red_length w h pts y u v p) in
      let twice : r / 2 * w ≡ 2 * (r / 2 * (w / 2)) =
        omega (arith, ap (λ k. r / 2 * k) p.size.width_even) in
      let i = r / 2 * (w / 2) + c / 2 in
      (
        q.0
            ∙ get_elem?-copy_rows y.bytes y.stride w p.luma.wide 0 h r c
                (omega (arith, p.luma.long)) hr hc
            ∙ ap (λ k. get_elem? y.bytes (k * y.stride + c)) (row r),
        (λ even.
            let place : r / 2 * w + c ≡ 2 * i = omega arith in
            q.1
            ∙ ap (get_elem? (interleave us vs)) place
            ∙ get_elem?-interleave_even us vs i lengths
            ∙ get_elem?-copy_rows u.bytes u.stride (w / 2) p.blue.wide 0 (h / 2) (r / 2) (c / 2)
                (omega (arith, p.blue.long)) half_row half_column
            ∙ ap (λ k. get_elem? u.bytes (k * u.stride + c / 2)) (row (r / 2))),
        (λ odd.
            let place : r / 2 * w + c ≡ 2 * i + 1 = omega arith in
            q.1
            ∙ ap (get_elem? (interleave us vs)) place
            ∙ get_elem?-interleave_odd us vs i lengths
            ∙ get_elem?-copy_rows v.bytes v.stride (w / 2) p.red.wide 0 (h / 2) (r / 2) (c / 2)
                (omega (arith, p.red.long)) half_row half_column
            ∙ ap (λ k. get_elem? v.bytes (k * v.stride + c / 2)) (row (r / 2))),
      )
    where
      row : (k : ℕ) → 0 + k ≡ k
      row k = omega arith

-- A picture that `planar_to_nv12` accepts, with a luma plane that memory can hold, is accepted by a
-- converter of its size, which can be made; and each pixel of the YUYV output is the luma byte of
-- that pixel in the decoder's plane and the chroma byte of its two by two block, `u` in even and
-- `v` in odd columns, whatever the strides of the three planes.
pub convert-planar_to_nv12 :
    (w h pts : ℕ) (y u v : Plane) (f : Nv12Frame)
    → length y.bytes < 2 ^ 63
    → planar_to_nv12 w h pts y u v ≡ ok f
    → (k : Converter) × (new_converter w h ≡ ok k)
      × (out : YuyvFrame) × (convert k f ≡ ok out)
      × ((r c : ℕ) → r < h → c < w → PixelOf w y u v out.bytes r c)
convert-planar_to_nv12 w h pts y u v f m e =
    let p = planar-IsPicture w h pts y u v f e in
    (
      record { width = w; height = h },
      new_converter-IsEvenSize w h p.size,
      record { width = w; height = h; bytes = convert_rows (nv12 w h pts y u v) w 0 h },
      ap (convert (record { width = w; height = h })) (planar-eq w h pts y u v f e)
          ∙ nv12_converts w h pts y u v p m,
      nv12_pixel w h pts y u v p,
    )
