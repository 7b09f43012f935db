-- ===== src/Video/Pixels.antt =====
-- What the converter and the repacking do to each pixel.
use phone_cam.Prelude.{
  ℕ, ◌+◌, ◌*◌, ◌/◌, ◌≤◌, ◌<◌, ◌≡◌, ap, ◌∙◌, sym, some, List, ok, arith, length, get_or, get_elem?,
  get_or-get_elem?,
}
use phone_cam.Video.Planes.{Nv12Frame, is_odd}
use phone_cam.Video.Convert.{YuyvFrame, Converter, new_converter, convert, convert_rows}
use phone_cam.Video.Rows.{length-convert_rows, get_elem?-convert_rows}

-- The sizes that the drivers accept: positive and even.
pub record IsEvenSize (width height : ℕ) : Type 0 where
  pub width_pos : 0 < width
  pub height_pos : 0 < height
  pub width_even : 2 * (width / 2) ≡ width
  pub height_even : 2 * (height / 2) ≡ height

new_converter-ok :
    (w h : ℕ) (k : Converter)
    → new_converter w h ≡ ok k
    → (k ≡ record { width = w; height = h }) × IsEvenSize w h
unfolding new_converter is_odd
new_converter-ok w h k e = (ground arith, ground arith)

-- The checks that `convert` makes before it reads the planes.
pub record Checked (k : Converter) (f : Nv12Frame) : Type 0 where
  pub y_wide : k.width ≤ f.y_stride
  pub uv_wide : k.width ≤ f.uv_stride
  pub y_long : f.y_stride * k.height ≤ length f.y_plane
  pub uv_long : f.uv_stride * (k.height / 2) ≤ length f.uv_plane
  pub same_width : f.width ≡ k.width
  pub same_height : f.height ≡ k.height

convert-ok :
    (k : Converter) (f : Nv12Frame) (out : YuyvFrame)
    → convert k f ≡ ok out
    → Checked k f
      × (out ≡ record {
        width = k.width;
        height = k.height;
        bytes = convert_rows f k.width 0 k.height;
      })
unfolding convert
convert-ok k f out e = (ground arith, ground arith)

y_index : (s h r c w n : ℕ) → w ≤ s → s * h ≤ n → r < h → c < w → r * s + c < n
y_index s h r c w n ws fits hr hc = grind arith

-- The bytes of a pixel, and where they come from.
abbrev pub PixelFrom : Nv12Frame → ℕ → List ℕ → ℕ → ℕ → Type 0
PixelFrom f w bytes r c =
    (get_elem? bytes (2 * (r * w + c)) ≡ get_elem? f.y_plane (r * f.y_stride + c))
    × (get_elem? bytes (2 * (r * w + c) + 1) ≡ get_elem? f.uv_plane (r / 2 * f.uv_stride + c))
    × (r * f.y_stride + c < length f.y_plane)
    × (r / 2 * f.uv_stride + c < length f.uv_plane)

module _ (f : Nv12Frame) (w h : ℕ) (size : IsEvenSize w h) where
  width_steps : 2 * ((w + 1) / 2) ≡ w
  width_steps = omega (arith, size.width_even)

  pub rows_pixel :
      (r c : ℕ)
      → Checked (record { width = w; height = h }) f
      → r < h
      → c < w
      → PixelFrom f w (convert_rows f w 0 h) r c
  rows_pixel r c checked hr hc =
      let bytes = get_elem?-convert_rows f w width_steps 0 h r c hr hc in
      let y_in =
        y_index f.y_stride h r c w (length f.y_plane) checked.y_wide checked.y_long hr hc in
      let half : r / 2 < h / 2 = omega (arith, size.height_even) in
      let uv_in =
        y_index f.uv_stride (h / 2) (r / 2) c w (length f.uv_plane) checked.uv_wide checked.uv_long
          half hc in
      let row : 0 + r ≡ r = omega arith in
      (
        bytes.0
            ∙ ap (λ k. some (get_or f.y_plane (k * f.y_stride + c) 0)) row
            ∙ sym (get_or-get_elem? f.y_plane (r * f.y_stride + c) 0 y_in),
        bytes.1
            ∙ ap (λ k. some (get_or f.uv_plane (k / 2 * f.uv_stride + c) 0)) row
            ∙ sym (get_or-get_elem? f.uv_plane (r / 2 * f.uv_stride + c) 0 uv_in),
        y_in,
        uv_in,
      )

  rows_length : length (convert_rows f w 0 h) ≡ 2 * (w * h)
  rows_length = omega (arith, length-convert_rows f w width_steps 0 h)

-- An accepted frame is converted completely: the output has two bytes for each pixel, and the
-- pixel in row `r` and column `c` is the luma byte of that place followed by the byte `c` of
-- chroma row `r / 2`, both read inside their planes.
pub convert_pixels :
    (w h : ℕ) (k : Converter) (f : Nv12Frame) (out : YuyvFrame)
    → new_converter w h ≡ ok k
    → convert k f ≡ ok out
    → (length out.bytes ≡ 2 * (w * h)) × ((r c : ℕ) → r < h → c < w → PixelFrom f w out.bytes r c)
convert_pixels w h k f out new e =
    let made = new_converter-ok w h k new in
    let done = convert-ok k f out e in
    let checked : Checked (record { width = w; height = h }) f = rw made.0 at done.0 in
    let same : out.bytes ≡ convert_rows f w 0 h =
      ap YuyvFrame.bytes done.1
      ∙ ap (λ (q : Converter). convert_rows f q.width 0 q.height) made.0 in
    (
      ap length same ∙ rows_length f w h made.1,
      λ r c hr hc. rw same (rows_pixel f w h made.1 r c checked hr hc),
    )
