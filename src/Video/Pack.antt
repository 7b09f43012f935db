-- ===== src/Video/Pack.antt =====
-- A decoder's picture, repacked and converted, keeps every pixel.
use phone_cam.Prelude.{
  ℕ, ◌*◌, ◌/◌, ◌≤◌, ◌≡◌, refl, ap, ◌∙◌, sym, List, ok, arith, length, Result-cases, inl, inr,
  nat_eq,
}
use phone_cam.Video.Planes.{
  Nv12Frame, copy_rows, copy_plane_rows, interleave, Plane, is_odd, planar_to_nv12,
}
use phone_cam.Video.Rows.{length-copy_rows, length-interleave}
use phone_cam.Video.Pixels.{IsEvenSize, Checked}

-- A plane that `copy_plane_rows` accepts.
pub record IsPlane (p : Plane) (w h : ℕ) : Type 0 where
  pub wide : w ≤ p.stride
  pub long : p.stride * h ≤ length p.bytes

copy_plane_rows-ok :
    (p : Plane) (w h : ℕ) (bytes : List ℕ)
    → copy_plane_rows p.bytes p.stride w h ≡ ok bytes
    → IsPlane p w h × (bytes ≡ copy_rows p.bytes p.stride w 0 h)
unfolding copy_plane_rows
copy_plane_rows-ok p w h bytes e = (ground arith, ground arith)

module _ (w h : ℕ) (pts : ℕ) (y u v : Plane) where
  -- What `planar_to_nv12` returns.
  abbrev pub nv12 : Nv12Frame
  nv12 = record {
    width = w;
    height = h;
    pts_us = pts;
    y_stride = w;
    uv_stride = w;
    y_plane = copy_rows y.bytes y.stride w 0 h;
    uv_plane =
        interleave (copy_rows u.bytes u.stride (w / 2) 0 (h / 2))
          (copy_rows v.bytes v.stride (w / 2) 0 (h / 2));
  }

  pub record IsPicture : Type 0 where
    pub size : IsEvenSize w h
    pub luma : IsPlane y w h
    pub blue : IsPlane u (w / 2) (h / 2)
    pub red : IsPlane v (w / 2) (h / 2)

  module _ (f : Nv12Frame) (e : planar_to_nv12 w h pts y u v ≡ ok f) where
    planar_size : IsEvenSize w h
    unfolding planar_to_nv12 is_odd
    planar_size = ground arith

    planar_y : (bytes : List ℕ) × (copy_plane_rows y.bytes y.stride w h ≡ ok bytes)
    unfolding planar_to_nv12
    planar_y = elim (Result-cases (copy_plane_rows y.bytes y.stride w h)) [
      | inl (bytes, q) ↦ (bytes, q)
      | inr (x, q) ↦ absurd (ground arith)
    ]

    planar_u : (bytes : List ℕ) × (copy_plane_rows u.bytes u.stride (w / 2) (h / 2) ≡ ok bytes)
    unfolding planar_to_nv12
    planar_u = elim (Result-cases (copy_plane_rows u.bytes u.stride (w / 2) (h / 2))) [
      | inl (bytes, q) ↦ (bytes, q)
      | inr (x, q) ↦ absurd (ground arith)
    ]

    planar_v : (bytes : List ℕ) × (copy_plane_rows v.bytes v.stride (w / 2) (h / 2) ≡ ok bytes)
    unfolding planar_to_nv12
    planar_v = elim (Result-cases (copy_plane_rows v.bytes v.stride (w / 2) (h / 2))) [
      | inl (bytes, q) ↦ (bytes, q)
      | inr (x, q) ↦ absurd (ground arith)
    ]

    pub planar-IsPicture : IsPicture
    planar-IsPicture = record {
      size = planar_size;
      luma = (copy_plane_rows-ok y w h planar_y.0 planar_y.1).0;
      blue = (copy_plane_rows-ok u (w / 2) (h / 2) planar_u.0 planar_u.1).0;
      red = (copy_plane_rows-ok v (w / 2) (h / 2) planar_v.0 planar_v.1).0;
    }

    pub planar-eq : f ≡ nv12
    unfolding planar_to_nv12
    planar-eq =
        let a = planar_y.1 in
        let b = planar_u.1 in
        let c = planar_v.1 in
        ground (
          arith,
          (copy_plane_rows-ok y w h planar_y.0 planar_y.1).1,
          (copy_plane_rows-ok u (w / 2) (h / 2) planar_u.0 planar_u.1).1,
          (copy_plane_rows-ok v (w / 2) (h / 2) planar_v.0 planar_v.1).1,
        )

  module _ (p : IsPicture) where
    pub luma_length : length nv12.y_plane ≡ h * w
    luma_length = length-copy_rows y.bytes y.stride w p.luma.wide 0 h (omega (arith, p.luma.long))

    pub blue_length : length (copy_rows u.bytes u.stride (w / 2) 0 (h / 2)) ≡ h / 2 * (w / 2)
    blue_length =
        length-copy_rows u.bytes u.stride (w / 2) p.blue.wide 0 (h / 2) (omega (arith, p.blue.long))

    pub red_length : length (copy_rows v.bytes v.stride (w / 2) 0 (h / 2)) ≡ h / 2 * (w / 2)
    red_length =
        length-copy_rows v.bytes v.stride (w / 2) p.red.wide 0 (h / 2) (omega (arith, p.red.long))

    pub chroma_length : length nv12.uv_plane ≡ h / 2 * w
    chroma_length = omega (
      arith,
      length-interleave _ _ (blue_length ∙ sym red_length),
      blue_length,
      ap (λ k. h / 2 * k) p.size.width_even,
    )

    pub nv12-Checked : Checked (record { width = w; height = h }) nv12
    nv12-Checked = record {
      y_wide = omega arith;
      uv_wide = omega arith;
      y_long = omega (arith, luma_length);
      uv_long = omega (arith, chroma_length);
      same_width = refl;
      same_height = refl;
    }
