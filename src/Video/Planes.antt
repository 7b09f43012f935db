-- ===== src/Video/Planes.antt =====
-- From planes with padding to packed NV12: `copy_plane_rows` and `planar_to_nv12` of
-- rust/phonecam-desktop/src-tauri/src/decode.rs. A `usize` has 64 bits; `checked_mul` is written
-- out, and the products under it do not wrap where it succeeds.
use phone_cam.Prelude.{
  ℕ, zero, suc, ◌*◌, ◌/◌, ◌%◌, ◌^◌, Bool, ◌||◌, not, Option, none, some, List, [], ◌∷◌, ◌++◌,
  Result, ok, ensure, ok_or, ◌>>=◌, ◌>>◌, ltb, leb, ◌==◌, nat_eq, length, take, drop, if◌then◌else◌,
}

-- `usize::checked_mul`
abbrev pub checked_mul : ℕ → ℕ → Option ℕ
checked_mul a b = if ltb (a * b) (2 ^ 64) then some (a * b) else none

pub record Nv12Frame : Type 0 where
  pub width : ℕ
  pub height : ℕ
  pub pts_us : ℕ
  pub y_stride : ℕ
  pub uv_stride : ℕ
  pub y_plane : List ℕ
  pub uv_plane : List ℕ

-- The messages of `DecodeError::DecodeFailed` in these functions.
pub data LayoutError : Type 0 where
  invalid_dimensions : ℕ → ℕ → LayoutError
  stride_too_small : LayoutError
  plane_overflow : LayoutError
  plane_too_short : LayoutError
  output_overflow : LayoutError
  chroma_overflow : LayoutError

-- The loop of `copy_plane_rows` from a row on, for a number of rows.
unfoldable pub copy_rows : List ℕ → ℕ → ℕ → ℕ → ℕ → List ℕ
copy_rows source stride row_width row zero = []
copy_rows source stride row_width row (suc rows) =
    take row_width (drop (row * stride) source) ++ copy_rows source stride row_width (suc row) rows

unfoldable pub copy_plane_rows : List ℕ → ℕ → ℕ → ℕ → Result LayoutError (List ℕ)
copy_plane_rows source stride row_width row_count = do
  ensure (leb row_width stride) stride_too_small
  required ← ok_or (checked_mul stride row_count) plane_overflow
  ensure (leb required (length source)) plane_too_short
  capacity ← ok_or (checked_mul row_width row_count) output_overflow
  ok (copy_rows source stride row_width 0 row_count)

-- The loop over the two chroma planes.
unfoldable pub interleave : List ℕ → List ℕ → List ℕ
interleave (u ∷ us) (v ∷ vs) = u ∷ v ∷ interleave us vs
interleave _ _ = []

-- A plane of a decoder's picture.
pub record Plane : Type 0 where
  pub bytes : List ℕ
  pub stride : ℕ

unfoldable pub is_odd : ℕ → Bool
is_odd n = not (n % 2 == 0)

unfoldable pub planar_to_nv12 : ℕ → ℕ → ℕ → Plane → Plane → Plane → Result LayoutError Nv12Frame
unfolding is_odd
planar_to_nv12 width height pts_us y u v = do
  ensure (not (width == 0 || (height == 0 || (is_odd width || is_odd height))))
      (invalid_dimensions width height)
  y_plane ← copy_plane_rows y.bytes y.stride width height
  u_plane ← copy_plane_rows u.bytes u.stride (width / 2) (height / 2)
  v_plane ← copy_plane_rows v.bytes v.stride (width / 2) (height / 2)
  uv_len ← ok_or (checked_mul width (height / 2)) chroma_overflow
  ok (record {
    width = width;
    height = height;
    pts_us = pts_us;
    y_stride = width;
    uv_stride = width;
    y_plane = y_plane;
    uv_plane = interleave u_plane v_plane;
  })
