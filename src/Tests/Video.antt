-- ===== src/Tests/Video.antt =====
-- A picture of two by two pixels.
use phone_cam.Prelude.{ℕ, ◌≡◌, ◌<◌, refl, [], ◌∷◌, ok, arith}
use phone_cam.Video.Planes.{
  Nv12Frame, Plane, planar_to_nv12, copy_plane_rows, copy_rows, interleave, is_odd,
}
use phone_cam.Video.Convert.{
  YuyvFrame, Converter, new_converter, convert, convert_rows, convert_columns,
}
use phone_cam.Video.Picture.{PixelOf, convert-planar_to_nv12}

abbrev luma : Plane
luma = record { bytes = 10 ∷ 11 ∷ 0 ∷ 20 ∷ 21 ∷ 0 ∷ []; stride = 3 }

abbrev blue : Plane
blue = record { bytes = 30 ∷ []; stride = 1 }

abbrev red : Plane
red = record { bytes = 40 ∷ []; stride = 1 }

abbrev picture : Nv12Frame
picture = record {
  width = 2;
  height = 2;
  pts_us = 5;
  y_stride = 2;
  uv_stride = 2;
  y_plane = 10 ∷ 11 ∷ 20 ∷ 21 ∷ [];
  uv_plane = 30 ∷ 40 ∷ [];
}

abbrev small : Converter
small = record { width = 2; height = 2 }

abbrev pixels : YuyvFrame
pixels = record { width = 2; height = 2; bytes = 10 ∷ 30 ∷ 11 ∷ 40 ∷ 20 ∷ 30 ∷ 21 ∷ 40 ∷ [] }

packed : planar_to_nv12 2 2 5 luma blue red ≡ ok picture
unfolding planar_to_nv12 copy_plane_rows copy_rows interleave is_odd
packed = refl

made : new_converter 2 2 ≡ ok small
unfolding new_converter is_odd
made = refl

converted : convert small picture ≡ ok pixels
unfolding convert convert_rows convert_columns
converted = refl

convert-planar_to_nv12_example :
    (k : Converter) × (new_converter 2 2 ≡ ok k)
    × (out : YuyvFrame) × (convert k picture ≡ ok out)
    × ((r c : ℕ) → r < 2 → c < 2 → PixelOf 2 luma blue red out.bytes r c)
convert-planar_to_nv12_example =
    convert-planar_to_nv12 2 2 5 luma blue red picture (omega arith) packed
