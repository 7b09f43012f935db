-- ===== src/Video/Convert.antt =====
-- NV12 to YUYV: rust/phonecam-desktop/src-tauri/src/convert.rs.
use phone_cam.Prelude.{
  ℕ, zero, suc, ◌+◌, ◌*◌, ◌/◌, ◌||◌, List, [], ◌∷◌, ◌++◌, Result, ok, err, ensure, ok_or, ◌>>=◌,
  ◌>>◌, leb, ◌==◌, nat_eq, length, get_or, if◌then◌else◌,
}
use phone_cam.Video.Planes.{Nv12Frame, checked_mul, is_odd}

pub record YuyvFrame : Type 0 where
  pub width : ℕ
  pub height : ℕ
  pub bytes : List ℕ  -- the field `data`

pub data ConvertError : Type 0 where
  invalid_dimensions invalid_plane_layout : ConvertError
  conversion_failed : List ℕ → ConvertError

-- `Nv12ToYuyvConverter`
pub record Converter : Type 0 where
  pub width : ℕ
  pub height : ℕ

-- `Nv12ToYuyvConverter::new`
unfoldable pub new_converter : ℕ → ℕ → Result ConvertError Converter
unfolding is_odd
new_converter width height =
    if width == 0 || (height == 0 || (is_odd width || is_odd height))
    then err invalid_dimensions
    else ok (record { width = width; height = height })

-- The inner loop from a column on, for a number of steps; an index outside a plane would panic.
unfoldable pub convert_columns : Nv12Frame → ℕ → ℕ → ℕ → ℕ → List ℕ
convert_columns f y_row_start uv_row_start column zero = []
convert_columns f y_row_start uv_row_start column (suc steps) =
    get_or f.y_plane (y_row_start + column) 0
    ∷ get_or f.uv_plane (uv_row_start + column) 0
    ∷ get_or f.y_plane (y_row_start + column + 1) 0
    ∷ get_or f.uv_plane (uv_row_start + column + 1) 0
    ∷ convert_columns f y_row_start uv_row_start (column + 2) steps

-- The outer loop; `(0..width).step_by(2)` has `(width + 1) / 2` steps.
unfoldable pub convert_rows : Nv12Frame → ℕ → ℕ → ℕ → List ℕ
convert_rows f width row zero = []
convert_rows f width row (suc rows) =
    convert_columns f (row * f.y_stride) (row / 2 * f.uv_stride) 0 ((width + 1) / 2)
    ++ convert_rows f width (suc row) rows

-- `Nv12ToYuyvConverter::convert`
unfoldable pub convert : Converter → Nv12Frame → Result ConvertError YuyvFrame
convert k f = do
  ensure (f.width == k.width) invalid_dimensions
  ensure (f.height == k.height) invalid_dimensions
  ensure (leb k.width f.y_stride) invalid_dimensions
  ensure (leb k.width f.uv_stride) invalid_dimensions
  required_y_len ← ok_or (checked_mul f.y_stride k.height) invalid_plane_layout
  required_uv_len ← ok_or (checked_mul f.uv_stride (k.height / 2)) invalid_plane_layout
  ensure (leb required_y_len (length f.y_plane)) invalid_plane_layout
  ensure (leb required_uv_len (length f.uv_plane)) invalid_plane_layout
  pixels ← ok_or (checked_mul k.width k.height) invalid_dimensions
  output_len ← ok_or (checked_mul pixels 2) invalid_dimensions
  ok (record { width = k.width; height = k.height; bytes = convert_rows f k.width 0 k.height })
