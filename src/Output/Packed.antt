-- ===== src/Output/Packed.antt =====
-- `packed_nv12` (rust/phonecam-desktop/src-tauri/src/output.rs), which the devices of macOS and
-- Windows write, and the device of macOS.
pub mod Laws
use phone_cam.Prelude.{
  ℕ, ◌+◌, ◌*◌, ◌/◌, ◌^◌, Bool, true, false, ◌&&◌, ◌||◌, not, Option, none, some, List, [], ◌∷◌,
  ◌++◌, Result, ok, err, ok_or, ensure, map_err, ◌>>=◌, ◌>>◌, leb, ltb, length, ◌==◌, nat_eq,
}
use phone_cam.Protocol.Profile.{StreamProfile, ProfileValidationError, validate}
use phone_cam.Protocol.Frame.{checked_add}
use phone_cam.Video.Planes.{checked_mul, Nv12Frame, copy_rows, is_odd}
use phone_cam.Output.Device.{NativePixelFormat, NativeOutputFormat, nv12, yuyv}
use phone_cam.Output.FormatEvent.{parse}

pub data PackError : Type 0 where
  invalid_layout y_overflow uv_overflow planes_too_short output_overflow : PackError

unfoldable pub packed_nv12 : Nv12Frame → Result PackError (List ℕ)
unfolding copy_rows is_odd
packed_nv12 f = do
  ensure
      (not (f.width == 0 || (f.height == 0 || (is_odd f.width || is_odd f.height)))
        && (leb f.width f.y_stride && leb f.width f.uv_stride))
      invalid_layout
  required_y ← ok_or (checked_mul f.y_stride f.height) y_overflow
  required_uv ← ok_or (checked_mul f.uv_stride (f.height / 2)) uv_overflow
  ensure (leb required_y (length f.y_plane) && leb required_uv (length f.uv_plane)) planes_too_short
  pixels ← ok_or (checked_mul f.width f.height) output_overflow
  capacity ← ok_or (checked_add pixels (pixels / 2)) output_overflow
  ok (
      copy_rows f.y_plane f.y_stride f.width 0 f.height
      ++ copy_rows f.uv_plane f.uv_stride f.width 0 (f.height / 2))

abbrev is_nv12 : NativePixelFormat → Bool
is_nv12 nv12 = true
is_nv12 yuyv = false

-- The errors of the device of macOS, without their texts.
pub data NativeError : Type 0 where
  unsupported_output_profile : ProfileValidationError → NativeError
  read_failed malformed_event other_format not_committed size_mismatch write_failed : NativeError
  not_packed : PackError → NativeError

-- `preflight` asks no driver here.
unfoldable pub preflight : StreamProfile → Result NativeError (Unit {0})
preflight p = map_err unsupported_output_profile (validate p)

abbrev pub is_format_of : NativeOutputFormat → StreamProfile → Bool
is_format_of n p =
    n.width == p.width && (n.height == p.height && (n.fps == p.fps && is_nv12 n.pixel_format))

abbrev malformed : {E A : Type 0} → Result E A → Result NativeError A
malformed (ok a) = ok a
malformed (err e) = err malformed_event

-- The checks of `commit`; `event` is what `read_format_event` gave.
unfoldable pub checked_event : Option (List ℕ) → StreamProfile → Result NativeError (Unit {0})
unfolding preflight
checked_event event p = do
  preflight p
  bytes ← ok_or event read_failed
  native ← malformed (parse bytes)
  ensure (is_format_of native p) other_format

-- `commit`, on the committed profile.
unfoldable pub commit :
    Option (List ℕ)
    → StreamProfile
    → Option StreamProfile
    → Option StreamProfile × Result NativeError (Unit {0})
unfolding checked_event
commit event p committed = elim (checked_event event p) [
  | ok _ ↦ (some p, ok tt)
  | err e ↦ (committed, err e)
]

-- `output_format`
unfoldable pub output_format : Option StreamProfile → Option NativeOutputFormat
output_format none = none
output_format (some p) =
    some (record { width = p.width; height = p.height; fps = p.fps; pixel_format = nv12 })

-- `write_frame`, with the bytes that the driver gets; `writes` says that it takes them.
unfoldable pub write_frame :
    (writes : Bool) → Option StreamProfile → Nv12Frame → Result NativeError (List ℕ)
unfolding packed_nv12
write_frame writes committed f = do
  p ← ok_or committed not_committed
  ensure (f.width == p.width && f.height == p.height) size_mismatch
  bytes ← map_err not_packed (packed_nv12 f)
  ensure writes write_failed
  ok bytes
