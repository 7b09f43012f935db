-- ===== src/Output/Device.antt =====
-- `OutputDevice` on Linux (rust/phonecam-desktop/src-tauri/src/output.rs). What the V4L2 driver
-- answers is an argument of each operation that asks it.
pub mod Laws
use phone_cam.Prelude.{
  ℕ, Bool, ◌&&◌, Option, none, some, List, Result, ok, err, ensure, ok_or, map_err, ◌>>=◌, ◌>>◌,
  ◌==◌, nat_eq,
}
use phone_cam.Text.{Text}
use phone_cam.Protocol.Profile.{StreamProfile, ProfileValidationError, validate}
use phone_cam.Video.Planes.{Nv12Frame}
use phone_cam.Video.Convert.{ConvertError, Converter, new_converter, convert}

pub data NativePixelFormat : Type 0 where
  nv12 yuyv : NativePixelFormat

pub record NativeOutputFormat : Type 0 where
  pub width : ℕ
  pub height : ℕ
  pub fps : ℕ
  pub pixel_format : NativePixelFormat

-- The texts of the errors, without what they quote of the driver's.
pub data OutputError : Type 0 where
  unsupported_output_profile : ProfileValidationError → OutputError
  probe_failed : OutputError
  not_supported : ℕ → ℕ → ℕ → OutputError
  commit_failed : OutputError
  converter_failed : ConvertError → OutputError
  not_committed : OutputError
  size_mismatch : OutputError
  converter_missing : OutputError
  conversion_failed : ConvertError → OutputError
  write_failed : OutputError

-- `v4l::Format` and `v4l::Fraction`
pub record Format : Type 0 where
  pub width : ℕ
  pub height : ℕ
  pub fourcc : Text
  pub size : ℕ

pub record Fraction : Type 0 where
  pub numerator : ℕ
  pub denominator : ℕ

-- What the kernel keeps of a `V4l2Device`: the format and the interval that it last set.
pub record V4l2Device : Type 0 where
  pub format : Option Format
  pub interval : Option Fraction

-- What the device answers at one moment: `supports_format`, `set_format` and `write_frame` of the
-- V4L2 wrapper. `none` and `false` stand for its errors. `left_by_set_format` is the device after a
-- `set_format`, which may have changed it also where it failed.
pub record V4l2 : Type 0 where
  pub supports_format : ℕ → ℕ → ℕ → Option Bool
  pub set_format : ℕ → ℕ → ℕ → Bool
  pub left_by_set_format : ℕ → ℕ → ℕ → V4l2Device → V4l2Device
  pub writes : Bool

pub record OutputDevice : Type 0 where
  pub device : V4l2Device
  pub converter : Option Converter
  pub committed_profile : Option StreamProfile

-- The device that `OutputDevice::open` returns.
abbrev pub opened : V4l2Device → OutputDevice
opened device = record { device = device; converter = none; committed_profile = none }

-- `OutputDevice::preflight`
unfoldable pub preflight : V4l2 → StreamProfile → Result OutputError (Unit {0})
preflight v p = do
  map_err unsupported_output_profile (validate p)
  supported ← ok_or (v.supports_format p.width p.height p.fps) probe_failed
  ensure supported (not_supported p.width p.height p.fps)

-- The converter that `OutputDevice::commit` installs once the driver agreed.
unfoldable pub agreed_converter : V4l2 → StreamProfile → Result OutputError Converter
agreed_converter v p = do
  preflight v p
  ensure (v.set_format p.width p.height p.fps) commit_failed
  map_err converter_failed (new_converter p.width p.height)

-- The device as `OutputDevice::commit` leaves it: it is asked to set the format after the preflight.
abbrev pub asked : V4l2 → V4l2Device → StreamProfile → V4l2Device
asked v device p = elim (preflight v p) [
  | ok _ ↦ v.left_by_set_format p.width p.height p.fps device
  | err _ ↦ device
]

-- `OutputDevice::commit`
unfoldable pub commit :
    V4l2 → OutputDevice → StreamProfile → OutputDevice × Result OutputError (Unit {0})
commit v d p =
    let device = asked v d.device p in
    elim (agreed_converter v p) [
      | ok k ↦ (record { device = device; converter = some k; committed_profile = some p }, ok tt)
      | err e ↦ (record d { device = device }, err e)
    ]

-- `OutputDevice::output_format`
unfoldable pub output_format : OutputDevice → Option NativeOutputFormat
output_format d = elim d.committed_profile [
  | none ↦ none
  | some p ↦ some (record { width = p.width; height = p.height; fps = p.fps; pixel_format = yuyv })
]

-- `OutputDevice::write_frame`, with the bytes that the driver gets. The time stamp is not used.
unfoldable pub write_frame : V4l2 → OutputDevice → Nv12Frame → ℕ → Result OutputError (List ℕ)
write_frame v d f _ = do
  p ← ok_or d.committed_profile not_committed
  ensure (f.width == p.width && f.height == p.height) size_mismatch
  k ← ok_or d.converter converter_missing
  out ← map_err conversion_failed (convert k f)
  ensure v.writes write_failed
  ok out.bytes
