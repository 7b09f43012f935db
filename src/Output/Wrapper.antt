-- ===== src/Output/Wrapper.antt =====
-- The V4L2 wrapper (rust/phonecam-driver-linux/src/device.rs and format.rs). What the kernel and the
-- crate v4l answer is a parameter, `Kernel`.
pub mod Laws
use phone_cam.Prelude.{
  ℕ, ◌*◌, ◌^◌, Bool, true, false, ◌&&◌, ◌||◌, not, Option, none, some, List, [], ◌∷◌, Result, ok,
  err, ok_or, map_err, ensure, ◌>>=◌, ◌>>◌, is_ok, leb, ltb, ◌==◌, nat_eq, if◌then◌else◌,
}
use phone_cam.Text.{Text}
use phone_cam.Text.Order.{text_eq}
use phone_cam.Text.Split.{codes}
use phone_cam.Output.Device.{Format, Fraction, V4l2Device, V4l2}

pub data PixelFormat : Type 0 where
  yuyv mjpeg rgb24 nv12 : PixelFormat

abbrev pub to_fourcc : PixelFormat → Text
to_fourcc yuyv = codes "YUYV"
to_fourcc mjpeg = codes "MJPG"
to_fourcc rgb24 = codes "RGB3"
to_fourcc nv12 = codes "NV12"

-- The intervals of frames.
pub data Interval : Type 0 where
  discrete : Fraction → Interval
  stepwise : (min : Fraction) → (max : Fraction) → Interval

-- A `std::io::Error` by its text.
abbrev pub IoError : Type 0
IoError = Text

-- The ioctls, and the numbers `f64` by their bits: `f64_div` divides two that are made `From` a
-- `u32`, and `f64_le` compares.
pub record Kernel : Type 0 where
  pub try_format : ℕ → ℕ → Text → Result IoError Format
  pub set_format : ℕ → ℕ → Text → Result IoError Format
  pub intervals : Text → ℕ → ℕ → Result IoError (List Interval)
  pub set_interval : ℕ → Result IoError Fraction  -- `set_params` for a rate
  pub f64_div : ℕ → ℕ → ℕ
  pub f64_le : ℕ → ℕ → Bool
  pub writes : Bool

-- The values that the text of an invalid format quotes.
pub data InvalidFormat : Type 0 where
  frame_size_overflows : InvalidFormat
  format_differs :
      (actual : Format)
      → (width height : ℕ) → (requested : PixelFormat) → (minimum_size : ℕ) → InvalidFormat
  interval_differs : (interval : Fraction) → (fps : ℕ) → InvalidFormat

pub data DriverError : Type 0 where
  v4l2_error : IoError → DriverError
  device_not_found : Text → DriverError
  invalid_format : InvalidFormat → DriverError
  driver_not_loaded : DriverError
  module_not_loaded : (instructions : Text) → DriverError
  operation_failed : Text → DriverError

-- The format is the one asked for, in at least so many bytes.
abbrev pub is_as_asked : Format → ℕ → ℕ → PixelFormat → ℕ → Bool
is_as_asked actual width height f size =
    actual.width == width
    && (actual.height == height && (actual.fourcc == to_fourcc f && leb size actual.size))

-- `saturating_mul` on a `u32`
abbrev pub saturating_mul : ℕ → ℕ → ℕ
saturating_mul a b = if ltb (a * b) (2 ^ 32) then a * b else 4294967295

-- `checked_mul` on a `u32`
abbrev pub checked_mul_u32 : ℕ → ℕ → Option ℕ
checked_mul_u32 a b = if ltb (a * b) (2 ^ 32) then some (a * b) else none

abbrev pub minimum_size : ℕ → ℕ → Option ℕ
minimum_size width height = elim (checked_mul_u32 width height) [
  | none ↦ none
  | some pixels ↦ checked_mul_u32 pixels 2
]

abbrev pub is_exact : Fraction → ℕ → Bool
is_exact x fps = x.numerator * fps == x.denominator

-- Whether 1 / fps lies between the bounds.
abbrev pub is_between : Kernel → Fraction → Fraction → ℕ → Bool
is_between k min max fps =
    let requested = k.f64_div 1 fps in
    let minimum = k.f64_div min.numerator min.denominator in
    let maximum = k.f64_div max.numerator max.denominator in
    k.f64_le minimum requested && k.f64_le requested maximum

abbrev pub takes_rate : Kernel → ℕ → Interval → Bool
takes_rate k fps (discrete x) = is_exact x fps
takes_rate k fps (stepwise min max) = is_between k min max fps

abbrev any_takes : Kernel → ℕ → List Interval → Bool
any_takes k fps [] = false
any_takes k fps (i ∷ is) = takes_rate k fps i || any_takes k fps is

abbrev offers_rate : Kernel → ℕ → List Interval → Bool
offers_rate k fps [] = true
offers_rate k fps (i ∷ is) = any_takes k fps (i ∷ is)

-- `unwrap_or_default`
abbrev unwrap_or_default : Result IoError (List Interval) → List Interval
unwrap_or_default (ok is) = is
unwrap_or_default (err e) = []

unfoldable pub supports_format : Kernel → ℕ → ℕ → PixelFormat → ℕ → Result DriverError Bool
supports_format k width height f fps =
    if width == 0 || (height == 0 || fps == 0)
    then ok false
    else elim (k.try_format width height (to_fourcc f)) [
      | err e ↦ err (v4l2_error e)
      | ok actual ↦
          if is_as_asked actual width height f (saturating_mul (saturating_mul width height) 2)
          then ok (offers_rate k fps (unwrap_or_default (k.intervals (to_fourcc f) width height)))
          else ok false
    ]

unfoldable pub set_format : Kernel → ℕ → ℕ → PixelFormat → ℕ → Result DriverError (Unit {0})
set_format k width height f fps = do
  actual ← map_err v4l2_error (k.set_format width height (to_fourcc f))
  size ← ok_or (minimum_size width height) (invalid_format frame_size_overflows)
  ensure (is_as_asked actual width height f size)
      (invalid_format (format_differs actual width height f size))
  interval ← map_err v4l2_error (k.set_interval fps)
  ensure (is_exact interval fps) (invalid_format (interval_differs interval fps))

-- The interval that the kernel keeps: it is set only once the format passed its tests.
unfoldable pub left_interval :
    Kernel → ℕ → ℕ → PixelFormat → ℕ → Format → Option Fraction → Option Fraction
left_interval k width height f fps actual before = elim (minimum_size width height) [
  | none ↦ before
  | some size ↦
      if is_as_asked actual width height f size
      then elim (k.set_interval fps) [ ok interval ↦ some interval | err _ ↦ before ]
      else before
]

-- The kernel's device after a `set_format`: what the ioctls set stays, whatever the tests say.
unfoldable pub left_by_set_format : Kernel → ℕ → ℕ → PixelFormat → ℕ → V4l2Device → V4l2Device
unfolding left_interval
left_by_set_format k width height f fps device = elim (k.set_format width height (to_fourcc f)) [
  | err _ ↦ device
  | ok actual ↦ record {
    format = some actual;
    interval = left_interval k width height f fps actual device.interval;
  }
]

-- `Result::ok`
abbrev pub without_error : Result DriverError Bool → Option Bool
without_error (ok b) = some b
without_error (err e) = none

-- The wrapper as the output device calls it.
abbrev pub as_v4l2 : Kernel → V4l2
as_v4l2 k = record {
  supports_format = λ width height fps. without_error (supports_format k width height yuyv fps);
  set_format = λ width height fps. is_ok (set_format k width height yuyv fps);
  left_by_set_format = λ width height fps device. left_by_set_format k width height yuyv fps device;
  writes = k.writes;
}
