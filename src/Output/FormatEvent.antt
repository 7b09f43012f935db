-- ===== src/Output/FormatEvent.antt =====
-- `NativeFormatEvent`, by which the drivers of macOS and Windows tell the desktop the format that an
-- application chose (rust/phonecam-desktop/src-tauri/src/output.rs).
pub mod Laws
use phone_cam.Prelude.{
  ℕ, ◌+◌, ◌*◌, ◌/◌, ◌%◌, ◌<◌, ◌≡◌, ◌↔◌, refl, Bool, true, false, ◌&&◌, Option, none, some, List, [],
  ◌∷◌, Result, ok, err, ensure, ◌>>=◌, ◌>>◌, ok_or, ltb, ◌==◌, nat_eq, pair_eq, contains, arith,
  All, if◌then◌else◌,
}
use phone_cam.Protocol.Profile.{supported_dimensions, supported_frame_rates}
use phone_cam.Output.Device.{NativePixelFormat, nv12, yuyv, NativeOutputFormat}

pub data FormatEventError : Type 0 where
  invalid_header width_exceeds_u16 height_exceeds_u16 unsupported_tuple : FormatEventError
  unsupported_pixel_format reserved_bytes_not_zero : FormatEventError

-- `u32::from_le_bytes`
abbrev pub le_value : ℕ → ℕ → ℕ → ℕ → ℕ
le_value a b c d = a + 256 * b + 65536 * c + 16777216 * d

-- `u16::try_from`
abbrev pub u16_try_from : ℕ → Option ℕ
u16_try_from n = if ltb n 65536 then some n else none

unfoldable pub pixel_format_of : ℕ → Option NativePixelFormat
pixel_format_of byte = if byte == 0 then some nv12 else if byte == 1 then some yuyv else none

-- `parse` once the length and the magic bytes are right.
unfoldable pub parse_fields : ℕ → ℕ → ℕ → ℕ → ℕ → ℕ → Result FormatEventError NativeOutputFormat
unfolding pixel_format_of
parse_fields width_u32 height_u32 fps pixel r s = do
  width ← ok_or (u16_try_from width_u32) width_exceeds_u16
  height ← ok_or (u16_try_from height_u32) height_exceeds_u16
  ensure (contains supported_dimensions (width, height) && contains supported_frame_rates fps)
      unsupported_tuple
  pixel_format ← ok_or (pixel_format_of pixel) unsupported_pixel_format
  ensure (r == 0 && s == 0) reserved_bytes_not_zero
  ok (record { width = width; height = height; fps = fps; pixel_format = pixel_format })

-- `NativeFormatEvent::parse`; the magic is "PCFM".
unfoldable pub parse : List ℕ → Result FormatEventError NativeOutputFormat
unfolding parse_fields
parse (p ∷ q ∷ m ∷ n ∷ a ∷ b ∷ c ∷ d ∷ e ∷ f ∷ g ∷ h ∷ fps ∷ pixel ∷ r ∷ s ∷ []) =
    if p == b'P' && (q == b'C' && (m == b'F' && n == b'M'))
    then parse_fields (le_value a b c d) (le_value e f g h) fps pixel r s
    else err invalid_header
parse _ = err invalid_header

unfoldable pub pixel_byte : NativePixelFormat → ℕ
pixel_byte nv12 = 0
pixel_byte yuyv = 1

-- `NativeFormatEvent::encode`; the width and the height are `u16`, so two of the four bytes are 0.
unfoldable pub encode : NativeOutputFormat → List ℕ
unfolding pixel_byte
encode f =
    b'P'
    ∷ b'C'
    ∷ b'F'
    ∷ b'M'
    ∷ f.width % 256
    ∷ f.width / 256 % 256
    ∷ f.width / 65536 % 256
    ∷ f.width / 16777216 % 256
    ∷ f.height % 256
    ∷ f.height / 256 % 256
    ∷ f.height / 65536 % 256
    ∷ f.height / 16777216 % 256
    ∷ f.fps
    ∷ pixel_byte f.pixel_format
    ∷ 0
    ∷ 0
    ∷ []
