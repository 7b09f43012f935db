-- ===== src/Shell.antt =====
-- The commands of the desktop's window (rust/phonecam-desktop/src-tauri/src/lib.rs), as far as they
-- decide something.
pub mod Laws
use phone_cam.Prelude.{
  ℕ, Bool, true, false, ◌||◌, Option, none, some, [], ◌∷◌, Result, ok, err, ensure, ◌>>◌, ◌==◌,
  nat_eq, pair_eq, contains, if◌then◌else◌,
}
use phone_cam.Text.{Text, trim, is_empty}
use phone_cam.Text.Order.{text_eq}
use phone_cam.Text.Split.{codes, strip_prefix, to_ascii_lowercase}
use phone_cam.Protocol.Profile.{supported_dimensions, supported_frame_rates}
use phone_cam.Adb.Binary.{Machine, Environment}
use phone_cam.Pipeline.Profiles.{CodecPreference, h264_only, hevc_only, auto}
use phone_cam.Pipeline.Manager.{
  PipelineStartMode, wifi, usb, Runtime, Called, listen_port, start_with_mode, stop,
}

-- `or_else` of the four prefixes, in their order.
unfoldable pub after_prefix : Text → Option Text
unfolding strip_prefix
after_prefix t = elim (strip_prefix (codes "usb:") t) [
  | some s ↦ some s
  | none ↦ elim (strip_prefix (codes "adb:") t) [
    | some s ↦ some s
    | none ↦ elim (strip_prefix (codes "usb://") t) [
      | some s ↦ some s
      | none ↦ strip_prefix (codes "adb://") t
    ]
  ]
]

-- `.map(str::trim).filter(|value| !value.is_empty())`
abbrev pub non_blank : Option Text → Option Text
non_blank none = none
non_blank (some s) = if is_empty (trim s) then none else some (trim s)

-- `eq_ignore_ascii_case`, with a word in lower case
abbrev pub is_word : Text → Text → Bool
is_word t word = to_ascii_lowercase t == word

-- The target of a trimmed input. `ConnectionTarget` has the constructors of the start modes.
unfoldable pub target_of : Text → PipelineStartMode
target_of trimmed = elim (non_blank (after_prefix trimmed)) [
  | some serial ↦ usb (some serial)
  | none ↦
      if is_word trimmed (codes "usb")
        || (is_word trimmed (codes "adb")
            || (is_word trimmed (codes "localhost") || trimmed == codes "127.0.0.1"))
      then usb none
      else wifi
]

unfoldable pub connection_target_from_input : Text → PipelineStartMode
connection_target_from_input ip = target_of (trim ip)

module _ (M : Machine) (E : Environment M) where
  -- `connect`: the old worker is stopped first.
  unfoldable pub connect : (joins : Bool) → Text → ℕ → Runtime M E → Called M E
  connect joins ip port r =
      let stopped = stop M E joins r in
      elim stopped.result [
        | err e ↦ stopped
        | ok _ ↦
            start_with_mode M E (listen_port M E port) (connection_target_from_input ip)
              stopped.runtime
      ]

pub data InputError : Type 0 where
  unsupported_resolution unsupported_frame_rate unsupported_codec : InputError

unfoldable pub validate_stream_configuration : ℕ → ℕ → ℕ → Result InputError (Unit {0})
validate_stream_configuration width height fps = do
  ensure (contains supported_dimensions (width, height)) unsupported_resolution
  ensure (contains supported_frame_rates fps) unsupported_frame_rate

-- The codec's name in `configure_stream`.
unfoldable pub preference_of : Text → Result InputError CodecPreference
preference_of codec =
    if codec == codes "h264"
    then ok h264_only
    else if codec == codes "hevc"
    then ok hevc_only
    else if codec == codes "auto"
    then ok auto
    else err unsupported_codec
