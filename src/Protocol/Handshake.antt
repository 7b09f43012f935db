-- ===== src/Protocol/Handshake.antt =====
-- Handshakes, capability updates and video frames (rust/phonecam-protocol/src/lib.rs).
pub mod Laws
use phone_cam.Prelude.{
  ℕ, Bool, ◌&&◌, Option, none, some, List, String, Result, ok, ensure, ◌>>◌, ◌==◌, contains, nat_eq,
}
use phone_cam.Protocol.Profile.{
  VideoCodec, codec_eq, StreamProfile, profile_eq, ProfileValidationError,
  unsupported_protocol_version, active_profile_unsupported, frame_profile_mismatch,
  protocol_version, validate_profiles,
}

pub record Handshake : Type 0 where
  pub version : ℕ
  pub device_name : String
  pub supported_profiles : List StreamProfile
  pub active_profile : Option StreamProfile

-- The last test of `Handshake::validate`.
unfoldable pub validate_active :
    List StreamProfile → Option StreamProfile → Result ProfileValidationError (Unit {0})
validate_active supported none = ok tt
validate_active supported (some active) =
    ensure (contains supported active) (active_profile_unsupported active)

-- `Handshake::validate`
unfoldable pub validate_handshake : Handshake → Result ProfileValidationError (Unit {0})
unfolding validate_active
validate_handshake h = do
  ensure (h.version == protocol_version) (unsupported_protocol_version h.version protocol_version)
  validate_profiles h.supported_profiles
  validate_active h.supported_profiles h.active_profile

-- `VideoCapabilitiesUpdate`
pub record CapabilitiesUpdate : Type 0 where
  pub supported_profiles : List StreamProfile

-- `VideoCapabilitiesUpdate::validate`
unfoldable pub validate_update :
    CapabilitiesUpdate → StreamProfile → Result ProfileValidationError (Unit {0})
validate_update u active = do
  validate_profiles u.supported_profiles
  ensure (contains u.supported_profiles active) (active_profile_unsupported active)

pub record VideoFrame : Type 0 where
  pub bytes : List ℕ  -- the field `data`
  pub pts_us : ℕ
  pub codec : VideoCodec
  pub width : ℕ
  pub height : ℕ
  pub is_keyframe : Bool

-- `VideoFrame::validate_against`
unfoldable pub validate_against :
    VideoFrame → StreamProfile → Result ProfileValidationError (Unit {0})
validate_against f active =
    ensure (f.codec == active.codec && (f.width == active.width && f.height == active.height))
      (frame_profile_mismatch f.codec f.width f.height active)
