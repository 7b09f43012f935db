-- ===== src/Protocol/Profile.antt =====
-- Stream profiles and their validation (rust/phonecam-protocol/src/lib.rs). A `u8`, `u16` or `u32`
-- is a number; the validation compares numbers only, so no bound on them is needed.
pub mod Sets
pub mod Laws
use phone_cam.Prelude.{
  ℕ, ◌≡◌, ◌↔◌, Bool, true, false, ◌&&◌, not, Option, none, some, List, [], ◌∷◌, ◌++◌, arith, Result,
  ok, err, ensure, ◌>>=◌, ◌>>◌, PartialEq, ◌==◌, nat_eq, pair_eq, contains, if◌then◌else◌,
}

pub data VideoCodec : Type 0 where
  h264 hevc : VideoCodec

-- `#[repr(u8)]`
unfoldable pub codec_id : VideoCodec → ℕ
codec_id h264 = 0
codec_id hevc = 1

abbrev pub codec_beq : VideoCodec → VideoCodec → Bool
codec_beq h264 h264 = true
codec_beq hevc hevc = true
codec_beq _ _ = false

pub codec_beq_iff : (a b : VideoCodec) → (codec_beq a b ≡ true) ↔ (a ≡ b)
codec_beq_iff a b = ground arith

instance abbrev pub codec_eq : PartialEq VideoCodec
codec_eq = record { same = codec_beq; same_iff = codec_beq_iff }

pub record StreamProfile : Type 0 where
  pub codec : VideoCodec
  pub width : ℕ
  pub height : ℕ
  pub fps : ℕ

abbrev pub profile_beq : StreamProfile → StreamProfile → Bool
profile_beq p q =
    p.codec == q.codec && (p.width == q.width && (p.height == q.height && p.fps == q.fps))

pub profile_beq_iff : (p q : StreamProfile) → (profile_beq p q ≡ true) ↔ (p ≡ q)
profile_beq_iff p q = ground arith

instance abbrev pub profile_eq : PartialEq StreamProfile
profile_eq = record { same = profile_beq; same_iff = profile_beq_iff }

abbrev pub protocol_version : ℕ
protocol_version = 2

abbrev pub supported_dimensions : List (ℕ × ℕ)
supported_dimensions = (640, 480) ∷ (1280, 720) ∷ (1920, 1080) ∷ (2560, 1440) ∷ (3840, 2160) ∷ []

abbrev pub supported_frame_rates : List ℕ
supported_frame_rates = 15 ∷ 30 ∷ 60 ∷ []

abbrev pub h264_720p30 : StreamProfile
h264_720p30 = record { codec = h264; width = 1280; height = 720; fps = 30 }

pub data ProfileValidationError : Type 0 where
  unsupported_protocol_version : ℕ → ℕ → ProfileValidationError
  empty_supported_profiles : ProfileValidationError
  duplicate_profile : StreamProfile → ProfileValidationError
  invalid_codec : ℕ → ProfileValidationError
  invalid_dimensions : ℕ → ℕ → ProfileValidationError
  invalid_frame_rate : ℕ → ProfileValidationError
  active_profile_unsupported : StreamProfile → ProfileValidationError
  frame_profile_mismatch : VideoCodec → ℕ → ℕ → StreamProfile → ProfileValidationError

-- `VideoCodec::try_from`
unfoldable pub codec_try_from : ℕ → Result ProfileValidationError VideoCodec
codec_try_from value =
    if value == 0 then ok h264 else if value == 1 then ok hevc else err (invalid_codec value)

-- `StreamProfile::validate`
unfoldable pub validate : StreamProfile → Result ProfileValidationError (Unit {0})
validate p = do
  ensure (contains supported_dimensions (p.width, p.height)) (invalid_dimensions p.width p.height)
  ensure (contains supported_frame_rates p.fps) (invalid_frame_rate p.fps)

-- The loop of `validate_profiles`; `before` is `profiles[..index]`.
unfoldable pub validate_each :
    List StreamProfile → List StreamProfile → Result ProfileValidationError (Unit {0})
validate_each before [] = ok tt
validate_each before (profile ∷ rest) =
    let others = validate_each (before ++ profile ∷ []) rest in
    do validate profile; ensure (not (contains before profile)) (duplicate_profile profile); others

unfoldable pub validate_profiles : List StreamProfile → Result ProfileValidationError (Unit {0})
validate_profiles [] = err empty_supported_profiles
validate_profiles (profile ∷ rest) = validate_each [] (profile ∷ rest)
