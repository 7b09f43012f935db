-- ===== src/Pipeline/Profiles/Laws.antt =====
-- What the choice of a profile returns, and that request identifiers are fresh.
use phone_cam.Prelude.{
  is_ok, ok, ℕ, ◌<◌, ◌^◌, ◌≡◌, ◌↔◌, refl, Bool, true, false, ◌&&◌, none, some, List, [], ◌∷◌, arith,
  contains, if◌then◌else◌, nat_eq,
}
use phone_cam.Protocol.Profile.{
  validate, VideoCodec, h264, hevc, codec_eq, StreamProfile, profile_eq,
}
use phone_cam.Protocol.Profile.Sets.{every_profile, validate-every_profile}
use phone_cam.Output.Device.{V4l2, preflight}
use phone_cam.Pipeline.Profiles.{
  qualified_output_profiles, CodecPreference, h264_only, hevc_only, auto, select, find,
  next_request_id, common_profiles, codec_order, is_wanted, find_by_codec, resolve_profile,
}

-- From a counter that is a `u32`, the next request identifier is a `u32`, is not 0, which stands for
-- no request, and is not the counter.
pub next_request_id-fresh :
    (counter : ℕ)
    → counter < 2 ^ 32
    → (next_request_id counter < 2 ^ 32)
      × ¬ (next_request_id counter ≡ 0)
      × ¬ (next_request_id counter ≡ counter)
unfolding next_request_id
next_request_id-fresh counter h = ground arith

pub contains-select :
    (keep : StreamProfile → Bool) (ps : List StreamProfile) (p : StreamProfile)
    → contains (select keep ps) p ≡ (contains ps p && keep p)
unfolding contains select
contains-select keep [] p = refl
contains-select keep (q ∷ ps) p = let ih = contains-select keep ps p in ground arith

-- The common profiles are those of both lists.
pub contains-common_profiles :
    (local peer : List StreamProfile) (p : StreamProfile)
    → (contains (common_profiles local peer) p ≡ true)
      ↔ (contains local p ≡ true) × (contains peer p ≡ true)
unfolding common_profiles
contains-common_profiles local peer p =
    let h = contains-select (contains peer) local p in ground arith

preflight-validate :
    (v : V4l2) (p : StreamProfile) → is_ok (preflight v p) ≡ true → validate p ≡ ok tt
unfolding preflight
preflight-validate v p h = ground arith

-- The qualified profiles are exactly those that pass the device's preflight.
pub contains-qualified_output_profiles :
    (v : V4l2) (p : StreamProfile)
    → (contains (qualified_output_profiles v) p ≡ true) ↔ (is_ok (preflight v p) ≡ true)
unfolding qualified_output_profiles
contains-qualified_output_profiles v p =
    let h = contains-select (λ q. is_ok (preflight v q)) every_profile p in
    (
      λ k. ground arith,
      λ k. let e = validate-every_profile p (preflight-validate v p k) in ground arith,
    )

abbrev profile_of : VideoCodec → ℕ → ℕ → ℕ → StreamProfile
profile_of codec width height fps = record {
  codec = codec;
  width = width;
  height = height;
  fps = fps;
}

find-is_wanted :
    (codec : VideoCodec) (width height fps : ℕ) (ps : List StreamProfile)
    → find (is_wanted width height fps codec) ps ≡ (
        if contains ps (profile_of codec width height fps)
        then some (profile_of codec width height fps)
        else none)
unfolding find contains
find-is_wanted codec width height fps [] = refl
find-is_wanted codec width height fps (p ∷ ps) =
    let ih = find-is_wanted codec width height fps ps in ground arith

-- Whether a preference admits a codec.
abbrev pub admits : CodecPreference → VideoCodec → Bool
admits h264_only h264 = true
admits h264_only hevc = false
admits hevc_only h264 = false
admits hevc_only hevc = true
admits auto _ = true

-- The choice that a user makes gets `p`: a common profile of the wanted size and rate with an
-- admitted codec, and H.264 for `auto` only where HEVC is not common.
pub record IsChoice (common : List StreamProfile) (width height fps : ℕ)
    (preference : CodecPreference) (p : StreamProfile) : Type 0 where
  pub is_common : contains common p ≡ true
  pub wanted_width : p.width ≡ width
  pub wanted_height : p.height ≡ height
  pub wanted_rate : p.fps ≡ fps
  pub admitted : admits preference p.codec ≡ true
  pub prefers_hevc :
      preference ≡ auto
      → p.codec ≡ h264
      → contains common (record { codec = hevc; width = width; height = height; fps = fps }) ≡ false

resolve_profile-IsChoice :
    (common : List StreamProfile) (width height fps : ℕ) (preference : CodecPreference)
    (p : StreamProfile)
    → resolve_profile common width height fps preference ≡ some p
    → IsChoice common width height fps preference p
unfolding resolve_profile find_by_codec codec_order
resolve_profile-IsChoice common width height fps preference p h =
    let a = find-is_wanted h264 width height fps common in
    let b = find-is_wanted hevc width height fps common in
    record {
      is_common = ground arith;
      wanted_width = ground arith;
      wanted_height = ground arith;
      wanted_rate = ground arith;
      admitted = ground arith;
      prefers_hevc = λ k l. ground arith;
    }

IsChoice-resolve_profile :
    (common : List StreamProfile) (width height fps : ℕ) (preference : CodecPreference)
    (p : StreamProfile)
    → IsChoice common width height fps preference p
    → resolve_profile common width height fps preference ≡ some p
unfolding resolve_profile find_by_codec codec_order
IsChoice-resolve_profile common width height fps preference p i =
    let a = find-is_wanted h264 width height fps common in
    let b = find-is_wanted hevc width height fps common in
    let c = i.is_common in
    let d = i.wanted_width in
    let e = i.wanted_height in
    let f = i.wanted_rate in let g = i.admitted in let k = i.prefers_hevc in ground arith

-- `resolve_profile` returns a profile if and only if it is a common profile of the wanted size and
-- rate whose codec the preference admits, and, for `auto`, HEVC at that size and rate is not common
-- if the profile is H.264.
pub resolve_profile-some_iff :
    (common : List StreamProfile) (width height fps : ℕ) (preference : CodecPreference)
    (p : StreamProfile)
    → (resolve_profile common width height fps preference ≡ some p)
      ↔ IsChoice common width height fps preference p
resolve_profile-some_iff common width height fps preference p = (
  resolve_profile-IsChoice common width height fps preference p,
  IsChoice-resolve_profile common width height fps preference p,
)
