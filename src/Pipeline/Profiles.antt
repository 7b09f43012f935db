-- ===== src/Pipeline/Profiles.antt =====
-- Choosing profiles and numbering requests (rust/phonecam-desktop/src-tauri/src/pipeline.rs).
pub mod Laws
use phone_cam.Prelude.{
  ℕ, ◌+◌, ◌%◌, ◌^◌, Bool, true, false, ◌&&◌, Option, none, some, List, [], ◌∷◌, ◌++◌, Result, ok,
  err, ok_or, is_ok, ◌==◌, nat_eq, contains, if◌then◌else◌,
}
use phone_cam.Protocol.Profile.{VideoCodec, h264, hevc, codec_eq, StreamProfile, profile_eq}
use phone_cam.Protocol.Profile.Sets.{every_profile}
use phone_cam.Output.Device.{V4l2, preflight}

pub data CodecPreference : Type 0 where
  h264_only hevc_only auto : CodecPreference

-- `Iterator::filter` with a Boolean test, and `find`.
unfoldable pub select {ℓ} : {A : Type ℓ} → (A → Bool) → List A → List A
select keep [] = []
select keep (x ∷ xs) = if keep x then x ∷ select keep xs else select keep xs

unfoldable pub find {ℓ} : {A : Type ℓ} → (A → Bool) → List A → Option A
find test [] = none
find test (x ∷ xs) = if test x then some x else find test xs

-- `qualified_output_profiles`: the nested loops run through `every_profile` in its order.
unfoldable pub qualified_output_profiles : V4l2 → List StreamProfile
unfolding select
qualified_output_profiles v = select (λ p. is_ok (preflight v p)) every_profile

-- `wrapping_add` on a `u32`, and the step over 0.
unfoldable pub next_request_id : ℕ → ℕ
next_request_id counter = let next = (counter + 1) % 2 ^ 32 in if next == 0 then 1 else next

unfoldable pub common_profiles : List StreamProfile → List StreamProfile → List StreamProfile
unfolding select
common_profiles local peer = select (contains peer) local

unfoldable pub codec_order : CodecPreference → List VideoCodec
codec_order h264_only = h264 ∷ []
codec_order hevc_only = hevc ∷ []
codec_order auto = hevc ∷ h264 ∷ []

-- The test of `resolve_profile` on one profile.
abbrev pub is_wanted : ℕ → ℕ → ℕ → VideoCodec → StreamProfile → Bool
is_wanted width height fps codec p =
    p.codec == codec && (p.width == width && (p.height == height && p.fps == fps))

-- `codec_order.iter().find_map(..)`
unfoldable pub find_by_codec :
    List StreamProfile → ℕ → ℕ → ℕ → List VideoCodec → Option StreamProfile
unfolding find
find_by_codec common width height fps [] = none
find_by_codec common width height fps (codec ∷ codecs) =
    elim (find (is_wanted width height fps codec) common) [
      | some p ↦ some p
      | none ↦ find_by_codec common width height fps codecs
    ]

unfoldable pub resolve_profile :
    List StreamProfile → ℕ → ℕ → ℕ → CodecPreference → Option StreamProfile
unfolding find_by_codec codec_order
resolve_profile common width height fps preference =
    find_by_codec common width height fps (codec_order preference)

unfoldable pub accepts_applied_profile : List StreamProfile → StreamProfile → StreamProfile → Bool
accepts_applied_profile common requested applied =
    contains common applied
    && (applied.width == requested.width
        && (applied.height == requested.height && applied.fps == requested.fps))
