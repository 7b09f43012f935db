-- ===== src/Protocol/Profile/Sets.antt =====
-- The profiles that the protocol knows, in the order in which the desktop qualifies them, and a
-- bound on the length of a valid list.
use phone_cam.Prelude.{
  ℕ, ◌≡◌, refl, ◌≤◌, true, List, [], ◌∷◌, ◌++◌, map, arith, ok, contains, All, length,
  Nodup-length-le, nat_eq, pair_eq,
}
use phone_cam.Protocol.Profile.{
  VideoCodec, h264, hevc, StreamProfile, profile_eq, supported_dimensions, supported_frame_rates,
  validate, validate_profiles, validate_each,
}
use phone_cam.Protocol.Profile.Laws.{IsSupported, validate-ok_of, validate_profiles-ok_iff}

abbrev at_rates : VideoCodec → ℕ × ℕ → List StreamProfile
at_rates c d =
    map (λ f. record { codec = c; width = d.0; height = d.1; fps = f }) supported_frame_rates

abbrev at_sizes : VideoCodec → List (ℕ × ℕ) → List StreamProfile
at_sizes c [] = []
at_sizes c (d ∷ ds) = at_rates c d ++ at_sizes c ds

-- The nested loops over the codecs, the dimensions and the frame rates.
unfoldable pub every_profile : List StreamProfile
every_profile = at_sizes h264 supported_dimensions ++ at_sizes hevc supported_dimensions

pub validate-every_profile :
    (p : StreamProfile) → validate p ≡ ok tt → contains every_profile p ≡ true
unfolding validate every_profile contains
validate-every_profile p h = ground arith

All-every_profile :
    (ps : List StreamProfile) → All IsSupported ps → All (λ p. contains every_profile p ≡ true) ps
All-every_profile [] a = tt
All-every_profile (p ∷ ps) a =
    (validate-every_profile p (validate-ok_of p a.0), All-every_profile ps a.1)

-- A list that `validate_profiles` accepts has at most 30 profiles, and the list of all 30 is
-- accepted.
pub validate_profiles-length-le :
    ((ps : List StreamProfile) → validate_profiles ps ≡ ok tt → length ps ≤ 30)
    × (validate_profiles every_profile ≡ ok tt)
    × (length every_profile ≡ 30)
unfolding validate_profiles validate_each validate contains every_profile
validate_profiles-length-le = (
  (λ ps h.
      let l = (validate_profiles-ok_iff ps).0 h in
      Nodup-length-le ps every_profile l.distinct (All-every_profile ps l.supported)),
  refl,
  refl,
)
