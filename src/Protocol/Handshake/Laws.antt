-- ===== src/Protocol/Handshake/Laws.antt =====
-- What `Handshake::validate`, `VideoCapabilitiesUpdate::validate` and
-- `VideoFrame::validate_against` accept.
use phone_cam.Prelude.{
  ◌≡◌, ◌↔◌, refl, Option, none, some, ok, arith, Mem, List, contains→mem, mem→contains, true,
  contains,
}
use phone_cam.Protocol.Profile.{StreamProfile, profile_eq, protocol_version}
use phone_cam.Protocol.Profile.Laws.{IsProfileList, validate_profiles-ok_iff}
use phone_cam.Protocol.Handshake.{
  Handshake, validate_handshake, validate_active, CapabilitiesUpdate, validate_update, VideoFrame,
  validate_against,
}

-- A handshake that `validate` should accept.
pub record IsHandshake (h : Handshake) : Type 0 where
  pub current : h.version ≡ protocol_version
  pub profiles : IsProfileList h.supported_profiles
  pub active : (p : StreamProfile) → h.active_profile ≡ some p → Mem p h.supported_profiles

validate_active-ok :
    (ps : List StreamProfile) (a : Option StreamProfile) (p : StreamProfile)
    → validate_active ps a ≡ ok tt
    → a ≡ some p
    → contains ps p ≡ true
unfolding validate_active
validate_active-ok ps none p h e = cc
validate_active-ok ps (some q) p h e = ground arith

validate_active-ok_of :
    (ps : List StreamProfile) (a : Option StreamProfile)
    → ((p : StreamProfile) → a ≡ some p → contains ps p ≡ true)
    → validate_active ps a ≡ ok tt
unfolding validate_active
validate_active-ok_of ps none h = refl
validate_active-ok_of ps (some q) h = rw (h q refl)

-- `Handshake::validate` accepts exactly the handshakes of version 2 with a valid profile list
-- that holds the active profile, if there is one.
pub validate_handshake-ok_iff : (h : Handshake) → (validate_handshake h ≡ ok tt) ↔ IsHandshake h
unfolding validate_handshake
validate_handshake-ok_iff h = (
  λ v. record {
    current = ground arith;
    profiles = (validate_profiles-ok_iff h.supported_profiles).0 (ground arith);
    active = λ p e.
        contains→mem _ p
          (validate_active-ok h.supported_profiles h.active_profile p (ground arith) e);
  },
  λ i.
      rw (i.current, (validate_profiles-ok_iff h.supported_profiles).1 i.profiles)
        (validate_active-ok_of _ _ λ p e. mem→contains _ (i.active p e)),
)

-- A capability update is accepted exactly if its list is valid and holds the active profile.
pub validate_update-ok_iff :
    (u : CapabilitiesUpdate) (active : StreamProfile)
    → (validate_update u active ≡ ok tt)
      ↔ (IsProfileList u.supported_profiles × Mem active u.supported_profiles)
unfolding validate_update
validate_update-ok_iff u active = (
  λ v. (
    (validate_profiles-ok_iff u.supported_profiles).0 (ground arith),
    contains→mem _ active (ground arith),
  ),
  λ i. rw ((validate_profiles-ok_iff u.supported_profiles).1 i.0, mem→contains _ i.1) refl,
)

-- A frame is accepted exactly if its codec, width and height are those of the active profile; its
-- frame rate is not compared.
pub validate_against-ok_iff :
    (f : VideoFrame) (p : StreamProfile)
    → (validate_against f p ≡ ok tt)
      ↔ ((f.codec ≡ p.codec) × (f.width ≡ p.width) × (f.height ≡ p.height))
unfolding validate_against
validate_against-ok_iff f p = (λ h. ground arith, λ h. ground arith)
