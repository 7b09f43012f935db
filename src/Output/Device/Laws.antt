-- ===== src/Output/Device/Laws.antt =====
-- When the output device takes a profile, and what it then shows.
use phone_cam.Prelude.{
  ◌≡◌, ◌↔◌, ◌∙◌, refl, true, some, ok, err, arith, Result-cases, inl, inr, contains,
}
use phone_cam.Protocol.Profile.{StreamProfile, validate}
use phone_cam.Protocol.Profile.Laws.{IsSupported, validate-ok, validate-ok_of}
use phone_cam.Video.Planes.{is_odd}
use phone_cam.Video.Convert.{Converter, new_converter}
use phone_cam.Output.Device.{
  V4l2, V4l2Device, OutputDevice, OutputError, asked, yuyv, preflight, agreed_converter, commit,
  output_format,
}

-- The profile is one of the protocol's, and the driver supports and sets its format.
pub record IsAgreeable (v : V4l2) (p : StreamProfile) : Type 0 where
  pub supported : IsSupported p
  pub offered : v.supports_format p.width p.height p.fps ≡ some true
  pub taken : v.set_format p.width p.height p.fps ≡ true

abbrev pub converter_for : StreamProfile → Converter
converter_for p = record { width = p.width; height = p.height }

pub supported_even :
    (p : StreamProfile) → IsSupported p → new_converter p.width p.height ≡ ok (converter_for p)
unfolding new_converter is_odd validate contains
supported_even p s = let h = validate-ok_of p s in ground arith

pub agreed-IsAgreeable :
    (v : V4l2) (p : StreamProfile) (k : Converter) → agreed_converter v p ≡ ok k → IsAgreeable v p
unfolding agreed_converter preflight
agreed-IsAgreeable v p k h = record {
  supported = validate-ok p (ground arith);
  offered = ground arith;
  taken = ground arith;
}

pub IsAgreeable-agreed :
    (v : V4l2) (p : StreamProfile) → IsAgreeable v p → agreed_converter v p ≡ ok (converter_for p)
unfolding agreed_converter preflight
IsAgreeable-agreed v p a =
    rw (validate-ok_of p a.supported, a.offered, a.taken, supported_even p a.supported) refl

-- The profile is one of the protocol's, and the driver supports its format.
abbrev pub IsOffered : V4l2 → StreamProfile → Type 0
IsOffered v p = IsSupported p × (v.supports_format p.width p.height p.fps ≡ some true)

pub asked_offered :
    (v : V4l2) (device : V4l2Device) (p : StreamProfile)
    → IsOffered v p
    → asked v device p ≡ v.left_by_set_format p.width p.height p.fps device
unfolding preflight
asked_offered v device p o = rw (asked, preflight, validate-ok_of p o.0, o.1) refl

preflight-IsOffered : (v : V4l2) (p : StreamProfile) → preflight v p ≡ ok tt → IsOffered v p
unfolding preflight
preflight-IsOffered v p h = (validate-ok p (ground arith), ground arith)

asked_refused :
    (v : V4l2) (device : V4l2Device) (p : StreamProfile)
    → ¬ IsOffered v p
    → asked v device p ≡ device
asked_refused v device p n = elim (Result-cases (preflight v p)) [
  | inl (x, h) ↦ absurd (n (preflight-IsOffered v p h))
  | inr (e, h) ↦ rw (asked, h) refl
]

commit_device :
    (v : V4l2) (d : OutputDevice) (p : StreamProfile) → (commit v d p).0.device ≡ asked v d.device p
unfolding commit
commit_device v d p = elim (Result-cases (agreed_converter v p)) [
  | inl (k, h) ↦ rw (commit, h) refl
  | inr (e, h) ↦ rw (commit, h) refl
]

-- A device takes a profile exactly if the profile is one of the protocol's and the driver supports
-- and sets its format; it then shows YUYV at that size and rate, with a converter of that size. A
-- refusal keeps the converter and the committed profile. If the profile is not one of the protocol's
-- or the driver does not support it, then the driver's device is kept too; otherwise it is as the
-- driver's `set_format` leaves it, whether that works or not.
pub commit_lem :
    (v : V4l2) (d : OutputDevice) (p : StreamProfile)
    → (((commit v d p).1 ≡ ok tt) ↔ IsAgreeable v p)
      × (IsAgreeable v p
          → ((commit v d p).0.converter ≡ some (record { width = p.width; height = p.height }))
            × (output_format (commit v d p).0
                ≡ some (record {
                  width = p.width;
                  height = p.height;
                  fps = p.fps;
                  pixel_format = yuyv;
                })))
      × ((e : OutputError)
          → (commit v d p).1 ≡ err e
          → ((commit v d p).0.converter ≡ d.converter)
            × ((commit v d p).0.committed_profile ≡ d.committed_profile))
      × (¬ IsOffered v p → (commit v d p).0 ≡ d)
      × (IsOffered v p
          → (commit v d p).0.device ≡ v.left_by_set_format p.width p.height p.fps d.device)
unfolding commit output_format
commit_lem v d p = elim (Result-cases (agreed_converter v p)) [
  | inl (k, h) ↦ (
    (λ _. agreed-IsAgreeable v p k h, λ _. ground arith),
    (λ a. let l = IsAgreeable-agreed v p a in (ground arith, ground arith)),
    (λ e l. absurd (ground arith)),
    (λ n. absurd (n (let a = agreed-IsAgreeable v p k h in (a.supported, a.offered)))),
    (λ o. commit_device v d p ∙ asked_offered v d.device p o),
  )
  | inr (x, h) ↦ (
    (λ l. absurd (ground arith), λ a. let l = IsAgreeable-agreed v p a in absurd (cc)),
    (λ a. let l = IsAgreeable-agreed v p a in absurd (cc)),
    (λ e l. rw (commit, h) (refl, refl)),
    (λ n. rw (commit, h, asked_refused v d.device p n) refl),
    (λ o. commit_device v d p ∙ asked_offered v d.device p o),
  )
]
