-- ===== src/Protocol/Profile/Laws.antt =====
-- What `validate` and `validate_profiles` accept.
use mathlib.Core.List.{
  Nodup-nil, Nodup-cons, mem-append, mem-cons, mem-append_left, mem-append_right, mem-cons_self,
  mem-cons_of_mem, not-mem-nil,
}
use mathlib.Core.Logic.Or
use mathlib.Core.HLevel.{⊥_prop}
use phone_cam.Prelude.{
  ◌≡◌, ◌≢◌, ◌↔◌, refl, inl, inr, false, List, [], ◌∷◌, ◌++◌, Mem, Nodup, arith, ok, nat_eq, pair_eq,
  contains, contains→mem, mem→contains, contains-false, All, Bool-cases,
}
use phone_cam.Protocol.Profile.{
  StreamProfile, profile_eq, supported_dimensions, supported_frame_rates, validate, validate_each,
  validate_profiles,
}

-- A profile that the protocol knows.
abbrev pub IsSupported : StreamProfile → Type 0
IsSupported p = Mem (p.width, p.height) supported_dimensions × Mem p.fps supported_frame_rates

pub validate-ok : (p : StreamProfile) → validate p ≡ ok tt → IsSupported p
unfolding validate
validate-ok p h = (
  contains→mem supported_dimensions _ (ground arith),
  contains→mem supported_frame_rates _ (ground arith),
)

pub validate-ok_of : (p : StreamProfile) → IsSupported p → validate p ≡ ok tt
unfolding validate
validate-ok_of p s =
    rw (mem→contains supported_dimensions s.0, mem→contains supported_frame_rates s.1)

-- A list that `validate_profiles` should accept.
pub record IsProfileList (ps : List StreamProfile) : Type 0 where
  pub nonempty : ps ≢ []
  pub supported : All IsSupported ps
  pub distinct : Nodup ps

-- No element of the second list is in the first, or earlier in the second.
abbrev Fresh : List StreamProfile → List StreamProfile → Type 0
Fresh before [] = Unit {0}
Fresh before (p ∷ ps) = (¬ Mem p before) × Fresh (before ++ p ∷ []) ps

validate_each-ok :
    (before ps : List StreamProfile)
    → validate_each before ps ≡ ok tt
    → All IsSupported ps × Fresh before ps
unfolding validate_each
validate_each-ok before [] h = (tt, tt)
validate_each-ok before (p ∷ ps) h =
    let rest = validate_each-ok (before ++ p ∷ []) ps (ground arith) in
    ((validate-ok p (ground arith), rest.0), (contains-false before p (ground arith), rest.1))

absent : (ps : List StreamProfile) (p : StreamProfile) → ¬ Mem p ps → contains ps p ≡ false
absent ps p n = elim (Bool-cases (contains ps p)) [
  | inl h ↦ absurd (n (contains→mem ps p h))
  | inr h ↦ h
]

validate_each-ok_of :
    (before ps : List StreamProfile)
    → All IsSupported ps
    → Fresh before ps
    → validate_each before ps ≡ ok tt
unfolding validate_each
validate_each-ok_of before [] s f = refl
validate_each-ok_of before (p ∷ ps) s f =
    rw (validate-ok_of p s.0, absent before p f.0)
      (validate_each-ok_of (before ++ p ∷ []) ps s.1 f.1)

Fresh-Nodup :
    (before ps : List StreamProfile)
    → Fresh before ps
    → Nodup ps × ((p : StreamProfile) → Mem p before → ¬ Mem p ps)
Fresh-Nodup before [] f = (Nodup-nil, λ p _ m. not-mem-nil m)
Fresh-Nodup before (q ∷ ps) f =
    let rest = Fresh-Nodup (before ++ q ∷ []) ps f.1 in
    (
      Nodup-cons.1 (rest.1 q (mem-append_right before mem-cons_self), rest.0),
      λ p m k.
          Or.elim ⊥_prop (mem-cons.0 k) (λ e. f.0 (rw e at m)) (rest.1 p (mem-append_left _ m)),
    )

Nodup-Fresh :
    (before ps : List StreamProfile)
    → Nodup ps
    → ((p : StreamProfile) → Mem p before → ¬ Mem p ps)
    → Fresh before ps
Nodup-Fresh before [] n d = tt
Nodup-Fresh before (q ∷ ps) n d = (
  (λ m. d q m mem-cons_self),
  Nodup-Fresh (before ++ q ∷ []) ps (Nodup-cons.0 n).1 λ p m k.
      Or.elim ⊥_prop (mem-append.0 m) (λ b. d p b (mem-cons_of_mem q k))
        λ one.
          Or.elim ⊥_prop (mem-cons.0 one) (λ e. (Nodup-cons.0 n).0 (rw e at k)) λ z. not-mem-nil z,
)

-- `validate_profiles` accepts exactly the lists that are not empty, hold only profiles of a
-- supported dimension and frame rate, and repeat none.
pub validate_profiles-ok_iff :
    (ps : List StreamProfile) → (validate_profiles ps ≡ ok tt) ↔ IsProfileList ps
unfolding validate_profiles
validate_profiles-ok_iff [] = (λ h. cc, λ l. absurd (l.nonempty refl))
validate_profiles-ok_iff (p ∷ ps) = (
  λ h.
      let parts = validate_each-ok [] (p ∷ ps) h in
      record {
        nonempty = λ e. cc;
        supported = parts.0;
        distinct = (Fresh-Nodup [] (p ∷ ps) parts.1).0;
      },
  λ l.
      validate_each-ok_of [] (p ∷ ps) l.supported
        (Nodup-Fresh [] (p ∷ ps) l.distinct λ _ m. absurd (not-mem-nil m)),
)
