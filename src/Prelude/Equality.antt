-- ===== src/Prelude/Equality.antt =====
-- `PartialEq`: a Boolean test that decides equality, as an instance argument.
use text.Mathlib.Text.{◌==◌ as str_eq}
use text.Mathlib.TextEquality.{eq_iff}
use Prim.Native.Nat.{ℕ}
use Prim.Native.String.{String}
use mathlib.Core.Path.{◌≡◌, refl, ap}
use mathlib.Core.Logic.{◌↔◌, inl, inr}
use mathlib.Core.Logic.Or
use mathlib.Core.Bool.{Bool, true, false, ◌&&◌, ◌||◌}
use mathlib.Core.List.{List, [], ◌∷◌, Mem, mem-cons, not-mem-nil, mem-cons_of_mem}
use mathlib.Core.Option.{Option, none, some}
use native.Mathlib.Omega.{arith}
use phone_cam.Prelude.Tests.{nat_beq, nat_beq_iff, Bool-cases}

pub record PartialEq {ℓ} (A : Type ℓ) : Type ℓ where
  pub same : (x y : A) → Bool
  pub same_iff : (x y : A) → (same x y ≡ true) ↔ (x ≡ y)

abbrev pub bool_beq : Bool → Bool → Bool
bool_beq true b = b
bool_beq false true = false
bool_beq false false = true

pub bool_beq_iff : (a b : Bool) → (bool_beq a b ≡ true) ↔ (a ≡ b)
bool_beq_iff a b = ground arith

abbrev pub option_beq {ℓ} : {A : Type ℓ} → PartialEq A → Option A → Option A → Bool
option_beq e none none = true
option_beq e none (some b) = false
option_beq e (some a) none = false
option_beq e (some a) (some b) = e.same a b

pub option_beq_iff {ℓ} :
    {A : Type ℓ} (e : PartialEq A) (a b : Option A) → (option_beq e a b ≡ true) ↔ (a ≡ b)
option_beq_iff e none none = (λ _. refl, λ _. refl)
option_beq_iff e none (some b) = (λ h. cc, λ h. cc)
option_beq_iff e (some a) none = (λ h. cc, λ h. cc)
option_beq_iff e (some a) (some b) =
    (λ h. ap some ((e.same_iff a b).0 h), λ h. (e.same_iff a b).1 (cc))

abbrev pub pair_beq {ℓ κ} :
    {A : Type ℓ} {B : Type κ} → PartialEq A → PartialEq B → A × B → A × B → Bool
pair_beq e f (a, b) (c, d) = e.same a c && f.same b d

pub pair_beq_iff {ℓ κ} :
    {A : Type ℓ} {B : Type κ} (e : PartialEq A) (f : PartialEq B) (p q : A × B)
    → (pair_beq e f p q ≡ true) ↔ (p ≡ q)
pair_beq_iff e f (a, b) (c, d) = (
  λ h. ground (arith, (e.same_iff a c).0, (f.same_iff b d).0),
  λ h. ground (arith, (e.same_iff a c).1, (f.same_iff b d).1),
)

instance abbrev pub pair_eq {ℓ κ} :
    {A : Type ℓ} {B : Type κ} → ⦃e : PartialEq A⦄ → ⦃f : PartialEq B⦄ → PartialEq (A × B)
pair_eq ⦃e⦄ ⦃f⦄ = record { same = pair_beq e f; same_iff = pair_beq_iff e f }

instance abbrev pub option_eq {ℓ} : {A : Type ℓ} → ⦃e : PartialEq A⦄ → PartialEq (Option A)
option_eq ⦃e⦄ = record { same = option_beq e; same_iff = option_beq_iff e }

instance abbrev pub string_eq : PartialEq String
string_eq = record { same = str_eq; same_iff = eq_iff }

-- `==` on any type that has the trait.
infix 50 ◌==◌
abbrev pub ◌==◌ {κ} : {B : Type κ} → ⦃eq : PartialEq B⦄ → B → B → Bool
◌==◌ ⦃eq⦄ x y = eq.same x y

module _ {κ} {B : Type κ} ⦃eq : PartialEq B⦄ where
  -- `slice::contains`
  unfoldable pub contains : List B → B → Bool
  contains [] b = false
  contains (c ∷ cs) b = b == c || contains cs b

  pub beq_refl : (a : B) → (a == a) ≡ true
  beq_refl a = (eq.same_iff a a).1 refl

  pub contains→mem : (xs : List B) (a : B) → contains xs a ≡ true → Mem a xs
  unfolding contains
  contains→mem [] a h = cc
  contains→mem (x ∷ xs) a h = elim (Bool-cases (eq.same a x)) [
    | inl same ↦ mem-cons.1 (Or.inl ((eq.same_iff a x).0 same))
    | inr other ↦ mem-cons_of_mem x (contains→mem xs a (rw other at h))
  ]

  pub mem→contains : (xs : List B) {a : B} → Mem a xs → contains xs a ≡ true
  unfolding contains
  mem→contains [] m = absurd (not-mem-nil m)
  mem→contains (x ∷ xs) {a} m =
      Or.elim (hlevel) (mem-cons.0 m) (λ same. rw ((eq.same_iff a x).1 same))
        (λ later. elim (Bool-cases (eq.same a x)) [
          | inl same ↦ rw same
          | inr other ↦ rw other (mem→contains xs later)
        ])

  -- `contains` decides membership.
  pub contains_iff : (xs : List B) (a : B) → (contains xs a ≡ true) ↔ Mem a xs
  contains_iff xs a = (contains→mem xs a, mem→contains xs)

  pub contains-false : (xs : List B) (a : B) → contains xs a ≡ false → ¬ Mem a xs
  contains-false xs a h m = cc (mem→contains xs m)

instance abbrev pub bool_eq : PartialEq Bool
bool_eq = record { same = bool_beq; same_iff = bool_beq_iff }

instance abbrev pub nat_eq : PartialEq ℕ
nat_eq = record { same = nat_beq; same_iff = nat_beq_iff }
