-- ===== src/Prelude/Pigeonhole.antt =====
-- A list without repetitions is no longer than a list that holds all its elements.
use Prim.Native.Nat.{suc, ◌≤◌}
use mathlib.Core.Path.{◌≡◌}
use mathlib.Core.Logic.{inl, inr}
use mathlib.Core.Bool.{true, false}
use mathlib.Core.List.{List, [], ◌∷◌, Nodup, Nodup-cons}
use native.Mathlib.Omega.{arith}
use phone_cam.Prelude.Tests.{if◌then◌else◌, Bool-cases}
use phone_cam.Prelude.Lists.{length, All}
use phone_cam.Prelude.Equality.{PartialEq, ◌==◌, contains, contains→mem}

module _ {ℓ} {A : Type ℓ} ⦃e : PartialEq A⦄ where
  remove : A → List A → List A
  remove a [] = []
  remove a (x ∷ xs) = if a == x then xs else x ∷ remove a xs

  length-remove :
      (a : A) (xs : List A) → contains xs a ≡ true → length xs ≡ suc (length (remove a xs))
  unfolding contains remove
  length-remove a [] h = cc
  length-remove a (x ∷ xs) h = ground (arith, length-remove a xs)

  contains-remove :
      (a b : A) (xs : List A)
      → contains xs b ≡ true
      → (b == a) ≡ false
      → contains (remove a xs) b ≡ true
  unfolding contains remove
  contains-remove a b [] h n = h
  contains-remove a b (x ∷ xs) h n =
      ground (arith, contains-remove a b xs, (e.same_iff a x).0, (e.same_iff b a).1)

  All-remove :
      (a : A) (ys xs : List A)
      → contains xs a ≡ false
      → All (λ x. contains ys x ≡ true) xs
      → All (λ x. contains (remove a ys) x ≡ true) xs
  unfolding contains
  All-remove a ys [] n h = tt
  All-remove a ys (x ∷ xs) n h = (
    contains-remove a x ys h.0 (ground (arith, (e.same_iff x a).0, (e.same_iff a x).1)),
    All-remove a ys xs (ground arith) h.1,
  )

  pub Nodup-length-le :
      (xs ys : List A) → Nodup xs → All (λ x. contains ys x ≡ true) xs → length xs ≤ length ys
  Nodup-length-le [] ys n h = omega arith
  Nodup-length-le (x ∷ xs) ys n h = elim (Bool-cases (contains xs x)) [
    | inl old ↦ absurd ((Nodup-cons.0 n).0 (contains→mem xs x old))
    | inr new ↦ omega (
      arith,
      length-remove x ys h.0,
      Nodup-length-le xs (remove x ys) (Nodup-cons.0 n).1 (All-remove x ys xs new h.1),
    )
  ]
