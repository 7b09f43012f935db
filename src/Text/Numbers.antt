-- ===== src/Text/Numbers.antt =====
-- Numbers in decimal: Rust's `Display` and `parse` of an unsigned integer.
use phone_cam.Prelude.{
  ℕ, ◌≤◌, ◌<◌, ◌≡◌, refl, arith, Bool-cases, inl, inr, zero, suc, ◌+◌, ◌-◌, ◌*◌, ◌/◌, ◌%◌, ◌&&◌,
  Option, none, some, [], ◌∷◌, leb, ltb, ◌==◌, nat_eq, if◌then◌else◌,
}
use phone_cam.Text.{Text}

-- The digits of `n` before a text; a number has no more digits than the fuel, which is above it.
unfoldable pub digits_before : ℕ → ℕ → Text → Text
digits_before zero n t = t
digits_before (suc fuel) n t =
    let all = (48 + n % 10) ∷ t in
    let rest = digits_before fuel (n / 10) all in if ltb n 10 then all else rest

unfoldable pub show_nat : ℕ → Text
unfolding digits_before
show_nat n = digits_before (suc n) n []

-- The loop over the digits, with `bound` above the type's largest value.
unfoldable pub parse_digits : ℕ → ℕ → Text → Option ℕ
parse_digits bound value [] = some value
parse_digits bound value (c ∷ cs) =
    let next = value * 10 + (c - 48) in
    let rest = parse_digits bound next cs in
    if leb 48 c && (leb c 57 && ltb next bound) then rest else none

unfoldable pub parse_unsigned : ℕ → Text → Option ℕ
unfolding parse_digits
parse_unsigned bound [] = none
parse_unsigned bound (c ∷ []) = parse_digits bound 0 (c ∷ [])
parse_unsigned bound (c ∷ d ∷ ds) =
    if c == 43 then parse_digits bound 0 (d ∷ ds) else parse_digits bound 0 (c ∷ d ∷ ds)

-- More fuel than the number makes no difference.
pub digits_before-fuel :
    (a b n : ℕ) (t : Text) → n < a → n < b → digits_before a n t ≡ digits_before b n t
unfolding digits_before
digits_before-fuel zero b n t h k = absurd (omega arith)
digits_before-fuel (suc a) zero n t h k = absurd (omega arith)
digits_before-fuel (suc a) (suc b) n t h k = elim (Bool-cases (ltb n 10)) [
  | inl s ↦ rw s refl
  | inr s ↦
      let big : 10 ≤ n = ground arith in
      rw s (digits_before-fuel a b (n / 10) ((48 + n % 10) ∷ t) (omega arith) (omega arith))
]
