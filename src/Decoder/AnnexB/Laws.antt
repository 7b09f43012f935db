-- ===== src/Decoder/AnnexB/Laws.antt =====
-- What `validate_h264_annex_b` decides.
use phone_cam.Prelude.{
  ℕ, zero, suc, ◌≤◌, ◌≡◌, refl, Bool, true, false, ◌&&◌, ◌||◌, none, some, List, [], ◌∷◌, nat_eq,
  length, drop, if◌then◌else◌, arith, sym, ◌∙◌, Bool-cases, inl, inr, ◌↔◌, ◌⊎◌,
}
use phone_cam.Decoder.AnnexB.{
  is_nal_header, starts_with_short, starts_with_long, start_code_len, scan, with_start_code,
  normalize_h264_annex_b, validate_h264_annex_b,
}

-- The reference: at each place where the bytes 0, 0, 1 stand, a header byte follows; and there is
-- such a place.
abbrev pub starts_with_header : List ℕ → Bool
starts_with_header [] = false
starts_with_header (h ∷ rest) = is_nal_header h

unfoldable pub codes_are_headed : List ℕ → Bool
codes_are_headed [] = true
codes_are_headed (a ∷ s) =
    (if starts_with_short (a ∷ s) then starts_with_header (drop 2 s) else true)
    && codes_are_headed s

unfoldable pub has_code : List ℕ → Bool
has_code [] = false
has_code (a ∷ s) = starts_with_short (a ∷ s) || has_code s

-- What the reference says of a list: both of its parts.
abbrev verdict : Bool → List ℕ → Bool
verdict found s = codes_are_headed s && (found || has_code s)

-- A header byte begins no start code.
header_passed :
    (h : ℕ) (s : List ℕ)
    → is_nal_header h ≡ true
    → (codes_are_headed (h ∷ s) ≡ codes_are_headed s) × (has_code (h ∷ s) ≡ has_code s)
unfolding is_nal_header codes_are_headed has_code starts_with_short
header_passed h [] e = (refl, refl)
header_passed h (b ∷ []) e = (refl, refl)
header_passed h (b ∷ c ∷ s) e = (ground arith, ground arith)

short_code :
    (e : ℕ) (s : List ℕ) (found : Bool)
    → verdict found (0 ∷ 0 ∷ 1 ∷ e ∷ s) ≡ (is_nal_header e && verdict true s)
unfolding codes_are_headed has_code starts_with_short
short_code e [] found = elim (Bool-cases (is_nal_header e)) [
  | inl h ↦ let p = header_passed e [] h in ground arith
  | inr h ↦ ground arith
]
short_code e (x ∷ s) found = elim (Bool-cases (is_nal_header e)) [
  | inl h ↦ let p = header_passed e (x ∷ s) h in ground arith
  | inr h ↦ ground arith
]

long_code :
    (e : ℕ) (s : List ℕ) (found : Bool)
    → verdict found (0 ∷ 0 ∷ 0 ∷ 1 ∷ e ∷ s) ≡ (is_nal_header e && verdict true s)
unfolding codes_are_headed has_code starts_with_short
long_code e s found = short_code e s found

no_code :
    (a : ℕ) (s : List ℕ) (found : Bool)
    → start_code_len (a ∷ s) ≡ none
    → verdict found (a ∷ s) ≡ verdict found s
unfolding codes_are_headed has_code start_code_len
no_code a s found h = ground arith

is_short :
    (a b c : ℕ) (s : List ℕ)
    → starts_with_short (a ∷ b ∷ c ∷ s) ≡ true
    → (a ≡ 0) × (b ≡ 0) × (c ≡ 1)
unfolding starts_with_short
is_short a b c s h = ground arith

is_long :
    (a b c d : ℕ) (s : List ℕ)
    → starts_with_long (a ∷ b ∷ c ∷ d ∷ s) ≡ true
    → (a ≡ 0) × (b ≡ 0) × (c ≡ 0) × (d ≡ 1)
unfolding starts_with_long
is_long a b c d s h = ground arith

-- One round of the loop, for the three things that may stand at the cursor.
scan_plain :
    (fuel : ℕ) (found : Bool) (a b c : ℕ) (s : List ℕ)
    → start_code_len (a ∷ b ∷ c ∷ s) ≡ none
    → scan (suc fuel) found (a ∷ b ∷ c ∷ s) ≡ scan fuel found (b ∷ c ∷ s)
unfolding scan
scan_plain fuel found a b c s h = rw (h, scan) refl

scan_short :
    (fuel : ℕ) (found : Bool) (e : ℕ) (s : List ℕ)
    → scan (suc fuel) found (0 ∷ 0 ∷ 1 ∷ e ∷ s)
      ≡ (elim (is_nal_header e) as (λ _. Bool) [ true ↦ scan fuel true s | false ↦ false ])
unfolding scan start_code_len starts_with_short starts_with_long
scan_short fuel found e s = refl

scan_long :
    (fuel : ℕ) (found : Bool) (e : ℕ) (s : List ℕ)
    → scan (suc fuel) found (0 ∷ 0 ∷ 0 ∷ 1 ∷ e ∷ s)
      ≡ (elim (is_nal_header e) as (λ _. Bool) [ true ↦ scan fuel true s | false ↦ false ])
unfolding scan start_code_len starts_with_short starts_with_long
scan_long fuel found e s = refl

after_header :
    (b : Bool) {x y : Bool}
    → x ≡ y
    → (elim b as (λ _. Bool) [ true ↦ x | false ↦ false ]) ≡ (b && y)
after_header true h = h
after_header false h = refl

no_len :
    (s : List ℕ)
    → starts_with_long s ≡ false
    → starts_with_short s ≡ false
    → start_code_len s ≡ none
unfolding start_code_len
no_len s h k = rw (h, k) refl

-- The two rounds at a start code, from what the rest of the loop does.
at_short :
    (fuel : ℕ) (found : Bool) (s : List ℕ)
    → ((r : List ℕ) → length r ≤ fuel → scan fuel true r ≡ verdict true r)
    → length s ≤ fuel
    → scan (suc fuel) found (0 ∷ 0 ∷ 1 ∷ s) ≡ verdict found (0 ∷ 0 ∷ 1 ∷ s)
unfolding scan start_code_len starts_with_short starts_with_long codes_are_headed has_code
at_short fuel found [] later l = refl
at_short fuel found (e ∷ s) later l =
    scan_short fuel found e s
    ∙ (after_header (is_nal_header e) (later s (omega arith)) ∙ sym (short_code e s found))

at_long :
    (fuel : ℕ) (found : Bool) (s : List ℕ)
    → ((r : List ℕ) → length r ≤ fuel → scan fuel true r ≡ verdict true r)
    → length s ≤ fuel
    → scan (suc fuel) found (0 ∷ 0 ∷ 0 ∷ 1 ∷ s) ≡ verdict found (0 ∷ 0 ∷ 0 ∷ 1 ∷ s)
unfolding scan start_code_len starts_with_short starts_with_long codes_are_headed has_code
at_long fuel found [] later l = refl
at_long fuel found (e ∷ s) later l =
    scan_long fuel found e s
    ∙ (after_header (is_nal_header e) (later s (omega arith)) ∙ sym (long_code e s found))

at_code :
    (fuel : ℕ) (found : Bool) (a b c : ℕ) (s : List ℕ)
    → ((r : List ℕ) → length r ≤ fuel → scan fuel true r ≡ verdict true r)
    → length s ≤ fuel
    → starts_with_long (a ∷ b ∷ c ∷ s) ≡ true
    → scan (suc fuel) found (a ∷ b ∷ c ∷ s) ≡ verdict found (a ∷ b ∷ c ∷ s)
unfolding starts_with_long
at_code fuel found a b c [] later l h = cc
at_code fuel found a b c (d ∷ s) later l h =
    let (i, j, k, m) = is_long a b c d s h in
    let step = at_long fuel found s later (omega arith) in cc

scan_lem :
    (fuel : ℕ) (found : Bool) (s : List ℕ)
    → length s ≤ fuel
    → scan fuel found s ≡ (codes_are_headed s && (found || has_code s))
unfolding scan codes_are_headed has_code
scan_lem zero found [] l = ground arith
scan_lem zero found (a ∷ s) l = absurd (omega arith)
scan_lem (suc fuel) found [] l = ground arith
scan_lem (suc fuel) found (a ∷ []) l = ground arith
scan_lem (suc fuel) found (a ∷ b ∷ []) l = ground arith
scan_lem (suc fuel) found (a ∷ b ∷ c ∷ s) l = elim (Bool-cases (starts_with_long (a ∷ b ∷ c ∷ s))) [
  | inl h ↦ at_code fuel found a b c s (λ r m. scan_lem fuel true r m) (omega arith) h
  | inr h ↦ elim (Bool-cases (starts_with_short (a ∷ b ∷ c ∷ s))) [
    | inl k ↦
        let (x, y, z) = is_short a b c s k in
        let step = at_short fuel found s (λ r m. scan_lem fuel true r m) (omega arith) in cc
    | inr k ↦
        let n = no_len (a ∷ b ∷ c ∷ s) h k in
        scan_plain fuel found a b c s n
        ∙ (scan_lem fuel found (b ∷ c ∷ s) (omega arith) ∙ sym (no_code a (b ∷ c ∷ s) found n))
  ]
]

-- Data is accepted exactly if it holds a start code, and at each place where the bytes 0, 0, 1 stand
-- a header byte of a NAL unit of the types 1 to 23 follows.
pub validate_h264_annex_b_lem :
    (s : List ℕ) → validate_h264_annex_b s ≡ (codes_are_headed s && has_code s)
unfolding validate_h264_annex_b
validate_h264_annex_b_lem s = scan_lem (length s) false s (omega arith)

abbrev starts_with_code : List ℕ → Bool
starts_with_code s = starts_with_short s || starts_with_long s

code_at_start : (s : List ℕ) → starts_with_code s ≡ true → has_code s ≡ true
unfolding starts_with_short starts_with_long has_code
code_at_start [] h = cc
code_at_start (a ∷ []) h = cc
code_at_start (a ∷ b ∷ []) h = cc
code_at_start (a ∷ b ∷ c ∷ []) h = ground arith
code_at_start (a ∷ b ∷ c ∷ d ∷ s) h = ground arith

-- What the decoder may be given for `s`.
abbrev pub IsNormal : List ℕ → List ℕ → Type 0
IsNormal s t =
    ((starts_with_short s || starts_with_long s) ≡ true) × (codes_are_headed s ≡ true) × (t ≡ s)
    ⊎ ((starts_with_short s || starts_with_long s) ≡ false)
      × (starts_with_header s ≡ true)
      × (t ≡ 0 ∷ 0 ∷ 0 ∷ 1 ∷ s)

unstarted :
    (s t : List ℕ)
    → (with_start_code s ≡ some t) ↔ (starts_with_header s ≡ true) × (t ≡ 0 ∷ 0 ∷ 0 ∷ 1 ∷ s)
unfolding with_start_code
unstarted [] t = (λ h. cc, λ h. cc h.0)
unstarted (x ∷ s) t = (λ h. ground arith, λ h. ground arith)

-- The payload is passed on as it is exactly if it begins with a start code and each of its codes is
-- headed, and with a start code put before it exactly if it begins with a header byte instead; any
-- other payload is refused.
pub normalize_h264_annex_b-some_iff :
    (s t : List ℕ) → (normalize_h264_annex_b s ≡ some t) ↔ IsNormal s t
unfolding normalize_h264_annex_b
normalize_h264_annex_b-some_iff s t = elim (Bool-cases (starts_with_code s)) [
  | inl y ↦
      let v = validate_h264_annex_b_lem s in
      let c = code_at_start s y in
      let e : normalize_h264_annex_b s ≡ (if codes_are_headed s then some s else none) =
        ground arith in
      (
        λ h. inl (y, ground arith, ground arith),
        λ n. elim n [ inl (a, b, q) ↦ ground arith | inr (a, b, q) ↦ cc ],
      )
  | inr y ↦
      let u = unstarted s t in
      let e : normalize_h264_annex_b s ≡ with_start_code s = ground arith in
      (
        λ h. let r = u.0 (ground arith) in inr (y, r.0, r.1),
        λ n. elim n [ inl (a, b, q) ↦ cc | inr (a, b, q) ↦ e ∙ u.1 (b, q) ],
      )
]
