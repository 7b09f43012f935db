-- ===== src/Discovery/Label/Laws.antt =====
-- Every label is one that DNS takes.
use phone_cam.Prelude.{
  ℕ, ◌≡◌, ◌≤◌, ◌<◌, refl, arith, Bool, true, false, ◌&&◌, ◌||◌, [], ◌∷◌, ◌++◌, All, All-append, leb,
  length, length-append, ◌==◌, nat_eq, if◌then◌else◌, Bool-cases, inl, inr,
}
use phone_cam.Text.{Text, is_empty}
use phone_cam.Text.Split.{codes, lower_char}
use phone_cam.Discovery.Label.{
  is_ascii_alphanumeric, label_loop, trim_start_matches, keep_unless, trim_end_matches,
  sanitize_dns_label,
}

-- A small letter, a digit or a dash.
abbrev pub is_label_char : ℕ → Bool
is_label_char c = leb 97 c && leb c 122 || (leb 48 c && leb c 57 || c == 45)

abbrev pub starts_dash : Text → Bool
starts_dash [] = false
starts_dash (c ∷ cs) = c == 45

abbrev pub ends_dash : Text → Bool
ends_dash [] = false
ends_dash (c ∷ []) = c == 45
ends_dash (c ∷ d ∷ ds) = ends_dash (d ∷ ds)

pub record IsDnsLabel (t : Text) : Type 0 where
  pub not_empty : 0 < length t
  pub short : length t ≤ 48
  pub characters : All (λ c. is_label_char c ≡ true) t
  pub starts : starts_dash t ≡ false
  pub ends : ends_dash t ≡ false

abbrev IsChars : Text → Type 0
IsChars = All (λ c. is_label_char c ≡ true)

lowered : (c : ℕ) → is_ascii_alphanumeric c ≡ true → is_label_char (lower_char c) ≡ true
unfolding is_ascii_alphanumeric
lowered c h = ground arith

-- What holds of the text that the loop builds.
record IsBuilt (t : Text) : Type 0 where
  length_lem : length t ≤ 48
  chars : IsChars t

pushed :
    (c : ℕ) (out : Text)
    → length out < 48
    → IsChars out
    → is_label_char c ≡ true
    → IsBuilt (out ++ c ∷ [])
pushed c out l h k = record {
  length_lem = omega (arith, length-append out (c ∷ []));
  chars = All-append (λ d. is_label_char d ≡ true) out (c ∷ []) h (k, tt);
}

-- The test of the length after a character was put behind.
stop_or_go :
    (c : ℕ) (out rest : Text)
    → IsBuilt (out ++ c ∷ [])
    → (length (out ++ c ∷ []) < 48 → IsBuilt rest)
    → IsBuilt (elim (leb 48 (length (out ++ c ∷ []))) as (λ _. Text) [
      | true ↦ out ++ c ∷ []
      | false ↦ rest
    ])
stop_or_go c out rest b later = elim (Bool-cases (leb 48 (length (out ++ c ∷ [])))) [
  | inl e ↦ rw e b
  | inr e ↦ rw e (later (ground arith))
]

loop-IsBuilt :
    (value : Text) (last : Bool) (out : Text)
    → length out < 48
    → IsChars out
    → IsBuilt (label_loop value last out)
unfolding label_loop
loop-IsBuilt [] last out l h = record { length_lem = omega arith; chars = h }
loop-IsBuilt (c ∷ cs) last out l h = elim (Bool-cases (is_ascii_alphanumeric c)) [
  | inl a ↦
      let b = pushed (lower_char c) out l h (lowered c a) in
      rw (a, label_loop)
        (stop_or_go (lower_char c) out (label_loop cs false (out ++ lower_char c ∷ [])) b
          (λ m. loop-IsBuilt cs false (out ++ lower_char c ∷ []) m b.chars))
  | inr a ↦ elim (Bool-cases last) [
    | inl d ↦ rw (a, d, label_loop) (loop-IsBuilt cs true out l h)
    | inr d ↦
        let b = pushed 45 out l h refl in
        rw (a, d, label_loop)
          (stop_or_go 45 out (label_loop cs true (out ++ 45 ∷ [])) b
            (λ m. loop-IsBuilt cs true (out ++ 45 ∷ []) m b.chars))
  ]
]

trim_start-starts : (t : Text) → starts_dash (trim_start_matches 45 t) ≡ false
unfolding trim_start_matches
trim_start-starts [] = refl
trim_start-starts (c ∷ t) = elim (Bool-cases (c == 45)) [
  | inl h ↦ rw h (trim_start-starts t)
  | inr h ↦ rw h h
]

trim_start-IsBuilt : (t : Text) → IsBuilt t → IsBuilt (trim_start_matches 45 t)
unfolding trim_start_matches
trim_start-IsBuilt [] b = b
trim_start-IsBuilt (c ∷ t) b = elim (Bool-cases (c == 45)) [
  | inl h ↦ rw h (
      trim_start-IsBuilt t
        (record { length_lem = let l = b.length_lem in omega arith; chars = b.chars.1 }))
  | inr h ↦ rw h b
]

kept-ends : (c : ℕ) (t : Text) → ends_dash t ≡ false → ends_dash (keep_unless 45 c t) ≡ false
kept-ends c [] h = elim (Bool-cases (c == 45)) [ inl k ↦ rw k refl | inr k ↦ rw k k ]
kept-ends c (d ∷ t) h = h

trim_end-ends : (t : Text) → ends_dash (trim_end_matches 45 t) ≡ false
unfolding trim_end_matches
trim_end-ends [] = refl
trim_end-ends (c ∷ t) = kept-ends c (trim_end_matches 45 t) (trim_end-ends t)

kept-starts : (c : ℕ) (t : Text) → (c == 45) ≡ false → starts_dash (keep_unless 45 c t) ≡ false
kept-starts c [] h = rw h h
kept-starts c (d ∷ t) h = h

trim_end-starts : (t : Text) → starts_dash t ≡ false → starts_dash (trim_end_matches 45 t) ≡ false
unfolding trim_end_matches
trim_end-starts [] h = refl
trim_end-starts (c ∷ t) h = kept-starts c (trim_end_matches 45 t) h

kept-IsBuilt :
    (c : ℕ) (t : Text)
    → length t < 48
    → IsChars t
    → is_label_char c ≡ true
    → IsBuilt (keep_unless 45 c t)
kept-IsBuilt c [] l h k = elim (Bool-cases (c == 45)) [
  | inl e ↦ rw e (record { length_lem = omega arith; chars = tt })
  | inr e ↦ rw e (record { length_lem = omega arith; chars = (k, tt) })
]
kept-IsBuilt c (d ∷ t) l h k = record { length_lem = omega arith; chars = (k, h) }

kept-length : (c : ℕ) (t : Text) → length (keep_unless 45 c t) ≤ length (c ∷ t)
kept-length c [] = ground arith
kept-length c (d ∷ t) = omega arith

trim_end-length : (t : Text) → length (trim_end_matches 45 t) ≤ length t
unfolding trim_end_matches
trim_end-length [] = omega arith
trim_end-length (c ∷ t) =
    let k = kept-length c (trim_end_matches 45 t) in let l = trim_end-length t in omega arith

trim_end-IsBuilt : (t : Text) → IsBuilt t → IsBuilt (trim_end_matches 45 t)
unfolding trim_end_matches
trim_end-IsBuilt [] b = b
trim_end-IsBuilt (c ∷ t) b =
    let l = b.length_lem in
    let r = trim_end-IsBuilt t (record { length_lem = omega arith; chars = b.chars.1 }) in
    kept-IsBuilt c (trim_end_matches 45 t) (omega (arith, trim_end-length t)) r.chars b.chars.0

or_default :
    (t : Text)
    → IsBuilt t
    → starts_dash t ≡ false
    → ends_dash t ≡ false
    → IsDnsLabel (if is_empty t then codes "phonecam" else t)
or_default [] b s e = record {
  not_empty = omega arith;
  short = omega arith;
  characters = (refl, (refl, (refl, (refl, (refl, (refl, (refl, (refl, tt))))))));
  starts = refl;
  ends = refl;
}
or_default (c ∷ t) b s e = record {
  not_empty = omega arith;
  short = b.length_lem;
  characters = b.chars;
  starts = s;
  ends = e;
}

-- The label of any device name has from 1 to 48 characters, which are small letters, digits and
-- dashes, and neither its first nor its last is a dash.
pub sanitize_dns_label-IsDnsLabel : (value : Text) → IsDnsLabel (sanitize_dns_label value)
unfolding sanitize_dns_label
sanitize_dns_label-IsDnsLabel value =
    let built = loop-IsBuilt value false [] (omega arith) tt in
    let out = label_loop value false [] in
    let cut = trim_start-IsBuilt out built in
    or_default (trim_end_matches 45 (trim_start_matches 45 out))
      (trim_end-IsBuilt (trim_start_matches 45 out) cut)
      (trim_end-starts (trim_start_matches 45 out) (trim_start-starts out))
      (trim_end-ends (trim_start_matches 45 out))
