-- ===== src/Discovery/Label.antt =====
-- The DNS label of a host, and the name of a found service (rust/phonecam-discovery/src/lib.rs).
pub mod Laws
use phone_cam.Prelude.{
  ℕ, Bool, true, false, ◌&&◌, ◌||◌, Option, none, some, List, [], ◌∷◌, ◌++◌, leb, length, ◌==◌,
  nat_eq, if◌then◌else◌,
}
use phone_cam.Text.{Text, is_empty}
use phone_cam.Text.Order.{text_eq}
use phone_cam.Text.Split.{codes, lower_char}

-- `char::is_ascii_alphanumeric`
unfoldable pub is_ascii_alphanumeric : ℕ → Bool
is_ascii_alphanumeric c = leb 48 c && leb c 57 || (leb 65 c && leb c 90 || leb 97 c && leb c 122)

-- The loop over the characters; it ends at 48 characters.
unfoldable pub label_loop : Text → Bool → Text → Text
unfolding is_ascii_alphanumeric
label_loop [] last_was_dash out = out
label_loop (ch ∷ chs) last_was_dash out =
    let dashed = out ++ 45 ∷ [] in
    let pushed = out ++ lower_char ch ∷ [] in
    elim (is_ascii_alphanumeric ch) [
      | true ↦ elim (leb 48 (length pushed)) [ true ↦ pushed | false ↦ label_loop chs false pushed ]
      | false ↦ elim last_was_dash [
        | true ↦ label_loop chs true out
        | false ↦ elim (leb 48 (length dashed)) [
          | true ↦ dashed
          | false ↦ label_loop chs true dashed
        ]
      ]
    ]

-- `trim_start_matches` and `trim_end_matches` of a character.
unfoldable pub trim_start_matches : ℕ → Text → Text
trim_start_matches x [] = []
trim_start_matches x (c ∷ cs) =
    let rest = trim_start_matches x cs in if c == x then rest else c ∷ cs

abbrev pub keep_unless : ℕ → ℕ → Text → Text
keep_unless x c [] = if c == x then [] else c ∷ []
keep_unless x c (d ∷ ds) = c ∷ d ∷ ds

unfoldable pub trim_end_matches : ℕ → Text → Text
trim_end_matches x [] = []
trim_end_matches x (c ∷ cs) = keep_unless x c (trim_end_matches x cs)

unfoldable pub sanitize_dns_label : Text → Text
unfolding label_loop trim_start_matches trim_end_matches
sanitize_dns_label value =
    let trimmed = trim_end_matches 45 (trim_start_matches 45 (label_loop value false [])) in
    if is_empty trimmed then codes "phonecam" else trimmed

abbrev pub service_type : Text
service_type = codes "_phonecam._tcp.local."

-- `strip_suffix`
unfoldable pub strip_suffix : Text → Text → Option Text
strip_suffix s [] = if s == [] then some [] else none
strip_suffix s (c ∷ cs) =
    let later = strip_suffix s cs in
    if s == (c ∷ cs) then some [] else elim later [ none ↦ none | some t ↦ some (c ∷ t) ]

unfoldable pub instance_name_from_fullname : Text → Text
unfolding strip_suffix trim_end_matches
instance_name_from_fullname fullname =
    trim_end_matches 46 (elim (strip_suffix service_type fullname) [ some t ↦ t | none ↦ fullname ])
