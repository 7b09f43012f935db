-- ===== src/Text/Split.antt =====
-- Rust's splitting of a `str`.
use phone_cam.Prelude.{
  ℕ, String, Bool, true, false, ◌&&◌, Option, none, some, List, [], ◌∷◌, map, leb, ◌+◌, ◌==◌,
  nat_eq, if◌then◌else◌,
}
use phone_cam.Text.{Text, is_whitespace, is_empty}
use Prim.Native.Char.{code}

-- The code points of a literal.
abbrev pub codes : String → Text
codes String.[] = []
codes (String.◌∷◌ c s) = code c ∷ codes s

-- `strip_prefix`
unfoldable pub strip_prefix : Text → Text → Option Text
strip_prefix [] t = some t
strip_prefix (p ∷ ps) [] = none
strip_prefix (p ∷ ps) (c ∷ cs) = if p == c then strip_prefix ps cs else none

unfoldable pub starts_with : Text → Text → Bool
starts_with [] t = true
starts_with (p ∷ ps) [] = false
starts_with (p ∷ ps) (c ∷ cs) = p == c && starts_with ps cs

-- Puts a character before the first piece.
abbrev pub push_first : ℕ → List Text → List Text
push_first c [] = (c ∷ []) ∷ []
push_first c (t ∷ ts) = (c ∷ t) ∷ ts

-- `split`, by a test of the characters: one piece more than there are separators.
unfoldable pub split : (ℕ → Bool) → Text → List Text
split test [] = [] ∷ []
split test (c ∷ cs) = if test c then [] ∷ split test cs else push_first c (split test cs)

-- `split_once`
unfoldable pub split_once : ℕ → Text → Option (Text × Text)
split_once sep [] = none
split_once sep (c ∷ cs) =
    let later = split_once sep cs in
    if c == sep
    then some ([], cs)
    else elim later [ none ↦ none | some parts ↦ some (c ∷ parts.0, parts.1) ]

unfoldable pub non_empty : List Text → List Text
non_empty [] = []
non_empty (t ∷ ts) = let rest = non_empty ts in if is_empty t then rest else t ∷ rest

-- `split_whitespace`
unfoldable pub split_whitespace : Text → List Text
unfolding split non_empty
split_whitespace t = non_empty (split is_whitespace t)

-- A carriage return at the end goes.
unfoldable pub without_return : Text → Text
without_return [] = []
without_return (c ∷ []) = if c == 13 then [] else c ∷ []
without_return (c ∷ d ∷ ds) = c ∷ without_return (d ∷ ds)

-- The pieces between line feeds: the last one is no line if it is empty, and keeps a return.
unfoldable pub as_lines : List Text → List Text
unfolding without_return
as_lines [] = []
as_lines (t ∷ []) = if is_empty t then [] else t ∷ []
as_lines (t ∷ u ∷ us) = without_return t ∷ as_lines (u ∷ us)

-- `lines`
unfoldable pub lines : Text → List Text
unfolding split as_lines
lines t = as_lines (split (λ c. c == 10) t)

abbrev pub lower_char : ℕ → ℕ
lower_char c = if leb 65 c && leb c 90 then c + 32 else c

-- `to_ascii_lowercase`
abbrev pub to_ascii_lowercase : Text → Text
to_ascii_lowercase = map lower_char
