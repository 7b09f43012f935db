-- ===== src/Text.antt =====
-- The methods of Rust's `str` that the program uses, over the code points of a text.
pub mod Split
pub mod Order
pub mod Numbers
use phone_cam.Prelude.{ℕ, Bool, ◌||◌, ◌&&◌, List, [], ◌∷◌, leb, ◌==◌, nat_eq, if◌then◌else◌}

-- A text as its code points.
abbrev pub Text : Type 0
Text = List ℕ

-- `char::is_whitespace`
unfoldable pub is_whitespace : ℕ → Bool
is_whitespace c =
    leb 0x09 c && leb c 0x0d
    || (c == 0x20
        || (c == 0x85
            || (c == 0xa0
                || (c == 0x1680
                    || (leb 0x2000 c && leb c 0x200a
                        || (c == 0x2028
                            || (c == 0x2029 || (c == 0x202f || (c == 0x205f || c == 0x3000)))))))))

unfoldable pub trim_start : Text → Text
unfolding is_whitespace
trim_start [] = []
trim_start (c ∷ cs) = if is_whitespace c then trim_start cs else c ∷ cs

-- Puts a character before a text that is trimmed at its end.
unfoldable pub keep_unless_last : ℕ → Text → Text
unfolding is_whitespace
keep_unless_last c [] = if is_whitespace c then [] else c ∷ []
keep_unless_last c (d ∷ ds) = c ∷ d ∷ ds

unfoldable pub trim_end : Text → Text
unfolding keep_unless_last
trim_end [] = []
trim_end (c ∷ cs) = keep_unless_last c (trim_end cs)

unfoldable pub trim : Text → Text
unfolding trim_start trim_end
trim t = trim_end (trim_start t)

abbrev pub is_empty : Text → Bool
is_empty [] = Bool.true
is_empty (c ∷ cs) = Bool.false
