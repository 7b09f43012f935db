-- ===== src/Decoder/AnnexB.antt =====
-- `normalize_h264_annex_b` and `validate_h264_annex_b`
-- (rust/phonecam-desktop/src-tauri/src/decode.rs). What stands from the cursor on is a list.
pub mod Laws
use phone_cam.Prelude.{
  ℕ, zero, suc, ◌%◌, Bool, true, false, ◌&&◌, ◌||◌, Option, none, some, List, [], ◌∷◌, leb, ltb,
  ◌==◌, nat_eq, length, drop, if◌then◌else◌,
}

-- `byte & 0x80 == 0 && (1..=23).contains(&(byte & 0x1f))`, for a byte.
unfoldable pub is_nal_header : ℕ → Bool
is_nal_header byte = ltb byte 128 && (leb 1 (byte % 32) && leb (byte % 32) 23)

-- `starts_with(&[0, 0, 1])`
unfoldable pub starts_with_short : List ℕ → Bool
starts_with_short (a ∷ b ∷ c ∷ rest) = a == 0 && (b == 0 && c == 1)
starts_with_short _ = false

-- `starts_with(&[0, 0, 0, 1])`
unfoldable pub starts_with_long : List ℕ → Bool
starts_with_long (a ∷ b ∷ c ∷ d ∷ rest) = a == 0 && (b == 0 && (c == 0 && d == 1))
starts_with_long _ = false

unfoldable pub start_code_len : List ℕ → Option ℕ
unfolding starts_with_short starts_with_long
start_code_len s =
    if starts_with_long s then some 4 else if starts_with_short s then some 3 else none

-- `cursor + 3 <= data.len()`
abbrev pub three_left : List ℕ → Bool
three_left (a ∷ b ∷ c ∷ rest) = true
three_left _ = false

-- The loop on fuel; each round moves the cursor on, so the length of the data is enough.
unfoldable pub scan : ℕ → Bool → List ℕ → Bool
unfolding start_code_len is_nal_header
scan zero found s = found
scan (suc fuel) found s = elim (three_left s) [
  | false ↦ found
  | true ↦ elim (start_code_len s) [
    | none ↦ scan fuel found (drop 1 s)
    | some k ↦ elim (drop k s) [
      | [] ↦ false
      | header ∷ rest ↦ elim (is_nal_header header) [ true ↦ scan fuel true rest | false ↦ false ]
    ]
  ]
]

unfoldable pub validate_h264_annex_b : List ℕ → Bool
unfolding scan
validate_h264_annex_b s = scan (length s) false s

-- A unit without a start code gets one, if its first byte is a header.
unfoldable pub with_start_code : List ℕ → Option (List ℕ)
unfolding is_nal_header
with_start_code [] = none
with_start_code (header ∷ rest) =
    if is_nal_header header then some (0 ∷ 0 ∷ 0 ∷ 1 ∷ header ∷ rest) else none

unfoldable pub normalize_h264_annex_b : List ℕ → Option (List ℕ)
unfolding validate_h264_annex_b with_start_code starts_with_short starts_with_long
normalize_h264_annex_b s =
    if starts_with_short s || starts_with_long s
    then if validate_h264_annex_b s then some s else none
    else with_start_code s
