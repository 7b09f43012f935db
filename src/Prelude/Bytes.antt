-- ===== src/Prelude/Bytes.antt =====
-- Byte strings, and `u32::to_be_bytes` with its inverse.
use Prim.Native.Nat.{ℕ, ◌+◌, ◌*◌, ◌/◌, ◌%◌, ◌<◌, ◌^◌}
use mathlib.Core.Path.{◌≡◌}
use mathlib.Core.List.{List, [], ◌∷◌}
use native.Mathlib.Omega.{arith}

abbrev pub IsByte : ℕ → Type 0
IsByte b = b < 256

abbrev pub IsU32 : ℕ → Type 0
IsU32 n = n < 2 ^ 32

-- The value of four bytes, the most significant one first.
unfoldable pub be_value : ℕ → ℕ → ℕ → ℕ → ℕ
be_value a b c d = a * 16777216 + b * 65536 + c * 256 + d

unfoldable pub to_be_bytes : ℕ → List ℕ
to_be_bytes n = n / 16777216 % 256 ∷ n / 65536 % 256 ∷ n / 256 % 256 ∷ n % 256 ∷ []

pub be_value-to_be_bytes :
    (n : ℕ)
    → IsU32 n
    → be_value (n / 16777216 % 256) (n / 65536 % 256) (n / 256 % 256) (n % 256) ≡ n
unfolding be_value
be_value-to_be_bytes n h = omega arith
