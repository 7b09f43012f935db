-- ===== src/Discovery/QrCode/Laws.antt =====
-- What is read back from a URI that was written.
use phone_cam.Prelude.{◌≡◌, false, [], ◌∷◌, All, ◌==◌, nat_eq, if◌then◌else◌}
use phone_cam.Text.{Text}

-- A name up to its first ampersand.
abbrev pub before_ampersand : Text → Text
before_ampersand [] = []
before_ampersand (c ∷ cs) = if c == 38 then [] else c ∷ before_ampersand cs

-- No question mark is among the characters.
abbrev pub HasNoQuestion : Text → Type 0
HasNoQuestion = All (λ c. (c == 63) ≡ false)
