-- ===== src/Text/Order.antt =====
-- Texts compared: equality, and the order of the map's keys (the order of the bytes of UTF-8 is the
-- order of the code points).
use phone_cam.Prelude.{
  ◌≡◌, ◌↔◌, refl, arith, Bool, true, false, ◌&&◌, ◌||◌, [], ◌∷◌, ltb, ◌==◌, PartialEq, nat_eq,
}
use phone_cam.Text.{Text}

abbrev pub text_beq : Text → Text → Bool
text_beq [] [] = true
text_beq [] (d ∷ ds) = false
text_beq (c ∷ cs) [] = false
text_beq (c ∷ cs) (d ∷ ds) = c == d && text_beq cs ds

pub text_beq_iff : (t u : Text) → (text_beq t u ≡ true) ↔ (t ≡ u)
text_beq_iff [] [] = (λ h. refl, λ h. refl)
text_beq_iff [] (d ∷ ds) = (λ h. cc, λ h. cc)
text_beq_iff (c ∷ cs) [] = (λ h. cc, λ h. cc)
text_beq_iff (c ∷ cs) (d ∷ ds) =
    let same = text_beq_iff cs ds in (λ h. ground (arith, same.0), λ h. ground (arith, same.1))

pub text_beq_comm : (t u : Text) → text_beq t u ≡ text_beq u t
text_beq_comm [] [] = refl
text_beq_comm [] (d ∷ ds) = refl
text_beq_comm (c ∷ cs) [] = refl
text_beq_comm (c ∷ cs) (d ∷ ds) = let later = text_beq_comm cs ds in ground arith

instance abbrev pub text_eq : PartialEq Text
text_eq = record { same = text_beq; same_iff = text_beq_iff }

unfoldable pub text_lt : Text → Text → Bool
text_lt t [] = false
text_lt [] (d ∷ ds) = true
text_lt (c ∷ cs) (d ∷ ds) = ltb c d || (c == d && text_lt cs ds)

pub text_lt_trans : (t u v : Text) → text_lt t u ≡ true → text_lt u v ≡ true → text_lt t v ≡ true
unfolding text_lt
text_lt_trans t [] v h k = cc
text_lt_trans t (d ∷ ds) [] h k = cc
text_lt_trans [] (d ∷ ds) (e ∷ es) h k = refl
text_lt_trans (c ∷ cs) (d ∷ ds) (e ∷ es) h k = let later = text_lt_trans cs ds es in ground arith

pub text_lt_irrefl : (t : Text) → text_lt t t ≡ false
unfolding text_lt
text_lt_irrefl [] = refl
text_lt_irrefl (c ∷ cs) = let later = text_lt_irrefl cs in ground arith

pub text_lt_total : (t u : Text) → text_beq t u ≡ false → text_lt t u ≡ false → text_lt u t ≡ true
unfolding text_lt
text_lt_total [] [] h k = cc
text_lt_total [] (d ∷ ds) h k = cc
text_lt_total (c ∷ cs) [] h k = refl
text_lt_total (c ∷ cs) (d ∷ ds) h k = let later = text_lt_total cs ds in ground arith
