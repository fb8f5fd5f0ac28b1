-- ===== src/Text/Order.antt =====
-- The bytewise order of texts, and equality of texts as a test.
use factory_demo.Base.{[], ◌∷◌, ◌≡◌, refl, ◌↔◌, true, false, arith}
use factory_demo.Text.Bytes.{Text, text_eq, text_lt}

pub text_eq_iff : (s t : Text) → (text_eq s t ≡ true) ↔ (s ≡ t)
unfolding text_eq
text_eq_iff [] [] = ground arith
text_eq_iff [] (b ∷ t) = ground arith
text_eq_iff (a ∷ s) [] = ground arith
text_eq_iff (a ∷ s) (b ∷ t) = ground (arith, text_eq_iff s t)

pub text_eq_refl : (s : Text) → text_eq s s ≡ true
text_eq_refl s = (text_eq_iff s s).1 refl

pub text_lt_irrefl : (s : Text) → text_lt s s ≡ false
unfolding text_lt
text_lt_irrefl [] = refl
text_lt_irrefl (a ∷ s) = ground (arith, text_lt_irrefl s)

pub text_lt_trans : (s t u : Text) → text_lt s t ≡ true → text_lt t u ≡ true → text_lt s u ≡ true
unfolding text_lt
text_lt_trans [] [] u p q = cc
text_lt_trans [] (b ∷ t) [] p q = cc
text_lt_trans [] (b ∷ t) (c ∷ u) p q = refl
text_lt_trans (a ∷ s) [] u p q = cc
text_lt_trans (a ∷ s) (b ∷ t) [] p q = cc
text_lt_trans (a ∷ s) (b ∷ t) (c ∷ u) p q = ground (arith, text_lt_trans s t u)

-- Of two texts one comes first, or they are equal.
pub text_lt_total : (s t : Text) → text_lt s t ≡ false → text_lt t s ≡ false → s ≡ t
unfolding text_lt
text_lt_total [] [] p q = refl
text_lt_total [] (b ∷ t) p q = cc
text_lt_total (a ∷ s) [] p q = cc
text_lt_total (a ∷ s) (b ∷ t) p q = ground (arith, text_lt_total s t)
