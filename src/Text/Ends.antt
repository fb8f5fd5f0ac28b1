-- ===== src/Text/Ends.antt =====
-- The first and the last byte of a text.
use factory_demo.Base.{ℕ, [], ◌∷◌, ◌++◌, ◌≡◌, ◌≢◌, ◌∙◌, refl, true, false, arith, All}
use factory_demo.Text.Bytes.{Text, is_empty, has_prefix, has_suffix}
use factory_demo.Text.Digits.{IsDigit}

pub is_empty-false : (s : Text) → s ≢ [] → is_empty s ≡ false
is_empty-false [] h = absurd (h refl)
is_empty-false (c ∷ s) h = refl

pub has_suffix-append :
    (s : Text) (c : ℕ) (t : Text) (b : ℕ) → has_suffix (s ++ c ∷ t) b ≡ has_suffix (c ∷ t) b
unfolding has_suffix
has_suffix-append [] c t b = refl
has_suffix-append (d ∷ []) c t b = refl
has_suffix-append (d ∷ e ∷ s) c t b = has_suffix-append (e ∷ s) c t b

pub has_suffix_self : (s : Text) (b : ℕ) → has_suffix (s ++ b ∷ []) b ≡ true
unfolding has_suffix
has_suffix_self [] b = ground arith
has_suffix_self (c ∷ []) b = ground arith
has_suffix_self (c ∷ d ∷ s) b = has_suffix_self (d ∷ s) b

-- Digits do not end in a byte that is no digit.
pub has_suffix-IsDigit : (s : Text) (b : ℕ) → ¬ IsDigit b → All IsDigit s → has_suffix s b ≡ false
unfolding has_suffix
has_suffix-IsDigit [] b n h = refl
has_suffix-IsDigit (c ∷ []) b n h = ground arith
has_suffix-IsDigit (c ∷ d ∷ s) b n h = has_suffix-IsDigit (d ∷ s) b n h.1

pub has_prefix-IsDigit :
    (w t : Text) (b : ℕ) → ¬ IsDigit b → w ≢ [] → All IsDigit w → has_prefix (w ++ t) b ≡ false
unfolding has_prefix
has_prefix-IsDigit [] t b n h k = absurd (h refl)
has_prefix-IsDigit (c ∷ w) t b n h k = ground arith

pub has_prefix-append : (w t : Text) (b : ℕ) → w ≢ [] → has_prefix (w ++ t) b ≡ has_prefix w b
unfolding has_prefix
has_prefix-append [] t b n = absurd (n refl)
has_prefix-append (c ∷ w) t b n = refl

-- A text that ends in digits does not end in another byte.
pub has_suffix_digits :
    (s t : Text) (b : ℕ) → ¬ IsDigit b → t ≢ [] → All IsDigit t → has_suffix (s ++ t) b ≡ false
has_suffix_digits s [] b n k h = absurd (k refl)
has_suffix_digits s (c ∷ t) b n k h = has_suffix-append s c t b ∙ has_suffix-IsDigit (c ∷ t) b n h
