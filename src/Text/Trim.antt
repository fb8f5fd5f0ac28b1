-- ===== src/Text/Trim.antt =====
-- Texts without white space at their ends, and zeros at the end of a text.
use mathlib.Core.List.{reverse, reverse-reverse, reverse_aux}
use factory_demo.Base.{
  ℕ, zero, suc, ◌+◌, ◌≤◌, [], ◌∷◌, ◌++◌, ◌≡◌, refl, arith, All, length, replicate,
}
use factory_demo.Text.Bytes.{Text, trim_right}
use factory_demo.Text.Space.{strip, width_at_start, width_at_end, trim_space}

-- Visible ASCII: no white space begins or ends with such a byte.
abbrev pub IsVisible : ℕ → Type 0
IsVisible c = (33 ≤ c) × (c ≤ 126)

strip_visible_start : (s : Text) → All IsVisible s → strip width_at_start 0 s ≡ s
unfolding strip
strip_visible_start [] h = refl
strip_visible_start (a ∷ []) h = ground arith
strip_visible_start (a ∷ b ∷ []) h = ground arith
strip_visible_start (a ∷ b ∷ c ∷ s) h = ground arith

strip_visible_end : (s : Text) → All IsVisible s → strip width_at_end 0 s ≡ s
unfolding strip
strip_visible_end [] h = refl
strip_visible_end (a ∷ []) h = ground arith
strip_visible_end (a ∷ b ∷ []) h = ground arith
strip_visible_end (a ∷ b ∷ c ∷ s) h = ground arith

All-reverse_aux : (s t : Text) → All IsVisible s → All IsVisible t → All IsVisible (reverse_aux s t)
All-reverse_aux [] t h k = k
All-reverse_aux (a ∷ s) t (p, h) k = All-reverse_aux s (a ∷ t) h (p, k)

-- A text of visible ASCII is trimmed already.
pub trim_space_visible : (s : Text) → All IsVisible s → trim_space s ≡ s
unfolding trim_space
trim_space_visible s h =
    rw (strip_visible_start s h, strip_visible_end (reverse s) (All-reverse_aux s [] h tt))
      (reverse-reverse s)

pub length-trim_right : (b : ℕ) (s : Text) → length (trim_right b s) ≤ length s
unfolding trim_right
length-trim_right b [] = omega arith
length-trim_right b (c ∷ s) = ground (arith, length-trim_right b s)

-- What TrimRight cut off comes back by filling up to the old length.
pub trim_right_refill :
    (b : ℕ) (s : Text) (k : ℕ)
    → k + length (trim_right b s) ≡ length s
    → trim_right b s ++ replicate k b ≡ s
unfolding trim_right
trim_right_refill b [] zero h = refl
trim_right_refill b [] (suc k) h = absurd (omega arith)
trim_right_refill b (c ∷ s) zero h = ground (arith, length-trim_right b s, trim_right_refill b s 0)
trim_right_refill b (c ∷ s) (suc k) h =
    ground (arith, trim_right_refill b s k, trim_right_refill b s (suc k))
