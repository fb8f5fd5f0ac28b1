-- ===== src/Domain/Quantity/Spelling.antt =====
-- What decimal texts ParseQuantity reads, and which number of millionths it makes of them.
use factory_demo.Base.{
  ℕ, ◌+◌, ◌-◌, ◌*◌, ◌^◌, ◌≤◌, [], ◌∷◌, ◌++◌, ◌≡◌, ◌≢◌, ◌⊎◌, inl, inr, refl, ap, ◌∙◌, false, ◌||◌,
  ok, err, leb, if◌then◌else◌, append-nil, some, arith, All, All-append, length, replicate,
  length-append, length-replicate, ◌<◌,
}
use factory_demo.Base.Int.{pos, max_int64, wrap64, ◌+ℤ◌, ◌*ℤ◌, wrap64-+ℤ, wrap64_fits}
use factory_demo.Text.{Text, is_empty, value, has_prefix, split, parse_int}
use factory_demo.Failure.{Sentinel, Detail, detailed}
use factory_demo.Text.Trim.{IsVisible, trim_space_visible}
use factory_demo.Text.Digits.{
  IsDigit, all-IsDigit, parse_int-IsDigit, replicate-IsDigit, value-append_zeros, value-lt,
}
use factory_demo.Text.Cut.{Lacks, split_one, split_two}
use factory_demo.Domain.Quantity.{million, combine, with_fraction, from_parts, parse_quantity}

-- `raw` is a decimal number of units with at most six places, and n is that number in millionths.
pub record Spells (raw : Text) (n : ℕ) : Type 0 where
  pub whole : Text
  pub fraction : Text
  pub whole-ne-nil : whole ≢ []
  pub whole-IsDigit : All IsDigit whole
  pub fraction-IsDigit : All IsDigit fraction
  pub short : length fraction ≤ 6
  pub shape :
      ((raw ≡ whole) × (fraction ≡ [])) ⊎ ((raw ≡ whole ++ b'.' ∷ fraction) × (fraction ≢ []))
  pub exact : n ≡ value 0 whole * million + value 0 fraction * 10 ^ (6 - length fraction)

pub IsDigit-Lacks : (s : Text) → All IsDigit s → Lacks b'.' s
IsDigit-Lacks [] h = tt
IsDigit-Lacks (c ∷ s) h = (ground arith, IsDigit-Lacks s h.1)

IsDigit-IsVisible : (s : Text) → All IsDigit s → All IsVisible s
IsDigit-IsVisible [] h = tt
IsDigit-IsVisible (c ∷ s) h = (omega arith, IsDigit-IsVisible s h.1)

first_digit :
    (w t : Text) → w ≢ [] → All IsDigit w → (is_empty (w ++ t) || has_prefix (w ++ t) b'-') ≡ false
unfolding has_prefix
first_digit [] t h k = absurd (h refl)
first_digit (c ∷ w) t h k = ground arith

from_parts_whole : (v w : Text) → w ≢ [] → from_parts v (w ∷ []) ≡ with_fraction v [] (parse_int w)
unfolding from_parts
from_parts_whole v [] h = absurd (h refl)
from_parts_whole v (c ∷ w) h = refl

from_parts_both :
    (v w f : Text) → w ≢ [] → from_parts v (w ∷ f ∷ []) ≡ with_fraction v f (parse_int w)
unfolding from_parts
from_parts_both v [] f h = absurd (h refl)
from_parts_both v (c ∷ w) f h = refl

module _ {raw : Text} {n : ℕ} (s : Spells raw n) where
  open s use {whole, fraction, whole-ne-nil, whole-IsDigit, fraction-IsDigit, shape}

  pub Spells-IsVisible : All IsVisible raw
  Spells-IsVisible = elim shape [
    | inl (e, _) ↦ rw e (IsDigit-IsVisible whole whole-IsDigit)
    | inr (e, _) ↦ rw e (
        All-append IsVisible whole (b'.' ∷ fraction) (IsDigit-IsVisible whole whole-IsDigit)
          (omega arith, IsDigit-IsVisible fraction fraction-IsDigit))
  ]

  Spells-first : (is_empty raw || has_prefix raw b'-') ≡ false
  Spells-first = elim shape [
    | inl (e, _) ↦ rw (e, ← append-nil whole) (first_digit whole [] whole-ne-nil whole-IsDigit)
    | inr (e, _) ↦ rw e (first_digit whole (b'.' ∷ fraction) whole-ne-nil whole-IsDigit)
  ]

  -- The split at the point gives back the two parts.
  Spells-from_parts : from_parts raw (split b'.' raw) ≡ with_fraction raw fraction (parse_int whole)
  Spells-from_parts = elim shape [
    | inl (e, f) ↦
        ap (from_parts raw)
          (ap (split b'.') e ∙ split_one b'.' whole (IsDigit-Lacks whole whole-IsDigit))
        ∙ from_parts_whole raw whole whole-ne-nil
        ∙ rw f
    | inr (e, f) ↦
        ap (from_parts raw) (
          ap (split b'.') e
          ∙ split_two b'.' whole fraction (IsDigit-Lacks whole whole-IsDigit)
              (IsDigit-Lacks fraction fraction-IsDigit))
        ∙ from_parts_both raw whole fraction whole-ne-nil
  ]

-- The fraction, filled up to six places.
abbrev pub filled : Text → Text
filled f = f ++ replicate (6 - length f) b'0'

filled-ne-nil : (f : Text) → length f ≤ 6 → filled f ≢ []
filled-ne-nil [] k = ground arith
filled-ne-nil (c ∷ f) k = ground arith

length-filled : (f : Text) → length f ≤ 6 → length (filled f) ≡ 6
length-filled f k = omega (
  arith,
  length-append f (replicate (6 - length f) b'0'),
  length-replicate {A = ℕ} (6 - length f) b'0',
)

pub filled-lt :
    (f : Text) → All IsDigit f → length f ≤ 6 → value 0 f * 10 ^ (6 - length f) < million
filled-lt f h k = rw (← value-append_zeros f (6 - length f)) (
    rw (length-filled f k) at
      (value-lt 0 (filled f) (All-append IsDigit f _ h (replicate-IsDigit (6 - length f)))))

pub parse_int-filled :
    (f : Text)
    → All IsDigit f
    → length f ≤ 6
    → parse_int (filled f) ≡ some (pos (value 0 f * 10 ^ (6 - length f)))
parse_int-filled f h k = ground (
  arith,
  parse_int-IsDigit (filled f) (filled-ne-nil f k)
      (All-append IsDigit f _ h (replicate-IsDigit (6 - length f))),
  value-append_zeros f (6 - length f),
  filled-lt f h k,
)

*ℤ-pos : (a b c : ℕ) → (pos a *ℤ pos b) +ℤ pos c ≡ pos (a * b + c)
unfolding ◌*ℤ◌ ◌+ℤ◌
*ℤ-pos a b c = ground arith

combine-IsDigit :
    (v : Text) (w : ℕ) (f : Text)
    → All IsDigit f
    → length f ≤ 6
    → combine v (pos w) f
      ≡ ok (record { millionths = wrap64 (pos (w * million + value 0 f * 10 ^ (6 - length f))) })
unfolding combine
combine-IsDigit v w f h k =
    let part = value 0 f * 10 ^ (6 - length f) in
    ground (
      arith,
      parse_int-filled f h k,
      wrap64-+ℤ (pos w *ℤ pos million) (pos part),
      *ℤ-pos w million part,
    )

with_fraction-IsDigit :
    (v : Text) (w : ℕ) (f : Text)
    → All IsDigit f
    → length f ≤ 6
    → with_fraction v f (some (pos w)) ≡ combine v (pos w) f
unfolding with_fraction
with_fraction-IsDigit v w f h k = ground (arith, all-IsDigit f h)

-- A decimal text with at most six places is read as its number of millionths, wrapped around to an
-- int64, if its whole part fits in an int64, and it is refused as invalid if the whole part does not.
pub parse_quantity-Spells :
    (raw : Text) (n : ℕ) (s : Spells raw n)
    → parse_quantity raw ≡ (
        if leb (value 0 s.whole) max_int64
        then ok (record { millionths = wrap64 (pos n) })
        else err (detailed Sentinel.invalid_quantity (Detail.quoted raw)))
unfolding parse_quantity with_fraction
parse_quantity-Spells raw n s = ground (
  arith,
  trim_space_visible raw (Spells-IsVisible s),
  Spells-first s,
  Spells-from_parts s,
  parse_int-IsDigit s.whole s.whole-ne-nil s.whole-IsDigit,
  with_fraction-IsDigit raw (value 0 s.whole) s.fraction s.fraction-IsDigit s.short,
  combine-IsDigit raw (value 0 s.whole) s.fraction s.fraction-IsDigit s.short,
)

-- A decimal text whose millionths fit in an int64 is read exactly.
pub parse_quantity_exact :
    (raw : Text) (n : ℕ)
    → Spells raw n
    → n ≤ max_int64
    → parse_quantity raw ≡ ok (record { millionths = pos n })
parse_quantity_exact raw n s h =
    rw (← wrap64_fits (pos n) (h, omega arith))
      (parse_quantity-Spells raw n s ∙ ground (arith, h, s.exact))
