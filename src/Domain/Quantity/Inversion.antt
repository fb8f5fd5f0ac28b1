-- ===== src/Domain/Quantity/Inversion.antt =====
-- ParseQuantity of internal/domain/money.go, from its result back to the parts of its text.
use mathlib.Core.List.{cons-ne-nil}
use factory_demo.Base.{
  ◌-◌, ◌*◌, ◌^◌, ◌≤◌, List, [], ◌∷◌, ◌++◌, ◌≡◌, ◌≢◌, ◌⊎◌, inl, inr, refl, ok, some, none, Option,
  false, arith, All, length,
}
use factory_demo.Base.Int.{ℤ, pos, wrap64, ◌+ℤ◌, ◌*ℤ◌, wrap64-+ℤ}
use factory_demo.Text.{Text, value, has_prefix, split, parse_int}
use factory_demo.Text.Digits.{IsDigit, IsDigit-all}
use factory_demo.Text.Cut.{split_from_one, split_from_two}
use factory_demo.Domain.Quantity.{
  Quantity, million, combine, with_fraction, from_parts, parse_trimmed,
}
use factory_demo.Domain.Quantity.Spelling.{parse_int-filled}

-- The text is a whole part that ParseInt reads, and up to six digits of a fraction.
pub record Parts (raw : Text) (q : Quantity) : Type 0 where
  pub whole : Text
  pub fraction : Text
  pub number : ℤ
  pub whole-ne-nil : whole ≢ []
  pub parsed : parse_int whole ≡ some number
  pub fraction-IsDigit : All IsDigit fraction
  pub short : length fraction ≤ 6
  pub shape : ((raw ≡ whole) × (fraction ≡ [])) ⊎ (raw ≡ whole ++ b'.' ∷ fraction)
  pub wrapped :
      q.millionths
      ≡ wrap64 (number *ℤ pos million +ℤ pos (value 0 fraction * 10 ^ (6 - length fraction)))

combine_inversion :
    (v : Text) (z : ℤ) (f : Text) (q : Quantity)
    → All IsDigit f
    → length f ≤ 6
    → combine v z f ≡ ok q
    → q.millionths ≡ wrap64 (z *ℤ pos million +ℤ pos (value 0 f * 10 ^ (6 - length f)))
unfolding combine
combine_inversion v z f q h k e =
    let part = value 0 f * 10 ^ (6 - length f) in
    ground (arith, parse_int-filled f h k, wrap64-+ℤ (z *ℤ pos million) (pos part))

with_fraction_inversion :
    (v f : Text) (z : ℤ) (q : Quantity)
    → with_fraction v f (some z) ≡ ok q
    → All IsDigit f
      × (length f ≤ 6)
      × (q.millionths ≡ wrap64 (z *ℤ pos million +ℤ pos (value 0 f * 10 ^ (6 - length f))))
unfolding with_fraction
with_fraction_inversion v f z q e = ground (arith, IsDigit-all f, combine_inversion v z f q)

Parts-intro :
    (raw w f : Text) (q : Quantity) (n : Option ℤ)
    → parse_int w ≡ n
    → w ≢ []
    → ((raw ≡ w) × (f ≡ [])) ⊎ (raw ≡ w ++ b'.' ∷ f)
    → with_fraction raw f n ≡ ok q
    → Parts raw q
unfolding with_fraction
Parts-intro raw w f q none p h s e = absurd (ground arith)
Parts-intro raw w f q (some z) p h s e =
    let (digits, short, wrapped) = with_fraction_inversion raw f z q e in
    record {
      whole = w;
      fraction = f;
      number = z;
      whole-ne-nil = h;
      parsed = p;
      fraction-IsDigit = digits;
      short = short;
      shape = s;
      wrapped = wrapped;
    }

from_parts-Parts :
    (raw : Text) (parts : List Text) (q : Quantity)
    → split b'.' raw ≡ parts
    → from_parts raw parts ≡ ok q
    → Parts raw q
unfolding from_parts split
from_parts-Parts raw [] q s e = absurd (ground arith)
from_parts-Parts raw ([] ∷ []) q s e = absurd (ground arith)
from_parts-Parts raw ((c ∷ w) ∷ []) q s e =
    Parts-intro raw (c ∷ w) [] q _ refl (cons-ne-nil c w)
      (inl (split_from_one b'.' [] raw (c ∷ w) s, refl)) e
from_parts-Parts raw ([] ∷ f ∷ []) q s e = absurd (ground arith)
from_parts-Parts raw ((c ∷ w) ∷ f ∷ []) q s e =
    Parts-intro raw (c ∷ w) f q _ refl (cons-ne-nil c w)
      (inr (split_from_two b'.' [] raw (c ∷ w) f s)) e
from_parts-Parts raw (_ ∷ _ ∷ _ ∷ _) q s e = absurd (ground arith)

-- A trimmed text that is read has such parts, and no minus in front.
pub parse_trimmed-Parts :
    (raw : Text) (q : Quantity)
    → parse_trimmed raw ≡ ok q
    → (has_prefix raw b'-' ≡ false) × Parts raw q
unfolding parse_trimmed
parse_trimmed-Parts raw q e =
    (ground arith, from_parts-Parts raw (split b'.' raw) q refl (ground arith))
