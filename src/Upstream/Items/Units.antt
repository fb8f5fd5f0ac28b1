-- ===== src/Upstream/Items/Units.antt =====
-- The strict path of coreParsePosition in internal/upstream/client.go.
use mathlib.Core.Bool.{false≢true}
use factory_demo.Base.{
  ℕ, ◌+◌, ◌-◌, ◌*◌, ◌^◌, ◌≤◌, ◌<◌, [], ◌∷◌, ◌++◌, ◌≡◌, ◌≢◌, ◌⊎◌, inl, inr, ◌↔◌, refl, ap, sym, ◌∙◌,
  ok, some, true, false, not, arith, All, length, leb, append-nil, append_assoc,
}
use factory_demo.Base.Int.{ℤ, pos, max_int64, wrap64, wrap64_fits, ◌+ℤ◌, ◌*ℤ◌, ◌-ℤ◌, quot}
use factory_demo.Text.{Text, value, trim_space, has_prefix, has_suffix, before, behind, parse_int}
use factory_demo.Text.Order.{text_eq_iff, text_eq_refl}
use factory_demo.Text.Trim.{trim_space_visible}
use factory_demo.Text.Digits.{IsDigit, parse_int_unsigned, parse_int-IsDigit}
use factory_demo.Text.Cut.{before-append, behind-append, before_whole, behind_whole}
use factory_demo.Text.Ends.{
  has_suffix_self, has_suffix_digits, has_suffix-IsDigit, has_prefix-IsDigit, has_prefix-append,
}
use factory_demo.Domain.Quantity.{Quantity, million, parse_quantity, parse_trimmed}
use factory_demo.Domain.Quantity.Spelling.{
  Spells, Spells-IsVisible, IsDigit-Lacks, parse_quantity_exact, parse_int-filled, filled-lt,
}
use factory_demo.Domain.Quantity.Inversion.{Parts, parse_trimmed-Parts}
use factory_demo.Domain.Values.{Position}
use factory_demo.Upstream.Items.Positions.{
  core_parse_position-Accepted, core_parse_position_accepts,
}
use factory_demo.Upstream.Items.{
  exceeds, whole_overflows, core_v2_quantity_overflows, valid_core_v2_quantity, core_parse_position,
}

point_no-IsDigit : ¬ IsDigit b'.'
point_no-IsDigit h = absurd (omega arith)

plus_no-IsDigit : ¬ IsDigit b'+'
plus_no-IsDigit h = absurd (omega arith)

-- The test on two numbers is the exact one.
exceeds_lem :
    (w f : ℕ) → f < million → exceeds (pos w) (some (pos f)) ≡ not (leb (w * million + f) max_int64)
unfolding exceeds quot wrap64 ◌-ℤ◌
exceeds_lem w f h = ground arith

whole_overflows_lem :
    (w : ℕ) (f : Text)
    → All IsDigit f
    → length f ≤ 6
    → whole_overflows f (some (pos w))
      ≡ not (leb (w * million + value 0 f * 10 ^ (6 - length f)) max_int64)
unfolding whole_overflows
whole_overflows_lem w f h k = ground (
  arith,
  parse_int-filled f h k,
  exceeds_lem w (value 0 f * 10 ^ (6 - length f)) (filled-lt f h k),
)

module _ {raw : Text} {n : ℕ} (s : Spells raw n) where
  open s use {whole, fraction, whole-ne-nil, whole-IsDigit, fraction-IsDigit, short, shape, exact}

  before-Spells : before b'.' raw ≡ whole
  before-Spells = elim shape [
    | inl (e, _) ↦ ap (before b'.') e ∙ before_whole b'.' whole (IsDigit-Lacks whole whole-IsDigit)
    | inr (e, _) ↦
        ap (before b'.') e ∙ before-append b'.' whole fraction (IsDigit-Lacks whole whole-IsDigit)
  ]

  behind-Spells : behind b'.' raw ≡ fraction
  behind-Spells = elim shape [
    | inl (e, f) ↦
        ap (behind b'.') e ∙ behind_whole b'.' whole (IsDigit-Lacks whole whole-IsDigit) ∙ sym f
    | inr (e, _) ↦
        ap (behind b'.') e ∙ behind-append b'.' whole fraction (IsDigit-Lacks whole whole-IsDigit)
  ]

  overflows-Spells :
      value 0 whole ≤ max_int64 → core_v2_quantity_overflows raw ≡ not (leb n max_int64)
  unfolding core_v2_quantity_overflows
  overflows-Spells h = ground (
    arith,
    before-Spells,
    behind-Spells,
    parse_int-IsDigit whole whole-ne-nil whole-IsDigit,
    whole_overflows_lem (value 0 whole) fraction fraction-IsDigit short,
  )

  prefix-Spells : has_prefix raw b'+' ≡ false
  prefix-Spells = elim shape [
    | inl (e, _) ↦
        ap (λ t. has_prefix t b'+') (e ∙ sym (append-nil whole))
        ∙ has_prefix-IsDigit whole [] b'+' plus_no-IsDigit whole-ne-nil whole-IsDigit
    | inr (e, _) ↦
        ap (λ t. has_prefix t b'+') e
        ∙ has_prefix-IsDigit whole (b'.' ∷ fraction) b'+' plus_no-IsDigit whole-ne-nil whole-IsDigit
  ]

  suffix-Spells : has_suffix raw b'.' ≡ false
  suffix-Spells = elim shape [
    | inl (e, _) ↦
        ap (λ t. has_suffix t b'.') e ∙ has_suffix-IsDigit whole b'.' point_no-IsDigit whole-IsDigit
    | inr (e, some_digit) ↦
        ap (λ t. has_suffix t b'.') (e ∙ sym (append_assoc whole (b'.' ∷ []) fraction))
        ∙ has_suffix_digits (whole ++ b'.' ∷ []) fraction b'.' point_no-IsDigit some_digit
            fraction-IsDigit
  ]

  valid-Spells : n ≤ max_int64 → valid_core_v2_quantity raw ≡ true
  unfolding valid_core_v2_quantity
  valid-Spells h = ground (
    arith,
    trim_space_visible raw (Spells-IsVisible s),
    text_eq_refl raw,
    prefix-Spells,
    suffix-Spells,
    overflows-Spells (omega (arith, exact)),
  )

unsigned_whole :
    (w : Text) {z : ℤ}
    → w ≢ []
    → has_prefix w b'-' ≡ false
    → has_prefix w b'+' ≡ false
    → parse_int w ≡ some z
    → All IsDigit w × (z ≡ pos (value 0 w)) × (value 0 w ≤ max_int64)
unfolding has_prefix
unsigned_whole [] n h k e = absurd (n refl)
unsigned_whole (c ∷ w) n h k e = parse_int_unsigned c w (ground arith) (ground arith) e

*ℤ-pos : (a b c : ℕ) → pos a *ℤ pos b +ℤ pos c ≡ pos (a * b + c)
unfolding ◌*ℤ◌ ◌+ℤ◌
*ℤ-pos a b c = ground arith

module _ {raw : Text} {q : Quantity} (p : Parts raw q) (plain : has_suffix raw b'.' ≡ false) where
  open p use {whole, fraction, whole-ne-nil, fraction-IsDigit, short, shape}

  prefix-Parts : (b : ℕ) → has_prefix raw b ≡ false → has_prefix whole b ≡ false
  prefix-Parts b h = elim shape [
    | inl (e, _) ↦ ap (λ t. has_prefix t b) (sym e) ∙ h
    | inr e ↦
        sym (has_prefix-append whole (b'.' ∷ fraction) b whole-ne-nil)
        ∙ ap (λ t. has_prefix t b) (sym e)
        ∙ h
  ]

  shape-Parts :
      ((raw ≡ whole) × (fraction ≡ [])) ⊎ ((raw ≡ whole ++ b'.' ∷ fraction) × (fraction ≢ []))
  shape-Parts = elim shape [
    | inl e ↦ inl e
    | inr e ↦ inr (
      e,
      λ f. false≢true (
          sym plain
          ∙ ap (λ t. has_suffix t b'.') (e ∙ ap (λ t. whole ++ b'.' ∷ t) f)
          ∙ has_suffix_self whole b'.'),
    )
  ]

  -- Without signs and without a last point the parts are decimal digits.
  Parts-Spells :
      has_prefix raw b'-' ≡ false
      → has_prefix raw b'+' ≡ false
      → (n : ℕ) × (s : Spells raw n) × (value 0 s.whole ≤ max_int64)
        × (q.millionths ≡ wrap64 (pos n))
  Parts-Spells h k =
      let (digits, number, fits) =
        unsigned_whole whole whole-ne-nil (prefix-Parts b'-' h) (prefix-Parts b'+' k) p.parsed in
      let part : ℕ = value 0 fraction * 10 ^ (6 - length fraction) in
      (
        value 0 whole * million + part,
        record {
          whole = whole;
          fraction = fraction;
          whole-ne-nil = whole-ne-nil;
          whole-IsDigit = digits;
          fraction-IsDigit = fraction-IsDigit;
          short = short;
          shape = shape-Parts;
          exact = refl;
        },
        fits,
        p.wrapped
            ∙ ap (λ z. wrap64 (z *ℤ pos million +ℤ pos part)) number
            ∙ ap wrap64 (*ℤ-pos (value 0 whole) million part),
      )

-- What the strict grammar lets through.
record Passes (raw : Text) : Type 0 where
  trimmed : raw ≡ trim_space raw
  no_plus : has_prefix raw b'+' ≡ false
  no_last_point : has_suffix raw b'.' ≡ false
  no_overflow : core_v2_quantity_overflows raw ≡ false

valid-Passes : (raw : Text) → valid_core_v2_quantity raw ≡ true → Passes raw
unfolding valid_core_v2_quantity
valid-Passes raw h = ground (arith, text_eq_iff raw (trim_space raw))

pub valid_quantity :
    (raw : Text) (q : Quantity)
    → valid_core_v2_quantity raw ≡ true
    → parse_quantity raw ≡ ok q
    → (n : ℕ) × Spells raw n × (n ≤ max_int64) × (q ≡ record { millionths = pos n })
unfolding parse_quantity
valid_quantity raw q v e =
    let c = valid-Passes raw v in
    let (no_minus, p) = parse_trimmed-Parts raw q (ap parse_trimmed c.trimmed ∙ e) in
    let (n, s, fits, wrapped) = Parts-Spells p c.no_last_point no_minus c.no_plus in
    let small : n ≤ max_int64 = ground (arith, overflows-Spells s fits, c.no_overflow) in
    (n, s, small, ground (arith, wrapped, wrap64_fits (pos n)))

-- With the strict grammar of the v2 contract a position is accepted exactly when its symbol is not
-- empty and its units are decimal digits with at most six places, whose millionths fit in an int64;
-- and its quantity is then that number.
pub core_parse_position_strict_iff :
    (symbol raw : Text) (p : Position)
    → (core_parse_position (some symbol) (some raw) true ≡ ok p) ↔ (
        (symbol ≢ [])
        × (p.symbol ≡ symbol)
        × ((n : ℕ) × Spells raw n × (n ≤ max_int64) × (p.quantity ≡ record { millionths = pos n })))
core_parse_position_strict_iff symbol raw p = (
  λ e.
      let a = core_parse_position-Accepted (some symbol) (some raw) true p e in
      let same : symbol ≡ p.symbol = cc (a.has_symbol) in
      let read : a.raw ≡ raw = cc (a.has_quantity) in
      let (n, s, fits, q) =
        valid_quantity raw p.quantity (ap valid_core_v2_quantity (sym read) ∙ a.valid refl)
          (ap parse_quantity (sym read) ∙ a.parsed) in
      (λ empty. a.symbol-ne-nil (sym same ∙ empty), sym same, (n, s, fits, q)),
  λ (some_symbol, same, (n, s, fits, q)).
      ap (λ t. core_parse_position (some t) (some raw) true) (sym same)
      ∙ core_parse_position_accepts raw true p (λ empty. some_symbol (sym same ∙ empty))
          (λ _. valid-Spells s fits) (parse_quantity_exact raw n s fits ∙ ap ok (sym q)),
)
