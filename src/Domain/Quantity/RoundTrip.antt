-- ===== src/Domain/Quantity/RoundTrip.antt =====
-- Quantity.String and ParseQuantity of internal/domain/money.go, one behind the other.
use native.Mathlib.Decide.{ℕ_discrete}
use factory_demo.Base.{
  ℕ, ◌-◌, ◌*◌, ◌/◌, ◌%◌, ◌^◌, ◌≤◌, [], ◌∷◌, ◌++◌, ◌≡◌, ◌≢◌, refl, sym, ap, ◌∙◌, inl, inr, ok, arith,
  All, All-append, length, replicate, length-append, length-replicate, ◌<◌,
}
use factory_demo.Base.Int.{pos, max_int64, rem, quot}
use factory_demo.Text.{Text, value, pad, format_nat, format_int, format_padded, trim_right}
use factory_demo.Text.Trim.{trim_right_refill, length-trim_right}
use factory_demo.Text.Digits.{
  IsDigit, value-format_nat, format_nat-IsDigit, format_nat-ne-nil, length-format_nat, value-pad,
  value-append_zeros, replicate-IsDigit,
}
use factory_demo.Domain.Quantity.{million, parse_quantity, quantity_string}
use factory_demo.Domain.Quantity.Spelling.{Spells, parse_quantity_exact}

trim_right-IsDigit : (s : Text) → All IsDigit s → All IsDigit (trim_right b'0' s)
unfolding trim_right
trim_right-IsDigit [] h = tt
trim_right-IsDigit (c ∷ s) h = ground (arith, trim_right-IsDigit s h.1)

-- The six places of a fraction, %06d.
places : ℕ → Text
places r = pad 6 (format_nat r)

length-places : (r : ℕ) → r < million → length (places r) ≡ 6
unfolding places pad
length-places r h =
    let s = format_nat r in
    omega (
      arith,
      length-format_nat 6 r (omega arith) (omega arith),
      length-append (replicate (6 - length s) b'0') s,
      length-replicate {A = ℕ} (6 - length s) b'0',
    )

places-IsDigit : (r : ℕ) → All IsDigit (places r)
unfolding places pad
places-IsDigit r =
    All-append IsDigit (replicate (6 - length (format_nat r)) b'0') (format_nat r)
      (replicate-IsDigit (6 - length (format_nat r))) (format_nat-IsDigit r)

value-places : (r : ℕ) → value 0 (places r) ≡ r
unfolding places
value-places r = value-pad 6 (format_nat r) ∙ value-format_nat r

-- The places without their last zeros.
trimmed : ℕ → Text
trimmed r = trim_right b'0' (places r)

value-trimmed : (r : ℕ) → r < million → value 0 (trimmed r) * 10 ^ (6 - length (trimmed r)) ≡ r
unfolding trimmed
value-trimmed r h =
    let s = trim_right b'0' (places r) in
    sym (value-append_zeros s (6 - length s))
    ∙ ap (value 0) (
        trim_right_refill b'0' (places r) (6 - length s)
          (omega (arith, length-trim_right b'0' (places r), length-places r h)))
    ∙ value-places r

trimmed-ne-nil : (r : ℕ) → r < million → r ≢ 0 → trimmed r ≢ []
unfolding value
trimmed-ne-nil r h k e = k (sym (value-trimmed r h) ∙ ap (λ s. value 0 s * 10 ^ (6 - length s)) e)

length-trimmed : (r : ℕ) → r < million → length (trimmed r) ≤ 6
unfolding trimmed
length-trimmed r h = omega (arith, length-trim_right b'0' (places r), length-places r h)

string_whole :
    (m : ℕ)
    → m % million ≡ 0
    → quantity_string (record { millionths = pos m }) ≡ format_nat (m / million)
unfolding quantity_string quot rem format_int
string_whole m h = ground arith

string_fraction :
    (m : ℕ)
    → m % million ≢ 0
    → quantity_string (record { millionths = pos m })
      ≡ format_nat (m / million) ++ b'.' ∷ trimmed (m % million)
unfolding quantity_string quot rem format_int format_padded trimmed places
string_fraction m h = ground arith

-- The text is a decimal number, and spells the millionths.
pub quantity_string-Spells : (m : ℕ) → Spells (quantity_string (record { millionths = pos m })) m
quantity_string-Spells m = elim (ℕ_discrete (m % million) 0) [
  | yes e ↦ record {
    whole = format_nat (m / million);
    fraction = [];
    whole-ne-nil = format_nat-ne-nil (m / million);
    whole-IsDigit = format_nat-IsDigit (m / million);
    fraction-IsDigit = tt;
    short = omega arith;
    shape = inl (string_whole m e, refl);
    exact = unfold value in omega (arith, value-format_nat (m / million));
  }
  | no k ↦ record {
    whole = format_nat (m / million);
    fraction = trimmed (m % million);
    whole-ne-nil = format_nat-ne-nil (m / million);
    whole-IsDigit = format_nat-IsDigit (m / million);
    fraction-IsDigit =
        unfold trimmed in trim_right-IsDigit (places (m % million)) (places-IsDigit (m % million));
    short = length-trimmed (m % million) (omega arith);
    shape = inr (string_fraction m k, trimmed-ne-nil (m % million) (omega arith) k);
    exact =
        omega (arith, value-format_nat (m / million), value-trimmed (m % million) (omega arith));
  }
]

-- Reading what was printed gives the quantity back, for every int64 number of millionths that is
-- not negative.
pub parse_quantity-quantity_string :
    (m : ℕ)
    → m ≤ max_int64
    → parse_quantity (quantity_string (record { millionths = pos m }))
      ≡ ok (record { millionths = pos m })
parse_quantity-quantity_string m h = parse_quantity_exact _ m (quantity_string-Spells m) h
