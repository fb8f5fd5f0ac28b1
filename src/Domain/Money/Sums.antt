-- ===== src/Domain/Money/Sums.antt =====
-- Money.Add and NewMoney: when they succeed, and with what.
use factory_demo.Base.{◌≡◌, ◌↔◌, ok, arith, length}
use factory_demo.Base.Int.{ℤ, Fits64, ◌+ℤ◌, add64, wrap64_fits, int_laws}
use factory_demo.Text.{Text, trim_space, to_upper}
use factory_demo.Text.Order.{text_eq_iff}
use factory_demo.Domain.Money.{Money, new_money, add}

pub add-eq-ok_iff :
    (m o r : Money)
    → (add m o ≡ ok r)
      ↔ ((m.currency ≡ o.currency) × (r.currency ≡ m.currency) × (r.minor ≡ add64 m.minor o.minor))
unfolding add
add-eq-ok_iff m o r = ground (arith, text_eq_iff m.currency o.currency)

+ℤ_comm : (a b : ℤ) → a +ℤ b ≡ b +ℤ a
+ℤ_comm a b = omega int_laws

-- Addition is commutative where it succeeds, and exact where the sum fits in an int64.
pub add_lem :
    (m o r : Money)
    → add m o ≡ ok r
    → (add o m ≡ ok r) × (Fits64 (m.minor +ℤ o.minor) → r.minor ≡ m.minor +ℤ o.minor)
add_lem m o r e =
    let (same, code, sum) = (add-eq-ok_iff m o r).0 e in
    (
      (add-eq-ok_iff o m r).1 (ground (arith, +ℤ_comm o.minor m.minor)),
      λ h. ground (arith, wrap64_fits (m.minor +ℤ o.minor) h),
    )

module _ (upper_runes : Text → Text) where
  -- NewMoney keeps the amount, and its currency is the trimmed code in upper case, of three bytes.
  pub new_money-eq-ok_iff :
      (minor : ℤ) (currency : Text) (m : Money)
      → (new_money upper_runes minor currency ≡ ok m) ↔ (
          (m.minor ≡ minor)
          × (m.currency ≡ to_upper upper_runes (trim_space currency))
          × (length m.currency ≡ 3))
  unfolding new_money
  new_money-eq-ok_iff minor currency m = ground arith
