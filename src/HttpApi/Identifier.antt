-- ===== src/HttpApi/Identifier.antt =====
-- The pattern of customer identifiers, ^cust-[0-9]{4,12}$.
use factory_demo.Base.{
  ◌≤◌, [], ◌∷◌, ◌++◌, Option-cases, inl, inr, ◌≡◌, ◌↔◌, refl, Bool, true, false, ◌&&◌, Option, none,
  some, All, all, length, leb, ◌==◌, arith, if◌then◌else◌,
}
use factory_demo.Text.{Text, codes, is_digit}
use factory_demo.Text.Digits.{IsDigit, all-IsDigit, IsDigit-all}

-- The rest of a text behind a literal at its start.
unfoldable pub behind_literal : Text → Text → Option Text
behind_literal [] s = some s
behind_literal (b ∷ bs) [] = none
behind_literal (b ∷ bs) (c ∷ s) = let rest = behind_literal bs s in if c == b then rest else none

abbrev pub are_digits : Text → Bool
are_digits ds = all is_digit ds && leb 4 (length ds) && leb (length ds) 12

-- customerIDPattern.MatchString.
unfoldable pub is_customer_id : Text → Bool
is_customer_id s = elim (behind_literal (codes "cust-") s) [
  | none ↦ false
  | some ds ↦ are_digits ds
]

behind_literal_append : (bs s : Text) → behind_literal bs (bs ++ s) ≡ some s
unfolding behind_literal
behind_literal_append [] s = refl
behind_literal_append (b ∷ bs) s = ground (arith, behind_literal_append bs s)

behind_literal-some : (bs s t : Text) → behind_literal bs s ≡ some t → s ≡ bs ++ t
unfolding behind_literal
behind_literal-some [] s t h = ground arith
behind_literal-some (b ∷ bs) [] t h = cc
behind_literal-some (b ∷ bs) (c ∷ s) t h = ground (arith, behind_literal-some bs s t)

-- A customer's identifier: "cust-" and four to twelve digits.
pub record IsCustomerId (s : Text) : Type 0 where
  pub number : Text
  pub shape : s ≡ codes "cust-" ++ number
  pub number-IsDigit : All IsDigit number
  pub least : 4 ≤ length number
  pub most : length number ≤ 12

-- The handler lets exactly the identifiers through that are "cust-" and four to twelve digits.
pub is_customer_id_iff : (s : Text) → (is_customer_id s ≡ true) ↔ IsCustomerId s
unfolding is_customer_id
is_customer_id_iff s = (
  λ h. elim (Option-cases (behind_literal (codes "cust-") s)) [
    | inl e ↦ absurd (ground arith)
    | inr (ds, e) ↦
        let t : are_digits ds ≡ true = ground arith in
        record {
          number = ds;
          shape = behind_literal-some (codes "cust-") s ds e;
          number-IsDigit = IsDigit-all ds (ground arith);
          least = ground arith;
          most = ground arith;
        }
  ],
  λ i.
      let e = behind_literal_append (codes "cust-") i.number in
      rw i.shape (ground (arith, e, all-IsDigit i.number i.number-IsDigit, i.least, i.most)),
)
