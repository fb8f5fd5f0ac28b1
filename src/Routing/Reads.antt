-- ===== src/Routing/Reads.antt =====
-- What a pattern says of the segments that it matches.
use factory_demo.Base.{
  ℕ, suc, length, List, ◌∷◌, [], ◌≡◌, ◌≢◌, refl, sym, ap, ◌∙◌, Bool-cases, false, Option, some,
  none, arith, inl, inr,
}
use factory_demo.Text.{Text, codes, is_empty, text_eq}
use factory_demo.Text.Order.{text_eq_iff}
use factory_demo.Routing.{Part, add_value, matched, unescaped}
use factory_demo.Routing.Matches.{matched-wildcard}

-- Each literal is what its segment stands for, and each wildcard's value what a segment that is not
-- empty and does not stand for the slash of a path's end.
unfoldable pub Matches : List Part → List Text → List Text → Type 0
Matches [] [] values = values ≡ []
Matches [] (_ ∷ _) values = ⊥
Matches (_ ∷ _) [] values = ⊥
Matches (Part.literal l ∷ parts) (s ∷ ss) values = (unescaped s ≡ l) × Matches parts ss values
Matches (Part.wildcard ∷ parts) (s ∷ ss) [] = ⊥
Matches (Part.wildcard ∷ parts) (s ∷ ss) (v ∷ vs) =
    (is_empty s ≡ false) × (text_eq v (codes "/") ≡ false) × (unescaped s ≡ v) × Matches parts ss vs

pub matched-Matches :
    (parts : List Part) (ss values : List Text)
    → Matches parts ss values
    → matched parts ss ≡ some values
unfolding matched Matches
matched-Matches [] [] values h = ap some (sym h)
matched-Matches [] (s ∷ ss) values h = absurd h
matched-Matches (p ∷ parts) [] values h = absurd h
matched-Matches (Part.literal l ∷ parts) (s ∷ ss) values h =
    rw ((text_eq_iff (unescaped s) l).1 h.0) (matched-Matches parts ss values h.1)
matched-Matches (Part.wildcard ∷ parts) (s ∷ ss) [] h = absurd h
matched-Matches (Part.wildcard ∷ parts) (s ∷ ss) (v ∷ vs) h =
    matched-wildcard s v parts ss h.0 h.2 h.1 ∙ ap (add_value v) (matched-Matches parts ss vs h.3)

add_value-some :
    (t v : Text) (vs : List Text) (o : Option (List Text))
    → add_value t o ≡ some (v ∷ vs)
    → (t ≡ v) × (o ≡ some vs)
add_value-some t v vs none h = absurd (ground (arith, h))
add_value-some t v vs (some us) h = (cc h, cc h)

add_value-none : (t : Text) (o : Option (List Text)) → add_value t o ≢ some []
add_value-none t none h = ground (arith, h)
add_value-none t (some us) h = ground (arith, h)

-- A wildcard matches exactly a segment that is not empty and does not stand for a slash.
wildcard-cases :
    (s : Text) (parts : List Part) (ss values : List Text)
    → matched (Part.wildcard ∷ parts) (s ∷ ss) ≡ some values
    → (is_empty s ≡ false)
      × (text_eq (unescaped s) (codes "/") ≡ false)
      × (add_value (unescaped s) (matched parts ss) ≡ some values)
unfolding matched
wildcard-cases s parts ss values h = elim (Bool-cases (is_empty s)) [
  | inl empty ↦ absurd (ground (arith, empty, h))
  | inr filled ↦ elim (Bool-cases (text_eq (unescaped s) (codes "/"))) [
    | inl slash ↦ absurd (ground (arith, filled, slash, h))
    | inr other ↦ (filled, other, sym (rw filled (rw other refl)) ∙ h)
  ]
]

pub Matches-matched :
    (parts : List Part) (ss values : List Text)
    → matched parts ss ≡ some values
    → Matches parts ss values
unfolding matched Matches
Matches-matched [] [] values h = cc h
Matches-matched [] (s ∷ ss) values h = ground (arith, h)
Matches-matched (p ∷ parts) [] values h = ground (arith, h)
Matches-matched (Part.literal l ∷ parts) (s ∷ ss) values h =
    elim (Bool-cases (text_eq (unescaped s) l)) [
      | inl same ↦ (
        (text_eq_iff (unescaped s) l).0 same,
        Matches-matched parts ss values (sym (rw same refl) ∙ h),
      )
      | inr other ↦ absurd (ground (arith, other, h))
    ]
Matches-matched (Part.wildcard ∷ parts) (s ∷ ss) [] h =
    add_value-none (unescaped s) (matched parts ss) (wildcard-cases s parts ss [] h).2
Matches-matched (Part.wildcard ∷ parts) (s ∷ ss) (v ∷ vs) h =
    let (filled, other, found) = wildcard-cases s parts ss (v ∷ vs) h in
    let (same, rest) = add_value-some (unescaped s) v vs (matched parts ss) found in
    (
      filled,
      sym (ap (λ t. text_eq t (codes "/")) same) ∙ other,
      same,
      Matches-matched parts ss vs rest,
    )

unfoldable pub wildcards : List Part → ℕ
wildcards [] = 0
wildcards (Part.literal _ ∷ parts) = wildcards parts
wildcards (Part.wildcard ∷ parts) = suc (wildcards parts)

pub Matches-wildcards :
    (parts : List Part) (ss values : List Text)
    → Matches parts ss values
    → length values ≡ wildcards parts
unfolding Matches wildcards
Matches-wildcards [] [] values h = ap length h
Matches-wildcards [] (s ∷ ss) values h = absurd h
Matches-wildcards (p ∷ parts) [] values h = absurd h
Matches-wildcards (Part.literal l ∷ parts) (s ∷ ss) values h = Matches-wildcards parts ss values h.1
Matches-wildcards (Part.wildcard ∷ parts) (s ∷ ss) [] h = absurd h
Matches-wildcards (Part.wildcard ∷ parts) (s ∷ ss) (v ∷ vs) h =
    ap suc (Matches-wildcards parts ss vs h.3)
