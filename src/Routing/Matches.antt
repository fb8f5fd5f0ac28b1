-- ===== src/Routing/Matches.antt =====
-- The patterns that segments match, and the pattern that is looked up for them.
use factory_demo.Base.{
  List, ◌∷◌, ◌≡◌, ◌⊎◌, inl, inr, refl, sym, Option-cases, ◌∙◌, true, false, some, none,
}
use factory_demo.Text.{Text, codes, is_empty, text_eq}
use factory_demo.Text.Order.{text_eq_iff}
use factory_demo.Routing.{Part, Entry, add_value, lookup, matched, unescaped}

pub matched-literal :
    (l : Text) (parts : List Part) (ss : List Text)
    → unescaped l ≡ l
    → matched (Part.literal l ∷ parts) (l ∷ ss) ≡ matched parts ss
unfolding matched
matched-literal l parts ss h =
    let same : text_eq (unescaped l) l ≡ true = (text_eq_iff (unescaped l) l).1 h in rw same refl

pub matched-wildcard :
    (s value : Text) (parts : List Part) (ss : List Text)
    → is_empty s ≡ false
    → unescaped s ≡ value
    → text_eq value (codes "/") ≡ false
    → matched (Part.wildcard ∷ parts) (s ∷ ss) ≡ add_value value (matched parts ss)
unfolding matched
matched-wildcard s value parts ss f u n = rw f (rw u (rw n refl))

pub matched_other :
    (l s : Text) (parts : List Part) (ss : List Text)
    → text_eq (unescaped s) l ≡ false
    → matched (Part.literal l ∷ parts) (s ∷ ss) ≡ none
unfolding matched
matched_other l s parts ss h = rw h refl

module _ {E : Type 0} (entry : Entry E) (entries : List (Entry E)) (ss : List Text) where
  pub lookup_first :
      (values : List Text)
      → matched entry.parts ss ≡ some values
      → lookup (entry ∷ entries) ss ≡ some (entry.endpoint values)
  unfolding lookup
  lookup_first values h = rw h refl

  pub lookup_behind :
      matched entry.parts ss ≡ none → lookup (entry ∷ entries) ss ≡ lookup entries ss
  unfolding lookup
  lookup_behind h = rw h refl

  pub lookup-cases :
      (e : E)
      → lookup (entry ∷ entries) ss ≡ some e
      → ((values : List Text) × (matched entry.parts ss ≡ some values)
          × (entry.endpoint values ≡ e))
        ⊎ (lookup entries ss ≡ some e)
  lookup-cases e h = elim (Option-cases (matched entry.parts ss)) [
    | inl none_matches ↦ inr (sym (lookup_behind none_matches) ∙ h)
    | inr (values, matches) ↦
        let found : some (entry.endpoint values) ≡ some e = sym (lookup_first values matches) ∙ h in
        inl (values, matches, cc found)
  ]
