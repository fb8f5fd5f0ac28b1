-- ===== src/Text/Sorting/Laws.antt =====
-- Sorted lists of texts, and the result of sorting.
use mathlib.Core.Path.{ap₂}
use factory_demo.Base.{
  ◌≤◌, List, [], ◌∷◌, ◌≡◌, ◌≢◌, inl, inr, refl, true, false, arith, All, Bool-cases,
}
use factory_demo.Text.Bytes.{Text, text_lt}
use factory_demo.Text.Order.{
  text_eq_iff, text_lt_irrefl, text_lt_trans, text_lt_total, text_eq_refl,
}
use factory_demo.Text.Sorting.{insert_sorted, sort, count}

-- Every text is before all behind it.
abbrev pub IsStrictlySorted : List Text → Type 0
IsStrictlySorted [] = Unit
IsStrictlySorted (t ∷ ts) = All (λ u. text_lt t u ≡ true) ts × IsStrictlySorted ts

count-insert_sorted :
    (s t : Text) (ts : List Text) → count s (insert_sorted t ts) ≡ count s (t ∷ ts)
unfolding insert_sorted
count-insert_sorted s t [] = refl
count-insert_sorted s t (u ∷ ts) = ground (arith, count-insert_sorted s t ts)

pub count-sort : (s : Text) (ts : List Text) → count s (sort ts) ≡ count s ts
unfolding sort
count-sort s [] = refl
count-sort s (t ∷ ts) = ground (arith, count-insert_sorted s t (sort ts), count-sort s ts)

-- No text is before an earlier one.
abbrev pub IsSorted : List Text → Type 0
IsSorted [] = Unit
IsSorted (t ∷ ts) = All (λ u. text_lt u t ≡ false) ts × IsSorted ts

All-insert_sorted :
    (b s : Text) (ts : List Text)
    → text_lt s b ≡ false
    → All (λ u. text_lt u b ≡ false) ts
    → All (λ u. text_lt u b ≡ false) (insert_sorted s ts)
unfolding insert_sorted
All-insert_sorted b s [] h k = (h, tt)
All-insert_sorted b s (t ∷ ts) h k = ground (arith, All-insert_sorted b s ts h k.1)

not_before_trans : (s t u : Text) → text_lt t s ≡ false → text_lt u t ≡ false → text_lt u s ≡ false
not_before_trans s t u h k = elim (Bool-cases (text_lt s t)) [
  | inl e ↦ ground (arith, text_lt_trans u s t)
  | inr e ↦ rw (text_lt_total s t e h) k
]

All-not_before :
    (s t : Text) (ts : List Text)
    → text_lt t s ≡ false
    → All (λ u. text_lt u t ≡ false) ts
    → All (λ u. text_lt u s ≡ false) ts
All-not_before s t [] h k = tt
All-not_before s t (u ∷ ts) h k = (not_before_trans s t u h k.0, All-not_before s t ts h k.1)

insert_sorted-IsSorted : (s : Text) (ts : List Text) → IsSorted ts → IsSorted (insert_sorted s ts)
unfolding insert_sorted
insert_sorted-IsSorted s [] h = (tt, tt)
insert_sorted-IsSorted s (t ∷ ts) h = ground (
  arith,
  text_lt_trans s t s,
  text_lt_irrefl s,
  All-insert_sorted t s ts,
  All-not_before s t ts,
  insert_sorted-IsSorted s ts h.1,
)

pub sort-IsSorted : (ts : List Text) → IsSorted (sort ts)
unfolding sort
sort-IsSorted [] = tt
sort-IsSorted (t ∷ ts) = insert_sorted-IsSorted t (sort ts) (sort-IsSorted ts)

count-not_before :
    (b s : Text) (ts : List Text)
    → All (λ u. text_lt u b ≡ false) ts
    → count s ts ≢ 0
    → text_lt s b ≡ false
count-not_before b s [] h k = absurd (k refl)
count-not_before b s (t ∷ ts) h k = ground (arith, text_eq_iff t s, count-not_before b s ts h.1)

-- Two sorted lists with the same texts have the same first text.
first_eq :
    (s t : Text) (ss ts : List Text)
    → IsSorted (s ∷ ss)
    → IsSorted (t ∷ ts)
    → count s (s ∷ ss) ≡ count s (t ∷ ts)
    → count t (s ∷ ss) ≡ count t (t ∷ ts)
    → s ≡ t
first_eq s t ss ts h k e f = ground (
  arith,
  text_eq_iff s t,
  text_eq_iff t s,
  text_eq_refl s,
  text_eq_refl t,
  count-not_before t s ts k.0,
  count-not_before s t ss h.0,
  text_lt_total s t,
)

pub sorted_unique :
    (ss ts : List Text)
    → IsSorted ss
    → IsSorted ts
    → ((s : Text) → count s ss ≡ count s ts)
    → ss ≡ ts
sorted_unique [] [] h k e = refl
sorted_unique [] (t ∷ ts) h k e = ground (arith, e t, text_eq_refl t)
sorted_unique (s ∷ ss) [] h k e = ground (arith, e s, text_eq_refl s)
sorted_unique (s ∷ ss) (t ∷ ts) h k e =
    let same = first_eq s t ss ts h k (e s) (e t) in
    ap₂ (λ u us. u ∷ us) same (sorted_unique ss ts h.1 k.1 (λ u. ground (arith, e u, same)))

All-before :
    (t : Text) (ts : List Text)
    → All (λ u. text_lt u t ≡ false) ts
    → count t ts ≡ 0
    → All (λ u. text_lt t u ≡ true) ts
All-before t [] h k = tt
All-before t (u ∷ ts) h k = ground (arith, text_lt_total t u, text_eq_iff u t, All-before t ts h.1)

pub strict : (ts : List Text) → IsSorted ts → ((s : Text) → count s ts ≤ 1) → IsStrictlySorted ts
strict [] h k = tt
strict (t ∷ ts) h k = (
  All-before t ts h.0 (ground (arith, k t, text_eq_refl t)),
  strict ts h.1 (λ s. ground (arith, k s)),
)
