-- ===== src/Portfolio/Symbols/Laws.antt =====
-- The result of uniqueSymbols in internal/portfolio/service.go, and the order of a map.
use factory_demo.Base.{
  ℕ, List, [], ◌∷◌, ◌≡◌, refl, Bool, false, ◌||◌, arith, not, ◌==◌, if◌then◌else◌,
}
use factory_demo.Text.{Text, text_eq}
use factory_demo.Text.Order.{text_eq_iff}
use factory_demo.Domain.Values.{Position, Account}
use factory_demo.Text.Sorting.{sort, count, IsIteration}
use factory_demo.Text.Sorting.Laws.{
  IsStrictlySorted, count-sort, sort-IsSorted, sorted_unique, strict,
}
use factory_demo.Portfolio.Symbols.{member, mark, mark_positions, mark_accounts, unique_symbols}

-- The symbols do not depend on the order in which the map is iterated, as long as the iteration
-- yields each key just as often as the map holds it.
pub unique_symbols_order :
    (order order' : List Text → List Text) (accounts : List Account)
    → IsIteration order
    → IsIteration order'
    → unique_symbols order accounts ≡ unique_symbols order' accounts
unfolding unique_symbols
unique_symbols_order order order' accounts h k =
    let keys = mark_accounts accounts [] in
    sorted_unique (sort (order keys)) (sort (order' keys)) (sort-IsSorted (order keys))
      (sort-IsSorted (order' keys))
      (λ s.
        omega (arith, count-sort s (order keys), count-sort s (order' keys), h keys s, k keys s))

-- Whether a position of the accounts has this symbol.
abbrev pub is_held : Text → List Position → Bool
is_held s [] = false
is_held s (p ∷ ps) = text_eq p.symbol s || is_held s ps

abbrev pub is_mentioned : Text → List Account → Bool
is_mentioned s [] = false
is_mentioned s (a ∷ rest) = is_held s a.positions || is_mentioned s rest

abbrev once : Bool → ℕ
once b = if b then 1 else 0

member-count : (s : Text) (ts : List Text) → member s ts ≡ not (count s ts == 0)
unfolding member
member-count s [] = refl
member-count s (t ∷ ts) = ground (arith, member-count s ts)

count-mark :
    (s t : Text) (b : Bool) (seen : List Text)
    → count s seen ≡ once b
    → count s (mark t seen) ≡ once (b || text_eq t s)
unfolding mark
count-mark s t b seen h = ground (arith, member-count t seen, text_eq_iff t s)

||-assoc : (a b c : Bool) → (a || (b || c)) ≡ ((a || b) || c)
||-assoc a b c = ground arith

count-mark_positions :
    (s : Text) (ps : List Position) (b : Bool) (seen : List Text)
    → count s seen ≡ once b
    → count s (mark_positions ps seen) ≡ once (b || is_held s ps)
unfolding mark_positions
count-mark_positions s [] b seen h = ground arith
count-mark_positions s (p ∷ ps) b seen h = rw (||-assoc b (text_eq p.symbol s) (is_held s ps)) (
    count-mark_positions s ps (b || text_eq p.symbol s) (mark p.symbol seen)
      (count-mark s p.symbol b seen h))

count-mark_accounts :
    (s : Text) (accounts : List Account) (b : Bool) (seen : List Text)
    → count s seen ≡ once b
    → count s (mark_accounts accounts seen) ≡ once (b || is_mentioned s accounts)
unfolding mark_accounts
count-mark_accounts s [] b seen h = ground arith
count-mark_accounts s (a ∷ rest) b seen h =
    rw (||-assoc b (is_held s a.positions) (is_mentioned s rest)) (
      count-mark_accounts s rest (b || is_held s a.positions) (mark_positions a.positions seen)
        (count-mark_positions s a.positions b seen h))

count-unique_symbols :
    (order : List Text → List Text) (accounts : List Account) (s : Text)
    → IsIteration order
    → count s (unique_symbols order accounts) ≡ once (is_mentioned s accounts)
unfolding unique_symbols
count-unique_symbols order accounts s h =
    let keys = mark_accounts accounts [] in
    omega (arith, count-sort s (order keys), h keys s, count-mark_accounts s accounts false [] refl)

-- The symbols come out strictly sorted, and each symbol of a position stands there exactly once and
-- no other text does, in whatever order the map is iterated, as long as the iteration yields each
-- key just as often as the map holds it.
pub unique_symbols_lem :
    (order : List Text → List Text) (accounts : List Account)
    → IsIteration order
    → IsStrictlySorted (unique_symbols order accounts)
      × ((s : Text)
          → count s (unique_symbols order accounts) ≡ (if is_mentioned s accounts then 1 else 0))
unique_symbols_lem order accounts h = (
  strict (unique_symbols order accounts)
      (unfold unique_symbols in sort-IsSorted (order (mark_accounts accounts [])))
      (λ s. ground (arith, count-unique_symbols order accounts s h)),
  λ s. count-unique_symbols order accounts s h,
)
