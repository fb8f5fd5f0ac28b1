-- ===== src/Portfolio/Symbols.antt =====
-- uniqueSymbols of internal/portfolio/service.go: the symbols of all positions, each once, sorted.
-- Go iterates over a map in any order: the order is a parameter, a function on the list of the keys.
pub mod Laws
use factory_demo.Base.{List, [], ◌∷◌, Bool, false, ◌||◌, if◌then◌else◌}
use factory_demo.Text.{Text, text_eq}
use factory_demo.Text.Sorting.{sort}
use factory_demo.Domain.Values.{Position, Account}

unfoldable pub member : Text → List Text → Bool
member s [] = false
member s (t ∷ ts) = text_eq t s || member s ts

-- `seen[symbol] = struct{}{}`, with the keys in the order of their first insertion.
unfoldable pub mark : Text → List Text → List Text
unfolding member
mark s seen = if member s seen then seen else s ∷ seen

unfoldable pub mark_positions : List Position → List Text → List Text
mark_positions [] seen = seen
mark_positions (p ∷ ps) seen = mark_positions ps (mark p.symbol seen)

unfoldable pub mark_accounts : List Account → List Text → List Text
mark_accounts [] seen = seen
mark_accounts (a ∷ rest) seen = mark_accounts rest (mark_positions a.positions seen)

unfoldable pub unique_symbols : (List Text → List Text) → List Account → List Text
unfolding mark mark_positions mark_accounts sort
unique_symbols order accounts = sort (order (mark_accounts accounts []))
