-- ===== src/Text/Sorting.antt =====
-- sort.Strings, and the order in which Go iterates over the keys of a map, which is any order.
pub mod Laws
use factory_demo.Base.{ℕ, suc, List, [], ◌∷◌, ◌≡◌, if◌then◌else◌}
use factory_demo.Text.Bytes.{Text, text_eq, text_lt}

unfoldable pub insert_sorted : Text → List Text → List Text
insert_sorted s [] = s ∷ []
insert_sorted s (t ∷ ts) = if text_lt t s then t ∷ insert_sorted s ts else s ∷ t ∷ ts

-- sort.Strings.
unfoldable pub sort : List Text → List Text
unfolding insert_sorted
sort [] = []
sort (s ∷ ss) = insert_sorted s (sort ss)

-- How often a text stands in a list.
abbrev pub count : Text → List Text → ℕ
count s [] = 0
count s (t ∷ ts) = if text_eq t s then suc (count s ts) else count s ts

-- The iteration yields each key as often as the map holds it.
abbrev pub IsIteration : (List Text → List Text) → Type 0
IsIteration order = (ts : List Text) (s : Text) → count s (order ts) ≡ count s ts
