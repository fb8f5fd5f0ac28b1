-- ===== src/Json/Scanner.antt =====
-- The scanner of encoding/json as a machine over the bytes: a mode and a stack of open arrays and
-- objects. It reads one value and leaves the rest.
mod Modes
mod Items
mod Tokens
unfoldable pub use Modes.*
unfoldable pub use Items.*
unfoldable pub use Tokens.*
use factory_demo.Base.{
  ℕ, zero, suc, List, [], ◌∷◌, ◌++◌, Bool, true, false, ◌||◌, Option, none, some, ltb, ◌==◌,
  if◌then◌else◌, length,
}
use factory_demo.Text.{Text, codes, is_digit}
use factory_demo.Json.{Value, Values, Members, is_space}
use factory_demo.Json.Strings.{unquote, is_hex}

-- One byte.
unfoldable pub step : Mode → List Frame → ℕ → Outcome
unfolding step_value step_key step_behind step_string step_number step_word
step Mode.value fs c = step_value fs c
step Mode.first_value fs c =
    if is_space c
    then Outcome.go Mode.first_value fs
    else if c == b']'
    then close_array fs
    else step_value fs c
step Mode.key fs c = step_key Mode.key fs c
step Mode.first_key fs c = if c == b'}' then close_object fs else step_key Mode.first_key fs c
step Mode.colon fs c =
    if is_space c
    then Outcome.go Mode.colon fs
    else if c == b':'
    then Outcome.go Mode.value fs
    else Outcome.fail
step Mode.behind fs c = step_behind fs c
step (Mode.string st raw) fs c = step_string st raw fs c
step (Mode.number st raw) fs c = step_number st raw fs c
step (Mode.word es v) fs c = step_word es v fs c

-- At the end of the input only a number can still be complete.
abbrev at_end : Mode → List Frame → Option (Value × Text)
at_end (Mode.number st raw) [] = if is_complete st then some (Value.number raw, []) else none
at_end _ _ = none

-- The value and the rest behind it, or `none` for a syntax error or the end of the input.
unfoldable pub run : Mode → List Frame → Text → Option (Value × Text)
unfolding step
run m fs [] = at_end m fs
run m fs (c ∷ s) = elim (step m fs c) [
  | Outcome.fail ↦ none
  | Outcome.go m' fs' ↦ run m' fs' s
  | Outcome.done v ↦ some (v, s)
  | Outcome.done_before v ↦ some (v, c ∷ s)
]

-- The next value of a document.
unfoldable pub read : Text → Option (Value × Text)
unfolding run
read = run Mode.value []
