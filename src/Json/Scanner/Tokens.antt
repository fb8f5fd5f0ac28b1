-- ===== src/Json/Scanner/Tokens.antt =====
-- The scanner of encoding/json inside of strings, numbers and words.
use factory_demo.Base.{
  ℕ, zero, suc, List, [], ◌∷◌, ◌++◌, Bool, true, false, ◌||◌, Option, none, some, ltb, ◌==◌,
  if◌then◌else◌,
}
use factory_demo.Text.{Text, is_digit}
use factory_demo.Json.{Value}
use factory_demo.Json.Strings.{unquote, is_hex}
use factory_demo.Json.Scanner.Modes.{
  Frame, StringState, NumberState, Mode, Outcome, finish, finish_string,
}
use factory_demo.Json.Scanner.Items.{step_behind}

abbrev pub is_escape : ℕ → Bool
is_escape c =
    c == b'b'
    || c == b'f'
    || c == b'n'
    || c == b'r'
    || c == b't'
    || c == b'\\'
    || c == b'/'
    || c == b'"'

abbrev pub go_string : StringState → Text → List Frame → ℕ → Outcome
go_string st raw fs c = Outcome.go (Mode.string st (raw ++ c ∷ [])) fs

unfoldable pub step_string : StringState → Text → List Frame → ℕ → Outcome
unfolding finish_string unquote
step_string StringState.plain raw fs c =
    if c == b'"'
    then finish_string (unquote 0 raw) fs
    else if c == b'\\'
    then go_string StringState.escaped raw fs c
    else if ltb c 32
    then Outcome.fail
    else go_string StringState.plain raw fs c
step_string StringState.escaped raw fs c =
    if is_escape c
    then go_string StringState.plain raw fs c
    else if c == b'u'
    then go_string (StringState.unit 3) raw fs c
    else Outcome.fail
step_string (StringState.unit zero) raw fs c =
    if is_hex c then go_string StringState.plain raw fs c else Outcome.fail
step_string (StringState.unit (suc n)) raw fs c =
    if is_hex c then go_string (StringState.unit n) raw fs c else Outcome.fail

abbrev fractional : ℕ → Option NumberState
fractional c =
    if c == b'.'
    then some NumberState.point
    else if c == b'e' || c == b'E'
    then some NumberState.exponent
    else none

-- The state behind a byte that goes on with a number.
abbrev pub next_number : NumberState → ℕ → Option NumberState
next_number NumberState.minus c =
    if c == b'0'
    then some NumberState.zero_digit
    else if is_digit c
    then some NumberState.integer
    else none
next_number NumberState.zero_digit c = fractional c
next_number NumberState.integer c = if is_digit c then some NumberState.integer else fractional c
next_number NumberState.point c = if is_digit c then some NumberState.fraction else none
next_number NumberState.fraction c =
    if is_digit c
    then some NumberState.fraction
    else if c == b'e' || c == b'E'
    then some NumberState.exponent
    else none
next_number NumberState.exponent c =
    if c == b'+' || c == b'-'
    then some NumberState.exponent_sign
    else if is_digit c
    then some NumberState.exponent_digits
    else none
next_number NumberState.exponent_sign c =
    if is_digit c then some NumberState.exponent_digits else none
next_number NumberState.exponent_digits c =
    if is_digit c then some NumberState.exponent_digits else none

abbrev pub is_complete : NumberState → Bool
is_complete NumberState.zero_digit = true
is_complete NumberState.integer = true
is_complete NumberState.fraction = true
is_complete NumberState.exponent_digits = true
is_complete _ = false

-- The byte behind a number belongs to the array or the object that holds the number.
unfoldable pub behind_number : Outcome → ℕ → Outcome
unfolding step_behind
behind_number Outcome.fail c = Outcome.fail
behind_number (Outcome.go m fs) c = step_behind fs c
behind_number (Outcome.done v) c = Outcome.done_before v
behind_number (Outcome.done_before v) c = Outcome.done_before v

unfoldable pub step_number : NumberState → Text → List Frame → ℕ → Outcome
unfolding behind_number finish
step_number st raw fs c = elim (next_number st c) [
  | some st' ↦ Outcome.go (Mode.number st' (raw ++ c ∷ [])) fs
  | none ↦ if is_complete st then behind_number (finish (Value.number raw) fs) c else Outcome.fail
]

unfoldable pub step_word : Text → Value → List Frame → ℕ → Outcome
unfolding finish
step_word [] v fs c = Outcome.fail
step_word (e ∷ []) v fs c = if c == e then finish v fs else Outcome.fail
step_word (e ∷ f ∷ es) v fs c =
    if c == e then Outcome.go (Mode.word (f ∷ es) v) fs else Outcome.fail
