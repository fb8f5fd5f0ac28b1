-- ===== src/Json/Scanner/Modes.antt =====
-- The states of the scanner of encoding/json, and how values, arrays and objects are completed.
use factory_demo.Base.{ℕ, List, [], ◌∷◌, ltb, if◌then◌else◌, length}
use factory_demo.Text.{Text}
use factory_demo.Json.{Value, Values, Members}

-- An open array with its values, an open object with its members, and one whose member with the key
-- is read; the last one first.
pub data Frame : Type 0 where
  array : List Value → Frame
  object : List (Text × Value) → Frame
  member : List (Text × Value) → Text → Frame

pub data StringState : Type 0 where
  plain escaped : StringState
  unit : ℕ → StringState

pub data NumberState : Type 0 where
  minus zero_digit integer point fraction exponent exponent_sign exponent_digits : NumberState

-- What is expected next: a value, a value or the end of an array, a key, a key or the end of an
-- object, a colon, a comma or an end, or the rest of a string, a number or a word.
pub data Mode : Type 0 where
  value first_value key first_key colon behind : Mode
  string : StringState → Text → Mode
  number : NumberState → Text → Mode
  word : Text → Value → Mode

-- An error, the next mode, or a value that ends with this byte or before it.
pub data Outcome : Type 0 where
  fail : Outcome
  go : Mode → List Frame → Outcome
  done done_before : Value → Outcome

abbrev pub max_depth : ℕ
max_depth = 10000

abbrev pub values_of : List Value → Values → Values
values_of [] vs = vs
values_of (v ∷ read) vs = values_of read (Values.value_and v vs)

abbrev pub members_of : List (Text × Value) → Members → Members
members_of [] ms = ms
members_of ((k, v) ∷ read) ms = members_of read (Members.member_and k v ms)

-- A value is complete.
unfoldable pub finish : Value → List Frame → Outcome
finish v [] = Outcome.done v
finish v (Frame.array read ∷ fs) = Outcome.go Mode.behind (Frame.array (v ∷ read) ∷ fs)
finish v (Frame.member read k ∷ fs) = Outcome.go Mode.behind (Frame.object ((k, v) ∷ read) ∷ fs)
finish v (Frame.object read ∷ fs) = Outcome.fail

-- A string is complete: a key where a key is read.
unfoldable pub finish_string : Text → List Frame → Outcome
unfolding finish
finish_string t [] = finish (Value.text t) []
finish_string t (Frame.array read ∷ fs) = finish (Value.text t) (Frame.array read ∷ fs)
finish_string t (Frame.member read k ∷ fs) = finish (Value.text t) (Frame.member read k ∷ fs)
finish_string t (Frame.object read ∷ fs) = Outcome.go Mode.colon (Frame.member read t ∷ fs)

-- An array or an object is opened, unless it is nested too deep.
unfoldable pub open_frame : Mode → Frame → List Frame → Outcome
open_frame m f fs = if ltb (length fs) max_depth then Outcome.go m (f ∷ fs) else Outcome.fail

unfoldable pub close_array : List Frame → Outcome
unfolding finish
close_array (Frame.array read ∷ fs) = finish (Value.array (values_of read Values.no_values)) fs
close_array _ = Outcome.fail

unfoldable pub close_object : List Frame → Outcome
unfolding finish
close_object (Frame.object read ∷ fs) =
    finish (Value.object (members_of read Members.no_members)) fs
close_object _ = Outcome.fail
