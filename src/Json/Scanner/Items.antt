-- ===== src/Json/Scanner/Items.antt =====
-- The scanner of encoding/json where a value, a key, a comma or an end is expected.
use factory_demo.Base.{ℕ, List, [], ◌∷◌, true, false, ◌==◌, if◌then◌else◌}
use factory_demo.Text.{codes, is_digit}
use factory_demo.Json.{Value, is_space}
use factory_demo.Json.Scanner.Modes.{
  Frame, StringState, NumberState, Mode, Outcome, open_frame, close_array, close_object,
}

unfoldable pub step_value : List Frame → ℕ → Outcome
unfolding open_frame
step_value fs c =
    if is_space c
    then Outcome.go Mode.value fs
    else if c == b'{'
    then open_frame Mode.first_key (Frame.object []) fs
    else if c == b'['
    then open_frame Mode.first_value (Frame.array []) fs
    else if c == b'"'
    then Outcome.go (Mode.string StringState.plain []) fs
    else if c == b'-'
    then Outcome.go (Mode.number NumberState.minus (c ∷ [])) fs
    else if c == b'0'
    then Outcome.go (Mode.number NumberState.zero_digit (c ∷ [])) fs
    else if is_digit c
    then Outcome.go (Mode.number NumberState.integer (c ∷ [])) fs
    else if c == b't'
    then Outcome.go (Mode.word (codes "rue") (Value.boolean true)) fs
    else if c == b'f'
    then Outcome.go (Mode.word (codes "alse") (Value.boolean false)) fs
    else if c == b'n'
    then Outcome.go (Mode.word (codes "ull") Value.null) fs
    else Outcome.fail

-- A quotation mark or white space where a key is read.
unfoldable pub step_key : Mode → List Frame → ℕ → Outcome
step_key m fs c =
    if is_space c
    then Outcome.go m fs
    else if c == b'"'
    then Outcome.go (Mode.string StringState.plain []) fs
    else Outcome.fail

unfoldable pub step_behind : List Frame → ℕ → Outcome
unfolding close_array close_object
step_behind [] c = Outcome.fail
step_behind (Frame.array read ∷ fs) c =
    if is_space c
    then Outcome.go Mode.behind (Frame.array read ∷ fs)
    else if c == b','
    then Outcome.go Mode.value (Frame.array read ∷ fs)
    else if c == b']'
    then close_array (Frame.array read ∷ fs)
    else Outcome.fail
step_behind (Frame.object read ∷ fs) c =
    if is_space c
    then Outcome.go Mode.behind (Frame.object read ∷ fs)
    else if c == b','
    then Outcome.go Mode.key (Frame.object read ∷ fs)
    else if c == b'}'
    then close_object (Frame.object read ∷ fs)
    else Outcome.fail
step_behind (Frame.member read k ∷ fs) c = Outcome.fail
