-- ===== src/Json/RoundTrip/Scalars.antt =====
-- Numbers and strings as the encoder writes them, and what the scanner makes of the start of a value.
use factory_demo.Base.{
  ℕ, suc, List, [], ◌∷◌, ◌++◌, ◌≡◌, refl, sym, ap, ◌∙◌, true, false, some, inl, inr, Option-cases,
  arith, append_assoc, ◌==◌, length,
}
use factory_demo.Text.{Text}
use factory_demo.Json.{Value, Values, Members, is_space}
use factory_demo.Json.Strings.{quote}
use factory_demo.Json.Encoder.{
  encode, encode_string, encode_first, encode_values, encode_first_member, encode_members,
}
use factory_demo.Json.Scanner.{
  Mode, StringState, NumberState, Frame, Outcome, run, step, step_value, finish, finish_string,
  values_of, members_of, read,
}
use factory_demo.Json.Quoting.Unquoting.{run-string}
use factory_demo.Json.Quoting.{continued, run-step}
use factory_demo.Json.Numbers.{first_number, is_number, Stops, run-number}
use factory_demo.Json.RoundTrip.{IsEncodable, AreEncodable, HasEncodable}

-- The innermost object, if that is what is open, waits for a value.
abbrev pub TakesValue : List Frame → Type 0
TakesValue [] = Unit
TakesValue (Frame.array read ∷ fs) = Unit
TakesValue (Frame.member read k ∷ fs) = Unit
TakesValue (Frame.object read ∷ fs) = ⊥

-- What may follow a value: behind a number, no byte that goes on with it.
abbrev pub StopsBehind : Value → Text → Type 0
StopsBehind (Value.number raw) rest = Stops rest
StopsBehind _ rest = Unit

pub Stops-StopsBehind : (v : Value) (rest : Text) → Stops rest → StopsBehind v rest
Stops-StopsBehind Value.null rest h = tt
Stops-StopsBehind (Value.boolean b) rest h = tt
Stops-StopsBehind (Value.number raw) rest h = h
Stops-StopsBehind (Value.text t) rest h = tt
Stops-StopsBehind (Value.array vs) rest h = tt
Stops-StopsBehind (Value.object ms) rest h = tt

-- The scanner reads a value that the encoder wrote, inside of any arrays and objects and in front of
-- any text that a number stops at.
abbrev pub ReadsValue : Value → Type 0
ReadsValue v =
    (fs : List Frame) (rest : Text)
    → IsEncodable (length fs) v
    → TakesValue fs
    → StopsBehind v rest
    → run Mode.value fs (encode v ++ rest) ≡ continued (finish v fs) rest

abbrev pub ReadsValues : Values → Type 0
ReadsValues vs =
    (fs : List Frame) (read : List Value) (rest : Text)
    → AreEncodable (suc (length fs)) vs
    → (run Mode.behind (Frame.array read ∷ fs) (encode_values vs ++ b']' ∷ rest)
        ≡ continued (finish (Value.array (values_of read vs)) fs) rest)
      × (run Mode.first_value (Frame.array read ∷ fs) (encode_first vs ++ b']' ∷ rest)
          ≡ continued (finish (Value.array (values_of read vs)) fs) rest)

abbrev pub ReadsMembers : Members → Type 0
ReadsMembers ms =
    (fs : List Frame) (read : List (Text × Value)) (rest : Text)
    → HasEncodable (suc (length fs)) ms
    → (run Mode.behind (Frame.object read ∷ fs) (encode_members ms ++ b'}' ∷ rest)
        ≡ continued (finish (Value.object (members_of read ms)) fs) rest)
      × (run Mode.first_key (Frame.object read ∷ fs) (encode_first_member ms ++ b'}' ∷ rest)
          ≡ continued (finish (Value.object (members_of read ms)) fs) rest)

step_value_number :
    (fs : List Frame) (c : ℕ) (st : NumberState)
    → first_number c ≡ some st
    → step_value fs c ≡ Outcome.go (Mode.number st (c ∷ [])) fs
unfolding step_value
step_value_number fs c st e = ground (arith, e)

pub number_value :
    (raw : Text) (fs : List Frame) (rest : Text)
    → is_number raw ≡ true
    → Stops rest
    → run Mode.value fs (raw ++ rest) ≡ continued (finish (Value.number raw) fs) rest
unfolding step
number_value [] fs rest h k = absurd (ground arith)
number_value (c ∷ raw) fs rest h k = elim (Option-cases (first_number c)) [
  | inl e ↦ absurd (ground (arith, h, e))
  | inr (st, e) ↦
      run-step Mode.value fs c (raw ++ rest) (Outcome.go (Mode.number st (c ∷ [])) fs)
        (step_value_number fs c st e)
      ∙ run-number raw st (c ∷ []) rest fs (ground (arith, h, e)) k
]

first_step :
    (fs : List Frame) (c : ℕ) (s : Text)
    → is_space c ≡ false
    → (c == b']') ≡ false
    → run Mode.first_value fs (c ∷ s) ≡ run Mode.value fs (c ∷ s)
unfolding step
first_step fs c s p q =
    run-step Mode.first_value fs c s (step_value fs c) (rw p (rw q refl))
    ∙ sym (run-step Mode.value fs c s (step_value fs c) refl)

first_number_step :
    (raw : Text) (fs : List Frame) (s : Text)
    → is_number raw ≡ true
    → run Mode.first_value fs (raw ++ s) ≡ run Mode.value fs (raw ++ s)
first_number_step [] fs s h = absurd (ground arith)
first_number_step (c ∷ raw) fs s h = elim (Option-cases (first_number c)) [
  | inl e ↦ absurd (ground (arith, h, e))
  | inr (st, e) ↦ first_step fs c (raw ++ s) (ground (arith, e)) (ground (arith, e))
]

-- A value that the encoder wrote does not begin like the end of an array.
pub first_value :
    (v : Value) (d : ℕ) (fs : List Frame) (s : Text)
    → IsEncodable d v
    → run Mode.first_value fs (encode v ++ s) ≡ run Mode.value fs (encode v ++ s)
unfolding encode encode_string IsEncodable
first_value Value.null d fs s h = first_step fs b'n' _ refl refl
first_value (Value.boolean true) d fs s h = first_step fs b't' _ refl refl
first_value (Value.boolean false) d fs s h = first_step fs b'f' _ refl refl
first_value (Value.number raw) d fs s h = first_number_step raw fs s h
first_value (Value.text t) d fs s h = first_step fs b'"' _ refl refl
first_value (Value.array vs) d fs s h = first_step fs b'[' _ refl refl
first_value (Value.object ms) d fs s h = first_step fs b'{' _ refl refl

pub encode_values-Stops : (vs : Values) (s : Text) → Stops (encode_values vs ++ b']' ∷ s)
unfolding encode_values
encode_values-Stops Values.no_values s = ground arith
encode_values-Stops (Values.value_and v vs) s = ground arith

pub encode_members-Stops : (ms : Members) (s : Text) → Stops (encode_members ms ++ b'}' ∷ s)
unfolding encode_members
encode_members-Stops Members.no_members s = ground arith
encode_members-Stops (Members.member_and k v ms) s = ground arith

finish_text :
    (t : Text) (fs : List Frame) (s : Text)
    → TakesValue fs
    → continued (finish_string t fs) s ≡ continued (finish (Value.text t) fs) s
unfolding finish_string
finish_text t [] s h = refl
finish_text t (Frame.array read ∷ fs) s h = refl
finish_text t (Frame.member read k ∷ fs) s h = refl
finish_text t (Frame.object read ∷ fs) s h = absurd h

pub string_value :
    (t : Text) (fs : List Frame) (rest : Text)
    → IsEncodable (length fs) (Value.text t)
    → TakesValue fs
    → run Mode.value fs (encode_string t ++ rest) ≡ continued (finish (Value.text t) fs) rest
unfolding IsEncodable encode_string step step_value finish_string
string_value t fs rest h k =
    run-step Mode.value fs b'"' _ (Outcome.go (Mode.string StringState.plain []) fs) refl
    ∙ ap (run (Mode.string StringState.plain []) fs) (append_assoc (quote 0 t) (b'"' ∷ []) rest)
    ∙ run-string fs t rest h
    ∙ finish_text t fs rest k
