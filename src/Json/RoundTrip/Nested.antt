-- ===== src/Json/RoundTrip/Nested.antt =====
-- Whole values, arrays and objects, as the encoder writes them.
use factory_demo.Base.{
  suc, List, [], ◌∷◌, ◌++◌, ◌≡◌, ◌⊎◌, refl, sym, ap, ◌∙◌, some, inl, inr, append_assoc, length,
}
use factory_demo.Text.{Text}
use factory_demo.Json.{Value, Values, Members}
use factory_demo.Json.Encoder.{
  encode, encode_string, encode_first, encode_values, encode_first_member, encode_members,
}
use factory_demo.Json.Scanner.{
  Mode, StringState, Frame, Outcome, run, step, step_key, step_behind, close_array, close_object,
  finish, values_of, members_of, read,
}
use factory_demo.Json.Quoting.{continued, run-step, IsAscii}
use factory_demo.Json.RoundTrip.{
  IsEncodable, run_null, run_boolean, open_array, open_object, end_array, end_object, run_key,
  run_last,
}
use factory_demo.Json.RoundTrip.Scalars.{
  StopsBehind, Stops-StopsBehind, ReadsValue, ReadsValues, ReadsMembers, number_value, first_value,
  encode_values-Stops, encode_members-Stops, string_value,
}

value_in_array :
    (v : Value) (vs : Values) (fs : List Frame) (read : List Value) (rest : Text)
    → ReadsValue v
    → IsEncodable (suc (length fs)) v
    → run Mode.behind (Frame.array (v ∷ read) ∷ fs) (encode_values vs ++ b']' ∷ rest)
      ≡ continued (finish (Value.array (values_of read (Values.value_and v vs))) fs) rest
    → run Mode.value (Frame.array read ∷ fs) ((encode v ++ encode_values vs) ++ b']' ∷ rest)
      ≡ continued (finish (Value.array (values_of read (Values.value_and v vs))) fs) rest
unfolding finish
value_in_array v vs fs read rest ih h tail =
    ap (run Mode.value (Frame.array read ∷ fs))
      (append_assoc (encode v) (encode_values vs) (b']' ∷ rest))
    ∙ ih (Frame.array read ∷ fs) (encode_values vs ++ b']' ∷ rest) h tt
        (Stops-StopsBehind v (encode_values vs ++ b']' ∷ rest) (encode_values-Stops vs rest))
    ∙ tail

value_in_object :
    (k : Text) (v : Value) (ms : Members) (fs : List Frame) (read : List (Text × Value))
    (rest : Text)
    → ReadsValue v
    → IsEncodable (suc (length fs)) v
    → run Mode.behind (Frame.object ((k, v) ∷ read) ∷ fs) (encode_members ms ++ b'}' ∷ rest)
      ≡ continued (finish (Value.object (members_of read (Members.member_and k v ms))) fs) rest
    → run Mode.value (Frame.member read k ∷ fs) ((encode v ++ encode_members ms) ++ b'}' ∷ rest)
      ≡ continued (finish (Value.object (members_of read (Members.member_and k v ms))) fs) rest
unfolding finish
value_in_object k v ms fs read rest ih h tail =
    ap (run Mode.value (Frame.member read k ∷ fs))
      (append_assoc (encode v) (encode_members ms) (b'}' ∷ rest))
    ∙ ih (Frame.member read k ∷ fs) (encode_members ms ++ b'}' ∷ rest) h tt
        (Stops-StopsBehind v (encode_members ms ++ b'}' ∷ rest) (encode_members-Stops ms rest))
    ∙ tail

-- A member, behind the comma or at the start of an object.
member_in_object :
    (m : Mode) (k : Text) (v : Value) (ms : Members) (fs : List Frame) (read : List (Text × Value))
    (rest : Text)
    → ReadsValue v
    → IsAscii k
    → IsEncodable (suc (length fs)) v
    → step m (Frame.object read ∷ fs) b'"'
      ≡ Outcome.go (Mode.string StringState.plain []) (Frame.object read ∷ fs)
    → run Mode.behind (Frame.object ((k, v) ∷ read) ∷ fs) (encode_members ms ++ b'}' ∷ rest)
      ≡ continued (finish (Value.object (members_of read (Members.member_and k v ms))) fs) rest
    → run m
        (Frame.object read ∷ fs)
        ((encode_string k ++ b':' ∷ (encode v ++ encode_members ms)) ++ b'}' ∷ rest)
      ≡ continued (finish (Value.object (members_of read (Members.member_and k v ms))) fs) rest
member_in_object m k v ms fs read rest ih a h e tail =
    ap (run m (Frame.object read ∷ fs))
      (append_assoc (encode_string k) (b':' ∷ (encode v ++ encode_members ms)) (b'}' ∷ rest))
    ∙ run_key read fs m k ((encode v ++ encode_members ms) ++ b'}' ∷ rest) a e
    ∙ value_in_object k v ms fs read rest ih h tail

comma_in_array :
    (read : List Value) (fs : List Frame) (s : Text)
    → run Mode.behind (Frame.array read ∷ fs) (b',' ∷ s) ≡ run Mode.value (Frame.array read ∷ fs) s
unfolding step step_behind
comma_in_array read fs s =
    run-step Mode.behind (Frame.array read ∷ fs) b',' s
      (Outcome.go Mode.value (Frame.array read ∷ fs)) refl

comma_in_object :
    (read : List (Text × Value)) (fs : List Frame) (s : Text)
    → run Mode.behind (Frame.object read ∷ fs) (b',' ∷ s) ≡ run Mode.key (Frame.object read ∷ fs) s
unfolding step step_behind
comma_in_object read fs s =
    run-step Mode.behind (Frame.object read ∷ fs) b',' s
      (Outcome.go Mode.key (Frame.object read ∷ fs)) refl

empty_array :
    (read : List Value) (fs : List Frame) (s : Text)
    → run Mode.first_value (Frame.array read ∷ fs) (b']' ∷ s)
      ≡ continued (finish (Value.array (values_of read Values.no_values)) fs) s
unfolding step close_array
empty_array read fs s =
    run_last Mode.first_value (Frame.array read ∷ fs) b']' s
      (Value.array (values_of read Values.no_values)) fs refl

empty_object :
    (read : List (Text × Value)) (fs : List Frame) (s : Text)
    → run Mode.first_key (Frame.object read ∷ fs) (b'}' ∷ s)
      ≡ continued (finish (Value.object (members_of read Members.no_members)) fs) s
unfolding step close_object
empty_object read fs s =
    run_last Mode.first_key (Frame.object read ∷ fs) b'}' s
      (Value.object (members_of read Members.no_members)) fs refl

key_step :
    (m : Mode) (fs : List Frame)
    → (m ≡ Mode.key) ⊎ (m ≡ Mode.first_key)
    → step m fs b'"' ≡ Outcome.go (Mode.string StringState.plain []) fs
unfolding step step_key
key_step m fs (inl e) = rw e refl
key_step m fs (inr e) = rw e refl

reads : (v : Value) → ReadsValue v
unfolding encode encode_first encode_values encode_first_member encode_members IsEncodable
reads v = elim v as ReadsValue ReadsValues ReadsMembers [
  | Value.null ↦ λ fs rest h t k. run_null fs rest
  | Value.boolean b ↦ λ fs rest h t k. run_boolean b fs rest
  | Value.number raw ↦ λ fs rest h t k. number_value raw fs rest h k
  | Value.text t ↦ λ fs rest h k l. string_value t fs rest h k
  | Value.array (vs → ih) ↦ λ fs rest h t k.
      open_array fs _ h.0
      ∙ ap (run Mode.first_value (Frame.array [] ∷ fs))
          (append_assoc (encode_first vs) (b']' ∷ []) rest)
      ∙ (ih fs [] rest h.1).1
  | Value.object (ms → ih) ↦ λ fs rest h t k.
      open_object fs _ h.0
      ∙ ap (run Mode.first_key (Frame.object [] ∷ fs))
          (append_assoc (encode_first_member ms) (b'}' ∷ []) rest)
      ∙ (ih fs [] rest h.1).1
  | Values.no_values ↦ λ fs read rest h. (end_array read fs rest, empty_array read fs rest)
  | Values.value_and (v → ih) (vs → ihs) ↦ λ fs read rest h.
      let on = value_in_array v vs fs read rest ih h.0 (ihs fs (v ∷ read) rest h.1).0 in
      (
        comma_in_array read fs ((encode v ++ encode_values vs) ++ b']' ∷ rest) ∙ on,
        ap (run Mode.first_value (Frame.array read ∷ fs))
              (append_assoc (encode v) (encode_values vs) (b']' ∷ rest))
            ∙ first_value v (suc (length fs)) (Frame.array read ∷ fs)
                (encode_values vs ++ b']' ∷ rest) h.0
            ∙ sym (
                ap (run Mode.value (Frame.array read ∷ fs))
                  (append_assoc (encode v) (encode_values vs) (b']' ∷ rest)))
            ∙ on,
      )
  | Members.no_members ↦ λ fs read rest h. (end_object read fs rest, empty_object read fs rest)
  | Members.member_and k (v → ih) (ms → ihs) ↦ λ fs read rest h.
      let tail = (ihs fs ((k, v) ∷ read) rest h.2).0 in
      let member = λ (m : Mode) (e : (m ≡ Mode.key) ⊎ (m ≡ Mode.first_key)).
        member_in_object m k v ms fs read rest ih h.0 h.1 (key_step m (Frame.object read ∷ fs) e)
          tail in
      (
        comma_in_object read fs
              ((encode_string k ++ b':' ∷ (encode v ++ encode_members ms)) ++ b'}' ∷ rest)
            ∙ member Mode.key (inl refl),
        member Mode.first_key (inr refl),
      )
]

-- The encoder's text of a value whose numbers are numbers, whose texts are ASCII and that is not nested
-- too deep is read as that value, whatever follows it, unless it is a number and what follows goes on
-- with that.
pub read-encode :
    (v : Value) (rest : Text)
    → IsEncodable 0 v
    → StopsBehind v rest
    → read (encode v ++ rest) ≡ some (v, rest)
unfolding read finish
read-encode v rest h k = reads v [] rest h tt k
