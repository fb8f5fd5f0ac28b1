-- ===== src/Json/RoundTrip.antt =====
-- What the encoder writes, read by the scanner: its punctuation and words.
pub mod Scalars
pub mod Nested
use factory_demo.Base.{
  ℕ, suc, ◌<◌, List, [], ◌∷◌, ◌++◌, ◌≡◌, ◌≢◌, refl, sym, ap, ◌∙◌, Bool, true, false, Option, none,
  some, inl, inr, Option-cases, arith, append_assoc, append-nil, ◌==◌, ltb, lt→ltb, if◌then◌else◌,
  length,
}
use factory_demo.Text.{Text, codes, is_digit}
use factory_demo.Json.{Value, Values, Members, is_space}
use factory_demo.Json.Strings.{quote}
use factory_demo.Json.Encoder.{
  encode, encode_string, encode_first, encode_values, encode_first_member, encode_members,
}
use factory_demo.Json.Scanner.{
  Mode, StringState, NumberState, Frame, Outcome, run, step, step_value, step_key, step_behind,
  step_word, open_frame, close_array, close_object, finish, finish_string, max_depth, values_of,
  members_of, read,
}
use factory_demo.Json.Quoting.Unquoting.{run-string}
use factory_demo.Json.Quoting.{continued, stepped, run-step, IsAscii}
use factory_demo.Json.Numbers.{first_number, is_number, completes, Stops, run-number}

-- The value can stand in a document inside of d open arrays and objects: its numbers are numbers, its
-- texts ASCII, and it is not nested too deep.
unfoldable mutual
  pub IsEncodable : ℕ → Value → Type 0
  IsEncodable d Value.null = Unit
  IsEncodable d (Value.boolean b) = Unit
  IsEncodable d (Value.number raw) = is_number raw ≡ true
  IsEncodable d (Value.text t) = IsAscii t
  IsEncodable d (Value.array vs) = (d < max_depth) × AreEncodable (suc d) vs
  IsEncodable d (Value.object ms) = (d < max_depth) × HasEncodable (suc d) ms

  pub AreEncodable : ℕ → Values → Type 0
  AreEncodable d Values.no_values = Unit
  AreEncodable d (Values.value_and v vs) = IsEncodable d v × AreEncodable d vs

  pub HasEncodable : ℕ → Members → Type 0
  HasEncodable d Members.no_members = Unit
  HasEncodable d (Members.member_and k v ms) = IsAscii k × IsEncodable d v × HasEncodable d ms

pub finish-stepped :
    (v : Value) (fs : List Frame) (c : ℕ) (s : Text)
    → stepped c (finish v fs) s ≡ continued (finish v fs) s
unfolding finish
finish-stepped v [] c s = refl
finish-stepped v (Frame.array read ∷ fs) c s = refl
finish-stepped v (Frame.object read ∷ fs) c s = refl
finish-stepped v (Frame.member read k ∷ fs) c s = refl

-- A step that completes a value.
pub run_last :
    (m : Mode) (fs : List Frame) (c : ℕ) (s : Text) (v : Value) (gs : List Frame)
    → step m fs c ≡ finish v gs
    → run m fs (c ∷ s) ≡ continued (finish v gs) s
run_last m fs c s v gs h = run-step m fs c s (finish v gs) h ∙ finish-stepped v gs c s

pub run_null :
    (fs : List Frame) (s : Text)
    → run Mode.value fs (codes "null" ++ s) ≡ continued (finish Value.null fs) s
unfolding run step step_value step_word
run_null fs s = run_last (Mode.word (codes "l") Value.null) fs b'l' s Value.null fs refl

pub run_boolean :
    (b : Bool) (fs : List Frame) (s : Text)
    → run Mode.value fs (encode (Value.boolean b) ++ s) ≡ continued (finish (Value.boolean b) fs) s
unfolding run step step_value step_word encode
run_boolean true fs s =
    run_last (Mode.word (codes "e") (Value.boolean true)) fs b'e' s (Value.boolean true) fs refl
run_boolean false fs s =
    run_last (Mode.word (codes "e") (Value.boolean false)) fs b'e' s (Value.boolean false) fs refl

pub open_array :
    (fs : List Frame) (s : Text)
    → length fs < max_depth
    → run Mode.value fs (b'[' ∷ s) ≡ run Mode.first_value (Frame.array [] ∷ fs) s
unfolding step step_value open_frame
open_array fs s h =
    run-step Mode.value fs b'[' s (Outcome.go Mode.first_value (Frame.array [] ∷ fs))
      (rw (lt→ltb (length fs) max_depth h) refl)

pub open_object :
    (fs : List Frame) (s : Text)
    → length fs < max_depth
    → run Mode.value fs (b'{' ∷ s) ≡ run Mode.first_key (Frame.object [] ∷ fs) s
unfolding step step_value open_frame
open_object fs s h =
    run-step Mode.value fs b'{' s (Outcome.go Mode.first_key (Frame.object [] ∷ fs))
      (rw (lt→ltb (length fs) max_depth h) refl)

pub end_array :
    (read : List Value) (fs : List Frame) (s : Text)
    → run Mode.behind (Frame.array read ∷ fs) (b']' ∷ s)
      ≡ continued (finish (Value.array (values_of read Values.no_values)) fs) s
unfolding step step_behind close_array
end_array read fs s = run_last Mode.behind (Frame.array read ∷ fs) b']' s _ fs refl

pub end_object :
    (read : List (Text × Value)) (fs : List Frame) (s : Text)
    → run Mode.behind (Frame.object read ∷ fs) (b'}' ∷ s)
      ≡ continued (finish (Value.object (members_of read Members.no_members)) fs) s
unfolding step step_behind close_object
end_object read fs s = run_last Mode.behind (Frame.object read ∷ fs) b'}' s _ fs refl

-- A key with its colon.
pub run_key :
    (read : List (Text × Value)) (fs : List Frame) (m : Mode) (k s : Text)
    → IsAscii k
    → step m (Frame.object read ∷ fs) b'"'
      ≡ Outcome.go (Mode.string StringState.plain []) (Frame.object read ∷ fs)
    → run m (Frame.object read ∷ fs) (encode_string k ++ b':' ∷ s)
      ≡ run Mode.value (Frame.member read k ∷ fs) s
unfolding encode_string step finish_string
run_key read fs m k s h e =
    run-step m (Frame.object read ∷ fs) b'"' _ _ e
    ∙ ap (run (Mode.string StringState.plain []) (Frame.object read ∷ fs))
        (append_assoc (quote 0 k) (b'"' ∷ []) (b':' ∷ s))
    ∙ run-string (Frame.object read ∷ fs) k (b':' ∷ s) h
    ∙ run-step Mode.colon (Frame.member read k ∷ fs) b':' s _ refl
