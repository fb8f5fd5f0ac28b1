-- ===== src/Json/Structs.antt =====
-- Decoding a value into a Go struct with DisallowUnknownFields, as encoding/json does it: a member that
-- is given twice is decoded into what the first one left. Each error ends the decoding with an error,
-- so which one it is, is left out.
use factory_demo.Base.{
  ℕ, zero, suc, ◌-◌, List, [], ◌∷◌, Bool, false, ◌&&◌, Option, none, some, ◌==◌, if◌then◌else◌,
}
use factory_demo.Base.Int.{ℤ}
use factory_demo.Text.{Text, is_lower, text_eq, parse_int}
use factory_demo.Json.{Value, Values, Members}
use factory_demo.Json.Scanner.{read}

infixl 5 ◌>>=◌
-- Where decoding fails, so does what goes on with its result.
abbrev pub ◌>>=◌ {ℓ κ} : {A : Type ℓ} {B : Type κ} → Option A → (A → Option B) → Option B
none >>= next = none
some a >>= next = next a

abbrev starts_with : ℕ → Text → Bool
starts_with b s = elim s [ [] ↦ false | c ∷ _ ↦ c == b ]

abbrev second_is : ℕ → Text → Bool
second_is b [] = false
second_is b (_ ∷ s) = starts_with b s

-- foldName, for comparison with an ASCII name: besides the ASCII letters, only U+017F and U+212A fold
-- to ASCII. The number counts bytes that are read already.
unfoldable pub fold : ℕ → Text → Text
fold n [] = []
fold (suc n) (c ∷ s) = fold n s
fold zero (c ∷ s) =
    if is_lower c
    then (c - 32) ∷ fold 0 s
    else if c == 0xc5 && starts_with 0xbf s
    then b'S' ∷ fold 1 s
    else if c == 0xe2 && (starts_with 0x84 s && second_is 0xaa s)
    then b'K' ∷ fold 2 s
    else c ∷ fold 0 s

-- The key names the field. An exact match is one of folded names, and no two fields of a struct of the
-- program fold to the same.
unfoldable pub is_field : Text → Text → Bool
unfolding fold text_eq
is_field key name = text_eq (fold 0 key) (fold 0 name)

-- A string, and an int64.
abbrev pub read_text : Value → Text → Option Text
read_text Value.null old = some old
read_text (Value.text t) old = some t
read_text _ old = none

unfoldable pub read_int : Value → ℤ → Option ℤ
unfolding parse_int
read_int Value.null old = some old
read_int (Value.number raw) old = parse_int raw
read_int _ old = none

module _ {A : Type 0} where
  abbrev pub or_fresh : A → Option A → A
  or_fresh fresh none = fresh
  or_fresh fresh (some a) = a

  -- A pointer: null is nil, and what a pointer points to is decoded into.
  abbrev pub read_pointer : A → (Value → A → Option A) → Value → Option A → Option (Option A)
  read_pointer fresh into Value.null old = some none
  read_pointer fresh into v old = do a ← into v (or_fresh fresh old); some (some a)

  abbrev pub read_elements : A → (Value → A → Option A) → Values → List A → Option (List A)
  read_elements fresh into Values.no_values olds = some []
  read_elements fresh into (Values.value_and v vs) [] = do
    a ← into v fresh
    more ← read_elements fresh into vs []
    some (a ∷ more)
  read_elements fresh into (Values.value_and v vs) (old ∷ olds) = do
    a ← into v old
    more ← read_elements fresh into vs olds
    some (a ∷ more)

  -- A slice: null is nil, and an element is decoded into the one that stood at its place.
  abbrev pub read_slice :
      A → (Value → A → Option A) → Value → Option (List A) → Option (Option (List A))
  read_slice fresh into Value.null old = some none
  read_slice fresh into (Value.array vs) none = (do
    elements ← read_elements fresh into vs []
    some (some elements))
  read_slice fresh into (Value.array vs) (some olds) = (do
    elements ← read_elements fresh into vs olds
    some (some elements))
  read_slice fresh into _ old = none

  -- The members in order, each by the function that sets a field.
  abbrev pub read_members : (Text → Value → A → Option A) → Members → A → Option A
  read_members set Members.no_members a = some a
  read_members set (Members.member_and k v ms) a = do b ← set k v a; read_members set ms b

  abbrev pub read_struct : (Text → Value → A → Option A) → Value → A → Option A
  read_struct set Value.null old = some old
  read_struct set (Value.object ms) old = read_members set ms old
  read_struct set _ old = none

  -- Decoder.Decode into a struct: the struct and the rest of the input.
  unfoldable pub decode : (Text → Value → A → Option A) → A → Text → Option (A × Text)
  unfolding read
  decode set empty raw = do (v, rest) ← read raw; a ← read_struct set v empty; some (a, rest)
