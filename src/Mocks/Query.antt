-- ===== src/Mocks/Query.antt =====
-- url.ParseQuery and Values.Get of the standard library, as the market mock uses them, and
-- url.QueryEscape.
use factory_demo.Base.{
  ℕ, ◌+◌, ◌-◌, ◌*◌, ◌/◌, ◌%◌, ◌<◌, List, [], ◌∷◌, ◌++◌, ◌≡◌, ◌≢◌, refl, ap, ◌∙◌, Bool, true, false,
  ◌&&◌, ◌||◌, Option, none, some, leb, ◌==◌, All, All-append, arith, if◌then◌else◌, Bool-cases, inl,
  inr,
}
use factory_demo.Text.{Text, is_digit, text_eq, before, behind, split, codes}
use factory_demo.Text.Cut.{Lacks, split_one, before-append, behind-append}
use factory_demo.Upstream.Http.{query_escape, hex_digit, percent, is_unreserved}

abbrev pub unhex : ℕ → Option ℕ
unhex c =
    if is_digit c
    then some (c - b'0')
    else if leb b'a' c && leb c b'f'
    then some (c - b'a' + 10)
    else if leb b'A' c && leb c b'F'
    then some (c - b'A' + 10)
    else none

-- What the unescaping has read of an escape: nothing, the percent sign, or the first digit too.
pub data Pending : Type 0 where
  nothing sign : Pending
  high : ℕ → Pending

abbrev put : ℕ → Option Text → Option Text
put c none = none
put c (some s) = some (c ∷ s)

-- url.QueryUnescape.
unfoldable pub unescape_from : Pending → Text → Option Text
unescape_from Pending.nothing [] = some []
unescape_from Pending.sign [] = none
unescape_from (Pending.high h) [] = none
unescape_from Pending.nothing (c ∷ s) = elim (c == b'%') [
  | true ↦ unescape_from Pending.sign s
  | false ↦ put (if c == b'+' then b' ' else c) (unescape_from Pending.nothing s)
]
unescape_from Pending.sign (c ∷ s) = elim (unhex c) [
  | none ↦ none
  | some h ↦ unescape_from (Pending.high h) s
]
unescape_from (Pending.high h) (c ∷ s) = elim (unhex c) [
  | none ↦ none
  | some l ↦ put (h * 16 + l) (unescape_from Pending.nothing s)
]

abbrev pub query_unescape : Text → Option Text
query_unescape s = unescape_from Pending.nothing s

abbrev pub has_byte : ℕ → Text → Bool
has_byte b [] = false
has_byte b (c ∷ s) = c == b || has_byte b s

-- The value of one pair, if its key is the name. Pairs that are not well formed are skipped.
abbrev pub pair_value : Text → Text → Option Text
pair_value name pair =
    if has_byte b';' pair then none else elim (query_unescape (before b'=' pair)) [
      | none ↦ none
      | some key ↦ if text_eq key name then query_unescape (behind b'=' pair) else none
    ]

abbrev pub first_value : Text → List Text → Text
first_value name [] = []
first_value name (pair ∷ pairs) = elim (pair_value name pair) [
  | some v ↦ v
  | none ↦ first_value name pairs
]

-- request.URL.Query().Get(name) on the raw query.
unfoldable pub query_get : Text → Text → Text
query_get name query = first_value name (split b'&' query)

pub unhex-hex_digit : (d : ℕ) → d < 16 → unhex (hex_digit d) ≡ some d
unhex-hex_digit d h = ground arith

-- A text of bytes.
abbrev pub Bytes : Text → Type 0
Bytes = All (λ c. c < 256)

pub unescape_percent :
    (c : ℕ) (s : Text) → c < 256 → query_unescape (percent c ++ s) ≡ put c (query_unescape s)
unfolding unescape_from
unescape_percent c s h = ground (arith, unhex-hex_digit (c / 16), unhex-hex_digit (c % 16))

unescape_space :
    (c : ℕ) (s : Text) → (c == b' ') ≡ true → query_unescape (b'+' ∷ s) ≡ put c (query_unescape s)
unfolding unescape_from
unescape_space c s h = ground arith

unreserved_plain : (c : ℕ) → is_unreserved c ≡ true → ((c == b'%') ≡ false) × ((c == b'+') ≡ false)
unreserved_plain c h = ground arith

unescape_plain :
    (c : ℕ) (s : Text) → is_unreserved c ≡ true → query_unescape (c ∷ s) ≡ put c (query_unescape s)
unfolding unescape_from
unescape_plain c s h = ground (arith, unreserved_plain c h)

-- What QueryEscape writes for one byte.
abbrev escaped : ℕ → Text
escaped c = if is_unreserved c then c ∷ [] else if c == b' ' then b'+' ∷ [] else percent c

unescape_escaped :
    (c : ℕ) (s : Text) → c < 256 → query_unescape (escaped c ++ s) ≡ put c (query_unescape s)
unescape_escaped c s h = elim (Bool-cases (is_unreserved c)) [
  | inl plain ↦ rw plain (unescape_plain c s plain)
  | inr other ↦ elim (Bool-cases (c == b' ')) [
    | inl space ↦ rw other (rw space (unescape_space c s space))
    | inr no_space ↦ rw other (rw no_space (unescape_percent c s h))
  ]
]

-- Unescaping reads back every text that QueryEscape wrote.
pub query_unescape-query_escape : (s : Text) → Bytes s → query_unescape (query_escape s) ≡ some s
unfolding query_escape
query_unescape-query_escape [] h = unfold unescape_from in refl
query_unescape-query_escape (c ∷ s) h =
    unescape_escaped c (query_escape s) h.0 ∙ ap (put c) (query_unescape-query_escape s h.1)

-- The bytes that a query escapes or keeps for its own structure.
abbrev IsSafe : ℕ → Type 0
IsSafe c = (c ≢ b'&') × (c ≢ b'=') × (c ≢ b';')

hex_digit-IsSafe : (d : ℕ) → d < 16 → IsSafe (hex_digit d)
hex_digit-IsSafe d h = ground arith

escaped-IsSafe : (c : ℕ) → c < 256 → All IsSafe (escaped c)
escaped-IsSafe c h = ground (arith, hex_digit-IsSafe (c / 16), hex_digit-IsSafe (c % 16))

query_escape-IsSafe : (s : Text) → Bytes s → All IsSafe (query_escape s)
unfolding query_escape
query_escape-IsSafe [] h = tt
query_escape-IsSafe (c ∷ s) h =
    All-append IsSafe (escaped c) (query_escape s) (escaped-IsSafe c h.0)
      (query_escape-IsSafe s h.1)

IsSafe-Lacks : (s : Text) → All IsSafe s → Lacks b'&' s × (has_byte b';' s ≡ false)
IsSafe-Lacks [] h = (tt, refl)
IsSafe-Lacks (c ∷ s) h =
    let (lacks, none_there) = IsSafe-Lacks s h.1 in ((h.0.0, lacks), ground arith)

abbrev pub name : Text
name = codes "symbols"

name-Lacks : Lacks b'=' name
name-Lacks = ground arith

-- The pair whose parts are the name and a written text.
named :
    (s : Text)
    → query_unescape (query_escape s) ≡ some s
    → elim (query_unescape name) [
      | none ↦ none
      | some key ↦ if text_eq key name then query_unescape (query_escape s) else none
    ]
      ≡ some s
unfolding unescape_from text_eq
named s h = h

pair_value_written : (s : Text) → Bytes s → pair_value name (name ++ b'=' ∷ query_escape s) ≡ some s
unfolding unescape_from
pair_value_written s h =
    let safe = IsSafe-Lacks (query_escape s) (query_escape-IsSafe s h) in
    let key : before b'=' (name ++ b'=' ∷ query_escape s) ≡ name =
      before-append b'=' name (query_escape s) name-Lacks in
    let written : behind b'=' (name ++ b'=' ∷ query_escape s) ≡ query_escape s =
      behind-append b'=' name (query_escape s) name-Lacks in
    let no_semicolon : has_byte b';' (name ++ b'=' ∷ query_escape s) ≡ false = safe.1 in
    rw no_semicolon (rw key (rw written (named s (query_unescape-query_escape s h))))

first_value_found : (k pair v : Text) → pair_value k pair ≡ some v → first_value k (pair ∷ []) ≡ v
first_value_found k pair v h = ground arith

-- The server reads in the query of the market client the very text that the client put there.
pub query_get-query_escape :
    (s : Text) → Bytes s → query_get name (name ++ b'=' ∷ query_escape s) ≡ s
unfolding query_get
query_get-query_escape s h =
    let safe = IsSafe-Lacks (query_escape s) (query_escape-IsSafe s h) in
    let lacks : Lacks b'&' (name ++ b'=' ∷ query_escape s) =
      All-append (λ c. c ≢ b'&') name (b'=' ∷ query_escape s) (ground arith)
        (ground arith, safe.0) in
    rw (split_one b'&' (name ++ b'=' ∷ query_escape s) lacks)
      (first_value_found name (name ++ b'=' ∷ query_escape s) s (pair_value_written s h))
