-- ===== src/Routing.antt =====
-- The choice of a handler by net/http's ServeMux, for patterns of the method GET whose elements are
-- literals or wildcards of one segment, as NewHandler of internal/httpapi/handler.go and newHandler of
-- the mock services register them. A path is that of the URL as it was sent, with its escapes.
pub mod Paths
pub mod Escapes
pub mod Matches
pub mod Reads
use factory_demo.Base.{
  ℕ, ◌+◌, ◌*◌, List, [], ◌∷◌, ◌++◌, Bool, true, false, not, ◌&&◌, ◌||◌, Option, none, some, ◌==◌,
  if◌then◌else◌,
}
use factory_demo.Text.{Text, codes, is_empty, text_eq, split, has_prefix, has_suffix}
use factory_demo.Text.Paths.{clean}
use factory_demo.Mocks.Query.{Pending, unhex}

abbrev pub put : ℕ → Option Text → Option Text
put c none = none
put c (some s) = some (c ∷ s)

-- url.PathUnescape.
unfoldable pub decode_from : Pending → Text → Option Text
decode_from Pending.nothing [] = some []
decode_from Pending.sign [] = none
decode_from (Pending.high h) [] = none
decode_from Pending.nothing (c ∷ s) = elim (c == b'%') [
  | true ↦ decode_from Pending.sign s
  | false ↦ put c (decode_from Pending.nothing s)
]
decode_from Pending.sign (c ∷ s) = elim (unhex c) [
  | none ↦ none
  | some h ↦ decode_from (Pending.high h) s
]
decode_from (Pending.high h) (c ∷ s) = elim (unhex c) [
  | none ↦ none
  | some l ↦ put (h * 16 + l) (decode_from Pending.nothing s)
]

-- A segment as it is matched: one that is not well escaped stands for itself.
unfoldable pub unescaped : Text → Text
unfolding decode_from
unescaped s = elim (decode_from Pending.nothing s) [ none ↦ s | some t ↦ t ]

-- cleanPath: an absolute path, with the slash at its end that path.Clean takes away.
unfoldable pub clean_path : Text → Text
unfolding clean has_suffix has_prefix text_eq
clean_path path =
    let cleaned = clean (if has_prefix path b'/' then path else b'/' ∷ path) in
    if has_suffix path b'/' && not (text_eq cleaned (codes "/"))
    then cleaned ++ codes "/"
    else cleaned

pub data Part : Type 0 where
  literal : Text → Part
  wildcard : Part

abbrev pub add_value : Text → Option (List Text) → Option (List Text)
add_value t none = none
add_value t (some ts) = some (t ∷ ts)

-- The values of the wildcards, if the segments match. A wildcard does not match the empty segment behind a
-- slash at the path's end (a path that is cleaned has no other one), nor the segment that stands for "/".
unfoldable pub matched : List Part → List Text → Option (List Text)
unfolding unescaped text_eq
matched [] [] = some []
matched [] (_ ∷ _) = none
matched (_ ∷ _) [] = none
matched (Part.literal l ∷ parts) (s ∷ ss) =
    let rest = matched parts ss in if text_eq (unescaped s) l then rest else none
matched (Part.wildcard ∷ parts) (s ∷ ss) =
    let rest = matched parts ss in
    if is_empty s || text_eq (unescaped s) (codes "/") then none else add_value (unescaped s) rest

abbrev behind_first : List Text → List Text
behind_first [] = []
behind_first (_ ∷ ss) = ss

-- The segments behind the first slash.
unfoldable pub segments : Text → List Text
unfolding split
segments path = behind_first (split b'/' path)

-- Patterns of GET match HEAD as well.
unfoldable pub is_get : Text → Bool
unfolding text_eq
is_get method = text_eq method (codes "GET") || text_eq method (codes "HEAD")

module _ (E : Type 0) where
  -- A pattern, and the endpoint behind it with the values of its wildcards.
  pub record Entry : Type 0 where
    pub parts : List Part
    pub endpoint : List Text → E

  -- A handler, or the answer of the ServeMux itself: a redirect to another path, and the statuses 405
  -- and 404.
  pub data Choice : Type 0 where
    handler : E → Choice
    redirect : Text → Choice
    method_not_allowed not_found : Choice

module _ {E : Type 0} where
  abbrev pub first_of : (List Text → E) → Option (List Text) → Option E → Option E
  first_of endpoint (some values) rest = some (endpoint values)
  first_of endpoint none rest = rest

  unfoldable pub lookup : List (Entry E) → List Text → Option E
  unfolding matched
  lookup [] ss = none
  lookup (entry ∷ entries) ss = first_of entry.endpoint (matched entry.parts ss) (lookup entries ss)

  abbrev pub chosen : Bool → Option E → Choice E
  chosen get (some e) = if get then Choice.handler e else Choice.method_not_allowed
  chosen get none = Choice.not_found

  -- ServeMux.findHandler. The path of a CONNECT request is not cleaned.
  unfoldable pub choose : List (Entry E) → Text → Text → Choice E
  unfolding lookup clean_path is_get segments
  choose entries method path =
      let choice = chosen (is_get method) (lookup entries (segments path)) in
      if text_eq method (codes "CONNECT") || text_eq (clean_path path) path
      then choice
      else Choice.redirect (clean_path path)
