-- ===== src/Text/Paths.antt =====
-- What the logger uses of path/filepath on Unix: Clean, Dir and Base.
use factory_demo.Base.{
  List, [], ◌∷◌, ◌++◌, ◌≡◌, ◌≢◌, ◌⊎◌, inl, inr, refl, Bool, true, false, ◌||◌, Bool-cases, arith,
  All-append, if◌then◌else◌, ◌==◌,
}
use factory_demo.Text.Bytes.{Text, codes, is_empty, text_eq, split, join, trim_right, has_prefix}
use factory_demo.Text.Cut.{Lacks}

-- One element of a path behind the elements that are kept, the last one first.
unfoldable pub clean_step : Bool → List Text → Text → List Text
clean_step rooted [] element =
    if is_empty element || text_eq element (codes ".")
    then []
    else if rooted
    then (if text_eq element (codes "..") then [] else element ∷ [])
    else element ∷ []
clean_step rooted (last ∷ kept) element =
    if is_empty element || text_eq element (codes ".")
    then last ∷ kept
    else if text_eq element (codes "..")
    then (if text_eq last (codes "..") then element ∷ last ∷ kept else kept)
    else element ∷ last ∷ kept

unfoldable pub clean_elements : Bool → List Text → List Text → List Text
unfolding clean_step
clean_elements rooted kept [] = kept
clean_elements rooted kept (e ∷ es) = clean_elements rooted (clean_step rooted kept e) es

abbrev pub rendered : Bool → List Text → Text
rendered true elements = b'/' ∷ join b'/' elements
rendered false [] = codes "."
rendered false (e ∷ es) = join b'/' (e ∷ es)

abbrev pub backwards : List Text → List Text → List Text
backwards done [] = done
backwards done (t ∷ ts) = backwards (t ∷ done) ts

-- filepath.Clean.
unfoldable pub clean : Text → Text
unfolding clean_elements split has_prefix
clean path =
    let rooted = has_prefix path b'/' in
    rendered rooted (backwards [] (clean_elements rooted [] (split b'/' path)))

-- The text up to the last slash, with that slash.
unfoldable pub up_to_slash : Text → Text
up_to_slash [] = []
up_to_slash (c ∷ s) =
    let rest = up_to_slash s in
    if is_empty rest then (if c == b'/' then c ∷ [] else []) else c ∷ rest

-- The text behind the last slash.
unfoldable pub behind_slash : Text → Text → Text
behind_slash part [] = part
behind_slash part (c ∷ s) =
    let cut = behind_slash [] s in
    let on = behind_slash (part ++ c ∷ []) s in if c == b'/' then cut else on

-- filepath.Dir.
unfoldable pub directory_of : Text → Text
unfolding up_to_slash clean
directory_of path = clean (up_to_slash path)

abbrev base_or_slash : Text → Text
base_or_slash [] = codes "/"
base_or_slash (c ∷ s) = c ∷ s

-- filepath.Base.
unfoldable pub base_of : Text → Text
unfolding trim_right behind_slash
base_of [] = codes "."
base_of (c ∷ s) = base_or_slash (behind_slash [] (trim_right b'/' (c ∷ s)))

behind_slash-Lacks : (part s : Text) → Lacks b'/' part → Lacks b'/' (behind_slash part s)
unfolding behind_slash
behind_slash-Lacks part [] h = h
behind_slash-Lacks part (c ∷ s) h = elim (Bool-cases (c == b'/')) [
  | inl slash ↦ rw slash (behind_slash-Lacks [] s tt)
  | inr other ↦ rw other (
      behind_slash-Lacks (part ++ c ∷ []) s
        (All-append (λ d. d ≢ b'/') part (c ∷ []) h (ground (arith, other), tt)))
]

base_or_slash-Lacks :
    (t : Text) → Lacks b'/' t → Lacks b'/' (base_or_slash t) ⊎ (base_or_slash t ≡ codes "/")
base_or_slash-Lacks [] h = inr refl
base_or_slash-Lacks (c ∷ s) h = inl h

-- The last element of a path has no slash in it, unless the path is made of slashes.
pub base_of-Lacks : (path : Text) → Lacks b'/' (base_of path) ⊎ (base_of path ≡ codes "/")
unfolding base_of
base_of-Lacks [] = inl (ground arith, tt)
base_of-Lacks (c ∷ s) =
    let t = behind_slash [] (trim_right b'/' (c ∷ s)) in
    base_or_slash-Lacks t (behind_slash-Lacks [] (trim_right b'/' (c ∷ s)) tt)
