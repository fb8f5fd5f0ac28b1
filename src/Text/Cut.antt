-- ===== src/Text/Cut.antt =====
-- Cutting at a separator.
use factory_demo.Base.{
  Option, none, some, ◌==◌, if◌then◌else◌, ℕ, List, [], ◌∷◌, ◌++◌, ◌≡◌, ◌≢◌, refl, ap, ◌∙◌, arith,
  All, append_assoc, append-nil,
}
use factory_demo.Text.Bytes.{Text, split_from, split, join, before, behind}

abbrev pub Lacks : ℕ → Text → Type 0
Lacks sep = All (λ c. c ≢ sep)

pub split_from-append :
    (sep : ℕ) (part s rest : Text)
    → Lacks sep s
    → split_from sep part (s ++ rest) ≡ split_from sep (part ++ s) rest
unfolding split_from
split_from-append sep part [] rest h = rw append-nil
split_from-append sep part (c ∷ s) rest h =
    ground (arith, split_from-append sep (part ++ c ∷ []) s rest h.1, append_assoc part (c ∷ []) s)

split_from-nil : (sep : ℕ) (part : Text) → split_from sep part [] ≡ part ∷ []
unfolding split_from
split_from-nil sep part = refl

pub split_from_sep :
    (sep : ℕ) (part s : Text) → split_from sep part (sep ∷ s) ≡ part ∷ split_from sep [] s
unfolding split_from
split_from_sep sep part s = ground arith

-- A text without the separator is one part.
pub split_one : (sep : ℕ) (s : Text) → Lacks sep s → split sep s ≡ s ∷ []
unfolding split
split_one sep s h =
    ground (arith, append-nil s, split_from-append sep [] s [] h, split_from-nil sep s)

-- Two texts without the separator are the parts of the text that joins them.
pub split_two :
    (sep : ℕ) (s t : Text) → Lacks sep s → Lacks sep t → split sep (s ++ sep ∷ t) ≡ s ∷ t ∷ []
unfolding split
split_two sep s t h k =
    split_from-append sep [] s (sep ∷ t) h
    ∙ split_from_sep sep s t
    ∙ ap (λ ts. s ∷ ts) (unfold split in split_one sep t k)

split_from-ne-nil : (sep : ℕ) (part s : Text) → split_from sep part s ≢ []
unfolding split_from
split_from-ne-nil sep part [] = ground arith
split_from-ne-nil sep part (c ∷ s) = ground (arith, split_from-ne-nil sep (part ++ c ∷ []) s)

-- What one part says of the text.
pub split_from_one : (sep : ℕ) (part s w : Text) → split_from sep part s ≡ w ∷ [] → part ++ s ≡ w
unfolding split_from
split_from_one sep part [] w h = ground (arith, append-nil part)
split_from_one sep part (c ∷ s) w h = ground (
  arith,
  split_from-ne-nil sep [] s,
  split_from_one sep (part ++ c ∷ []) s w,
  append_assoc part (c ∷ []) s,
)

-- What two parts say of the text.
pub split_from_two :
    (sep : ℕ) (part s w f : Text) → split_from sep part s ≡ w ∷ f ∷ [] → part ++ s ≡ w ++ sep ∷ f
unfolding split_from
split_from_two sep part [] w f h = ground arith
split_from_two sep part (c ∷ s) w f h = ground (
  arith,
  split_from_one sep [] s f,
  split_from_two sep (part ++ c ∷ []) s w f,
  append_assoc part (c ∷ []) s,
)

pub before-append : (sep : ℕ) (s t : Text) → Lacks sep s → before sep (s ++ sep ∷ t) ≡ s
unfolding before
before-append sep [] t h = ground arith
before-append sep (c ∷ s) t h = ground (arith, before-append sep s t h.1)

pub behind-append : (sep : ℕ) (s t : Text) → Lacks sep s → behind sep (s ++ sep ∷ t) ≡ t
unfolding behind
behind-append sep [] t h = ground arith
behind-append sep (c ∷ s) t h = ground (arith, behind-append sep s t h.1)

pub before_whole : (sep : ℕ) (s : Text) → Lacks sep s → before sep s ≡ s
unfolding before
before_whole sep [] h = refl
before_whole sep (c ∷ s) h = ground (arith, before_whole sep s h.1)

pub behind_whole : (sep : ℕ) (s : Text) → Lacks sep s → behind sep s ≡ []
unfolding behind
behind_whole sep [] h = refl
behind_whole sep (c ∷ s) h = ground (arith, behind_whole sep s h.1)

pub split-join :
    (sep : ℕ) (s : Text) (ss : List Text)
    → All (Lacks sep) (s ∷ ss)
    → split sep (join sep (s ∷ ss)) ≡ s ∷ ss
unfolding split join
split-join sep s [] h = unfold join in split_one sep s h.0
split-join sep s (t ∷ ts) h =
    split_from-append sep [] s (sep ∷ join sep (t ∷ ts)) h.0
    ∙ split_from_sep sep s (join sep (t ∷ ts))
    ∙ ap (λ us. s ∷ us) (split-join sep t ts h.1)

-- A line in front of more lines.
pub split-line :
    (sep : ℕ) (line rest : Text)
    → Lacks sep line
    → split sep (line ++ sep ∷ rest) ≡ line ∷ split sep rest
unfolding split
split-line sep line rest h =
    split_from-append sep [] line (sep ∷ rest) h ∙ split_from_sep sep line rest

-- strings.CutPrefix.
unfoldable pub cut_prefix : Text → Text → Option Text
cut_prefix [] s = some s
cut_prefix (p ∷ ps) [] = none
cut_prefix (p ∷ ps) (c ∷ s) = let rest = cut_prefix ps s in if c == p then rest else none

pub cut_prefix-append : (p s : Text) → cut_prefix p (p ++ s) ≡ some s
unfolding cut_prefix
cut_prefix-append [] s = refl
cut_prefix-append (c ∷ p) s = ground (arith, cut_prefix-append p s)
