-- ===== src/Routing/Paths.antt =====
-- Absolute paths made of segments, as cleanPath and the choice of a handler see them.
use factory_demo.Base.{
  ℕ, List, [], ◌∷◌, ◌≡◌, ◌≢◌, some, Option-cases, inl, inr, refl, ap, ◌∙◌, true, false, arith, All,
}
use factory_demo.Text.{Text, codes, is_empty, text_eq, split, join, has_suffix, has_prefix}
use factory_demo.Text.Order.{text_eq_iff}
use factory_demo.Text.Cut.{Lacks, split-join}
use factory_demo.Text.Ends.{has_suffix-append}
use factory_demo.Text.Paths.{clean_step, clean_elements, backwards, clean}
use factory_demo.Routing.{Entry, Choice, is_get, lookup, choose, clean_path, segments}

-- A segment that cleaning leaves alone.
pub record IsPlainSegment (s : Text) : Type 0 where
  pub filled : is_empty s ≡ false
  pub no_dot : text_eq s (codes ".") ≡ false
  pub no_dots : text_eq s (codes "..") ≡ false
  pub no_slash : Lacks b'/' s

-- The path of some segments.
abbrev pub path_of : List Text → Text
path_of ss = b'/' ∷ join b'/' ss

no_slashes : (ss : List Text) → All IsPlainSegment ss → All (Lacks b'/') ss
no_slashes [] h = tt
no_slashes (s ∷ ss) h = (h.0.no_slash, no_slashes ss h.1)

clean_step_plain :
    (kept : List Text) (s : Text) → IsPlainSegment s → clean_step true kept s ≡ s ∷ kept
unfolding clean_step
clean_step_plain [] s h = rw h.filled (rw h.no_dot (rw h.no_dots refl))
clean_step_plain (last ∷ kept) s h = rw h.filled (rw h.no_dot (rw h.no_dots refl))

backwards-clean_elements :
    (kept ss : List Text)
    → All IsPlainSegment ss
    → backwards [] (clean_elements true kept ss) ≡ backwards ss kept
unfolding clean_elements
backwards-clean_elements kept [] h = refl
backwards-clean_elements kept (s ∷ ss) h =
    ap (λ ts. backwards [] (clean_elements true ts ss)) (clean_step_plain kept s h.0)
    ∙ backwards-clean_elements (s ∷ kept) ss h.1

pub segments-path_of :
    (s : Text) (ss : List Text) → All IsPlainSegment (s ∷ ss) → segments (path_of (s ∷ ss)) ≡ s ∷ ss
unfolding segments split
segments-path_of s ss h = split-join b'/' s ss (no_slashes (s ∷ ss) h)

pub clean-path_of :
    (s : Text) (ss : List Text)
    → All IsPlainSegment (s ∷ ss)
    → clean (path_of (s ∷ ss)) ≡ path_of (s ∷ ss)
unfolding clean has_prefix split
clean-path_of s ss h =
    ap (λ ts. b'/' ∷ join b'/' (backwards [] (clean_elements true [] ts)))
      (split-join b'/' s ss (no_slashes (s ∷ ss) h))
    ∙ ap (λ ts. b'/' ∷ join b'/' ts) (backwards-clean_elements [] (s ∷ ss) h)

has_suffix-Lacks : (b c : ℕ) (s : Text) → Lacks b (c ∷ s) → has_suffix (c ∷ s) b ≡ false
unfolding has_suffix
has_suffix-Lacks b c [] h = ground (arith, h.0)
has_suffix-Lacks b c (d ∷ s) h = has_suffix-Lacks b d s h.1

join_filled :
    (s : Text) (ss : List Text) → is_empty s ≡ false → is_empty (join b'/' (s ∷ ss)) ≡ false
unfolding join
join_filled [] ss h = absurd (ground (arith, h))
join_filled (c ∷ s) [] h = refl
join_filled (c ∷ s) (t ∷ ts) h = refl

has_suffix_behind :
    (c : ℕ) (s : Text) (b : ℕ) → is_empty s ≡ false → has_suffix (c ∷ s) b ≡ has_suffix s b
unfolding has_suffix
has_suffix_behind c [] b h = absurd (ground (arith, h))
has_suffix_behind c (d ∷ s) b h = refl

has_suffix-join :
    (s : Text) (ss : List Text)
    → All IsPlainSegment (s ∷ ss)
    → has_suffix (join b'/' (s ∷ ss)) b'/' ≡ false
unfolding join
has_suffix-join [] ss h = absurd (ground (arith, h.0.filled))
has_suffix-join (c ∷ s) [] h = has_suffix-Lacks b'/' c s h.0.no_slash
has_suffix-join (c ∷ s) (t ∷ ts) h =
    has_suffix-append (c ∷ s) b'/' (join b'/' (t ∷ ts)) b'/'
    ∙ has_suffix_behind b'/' (join b'/' (t ∷ ts)) b'/' (join_filled t ts h.1.0.filled)
    ∙ has_suffix-join t ts h.1

pub clean_path-path_of :
    (s : Text) (ss : List Text)
    → All IsPlainSegment (s ∷ ss)
    → clean_path (path_of (s ∷ ss)) ≡ path_of (s ∷ ss)
unfolding clean_path has_prefix
clean_path-path_of s ss h =
    rw
      (has_suffix_behind b'/' (join b'/' (s ∷ ss)) b'/' (join_filled s ss h.0.filled)
        ∙ has_suffix-join s ss h)
      (clean-path_of s ss h)

-- A GET request for a path of plain segments is answered by the pattern that matches them.
pub choose-path_of :
    {E : Type 0} (entries : List (Entry E)) (s : Text) (ss : List Text) (e : E)
    → All IsPlainSegment (s ∷ ss)
    → lookup entries (s ∷ ss) ≡ some e
    → choose entries (codes "GET") (path_of (s ∷ ss)) ≡ Choice.handler e
unfolding choose is_get text_eq
choose-path_of entries s ss e h k =
    let clean : text_eq (clean_path (path_of (s ∷ ss))) (path_of (s ∷ ss)) ≡ true =
      (text_eq_iff (clean_path (path_of (s ∷ ss))) (path_of (s ∷ ss))).1
        (clean_path-path_of s ss h) in
    rw clean (rw (segments-path_of s ss h) (rw k refl))

-- What is not a GET or a HEAD request reaches no handler.
pub choose_other :
    {E : Type 0} (entries : List (Entry E)) (method path : Text) (e : E)
    → is_get method ≡ false
    → choose entries method path ≢ Choice.handler e
unfolding choose
choose_other entries method path e h k = elim (Option-cases (lookup entries (segments path))) [
  | inl none_matches ↦ ground (arith, h, k, none_matches)
  | inr (e', matches) ↦ ground (arith, h, k, matches)
]
