-- ===== src/Routing/Escapes.antt =====
-- The escapes that url.PathEscape writes, in a segment of a path.
use factory_demo.Base.{
  ℕ, ◌<◌, ◌/◌, ◌%◌, [], ◌∷◌, ◌++◌, ◌≡◌, refl, sym, ap, ◌∙◌, false, some, arith, All, Bool-cases,
  inl, inr, ◌==◌,
}
use factory_demo.Text.{Text, codes, is_empty, text_eq}
use factory_demo.Text.Order.{text_eq_iff}
use factory_demo.Upstream.Http.{path_escape, percent, is_segment}
use factory_demo.Upstream.Core.Endpoints.{IsSegmentByte, path_escape-IsSegmentByte}
use factory_demo.Mocks.Query.{Bytes, Pending, unhex-hex_digit}
use factory_demo.Routing.{put, decode_from, unescaped}
use factory_demo.Routing.Paths.{IsPlainSegment}
use factory_demo.Text.Cut.{Lacks}

decode_percent :
    (c : ℕ) (s : Text)
    → c < 256
    → decode_from Pending.nothing (percent c ++ s) ≡ put c (decode_from Pending.nothing s)
unfolding decode_from
decode_percent c s h = ground (arith, unhex-hex_digit (c / 16), unhex-hex_digit (c % 16))

decode_plain :
    (c : ℕ) (s : Text)
    → (c == b'%') ≡ false
    → decode_from Pending.nothing (c ∷ s) ≡ put c (decode_from Pending.nothing s)
unfolding decode_from
decode_plain c s h = rw (h, decode_from) refl

decode-path_escape : (s : Text) → Bytes s → decode_from Pending.nothing (path_escape s) ≡ some s
unfolding path_escape
decode-path_escape [] h = unfold decode_from in refl
decode-path_escape (c ∷ s) h = elim (Bool-cases (is_segment c)) [
  | inl plain ↦ rw plain (
      decode_plain c (path_escape s) (ground (arith, plain))
      ∙ ap (put c) (decode-path_escape s h.1))
  | inr other ↦
      rw other (decode_percent c (path_escape s) h.0 ∙ ap (put c) (decode-path_escape s h.1))
]

-- A segment that PathEscape wrote stands for the text that it was given.
pub unescaped-path_escape : (s : Text) → Bytes s → unescaped (path_escape s) ≡ s
unfolding unescaped
unescaped-path_escape s h = rw (decode-path_escape s h, unescaped) refl

path_escape_filled : (s : Text) → is_empty s ≡ false → is_empty (path_escape s) ≡ false
unfolding path_escape
path_escape_filled [] h = absurd (ground (arith, h))
path_escape_filled (c ∷ s) h = ground arith

-- The texts that PathEscape leaves to the meaning that a path gives them.
abbrev pub IsName : Text → Type 0
IsName s = (is_empty s ≡ false) × (text_eq s (codes ".") ≡ false) × (text_eq s (codes "..") ≡ false)

-- A text is escaped to one that needs no escape only if it is that one.
path_escape_other :
    (s t : Text)
    → Bytes s
    → unescaped t ≡ t
    → text_eq s t ≡ false
    → text_eq (path_escape s) t ≡ false
path_escape_other s t h u n = elim (Bool-cases (text_eq (path_escape s) t)) [
  | inr e ↦ e
  | inl e ↦
      let same : s ≡ t =
        sym (unescaped-path_escape s h) ∙ ap unescaped ((text_eq_iff (path_escape s) t).0 e) ∙ u in
      absurd (cc (n, (text_eq_iff s t).1 same))
]

no_slashes : (s : Text) → All IsSegmentByte s → Lacks b'/' s
no_slashes [] h = tt
no_slashes (c ∷ s) h = (h.0.0, no_slashes s h.1)

pub path_escape-IsPlainSegment : (s : Text) → Bytes s → IsName s → IsPlainSegment (path_escape s)
path_escape-IsPlainSegment s h n = record {
  filled = path_escape_filled s n.0;
  no_dot = path_escape_other s (codes ".") h (unfold unescaped decode_from in refl) n.1;
  no_dots = path_escape_other s (codes "..") h (unfold unescaped decode_from in refl) n.2;
  no_slash = no_slashes (path_escape s) (path_escape-IsSegmentByte s h);
}
