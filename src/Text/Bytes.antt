-- ===== src/Text/Bytes.antt =====
-- Byte strings: comparison, prefixes, cutting at a byte, joining, and strings.ToUpper.
use Prim.Native.Char.{code}
use factory_demo.Base.{
  ℕ, ◌-◌, String, List, [], ◌∷◌, ◌++◌, map, Bool, true, false, ◌&&◌, ◌||◌, ltb, leb, ◌==◌,
  if◌then◌else◌, all,
}

abbrev pub Text : Type 0
Text = List ℕ

-- The bytes of an ASCII literal.
abbrev pub codes : String → Text
codes String.[] = []
codes (String.◌∷◌ c s) = code c ∷ codes s

-- `s == t`.
unfoldable pub text_eq : Text → Text → Bool
text_eq [] [] = true
text_eq [] (_ ∷ _) = false
text_eq (_ ∷ _) [] = false
text_eq (a ∷ s) (b ∷ t) = (a == b) && text_eq s t

-- `s < t`, bytewise.
unfoldable pub text_lt : Text → Text → Bool
text_lt [] [] = false
text_lt [] (_ ∷ _) = true
text_lt (_ ∷ _) [] = false
text_lt (a ∷ s) (b ∷ t) = ltb a b || ((a == b) && text_lt s t)

abbrev pub is_empty : Text → Bool
is_empty [] = true
is_empty (_ ∷ _) = false

-- strings.HasPrefix and strings.HasSuffix at a text of one byte.
unfoldable pub has_prefix : Text → ℕ → Bool
has_prefix [] b = false
has_prefix (c ∷ _) b = c == b

unfoldable pub has_suffix : Text → ℕ → Bool
has_suffix [] b = false
has_suffix (c ∷ []) b = c == b
has_suffix (_ ∷ d ∷ s) b = has_suffix (d ∷ s) b

-- The part before the first `sep`, and the part behind it if `sep` occurs.
unfoldable pub before : ℕ → Text → Text
before sep [] = []
before sep (c ∷ s) = let rest = before sep s in if c == sep then [] else c ∷ rest

unfoldable pub behind : ℕ → Text → Text
behind sep [] = []
behind sep (c ∷ s) = let rest = behind sep s in if c == sep then s else rest

-- The loop of strings.Split, with the current part.
unfoldable pub split_from : ℕ → Text → Text → List Text
split_from sep part [] = part ∷ []
split_from sep part (c ∷ s) =
    let here = part ∷ split_from sep [] s in
    let on = split_from sep (part ++ c ∷ []) s in if c == sep then here else on

-- strings.Split at a separator of one byte: a text with n separators has n + 1 parts.
unfoldable pub split : ℕ → Text → List Text
unfolding split_from
split sep s = split_from sep [] s

-- strings.Join.
unfoldable pub join : ℕ → List Text → Text
join sep [] = []
join sep (t ∷ []) = t
join sep (t ∷ u ∷ ts) = t ++ sep ∷ join sep (u ∷ ts)

-- strings.TrimRight with a cutset of one ASCII byte.
unfoldable pub trim_right : ℕ → Text → Text
trim_right b [] = []
trim_right b (c ∷ s) = let rest = trim_right b s in if is_empty rest && c == b then [] else c ∷ rest

abbrev pub is_lower : ℕ → Bool
is_lower c = leb b'a' c && leb c b'z'

abbrev pub upper_byte : ℕ → ℕ
upper_byte c = if is_lower c then c - 32 else c

abbrev pub is_ascii : Text → Bool
is_ascii = all (λ c. ltb c 128)

-- strings.ToUpper: bytewise on ASCII, else rune by rune through the Unicode tables, which are the
-- parameter `upper_runes`.
unfoldable pub to_upper : (Text → Text) → Text → Text
to_upper upper_runes s = if is_ascii s then map upper_byte s else upper_runes s
