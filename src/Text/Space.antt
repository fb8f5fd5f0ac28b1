-- ===== src/Text/Space.antt =====
-- strings.TrimSpace: the white space of Unicode, as it is encoded in UTF-8.
use mathlib.Core.List.{reverse}
use factory_demo.Base.{ℕ, zero, suc, ◌-◌, [], ◌∷◌, Bool, ◌&&◌, ◌||◌, leb, ◌==◌, if◌then◌else◌}
use factory_demo.Text.Bytes.{Text}

-- \t \n \v \f \r and the blank.
abbrev pub is_space1 : ℕ → Bool
is_space1 c = (leb 9 c && leb c 13) || c == 32

-- U+0085 and U+00A0.
abbrev pub is_space2 : ℕ → ℕ → Bool
is_space2 a b = a == 0xc2 && (b == 0x85 || b == 0xa0)

-- U+1680, U+2000 to U+200A, U+2028, U+2029, U+202F, U+205F and U+3000.
abbrev pub is_space3 : ℕ → ℕ → ℕ → Bool
is_space3 a b c =
    (a == 0xe1 && b == 0x9a && c == 0x80)
    || (a == 0xe2
        && b == 0x80
        && ((leb 0x80 c && leb c 0x8a) || c == 0xa8 || c == 0xa9 || c == 0xaf))
    || (a == 0xe2 && b == 0x81 && c == 0x9f)
    || (a == 0xe3 && b == 0x80 && c == 0x80)

-- The bytes of the white space that a text begins with, 0 if it begins with none.
abbrev pub width_at_start : Text → ℕ
width_at_start [] = 0
width_at_start (a ∷ []) = if is_space1 a then 1 else 0
width_at_start (a ∷ b ∷ []) = if is_space1 a then 1 else if is_space2 a b then 2 else 0
width_at_start (a ∷ b ∷ c ∷ s) =
    if is_space1 a then 1 else if is_space2 a b then 2 else if is_space3 a b c then 3 else 0

-- The same at the end of a text, which is given backwards.
abbrev pub width_at_end : Text → ℕ
width_at_end [] = 0
width_at_end (a ∷ []) = if is_space1 a then 1 else 0
width_at_end (b ∷ a ∷ []) = if is_space1 b then 1 else if is_space2 a b then 2 else 0
width_at_end (c ∷ b ∷ a ∷ s) =
    if is_space1 c then 1 else if is_space2 b c then 2 else if is_space3 a b c then 3 else 0

-- Drops white space as long as there is some; the number counts bytes that are still to go.
unfoldable pub strip : (Text → ℕ) → ℕ → Text → Text
strip width skip [] = []
strip width (suc skip) (c ∷ s) = strip width skip s
strip width zero (c ∷ s) =
    let rest = strip width (width (c ∷ s) - 1) s in if width (c ∷ s) == 0 then c ∷ s else rest

unfoldable pub trim_space : Text → Text
unfolding strip
trim_space s = reverse (strip width_at_end 0 (reverse (strip width_at_start 0 s)))
