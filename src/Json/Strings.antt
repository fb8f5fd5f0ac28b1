-- ===== src/Json/Strings.antt =====
-- The strings of a document: what is between the quotation marks, as encoding/json reads and writes it.
use factory_demo.Base.{
  ℕ, zero, suc, ◌+◌, ◌-◌, ◌*◌, ◌/◌, ◌%◌, [], ◌∷◌, ◌++◌, Bool, false, ◌&&◌, ◌||◌, ltb, leb, ◌==◌,
  if◌then◌else◌, take,
}
use factory_demo.Text.{Text, codes}

-- U+FFFD.
abbrev pub replacement : Text
replacement = 0xef ∷ 0xbf ∷ 0xbd ∷ []

-- utf8.AppendRune, for a scalar value.
abbrev pub rune_bytes : ℕ → Text
rune_bytes r =
    if ltb r 0x80
    then r ∷ []
    else if ltb r 0x800
    then (0xc0 + r / 64) ∷ (0x80 + r % 64) ∷ []
    else if ltb r 0x10000
    then (0xe0 + r / 4096) ∷ (0x80 + r / 64 % 64) ∷ (0x80 + r % 64) ∷ []
    else (0xf0 + r / 262144) ∷ (0x80 + r / 4096 % 64) ∷ (0x80 + r / 64 % 64) ∷ (0x80 + r % 64) ∷ []

abbrev between : ℕ → ℕ → Text → Bool
between low high [] = false
between low high (c ∷ s) = leb low c && leb c high

abbrev pub behind_bytes : ℕ → Text → Text
behind_bytes zero s = s
behind_bytes (suc n) [] = []
behind_bytes (suc n) (c ∷ s) = behind_bytes n s

abbrev continues : ℕ → Text → Bool
continues zero s = between 0x80 0xbf s
continues (suc n) s = between 0x80 0xbf s && continues n (behind_bytes 1 s)

-- The bytes that follow a byte of at least 128 in a sequence of UTF-8, and 0 if it begins none.
abbrev pub sequence_width : ℕ → Text → ℕ
sequence_width c s =
    if leb 0xc2 c && leb c 0xdf
    then (if between 0x80 0xbf s then 1 else 0)
    else if leb 0xe0 c && leb c 0xef
    then (if between (if c == 0xe0 then 0xa0 else 0x80) (if c == 0xed then 0x9f else 0xbf) s
          && continues 0 (behind_bytes 1 s)
        then 2
        else 0)
    else if leb 0xf0 c && leb c 0xf4
    then (if between (if c == 0xf0 then 0x90 else 0x80) (if c == 0xf4 then 0x8f else 0xbf) s
          && continues 1 (behind_bytes 1 s)
        then 3
        else 0)
    else 0

abbrev pub is_hex : ℕ → Bool
is_hex c = (leb b'0' c && leb c b'9') || (leb b'a' c && leb c b'f') || (leb b'A' c && leb c b'F')

abbrev pub hex_value : ℕ → ℕ
hex_value c = if leb c b'9' then c - b'0' else if leb b'a' c then c - b'a' + 10 else c - b'A' + 10

abbrev pub hex_from : ℕ → ℕ → Text → ℕ
hex_from zero n s = n
hex_from (suc k) n [] = n
hex_from (suc k) n (c ∷ s) = hex_from k (n * 16 + hex_value c) s

abbrev is_unit_escape : Text → Bool
is_unit_escape [] = false
is_unit_escape (_ ∷ []) = false
is_unit_escape (c ∷ d ∷ s) = c == b'\\' && d == b'u'

-- A \u escape of a unit, with what is behind its digits: the bytes, and how many digits and bytes are
-- read. A surrogate is read with the one that follows it, or is replaced.
abbrev pub unit_of : ℕ → Text → Text × ℕ
unit_of r rest =
    let low = hex_from 4 0 (behind_bytes 2 rest) in
    if leb 0xd800 r && leb r 0xdfff
    then (if ltb r 0xdc00 && is_unit_escape rest && leb 0xdc00 low && leb low 0xdfff
        then (rune_bytes (0x10000 + (r - 0xd800) * 1024 + (low - 0xdc00)), 10)
        else (replacement, 4))
    else (rune_bytes r, 4)

abbrev pub escaped_byte : ℕ → ℕ
escaped_byte c =
    if c == b'b'
    then 8
    else if c == b'f'
    then 12
    else if c == b'n'
    then 10
    else if c == b'r'
    then 13
    else if c == b't'
    then 9
    else c

-- An escape, from the byte behind the backslash on.
abbrev pub escape_at : Text → Text × ℕ
escape_at [] = (replacement, 0)
escape_at (c ∷ s) =
    let (bytes, read) = unit_of (hex_from 4 0 s) (behind_bytes 4 s) in
    if c == b'u' then (bytes, suc read) else (escaped_byte c ∷ [], 1)

-- What a string yields at one byte, and how many of the bytes behind it are read with it.
abbrev pub unquoted_at : ℕ → Text → Text × ℕ
unquoted_at c s =
    let w = sequence_width c s in
    if c == b'\\'
    then escape_at s
    else if ltb c 0x80
    then (c ∷ [], 0)
    else if w == 0
    then (replacement, 0)
    else (c ∷ take w s, w)

-- The text of a string whose escapes the scanner has accepted, with the bytes that are read already.
unfoldable pub unquote : ℕ → Text → Text
unquote n [] = []
unquote (suc n) (c ∷ s) = unquote n s
unquote zero (c ∷ s) = let (out, n) = unquoted_at c s in out ++ unquote n s

abbrev pub hex_digit : ℕ → ℕ
hex_digit n = if ltb n 10 then b'0' + n else b'a' + (n - 10)

-- What the encoder, which escapes HTML, writes for a byte, and how many of the bytes behind it.
abbrev pub quoted_at : ℕ → Text → Text × ℕ
quoted_at c s =
    let w = sequence_width c s in
    if c == b'"' || c == b'\\'
    then (b'\\' ∷ c ∷ [], 0)
    else if c == 8
    then (codes "\\b", 0)
    else if c == 12
    then (codes "\\f", 0)
    else if c == 10
    then (codes "\\n", 0)
    else if c == 13
    then (codes "\\r", 0)
    else if c == 9
    then (codes "\\t", 0)
    else if ltb c 32 || c == b'<' || c == b'>' || c == b'&'
    then (codes "\\u00" ++ hex_digit (c / 16) ∷ hex_digit (c % 16) ∷ [], 0)
    else if ltb c 0x80
    then (c ∷ [], 0)
    else if w == 0
    then (codes "\\ufffd", 0)
    else if c == 0xe2 && between 0x80 0x80 s && between 0xa8 0xa9 (behind_bytes 1 s)
    then (codes "\\u202" ++ (if between 0xa8 0xa8 (behind_bytes 1 s) then b'8' else b'9') ∷ [], 2)
    else (c ∷ take w s, w)

-- A text between quotation marks, without them.
unfoldable pub quote : ℕ → Text → Text
quote n [] = []
quote (suc n) (c ∷ s) = quote n s
quote zero (c ∷ s) = let (out, n) = quoted_at c s in out ++ quote n s
