-- ===== src/Json/Quoting.antt =====
-- Strings as the encoder writes them, read by the scanner.
pub mod Unquoting
use factory_demo.Base.{
  ℕ, suc, ◌+◌, ◌*◌, ◌/◌, ◌%◌, ◌≤◌, ◌<◌, List, [], ◌∷◌, ◌++◌, ◌≡◌, ◌≢◌, refl, sym, ap, ◌∙◌, true,
  false, Option, none, some, arith, All, append_assoc, append-nil, leb, ltb, ◌==◌, ==_iff,
  Bool-cases, lt→ltb, inl, inr,
}
use mathlib.Core.Path.{subst}
use factory_demo.Text.{Text, codes}
use factory_demo.Json.{Value}
use factory_demo.Json.Strings.{
  unquote, quote, quoted_at, escaped_byte, hex_value, hex_digit, is_hex, hex_from, unit_of,
}
use factory_demo.Json.Scanner.{
  Mode, StringState, Frame, Outcome, is_escape, go_string, run, step, step_string, finish_string,
  finish,
}

-- What the scanner does with an outcome in front of the rest of the input.
abbrev pub continued : Outcome → Text → Option (Value × Text)
continued Outcome.fail s = none
continued (Outcome.go m fs) s = run m fs s
continued (Outcome.done v) s = some (v, s)
continued (Outcome.done_before v) s = some (v, s)

-- The same in front of the byte that the scanner has read.
abbrev pub stepped : ℕ → Outcome → Text → Option (Value × Text)
stepped c Outcome.fail s = none
stepped c (Outcome.go m fs) s = run m fs s
stepped c (Outcome.done v) s = some (v, s)
stepped c (Outcome.done_before v) s = some (v, c ∷ s)

-- The three ways in which the encoder writes an ASCII byte.
pub data Quoted : ℕ → Text → Type 0 where
  as_is : (c : ℕ) → 32 ≤ c → c < 128 → c ≢ b'"' → c ≢ b'\\' → Quoted c (c ∷ [])
  as_escape : (e : ℕ) → is_escape e ≡ true → Quoted (escaped_byte e) (b'\\' ∷ e ∷ [])
  as_unit :
      (h l : ℕ)
      → is_hex h ≡ true
      → is_hex l ≡ true
      → hex_value h * 16 + hex_value l < 128
      → Quoted (hex_value h * 16 + hex_value l) (codes "\\u00" ++ h ∷ l ∷ [])

abbrev pub IsAscii : Text → Type 0
IsAscii = All (λ c. c < 128)

hex_value-hex_digit :
    (n : ℕ) → n < 16 → (hex_value (hex_digit n) ≡ n) × (is_hex (hex_digit n) ≡ true)
hex_value-hex_digit n h = ground arith

control :
    (c : ℕ) → c < 128 → Quoted c (codes "\\u00" ++ hex_digit (c / 16) ∷ hex_digit (c % 16) ∷ [])
control c h =
    let (high, high_hex) = hex_value-hex_digit (c / 16) (omega arith) in
    let (low, low_hex) = hex_value-hex_digit (c % 16) (omega arith) in
    let same : hex_value (hex_digit (c / 16)) * 16 + hex_value (hex_digit (c % 16)) ≡ c =
      omega (arith, high, low) in
    subst (λ d. Quoted d (codes "\\u00" ++ hex_digit (c / 16) ∷ hex_digit (c % 16) ∷ [])) same
      (as_unit (hex_digit (c / 16)) (hex_digit (c % 16)) high_hex low_hex
        (omega (arith, high, low)))

abbrev IsWritten : Text → ℕ → Type 0
IsWritten s c = Quoted c (quoted_at c s).0 × ((quoted_at c s).1 ≡ 0)

-- A test for one byte splits off the case of that byte.
split_byte :
    (s : Text) (k c : ℕ) → IsWritten s k → ((c == k) ≡ false → IsWritten s c) → IsWritten s c
split_byte s k c at_k other = elim (Bool-cases (c == k)) [
  | inl same ↦ subst (IsWritten s) (sym ((==_iff c k).0 same)) at_k
  | inr different ↦ other different
]

pub quoted_at-IsWritten : (s : Text) (c : ℕ) → c < 128 → IsWritten s c
quoted_at-IsWritten s c h =
    split_byte s b'"' c (as_escape b'"' refl, refl)
      λ quote.
        split_byte s b'\\' c (as_escape b'\\' refl, refl)
          λ backslash.
            split_byte s 8 c (as_escape b'b' refl, refl)
              λ b.
                split_byte s 12 c (as_escape b'f' refl, refl)
                  λ f.
                    split_byte s 10 c (as_escape b'n' refl, refl)
                      λ n.
                        split_byte s 13 c (as_escape b'r' refl, refl)
                          λ r.
                            split_byte s 9 c (as_escape b't' refl, refl)
                              λ t.
                                split_byte s b'<' c
                                  (as_unit b'3' b'c' refl refl (omega arith), refl)
                                  λ less.
                                    split_byte s b'>' c
                                      (as_unit b'3' b'e' refl refl (omega arith), refl)
                                      λ greater.
                                        split_byte s b'&' c
                                          (as_unit b'2' b'6' refl refl (omega arith), refl)
                                          λ ampersand. elim (Bool-cases (ltb c 32)) [
                                            | inl low ↦ ground (
                                              arith,
                                              quote,
                                              backslash,
                                              b,
                                              f,
                                              n,
                                              r,
                                              t,
                                              low,
                                              control c h,
                                            )
                                            | inr high ↦ ground (
                                              arith,
                                              quote,
                                              backslash,
                                              b,
                                              f,
                                              n,
                                              r,
                                              t,
                                              less,
                                              greater,
                                              ampersand,
                                              high,
                                              as_is c,
                                            )
                                          ]

-- One step of the scanner.
pub run-step :
    (m : Mode) (fs : List Frame) (c : ℕ) (s : Text) (o : Outcome)
    → step m fs c ≡ o
    → run m fs (c ∷ s) ≡ stepped c o s
unfolding run
run-step m fs c s Outcome.fail h = ground (arith, h)
run-step m fs c s (Outcome.go m' fs') h = ground (arith, h)
run-step m fs c s (Outcome.done v) h = ground (arith, h)
run-step m fs c s (Outcome.done_before v) h = ground (arith, h)

module _ (fs : List Frame) where
  run_plain :
      (st st' : StringState) (raw : Text) (c : ℕ) (s : Text)
      → step_string st raw fs c ≡ go_string st' raw fs c
      → run (Mode.string st raw) fs (c ∷ s) ≡ run (Mode.string st' (raw ++ c ∷ [])) fs s
  unfolding step
  run_plain st st' raw c s h = run-step (Mode.string st raw) fs c s _ h

  step_as_is :
      (raw : Text) (c : ℕ)
      → 32 ≤ c
      → c ≢ b'"'
      → c ≢ b'\\'
      → step_string StringState.plain raw fs c ≡ go_string StringState.plain raw fs c
  unfolding step_string
  step_as_is raw c h q b = ground arith

  step_hex :
      (n : ℕ) (raw : Text) (c : ℕ)
      → is_hex c ≡ true
      → step_string (StringState.unit (suc n)) raw fs c ≡ go_string (StringState.unit n) raw fs c
  unfolding step_string
  step_hex n raw c h = rw h refl

  step_last_hex :
      (raw : Text) (c : ℕ)
      → is_hex c ≡ true
      → step_string (StringState.unit 0) raw fs c ≡ go_string StringState.plain raw fs c
  unfolding step_string
  step_last_hex raw c h = rw h refl

  step_escaped :
      (raw : Text) (c : ℕ)
      → is_escape c ≡ true
      → step_string StringState.escaped raw fs c ≡ go_string StringState.plain raw fs c
  unfolding step_string
  step_escaped raw c h = rw h refl

  -- The scanner goes through what the encoder writes for a byte.
  run-Quoted :
      (raw : Text) (c : ℕ) (out s : Text)
      → Quoted c out
      → run (Mode.string StringState.plain raw) fs (out ++ s)
        ≡ run (Mode.string StringState.plain (raw ++ out)) fs s
  unfolding step step_string
  run-Quoted raw c out s (as_is _ h k q b) =
      run_plain StringState.plain StringState.plain raw c s (step_as_is raw c h q b)
  run-Quoted raw c out s (as_escape e h) =
      run_plain StringState.plain StringState.escaped raw b'\\' (e ∷ s) refl
      ∙ run_plain StringState.escaped StringState.plain (raw ++ b'\\' ∷ []) e s
          (step_escaped (raw ++ b'\\' ∷ []) e h)
      ∙ ap (λ t. run (Mode.string StringState.plain t) fs s)
          (append_assoc raw (b'\\' ∷ []) (e ∷ []))
  run-Quoted raw c out s (as_unit h l p q k) =
      let r1 = raw ++ b'\\' ∷ [] in
      let r2 = r1 ++ b'u' ∷ [] in
      let r3 = r2 ++ b'0' ∷ [] in
      let r4 = r3 ++ b'0' ∷ [] in
      run_plain StringState.plain StringState.escaped raw b'\\' (codes "u00" ++ h ∷ l ∷ s) refl
      ∙ run_plain StringState.escaped (StringState.unit 3) r1 b'u' (codes "00" ++ h ∷ l ∷ s) refl
      ∙ run_plain (StringState.unit 3) (StringState.unit 2) r2 b'0' (codes "0" ++ h ∷ l ∷ s) refl
      ∙ run_plain (StringState.unit 2) (StringState.unit 1) r3 b'0' (h ∷ l ∷ s) refl
      ∙ run_plain (StringState.unit 1) (StringState.unit 0) r4 h (l ∷ s) (step_hex 0 r4 h p)
      ∙ run_plain (StringState.unit 0) StringState.plain (r4 ++ h ∷ []) l s
          (step_last_hex (r4 ++ h ∷ []) l q)
      ∙ ap (λ t. run (Mode.string StringState.plain t) fs s) (simp append_assoc)

-- What the encoder writes for a text is scanned, byte by byte.
pub run-quote :
    (fs : List Frame) (raw t s : Text)
    → IsAscii t
    → run (Mode.string StringState.plain raw) fs (quote 0 t ++ s)
      ≡ run (Mode.string StringState.plain (raw ++ quote 0 t)) fs s
unfolding quote
run-quote fs raw [] s h = rw append-nil
run-quote fs raw (c ∷ t) s h =
    let (quoted, none_read) = quoted_at-IsWritten t c h.0 in
    let (out, n) = quoted_at c t in
    rw none_read (
      ap (λ u. run (Mode.string StringState.plain raw) fs u) (append_assoc out (quote 0 t) s)
      ∙ run-Quoted fs raw c out (quote 0 t ++ s) quoted
      ∙ run-quote fs (raw ++ out) t s h.1
      ∙ ap (λ u. run (Mode.string StringState.plain u) fs s) (append_assoc raw out (quote 0 t)))
