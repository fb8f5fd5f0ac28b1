-- ===== src/Json/Quoting/Unquoting.antt =====
-- Strings as the encoder writes them, and the texts that the decoder makes of them.
use factory_demo.Base.{
  ℕ, ◌+◌, ◌*◌, ◌<◌, List, [], ◌∷◌, ◌++◌, ◌≡◌, refl, ap, ◌∙◌, true, false, arith, leb, ltb, ◌==◌,
  lt→ltb,
}
use factory_demo.Text.{Text, codes}
use factory_demo.Json.Strings.{unquote, quote, quoted_at, hex_value, hex_from, unit_of}
use factory_demo.Json.Scanner.{
  Mode, StringState, Frame, is_escape, run, step, step_string, finish_string, finish,
}
use factory_demo.Json.Quoting.{
  continued, stepped, Quoted, as_is, as_escape, as_unit, IsAscii, quoted_at-IsWritten, run-step,
  run-quote,
}

escape_not_unit : (e : ℕ) → is_escape e ≡ true → (e == b'u') ≡ false
escape_not_unit e h = ground arith

-- An escape of an ASCII byte stands for that byte.
unit_of_low : (r : ℕ) (rest : Text) → r < 128 → unit_of r rest ≡ (r ∷ [], 4)
unit_of_low r rest k =
    let no_surrogate : leb 0xd800 r ≡ false = ground (arith, k) in
    let ascii : ltb r 0x80 ≡ true = ground (arith, k) in rw no_surrogate (rw ascii refl)

hex_from_low :
    (h l : ℕ) (s : Text) → hex_from 4 0 (codes "00" ++ h ∷ l ∷ s) ≡ hex_value h * 16 + hex_value l
hex_from_low h l s = omega arith

unquote-as_is :
    (c : ℕ) (s : Text)
    → (c == b'\\') ≡ false
    → ltb c 0x80 ≡ true
    → unquote 0 (c ∷ s) ≡ c ∷ unquote 0 s
unfolding unquote
unquote-as_is c s p q = rw p (rw q refl)

unquote-Quoted : (c : ℕ) (out s : Text) → Quoted c out → unquote 0 (out ++ s) ≡ c ∷ unquote 0 s
unfolding unquote
unquote-Quoted c out s (as_is _ h i q b) = unquote-as_is c s (ground arith) (lt→ltb c 0x80 i)
unquote-Quoted c out s (as_escape e h) = rw (escape_not_unit e h) refl
unquote-Quoted c out s (as_unit h l p q r) =
    rw (hex_from_low h l s) (rw (unit_of_low (hex_value h * 16 + hex_value l) s r) refl)

-- A string that was written is read as the text.
pub unquote-quote : (t : Text) → IsAscii t → unquote 0 (quote 0 t) ≡ t
unfolding quote
unquote-quote [] h = unfold unquote in refl
unquote-quote (c ∷ t) h =
    let (quoted, none_read) = quoted_at-IsWritten t c h.0 in
    rw none_read (
      unquote-Quoted c (quoted_at c t).0 (quote 0 t) quoted ∙ ap (λ u. c ∷ u) (unquote-quote t h.1))

finish_string-continued :
    (t : Text) (fs : List Frame) (s : Text)
    → stepped b'"' (finish_string t fs) s ≡ continued (finish_string t fs) s
unfolding finish_string finish
finish_string-continued t [] s = refl
finish_string-continued t (Frame.array read ∷ fs) s = refl
finish_string-continued t (Frame.object read ∷ fs) s = refl
finish_string-continued t (Frame.member read k ∷ fs) s = refl

-- The scanner reads a string that the encoder wrote, behind its first quotation mark.
pub run-string :
    (fs : List Frame) (t s : Text)
    → IsAscii t
    → run (Mode.string StringState.plain []) fs (quote 0 t ++ b'"' ∷ s)
      ≡ continued (finish_string t fs) s
unfolding step step_string
run-string fs t s h =
    run-quote fs [] t (b'"' ∷ s) h
    ∙ run-step (Mode.string StringState.plain (quote 0 t)) fs b'"' s (finish_string t fs)
        (ap (λ u. finish_string u fs) (unquote-quote t h))
    ∙ finish_string-continued t fs s
