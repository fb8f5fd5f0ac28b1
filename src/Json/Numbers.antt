-- ===== src/Json/Numbers.antt =====
-- Numbers as they are spelled in a document, read by the scanner.
use factory_demo.Base.{
  ℕ, List, [], ◌∷◌, ◌++◌, ◌≡◌, ◌≢◌, refl, sym, ap, ◌∙◌, Bool, true, false, Option, none, some, inl,
  inr, Option-cases, arith, append_assoc, append-nil, ◌==◌, if◌then◌else◌,
}
use factory_demo.Text.{Text, is_digit}
use factory_demo.Json.{Value}
use factory_demo.Json.Scanner.{
  Mode, NumberState, Frame, Outcome, next_number, is_complete, run, step, step_number, step_behind,
  behind_number, finish,
}
use factory_demo.Json.Quoting.{continued, run-step}

-- The state behind the first byte of a number.
abbrev pub first_number : ℕ → Option NumberState
first_number c =
    if c == b'-'
    then some NumberState.minus
    else if c == b'0'
    then some NumberState.zero_digit
    else if is_digit c
    then some NumberState.integer
    else none

-- The text completes a number.
abbrev pub completes : NumberState → Text → Bool
completes st [] = is_complete st
completes st (c ∷ s) = elim (next_number st c) [ none ↦ false | some st' ↦ completes st' s ]

-- The text is a number of the grammar of JSON.
abbrev pub is_number : Text → Bool
is_number [] = false
is_number (c ∷ s) = elim (first_number c) [ none ↦ false | some st ↦ completes st s ]

-- The byte cannot go on with a number.
abbrev pub IsStop : ℕ → Type 0
IsStop c = (is_digit c ≡ false) × (c ≢ b'.') × (c ≢ b'e') × (c ≢ b'E') × (c ≢ b'+') × (c ≢ b'-')

abbrev pub Stops : Text → Type 0
Stops [] = Unit
Stops (c ∷ s) = IsStop c

next_number_stop : (st : NumberState) (c : ℕ) → IsStop c → next_number st c ≡ none
next_number_stop NumberState.minus c (d, p, e, f, g, h) = ground (arith, d)
next_number_stop NumberState.zero_digit c (d, p, e, f, g, h) = ground (arith, p, e, f)
next_number_stop NumberState.integer c (d, p, e, f, g, h) = ground (arith, d, p, e, f)
next_number_stop NumberState.point c (d, p, e, f, g, h) = rw d refl
next_number_stop NumberState.fraction c (d, p, e, f, g, h) = ground (arith, d, e, f)
next_number_stop NumberState.exponent c (d, p, e, f, g, h) = ground (arith, d, g, h)
next_number_stop NumberState.exponent_sign c (d, p, e, f, g, h) = rw d refl
next_number_stop NumberState.exponent_digits c (d, p, e, f, g, h) = rw d refl

step_number_go :
    (st st' : NumberState) (raw : Text) (fs : List Frame) (c : ℕ)
    → next_number st c ≡ some st'
    → step_number st raw fs c ≡ Outcome.go (Mode.number st' (raw ++ c ∷ [])) fs
unfolding step_number
step_number_go st st' raw fs c h = rw (h, step_number) refl

step_number_stop :
    (st : NumberState) (raw : Text) (fs : List Frame) (c : ℕ)
    → next_number st c ≡ none
    → is_complete st ≡ true
    → step_number st raw fs c ≡ behind_number (finish (Value.number raw) fs) c
unfolding step_number
step_number_stop st raw fs c h k = rw (h, step_number) (rw k refl)

-- A number in an array or an object: the byte behind it is read by that.
number_behind :
    (st : NumberState) (raw : Text) (fs gs : List Frame) (c : ℕ) (s : Text)
    → step_number st raw fs c ≡ step_behind gs c
    → run (Mode.number st raw) fs (c ∷ s) ≡ run Mode.behind gs (c ∷ s)
unfolding step
number_behind st raw fs gs c s h =
    run-step (Mode.number st raw) fs c s (step_behind gs c) h
    ∙ sym (run-step Mode.behind gs c s (step_behind gs c) refl)

number_ended :
    (st : NumberState) (raw rest : Text) (fs : List Frame)
    → is_complete st ≡ true
    → Stops rest
    → run (Mode.number st raw) fs rest ≡ continued (finish (Value.number raw) fs) rest
unfolding run finish step behind_number
number_ended st raw [] [] h k = rw h refl
number_ended st raw [] (Frame.array read ∷ fs) h k = refl
number_ended st raw [] (Frame.object read ∷ fs) h k = refl
number_ended st raw [] (Frame.member read key ∷ fs) h k = refl
number_ended st raw (c ∷ s) [] h k =
    run-step (Mode.number st raw) [] c s (Outcome.done_before (Value.number raw))
      (step_number_stop st raw [] c (next_number_stop st c k) h)
number_ended st raw (c ∷ s) (Frame.array read ∷ fs) h k =
    number_behind st raw (Frame.array read ∷ fs) (Frame.array (Value.number raw ∷ read) ∷ fs) c s
      (step_number_stop st raw (Frame.array read ∷ fs) c (next_number_stop st c k) h)
number_ended st raw (c ∷ s) (Frame.object read ∷ fs) h k =
    run-step (Mode.number st raw) (Frame.object read ∷ fs) c s Outcome.fail
      (step_number_stop st raw (Frame.object read ∷ fs) c (next_number_stop st c k) h)
number_ended st raw (c ∷ s) (Frame.member read key ∷ fs) h k =
    number_behind st raw (Frame.member read key ∷ fs)
      (Frame.object ((key, Value.number raw) ∷ read) ∷ fs) c s
      (step_number_stop st raw (Frame.member read key ∷ fs) c (next_number_stop st c k) h)

pub run-number :
    (s : Text) (st : NumberState) (raw rest : Text) (fs : List Frame)
    → completes st s ≡ true
    → Stops rest
    → run (Mode.number st raw) fs (s ++ rest) ≡ continued (finish (Value.number (raw ++ s)) fs) rest
unfolding step
run-number [] st raw rest fs h k = rw append-nil (number_ended st raw rest fs h k)
run-number (c ∷ s) st raw rest fs h k = elim (Option-cases (next_number st c)) [
  | inl e ↦ absurd (ground (arith, h, e))
  | inr (st', e) ↦
      run-step (Mode.number st raw) fs c (s ++ rest) _ (step_number_go st st' raw fs c e)
      ∙ run-number s st' (raw ++ c ∷ []) rest fs (ground (arith, h, e)) k
      ∙ ap (λ t. continued (finish (Value.number t) fs) rest) (append_assoc raw (c ∷ []) s)
]
