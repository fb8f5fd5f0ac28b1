-- ===== src/Observability/Metrics/Counting.antt =====
-- What the counters hold after any sequence of requests.
use factory_demo.Base.{
  ℕ, suc, ◌+◌, ◌%◌, ◌<◌, List, [], ◌∷◌, ◌≡◌, sym, ap, ◌∙◌, arith, length, if◌then◌else◌, ◌==◌,
}
use factory_demo.Base.Int.{ℤ}
use factory_demo.Text.{format_nat, value}
use factory_demo.Text.Order.{text_eq_iff}
use factory_demo.Text.Digits.{value-format_nat}
use factory_demo.Dict.{Dict, lookup, lookup-insert}
use factory_demo.Observability.Metrics.{
  Float, Metrics, new_metrics, observe, increment, get_or, u64_mod,
}

abbrev pub counted : ℕ → Dict ℕ → ℕ
counted status m = get_or (lookup (format_nat status) m) 0

-- Two statuses have one decimal only if they are equal.
format_nat-injective : (a b : ℕ) → format_nat a ≡ format_nat b → a ≡ b
format_nat-injective a b h = sym (value-format_nat a) ∙ ap (value 0) h ∙ value-format_nat b

counted-increment :
    (s t : ℕ) (m : Dict ℕ)
    → counted s (increment (format_nat t) m)
      ≡ (if t == s then (counted s m + 1) % u64_mod else counted s m)
unfolding increment
counted-increment s t m = ground (
  arith,
  lookup-insert (format_nat t) (format_nat s) ((get_or (lookup (format_nat t) m) 0 + 1) % u64_mod)
      m,
  text_eq_iff (format_nat t) (format_nat s),
  format_nat-injective t s,
)

-- A request that was observed: its status and its duration in nanoseconds.
pub record Observation : Type 0 where
  pub status : ℕ
  pub duration : ℤ

module _ (float : Float) where
  abbrev pub observe_all : List Observation → Metrics float → Metrics float
  observe_all [] m = m
  observe_all (o ∷ os) m = observe_all os (observe float o.status o.duration m)

abbrev pub occurrences : ℕ → List Observation → ℕ
occurrences s [] = 0
occurrences s (o ∷ os) = if o.status == s then suc (occurrences s os) else occurrences s os

counted_new : (float : Float) (s : ℕ) → counted s (new_metrics float).requests ≡ 0
unfolding lookup
counted_new float s = ground arith

module _ (float : Float) (s : ℕ) where
  observe_all-counted :
      (os : List Observation) (m : Metrics float)
      → counted s m.requests < u64_mod
      → counted s (observe_all float os m).requests
        ≡ (counted s m.requests + occurrences s os) % u64_mod
  unfolding observe
  observe_all-counted [] m h = omega arith
  observe_all-counted (o ∷ os) m h = ground (
    arith,
    counted-increment s o.status m.requests,
    observe_all-counted os (observe float o.status o.duration m),
  )

observe_all-count :
    (float : Float) (os : List Observation) (m : Metrics float)
    → m.count < u64_mod
    → (observe_all float os m).count ≡ (m.count + length os) % u64_mod
unfolding observe
observe_all-count float [] m h = omega arith
observe_all-count float (o ∷ os) m h =
    ground (arith, observe_all-count float os (observe float o.status o.duration m))

-- After any sequence of observations the counter of each status is the number of observations of
-- that status, and the count is the number of all of them, both as uint64 values.
pub observe_all_lem :
    (float : Float) (os : List Observation) (s : ℕ)
    → (counted s (observe_all float os (new_metrics float)).requests ≡ occurrences s os % u64_mod)
      × ((observe_all float os (new_metrics float)).count ≡ length os % u64_mod)
observe_all_lem float os s = (
  omega (
    arith,
    observe_all-counted float s os (new_metrics float) (omega (arith, counted_new float s)),
    counted_new float s,
  ),
  omega (arith, observe_all-count float os (new_metrics float) (omega arith)),
)
