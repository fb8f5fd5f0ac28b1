-- ===== src/Observability/Metrics/Scraped.antt =====
-- What a scraper reads in the exposition of internal/observability/metrics.go.
use factory_demo.Base.{
  ℕ, zero, suc, List, [], ◌∷◌, ◌++◌, ◌≡◌, ◌≢◌, refl, ap, ◌∙◌, Option, none, some, All, append-nil,
  arith, Bool-cases, inl, inr,
}
use mathlib.Core.Path.{subst}
use factory_demo.Text.{Text, codes, split, parse_digits, format_nat, text_eq}
use factory_demo.Text.Cut.{Lacks, split-line, cut_prefix}
use factory_demo.Text.Order.{text_eq_iff, text_eq_refl}
use factory_demo.Text.Sorting.{sort, count, IsIteration}
use factory_demo.Text.Sorting.Laws.{count-sort}
use factory_demo.Dict.{Dict, lookup}
use factory_demo.Observability.Metrics.{Float, Metrics, write_prometheus, keys, get_or, samples}
use factory_demo.Observability.Metrics.Exposition.{sort_iteration}
use factory_demo.Observability.Metrics.Scraping.{
  counters, summary, IsLabel, table, counters-samples, summary-samples, rest_of, rest-lines,
  sum_name, count_name, parse-format_nat,
}

keys-table : (ks : List Text) (m : Dict ℕ) → keys (table ks m) ≡ ks
keys-table [] m = refl
keys-table (k ∷ ks) m = ap (λ ts. k ∷ ts) (keys-table ks m)

-- Nothing is held of what is counted nowhere.
abbrev held : ℕ → Option ℕ → Option ℕ
held zero o = none
held (suc n) o = o

-- A table holds what the map holds of its keys.
lookup-table :
    (c : Text) (ks : List Text) (m : Dict ℕ)
    → lookup c (table ks m) ≡ held (count c ks) (some (get_or (lookup c m) 0))
unfolding lookup
lookup-table c [] m = refl
lookup-table c (k ∷ ks) m = elim (Bool-cases (text_eq k c)) [
  | inl same ↦ rw same (ap (λ t. some (get_or (lookup t m) 0)) ((text_eq_iff k c).0 same))
  | inr other ↦ rw other (lookup-table c ks m)
]

lookup-keys :
    (c : Text) (m : Dict ℕ) → held (count c (keys m)) (some (get_or (lookup c m) 0)) ≡ lookup c m
unfolding lookup
lookup-keys c [] = refl
lookup-keys c ((k, n) ∷ m) = elim (Bool-cases (text_eq k c)) [
  | inl same ↦ rw same refl
  | inr other ↦ rw other (lookup-keys c m)
]

module _ (P : Text → Type 0) where
  All-counted : (s : Text) (ts : List Text) → All P ts → count s ts ≢ 0 → P s
  All-counted s [] h k = absurd (k refl)
  All-counted s (t ∷ ts) h k = elim (Bool-cases (text_eq t s)) [
    | inl same ↦ subst P ((text_eq_iff t s).0 same) h.0
    | inr other ↦ All-counted s ts h.1 (λ e. k (rw other e))
  ]

  counted-All : (ks : List Text) → ((s : Text) → count s ks ≢ 0 → P s) → All P ks
  counted-All [] h = tt
  counted-All (k ∷ ks) h = (
    h k (λ e. ground (arith, e, text_eq_refl k)),
    counted-All ks (λ s c. h s (λ e. ground (arith, e, c))),
  )

abbrev number_of : Option Text → Option ℕ
number_of none = none
number_of (some t) = parse_digits t

-- The number of requests.
abbrev pub read_count : List Text → Option ℕ
read_count ls = number_of (summary count_name ls)

module _ (float : Float) (m : Metrics float) where
  -- The exposition, by the statuses in their order.
  abbrev listed : List Text → Text
  listed ks =
      codes "# HELP portfolio_http_requests_total Total portfolio API requests.\n"
      ++ (codes "# TYPE portfolio_http_requests_total counter\n"
          ++ (samples ks m.requests ++ rest_of float m))

  listed-lines :
      (ks : List Text)
      → split b'\n' (listed ks)
        ≡ codes "# HELP portfolio_http_requests_total Total portfolio API requests."
          ∷ codes "# TYPE portfolio_http_requests_total counter"
          ∷ split b'\n' (samples ks m.requests ++ rest_of float m)
  listed-lines ks =
      let help = codes "# HELP portfolio_http_requests_total Total portfolio API requests." in
      let type = codes "# TYPE portfolio_http_requests_total counter" in
      let rest = samples ks m.requests ++ rest_of float m in
      split-line b'\n' help (type ++ b'\n' ∷ rest) (ground arith)
      ∙ ap (λ ls. help ∷ ls) (split-line b'\n' type rest (ground arith))

  counters-listed :
      (ks : List Text)
      → All IsLabel ks
      → Lacks b'\n' (float.print m.seconds)
      → counters (split b'\n' (listed ks)) ≡ table ks m.requests
  counters-listed ks h k =
      ap counters (listed-lines ks)
      ∙ unfold counters in
        counters-samples ks m.requests (rest_of float m) h
        ∙ ap (λ ls. table ks m.requests ++ counters ls) (rest-lines float m k)
        ∙ unfold split counters in append-nil (table ks m.requests)

  sum-listed :
      (ks : List Text)
      → All IsLabel ks
      → Lacks b'\n' (float.print m.seconds)
      → summary sum_name (split b'\n' (listed ks)) ≡ some (float.print m.seconds)
  unfolding summary cut_prefix
  sum-listed ks h k =
      ap (summary sum_name) (listed-lines ks)
      ∙ summary-samples sum_name ks m.requests (rest_of float m) (λ c n. refl) h
      ∙ ap (summary sum_name) (rest-lines float m k)

  count-listed :
      (ks : List Text)
      → All IsLabel ks
      → Lacks b'\n' (float.print m.seconds)
      → summary count_name (split b'\n' (listed ks)) ≡ some (format_nat m.count)
  unfolding summary cut_prefix
  count-listed ks h k =
      ap (summary count_name) (listed-lines ks)
      ∙ summary-samples count_name ks m.requests (rest_of float m) (λ c n. refl) h
      ∙ ap (summary count_name) (rest-lines float m k)

  -- Where no status in the map has a quote or a line feed and the sum is printed without a line feed, in
  -- whatever order the map is iterated: a scraper that reads the exposition line by line finds the
  -- statuses of the map in their order and for each text exactly the number that the map holds, the sum
  -- of the durations as it is printed, and the number of requests.
  pub write_prometheus-counters :
      (order : List Text → List Text)
      → IsIteration order
      → All IsLabel (keys m.requests)
      → Lacks b'\n' (float.print m.seconds)
      → (keys (counters (split b'\n' (write_prometheus float order m))) ≡ sort (keys m.requests))
        × ((code : Text)
            → lookup code (counters (split b'\n' (write_prometheus float order m)))
              ≡ lookup code m.requests)
        × (summary sum_name (split b'\n' (write_prometheus float order m))
            ≡ some (float.print m.seconds))
        × (read_count (split b'\n' (write_prometheus float order m)) ≡ some m.count)
  unfolding write_prometheus
  write_prometheus-counters order i h k =
      let ks = sort (order (keys m.requests)) in
      let counts : (s : Text) → count s ks ≡ count s (keys m.requests) =
        λ s. count-sort s (order (keys m.requests)) ∙ i (keys m.requests) s in
      let labels : All IsLabel ks =
        counted-All IsLabel ks
          (λ s c. All-counted IsLabel s (keys m.requests) h (λ e. c (counts s ∙ e))) in
      let read = counters-listed ks labels k in
      (
        ap keys read
            ∙ keys-table ks m.requests
            ∙ sort_iteration order (λ ts. ts) (keys m.requests) i (λ ts s. refl),
        λ code.
            ap (lookup code) read
            ∙ lookup-table code ks m.requests
            ∙ ap (λ n. held n (some (get_or (lookup code m.requests) 0))) (counts code)
            ∙ lookup-keys code m.requests,
        sum-listed ks labels k,
        ap number_of (count-listed ks labels k) ∙ parse-format_nat m.count,
      )
