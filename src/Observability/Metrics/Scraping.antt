-- ===== src/Observability/Metrics/Scraping.antt =====
-- The exposition of internal/observability/metrics.go, read line by line as a scraper does.
use factory_demo.Base.{
  ℕ, List, [], ◌∷◌, ◌++◌, ◌≡◌, ◌≢◌, refl, sym, ap, ◌∙◌, Option, none, some, map, All, All-append,
  append_assoc, arith,
}
use mathlib.Core.Path.{ap₂}
use factory_demo.Text.{Text, codes, split, before, behind, parse_digits, format_nat}
use factory_demo.Text.Cut.{
  Lacks, split-line, cut_prefix, cut_prefix-append, before-append, behind-append,
}
use factory_demo.Text.Digits.{
  IsDigit, value-format_nat, format_nat-IsDigit, format_nat-ne-nil, parse_digits_exact,
}
use factory_demo.Dict.{Dict, lookup}
use factory_demo.Observability.Metrics.{Float, Metrics, get_or, sample, samples}

-- What stands in front of the status in a sample.
abbrev pub label : Text
label =
    codes
      "portfolio_http_requests_total{method=\"GET\",route=\"/api/v1/customers/{customerId}/portfolio\",status=\""

abbrev numbered : Text → Option ℕ → Option (Text × ℕ)
numbered code none = none
numbered code (some n) = some (code, n)

abbrev counter : Text → Option Text → Option (Text × ℕ)
counter code none = none
counter code (some digits) = numbered code (parse_digits digits)

abbrev pub counter_behind : Option Text → Option (Text × ℕ)
counter_behind none = none
counter_behind (some rest) = counter (before b'"' rest) (cut_prefix (codes "} ") (behind b'"' rest))

abbrev pub with_counter : Option (Text × ℕ) → Dict ℕ → Dict ℕ
with_counter none m = m
with_counter (some c) m = c ∷ m

-- The samples of the requests: each status with its number.
unfoldable pub counters : List Text → Dict ℕ
unfolding cut_prefix before behind parse_digits
counters [] = []
counters (l ∷ ls) = with_counter (counter_behind (cut_prefix label l)) (counters ls)

abbrev pub or_else : Option Text → Option Text → Option Text
or_else none o = o
or_else (some t) o = some t

-- The value of the first line with a name.
unfoldable pub summary : Text → List Text → Option Text
unfolding cut_prefix
summary name [] = none
summary name (l ∷ ls) = or_else (cut_prefix name l) (summary name ls)

-- A key that stands for itself in a label.
abbrev pub IsLabel : Text → Type 0
IsLabel k = Lacks b'"' k × Lacks b'\n' k

abbrev pub sample_line : Text → ℕ → Text
sample_line k n = label ++ (k ++ (codes "\"} " ++ format_nat n))

sample-line : (k rest : Text) (n : ℕ) → sample k n ++ rest ≡ sample_line k n ++ b'\n' ∷ rest
sample-line k rest n =
    ap (λ t. label ++ t)
      (append_assoc k (codes "\"} " ++ (format_nat n ++ codes "\n")) rest
        ∙ ap (λ t. k ++ (codes "\"} " ++ t)) (append_assoc (format_nat n) (codes "\n") rest)
        ∙ sym (append_assoc k (codes "\"} " ++ format_nat n) (b'\n' ∷ rest)))

digits-Lacks : (s : Text) → All IsDigit s → Lacks b'\n' s
digits-Lacks [] h = tt
digits-Lacks (c ∷ s) h = (omega (arith, h.0), digits-Lacks s h.1)

label-Lacks : Lacks b'\n' label
label-Lacks = ground arith

sample_line-Lacks : (k : Text) (n : ℕ) → IsLabel k → Lacks b'\n' (sample_line k n)
sample_line-Lacks k n h =
    All-append (λ c. c ≢ b'\n') label (k ++ (codes "\"} " ++ format_nat n)) label-Lacks
      (All-append (λ c. c ≢ b'\n') k (codes "\"} " ++ format_nat n) h.1
        (All-append (λ c. c ≢ b'\n') (codes "\"} ") (format_nat n) (ground arith)
          (digits-Lacks (format_nat n) (format_nat-IsDigit n))))

pub parse-format_nat : (n : ℕ) → parse_digits (format_nat n) ≡ some n
parse-format_nat n =
    parse_digits_exact (format_nat n) (format_nat-ne-nil n) (format_nat-IsDigit n)
    ∙ ap some (value-format_nat n)

-- A sample is read as its status and its number.
counter-sample_line :
    (k : Text) (n : ℕ)
    → IsLabel k
    → counter_behind (cut_prefix label (sample_line k n)) ≡ some (k, n)
counter-sample_line k n h =
    let rest = codes "} " ++ format_nat n in
    ap counter_behind (cut_prefix-append label (k ++ b'"' ∷ rest))
    ∙ ap₂ counter (before-append b'"' k rest h.0) (
        ap (cut_prefix (codes "} ")) (behind-append b'"' k rest h.0)
        ∙ cut_prefix-append (codes "} ") (format_nat n))
    ∙ ap (numbered k) (parse-format_nat n)

-- The counters of some statuses.
abbrev pub table : List Text → Dict ℕ → Dict ℕ
table ks m = map (λ k. (k, get_or (lookup k m) 0)) ks

pub counters-samples :
    (ks : List Text) (m : Dict ℕ) (rest : Text)
    → All IsLabel ks
    → counters (split b'\n' (samples ks m ++ rest)) ≡ table ks m ++ counters (split b'\n' rest)
unfolding samples counters
counters-samples [] m rest h = refl
counters-samples (k ∷ ks) m rest h =
    let n = get_or (lookup k m) 0 in
    let more = samples ks m ++ rest in
    ap (λ t. counters (split b'\n' t))
      (append_assoc (sample k n) (samples ks m) rest ∙ sample-line k more n)
    ∙ ap counters (split-line b'\n' (sample_line k n) more (sample_line-Lacks k n h.0))
    ∙ ap (λ c. with_counter c (counters (split b'\n' more))) (counter-sample_line k n h.0)
    ∙ ap (λ cs. (k, n) ∷ cs) (counters-samples ks m rest h.1)

-- A sample is no line of a summary.
pub summary-samples :
    (name : Text) (ks : List Text) (m : Dict ℕ) (rest : Text)
    → ((k : Text) (n : ℕ) → cut_prefix name (sample_line k n) ≡ none)
    → All IsLabel ks
    → summary name (split b'\n' (samples ks m ++ rest)) ≡ summary name (split b'\n' rest)
unfolding samples summary
summary-samples name [] m rest other h = refl
summary-samples name (k ∷ ks) m rest other h =
    let n = get_or (lookup k m) 0 in
    let more = samples ks m ++ rest in
    ap (λ t. summary name (split b'\n' t))
      (append_assoc (sample k n) (samples ks m) rest ∙ sample-line k more n)
    ∙ ap (summary name) (split-line b'\n' (sample_line k n) more (sample_line-Lacks k n h.0))
    ∙ ap (λ o. or_else o (summary name (split b'\n' more))) (other k n)
    ∙ summary-samples name ks m rest other h.1

-- The lines behind the samples.
abbrev pub rest_of : (float : Float) → Metrics float → Text
rest_of float m =
    codes "# HELP portfolio_http_request_duration_seconds Portfolio API request duration.\n"
    ++ (codes "# TYPE portfolio_http_request_duration_seconds summary\n"
        ++ (codes "portfolio_http_request_duration_seconds_sum "
            ++ (float.print m.seconds
                ++ (codes "\nportfolio_http_request_duration_seconds_count "
                    ++ (format_nat m.count ++ codes "\n")))))

abbrev pub sum_name : Text
sum_name = codes "portfolio_http_request_duration_seconds_sum "

abbrev pub count_name : Text
count_name = codes "portfolio_http_request_duration_seconds_count "

-- Each line ends before the next one.
pub rest-lines :
    (float : Float) (m : Metrics float)
    → Lacks b'\n' (float.print m.seconds)
    → split b'\n' (rest_of float m)
      ≡ codes "# HELP portfolio_http_request_duration_seconds Portfolio API request duration."
        ∷ codes "# TYPE portfolio_http_request_duration_seconds summary"
        ∷ (sum_name ++ float.print m.seconds)
        ∷ (count_name ++ format_nat m.count)
        ∷ split b'\n' []
rest-lines float m h =
    let help =
      codes "# HELP portfolio_http_request_duration_seconds Portfolio API request duration." in
    let type = codes "# TYPE portfolio_http_request_duration_seconds summary" in
    let sum = sum_name ++ float.print m.seconds in
    let number = count_name ++ format_nat m.count in
    split-line b'\n' help (type ++ b'\n' ∷ (sum ++ b'\n' ∷ (number ++ b'\n' ∷ []))) (ground arith)
    ∙ ap (λ ls. help ∷ ls)
        (split-line b'\n' type (sum ++ b'\n' ∷ (number ++ b'\n' ∷ [])) (ground arith)
          ∙ ap (λ ls. type ∷ ls)
              (split-line b'\n' sum (number ++ b'\n' ∷ [])
                  (All-append (λ c. c ≢ b'\n') sum_name (float.print m.seconds) (ground arith) h)
                ∙ ap (λ ls. sum ∷ ls)
                    (split-line b'\n' number [] (
                      All-append (λ c. c ≢ b'\n') count_name (format_nat m.count) (ground arith)
                        (digits-Lacks (format_nat m.count) (format_nat-IsDigit m.count))))))
