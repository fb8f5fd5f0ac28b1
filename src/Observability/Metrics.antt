-- ===== src/Observability/Metrics.antt =====
-- internal/observability/metrics.go. The counters are uint64 values; the sum of the durations is a
-- float64, which is a parameter.
pub mod Counting
pub mod Exposition
pub mod Scraping
pub mod Scraped
use factory_demo.Base.{ℕ, suc, ◌+◌, ◌%◌, ◌^◌, List, [], ◌∷◌, ◌++◌, Option, none, some}
use factory_demo.Base.Int.{ℤ}
use factory_demo.Text.{Text, codes, format_nat}
use factory_demo.Text.Sorting.{sort}
use factory_demo.Dict.{Dict, lookup, insert}

-- float64: the zero, the addition, Duration.Seconds of a number of nanoseconds, and the verb %g.
pub record Float : Type 1 where
  pub Number : Type 0
  pub zero : Number
  pub add : Number → Number → Number
  pub seconds : ℤ → Number
  pub print : Number → Text

abbrev pub u64_mod : ℕ
u64_mod = 2 ^ 64

abbrev pub get_or : Option ℕ → ℕ → ℕ
get_or none d = d
get_or (some n) d = n

-- `m[k]++`: a key that is missing counts as zero.
unfoldable pub increment : Text → Dict ℕ → Dict ℕ
increment k m = insert k ((get_or (lookup k m) 0 + 1) % u64_mod) m

abbrev pub keys : Dict ℕ → List Text
keys [] = []
keys ((k, _) ∷ m) = k ∷ keys m

-- One sample line.
abbrev pub sample : Text → ℕ → Text
sample code n =
    codes
      "portfolio_http_requests_total{method=\"GET\",route=\"/api/v1/customers/{customerId}/portfolio\",status=\""
    ++ (code ++ (codes "\"} " ++ (format_nat n ++ codes "\n")))

unfoldable pub samples : List Text → Dict ℕ → Text
samples [] m = []
samples (k ∷ ks) m = sample k (get_or (lookup k m) 0) ++ samples ks m

module _ (float : Float) where
  pub record Metrics : Type 0 where
    pub requests : Dict ℕ
    pub count : ℕ
    pub seconds : float.Number

  -- NewMetrics.
  abbrev pub new_metrics : Metrics
  new_metrics = record {
    requests = (codes "200", 0) ∷ (codes "400", 0) ∷ (codes "404", 0) ∷ (codes "502", 0) ∷ [];
    count = 0;
    seconds = float.zero;
  }

  -- Observe. The mutex makes each call one step.
  unfoldable pub observe : ℕ → ℤ → Metrics → Metrics
  unfolding increment
  observe status duration m = record {
    requests = increment (format_nat status) m.requests;
    count = (m.count + 1) % u64_mod;
    seconds = float.add m.seconds (float.seconds duration);
  }

  -- WritePrometheus. `order` is the order in which the map is iterated.
  unfoldable pub write_prometheus : (List Text → List Text) → Metrics → Text
  write_prometheus order m =
      codes "# HELP portfolio_http_requests_total Total portfolio API requests.\n"
      ++ (codes "# TYPE portfolio_http_requests_total counter\n"
          ++ (samples (sort (order (keys m.requests))) m.requests
              ++ (codes
                    "# HELP portfolio_http_request_duration_seconds Portfolio API request duration.\n"
                  ++ (codes "# TYPE portfolio_http_request_duration_seconds summary\n"
                      ++ (codes "portfolio_http_request_duration_seconds_sum "
                          ++ (float.print m.seconds
                              ++ (codes "\nportfolio_http_request_duration_seconds_count "
                                  ++ (format_nat m.count ++ codes "\n"))))))))
