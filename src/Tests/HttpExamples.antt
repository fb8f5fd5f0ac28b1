-- ===== src/Tests/HttpExamples.antt =====
-- Examples for the theorems on the handlers, the counters and the assembled program.
use factory_demo.Base.{
  ◌+◌, ℕ, ◌≤◌, ◌%◌, List, [], ◌∷◌, ◌++◌, ◌≡◌, ◌↔◌, some, refl, ok, err, All, arith, true, false,
}
use factory_demo.Base.Int.{pos, max_int64, quot, rem, wrap64, ◌*ℤ◌}
use factory_demo.Text.{Text, codes, text_eq, split, format_nat, format_int}
use factory_demo.Failure.{Failure, Sentinel, error_is, fails_with}
use factory_demo.Dict.{lookup, insert}
use factory_demo.Domain.Money.{add}
use factory_demo.Domain.Quantity.{market_value}
use factory_demo.Domain.Values.{Portfolio}
use factory_demo.Portfolio.Service.Success.{CanValue}
use factory_demo.Portfolio.Service.{get, add_accounts, add_account, value_positions, value_position}
use factory_demo.Portfolio.Service.Aggregation.{HasLoaded, IsPortfolio}
use factory_demo.Observability.Metrics.{
  observe, new_metrics, u64_mod, write_prometheus, Metrics, keys, increment,
}
use factory_demo.Observability.Metrics.Counting.{Observation, counted}
use factory_demo.Observability.Metrics.Scraping.{counters, summary, IsLabel, sum_name}
use factory_demo.Observability.Metrics.Scraped.{read_count, write_prometheus-counters}
use factory_demo.Text.Sorting.{sort, count, IsIteration}
use factory_demo.Text.Cut.{Lacks}
use factory_demo.HttpApi.{Content, Event, Elapsed, Route, Server, completed, serve}
use factory_demo.HttpApi.Identifier.{
  is_customer_id, behind_literal, IsCustomerId, is_customer_id_iff,
}
use factory_demo.HttpApi.Routes.{entries, route_of}
use factory_demo.HttpApi.Routes.Reached.{IsPortfolioPath, route_iff}
use factory_demo.Routing.{choose, clean_path, is_get, segments}
use factory_demo.HttpApi.Mapping.{map_portfolio}
use factory_demo.HttpApi.Replies.{answer, behind, answer_status_iff, answer_observed, answers_agree}
use factory_demo.HttpApi.Serving.{IsSecured, serve-IsSecured, served_iff, served-IsPortfolio}
use factory_demo.HttpApi.Counters.{serve_all, sent, serve_all-counted}
use factory_demo.HttpApi.Amounts.{IsPrintable, ShowsPortfolio, map_portfolio-ShowsPortfolio}
use factory_demo.Deployment.{upstream_ports}
use factory_demo.Deployment.Outcomes.{not_found_iff}
use factory_demo.Tests.Fixtures.{
  usd, demo_accounts, demo_prices, demo_portfolio, demo_ports, failing_ports, same_order,
  nanoseconds, demo_platform, response_of,
}

abbrev quick : Elapsed
quick = record { observed = pos 1_500_000; logged = pos 1_600_000 }

abbrev idle : Server nanoseconds ℕ
idle = record { world = 0; metrics = new_metrics nanoseconds; log = [] }

-- A status that a run of the handlers sends.
abbrev Sends : Text → ℕ → Type 0
Sends id n = (answer demo_ports same_order id quick idle).status ≡ some n

demo-Sends : Sends (codes "cust-1001") 200
unfolding serve is_customer_id behind_literal get add_accounts add_account value_positions
    value_position lookup text_eq market_value rem wrap64 ◌*ℤ◌ add
demo-Sends = refl

short-Sends : Sends (codes "cust-1") 400
unfolding serve is_customer_id behind_literal
short-Sends = refl

failing_lem : (answer failing_ports same_order (codes "cust-1001") quick idle).status ≡ some 502
unfolding serve is_customer_id behind_literal get error_is
failing_lem = refl

other_failing_lem :
    (answer failing_ports same_order (codes "cust-2002") quick idle).status ≡ some 502
unfolding serve is_customer_id behind_literal get error_is
other_failing_lem = refl

is_customer_id_iff_example :
    (is_customer_id (codes "cust-1001") ≡ true) ↔ IsCustomerId (codes "cust-1001")
is_customer_id_iff_example = is_customer_id_iff (codes "cust-1001")

answer_status_iff_example :
    (Sends (codes "cust-1001") 400 ↔ (¬ IsCustomerId (codes "cust-1001")))
    × (Sends (codes "cust-1001") 200 ↔ (
        IsCustomerId (codes "cust-1001")
        × (r : Portfolio) × ((get demo_ports same_order (codes "cust-1001") 0).0 ≡ ok r)))
    × (Sends (codes "cust-1001") 404 ↔ (
        IsCustomerId (codes "cust-1001")
        × (fails_with
              (get demo_ports same_order (codes "cust-1001") 0).0
              Sentinel.customer_not_found
            ≡ true)))
    × (Sends (codes "cust-1001") 502 ↔ (
        IsCustomerId (codes "cust-1001")
        × (e : Failure) × ((get demo_ports same_order (codes "cust-1001") 0).0 ≡ err e)
        × (error_is e Sentinel.customer_not_found ≡ false)))
answer_status_iff_example = answer_status_iff demo_ports same_order (codes "cust-1001") quick idle

answer_observed_example :
    ((behind demo_ports same_order (codes "cust-1") quick idle).metrics
      ≡ observe nanoseconds 400 (pos 1_500_000) (new_metrics nanoseconds))
    × ((earlier : List Event) × ((behind demo_ports same_order (codes "cust-1") quick idle).log
          ≡ earlier ++ completed 400 (quot (pos 1_600_000) 1000000) ∷ []))
answer_observed_example =
    answer_observed demo_ports same_order (codes "cust-1") quick idle 400 short-Sends

answers_agree_example :
    answer failing_ports same_order (codes "cust-1001") quick idle
    ≡ answer failing_ports same_order (codes "cust-2002") quick idle
answers_agree_example =
    answers_agree failing_ports failing_ports same_order same_order (codes "cust-1001")
      (codes "cust-2002") quick quick idle idle 502 (ground arith) failing_lem other_failing_lem

demo_http_loaded :
    HasLoaded demo_ports same_order (codes "cust-1001") idle.world demo_accounts demo_prices 2
demo_http_loaded = record {
  middle = 1;
  loaded = refl;
  priced = refl;
  cash = (
    record { fits = omega arith; coded = λ e. cc },
    (record { fits = omega arith; coded = λ e. cc }, tt),
  );
}

served_iff_example : Sends (codes "cust-1001") 200 ↔ (
    IsCustomerId (codes "cust-1001")
    × (code : Text) × All (CanValue demo_prices code) demo_accounts)
served_iff_example =
    served_iff demo_ports same_order (codes "cust-1001") quick idle demo_accounts demo_prices 2
      demo_http_loaded

served-IsPortfolio_example :
    (r : Portfolio) × ((answer demo_ports same_order (codes "cust-1001") quick idle).content
      ≡ some (Content.portfolio (map_portfolio r)))
    × IsPortfolio (codes "cust-1001") demo_prices demo_accounts r
served-IsPortfolio_example =
    served-IsPortfolio demo_ports same_order (codes "cust-1001") quick idle demo_accounts
      demo_prices 2 demo_http_loaded demo-Sends

serve-IsSecured_example :
    IsSecured
      (serve demo_ports same_order (Route.unmatched 404 (codes "404 page not found")) idle).0
serve-IsSecured_example =
    serve-IsSecured demo_ports same_order (Route.unmatched 404 (codes "404 page not found")) idle

abbrev requests : List Route
requests =
    Route.customer_portfolio (codes "cust-1001") quick
    ∷ Route.health_live
    ∷ Route.customer_portfolio (codes "cust-1") quick
    ∷ []

serve_all-counted_example :
    counted 400 (serve_all demo_ports same_order requests idle).1.metrics.requests
    ≡ sent 400 (serve_all demo_ports same_order requests idle).0 % u64_mod
serve_all-counted_example = serve_all-counted demo_ports same_order requests idle 400 refl

abbrev two_hundreds : List Observation
two_hundreds =
    record { status = 200; duration = pos 5 } ∷ record { status = 200; duration = pos 6 } ∷ []

-- The map is iterated from its end.
abbrev backwards_order : List Text → List Text
backwards_order [] = []
backwards_order (t ∷ ts) = backwards_order ts ++ t ∷ []

count-append : (s : Text) (ts us : List Text) → count s (ts ++ us) ≡ count s ts + count s us
count-append s [] us = omega arith
count-append s (t ∷ ts) us = ground (arith, count-append s ts us)

backwards_order-IsIteration : IsIteration backwards_order
backwards_order-IsIteration [] s = refl
backwards_order-IsIteration (t ∷ ts) s =
    ground (arith, count-append s (backwards_order ts) (t ∷ []), backwards_order-IsIteration ts s)

abbrev two_observed : Metrics nanoseconds
two_observed =
    observe nanoseconds 404 (pos 5) (observe nanoseconds 200 (pos 7) (new_metrics nanoseconds))

labels_observed : All IsLabel (keys two_observed.requests)
unfolding observe increment insert text_eq lookup format_nat
labels_observed = ground arith

printed_observed : Lacks b'\n' (nanoseconds.print two_observed.seconds)
unfolding observe format_int format_nat
printed_observed = ground arith

write_prometheus-counters_example :
    let ls = split b'\n' (write_prometheus nanoseconds backwards_order two_observed) in
    (keys (counters ls) ≡ sort (keys two_observed.requests))
    × ((code : Text) → lookup code (counters ls) ≡ lookup code two_observed.requests)
    × (summary sum_name ls ≡ some (nanoseconds.print two_observed.seconds))
    × (read_count ls ≡ some two_observed.count)
write_prometheus-counters_example =
    write_prometheus-counters nanoseconds two_observed backwards_order backwards_order-IsIteration
      labels_observed printed_observed

usd_printable : (n : ℕ) → n ≤ max_int64 → IsPrintable (usd (pos n))
usd_printable n h = record { fits = omega arith; negatable = λ e. ground arith }

map_portfolio-ShowsPortfolio_example : ShowsPortfolio (map_portfolio demo_portfolio) demo_portfolio
map_portfolio-ShowsPortfolio_example =
    map_portfolio-ShowsPortfolio demo_portfolio (usd_printable 3_437_500 (omega arith)) (
      record {
        cash = usd_printable 250_000 (omega arith);
        value = usd_printable 2_102_500 (omega arith);
        holdings = (
          record {
            natural = 100_000_000;
            fits = omega arith;
            quantity = refl;
            price = usd_printable 18_525 (omega arith);
            value = usd_printable 1_852_500 (omega arith);
          },
          tt,
        );
      },
      (
        record {
          cash = usd_printable 260_000 (omega arith);
          value = usd_printable 1_335_000 (omega arith);
          holdings = (
            record {
              natural = 200_000_000;
              fits = omega arith;
              quantity = refl;
              price = usd_printable 5_375 (omega arith);
              value = usd_printable 1_075_000 (omega arith);
            },
            tt,
          );
        },
        tt,
      ),
    )

not_found_iff_example :
    ((answer (upstream_ports (demo_platform 404)) same_order (codes "cust-1001") quick idle).status
      ≡ some 404)
    ↔ (IsCustomerId (codes "cust-1001") × ((response_of 404).status_code ≡ 404))
not_found_iff_example =
    not_found_iff (demo_platform 404) same_order (codes "cust-1001") quick idle (response_of 404)
      (record { refusals = λ endpoint e h. cc; failures = λ endpoint w. refl }) (λ body. refl)
      (record { middle = 1; accepted = refl; answered = refl; readable = refl })

route_iff_example :
    (route_of
        (λ path. (301, path))
        (choose entries (codes "GET") (codes "/api/v1/customers/cust-1001/portfolio"))
        (record { observed = pos 0; logged = pos 0 })
      ≡ Route.customer_portfolio (codes "cust-1001") (record { observed = pos 0; logged = pos 0 }))
    ↔ ((is_get (codes "GET") ≡ true)
        × (clean_path (codes "/api/v1/customers/cust-1001/portfolio")
            ≡ codes "/api/v1/customers/cust-1001/portfolio")
        × IsPortfolioPath
            (codes "cust-1001")
            (segments (codes "/api/v1/customers/cust-1001/portfolio")))
route_iff_example =
    route_iff (λ path. (301, path)) (codes "GET") (codes "/api/v1/customers/cust-1001/portfolio")
      (codes "cust-1001") (record { observed = pos 0; logged = pos 0 })
