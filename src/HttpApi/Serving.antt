-- ===== src/HttpApi/Serving.antt =====
-- The handler of NewHandler on every route.
use factory_demo.Base.{
  ℕ, List, All, ◌≡◌, ◌↔◌, ◌⊎◌, inl, inr, ◌∙◌, some, Option-cases, ok, arith, Bool-cases,
  Result-cases,
}
use factory_demo.Text.{Text, codes, text_eq}
use factory_demo.Dict.{Dict, lookup, lookup-insert}
use factory_demo.Failure.{error_is, Sentinel}
use factory_demo.Domain.Values.{Portfolio, Account, Price}
use factory_demo.Portfolio.Service.{Ports, get, ready}
use factory_demo.Portfolio.Service.Success.{CanValue}
use factory_demo.Portfolio.Service.Aggregation.{
  HasLoaded, IsPortfolio, get-IsPortfolio, get_succeeds_iff,
}
use factory_demo.Observability.Metrics.{Float}
use factory_demo.HttpApi.Identifier.{is_customer_id, IsCustomerId}
use factory_demo.HttpApi.Mapping.{map_portfolio}
use factory_demo.HttpApi.{
  Content, Writer, Elapsed, Route, Server, respond, handle_portfolio, handle_live, handle_ready,
  handle_prometheus, serve, secured, new_writer, dispatch, write_json, write_error, set_header,
  write_header, write,
}
use factory_demo.HttpApi.Replies.{answer, answer_status_iff, answer_content}

-- The three headers that keep an answer out of caches, frames and guesses at its type.
pub record IsSecured (w : Writer) : Type 0 where
  pub not_stored : lookup (codes "Cache-Control") w.headers ≡ some (codes "no-store")
  pub not_framed :
      lookup (codes "Content-Security-Policy") w.headers
      ≡ some (codes "default-src 'none'; frame-ancestors 'none'")
  pub not_sniffed : lookup (codes "X-Content-Type-Options") w.headers ≡ some (codes "nosniff")

IsSecured-headers : (w w' : Writer) → w'.headers ≡ w.headers → IsSecured w → IsSecured w'
IsSecured-headers w w' e i = record {
  not_stored = rw e i.not_stored;
  not_framed = rw e i.not_framed;
  not_sniffed = rw e i.not_sniffed;
}

typed-IsSecured :
    (value : Text) (w : Writer)
    → IsSecured w
    → IsSecured (set_header (codes "Content-Type") value w)
unfolding text_eq
typed-IsSecured value w i = record {
  not_stored =
      lookup-insert (codes "Content-Type") (codes "Cache-Control") value w.headers ∙ i.not_stored;
  not_framed =
      lookup-insert (codes "Content-Type") (codes "Content-Security-Policy") value w.headers
      ∙ i.not_framed;
  not_sniffed =
      lookup-insert (codes "Content-Type") (codes "X-Content-Type-Options") value w.headers
      ∙ i.not_sniffed;
}

write_header-headers : (n : ℕ) (w : Writer) → (write_header n w).headers ≡ w.headers
write_header-headers n w = elim (Option-cases w.status) [
  | inl e ↦ ground arith
  | inr (m, e) ↦ ground arith
]

write-IsSecured : (content : Content) (w : Writer) → IsSecured w → IsSecured (write content w)
write-IsSecured content w = IsSecured-headers w (write content w) (write_header-headers 200 w)

write_json-IsSecured :
    (n : ℕ) (content : Content) (w : Writer) → IsSecured w → IsSecured (write_json n content w)
unfolding write_json
write_json-IsSecured n content w i =
    let t = set_header (codes "Content-Type") (codes "application/json") w in
    write-IsSecured content (write_header n t)
      (IsSecured-headers t (write_header n t) (write_header-headers n t) (typed-IsSecured _ w i))

secured-IsSecured : (w : Writer) → IsSecured (secured w)
unfolding secured text_eq
secured-IsSecured w = record {
  not_stored =
      lookup-insert (codes "X-Content-Type-Options") (codes "Cache-Control") (codes "nosniff") _
      ∙ lookup-insert (codes "Content-Security-Policy") (codes "Cache-Control") _ _
      ∙ lookup-insert (codes "Cache-Control") (codes "Cache-Control") (codes "no-store") w.headers;
  not_framed =
      lookup-insert (codes "X-Content-Type-Options") (codes "Content-Security-Policy")
        (codes "nosniff") _
      ∙ lookup-insert (codes "Content-Security-Policy") (codes "Content-Security-Policy") _ _;
  not_sniffed =
      lookup-insert (codes "X-Content-Type-Options") (codes "X-Content-Type-Options")
        (codes "nosniff") _;
}

module _ {float : Float} {W : Type 0} (ports : Ports W) (order : List Text → List Text) where
  respond-IsSecured :
      (id : Text) (w : Writer) (s : Server float W)
      → IsSecured w
      → IsSecured (respond ports order id w s).1
  unfolding respond write_error
  respond-IsSecured id w s i = elim (Bool-cases (is_customer_id id)) [
    | inr c ↦ rw c (write_json-IsSecured 400 _ w i)
    | inl c ↦ elim (Result-cases (get ports order id s.world).0) [
      | inl (r, e) ↦ rw c (rw e (write_json-IsSecured 200 _ w i))
      | inr (f, e) ↦ elim (Bool-cases (error_is f Sentinel.customer_not_found)) [
        | inl m ↦ rw c (rw e (rw m (write_json-IsSecured 404 _ w i)))
        | inr m ↦ rw c (rw e (rw m (write_json-IsSecured 502 _ w i)))
      ]
    ]
  ]

  handle_ready-IsSecured :
      (w : Writer) (s : Server float W) → IsSecured w → IsSecured (handle_ready ports w s).0
  unfolding handle_ready write_error
  handle_ready-IsSecured w s i = elim (Result-cases (ready ports s.world).0) [
    | inl (r, e) ↦ rw (e, handle_ready) (write_json-IsSecured 200 _ w i)
    | inr (f, e) ↦ rw (e, handle_ready) (write_json-IsSecured 503 _ w i)
  ]

  dispatch-IsSecured :
      (route : Route) (w : Writer) (s : Server float W)
      → IsSecured w
      → IsSecured (dispatch ports order route w s).0
  unfolding dispatch handle_portfolio handle_live handle_prometheus
  dispatch-IsSecured (Route.customer_portfolio id elapsed) w s i = respond-IsSecured id w s i
  dispatch-IsSecured Route.health_live w s i = write_json-IsSecured 200 _ w i
  dispatch-IsSecured Route.health_ready w s i = handle_ready-IsSecured w s i
  dispatch-IsSecured Route.metrics w s i = write-IsSecured _ _ (typed-IsSecured _ w i)
  dispatch-IsSecured (Route.unmatched status text) w s i =
      write-IsSecured _ _
        (IsSecured-headers w (write_header status w) (write_header-headers status w) i)

  -- Every answer has the three headers, on every route and on requests that no route matches.
  pub serve-IsSecured :
      (route : Route) (s : Server float W) → IsSecured (serve ports order route s).0
  unfolding serve
  serve-IsSecured route s =
      dispatch-IsSecured route (secured new_writer) s (secured-IsSecured new_writer)

  -- Where both ports have answered and the accounts' cash is in int64 amounts of a currency, a
  -- request for the portfolio is answered with 200 exactly if the text is a customer's identifier,
  -- all accounts are of one currency and each position has a price in it at which MarketValue gives
  -- a value.
  pub served_iff :
      (id : Text) (elapsed : Elapsed) (s : Server float W) (accounts : List Account)
      (prices : Dict Price) (world : W)
      → HasLoaded ports order id s.world accounts prices world
      → ((answer ports order id elapsed s).status ≡ some 200)
        ↔ (IsCustomerId id × (code : Text) × All (CanValue prices code) accounts)
  served_iff id elapsed s accounts prices world h =
      let sent = (answer_status_iff ports order id elapsed s).1 in
      let succeeds = get_succeeds_iff ports order id s.world accounts prices world h in
      (
        λ a. let (i, r, e) = sent.0 a in let (code, c) = succeeds.0 (r, e) in (i, code, c),
        λ (i, code, c). let (r, e) = succeeds.1 (code, c) in sent.1 (i, r, e),
      )

  -- Where both ports have answered and the accounts' cash is in int64 amounts of a currency, an
  -- answer with 200 carries the portfolio of the requested customer, aggregated from what the ports
  -- returned.
  pub served-IsPortfolio :
      (id : Text) (elapsed : Elapsed) (s : Server float W) (accounts : List Account)
      (prices : Dict Price) (world : W)
      → HasLoaded ports order id s.world accounts prices world
      → (answer ports order id elapsed s).status ≡ some 200
      → (r : Portfolio) × ((answer ports order id elapsed s).content
          ≡ some (Content.portfolio (map_portfolio r)))
        × IsPortfolio id prices accounts r
  served-IsPortfolio id elapsed s accounts prices world h a =
      let (_, r, e) = (answer_status_iff ports order id elapsed s).1.0 a in
      (
        r,
        answer_content ports order id elapsed s r a e,
        get-IsPortfolio ports order id s.world accounts prices world r h e,
      )

  -- Readiness is answered with 200 exactly if both ports are healthy, the second one asked behind the
  -- first, and with 503 otherwise.
  pub ready_status_iff :
      (s : Server float W)
      → let w = (serve ports order Route.health_ready s).0 in
        let (core, middle) = ports.accounts_healthy s.world in
        ((w.status ≡ some 200) ↔ ((core ≡ ok tt) × ((ports.prices_healthy middle).0 ≡ ok tt)))
        × ((w.status ≡ some 200) ⊎ (w.status ≡ some 503))
  unfolding serve dispatch handle_ready ready secured write_json write_error
  ready_status_iff s = (ground arith, ground arith)
