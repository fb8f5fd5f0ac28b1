-- ===== src/HttpApi/Routes/Reached.antt =====
-- Which requests reach the handlers of internal/httpapi/handler.go.
use factory_demo.Base.{
  ℕ, List, ◌∷◌, [], ◌++◌, ◌≡◌, ◌↔◌, refl, ap, ◌∙◌, Bool, Bool-cases, true, false, Option, some,
  none, arith, inl, inr, if◌then◌else◌, ◌||◌,
}
use mathlib.Core.Path.{subst}
use factory_demo.Text.{Text, codes, text_eq}
use factory_demo.Text.Order.{text_eq_iff}
use factory_demo.Portfolio.Service.{Ports}
use factory_demo.Observability.Metrics.{Float}
use factory_demo.Routing.{Part, Choice, is_get, clean_path, segments, lookup, chosen, choose}
use factory_demo.Routing.Matches.{lookup_first, lookup-cases}
use factory_demo.Routing.Reads.{
  Matches, matched-Matches, Matches-matched, wildcards, Matches-wildcards,
}
use factory_demo.HttpApi.{Elapsed, Route, Server, serve}
use factory_demo.HttpApi.Routes.{only_value, at, entries, route_of, serve_request}

-- What the pattern of the portfolio handler says of a path's segments.
abbrev pub portfolio_parts : List Part
portfolio_parts =
    at (codes "api" ∷ codes "v1" ∷ codes "customers" ∷ [])
    ++ Part.wildcard ∷ Part.literal (codes "portfolio") ∷ []

abbrev pub IsPortfolioPath : Text → List Text → Type 0
IsPortfolioPath id ss = Matches portfolio_parts ss (id ∷ [])

lookup-IsPortfolioPath :
    (ss : List Text) (id : Text) (elapsed : Elapsed)
    → IsPortfolioPath id ss
    → (endpoint : Elapsed → Route) × (lookup entries ss ≡ some endpoint)
      × (endpoint elapsed ≡ Route.customer_portfolio id elapsed)
unfolding entries
lookup-IsPortfolioPath ss id elapsed h =
    (_, lookup_first _ _ ss (id ∷ []) (matched-Matches portfolio_parts ss (id ∷ []) h), refl)

one_wildcard : wildcards portfolio_parts ≡ 1
unfolding wildcards
one_wildcard = refl

only_value-IsPortfolioPath :
    (ss values : List Text) (id : Text)
    → Matches portfolio_parts ss values
    → only_value values ≡ id
    → IsPortfolioPath id ss
only_value-IsPortfolioPath ss [] id h e =
    absurd (ground (arith, one_wildcard, Matches-wildcards portfolio_parts ss [] h))
only_value-IsPortfolioPath ss (v ∷ []) id h e = subst (λ t. Matches portfolio_parts ss (t ∷ [])) e h
only_value-IsPortfolioPath ss (v ∷ w ∷ vs) id h e =
    absurd (ground (arith, one_wildcard, Matches-wildcards portfolio_parts ss (v ∷ w ∷ vs) h))

lookup-entries-IsPortfolioPath :
    (ss : List Text) (id : Text) (elapsed : Elapsed) (endpoint : Elapsed → Route)
    → lookup entries ss ≡ some endpoint
    → endpoint elapsed ≡ Route.customer_portfolio id elapsed
    → IsPortfolioPath id ss
unfolding entries
lookup-entries-IsPortfolioPath ss id elapsed endpoint h k = elim (lookup-cases _ _ ss endpoint h) [
  | inl (values, matches, same) ↦
      let route : Route.customer_portfolio (only_value values) elapsed
          ≡ Route.customer_portfolio id elapsed =
        ap (λ f. f elapsed) same ∙ k in
      only_value-IsPortfolioPath ss values id (Matches-matched portfolio_parts ss values matches)
        (cc route)
  | inr h1 ↦ elim (lookup-cases _ _ ss endpoint h1) [
    | inl (values, matches, same) ↦ absurd (ground (arith, ap (λ f. f elapsed) same ∙ k))
    | inr h2 ↦ elim (lookup-cases _ _ ss endpoint h2) [
      | inl (values, matches, same) ↦ absurd (ground (arith, ap (λ f. f elapsed) same ∙ k))
      | inr h3 ↦ elim (lookup-cases _ _ ss endpoint h3) [
        | inl (values, matches, same) ↦ absurd (ground (arith, ap (λ f. f elapsed) same ∙ k))
        | inr h4 ↦ absurd (unfold lookup in ground (arith, h4))
      ]
    ]
  ]
]

-- A GET or HEAD request is no CONNECT request.
get_other : (method : Text) → is_get method ≡ true → text_eq method (codes "CONNECT") ≡ false
get_other method h = elim (Bool-cases (text_eq method (codes "CONNECT"))) [
  | inr other ↦ other
  | inl connect ↦
      let same : method ≡ codes "CONNECT" = (text_eq_iff method (codes "CONNECT")).0 connect in
      let no_get : is_get (codes "CONNECT") ≡ false = unfold is_get text_eq in refl in
      absurd (cc (ap is_get same, no_get, h))
]

module _ (redirected : Text → ℕ × Text) where
  chosen-cases :
      (get : Bool) (o : Option (Elapsed → Route)) (id : Text) (elapsed : Elapsed)
      → route_of redirected (chosen get o) elapsed ≡ Route.customer_portfolio id elapsed
      → (get ≡ true)
        × (endpoint : Elapsed → Route) × (o ≡ some endpoint)
        × (endpoint elapsed ≡ Route.customer_portfolio id elapsed)
  chosen-cases get none id elapsed h = absurd (ground (arith, h))
  chosen-cases false (some endpoint) id elapsed h = absurd (ground (arith, h))
  chosen-cases true (some endpoint) id elapsed h = (refl, endpoint, refl, h)

  route_of-cases :
      (direct : Bool) (path : Text) (choice : Choice (Elapsed → Route)) (id : Text)
      (elapsed : Elapsed)
      → route_of redirected (if direct then choice else Choice.redirect path) elapsed
        ≡ Route.customer_portfolio id elapsed
      → (direct ≡ true) × (route_of redirected choice elapsed ≡ Route.customer_portfolio id elapsed)
  route_of-cases true path choice id elapsed h = (refl, h)
  route_of-cases false path choice id elapsed h = absurd (ground (arith, h))

  -- A request reaches the portfolio handler for a customer exactly if its method is GET or HEAD, its path
  -- is one that cleaning leaves as it is, and the path's segments stand for "api", "v1", "customers", that
  -- customer's text and "portfolio", of which the text's is not empty and the text is not "/".
  pub route_iff :
      (method path id : Text) (elapsed : Elapsed)
      → (route_of redirected (choose entries method path) elapsed
          ≡ Route.customer_portfolio id elapsed)
        ↔ ((is_get method ≡ true) × (clean_path path ≡ path) × IsPortfolioPath id (segments path))
  unfolding choose
  route_iff method path id elapsed = (
    λ h.
        let (direct, h1) =
          route_of-cases (text_eq method (codes "CONNECT") || text_eq (clean_path path) path)
            (clean_path path) (chosen (is_get method) (lookup entries (segments path))) id elapsed
            h in
        let (get, endpoint, found, same) =
          chosen-cases (is_get method) (lookup entries (segments path)) id elapsed h1 in
        let clean : text_eq (clean_path path) path ≡ true =
          ground (arith, direct, get_other method get) in
        (
          get,
          (text_eq_iff (clean_path path) path).0 clean,
          lookup-entries-IsPortfolioPath (segments path) id elapsed endpoint found same,
        ),
    λ h.
        let (endpoint, found, same) = lookup-IsPortfolioPath (segments path) id elapsed h.2 in
        rw (get_other method h.0)
          (rw ((text_eq_iff (clean_path path) path).1 h.1) (rw h.0 (rw found same))),
  )

  answered-cases :
      (direct : Bool) (path : Text) (o : Option (Elapsed → Route)) (elapsed : Elapsed)
      → (status : ℕ) × (text : Text) × (route_of redirected
            (if direct then chosen false o else Choice.redirect path)
            elapsed
          ≡ Route.unmatched status text)
  answered-cases true path none elapsed = (_, _, refl)
  answered-cases true path (some endpoint) elapsed = (_, _, refl)
  answered-cases false path o elapsed = (_, _, refl)

  -- The routes of the answers that the ServeMux makes itself.
  route_of_other :
      (method path : Text) (elapsed : Elapsed)
      → is_get method ≡ false
      → (status : ℕ) × (text : Text) × (route_of redirected (choose entries method path) elapsed
          ≡ Route.unmatched status text)
  unfolding choose
  route_of_other method path elapsed h = rw h (
      answered-cases (text_eq method (codes "CONNECT") || text_eq (clean_path path) path)
        (clean_path path) (lookup entries (segments path)) elapsed)

  -- A request that is neither GET nor HEAD leaves the counters, the log and the world as they are.
  pub serve_request_other :
      {float : Float} {W : Type 0} (ports : Ports W) (order : List Text → List Text)
      (method path : Text) (elapsed : Elapsed) (s : Server float W)
      → is_get method ≡ false
      → (serve_request redirected ports order method path elapsed s).1 ≡ s
  unfolding serve_request
  serve_request_other ports order method path elapsed s h =
      let (status, text, route) = route_of_other method path elapsed h in
      ap (λ r. (serve ports order r s).1) route ∙ unfold serve in refl
