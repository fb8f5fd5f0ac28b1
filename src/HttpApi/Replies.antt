-- ===== src/HttpApi/Replies.antt =====
-- The answers of the portfolio handler: which status, what it tells, and what it counts and logs.
use mathlib.Core.Path.{ap₂}
use factory_demo.Base.{
  ℕ, List, [], ◌∷◌, ◌++◌, ◌==◌, ◌≡◌, ◌≢◌, ◌↔◌, inl, inr, sym, ap, ◌∙◌, Bool, true, false, some,
  Result, ok, err, arith, Bool-cases, Result-cases, if◌then◌else◌,
}
use factory_demo.Base.Int.{quot}
use factory_demo.Text.{Text, codes}
use factory_demo.Failure.{Failure, error_is, fails_with, Sentinel}
use factory_demo.Domain.Values.{Portfolio}
use factory_demo.Portfolio.Service.{Ports, get}
use factory_demo.Observability.Metrics.{Float, observe}
use factory_demo.HttpApi.Identifier.{is_customer_id, IsCustomerId, is_customer_id_iff}
use factory_demo.HttpApi.Mapping.{map_portfolio}
use factory_demo.HttpApi.{
  Content, Writer, Event, Elapsed, Route, Server, respond, complete, handle_portfolio, serve,
  secured, new_writer, dispatch, write_json, write_error, completed,
}

-- The status that the contract gives to a customer's identifier and a result of the service.
abbrev pub status_for : Bool → Result Failure Portfolio → ℕ
status_for false r = 400
status_for true (ok r) = 200
status_for true (err e) = if error_is e Sentinel.customer_not_found then 404 else 502

-- The error answer with a status.
refusal : ℕ → Writer
refusal n =
    if n == 400
    then write_error 400 (codes "INVALID_CUSTOMER_ID")
        (codes "customerId must match cust- followed by 4 to 12 digits") (secured new_writer)
    else if n == 404
    then write_error 404 (codes "CUSTOMER_NOT_FOUND") (codes "customer portfolio was not found")
        (secured new_writer)
    else write_error 502 (codes "UPSTREAM_FAILURE")
        (codes "portfolio data is temporarily unavailable") (secured new_writer)

module _ {float : Float} {W : Type 0} (ports : Ports W) (order : List Text → List Text) (id : Text)
    (elapsed : Elapsed) (s : Server float W) where
  -- A request for the portfolio, its answer and the server behind it.
  abbrev pub answer : Writer
  answer = (serve ports order (Route.customer_portfolio id elapsed) s).0

  abbrev pub behind : Server float W
  behind = (serve ports order (Route.customer_portfolio id elapsed) s).1

  abbrev result : Result Failure Portfolio
  result = (get ports order id s.world).0

  respond_status :
      (w : Writer) → (respond ports order id w s).0 ≡ status_for (is_customer_id id) result
  unfolding respond
  respond_status w = ground arith

  respond_metrics : (w : Writer) → (respond ports order id w s).2.metrics ≡ s.metrics
  unfolding respond
  respond_metrics w = ground arith

  pub answer_status : answer.status ≡ some (status_for (is_customer_id id) result)
  unfolding serve dispatch handle_portfolio respond secured write_json write_error
  answer_status = ground arith

  refused_status :
      is_customer_id id ≡ true
      → (f g : Failure) → result ≡ err f
      → result ≡ err g
      → error_is g Sentinel.customer_not_found ≡ false
      → answer.status ≡ some 502
  refused_status c f g e e' q = ground (arith, answer_status)

  -- The status of the answer is 400 exactly for a text that is no identifier of a customer; for an
  -- identifier it is 200 exactly where the service returns a portfolio, 404 where it fails with the
  -- sentinel of a missing customer, and 502 where it fails otherwise.
  pub answer_status_iff :
      ((answer.status ≡ some 400) ↔ (¬ IsCustomerId id))
      × ((answer.status ≡ some 200) ↔ (IsCustomerId id × (r : Portfolio) × (result ≡ ok r)))
      × ((answer.status ≡ some 404)
          ↔ (IsCustomerId id × (fails_with result Sentinel.customer_not_found ≡ true)))
      × ((answer.status ≡ some 502) ↔ (
          IsCustomerId id
          × (e : Failure) × (result ≡ err e)
          × (error_is e Sentinel.customer_not_found ≡ false)))
  answer_status_iff =
      let sent = answer_status in
      let checked = is_customer_id_iff id in
      elim (Bool-cases (is_customer_id id)) [
        | inr c ↦ ground (arith, sent, checked)
        | inl c ↦ elim (Result-cases result) [
          | inl (r, e) ↦ (
            ground (arith, sent, checked),
            (λ _. (checked.0 c, r, e), λ _. ground (arith, sent, checked)),
            ground (arith, sent, checked),
            ground (arith, sent, checked),
          )
          | inr (f, e) ↦ (
            ground (arith, sent, checked),
            ground (arith, sent, checked),
            ground (arith, sent, checked),
            (
              (λ h. (checked.0 c, f, e, ground (arith, sent))),
              λ (i, g, e', q). refused_status c f g e e' q,
            ),
          )
        ]
      ]

  -- Each request is observed once, with the status that was sent and the time it took, and its last
  -- event in the log is its completion with that status.
  pub answer_observed :
      (n : ℕ)
      → answer.status ≡ some n
      → (behind.metrics ≡ observe float n elapsed.observed s.metrics)
        × ((earlier : List Event) × (behind.log
              ≡ earlier ++ completed n (quot elapsed.logged 1000000) ∷ []))
  unfolding serve dispatch handle_portfolio complete
  answer_observed n h =
      let w = secured new_writer in
      let same : (respond ports order id w s).0 ≡ n =
        ground (arith, respond_status w, answer_status) in
      (
        ap₂ (λ m t. observe float m elapsed.observed t) same (respond_metrics w),
        (
          (respond ports order id w s).2.log,
          ap
              (λ m.
                (respond ports order id w s).2.log
                ++ completed m (quot elapsed.logged 1000000) ∷ [])
              same,
        ),
      )

  -- A request with a text that is no identifier reaches neither port: the world stays as it is.
  pub answer_unchecked : ¬ IsCustomerId id → behind.world ≡ s.world
  unfolding serve dispatch handle_portfolio respond complete secured write_json write_error
  answer_unchecked h = ground (arith, is_customer_id_iff id)

  -- A request that is answered with 200 is answered with the portfolio that the service returned.
  pub answer_content :
      (r : Portfolio)
      → answer.status ≡ some 200
      → result ≡ ok r
      → answer.content ≡ some (Content.portfolio (map_portfolio r))
  unfolding serve dispatch handle_portfolio respond secured write_json write_error
  answer_content r h e = ground (arith)

  answer_refused : (n : ℕ) → answer.status ≡ some n → n ≢ 200 → answer ≡ refusal n
  unfolding serve dispatch handle_portfolio respond secured write_json write_error refusal
  answer_refused n h k = ground (arith)

-- What an error answer tells depends on its status alone: two requests with the same status other
-- than 200 get the same answer, whatever their texts, the upstream errors and the data loaded.
pub answers_agree :
    {float : Float} {W W' : Type 0} (ports : Ports W) (ports' : Ports W')
    (order order' : List Text → List Text) (id id' : Text) (elapsed elapsed' : Elapsed)
    (s : Server float W) (s' : Server float W') (n : ℕ)
    → n ≢ 200
    → (answer ports order id elapsed s).status ≡ some n
    → (answer ports' order' id' elapsed' s').status ≡ some n
    → answer ports order id elapsed s ≡ answer ports' order' id' elapsed' s'
answers_agree ports ports' order order' id id' elapsed elapsed' s s' n k h h' =
    answer_refused ports order id elapsed s n h k
    ∙ sym (answer_refused ports' order' id' elapsed' s' n h' k)
