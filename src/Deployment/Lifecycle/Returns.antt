-- ===== src/Deployment/Lifecycle/Returns.antt =====
-- When RunServer of internal/app/server.go returns, and with which result.
use mathlib.Core.Path.{subst}
use factory_demo.Base.{
  List, [], ◌∷◌, ◌++◌, ◌≡◌, ◌⊎◌, ◌↔◌, ◌||◌, inl, inr, refl, sym, ap, ◌∙◌, Option, Bool, true, false,
  length, ◌≤◌, append-nil, length-append, arith,
}
use factory_demo.Failure.{Failure}
use factory_demo.Deployment.Lifecycle.{
  Arrival, Happening, Waiting, Phase, start, unless_closed, Happens, ends, signals, waits,
  takes_result, takes_signal, ignores, shuts, Run, stays, goes,
}
use factory_demo.Deployment.Lifecycle.Outcomes.{
  events, results_of, has_signal, Tells, EndsFrom, StopsFrom, Tells-unless_closed,
  unless_closed-Tells,
}

module _ (is_closed : Failure → Bool) where
  returned_stays :
      (hs : List Happening) (e f : Option Failure)
      → Run is_closed (Phase.returned e) hs (Phase.returned f)
      → (hs ≡ []) × (e ≡ f)
  returned_stays [] e _ (stays _) = (refl, refl)
  returned_stays (h ∷ hs) e f (goes step run) = elim step [ ]

  -- An event on what is waiting is one of those that a list of events counts.
  Happens-results :
      (v w : Waiting) (ev : Arrival) (es : List Arrival)
      → Happens v ev w
      → w.results ++ results_of es ≡ v.results ++ results_of (ev ∷ es)
  Happens-results _ _ _ es (ends e signaled) = refl
  Happens-results _ _ _ es (signals results signaled) = refl

  Happens-signaled :
      (v w : Waiting) (ev : Arrival) (es : List Arrival)
      → Happens v ev w
      → (w.signaled || has_signal es) ≡ (v.signaled || has_signal (ev ∷ es))
  Happens-signaled _ _ _ es (ends e signaled) = refl
  Happens-signaled _ _ _ es (signals results false) = refl
  Happens-signaled _ _ _ es (signals results true) = refl

  Happens-once :
      (v w : Waiting) (ev : Arrival) → Happens v ev w → length v.results ≤ 1 → length w.results ≤ 1
  Happens-once _ _ _ (ends e signaled) h = omega arith
  Happens-once _ _ _ (signals results signaled) h = h

  EndsFrom-next :
      (v w : Waiting) (ev : Arrival) (hs : List Happening) (e : Option Failure)
      → Happens v ev w
      → EndsFrom is_closed w hs e
      → EndsFrom is_closed v (Happening.outside ev ∷ hs) e
  EndsFrom-next v w ev hs e h r = record {
    before = ev ∷ r.before;
    result = r.result;
    happened = ap (λ ks. Happening.outside ev ∷ ks) r.happened;
    listened = sym (Happens-results v w ev r.before h) ∙ r.listened;
    told = r.told;
  }

  StopsFrom-next :
      (v w : Waiting) (ev : Arrival) (hs : List Happening) (e : Option Failure)
      → Happens v ev w
      → StopsFrom is_closed w hs e
      → StopsFrom is_closed v (Happening.outside ev ∷ hs) e
  StopsFrom-next v w ev hs e h r = record {
    before = ev ∷ r.before;
    behind = r.behind;
    happened = ap (λ ks. Happening.outside ev ∷ ks) r.happened;
    signaled = sym (Happens-signaled v w ev r.before h) ∙ r.signaled;
    once = subst (λ rs. length rs ≤ 1) (Happens-results v w ev (r.before ++ r.behind) h) r.once;
  }

  stopping-Run :
      (v : Waiting) (hs : List Happening) (e : Option Failure)
      → length v.results ≤ 1
      → Run is_closed (Phase.stopping v) hs (Phase.returned e)
      → (es : List Arrival) × (hs ≡ events es ++ Happening.shut_down e ∷ [])
        × (length (v.results ++ results_of es) ≤ 1)
  stopping-Run v [] e k run = elim run [ ]
  stopping-Run v (_ ∷ hs) e k (goes (ignores {w = w} {e = ev} h) run) =
      let (es, same, once) = stopping-Run w hs e (Happens-once v w ev h k) run in
      (
        ev ∷ es,
        ap (λ ks. Happening.outside ev ∷ ks) same,
        subst (λ rs. length rs ≤ 1) (Happens-results v w ev es h) once,
      )
  stopping-Run v (_ ∷ hs) e k (goes (shuts _ f) run) =
      let (none_left, same) = returned_stays hs f e run in
      ([], cc (none_left, same), rw append-nil k)

  serving-Run :
      (v : Waiting) (hs : List Happening) (e : Option Failure)
      → length v.results ≤ 1
      → Run is_closed (Phase.serving v) hs (Phase.returned e)
      → EndsFrom is_closed v hs e ⊎ StopsFrom is_closed v hs e
  serving-Run v [] e k run = elim run [ ]
  serving-Run v (_ ∷ hs) e k (goes (waits {w = w} {e = ev} h) run) =
      elim (serving-Run w hs e (Happens-once v w ev h k) run) [
        | inl r ↦ inl (EndsFrom-next v w ev hs e h r)
        | inr r ↦ inr (StopsFrom-next v w ev hs e h r)
      ]
  serving-Run _ (_ ∷ hs) e k (goes (takes_result f signaled) run) =
      let (none_left, same) = returned_stays hs (unless_closed is_closed f) e run in
      inl (record {
        before = [];
        result = f;
        happened = ap (λ ks. Happening.took_result ∷ ks) none_left;
        listened = refl;
        told = subst (Tells is_closed f) same (Tells-unless_closed is_closed f);
      })
  serving-Run _ (_ ∷ hs) e k (goes (takes_signal results) run) =
      let (es, same, once) =
        stopping-Run (record { results = results; signaled = true }) hs e k run in
      inr (record {
        before = [];
        behind = es;
        happened = ap (λ ks. Happening.took_signal ∷ ks) same;
        signaled = refl;
        once = once;
      })

  no_second : {A : Type 0} (x y : A) (xs ys : List A) → ¬ (length (x ∷ (xs ++ y ∷ ys)) ≤ 1)
  no_second x y xs ys h = omega (arith, h, length-append xs (y ∷ ys))

  ends_returns :
      (rs : List (Option Failure)) (s : Bool) (before : List Arrival) (f e : Option Failure)
      → rs ++ results_of before ≡ f ∷ []
      → Tells is_closed f e
      → Run is_closed
          (Phase.serving (record { results = rs; signaled = s }))
          (events before ++ Happening.took_result ∷ [])
          (Phase.returned e)
  ends_returns [] s [] f e h k = absurd (ground (arith, h))
  ends_returns (g ∷ []) s [] f e h k =
      let same : g ≡ f = cc h in
      rw (← unless_closed-Tells is_closed f e k)
        (rw same (goes (takes_result f s) (stays (Phase.returned (unless_closed is_closed f)))))
  ends_returns (g ∷ g' ∷ rs) s [] f e h k = absurd (ground (arith, h))
  ends_returns [] s (Arrival.ended g ∷ es) f e h k =
      goes (waits (ends g s)) (ends_returns (g ∷ []) s es f e h k)
  ends_returns (g' ∷ rs) s (Arrival.ended g ∷ es) f e h k =
      absurd (no_second g' g rs (results_of es) (subst (λ xs. length xs ≤ 1) (sym h) (omega arith)))
  ends_returns rs s (Arrival.signal ∷ es) f e h k =
      goes (waits (signals rs s)) (ends_returns rs true es f e h k)

  shuts_returns :
      (rs : List (Option Failure)) (s : Bool) (behind : List Arrival) (e : Option Failure)
      → length (rs ++ results_of behind) ≤ 1
      → Run is_closed
          (Phase.stopping (record { results = rs; signaled = s }))
          (events behind ++ Happening.shut_down e ∷ [])
          (Phase.returned e)
  shuts_returns rs s [] e h = goes (shuts _ e) (stays (Phase.returned e))
  shuts_returns [] s (Arrival.ended g ∷ es) e h =
      goes (ignores (ends g s)) (shuts_returns (g ∷ []) s es e h)
  shuts_returns (g' ∷ rs) s (Arrival.ended g ∷ es) e h =
      absurd (no_second g' g rs (results_of es) h)
  shuts_returns rs s (Arrival.signal ∷ es) e h =
      goes (ignores (signals rs s)) (shuts_returns rs true es e h)

  stops_returns :
      (rs : List (Option Failure)) (s : Bool) (before behind : List Arrival) (e : Option Failure)
      → (s || has_signal before) ≡ true
      → length (rs ++ results_of (before ++ behind)) ≤ 1
      → Run is_closed
          (Phase.serving (record { results = rs; signaled = s }))
          (events before ++ Happening.took_signal ∷ (events behind ++ Happening.shut_down e ∷ []))
          (Phase.returned e)
  stops_returns rs true [] behind e h k = goes (takes_signal rs) (shuts_returns rs true behind e k)
  stops_returns rs false [] behind e h k = absurd (ground (arith, h))
  stops_returns [] s (Arrival.ended g ∷ es) behind e h k =
      goes (waits (ends g s)) (stops_returns (g ∷ []) s es behind e h k)
  stops_returns (g' ∷ rs) s (Arrival.ended g ∷ es) behind e h k =
      absurd (no_second g' g rs (results_of (es ++ behind)) k)
  stops_returns rs s (Arrival.signal ∷ es) behind e h k =
      goes (waits (signals rs s)) (stops_returns rs true es behind e refl k)

  -- The server returns e exactly in two cases. The listener's result was there and the select took it,
  -- and e is that result, or nil if it says that the server was closed, whether or not a signal had come
  -- as well. Or a signal had come and the select took that, whether or not the listener's result was
  -- there, and e is the result of the shutdown behind it. The listener has one result at most.
  pub Run-returned_iff :
      (hs : List Happening) (e : Option Failure)
      → Run is_closed start hs (Phase.returned e) ↔ (
          EndsFrom is_closed (record { results = []; signaled = false }) hs e
          ⊎ StopsFrom is_closed (record { results = []; signaled = false }) hs e)
  Run-returned_iff hs e = (
    serving-Run (record { results = []; signaled = false }) hs e (omega arith),
    λ r. elim r [
      | inl i ↦ rw i.happened (ends_returns [] false i.before i.result e i.listened i.told)
      | inr i ↦ rw i.happened (stops_returns [] false i.before i.behind e i.signaled i.once)
    ],
  )
