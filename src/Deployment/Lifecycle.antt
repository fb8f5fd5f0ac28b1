-- ===== src/Deployment/Lifecycle.antt =====
-- RunServer of internal/app/server.go: the server runs until its select takes the listener's result or a
-- signal. Where both are there, either may be taken.
pub mod Outcomes
pub mod Returns
use factory_demo.Base.{List, [], ◌∷◌, Option, none, some, Bool, true, false, if◌then◌else◌}
use factory_demo.Failure.{Failure}

-- What happens outside of the select: the listener puts its result into the channel, and a signal
-- arrives. An error is `none` where it is nil.
pub data Arrival : Type 0 where
  ended : Option Failure → Arrival
  signal : Arrival

-- What happens to the running server: an event, a choice of the select, or the return of the shutdown.
pub data Happening : Type 0 where
  outside : Arrival → Happening
  took_result took_signal : Happening
  shut_down : Option Failure → Happening

-- The results in the channel, and whether a signal has arrived.
pub record Waiting : Type 0 where
  pub results : List (Option Failure)
  pub signaled : Bool

pub data Phase : Type 0 where
  serving stopping : Waiting → Phase
  returned : Option Failure → Phase

abbrev pub start : Phase
start = Phase.serving (record { results = []; signaled = false })

-- An event on what is waiting: the listener sends one result, and later signals change nothing.
pub data Happens : Waiting → Arrival → Waiting → Type 0 where
  ends :
      (e : Option Failure) (signaled : Bool)
      → Happens
          (record { results = []; signaled = signaled })
          (Arrival.ended e)
          (record { results = e ∷ []; signaled = signaled })
  signals :
      (results : List (Option Failure)) (signaled : Bool)
      → Happens
          (record { results = results; signaled = signaled })
          Arrival.signal
          (record { results = results; signaled = true })

module _ (is_closed : Failure → Bool) where
  -- The result of the first case of the select: http.ErrServerClosed, which is the parameter
  -- `is_closed`, is no error.
  unfoldable pub unless_closed : Option Failure → Option Failure
  unless_closed none = none
  unless_closed (some e) = if is_closed e then none else some e

  -- One step of RunServer. What the listener does behind the choice of the signal is not read.
  pub data Step : Phase → Happening → Phase → Type 0 where
    waits :
        {v w : Waiting} {e : Arrival}
        → Happens v e w
        → Step (Phase.serving v) (Happening.outside e) (Phase.serving w)
    takes_result :
        (e : Option Failure) (signaled : Bool)
        → Step
            (Phase.serving (record { results = e ∷ []; signaled = signaled }))
            Happening.took_result
            (Phase.returned (unless_closed e))
    takes_signal :
        (results : List (Option Failure))
        → Step
            (Phase.serving (record { results = results; signaled = true }))
            Happening.took_signal
            (Phase.stopping (record { results = results; signaled = true }))
    ignores :
        {v w : Waiting} {e : Arrival}
        → Happens v e w
        → Step (Phase.stopping v) (Happening.outside e) (Phase.stopping w)
    shuts :
        (v : Waiting) (e : Option Failure)
        → Step (Phase.stopping v) (Happening.shut_down e) (Phase.returned e)

  -- A run from one phase to another, with what happened in order.
  pub data Run : Phase → List Happening → Phase → Type 0 where
    stays : (p : Phase) → Run p [] p
    goes :
        {p q r : Phase} {h : Happening} {hs : List Happening}
        → Step p h q
        → Run q hs r
        → Run p (h ∷ hs) r
