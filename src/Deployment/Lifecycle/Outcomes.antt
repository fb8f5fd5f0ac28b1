-- ===== src/Deployment/Lifecycle/Outcomes.antt =====
-- The two ways in which RunServer of internal/app/server.go returns.
use factory_demo.Base.{
  List, [], ◌∷◌, ◌++◌, ◌≡◌, ◌⊎◌, ◌||◌, inl, inr, refl, sym, Option, none, some, Bool, true, false,
  map, length, ◌≤◌, Bool-cases,
}
use factory_demo.Failure.{Failure}
use factory_demo.Deployment.Lifecycle.{Arrival, Happening, Waiting, unless_closed}

abbrev pub events : List Arrival → List Happening
events es = map (λ e. Happening.outside e) es

-- What the listener returned, and whether a signal arrived.
abbrev pub results_of : List Arrival → List (Option Failure)
results_of [] = []
results_of (Arrival.ended e ∷ es) = e ∷ results_of es
results_of (Arrival.signal ∷ es) = results_of es

abbrev pub has_signal : List Arrival → Bool
has_signal [] = false
has_signal (Arrival.ended _ ∷ es) = has_signal es
has_signal (Arrival.signal ∷ es) = true

module _ (is_closed : Failure → Bool) where
  -- What the server's result says of the listener's: they are the same, but a closed server is no error.
  abbrev pub Tells : Option Failure → Option Failure → Type 0
  Tells none e = e ≡ none
  Tells (some f) e = ((is_closed f ≡ true) × (e ≡ none)) ⊎ ((is_closed f ≡ false) × (e ≡ some f))

  -- The select took the listener's result.
  pub record EndsFrom (w : Waiting) (hs : List Happening) (e : Option Failure) : Type 0 where
    pub before : List Arrival
    pub result : Option Failure
    pub happened : hs ≡ events before ++ Happening.took_result ∷ []
    pub listened : w.results ++ results_of before ≡ result ∷ []
    pub told : Tells result e

  -- The select took the signal, and the server was shut down.
  pub record StopsFrom (w : Waiting) (hs : List Happening) (e : Option Failure) : Type 0 where
    pub before : List Arrival
    pub behind : List Arrival
    pub happened :
        hs ≡ events before ++ Happening.took_signal ∷ (events behind ++ Happening.shut_down e ∷ [])
    pub signaled : (w.signaled || has_signal before) ≡ true
    pub once : length (w.results ++ results_of (before ++ behind)) ≤ 1

  pub Tells-unless_closed : (f : Option Failure) → Tells f (unless_closed is_closed f)
  unfolding unless_closed
  Tells-unless_closed none = refl
  Tells-unless_closed (some f) = elim (Bool-cases (is_closed f)) [
    | inl c ↦ rw c (inl (refl, refl))
    | inr c ↦ rw c (inr (refl, refl))
  ]

  pub unless_closed-Tells : (f e : Option Failure) → Tells f e → unless_closed is_closed f ≡ e
  unfolding unless_closed
  unless_closed-Tells none e h = sym h
  unless_closed-Tells (some f) e (inl (c, h)) = rw c (sym h)
  unless_closed-Tells (some f) e (inr (c, h)) = rw c (sym h)
