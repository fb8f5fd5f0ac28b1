-- ===== src/Observability/Tracing/Pending.antt =====
-- What SetupTracing leaves to be done: providers that are set and not yet called to flush their spans and
-- to stop, and errors of these calls that no warning tells of.
use factory_demo.Base.{
  List, [], ◌∷◌, ◌++◌, ◌≡◌, Bool, true, false, Bool-cases, Option-cases, inl, inr, Result, Option,
  none, some, ◌&&◌, ◌||◌, if◌then◌else◌, ◌∙◌, ok, err,
}
use mathlib.Core.Path.{subst}
use factory_demo.Text.{Text, codes, is_empty, text_eq}
use factory_demo.Failure.{Failure}
use factory_demo.Process.{System, Process, Effect, Provider, Line, Level}
use factory_demo.Observability.Tracing.{Shutdown, setup_tracing}

-- The two providers are the same, by their endpoint and their service.
abbrev pub same_provider : Provider → Provider → Bool
same_provider p q = text_eq p.endpoint q.endpoint && text_eq p.service q.service

-- The provider was set, and ForceFlush was not called on it since.
unfoldable pub unflushed : Provider → List Effect → Bool
unfolding text_eq
unflushed q [] = false
unflushed q (Effect.set_provider p ∷ es) =
    let earlier = unflushed q es in if same_provider p q then true else earlier
unflushed q (Effect.flushed p ∷ es) =
    let earlier = unflushed q es in if same_provider p q then false else earlier
unflushed q (_ ∷ es) = unflushed q es

-- The provider was set, and not since called for ForceFlush and then for Shutdown.
unfoldable pub pending : Provider → List Effect → Bool
unfolding unflushed
pending q [] = false
pending q (Effect.set_provider p ∷ es) =
    let earlier = pending q es in if same_provider p q then true else earlier
pending q (Effect.stopped p ∷ es) =
    let earlier = pending q es in if same_provider p q then unflushed q es else earlier
pending q (_ ∷ es) = pending q es

-- The warning of main about the shutdown of tracing.
abbrev is_warning : Line → Bool
is_warning line = elim line.level [
  | Level.debug ↦ false
  | Level.info ↦ false
  | Level.warn ↦ text_eq line.message (codes "shutdown tracing")
  | Level.error ↦ false
]

abbrev pub is_some : Option Failure → Bool
is_some none = false
is_some (some _) = true

module _ (system : System) where
  -- ForceFlush or Shutdown has answered with an error, and no warning was logged since.
  unfoldable pub unwarned : List Effect → Bool
  unfolding text_eq
  unwarned [] = false
  unwarned (Effect.flushed p ∷ es) =
      let earlier = unwarned es in is_some (system es (Effect.flushed p)) || earlier
  unwarned (Effect.stopped p ∷ es) =
      let earlier = unwarned es in is_some (system es (Effect.stopped p)) || earlier
  unwarned (Effect.wrote sink line ∷ es) =
      let earlier = unwarned es in if is_warning line then false else earlier
  unwarned (_ ∷ es) = unwarned es

  -- Two histories that leave the same to be done.
  pub record SameSpans (p q : Process) : Type 0 where
    pub same_pending : (r : Provider) → pending r q.done ≡ pending r p.done
    pub same_warned : unwarned q.done ≡ unwarned p.done

  -- Nothing is left to be done.
  pub record Finished (p : Process) : Type 0 where
    pub none_pending : (r : Provider) → pending r p.done ≡ false
    pub warned : unwarned p.done ≡ false

  -- Nothing is left but for one provider.
  pub record FinishedBut (provider : Provider) (p : Process) : Type 0 where
    pub others : (r : Provider) → same_provider provider r ≡ false → pending r p.done ≡ false
    pub warned : unwarned p.done ≡ false

  pub SameSpans-Finished : (p q : Process) → SameSpans p q → Finished p → Finished q
  SameSpans-Finished p q s f = record {
    none_pending = λ r. s.same_pending r ∙ f.none_pending r;
    warned = s.same_warned ∙ f.warned;
  }

  -- What has to hold before tracing is shut down.
  abbrev pub Ready : Shutdown → Process → Type 0
  Ready Shutdown.no_tracing p = Finished p
  Ready (Shutdown.of_provider provider) p = FinishedBut provider p

  abbrev pub ReadyBehind : Result Failure Shutdown × Process → Type 0
  ReadyBehind (err e, p) = Unit
  ReadyBehind (ok shutdown, p) = Ready shutdown p

  abbrev exporter_of : Text → Effect
  exporter_of endpoint = Effect.made_exporter (endpoint ++ codes "/v1/traces") 3000000000

  -- The provider is set behind the calls that make it.
  set_but :
      (service endpoint : Text) (p : Process)
      → Finished p
      → FinishedBut
          (record { endpoint = endpoint; service = service })
          (record p {
            done =
                Effect.ignored_tracing_errors
                ∷ Effect.set_provider (record { endpoint = endpoint; service = service })
                ∷ Effect.made_resource service
                ∷ exporter_of endpoint
                ∷ p.done;
          })
  unfolding pending unwarned
  set_but service endpoint p h = record {
    others = λ r other. rw other (h.none_pending r);
    warned = h.warned;
  }

  pub setup_tracing-ReadyBehind :
      (service endpoint : Text) (p : Process)
      → Finished p
      → ReadyBehind (setup_tracing system service endpoint p)
  unfolding setup_tracing
  setup_tracing-ReadyBehind service endpoint p h = elim (Bool-cases (is_empty endpoint)) [
    | inl e ↦ rw e h
    | inr e ↦ elim (Option-cases (system p.done (exporter_of endpoint))) [
      | inl f ↦
          elim (Option-cases
            (system (exporter_of endpoint ∷ p.done) (Effect.made_resource service))) [
              | inl g ↦ rw e (rw f (rw g (set_but service endpoint p h)))
              | inr (d, g) ↦ rw e (rw f (rw g tt))
            ]
      | inr (d, f) ↦ rw e (rw f tt)
    ]
  ]

  pub made-Ready :
      (made : Result Failure Shutdown) (p : Process) (shutdown : Shutdown)
      → ReadyBehind (made, p)
      → made ≡ ok shutdown
      → Ready shutdown p
  made-Ready made p shutdown h e = subst (λ r. ReadyBehind (r, p)) e h

  pub noted :
      (shutdown : Shutdown) (p q : Process) → SameSpans p q → Ready shutdown p → Ready shutdown q
  noted Shutdown.no_tracing p q s h = SameSpans-Finished p q s h
  noted (Shutdown.of_provider provider) p q s h = record {
    others = λ r other. s.same_pending r ∙ h.others r other;
    warned = s.same_warned ∙ h.warned;
  }
