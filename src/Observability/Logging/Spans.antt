-- ===== src/Observability/Logging/Spans.antt =====
-- The logger of internal/observability/logger.go leaves the spans of the tracing library alone.
use factory_demo.Base.{ℕ, ◌∷◌, inl, inr, refl, Bool-cases, Option-cases, arith}
use factory_demo.Text.{Text, is_empty}
use factory_demo.Text.Paths.{directory_of, base_of}
use factory_demo.Process.{System, Process, Effect, note, open_with}
use factory_demo.Observability.Logging.{Closer, new_logger, log_into, open_log, close_log}
use factory_demo.Observability.Tracing.Pending.{pending, unwarned, SameSpans}

module _ (system : System) where
  open_log-SameSpans :
      (service name : Text) (root : ℕ) (p : Process)
      → SameSpans system p (open_log system service name root p).1
  unfolding open_log pending unwarned
  open_log-SameSpans service name root p =
      elim (Option-cases (system p.done (Effect.opened_file root name 384))) [
        | inl e ↦ record { same_pending = λ r. ground (arith, e); same_warned = ground (arith, e) }
        | inr (f, e) ↦ record {
          same_pending = λ r. ground (arith, e);
          same_warned = ground (arith, e);
        }
      ]

  pub close_log-SameSpans :
      (closer : Closer) (p : Process) → SameSpans system p (close_log system closer p).1
  unfolding close_log pending unwarned
  close_log-SameSpans Closer.nothing p = record { same_pending = λ r. refl; same_warned = refl }
  close_log-SameSpans (Closer.file_and_root file root) p = record {
    same_pending = λ r. refl;
    same_warned = refl;
  }

  log_into-SameSpans :
      (service directory name : Text) (p : Process)
      → SameSpans system p (log_into system service directory name p).1
  unfolding log_into pending unwarned
  log_into-SameSpans service directory name p =
      let made = Effect.made_directory directory 488 in
      let opens = Effect.opened_root directory in
      elim (Option-cases (system p.done made)) [
        | inl e ↦ elim (Option-cases (system (made ∷ p.done) opens)) [
          | inl f ↦
              let s =
                open_log-SameSpans service name p.next (open_with system opens (note made p)).1 in
              record {
                same_pending = λ r. ground (arith, e, f, s.same_pending r);
                same_warned = ground (arith, e, f, s.same_warned);
              }
          | inr (g, f) ↦ record {
            same_pending = λ r. ground (arith, e, f);
            same_warned = ground (arith, e, f);
          }
        ]
        | inr (f, e) ↦ record {
          same_pending = λ r. ground (arith, e);
          same_warned = ground (arith, e);
        }
      ]

  pub new_logger-SameSpans :
      (service path : Text) (p : Process) → SameSpans system p (new_logger system service path p).1
  unfolding new_logger
  new_logger-SameSpans service path p = elim (Bool-cases (is_empty path)) [
    | inl e ↦ record { same_pending = λ r. ground (arith, e); same_warned = ground (arith, e) }
    | inr e ↦
        let s = log_into-SameSpans service (directory_of path) (base_of path) p in
        record {
          same_pending = λ r. ground (arith, e, s.same_pending r);
          same_warned = ground (arith, e, s.same_warned);
        }
  ]
