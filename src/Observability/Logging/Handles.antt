-- ===== src/Observability/Logging/Handles.antt =====
-- The handles that NewLogger opens.
use factory_demo.Base.{
  ℕ, ap, ◌∙◌, List, ◌∷◌, ◌≡◌, inl, inr, refl, Result, ok, err, arith, Bool-cases, Option-cases,
}
use factory_demo.Text.{Text, is_empty}
use factory_demo.Text.Paths.{base_of, directory_of}
use factory_demo.Failure.{Failure}
use factory_demo.Process.{Logger, Effect, System, Process, note, open_with}
use factory_demo.Observability.Logging.{Closer, open_log, log_into, new_logger, close_log}

-- The handles that are open behind a call of NewLogger.
abbrev pub handles_after : List ℕ → Result Failure (Logger × Closer) → List ℕ
handles_after hs (err e) = hs
handles_after hs (ok (logger, Closer.nothing)) = hs
handles_after hs (ok (logger, Closer.file_and_root file root)) = file ∷ root ∷ hs

module _ (system : System) where
  open_log-handles :
      (service name : Text) (root : ℕ) (hs : List ℕ) (p : Process)
      → p.handles ≡ root ∷ hs
      → let opened = open_log system service name root p in
        opened.1.handles ≡ handles_after hs opened.0
  unfolding open_log
  open_log-handles service name root hs p h =
      elim (Option-cases (system p.done (Effect.opened_file root name 384))) [
        | inl e ↦ ground (arith, h, e)
        | inr (f, e) ↦ ground (arith, h, e)
      ]

  log_into-handles :
      (service directory name : Text) (p : Process)
      → let opened = log_into system service directory name p in
        opened.1.handles ≡ handles_after p.handles opened.0
  unfolding log_into
  log_into-handles service directory name p =
      let made = Effect.made_directory directory 488 in
      let opens = Effect.opened_root directory in
      elim (Option-cases (system p.done made)) [
        | inl e ↦ elim (Option-cases (system (made ∷ p.done) opens)) [
          | inl f ↦ rw e (
              rw f (
                open_log-handles service name p.next p.handles
                  (open_with system opens (note made p)).1 (ground (arith, f))))
          | inr (g, f) ↦ ground (arith, e, f)
        ]
        | inr (f, e) ↦ rw e refl
      ]

  pub new_logger-handles :
      (service path : Text) (p : Process)
      → let opened = new_logger system service path p in
        opened.1.handles ≡ handles_after p.handles opened.0
  unfolding new_logger
  new_logger-handles service path p = elim (Bool-cases (is_empty path)) [
    | inl e ↦ rw e refl
    | inr e ↦ rw e (log_into-handles service (directory_of path) (base_of path) p)
  ]

  pub close_log-handles :
      (closer : Closer) (logger : Logger) (hs : List ℕ) (p : Process)
      → p.handles ≡ handles_after hs (ok (logger, closer))
      → (close_log system closer p).1.handles ≡ hs
  unfolding close_log
  close_log-handles Closer.nothing logger hs p h = h
  close_log-handles (Closer.file_and_root file root) logger hs p h = ground (arith, h)

  -- NewLogger holds no handle that it does not give back: where it fails, the handles are those of
  -- before, and where it succeeds, the function that it returns closes what was opened, whatever
  -- the two Close calls answer, if it is called while the same handles are open as behind NewLogger.
  pub new_logger-close_log :
      (service path : Text) (p : Process)
      → let (result, q) = new_logger system service path p in
        ((e : Failure) → result ≡ err e → q.handles ≡ p.handles)
        × ((logger : Logger) (closer : Closer) (r : Process)
            → result ≡ ok (logger, closer)
            → r.handles ≡ q.handles
            → (close_log system closer r).1.handles ≡ p.handles)
  new_logger-close_log service path p =
      let same = new_logger-handles service path p in
      (
        λ e h. same ∙ ap (handles_after p.handles) h,
        λ logger closer r h k.
            close_log-handles closer logger p.handles r (k ∙ same ∙ ap (handles_after p.handles) h),
      )
