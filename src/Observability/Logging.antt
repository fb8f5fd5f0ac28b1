-- ===== src/Observability/Logging.antt =====
-- internal/observability/logger.go: NewLogger and the function that closes the log.
pub mod Handles
pub mod Spans
use factory_demo.Base.{
  ℕ, List, [], ◌∷◌, ◌≡◌, refl, Option, none, some, Result, ok, err, if◌then◌else◌, arith,
}
use factory_demo.Text.{Text, is_empty}
use factory_demo.Text.Paths.{directory_of, base_of}
use factory_demo.Failure.{Failure}
use factory_demo.Process.{
  Sink, Logger, Effect, System, Process, perform, open_with, close, join_errors,
}

-- closeLog: without a file, or with a file and the root of its directory.
pub data Closer : Type 0 where
  nothing : Closer
  file_and_root : ℕ → ℕ → Closer

module _ (system : System) where
  -- From root.OpenFile on. 384 is the mode 0600.
  unfoldable pub open_log : Text → Text → ℕ → Process → Result Failure (Logger × Closer) × Process
  open_log service name root p =
      let (opened, q) = open_with system (Effect.opened_file root name 384) p in
      elim opened [
        | err e ↦ (err e, (close system root q).1)
        | ok file ↦ (
          ok (
            record { service = service; sink = Sink.stdout_and_file file },
            Closer.file_and_root file root,
          ),
          q,
        )
      ]

  -- From os.MkdirAll on. 488 is the mode 0750.
  unfoldable pub log_into :
      Text → Text → Text → Process → Result Failure (Logger × Closer) × Process
  unfolding open_log
  log_into service directory name p =
      let (made, q) = perform system (Effect.made_directory directory 488) p in
      elim made [
        | some e ↦ (err e, q)
        | none ↦
            (let (opened, r) = open_with system (Effect.opened_root directory) q in
              elim opened [ err e ↦ (err e, r) | ok root ↦ open_log service name root r ])
      ]

  -- NewLogger.
  unfoldable pub new_logger : Text → Text → Process → Result Failure (Logger × Closer) × Process
  unfolding log_into directory_of base_of
  new_logger service path p =
      if is_empty path
      then (ok (record { service = service; sink = Sink.stdout }, Closer.nothing), p)
      else log_into service (directory_of path) (base_of path) p

  -- The function that NewLogger returns.
  unfoldable pub close_log : Closer → Process → List Failure × Process
  close_log Closer.nothing p = ([], p)
  close_log (Closer.file_and_root file root) p =
      let (e, q) = close system file p in let (f, r) = close system root q in (join_errors e f, r)
