-- ===== src/Process.antt =====
-- A running program as the operating system and the libraries see it: the handles it holds and what
-- it has done, and its log (log/slog).
use factory_demo.Base.{
  ℕ, suc, List, [], ◌∷◌, Option, none, some, Result, ok, err, if◌then◌else◌, ◌==◌,
}
use factory_demo.Base.Int.{ℤ}
use factory_demo.Text.{Text, codes}
use factory_demo.Failure.{Failure}

-- The writer of a logger: os.Stdout, or an io.MultiWriter of it and a file.
pub data Sink : Type 0 where
  stdout : Sink
  stdout_and_file : ℕ → Sink

-- slog.New(handler).With("service", service), at the level LevelInfo.
pub record Logger : Type 0 where
  pub service : Text
  pub sink : Sink

pub data Level : Type 0 where
  debug info warn error : Level

-- The values of attributes; an error that errors.Join made is the list of its parts.
pub data Attribute : Type 0 where
  text : Text → Attribute
  failure : Failure → Attribute
  joined : List Failure → Attribute

pub record Line : Type 0 where
  pub level : Level
  pub message : Text
  pub attributes : List (Text × Attribute)

-- sdktrace.TracerProvider, by the endpoint of its exporter and the name of its resource.
pub record Provider : Type 0 where
  pub endpoint : Text
  pub service : Text

-- http.Server without its handler, in nanoseconds and bytes; 0 is the default of the library.
pub record ServerSettings : Type 0 where
  pub address : Text
  pub read_header_timeout : ℕ
  pub read_timeout : ℕ
  pub write_timeout : ℕ
  pub idle_timeout : ℕ
  pub max_header_bytes : ℕ

-- http.Client and its http.Transport.
pub record ClientSettings : Type 0 where
  pub timeout : ℤ
  pub response_header_timeout : ℤ
  pub dial_timeout : ℕ
  pub tls_handshake_timeout : ℕ
  pub idle_connection_timeout : ℕ
  pub max_idle_connections : ℕ
  pub max_idle_connections_per_host : ℕ

pub data Effect : Type 0 where
  made_directory : Text → ℕ → Effect
  opened_root : Text → Effect
  opened_file : ℕ → Text → ℕ → Effect
  closed : ℕ → Effect
  made_exporter : Text → ℕ → Effect
  made_resource : Text → Effect
  set_provider : Provider → Effect
  ignored_tracing_errors : Effect
  flushed stopped : Provider → Effect
  set_default : Logger → Effect
  wrote : Sink → Line → Effect
  printed_fatal : Failure → Effect
  made_client : ClientSettings → Effect
  served : ServerSettings → Effect

-- What the system answers to a call, from all that happened before it: nil or an error.
abbrev pub System : Type 0
System = List Effect → Effect → Option Failure

-- The open handles and what was done, the newest first, and the next handle.
pub record Process : Type 0 where
  pub handles : List ℕ
  pub next : ℕ
  pub done : List Effect

abbrev pub note : Effect → Process → Process
note e p = record p { done = e ∷ p.done }

abbrev pub release : ℕ → List ℕ → List ℕ
release h [] = []
release h (g ∷ gs) = if g == h then gs else g ∷ release h gs

-- The attribute that With added comes first.
abbrev line_of : Logger → Level → Text → List (Text × Attribute) → Line
line_of logger level message attributes = record {
  level = level;
  message = message;
  attributes = (codes "service", Attribute.text logger.service) ∷ attributes;
}

-- Logger.Info, Warn and Error: the handler drops what is below LevelInfo.
abbrev pub log : Logger → Level → Text → List (Text × Attribute) → Process → Process
log logger Level.debug message attributes p = p
log logger Level.info message attributes p =
    note (Effect.wrote logger.sink (line_of logger Level.info message attributes)) p
log logger Level.warn message attributes p =
    note (Effect.wrote logger.sink (line_of logger Level.warn message attributes)) p
log logger Level.error message attributes p =
    note (Effect.wrote logger.sink (line_of logger Level.error message attributes)) p

module _ (system : System) where
  -- A call that returns an error only.
  abbrev pub perform : Effect → Process → Option Failure × Process
  perform e p = (system p.done e, note e p)

  -- A call that opens a handle unless it fails.
  abbrev pub open_with : Effect → Process → Result Failure ℕ × Process
  open_with e p = elim (system p.done e) [
    | some f ↦ (err f, note e p)
    | none ↦
        (ok p.next, record { handles = p.next ∷ p.handles; next = suc p.next; done = e ∷ p.done })
  ]

  -- Close gives the handle up, with an error or without.
  abbrev pub close : ℕ → Process → Option Failure × Process
  close h p = (
    system p.done (Effect.closed h),
    record p { handles = release h p.handles; done = Effect.closed h ∷ p.done },
  )

-- errors.Join of two results: nil is dropped, and no error is left if both are nil.
abbrev pub join_errors : Option Failure → Option Failure → List Failure
join_errors none none = []
join_errors none (some f) = f ∷ []
join_errors (some e) none = e ∷ []
join_errors (some e) (some f) = e ∷ f ∷ []
