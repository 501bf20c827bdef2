-- ===== src/Observability.antt =====
-- `configure_observability` of infrastructure/observability.py, by what it installs in the process. The SDK's objects are named by what they are built with.
pub mod Once
use Prim.Native.Char.{Char}
use Prim.Native.String.{◌++◌}
use enterprise_rag_ingestion.Prelude.{
  ℕ, String, Bool, true, false, ◌&&◌, ◌||◌, not, Option, none, some, List, [], ◌∷◌, string_eq, ◌==◌,
  if◌then◌else◌,
}
use mathlib.Core.List.{◌++◌ as ◌+++◌}
use text.Mathlib.Text.{starts_with}
use enterprise_rag_ingestion.Exceptions.{Exception, Result, ok, raise, runtime_error, value_error}

-- What the code reads of the settings. `endpoint` is the gRPC target that `_otlp_grpc_endpoint` makes
-- of the URL, `sampler` the name in small letters, and `ratio` the argument's text.
pub record Settings : Type 0 where
  pub service_name : String
  pub mode : String
  pub tracing_enabled : Bool
  pub endpoint : String
  pub sampler : String
  pub ratio : String
  pub export_interval_millis : ℕ

pub data Sampler : Type 0 where
  always_on always_off : Sampler
  trace_id_ratio : String → Sampler
  parent_based : Sampler → Sampler

-- `_trace_sampler`
unfoldable pub trace_sampler : Settings → Result Sampler
trace_sampler s =
    if s.sampler == "always_on"
    then ok always_on
    else if s.sampler == "always_off"
    then ok always_off
    else if s.sampler == "traceidratio"
    then ok (trace_id_ratio s.ratio)
    else if s.sampler == "parentbased_always_on"
    then ok (parent_based always_on)
    else if s.sampler == "parentbased_always_off"
    then ok (parent_based always_off)
    else if s.sampler == "parentbased_traceidratio"
    then ok (parent_based (trace_id_ratio s.ratio))
    else raise value_error

pub data Exporter : Type 0 where
  otlp : String → Exporter
  console : Exporter

-- A handler of the root logger.
pub data Handler : Type 0 where
  otlp_handler : String → Handler
  console_handler : Handler

-- Whether a handler passes a record of a logger on: the OTLP handler has the filter
-- `_ExcludeOpenTelemetryRecords`.
unfoldable pub passes : Handler → String → Bool
passes (otlp_handler endpoint) logger = not (starts_with logger "opentelemetry")
passes console_handler logger = true

-- What the process holds: the root logger's flag and handlers, the three providers that were last
-- given to the SDK, by what they export to, and whether the outbound clients are instrumented.
pub record Process : Type 0 where
  pub configured : Bool
  pub handlers : List Handler
  pub logs : Option String
  pub metrics : Option (Exporter × ℕ)
  pub traces : Option (Sampler × Exporter)
  pub instrumented : Bool

abbrev pub sends_to_otlp : Settings → Bool
sends_to_otlp s = s.mode == "otlp" || s.mode == "console_and_otlp"

abbrev pub writes_to_console : Settings → Bool
writes_to_console s = s.mode == "console" || s.mode == "console_and_otlp"

abbrev pub exporter_of : Settings → Exporter
exporter_of s = if sends_to_otlp s then otlp s.endpoint else console

abbrev pub handlers_of : Settings → List Handler
handlers_of s =
    (if sends_to_otlp s then otlp_handler s.endpoint ∷ [] else [])
    +++ (if writes_to_console s then console_handler ∷ [] else [])

-- The providers of logs and metrics.
abbrev pub export : Settings → Process → Process
export s p = record p {
  logs = if sends_to_otlp s then some s.endpoint else p.logs;
  metrics = some (exporter_of s, s.export_interval_millis);
}

-- The provider of traces, and the instrumentation.
abbrev pub trace : Settings → Sampler → Process → Process
trace s sampler p = record p { traces = some (sampler, exporter_of s); instrumented = true }

abbrev pub traced : Settings → Result Sampler → Process → Result (Unit {0}) × Process
traced s (ok sampler) p = (ok tt, trace s sampler p)
traced s (raise e) p = (raise e, p)

-- The tracing part, where tracing is enabled.
abbrev pub with_tracing : Settings → Process → Result (Unit {0}) × Process
with_tracing s p = if s.tracing_enabled then traced s (trace_sampler s) p else (ok tt, p)

-- The handlers are installed, and the flag is set, last.
abbrev pub installed : Settings → Result (Unit {0}) × Process → Result (Unit {0}) × Process
installed s (raise e, p) = (raise e, p)
installed s (ok _, p) =
    (ok tt, record p { handlers = p.handlers +++ handlers_of s; configured = true })

unfoldable pub configure_observability : Settings → Process → Result (Unit {0}) × Process
configure_observability s p =
    if p.configured then (ok tt, p) else installed s (with_tracing s (export s p))
