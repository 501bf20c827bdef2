-- ===== src/Launcher.antt =====
-- `main` of workers/__main__.py, with `shutdown_observability` of infrastructure/observability.py: the
-- entry point of every worker, from its settings to the flush of its telemetry.
pub mod Closes
use enterprise_rag_ingestion.Prelude.{
  String, Option, none, some, List, [], ◌∷◌, ◌++◌, string_eq, ◌==◌, if◌then◌else◌,
}
use enterprise_rag_ingestion.Exceptions.{Exception, Result, ok, raise, ◌>>=◌}
use enterprise_rag_ingestion.Config.{Environment, environment_files}
use enterprise_rag_ingestion.Observability.{Settings, Process, configure_observability}

-- `WORKER_MODULES`
abbrev pub worker_modules : List (String × String)
worker_modules =
    ("outbox-publisher", "rag_ingestion.workers.outbox_publisher")
    ∷ ("document-fetcher", "rag_ingestion.workers.document_fetcher")
    ∷ ("content-extractor", "rag_ingestion.workers.content_extractor")
    ∷ ("chunker", "rag_ingestion.workers.chunker")
    ∷ ("embedder", "rag_ingestion.workers.embedder")
    ∷ ("indexer", "rag_ingestion.workers.indexer")
    ∷ []

unfoldable pub module_of : List (String × String) → String → Option String
module_of [] worker = none
module_of ((name, path) ∷ rest) worker =
    let other = module_of rest worker in if name == worker then some path else other

pub data Provider : Type 0 where
  logger_provider tracer_provider meter_provider : Provider

abbrev present {ℓ} : {A : Type ℓ} → Provider → Option A → List Provider
present provider none = []
present provider (some a) = provider ∷ []

-- `shutdown_observability`: the providers of the SDK that are installed, in this order.
abbrev pub shutdown_observability : Process → List Provider
shutdown_observability p =
    present logger_provider p.logs
    ++ (present tracer_provider p.traces ++ present meter_provider p.metrics)

-- What `main` does after the configuration.
pub data Action : Type 0 where
  runs : String → Action
  logs_error : Action
  shuts_down : List Provider → Action

-- How `main` ends: `SystemExit` is no `Exception`, and carries the module that is missing here.
pub data Ending : Type 0 where
  returns : Ending
  exits : String → Ending
  raises : Exception → Ending

-- The import of a module and of its `run`: `ImportError` or `AttributeError`, another exception of
-- the module's body, or a function with what its call ends in.
pub data Import : Type 0 where
  no_module : Import
  fails : Exception → Import
  found : Result (Unit {0}) → Import

-- The settings that pydantic reads from files, and the modules that Python finds.
pub record Interpreter : Type 0 where
  pub read_settings : List String → Result Settings
  pub import_run : String → Import

-- What was done, how it ended, and the process then.
pub record Launch : Type 0 where
  pub actions : List Action
  pub ending : Ending
  pub final : Process

-- The body of the `try`, and what the two `except` clauses log.
abbrev pub attempt : String → Import → List Action × Ending
attempt path no_module = (logs_error ∷ [], exits path)
attempt path (fails e) = (logs_error ∷ [], raises e)
attempt path (found (ok _)) = (runs path ∷ [], returns)
attempt path (found (raise e)) = (runs path ∷ logs_error ∷ [], raises e)

-- `try: … finally: shutdown_observability()`
abbrev pub closing : Process → List Action × Ending → Launch
closing p (actions, ending) = record {
  actions = actions ++ shuts_down (shutdown_observability p) ∷ [];
  ending = ending;
  final = p;
}

module _ (env : Environment) (python : Interpreter) where
  open python use {read_settings, import_run}

  abbrev pub settings_of : String → Result Settings
  settings_of worker = environment_files env (some worker) >>= λ files. read_settings files

  -- The configuration stands before the `try`.
  abbrev pub launched : String → Result (Unit {0}) × Process → Launch
  launched path (raise e, p) = record { actions = []; ending = raises e; final = p }
  launched path (ok _, p) = closing p (attempt path (import_run path))

  abbrev pub configured_by : String → Process → Result Settings → Launch
  configured_by path p (raise e) = record { actions = []; ending = raises e; final = p }
  configured_by path p (ok settings) = launched path (configure_observability settings p)

  abbrev pub chosen : String → Process → Option String → Launch
  chosen worker p none = record { actions = []; ending = exits "invalid choice"; final = p }
  chosen worker p (some path) = configured_by path p (settings_of worker)

  unfoldable pub main : String → Process → Launch
  main worker p = chosen worker p (module_of worker_modules worker)
