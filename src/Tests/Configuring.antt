-- ===== src/Tests/Configuring.antt =====
-- A host process that runs the fetcher, and its observability.
use Prim.Native.String.{String, ◌++◌}
use mathlib.Core.List.{◌++◌ as ◌+++◌}
use enterprise_rag_ingestion.Prelude.{
  ◌≡◌, refl, true, false, none, some, List, [], ◌∷◌, string_eq, ◌==◌, if◌then◌else◌, ◌⊎◌,
}
use enterprise_rag_ingestion.Exceptions.{ok, raise, value_error}
use enterprise_rag_ingestion.Config.{
  Environment, environment_files, profile_of, is_worker_name, Identities, choose_credentials,
}
use enterprise_rag_ingestion.Config.Files.{Selected, environment_files-eq-ok}
use enterprise_rag_ingestion.Observability.{
  Settings, Process, trace_sampler, configure_observability, passes, otlp_handler,
}
use enterprise_rag_ingestion.Launcher.{
  Interpreter, found, no_module, Provider, logger_provider, tracer_provider, meter_provider, runs,
  logs_error, shuts_down, module_of, main,
}
use enterprise_rag_ingestion.Observability.Once.{configure_observability-once}

abbrev host : Environment
host = record {
  getenv = λ name. none;
  lower = λ s. s;
  root = "/app";
  is_file = λ path. path == "/app/config/workers/document-fetcher.env";
}

abbrev fetcher_files : List String
fetcher_files =
    "/app/.env" ∷ "/app/config/env/host.env" ∷ "/app/config/workers/document-fetcher.env"
    ∷ "/app/secrets/local-runtime-secrets.env" ∷ []

environment_files-fetcher : environment_files host (some "document-fetcher") ≡ ok fetcher_files
unfolding environment_files is_worker_name
environment_files-fetcher = refl

environment_files-unknown : environment_files host (some "tagger") ≡ raise value_error
unfolding environment_files is_worker_name
environment_files-unknown = refl

environment_files-traversal : environment_files host (some "../tagger") ≡ raise value_error
unfolding environment_files is_worker_name
environment_files-traversal = refl

environment_files-base :
    environment_files host none
    ≡ ok ("/app/.env" ∷ "/app/config/env/host.env" ∷ "/app/secrets/local-runtime-secrets.env" ∷ [])
unfolding environment_files
environment_files-base = refl

environment_files-eq-ok_example :
    (profile : String) × (worker : List String) × ((profile ≡ "host") ⊎ (profile ≡ "container"))
    × (profile_of host ≡ profile)
    × Selected host (some "document-fetcher") worker
    × ((host.root ++ "/.env")
          ∷ (host.root ++ "/config/env/" ++ profile ++ ".env")
          ∷ (worker +++ (host.root ++ "/secrets/local-runtime-secrets.env") ∷ [])
        ≡ fetcher_files)
environment_files-eq-ok_example =
    environment_files-eq-ok host (some "document-fetcher") fetcher_files environment_files-fetcher

abbrev identities : Identities
identities = record {
  minio_access_key = "worker";
  minio_secret_key = "w";
  minio_api_access_key = some "api";
  minio_api_secret_key = some "a";
}

choose_credentials-api :
    choose_credentials identities ≡ record { access_key = "api"; secret_key = "a" }
unfolding choose_credentials
choose_credentials-api = refl

-- An API key without its secret is not used.
choose_credentials-half :
    choose_credentials (record identities { minio_api_secret_key = some "" })
    ≡ record { access_key = "worker"; secret_key = "w" }
unfolding choose_credentials
choose_credentials-half = refl

abbrev collector : Settings
collector = record {
  service_name = "fetcher";
  mode = "console_and_otlp";
  tracing_enabled = true;
  endpoint = "localhost:4317";
  sampler = "parentbased_traceidratio";
  ratio = "1.0";
  export_interval_millis = 15000;
}

abbrev fresh_process : Process
fresh_process = record {
  configured = false;
  handlers = [];
  logs = none;
  metrics = none;
  traces = none;
  instrumented = false;
}

configure_observability-collector : (configure_observability collector fresh_process).0 ≡ ok tt
unfolding configure_observability trace_sampler
configure_observability-collector = refl

-- A sampler that the code does not know is refused, and no handler is installed.
configure_observability-unknown :
    (configure_observability (record collector { sampler = "jaeger" }) fresh_process).0
    ≡ raise value_error
unfolding configure_observability trace_sampler
configure_observability-unknown = refl

passes-own : passes (otlp_handler "localhost:4317") "opentelemetry.sdk" ≡ false
unfolding passes
passes-own = refl

passes-other : passes (otlp_handler "localhost:4317") "rag_ingestion" ≡ true
unfolding passes
passes-other = refl

configure_observability-once_example :
    configure_observability
      (record collector { mode = "console" })
      (configure_observability collector fresh_process).1
    ≡ (ok tt, (configure_observability collector fresh_process).1)
configure_observability-once_example =
    configure_observability-once collector (record collector { mode = "console" }) fresh_process
      configure_observability-collector

-- pydantic reads the settings, and only the fetcher's module is there.
abbrev python : Interpreter
python = record {
  read_settings = λ files. ok collector;
  import_run = λ path.
      if path == "rag_ingestion.workers.document_fetcher"
      then found (raise value_error)
      else no_module;
}

abbrev all_three : List Provider
all_three = logger_provider ∷ tracer_provider ∷ meter_provider ∷ []

-- The fetcher's exception is logged, and its telemetry flushed.
main-fetcher :
    (main host python "document-fetcher" fresh_process).actions
    ≡ runs "rag_ingestion.workers.document_fetcher" ∷ logs_error ∷ shuts_down all_three ∷ []
unfolding main module_of environment_files is_worker_name configure_observability trace_sampler
main-fetcher = refl

-- A worker that has a module's name and a profile, but no module, is refused after the configuration.
main-no_module :
    (main (record host { is_file = λ path. true }) python "chunker" fresh_process).actions
    ≡ logs_error ∷ shuts_down all_three ∷ []
unfolding main module_of environment_files is_worker_name configure_observability trace_sampler
main-no_module = refl

main-unknown : (main host python "tagger" fresh_process).actions ≡ []
unfolding main module_of
main-unknown = refl
