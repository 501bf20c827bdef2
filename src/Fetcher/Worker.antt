-- ===== src/Fetcher/Worker.antt =====
-- `DocumentFetcher.handle` and the consumer loop `_run` of workers/document_fetcher.py. What the
-- broker, the object store and the clock answer is the input of each round.
pub mod Commits
use enterprise_rag_ingestion.Prelude.{
  ℕ, String, Bool, true, false, Option, none, some, List, [], ◌∷◌, ◌++◌, string_eq, ◌==◌,
  if◌then◌else◌,
}
use enterprise_rag_ingestion.Json.{end}
use enterprise_rag_ingestion.Exceptions.{
  FetchValidationError, Exception, fetch_validation, runtime_error, external, Result, ok, raise,
  ◌>>=◌,
}
use enterprise_rag_ingestion.Uuid.{Codec}
use enterprise_rag_ingestion.Domain.Events.{DocumentSubmitted, Stamp}
use enterprise_rag_ingestion.Database.{Db}
use enterprise_rag_ingestion.Database.Transaction.{begin}
use enterprise_rag_ingestion.Database.Statements.{Defaults}
use enterprise_rag_ingestion.Streams.{Reader}
use enterprise_rag_ingestion.Fetcher.Inspect.{SourceInspection, PdfOutcome, inspect_pdf}
use enterprise_rag_ingestion.Fetcher.Repository.{process}

abbrev pub unexpected_event_type : FetchValidationError
unexpected_event_type = record {
  code = "unexpected_event_type";
  detail = "Fetcher accepts only DocumentSubmitted events.";
  metadata = end;
}

-- What the worker is built with: the UUID codec, the storage client's streams, SHA-256, pypdf, and
-- the configured limit.
pub record Tools : Type 1 where
  pub codec : Codec
  pub reader : Reader
  pub sha256 : List ℕ → String
  pub open_pdf : List ℕ → PdfOutcome
  pub max_document_bytes : ℕ

-- What one call of `handle` meets: the object store's answer, and the fresh values of its writes.
pub record Answers (tools : Tools) : Type 0 where
  pub get : String → Result (tools.reader.Body)
  pub stamp : Stamp
  pub defaults : Defaults

module _ (tools : Tools) (answers : Answers tools) where
  -- The body of the `try`.
  unfoldable pub inspect_source : DocumentSubmitted → Result SourceInspection
  inspect_source payload =
      answers.get payload.payload_uri
      >>= inspect_pdf tools.reader tools.sha256 tools.open_pdf none tools.max_document_bytes

  -- One transaction of the repository.
  unfoldable pub record_result :
      DocumentSubmitted
      → Option SourceInspection
      → Option FetchValidationError
      → Db
      → Result Bool × Db
  record_result payload inspection error =
      begin (process tools.codec answers.stamp answers.defaults payload inspection error)

  -- Only a `FetchValidationError` is caught.
  unfoldable pub after_inspection :
      DocumentSubmitted → Result SourceInspection → Db → Result Bool × Db
  after_inspection payload (ok inspection) db = record_result payload (some inspection) none db
  after_inspection payload (raise (fetch_validation error)) db =
      record_result payload none (some error) db
  after_inspection payload (raise e) db = (raise e, db)

  unfoldable pub handle : DocumentSubmitted → Db → Result Bool × Db
  handle payload db =
      if payload.event_type == "DocumentSubmitted"
      then after_inspection payload (inspect_source payload) db
      else record_result payload none (some unexpected_event_type) db

-- A Kafka message: its offset, and the payload that the deserializer makes of its value.
pub record Message : Type 0 where
  pub offset : ℕ
  pub payload : Result DocumentSubmitted

-- What `consumer.poll` comes to.
pub data Poll (tools : Tools) : Type 0 where
  poll_raised : String → Poll tools
  empty : Poll tools
  partition_eof : Poll tools
  broker_error : String → Poll tools
  received : Message → Answers tools → Result (Unit {0}) → Poll tools

-- What outlasts a round: the database, the offsets committed to Kafka, and the two counters'
-- outcomes. `received` carries the answer to the offset's commit.
pub record Worker : Type 0 where
  pub db : Db
  pub committed : List Message
  pub polls : List String
  pub outcomes : List String

-- `record_worker_poll`
abbrev pub count_poll : String → Worker → Worker
count_poll outcome w = record w { polls = w.polls ++ outcome ∷ [] }

module _ (tools : Tools) where
  -- `consumer.commit(message=message, asynchronous=False)`
  unfoldable pub commit : Message → Result (Unit {0}) → Worker → Result (Unit {0}) × Worker
  commit message (ok _) w = (ok tt, record w { committed = w.committed ++ message ∷ [] })
  commit message (raise e) w = (raise e, w)

  -- What follows `handle`: the outcome's counter, then the commit.
  unfoldable pub acknowledge :
      Message → Result (Unit {0}) → Result Bool × Db → Worker → Result (Unit {0}) × Worker
  acknowledge message answer (ok done, db) w = commit message answer (record w {
    db = db;
    outcomes = w.outcomes ++ (if done then "processed" else "duplicate") ∷ [];
  })
  acknowledge message answer (raise e, db) w = (raise e, record w { db = db })

  unfoldable pub deliver :
      Message
      → Answers tools
      → Result (Unit {0})
      → Result DocumentSubmitted
      → Worker
      → Result (Unit {0}) × Worker
  deliver message answers answer (ok payload) w =
      acknowledge message answer (handle tools answers payload w.db) w
  deliver message answers answer (raise e) w = (raise e, w)

  -- One round of the loop.
  unfoldable pub round : Poll tools → Worker → Result (Unit {0}) × Worker
  round (poll_raised e) w = (raise (external e), count_poll "error" (count_poll "started" w))
  round empty w = (ok tt, count_poll "empty" (count_poll "started" w))
  round (broker_error e) w = (raise (runtime_error e), count_poll "error" (count_poll "started" w))
  round partition_eof w = (ok tt, count_poll "partition_eof" (count_poll "started" w))
  round (received message answers answer) w =
      deliver message answers answer message.payload (count_poll "message" (count_poll "started" w))

-- The loop goes on after a round that raised nothing.
abbrev pub proceed :
    (Worker → Result (Unit {0}) × Worker) → Result (Unit {0}) × Worker → Result (Unit {0}) × Worker
proceed rest (ok _, w) = rest w
proceed rest (raise e, w) = (raise e, w)

-- The loop over what the polls come to. An exception ends it.
unfoldable pub run : (tools : Tools) → List (Poll tools) → Worker → Result (Unit {0}) × Worker
run tools [] w = (ok tt, w)
run tools (poll ∷ rest) w = proceed (run tools rest) (round tools poll w)
