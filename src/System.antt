-- ===== src/System.antt =====
-- The whole pipeline as a transition system on the database: every transaction that the API, the
-- workers and the publisher commit is a step, and a history is any interleaving of such steps.
-- A transaction that raises leaves the database as it was, and is no step.
pub mod Messages
pub mod Refines
pub mod Invariants
pub mod Rows
pub mod Delivery
pub mod Once
pub mod Routes
pub mod Processes
pub mod Workers
pub mod Isolation
use enterprise_rag_ingestion.Prelude.{ℕ, String, Bool, Option, List, ◌≡◌}
use enterprise_rag_ingestion.Exceptions.{FetchValidationError, ExtractionError, ok}
use enterprise_rag_ingestion.Uuid.{Uuid, Codec}
use enterprise_rag_ingestion.Domain.Events.{DocumentSubmitted, DocumentFetched, Stamp}
use enterprise_rag_ingestion.Database.{Db, OutboxRow}
use enterprise_rag_ingestion.Database.Statements.{Defaults}
use enterprise_rag_ingestion.Submission.{Submission, create_submission}
use enterprise_rag_ingestion.Fetcher.Inspect.{SourceInspection}
use enterprise_rag_ingestion.Fetcher.Repository.{process}
use enterprise_rag_ingestion.Extractor.Repository.{ExtractionResult, complete, reject}
use enterprise_rag_ingestion.Publisher.Outbox.{claim_outbox_events, complete_outbox_event}

module _ (codec : Codec) (docling_version : String) where
  -- One committed transaction, of whichever process, with whatever arguments.
  pub data Step : Db → Db → Type 0 where
    submits :
        {db db' : Db} (defaults : Defaults) (s : Submission) (event_id : Uuid)
        (payload : DocumentSubmitted)
        → create_submission defaults s event_id payload db ≡ ok (tt, db')
        → Step db db'
    fetches :
        {db db' : Db} (stamp : Stamp) (defaults : Defaults) (payload : DocumentSubmitted)
        (i : Option SourceInspection) (e : Option FetchValidationError) (done : Bool)
        → process codec stamp defaults payload i e db ≡ ok (done, db')
        → Step db db'
    extracts :
        {db db' : Db} (stamp : Stamp) (defaults : Defaults) (payload : DocumentFetched)
        (r : ExtractionResult) (normalized manifest : String) (done : Bool)
        → complete codec docling_version stamp defaults payload r normalized manifest db
          ≡ ok (done, db')
        → Step db db'
    refuses :
        {db db' : Db} (stamp : Stamp) (defaults : Defaults) (payload : DocumentFetched)
        (e : ExtractionError) (done : Bool)
        → reject codec docling_version stamp defaults payload e db ≡ ok (done, db')
        → Step db db'
    claims :
        {db db' : Db} (skipped : OutboxRow → Bool) (now : ℕ) (worker_name : String) (batch_size : ℕ)
        (claimed : List OutboxRow)
        → claim_outbox_events skipped now worker_name batch_size db ≡ ok (claimed, db')
        → Step db db'
    completes :
        {db db' : Db} (now : ℕ) (outbox_id : Uuid) (worker_name : String) (succeeded : Bool)
        (message : Option String) (retry_at : Option ℕ)
        → complete_outbox_event now outbox_id worker_name succeeded message retry_at db
          ≡ ok (tt, db')
        → Step db db'

  -- Any number of steps.
  pub data History : Db → Db → Type 0 where
    start : {db : Db} → History db db
    then : {db mid db' : Db} → History db mid → Step mid db' → History db db'
