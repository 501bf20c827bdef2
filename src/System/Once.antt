-- ===== src/System/Once.antt =====
-- An event that a consumer has ended is over in any history.
use enterprise_rag_ingestion.Prelude.{
  ◌≡◌, String, Bool, true, false, Option, [], ◌∷◌, has, has-append, nat_eq, arith,
}
use enterprise_rag_ingestion.Exceptions.{FetchValidationError, ExtractionError, ok}
use enterprise_rag_ingestion.Uuid.{Codec}
use enterprise_rag_ingestion.Domain.Events.{DocumentSubmitted, DocumentFetched, Stamp}
use enterprise_rag_ingestion.Database.{Db, ProcessedEvent}
use enterprise_rag_ingestion.Database.Statements.{Defaults, is_processed}
use enterprise_rag_ingestion.System.{History, start, then}
use enterprise_rag_ingestion.System.Messages.{Log, log_of, LogStep, stays, enters, hands_over}
use enterprise_rag_ingestion.System.Refines.{Step-refines}
use enterprise_rag_ingestion.Fetcher.Repository.{consumer_name as fetcher_name, process}
use enterprise_rag_ingestion.Fetcher.Inspect.{SourceInspection}
use enterprise_rag_ingestion.Fetcher.Repository.Handoff.{process-Processed, process-redelivered}
use enterprise_rag_ingestion.Fetcher.Repository.Redelivery.{process-reads_ids, Processed-found}
use enterprise_rag_ingestion.Extractor.Repository.{
  consumer_name as extractor_name, ExtractionResult, complete, reject,
}
use enterprise_rag_ingestion.Extractor.Repository.Ledger.{Recorded-found, claiming-redelivered}
use enterprise_rag_ingestion.Extractor.Repository.Handoff.{complete-Recorded, complete-reads_ids}

LogStep-processed :
    (p : ProcessedEvent → Bool) (l l' : Log)
    → LogStep l l'
    → has p l.processed ≡ true
    → has p l'.processed ≡ true
LogStep-processed p l l' stays h = h
LogStep-processed p l l' (enters m free added same) h = rw same h
LogStep-processed p l l' (hands_over m q fresh free added recorded) h =
    rw recorded (ground (arith, has-append p l.processed (q ∷ [])))

module _ (codec : Codec) (docling_version : String) where
  -- The ledger only grows.
  pub History-processed :
      (p : ProcessedEvent → Bool) (db db' : Db)
      → History codec docling_version db db'
      → has p db.processed ≡ true
      → has p db'.processed ≡ true
  History-processed p db db' start h = h
  History-processed p db db' (then {mid} before step) h =
      LogStep-processed p (log_of mid) (log_of db')
        (Step-refines codec docling_version mid db' step) (History-processed p db mid before h)

  -- Once a fetch of an event has committed, and after any history of committed transactions of the
  -- whole pipeline, the fetch of the event returns false and changes nothing, whatever the inspection
  -- and the fresh identifiers.
  pub History-process_once :
      (stamp later : Stamp) (defaults defaults' : Defaults) (payload : DocumentSubmitted)
      (i i' : Option SourceInspection) (e e' : Option FetchValidationError) (db mid db' : Db)
      (done : Bool)
      → process codec stamp defaults payload i e db ≡ ok (done, mid)
      → History codec docling_version mid db'
      → process codec later defaults' payload i' e' db' ≡ ok (false, db')
  History-process_once stamp later defaults defaults' payload i i' e e' db mid db' done h history =
      let (t, d, received, own, document, event) =
        process-reads_ids codec stamp defaults payload i e db h in
      process-redelivered codec later defaults' payload own document event i' e' db' (
        History-processed (is_processed t received fetcher_name) mid db' history (
          Processed-found stamp t received db mid done
            (process-Processed codec stamp defaults payload own document event i e db h)))

  -- Once an extraction has been stored for an event, and after any history of committed transactions of
  -- the whole pipeline, storing an extraction or a rejection for the event returns false and changes
  -- nothing, whatever the results and the fresh identifiers.
  pub History-complete_once :
      (stamp later : Stamp) (defaults defaults' : Defaults) (payload : DocumentFetched)
      (r r' : ExtractionResult) (normalized manifest normalized' manifest' : String)
      (e : ExtractionError) (db mid db' : Db) (done : Bool)
      → complete codec docling_version stamp defaults payload r normalized manifest db
        ≡ ok (done, mid)
      → History codec docling_version mid db'
      → (complete codec docling_version later defaults' payload r' normalized' manifest' db'
          ≡ ok (false, db'))
        × (reject codec docling_version later defaults' payload e db' ≡ ok (false, db'))
  unfolding complete reject
  History-complete_once stamp later defaults defaults' payload r r' normalized manifest normalized'
        manifest' e db mid db' done h history =
      let (ids, read) =
        complete-reads_ids codec docling_version stamp defaults payload r normalized manifest db
          h in
      let found =
        History-processed (is_processed ids.tenant_id ids.received_event_id extractor_name) mid db'
          history
          (Recorded-found _ ids db mid done (
            complete-Recorded codec docling_version stamp defaults payload ids r normalized manifest
              db read h)) in
      (
        claiming-redelivered codec payload _ read db' found,
        claiming-redelivered codec payload _ read db' found,
      )
