-- ===== src/Extractor/Worker/Settles.antt =====
-- A call of `handle` that returns has recorded its event, and one that raises has changed nothing.
use enterprise_rag_ingestion.Prelude.{◌≡◌, refl, Bool, true, has}
use enterprise_rag_ingestion.Exceptions.{
  ExtractionError, Result, ok, raise, extraction, fetch_validation, value_error, assertion_error,
  integrity_error, multiple_results, runtime_error, external, http_exception, no_fuel,
}
use enterprise_rag_ingestion.Domain.Events.{DocumentFetched}
use enterprise_rag_ingestion.Database.{Db}
use enterprise_rag_ingestion.Database.Transaction.{Tx}
use enterprise_rag_ingestion.Database.Statements.{is_processed}
use enterprise_rag_ingestion.Extractor.Payload.{Ids, payload_ids}
use enterprise_rag_ingestion.Extractor.Repository.{consumer_name, complete, reject}
use enterprise_rag_ingestion.Extractor.Repository.Ledger.{Recorded-found}
use enterprise_rag_ingestion.Extractor.Repository.Handoff.{complete-Recorded, reject-Recorded}
use enterprise_rag_ingestion.Extractor.Worker.{
  Tools, Answers, Artifacts, rejected, completed, rescue, stored, extract, handle,
}

module _ (tools : Tools) (answers : Answers tools) (payload : DocumentFetched) (ids : Ids) where
  -- The ledger holds the event where the call returned, and nothing has changed where it raised.
  abbrev pub Settled : Db → Result Bool × Db → Type 0
  Settled db (ok done, db') =
      has (is_processed ids.tenant_id ids.received_event_id consumer_name) db'.processed ≡ true
  Settled db (raise e, db') = db' ≡ db

  begin-Settled :
      (m : Tx Bool)
      → ((db db' : Db) (done : Bool)
          → m db ≡ ok (done, db')
          → has (is_processed ids.tenant_id ids.received_event_id consumer_name) db'.processed
            ≡ true)
      → (db : Db) (r : Result (Bool × Db)) → m db ≡ r
      → Settled db (elim r [ ok (a, db') ↦ (ok a, db') | raise x ↦ (raise x, db) ])
  begin-Settled m records db (ok (done, db')) h = records db db' done h
  begin-Settled m records db (raise x) h = refl

  module _ (read : payload_ids tools.codec payload ≡ ok ids) where
    rejected-Settled :
        (e : ExtractionError) (db : Db) → Settled db (rejected tools answers payload e db)
    unfolding rejected
    rejected-Settled e db =
        begin-Settled
          (reject tools.codec tools.libraries.docling_version answers.stamp answers.defaults payload
            e)
          (λ before after done committed. Recorded-found _ ids before after done (
            reject-Recorded tools.codec tools.libraries.docling_version answers.stamp
              answers.defaults payload ids e before read committed))
          db _ refl

    completed-Settled :
        (a : Artifacts) (db : Db) → Settled db (completed tools answers payload a db)
    unfolding completed
    completed-Settled a db =
        begin-Settled
          (complete tools.codec tools.libraries.docling_version answers.stamp answers.defaults
            payload a.result a.normalized_uri a.manifest_uri)
          (λ before after done committed. Recorded-found _ ids before after done (
            complete-Recorded tools.codec tools.libraries.docling_version answers.stamp
              answers.defaults payload ids a.result a.normalized_uri a.manifest_uri before read
              committed))
          db _ refl

    stored-Settled :
        (a : Result Artifacts) (db : Db) → Settled db (stored tools answers payload a db)
    unfolding stored
    stored-Settled (ok a) db = completed-Settled a db
    stored-Settled (raise e) db = refl

    rescue-Settled :
        (db : Db) (x : Result Bool × Db)
        → Settled db x
        → Settled db (rescue tools answers payload x)
    unfolding rescue
    rescue-Settled db (ok done, db') h = h
    rescue-Settled db (raise (extraction e), db') h = rw h (rejected-Settled e db)
    rescue-Settled db (raise (fetch_validation e), db') h = h
    rescue-Settled db (raise value_error, db') h = h
    rescue-Settled db (raise assertion_error, db') h = h
    rescue-Settled db (raise integrity_error, db') h = h
    rescue-Settled db (raise multiple_results, db') h = h
    rescue-Settled db (raise (runtime_error e), db') h = h
    rescue-Settled db (raise (external e), db') h = h
    rescue-Settled db (raise (http_exception n d), db') h = h
    rescue-Settled db (raise no_fuel, db') h = h

    -- For an event whose identifiers can be read, whatever the stores, Docling and the database
    -- answer: if `handle` returns, the ledger holds the event, and if it raises, the database is as it
    -- was.
    pub handle-Settled : (db : Db) → Settled db (handle tools answers payload db)
    unfolding handle
    handle-Settled db = rescue-Settled db _ (stored-Settled (extract tools answers payload) db)
