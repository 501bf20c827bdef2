-- ===== src/Extractor/Loop/Advances.antt =====
-- What one call of `ContentExtractor.handle` does to the database, as a part of the history that other
-- processes write too.
use enterprise_rag_ingestion.Prelude.{◌≡◌, refl, Bool, true, has}
use enterprise_rag_ingestion.Exceptions.{
  ExtractionError, Result, ok, raise, extraction, fetch_validation, value_error, assertion_error,
  integrity_error, multiple_results, runtime_error, external, http_exception, no_fuel,
}
use enterprise_rag_ingestion.Uuid.{Codec}
use enterprise_rag_ingestion.Domain.Events.{DocumentFetched}
use enterprise_rag_ingestion.Database.{Db}
use enterprise_rag_ingestion.Database.Transaction.{Tx}
use enterprise_rag_ingestion.Database.Statements.{is_processed}
use enterprise_rag_ingestion.Extractor.Payload.{Ids, payload_ids}
use enterprise_rag_ingestion.Extractor.Repository.{consumer_name, complete, reject}
use enterprise_rag_ingestion.Extractor.Repository.Ledger.{Recorded-found}
use enterprise_rag_ingestion.Extractor.Repository.Handoff.{
  complete-Recorded, reject-Recorded, complete-reads_ids, reject-reads_ids,
}
use enterprise_rag_ingestion.Extractor.Worker.{
  Tools, Answers, Artifacts, rejected, completed, rescue, stored, extract, handle,
}
use enterprise_rag_ingestion.System.{History, start, then, extracts, refuses}

-- The payload's event is in the ledger.
abbrev pub IsRecorded : Codec → DocumentFetched → Db → Type 0
IsRecorded codec payload db =
    (ids : Ids) × (payload_ids codec payload ≡ ok ids)
    × (has (is_processed ids.tenant_id ids.received_event_id consumer_name) db.processed ≡ true)

module _ (tools : Tools) (answers : Answers tools) (payload : DocumentFetched) where
  -- A call that returned has recorded its event by committed transactions, and one that raised has
  -- changed nothing.
  abbrev pub Advances : Db → Result Bool × Db → Type 0
  Advances db (ok done, db') =
      IsRecorded tools.codec payload db'
      × History tools.codec tools.libraries.docling_version db db'
  Advances db (raise e, db') = db' ≡ db

  begin-Advances :
      (m : Tx Bool)
      → ((db db' : Db) (done : Bool)
          → m db ≡ ok (done, db')
          → IsRecorded tools.codec payload db'
            × History tools.codec tools.libraries.docling_version db db')
      → (db : Db) (r : Result (Bool × Db)) → m db ≡ r
      → Advances db (elim r [ ok (a, db') ↦ (ok a, db') | raise x ↦ (raise x, db) ])
  begin-Advances m records db (ok (done, db')) h = records db db' done h
  begin-Advances m records db (raise x) h = refl

  rejected-Advances :
      (e : ExtractionError) (db : Db) → Advances db (rejected tools answers payload e db)
  unfolding rejected
  rejected-Advances e db =
      begin-Advances
        (reject tools.codec tools.libraries.docling_version answers.stamp answers.defaults payload
          e)
        (λ before after done committed.
          let (ids, read) =
            reject-reads_ids tools.codec tools.libraries.docling_version answers.stamp
              answers.defaults payload e before committed in
          (
            (
              ids,
              read,
              Recorded-found _ ids before after done (
                  reject-Recorded tools.codec tools.libraries.docling_version answers.stamp
                    answers.defaults payload ids e before read committed),
            ),
            then start (refuses answers.stamp answers.defaults payload e done committed),
          ))
        db _ refl

  completed-Advances :
      (a : Artifacts) (db : Db) → Advances db (completed tools answers payload a db)
  unfolding completed
  completed-Advances a db =
      begin-Advances
        (complete tools.codec tools.libraries.docling_version answers.stamp answers.defaults payload
          a.result a.normalized_uri a.manifest_uri)
        (λ before after done committed.
          let (ids, read) =
            complete-reads_ids tools.codec tools.libraries.docling_version answers.stamp
              answers.defaults payload a.result a.normalized_uri a.manifest_uri before committed in
          (
            (
              ids,
              read,
              Recorded-found _ ids before after done (
                  complete-Recorded tools.codec tools.libraries.docling_version answers.stamp
                    answers.defaults payload ids a.result a.normalized_uri a.manifest_uri before
                    read committed),
            ),
            then start (
                extracts answers.stamp answers.defaults payload a.result a.normalized_uri
                  a.manifest_uri done committed),
          ))
        db _ refl

  stored-Advances :
      (a : Result Artifacts) (db : Db) → Advances db (stored tools answers payload a db)
  unfolding stored
  stored-Advances (ok a) db = completed-Advances a db
  stored-Advances (raise e) db = refl

  rescue-Advances :
      (db : Db) (x : Result Bool × Db)
      → Advances db x
      → Advances db (rescue tools answers payload x)
  unfolding rescue
  rescue-Advances db (ok done, db') h = h
  rescue-Advances db (raise (extraction e), db') h = rw h (rejected-Advances e db)
  rescue-Advances db (raise (fetch_validation e), db') h = h
  rescue-Advances db (raise value_error, db') h = h
  rescue-Advances db (raise assertion_error, db') h = h
  rescue-Advances db (raise integrity_error, db') h = h
  rescue-Advances db (raise multiple_results, db') h = h
  rescue-Advances db (raise (runtime_error e), db') h = h
  rescue-Advances db (raise (external e), db') h = h
  rescue-Advances db (raise (http_exception n d), db') h = h
  rescue-Advances db (raise no_fuel, db') h = h

  pub handle-Advances : (db : Db) → Advances db (handle tools answers payload db)
  unfolding handle
  handle-Advances db = rescue-Advances db _ (stored-Advances (extract tools answers payload) db)
