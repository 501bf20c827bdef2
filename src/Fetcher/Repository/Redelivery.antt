-- ===== src/Fetcher/Repository/Redelivery.antt =====
-- An event that is delivered again is not processed again: `DocumentFetcherRepository.process`.
use enterprise_rag_ingestion.Prelude.{◌≡◌, inl, inr, Bool, true, false, has, Option, arith}
use enterprise_rag_ingestion.Exceptions.{FetchValidationError, ok}
use enterprise_rag_ingestion.Uuid.{Uuid, Codec, uuid}
use enterprise_rag_ingestion.Domain.Events.{DocumentSubmitted, Stamp}
use enterprise_rag_ingestion.Database.{Db}
use enterprise_rag_ingestion.Database.Transaction.{lift, >>=-eq-ok}
use enterprise_rag_ingestion.Database.Statements.{Defaults, is_processed}
use enterprise_rag_ingestion.Database.Handoffs.{claim_row-found}
use enterprise_rag_ingestion.Fetcher.Inspect.{SourceInspection}
use enterprise_rag_ingestion.Fetcher.Repository.{consumer_name, process}
use enterprise_rag_ingestion.Fetcher.Repository.Handoff.{
  Processed, process-Processed, process-redelivered,
}

-- What `process` committed, it has recorded.
pub Processed-found :
    (stamp : Stamp) (t received : Uuid) (db db' : Db) (done : Bool)
    → Processed stamp t received db done db'
    → has (is_processed t received consumer_name) db'.processed ≡ true
Processed-found stamp t received db db' done (inl (skipped, same, found)) = rw same found
Processed-found stamp t received db db' done
      (inr (row, ended, fresh, added, free, processed, handoff)) =
    rw processed (claim_row-found t received consumer_name db.processed)

-- A transaction that committed has read its identifiers.
pub process-reads_ids :
    (codec : Codec) (stamp : Stamp) (defaults : Defaults) (payload : DocumentSubmitted)
    (i : Option SourceInspection) (e : Option FetchValidationError) (db : Db) {db' : Db}
    {done : Bool}
    → process codec stamp defaults payload i e db ≡ ok (done, db')
    → (t : Uuid) × (d : Uuid) × (received : Uuid) × (uuid codec payload.tenant_id ≡ ok t)
      × (uuid codec payload.document_id ≡ ok d)
      × (uuid codec payload.event_id ≡ ok received)
unfolding process lift
process-reads_ids codec stamp defaults payload i e db h =
    let (t, db1, own, rest1) = >>=-eq-ok (lift (uuid codec payload.tenant_id)) _ db h in
    let (d, db2, document, rest2) = >>=-eq-ok (lift (uuid codec payload.document_id)) _ db1 rest1 in
    let (r, db3, event, rest3) = >>=-eq-ok (lift (uuid codec payload.event_id)) _ db2 rest2 in
    (t, d, r, ground arith, ground arith, ground arith)

-- Once `process` has committed for an event whose identifiers can be read, `process` of the event on
-- the database that it left returns false and changes nothing, whatever the inspection and the fresh
-- identifiers.
pub process-idempotent :
    (codec : Codec) (stamp later : Stamp) (defaults defaults' : Defaults)
    (payload : DocumentSubmitted) {t d received : Uuid} (i i' : Option SourceInspection)
    (e e' : Option FetchValidationError) (db : Db) {db' : Db} {done : Bool}
    → uuid codec payload.tenant_id ≡ ok t
    → uuid codec payload.document_id ≡ ok d
    → uuid codec payload.event_id ≡ ok received
    → process codec stamp defaults payload i e db ≡ ok (done, db')
    → process codec later defaults' payload i' e' db' ≡ ok (false, db')
process-idempotent codec stamp later defaults defaults' payload {t} {d} {received} i i' e e' db
      {db'} {done} own document event committed =
    process-redelivered codec later defaults' payload own document event i' e' db' (
      Processed-found stamp t received db db' done
        (process-Processed codec stamp defaults payload own document event i e db committed))
