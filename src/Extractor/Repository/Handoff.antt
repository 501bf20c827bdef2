-- ===== src/Extractor/Repository/Handoff.antt =====
-- One claimed event is one extraction handoff, and an event that ended is not run again.
use enterprise_rag_ingestion.Prelude.{
  String, ◌≡◌, refl, Bool, true, false, Option, none, some, arith,
}
use enterprise_rag_ingestion.Exceptions.{ExtractionError, ok}
use enterprise_rag_ingestion.Uuid.{Codec}
use enterprise_rag_ingestion.Domain.Topics.{content_extracted, dead_letter_topic}
use enterprise_rag_ingestion.Domain.Events.{
  DocumentFetched, Stamp, build_content_extracted_event, build_content_extraction_rejected_event,
}
use enterprise_rag_ingestion.Database.{Db, Version, OutboxRow, OutboxStatus}
use enterprise_rag_ingestion.Database.Transaction.{lift}
use enterprise_rag_ingestion.Database.Statements.{Defaults, new_outbox_row}
use enterprise_rag_ingestion.Database.Keeps.{Keeps, Keeps-lift}
use enterprise_rag_ingestion.Database.Handoffs.{
  queues, Emits, Emits-bind, Emits-throw, Emits-then, Emits-pure, set_document_status-Keeps-queues,
  update_version-Keeps-queues, insert_outbox-Emits,
}
use enterprise_rag_ingestion.Extractor.Payload.{Ids, payload_ids}
use enterprise_rag_ingestion.Extractor.Repository.{
  consumer_name, ExtractionResult, select_version, store_extraction, complete_found,
  complete_claimed, complete, reject_claimed, reject,
}
use enterprise_rag_ingestion.Extractor.Repository.Ledger.{
  Recorded, claiming-Recorded, claiming-redelivered, Recorded-found, claiming-reads_ids,
}

-- A new outbox row of a tenant, about a version, for one topic and one contract.
pub record IsHandoffTo (topic schema : String) (stamp : Stamp) (ids : Ids) (row : OutboxRow)
    : Type 0 where
  pub tenant : row.tenant_id ≡ ids.tenant_id
  pub aggregate : row.aggregate_id ≡ ids.version_id
  pub event : row.event_id ≡ stamp.event_id
  pub status : row.status ≡ OutboxStatus.pending
  pub attempts : row.attempt_count ≡ 0
  pub kafka_topic : row.kafka_topic ≡ topic
  pub namespace : row.event_contract_namespace ≡ "rag.ingestion.v1"
  pub contract : row.event_schema_name ≡ schema

module _ (codec : Codec) (docling_version : String) (stamp : Stamp) (defaults : Defaults)
    (payload : DocumentFetched) (ids : Ids) where
  abbrev pub Extracted : OutboxRow → Type 0
  Extracted = IsHandoffTo content_extracted "content-extracted" stamp ids

  abbrev pub Rejected : OutboxRow → Type 0
  Rejected = IsHandoffTo (dead_letter_topic consumer_name) "content-extraction-rejected" stamp ids

  store_extraction-Emits :
      (r : ExtractionResult) (normalized manifest : String)
      → Emits
          (λ done row. (done ≡ true) × Extracted row)
          (store_extraction codec docling_version stamp defaults payload r normalized manifest ids)
  unfolding store_extraction new_outbox_row build_content_extracted_event
  store_extraction-Emits r normalized manifest =
      Emits-then _ _ (update_version-Keeps-queues ids.tenant_id ids.version_id _) (
        Emits-then _ _ (set_document_status-Keeps-queues _ ids.tenant_id ids.document_id) (
          Emits-bind _ _ (Keeps-lift _) λ correlation_id. Emits-pure _ true (
            insert_outbox-Emits _ _ λ _. (
              refl,
              record {
                tenant = refl;
                aggregate = refl;
                event = refl;
                status = refl;
                attempts = refl;
                kafka_topic = refl;
                namespace = refl;
                contract = refl;
              },
            ))))

  complete_found-Emits :
      (r : ExtractionResult) (normalized manifest : String) (found : Option Version)
      → Emits
          (λ done row. (done ≡ true) × Extracted row)
          (complete_found codec docling_version stamp defaults payload r normalized manifest ids
            found)
  unfolding complete_found
  complete_found-Emits r normalized manifest none = Emits-throw _
  complete_found-Emits r normalized manifest (some v) = store_extraction-Emits r normalized manifest

  select_version-Keeps-queues :
      (content_sha256 : String) → Keeps queues (select_version ids content_sha256)
  unfolding select_version lift
  select_version-Keeps-queues content_sha256 = record { at = λ db db' a h. ground arith }

  complete_claimed-Emits :
      (r : ExtractionResult) (normalized manifest : String)
      → Emits
          (λ done row. (done ≡ true) × Extracted row)
          (complete_claimed codec docling_version stamp defaults payload r normalized manifest ids)
  unfolding complete_claimed
  complete_claimed-Emits r normalized manifest =
      Emits-bind _ _ (select_version-Keeps-queues payload.content_sha256)
        (complete_found-Emits r normalized manifest)

  reject_claimed-Emits :
      (e : ExtractionError)
      → Emits
          (λ done row. (done ≡ true) × Rejected row)
          (reject_claimed codec docling_version stamp defaults payload e ids)
  unfolding reject_claimed new_outbox_row build_content_extraction_rejected_event
  reject_claimed-Emits e =
      Emits-then _ _ (update_version-Keeps-queues ids.tenant_id ids.version_id _) (
        Emits-then _ _ (set_document_status-Keeps-queues _ ids.tenant_id ids.document_id) (
          Emits-bind _ _ (Keeps-lift _) λ correlation_id. Emits-pure _ true (
            insert_outbox-Emits _ _ λ _. (
              refl,
              record {
                tenant = refl;
                aggregate = refl;
                event = refl;
                status = refl;
                attempts = refl;
                kafka_topic = refl;
                namespace = refl;
                contract = refl;
              },
            ))))

  -- A committed `complete` of an event whose identifiers can be read either found the event in the
  -- ledger, returned false and changed nothing, or returned true after it added the event to the
  -- ledger and exactly one new pending row, clashing with none, to the outbox: the version's, for `content.extracted`.
  pub complete-Recorded :
      (r : ExtractionResult) (normalized manifest : String) (db : Db) {db' : Db} {done : Bool}
      → payload_ids codec payload ≡ ok ids
      → complete codec docling_version stamp defaults payload r normalized manifest db
        ≡ ok (done, db')
      → Recorded Extracted ids db done db'
  unfolding complete
  complete-Recorded r normalized manifest db read committed =
      claiming-Recorded codec payload _ read Extracted db
        (complete_claimed-Emits r normalized manifest) committed

  -- A committed `reject` of an event whose identifiers can be read either found the event in the
  -- ledger, returned false and changed nothing, or returned true after it added the event to the
  -- ledger and exactly one new pending row, clashing with none, to the outbox: the version's, for the stage's DLQ.
  pub reject-Recorded :
      (e : ExtractionError) (db : Db) {db' : Db} {done : Bool}
      → payload_ids codec payload ≡ ok ids
      → reject codec docling_version stamp defaults payload e db ≡ ok (done, db')
      → Recorded Rejected ids db done db'
  unfolding reject
  reject-Recorded e db read committed =
      claiming-Recorded codec payload _ read Rejected db (reject_claimed-Emits e) committed

-- Once `complete` has committed for an event whose identifiers can be read, a `complete` and a
-- `reject` of the event on the database that it left both return false and change nothing, whatever
-- their results and their fresh identifiers.
pub complete-ends :
    (codec : Codec) (docling_version : String) (stamp later : Stamp) (defaults defaults' : Defaults)
    (payload : DocumentFetched) (ids : Ids) (r r' : ExtractionResult)
    (normalized manifest normalized' manifest' : String) (e : ExtractionError) (db : Db) {db' : Db}
    {done : Bool}
    → payload_ids codec payload ≡ ok ids
    → complete codec docling_version stamp defaults payload r normalized manifest db
      ≡ ok (done, db')
    → (complete codec docling_version later defaults' payload r' normalized' manifest' db'
        ≡ ok (false, db'))
      × (reject codec docling_version later defaults' payload e db' ≡ ok (false, db'))
unfolding complete reject
complete-ends codec docling_version stamp later defaults defaults' payload ids r r' normalized
      manifest normalized' manifest' e db {db'} {done} read committed =
    let found =
      Recorded-found (Extracted codec docling_version stamp defaults payload ids) ids db db' done (
        complete-Recorded codec docling_version stamp defaults payload ids r normalized manifest db
          read committed) in
    (
      claiming-redelivered codec payload _ read db' found,
      claiming-redelivered codec payload _ read db' found,
    )

module _ (codec : Codec) (docling_version : String) (stamp : Stamp) (defaults : Defaults)
    (payload : DocumentFetched) where
  pub complete-reads_ids :
      (r : ExtractionResult) (normalized manifest : String) (db : Db) {db' : Db} {done : Bool}
      → complete codec docling_version stamp defaults payload r normalized manifest db
        ≡ ok (done, db')
      → (ids : Ids) × (payload_ids codec payload ≡ ok ids)
  unfolding complete
  complete-reads_ids r normalized manifest db h = claiming-reads_ids codec payload _ db h

  pub reject-reads_ids :
      (e : ExtractionError) (db : Db) {db' : Db} {done : Bool}
      → reject codec docling_version stamp defaults payload e db ≡ ok (done, db')
      → (ids : Ids) × (payload_ids codec payload ≡ ok ids)
  unfolding reject
  reject-reads_ids e db h = claiming-reads_ids codec payload _ db h
