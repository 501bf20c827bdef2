-- ===== src/Extractor/Repository/Isolation.antt =====
-- An extraction result is written in the rows of its own tenant only.
use enterprise_rag_ingestion.Prelude.{String, ◌≡◌, refl, Bool, true, Option, none, some, arith}
use enterprise_rag_ingestion.Exceptions.{ExtractionError, ok}
use enterprise_rag_ingestion.Uuid.{Codec}
use enterprise_rag_ingestion.Domain.Events.{DocumentFetched, Stamp}
use enterprise_rag_ingestion.Database.{Db, Version}
use enterprise_rag_ingestion.Database.Transaction.{lift}
use enterprise_rag_ingestion.Database.Statements.{Defaults, new_outbox_row}
use enterprise_rag_ingestion.Database.Keeps.{
  Keeps, Keeps-pure, Keeps-throw, Keeps-lift, Keeps-then, Keeps-bind,
}
use enterprise_rag_ingestion.Database.Tenants.{
  others, set_document_status-Keeps-others, update_version-Keeps-others, insert_outbox-Keeps-others,
}
use enterprise_rag_ingestion.Extractor.Payload.{Ids, payload_ids}
use enterprise_rag_ingestion.Extractor.Repository.{
  ExtractionResult, select_version, store_extraction, complete_found, complete_claimed, complete,
  reject_claimed, reject,
}
use enterprise_rag_ingestion.Extractor.Repository.Ledger.{claiming-Keeps-others}

module _ (codec : Codec) (docling_version : String) (stamp : Stamp) (defaults : Defaults)
    (payload : DocumentFetched) (ids : Ids) where
  store_extraction-Keeps-others :
      (r : ExtractionResult) (normalized manifest : String)
      → Keeps
          (others ids.tenant_id)
          (store_extraction codec docling_version stamp defaults payload r normalized manifest ids)
  unfolding store_extraction new_outbox_row
  store_extraction-Keeps-others r normalized manifest =
      Keeps-then _ _ (update_version-Keeps-others ids.tenant_id ids.version_id _ (λ v. refl)) (
        Keeps-then _ _ (set_document_status-Keeps-others ids.tenant_id _ ids.document_id) (
          Keeps-bind _ _ (Keeps-lift _) λ correlation_id.
            Keeps-then _ _ (insert_outbox-Keeps-others ids.tenant_id _ refl) (Keeps-pure true)))

  complete_found-Keeps-others :
      (r : ExtractionResult) (normalized manifest : String) (found : Option Version)
      → Keeps (others ids.tenant_id) (
          complete_found codec docling_version stamp defaults payload r normalized manifest ids
            found)
  unfolding complete_found
  complete_found-Keeps-others r normalized manifest none = Keeps-throw _
  complete_found-Keeps-others r normalized manifest (some v) =
      store_extraction-Keeps-others r normalized manifest

  select_version-Keeps-others :
      (content_sha256 : String) → Keeps (others ids.tenant_id) (select_version ids content_sha256)
  unfolding select_version lift
  select_version-Keeps-others content_sha256 = record { at = λ db db' a h. ground arith }

  complete_claimed-Keeps-others :
      (r : ExtractionResult) (normalized manifest : String)
      → Keeps
          (others ids.tenant_id)
          (complete_claimed codec docling_version stamp defaults payload r normalized manifest ids)
  unfolding complete_claimed
  complete_claimed-Keeps-others r normalized manifest =
      Keeps-bind _ _ (select_version-Keeps-others payload.content_sha256)
        (complete_found-Keeps-others r normalized manifest)

  reject_claimed-Keeps-others :
      (e : ExtractionError)
      → Keeps
          (others ids.tenant_id)
          (reject_claimed codec docling_version stamp defaults payload e ids)
  unfolding reject_claimed new_outbox_row
  reject_claimed-Keeps-others e =
      Keeps-then _ _ (update_version-Keeps-others ids.tenant_id ids.version_id _ (λ v. refl)) (
        Keeps-then _ _ (set_document_status-Keeps-others ids.tenant_id _ ids.document_id) (
          Keeps-bind _ _ (Keeps-lift _) λ correlation_id.
            Keeps-then _ _ (insert_outbox-Keeps-others ids.tenant_id _ refl) (Keeps-pure true)))

  -- A committed `complete` of an event whose identifiers can be read leaves every row of every tenant
  -- but the event's, in every table, as it was and in its order.
  pub complete-Keeps-others :
      (r : ExtractionResult) (normalized manifest : String) (db : Db) {db' : Db} {done : Bool}
      → payload_ids codec payload ≡ ok ids
      → complete codec docling_version stamp defaults payload r normalized manifest db
        ≡ ok (done, db')
      → others ids.tenant_id db' ≡ others ids.tenant_id db
  unfolding complete
  complete-Keeps-others r normalized manifest db {db'} {done} read committed =
      (claiming-Keeps-others codec payload _ read
          (complete_claimed-Keeps-others r normalized manifest)).at
        db db' done committed

  -- A committed `reject` of an event whose identifiers can be read leaves every row of every tenant
  -- but the event's, in every table, as it was and in its order.
  pub reject-Keeps-others :
      (e : ExtractionError) (db : Db) {db' : Db} {done : Bool}
      → payload_ids codec payload ≡ ok ids
      → reject codec docling_version stamp defaults payload e db ≡ ok (done, db')
      → others ids.tenant_id db' ≡ others ids.tenant_id db
  unfolding reject
  reject-Keeps-others e db {db'} {done} read committed =
      (claiming-Keeps-others codec payload _ read (reject_claimed-Keeps-others e)).at db db' done
        committed
