-- ===== src/Submission/Isolation.antt =====
-- A submission is written in the rows of its own tenant only.
use enterprise_rag_ingestion.Prelude.{
  ◌≡◌, refl, not, ◌&&◌, nat_eq, string_eq, ◌==◌, arith, some, select-update_where,
}
use enterprise_rag_ingestion.Exceptions.{ok}
use enterprise_rag_ingestion.Uuid.{Uuid}
use enterprise_rag_ingestion.Domain.Events.{DocumentSubmitted}
use enterprise_rag_ingestion.Database.{Db, Document, Version}
use enterprise_rag_ingestion.Database.Statements.{Defaults, new_outbox_row}
use enterprise_rag_ingestion.Database.Keeps.{Keeps, Keeps-then}
use enterprise_rag_ingestion.Database.Tenants.{
  others, select-append_unseen, is_own, check_tenant-Keeps-others, insert_outbox-Keeps-others,
}
use enterprise_rag_ingestion.Submission.{
  Submission, document_of, version_of, store_document, store_version, set_current_version,
  create_submission, submission_row,
}

module _ (t : Uuid) where
  store_document-Keeps-others :
      (row : Document) → row.tenant_id ≡ t → Keeps (others t) (store_document row)
  unfolding store_document others
  store_document-Keeps-others row own = record {
    at = λ db db' a h.
        ground
          (arith, select-append_unseen (λ r. not (r.tenant_id == t)) db.documents row (is_own own));
  }

  store_version-Keeps-others :
      (row : Version) → row.tenant_id ≡ t → Keeps (others t) (store_version row)
  unfolding store_version others
  store_version-Keeps-others row own = record {
    at = λ db db' a h.
        ground
          (arith, select-append_unseen (λ r. not (r.tenant_id == t)) db.versions row (is_own own));
  }

  set_current_version-Keeps-others : (d v : Uuid) → Keeps (others t) (set_current_version t d v)
  unfolding set_current_version others
  set_current_version-Keeps-others d v = record {
    at = λ db db' a h. ground (
      arith,
      select-update_where (λ r. not (r.tenant_id == t)) (λ r. r.tenant_id == t && r.id == d)
          (λ (r : Document). record r { current_version_id = some v }) db.documents
          (λ r hit. ground arith),
    );
  }

-- A committed submission leaves every row of every other tenant, in every table, as it was and in
-- its order.
pub create_submission-Keeps-others :
    (defaults : Defaults) (s : Submission) (event_id : Uuid) (payload : DocumentSubmitted)
    (db db' : Db)
    → create_submission defaults s event_id payload db ≡ ok (tt, db')
    → others s.tenant_id db' ≡ others s.tenant_id db
unfolding create_submission submission_row new_outbox_row
create_submission-Keeps-others defaults s event_id payload db db' committed =
    (Keeps-then _ _ (check_tenant-Keeps-others s.tenant_id s.tenant_id) (
        Keeps-then _ _ (store_document-Keeps-others s.tenant_id (document_of s) refl) (
          Keeps-then _ _ (check_tenant-Keeps-others s.tenant_id s.tenant_id) (
            Keeps-then _ _ (store_version-Keeps-others s.tenant_id (version_of s) refl) (
              Keeps-then _ _
                (set_current_version-Keeps-others s.tenant_id s.document_id s.version_id)
                (insert_outbox-Keeps-others s.tenant_id _ refl)))))).at
      db db' tt committed
