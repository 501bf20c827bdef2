-- ===== src/Submission.antt =====
-- `DocumentSubmissionRepository` of infrastructure/document_submission.py: a submission's document,
-- version and outbox row, in one transaction. Its proofs are in the modules below.
pub mod Isolation
pub mod Pipeline
pub mod Fetchable
use enterprise_rag_ingestion.Prelude.{
  ℕ, String, Bool, true, false, ◌&&◌, ◌||◌, not, Option, none, some, List, [], ◌∷◌, ◌++◌, nat_eq,
  string_eq, ◌==◌, has, update_where, if◌then◌else◌,
}
use enterprise_rag_ingestion.Json.{text, named, end, field}
use enterprise_rag_ingestion.Exceptions.{ok, raise, integrity_error}
use enterprise_rag_ingestion.Uuid.{Uuid}
use enterprise_rag_ingestion.Domain.Topics.{document_submitted}
use enterprise_rag_ingestion.Domain.Events.{DocumentSubmitted, Event}
use enterprise_rag_ingestion.Database.{
  Document, DocumentStatus, Version, InspectionStatus, ExtractionStatus, OutboxRow,
}
use enterprise_rag_ingestion.Database.Transaction.{Tx, ◌>>◌}
use enterprise_rag_ingestion.Database.Statements.{
  check_tenant, insert_outbox, Defaults, new_outbox_row,
}

-- The arguments of `create_submission` but the event.
pub record Submission : Type 0 where
  pub tenant_id : Uuid
  pub document_id : Uuid
  pub version_id : Uuid
  pub source_external_id : String
  pub title : Option String
  pub classification : String
  pub content_sha256 : String
  pub source_object_uri : String
  pub mime_type : String
  pub byte_size : ℕ

abbrev pub document_of : Submission → Document
document_of s = record {
  id = s.document_id;
  tenant_id = s.tenant_id;
  source_system = "api";
  source_external_id = s.source_external_id;
  title = s.title;
  classification = s.classification;
  status = DocumentStatus.submitted;
  current_version_id = none;
  is_deleted = false;
}

-- The columns that the insert leaves out have the defaults of the table.
abbrev pub version_of : Submission → Version
version_of s = record {
  id = s.version_id;
  tenant_id = s.tenant_id;
  document_id = s.document_id;
  version_number = 1;
  content_sha256 = s.content_sha256;
  source_object_uri = s.source_object_uri;
  normalized_object_uri = none;
  mime_type = s.mime_type;
  byte_size = s.byte_size;
  extraction_config = end;
  extraction_metadata = end;
  detected_mime_type = none;
  inspection_status = InspectionStatus.pending;
  inspection_metadata = end;
  extraction_status = ExtractionStatus.pending;
  extraction_manifest_uri = none;
  is_deleted = false;
}

-- The primary key, and `UNIQUE (tenant_id, source_system, source_external_id)`.
abbrev pub same_document : Document → Document → Bool
same_document d r =
    r.id == d.id
    || r.tenant_id == d.tenant_id
      && r.source_system == d.source_system
      && r.source_external_id == d.source_external_id

unfoldable pub store_document : Document → Tx Unit
store_document d db =
    if has (same_document d) db.documents
    then raise integrity_error
    else ok (tt, record db { documents = db.documents ++ d ∷ [] })

-- The primary key, `UNIQUE (tenant_id, document_id, version_number)` and
-- `UNIQUE (tenant_id, content_sha256)`.
abbrev pub same_version : Version → Version → Bool
same_version v r =
    r.id == v.id
    || r.tenant_id == v.tenant_id
      && r.document_id == v.document_id
      && r.version_number == v.version_number
    || r.tenant_id == v.tenant_id && r.content_sha256 == v.content_sha256

-- The foreign key to the document is checked with the keys.
unfoldable pub store_version : Version → Tx Unit
store_version v db =
    if has (same_version v) db.versions
      || not (has (λ r. r.tenant_id == v.tenant_id && r.id == v.document_id) db.documents)
    then raise integrity_error
    else ok (tt, record db { versions = db.versions ++ v ∷ [] })

-- `UPDATE rag.documents SET current_version_id = :version_id …`, under its foreign key.
unfoldable pub set_current_version : Uuid → Uuid → Uuid → Tx Unit
set_current_version tenant_id document_id version_id db =
    if has (λ r. r.tenant_id == tenant_id && r.id == version_id) db.versions
    then ok (
      tt,
      record db {
        documents =
            update_where (λ r. r.tenant_id == tenant_id && r.id == document_id)
              (λ r. record r { current_version_id = some version_id }) db.documents;
      },
    )
    else raise integrity_error

-- The outbox row of the event.
unfoldable pub submission_row : Defaults → Submission → Uuid → DocumentSubmitted → OutboxRow
submission_row defaults s event_id event_payload =
    new_outbox_row defaults s.tenant_id event_id "document" s.document_id "DocumentSubmitted"
      document_submitted "document-submitted" (Event.submitted event_payload)
      (field (named "event_type") (text "DocumentSubmitted") end)

unfoldable pub create_submission : Defaults → Submission → Uuid → DocumentSubmitted → Tx Unit
create_submission defaults s event_id event_payload =
    check_tenant s.tenant_id
    >> (store_document (document_of s)
        >> (check_tenant s.tenant_id
            >> (store_version (version_of s)
                >> (set_current_version s.tenant_id s.document_id s.version_id
                    >> insert_outbox (submission_row defaults s event_id event_payload)))))
