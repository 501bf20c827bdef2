-- ===== src/Tests/Data.antt =====
-- The data of the tests: one tenant with one submitted document, and the values that the workers'
-- surroundings answer.
use enterprise_rag_ingestion.Prelude.{false, none, some, [], ◌∷◌}
use enterprise_rag_ingestion.Json.{end}
use enterprise_rag_ingestion.Exceptions.{Result, ok, raise}
use enterprise_rag_ingestion.Domain.Events.{DocumentSubmitted, DocumentFetched, Stamp}
use enterprise_rag_ingestion.Json.{dict}
use enterprise_rag_ingestion.Database.{
  Db, Document, DocumentStatus, Version, InspectionStatus, ExtractionStatus,
}
use enterprise_rag_ingestion.Database.Statements.{Defaults}

abbrev pub stamp : Stamp
stamp = record { event_id = 6; occurred_at = "2026-01-01T00:00:00+00:00" }

abbrev pub later : Stamp
later = record { event_id = 8; occurred_at = "2026-01-01T00:01:00+00:00" }

abbrev pub defaults : Defaults
defaults = record { row_id = 7; now = 100 }

abbrev pub submitted : DocumentSubmitted
submitted = record {
  envelope = record {
    event_id = "xxxx";
    event_type = "DocumentSubmitted";
    occurred_at = "2026-01-01T00:00:00+00:00";
    correlation_id = "xxxxx";
    causation_id = none;
    tenant_id = "x";
    document_id = "xx";
    schema_version = "1.0.0";
  };
  payload_uri = "s3://sources/a.pdf";
}

abbrev pub fetched : DocumentFetched
fetched = record {
  envelope = record {
    event_id = "xxxx";
    event_type = "DocumentFetched";
    occurred_at = "2026-01-01T00:00:00+00:00";
    correlation_id = "xxxxx";
    causation_id = some "xxxx";
    tenant_id = "x";
    document_id = "xx";
    schema_version = "1.0.0";
  };
  document_version_id = "xxx";
  payload_uri = "s3://sources/a.pdf";
  detected_mime_type = "application/pdf";
  content_sha256 = "digest";
  byte_size = 6;
  inspection_status = "valid";
  inspection_metadata = dict end;
}

abbrev pub document : Document
document = record {
  id = 2;
  tenant_id = 1;
  source_system = "crm";
  source_external_id = "a";
  title = some "A";
  classification = "internal";
  status = DocumentStatus.submitted;
  current_version_id = some 3;
  is_deleted = false;
}

abbrev pub version : Version
version = record {
  id = 3;
  tenant_id = 1;
  document_id = 2;
  version_number = 1;
  content_sha256 = "digest";
  source_object_uri = "s3://sources/a.pdf";
  normalized_object_uri = none;
  mime_type = "application/pdf";
  byte_size = 6;
  extraction_config = end;
  extraction_metadata = end;
  detected_mime_type = none;
  inspection_status = InspectionStatus.pending;
  inspection_metadata = end;
  extraction_status = ExtractionStatus.pending;
  extraction_manifest_uri = none;
  is_deleted = false;
}

abbrev pub db : Db
db = record {
  tenants = 1 ∷ [];
  documents = document ∷ [];
  versions = version ∷ [];
  outbox = [];
  processed = [];
  failures = [];
}

-- The database that a transaction leaves.
abbrev pub db_of {ℓ} : {A : Type ℓ} → Result (A × Db) → Db → Db
db_of (ok (a, after)) before = after
db_of (raise e) before = before
