-- ===== src/Extractor/Repository.antt =====
-- `ContentExtractorRepository` of workers/content_extractor.py: one extraction result and its outbox
-- handoff in one transaction. Its proofs are in the modules below.
pub mod Ledger
pub mod Isolation
pub mod Handoff
use enterprise_rag_ingestion.Prelude.{
  String, Bool, true, false, not, ◌&&◌, Option, none, some, nat_eq, string_eq, ◌==◌, map, select,
  if◌then◌else◌,
}
use enterprise_rag_ingestion.Json.{text, named, dict, Fields, end, field}
use enterprise_rag_ingestion.Exceptions.{ExtractionError, extraction}
use enterprise_rag_ingestion.Uuid.{Uuid, Codec, uuid}
use enterprise_rag_ingestion.Domain.Topics.{content_extracted, dead_letter_topic}
use enterprise_rag_ingestion.Domain.Events.{
  DocumentFetched, Stamp, build_content_extracted_event, build_content_extraction_rejected_event,
  Event,
}
use enterprise_rag_ingestion.Database.{DocumentStatus, ExtractionStatus, Version}
use enterprise_rag_ingestion.Extractor.Payload.{Ids, payload_ids}
use enterprise_rag_ingestion.Database.Transaction.{Tx, pure, throw, lift, ◌>>=◌, ◌>>◌}
use enterprise_rag_ingestion.Database.Statements.{
  claim_event, set_document_status, update_version, one_or_none, insert_outbox, Defaults,
  new_outbox_row, handoff_headers,
}

abbrev pub consumer_name : String
consumer_name = "content-extractor"

-- The manifest's dictionary.
pub record Manifest : Type 0 where
  pub extractor : String
  pub extractor_version : String
  pub quality : Fields

pub record ExtractionResult : Type 0 where
  pub normalized : Fields
  pub manifest : Manifest
  pub extraction_status : ExtractionStatus

-- The text of a status.
abbrev pub status_text : ExtractionStatus → String
status_text ExtractionStatus.pending = "pending"
status_text ExtractionStatus.succeeded = "succeeded"
status_text ExtractionStatus.partial = "partial"
status_text ExtractionStatus.needs_review = "needs_review"
status_text ExtractionStatus.failed = "failed"

-- `"extracted" if result.extraction_status == "succeeded" else "failed"`
abbrev pub document_status : ExtractionStatus → DocumentStatus
document_status ExtractionStatus.succeeded = DocumentStatus.extracted
document_status _ = DocumentStatus.failed

abbrev pub unknown_document_version : ExtractionError
unknown_document_version = record {
  code = "unknown_document_version";
  detail = "Fetched event does not identify a current document version.";
}

-- The version that a fetched event names.
abbrev pub is_fetched : Ids → String → Version → Bool
is_fetched ids content_sha256 r =
    r.tenant_id == ids.tenant_id
    && r.id == ids.version_id
    && r.document_id == ids.document_id
    && r.content_sha256 == content_sha256
    && not r.is_deleted

unfoldable pub select_version : Ids → String → Tx (Option Version)
select_version ids content_sha256 db =
    lift (one_or_none (select (is_fetched ids content_sha256) db.versions)) db

-- The repository, with the version that `importlib.metadata` reports of Docling.
module _ (codec : Codec) (docling_version : String) (stamp : Stamp) (defaults : Defaults) where
  -- What follows the select of a version that is there.
  unfoldable pub store_extraction :
      DocumentFetched → ExtractionResult → String → String → Ids → Tx Bool
  store_extraction payload result normalized_uri manifest_uri ids = do
    let quality = result.manifest.quality
    update_version ids.tenant_id ids.version_id (λ v. record v {
      normalized_object_uri = some normalized_uri;
      extraction_manifest_uri = some manifest_uri;
      extraction_status = result.extraction_status;
      extraction_config =
          field (named "extractor") (text "docling")
            (field (named "extractor_version") (text docling_version) end);
      extraction_metadata = quality;
    })
    set_document_status (document_status result.extraction_status) ids.tenant_id ids.document_id
    correlation_id ← lift (uuid codec payload.correlation_id)
    let event =
        build_content_extracted_event codec stamp ids.tenant_id ids.document_id ids.version_id
          normalized_uri manifest_uri payload.content_sha256 "docling" docling_version
          (status_text result.extraction_status) quality correlation_id ids.received_event_id
    insert_outbox (
        new_outbox_row defaults ids.tenant_id event.0 "document_version" ids.version_id
          "ContentExtracted" content_extracted "content-extracted" (Event.extracted event.1)
          (handoff_headers "ContentExtracted" (codec.str ids.received_event_id)))
    pure true

  unfoldable pub complete_found :
      DocumentFetched → ExtractionResult → String → String → Ids → Option Version → Tx Bool
  complete_found payload result normalized_uri manifest_uri ids none =
      throw (extraction unknown_document_version)
  complete_found payload result normalized_uri manifest_uri ids (some version) =
      store_extraction payload result normalized_uri manifest_uri ids

  -- The statements of `complete` after a successful claim.
  unfoldable pub complete_claimed :
      DocumentFetched → ExtractionResult → String → String → Ids → Tx Bool
  complete_claimed payload result normalized_uri manifest_uri ids = do
    version ← select_version ids payload.content_sha256
    complete_found payload result normalized_uri manifest_uri ids version

  -- One transaction: false for an event that this consumer has already processed.
  unfoldable pub complete : DocumentFetched → ExtractionResult → String → String → Tx Bool
  complete payload result normalized_uri manifest_uri = do
    ids ← lift (payload_ids codec payload)
    claimed ← claim_event ids.tenant_id ids.received_event_id consumer_name
    if claimed then complete_claimed payload result normalized_uri manifest_uri ids else pure false

  -- The statements of `reject` after a successful claim.
  unfoldable pub reject_claimed : DocumentFetched → ExtractionError → Ids → Tx Bool
  reject_claimed payload error ids = do
    update_version ids.tenant_id ids.version_id (λ v. record v {
      extraction_status = ExtractionStatus.failed;
      extraction_metadata = field (named "error_code") (text error.code) end;
    })
    set_document_status DocumentStatus.failed ids.tenant_id ids.document_id
    correlation_id ← lift (uuid codec payload.correlation_id)
    let event =
        build_content_extraction_rejected_event codec stamp ids.tenant_id ids.document_id
          ids.version_id correlation_id ids.received_event_id error.code
    insert_outbox (
        new_outbox_row defaults ids.tenant_id event.0 "document_version" ids.version_id
          "ContentExtractionRejected" (dead_letter_topic consumer_name)
          "content-extraction-rejected" (Event.extraction_rejected event.1)
          (handoff_headers "ContentExtractionRejected" (codec.str ids.received_event_id)))
    pure true

  unfoldable pub reject : DocumentFetched → ExtractionError → Tx Bool
  reject payload error = do
    ids ← lift (payload_ids codec payload)
    claimed ← claim_event ids.tenant_id ids.received_event_id consumer_name
    if claimed then reject_claimed payload error ids else pure false
