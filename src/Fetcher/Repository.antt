-- ===== src/Fetcher/Repository.antt =====
-- `DocumentFetcherRepository` of workers/document_fetcher.py: one fetch result and its outbox handoff
-- in one transaction. Its proofs are in the modules below.
pub mod Isolation
pub mod Handoff
pub mod Redelivery
pub mod Verdict
pub mod Judged
use enterprise_rag_ingestion.Prelude.{
  String, Bool, true, false, not, ◌&&◌, Option, none, some, nat_eq, string_eq, ◌==◌, select,
  if◌then◌else◌,
}
use enterprise_rag_ingestion.Json.{text, named, Fields, end, field, set_field, update}
use enterprise_rag_ingestion.Exceptions.{FetchValidationError, assertion_error}
use enterprise_rag_ingestion.Uuid.{Uuid, Codec, uuid}
use enterprise_rag_ingestion.Domain.Topics.{document_fetched, dead_letter_topic}
use enterprise_rag_ingestion.Domain.Events.{
  DocumentSubmitted, Stamp, build_document_fetched_event, build_document_fetch_rejected_event,
  Event,
}
use enterprise_rag_ingestion.Database.{DocumentStatus, InspectionStatus, Version}
use enterprise_rag_ingestion.Database.Transaction.{Tx, pure, throw, lift, ◌>>=◌, ◌>>◌}
use enterprise_rag_ingestion.Database.Statements.{
  claim_event, set_document_status, update_version, one_or_none, insert_outbox, Defaults,
  new_outbox_row, insert_failure, handoff_headers,
}
use enterprise_rag_ingestion.Fetcher.Inspect.{
  SourceInspection, permitted_mime, declared_mime_type_mismatch,
}

abbrev pub consumer_name : String
consumer_name = "document-fetcher"

abbrev pub unknown_source_object : FetchValidationError
unknown_source_object = record {
  code = "unknown_source_object";
  detail = "Submitted object is not a current document version.";
  metadata = end;
}

abbrev pub source_checksum_mismatch : FetchValidationError
source_checksum_mismatch = record {
  code = "source_checksum_mismatch";
  detail = "Stored object differs from submitted version.";
  metadata = end;
}

-- The version that a submitted event names.
abbrev pub is_source : Uuid → Uuid → String → Version → Bool
is_source tenant_id document_id source_uri r =
    r.tenant_id == tenant_id
    && r.document_id == document_id
    && r.source_object_uri == source_uri
    && not r.is_deleted

unfoldable pub select_source : Uuid → Uuid → String → Tx (Option Version)
select_source tenant_id document_id source_uri db =
    lift (one_or_none (select (is_source tenant_id document_id source_uri) db.versions)) db

-- `if inspection is not None and inspection.content_sha256 != version["content_sha256"]`
abbrev checksum_error :
    Version → Option SourceInspection → Option FetchValidationError → Option FetchValidationError
checksum_error version none error = error
checksum_error version (some i) error =
    if i.content_sha256 == version.content_sha256 then error else some source_checksum_mismatch

-- `if error is None and version["mime_type"] not in {…}`
abbrev mime_error : Version → Option FetchValidationError → Option FetchValidationError
mime_error version none =
    if permitted_mime version.mime_type then none else some declared_mime_type_mismatch
mime_error version (some error) = some error

-- The `error` that decides between the two ends of `process`.
unfoldable pub verdict :
    Version → Option SourceInspection → Option FetchValidationError → Option FetchValidationError
verdict version inspection error = mime_error version (checksum_error version inspection error)

-- `{"validation_error": error.code, "message": str(error), **error.metadata}`
unfoldable pub error_metadata : FetchValidationError → Fields
unfolding update
error_metadata error =
    update
      (field (named "validation_error") (text error.code)
        (field (named "message") (text error.detail) end))
      error.metadata

module _ (codec : Codec) (stamp : Stamp) (defaults : Defaults) where
  unfoldable pub enqueue_failure : DocumentSubmitted → FetchValidationError → Tx Unit
  enqueue_failure payload error = do
    tenant_id ← lift (uuid codec payload.tenant_id)
    document_id ← lift (uuid codec payload.document_id)
    correlation_id ← lift (uuid codec payload.correlation_id)
    causation_id ← lift (uuid codec payload.event_id)
    let event =
        build_document_fetch_rejected_event codec stamp tenant_id document_id payload.payload_uri
          correlation_id causation_id error.code error.metadata
    insert_outbox (
        new_outbox_row defaults tenant_id event.0 "document" document_id "DocumentFetchRejected"
          (dead_letter_topic consumer_name) "document-fetch-rejected" (Event.fetch_rejected event.1)
          (handoff_headers "DocumentFetchRejected" payload.event_id))

  -- The end of `process` for a version that is refused.
  unfoldable pub reject :
      DocumentSubmitted → Uuid → Uuid → Uuid → Uuid → FetchValidationError → Tx Bool
  reject payload tenant_id document_id version_id received_event_id error = do
    let metadata = error_metadata error
    update_version tenant_id version_id (λ v. record v {
      inspection_status = InspectionStatus.invalid;
      inspection_metadata = metadata;
    })
    set_document_status DocumentStatus.failed tenant_id document_id
    insert_failure (record {
      tenant_id = tenant_id;
      document_version_id = version_id;
      event_id = received_event_id;
      stage = "document-fetcher";
      error_class = "validation";
      error_code = error.code;
      error_detail = metadata;
    })
    enqueue_failure payload error
    pure true

  -- The end of `process` for a version that passed.
  unfoldable pub accept :
      DocumentSubmitted → Uuid → Uuid → Version → Uuid → SourceInspection → Tx Bool
  accept payload tenant_id document_id version received_event_id inspection = do
    let metadata = set_field "declared_mime_type" (text version.mime_type) inspection.metadata
    update_version tenant_id version.id (λ v. record v {
      detected_mime_type = some inspection.detected_mime_type;
      inspection_status = InspectionStatus.valid;
      inspection_metadata = metadata;
    })
    set_document_status DocumentStatus.fetched tenant_id document_id
    correlation_id ← lift (uuid codec payload.correlation_id)
    let event =
        build_document_fetched_event codec stamp tenant_id document_id version.id
          payload.payload_uri inspection.detected_mime_type inspection.content_sha256
          inspection.byte_size metadata correlation_id received_event_id
    insert_outbox (
        new_outbox_row defaults tenant_id event.0 "document_version" version.id "DocumentFetched"
          document_fetched "document-fetched" (Event.fetched event.1)
          (handoff_headers "DocumentFetched" (codec.str received_event_id)))
    pure true

  -- `assert inspection is not None`
  unfoldable pub accept_inspected :
      DocumentSubmitted → Uuid → Uuid → Version → Uuid → Option SourceInspection → Tx Bool
  accept_inspected payload tenant_id document_id version received none = throw assertion_error
  accept_inspected payload tenant_id document_id version received (some inspection) =
      accept payload tenant_id document_id version received inspection

  -- What follows the final `error`.
  unfoldable pub finish :
      DocumentSubmitted
      → Uuid
      → Uuid
      → Version
      → Uuid
      → Option SourceInspection
      → Option FetchValidationError
      → Tx Bool
  finish payload tenant_id document_id version received inspection none =
      accept_inspected payload tenant_id document_id version received inspection
  finish payload tenant_id document_id version received inspection (some error) =
      reject payload tenant_id document_id version.id received error

  -- What follows the select of the version.
  unfoldable pub settle :
      DocumentSubmitted
      → Uuid
      → Uuid
      → Uuid
      → Option SourceInspection
      → Option FetchValidationError
      → Option Version
      → Tx Bool
  settle payload tenant_id document_id received inspection error none =
      enqueue_failure payload unknown_source_object >> pure true
  settle payload tenant_id document_id received inspection error (some version) =
      finish payload tenant_id document_id version received inspection
        (verdict version inspection error)

  -- The statements after a successful claim.
  unfoldable pub process_claimed :
      DocumentSubmitted
      → Uuid
      → Uuid
      → Uuid
      → Option SourceInspection
      → Option FetchValidationError
      → Tx Bool
  process_claimed payload tenant_id document_id received inspection error = do
    version ← select_source tenant_id document_id payload.payload_uri
    settle payload tenant_id document_id received inspection error version

  -- One transaction: false for an event that this consumer has already processed.
  unfoldable pub process :
      DocumentSubmitted → Option SourceInspection → Option FetchValidationError → Tx Bool
  process payload inspection error = do
    tenant_id ← lift (uuid codec payload.tenant_id)
    document_id ← lift (uuid codec payload.document_id)
    received_event_id ← lift (uuid codec payload.event_id)
    claimed ← claim_event tenant_id received_event_id consumer_name
    if claimed
        then process_claimed payload tenant_id document_id received_event_id inspection error
        else pure false
