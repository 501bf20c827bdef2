-- ===== src/Domain/Events.antt =====
-- The event payloads and their builders (domain/events/*.py). `uuid4()` and the clock's ISO text are
-- arguments; a field that the source fills by `json.dumps` holds the value that the text encodes.
use enterprise_rag_ingestion.Prelude.{ℕ, String, Option, none, some}
use enterprise_rag_ingestion.Json.{Value, dict, text, named, Fields, end, field, update}
use enterprise_rag_ingestion.Uuid.{Uuid, Codec}

-- What every payload of the stream carries.
pub record Envelope : Type 0 where
  pub event_id : String
  pub event_type : String
  pub occurred_at : String
  pub correlation_id : String
  pub causation_id : Option String
  pub tenant_id : String
  pub document_id : String
  pub schema_version : String

pub record DocumentSubmitted : Type 0 where
  pub envelope : Envelope
  pub open envelope use *
  pub payload_uri : String

pub record DocumentFetched : Type 0 where
  pub envelope : Envelope
  pub open envelope use *
  pub document_version_id : String
  pub payload_uri : String
  pub detected_mime_type : String
  pub content_sha256 : String
  pub byte_size : ℕ
  pub inspection_status : String
  pub inspection_metadata : Value

pub record DocumentFetchRejected : Type 0 where
  pub envelope : Envelope
  pub open envelope use *
  pub payload_uri : String
  pub inspection_status : String
  pub inspection_metadata : Value

pub record ContentExtracted : Type 0 where
  pub envelope : Envelope
  pub open envelope use *
  pub document_version_id : String
  pub normalized_artifact_uri : String
  pub manifest_uri : String
  pub content_sha256 : String
  pub extractor_name : String
  pub extractor_version : String
  pub extraction_status : String
  pub quality_summary : Value

pub record ContentExtractionRejected : Type 0 where
  pub envelope : Envelope
  pub open envelope use *
  pub document_version_id : String
  pub error_code : String

-- The payloads that the outbox holds.
pub data Event : Type 0 where
  submitted : DocumentSubmitted → Event
  fetched : DocumentFetched → Event
  fetch_rejected : DocumentFetchRejected → Event
  extracted : ContentExtracted → Event
  extraction_rejected : ContentExtractionRejected → Event

-- `uuid4()` and `datetime.now(UTC).isoformat()` of one builder call.
pub record Stamp : Type 0 where
  pub event_id : Uuid
  pub occurred_at : String

module _ (codec : Codec) (stamp : Stamp) where
  envelope_of : String → Uuid → Uuid → Uuid → Option String → Envelope
  envelope_of event_type tenant_id document_id correlation_id causation_id = record {
    event_id = codec.str stamp.event_id;
    event_type = event_type;
    occurred_at = stamp.occurred_at;
    correlation_id = codec.str correlation_id;
    causation_id = causation_id;
    tenant_id = codec.str tenant_id;
    document_id = codec.str document_id;
    schema_version = "1.0.0";
  }

  -- `correlation_id or event_id`: a UUID object is never falsy.
  correlation_or_event : Option Uuid → Uuid
  correlation_or_event none = stamp.event_id
  correlation_or_event (some id) = id

  unfoldable pub build_document_submitted_event :
      Uuid → Uuid → String → Option Uuid → Uuid × DocumentSubmitted
  unfolding envelope_of correlation_or_event
  build_document_submitted_event tenant_id document_id payload_uri correlation_id = (
    stamp.event_id,
    record {
      envelope =
          envelope_of "DocumentSubmitted" tenant_id document_id
            (correlation_or_event correlation_id) none;
      payload_uri = payload_uri;
    },
  )

  unfoldable pub build_document_fetched_event :
      Uuid
      → Uuid
      → Uuid
      → String
      → String
      → String
      → ℕ
      → Fields
      → Uuid
      → Uuid
      → Uuid × DocumentFetched
  unfolding envelope_of
  build_document_fetched_event tenant_id document_id document_version_id payload_uri
        detected_mime_type content_sha256 byte_size inspection_metadata correlation_id
        causation_id =
      (
        stamp.event_id,
        record {
          envelope =
              envelope_of "DocumentFetched" tenant_id document_id correlation_id
                (some (codec.str causation_id));
          document_version_id = codec.str document_version_id;
          payload_uri = payload_uri;
          detected_mime_type = detected_mime_type;
          content_sha256 = content_sha256;
          byte_size = byte_size;
          inspection_status = "valid";
          inspection_metadata = dict inspection_metadata;
        },
      )

  unfoldable pub build_document_fetch_rejected_event :
      Uuid → Uuid → String → Uuid → Uuid → String → Fields → Uuid × DocumentFetchRejected
  unfolding envelope_of update
  build_document_fetch_rejected_event tenant_id document_id payload_uri correlation_id causation_id
        error_code inspection_metadata =
      (
        stamp.event_id,
        record {
          envelope =
              envelope_of "DocumentFetchRejected" tenant_id document_id correlation_id
                (some (codec.str causation_id));
          payload_uri = payload_uri;
          inspection_status = "invalid";
          inspection_metadata =
              dict (
                update (field (named "validation_error") (text error_code) end)
                  inspection_metadata);
        },
      )

  unfoldable pub build_content_extracted_event :
      Uuid
      → Uuid
      → Uuid
      → String
      → String
      → String
      → String
      → String
      → String
      → Fields
      → Uuid
      → Uuid
      → Uuid × ContentExtracted
  unfolding envelope_of
  build_content_extracted_event tenant_id document_id document_version_id normalized_artifact_uri
        manifest_uri content_sha256 extractor_name extractor_version extraction_status
        quality_summary correlation_id causation_id =
      (
        stamp.event_id,
        record {
          envelope =
              envelope_of "ContentExtracted" tenant_id document_id correlation_id
                (some (codec.str causation_id));
          document_version_id = codec.str document_version_id;
          normalized_artifact_uri = normalized_artifact_uri;
          manifest_uri = manifest_uri;
          content_sha256 = content_sha256;
          extractor_name = extractor_name;
          extractor_version = extractor_version;
          extraction_status = extraction_status;
          quality_summary = dict quality_summary;
        },
      )

  unfoldable pub build_content_extraction_rejected_event :
      Uuid → Uuid → Uuid → Uuid → Uuid → String → Uuid × ContentExtractionRejected
  unfolding envelope_of
  build_content_extraction_rejected_event tenant_id document_id document_version_id correlation_id
        causation_id error_code =
      (
        stamp.event_id,
        record {
          envelope =
              envelope_of "ContentExtractionRejected" tenant_id document_id correlation_id
                (some (codec.str causation_id));
          document_version_id = codec.str document_version_id;
          error_code = error_code;
        },
      )
