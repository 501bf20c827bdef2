-- ===== src/Database.antt =====
-- The tables of migrations/001 to 006 that the API and the workers write. Timestamps that no
-- statement reads back are left out, and so are columns that no statement of the source sets.
pub mod Transaction
pub mod Statements
pub mod Keeps
pub mod Tenants
pub mod Handoffs
pub mod Updates
use enterprise_rag_ingestion.Prelude.{ℕ, String, Bool, Option, List}
use enterprise_rag_ingestion.Json.{Fields}
use enterprise_rag_ingestion.Uuid.{Uuid}
use enterprise_rag_ingestion.Domain.Events.{Event}

-- `rag.document_status`
pub data DocumentStatus : Type 0 where
  submitted fetching fetched extracting extracted : DocumentStatus
  chunking embedding indexing ready failed deleted : DocumentStatus

-- The check constraint on `inspection_status`.
pub data InspectionStatus : Type 0 where
  pending valid invalid unsupported : InspectionStatus

-- The check constraint on `extraction_status`.
pub data ExtractionStatus : Type 0 where
  pending succeeded partial needs_review failed : ExtractionStatus

-- The check constraint on the outbox's `status`.
pub data OutboxStatus : Type 0 where
  pending publishing published failed : OutboxStatus

-- `rag.documents`; `is_deleted` says that `deleted_at` is set.
pub record Document : Type 0 where
  pub id : Uuid
  pub tenant_id : Uuid
  pub source_system : String
  pub source_external_id : String
  pub title : Option String
  pub classification : String
  pub status : DocumentStatus
  pub current_version_id : Option Uuid
  pub is_deleted : Bool

-- `rag.document_versions`
pub record Version : Type 0 where
  pub id : Uuid
  pub tenant_id : Uuid
  pub document_id : Uuid
  pub version_number : ℕ
  pub content_sha256 : String
  pub source_object_uri : String
  pub normalized_object_uri : Option String
  pub mime_type : String
  pub byte_size : ℕ
  pub extraction_config : Fields
  pub extraction_metadata : Fields
  pub detected_mime_type : Option String
  pub inspection_status : InspectionStatus
  pub inspection_metadata : Fields
  pub extraction_status : ExtractionStatus
  pub extraction_manifest_uri : Option String
  pub is_deleted : Bool

-- `rag.ingestion_outbox`, with the column names of migration 003.
pub record OutboxRow : Type 0 where
  pub id : Uuid
  pub tenant_id : Uuid
  pub event_id : Uuid
  pub aggregate_type : String
  pub aggregate_id : Uuid
  pub event_type : String
  pub kafka_topic : String
  pub event_contract_namespace : String
  pub event_schema_name : String
  pub payload : Event
  pub headers : Fields
  pub status : OutboxStatus
  pub attempt_count : ℕ
  pub available_at : ℕ
  pub locked_at : Option ℕ
  pub locked_by : Option String
  pub published_at : Option ℕ
  pub last_error : Option String
  pub created_at : ℕ

-- `rag.processed_events`, by its primary key.
pub record ProcessedEvent : Type 0 where
  pub tenant_id : Uuid
  pub event_id : Uuid
  pub consumer_name : String

-- `rag.ingestion_failures`
pub record Failure : Type 0 where
  pub tenant_id : Uuid
  pub document_version_id : Uuid
  pub event_id : Uuid
  pub stage : String
  pub error_class : String
  pub error_code : String
  pub error_detail : Fields

pub record Db : Type 0 where
  pub tenants : List Uuid
  pub documents : List Document
  pub versions : List Version
  pub outbox : List OutboxRow
  pub processed : List ProcessedEvent
  pub failures : List Failure
