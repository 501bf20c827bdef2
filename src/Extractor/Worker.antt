-- ===== src/Extractor/Worker.antt =====
-- `ContentExtractor.handle` of workers/content_extractor.py. The pool of converters is left out: a
-- call holds one of them, and all convert alike.
pub mod Settles
use Prim.Native.String.{◌++◌}
use enterprise_rag_ingestion.Prelude.{ℕ, String, Bool, not, ◌||◌, string_eq, ◌==◌, if◌then◌else◌}
use enterprise_rag_ingestion.Json.{text, Fields, end, field, named, dict, set_field}
use enterprise_rag_ingestion.Exceptions.{
  ExtractionError, Exception, Result, ok, raise, extraction, ◌>>=◌,
}
use enterprise_rag_ingestion.Uuid.{Codec}
use enterprise_rag_ingestion.Domain.Events.{DocumentFetched, Stamp}
use enterprise_rag_ingestion.Database.{Db}
use enterprise_rag_ingestion.Database.Transaction.{begin}
use enterprise_rag_ingestion.Database.Statements.{Defaults}
use enterprise_rag_ingestion.Streams.{Reader}
use enterprise_rag_ingestion.Extractor.Payload.{Ids, payload_ids}
use enterprise_rag_ingestion.Extractor.Repository.{
  ExtractionResult, Manifest, status_text, complete, reject,
}
use enterprise_rag_ingestion.Extractor.Extract.{Libraries, extract_pdf}

abbrev pub unexpected_event_type : ExtractionError
unexpected_event_type = record {
  code = "unexpected_event_type";
  detail = "Extractor accepts only DocumentFetched events.";
}

abbrev pub unsupported_source : ExtractionError
unsupported_source = record {
  code = "unsupported_source";
  detail = "Only fetch-validated PDFs are supported by this extractor.";
}

-- What the worker is built with.
pub record Tools : Type 1 where
  pub codec : Codec
  pub reader : Reader
  pub libraries : Libraries
  pub max_bytes : ℕ

-- What one call meets: the source store, the artifact store's answers to `put_json`, and the fresh
-- values of its writes.
pub record Answers (tools : Tools) : Type 0 where
  pub get : String → Result (tools.reader.Body)
  pub put_json : String → Fields → Result String
  pub stamp : Stamp
  pub defaults : Defaults

-- The result and the URIs of its two artifacts.
pub record Artifacts : Type 0 where
  pub result : ExtractionResult
  pub normalized_uri : String
  pub manifest_uri : String

-- `{**result.manifest, "source_content_sha256": …, "extraction_status": …}`
abbrev pub manifest_fields : ExtractionResult → String → Fields
manifest_fields result content_sha256 = field (named "extractor") (text result.manifest.extractor) (
    field (named "extractor_version") (text result.manifest.extractor_version) (
      field (named "quality") (dict result.manifest.quality) (
        field (named "source_content_sha256") (text content_sha256)
          (field (named "extraction_status") (text (status_text result.extraction_status)) end))))

module _ (tools : Tools) (answers : Answers tools) where
  -- The prefix of the artifacts' keys.
  unfoldable pub artifact_prefix : Ids → String → String
  artifact_prefix ids content_sha256 =
      tools.codec.str ids.tenant_id
      ++ "/"
      ++ tools.codec.str ids.version_id
      ++ "/extracted/"
      ++ content_sha256

  -- The two writes of the artifact store.
  unfoldable pub store_artifacts : DocumentFetched → ExtractionResult → Result Artifacts
  store_artifacts payload result = do
    ids ← payload_ids tools.codec payload
    let prefix = artifact_prefix ids payload.content_sha256
    normalized_uri ← answers.put_json (prefix ++ "/normalized.json") result.normalized
    manifest_uri ←
        answers.put_json (prefix ++ "/manifest.json")
          (manifest_fields result payload.content_sha256)
    ok (record { result = result; normalized_uri = normalized_uri; manifest_uri = manifest_uri })

  -- The body of the `try` up to the repository: guards, extraction, artifacts.
  unfoldable pub extract : DocumentFetched → Result Artifacts
  extract payload =
      if not (payload.event_type == "DocumentFetched")
      then raise (extraction unexpected_event_type)
      else if not (payload.inspection_status == "valid")
          || not (payload.detected_mime_type == "application/pdf")
      then raise (extraction unsupported_source)
      else (answers.get payload.payload_uri
          >>= extract_pdf tools.libraries tools.reader tools.max_bytes payload.content_sha256
          >>= store_artifacts payload)

  unfoldable pub rejected : DocumentFetched → ExtractionError → Db → Result Bool × Db
  rejected payload error = begin (
      reject tools.codec tools.libraries.docling_version answers.stamp answers.defaults payload
        error)

  unfoldable pub completed : DocumentFetched → Artifacts → Db → Result Bool × Db
  completed payload a = begin (
      complete tools.codec tools.libraries.docling_version answers.stamp answers.defaults payload
        a.result a.normalized_uri a.manifest_uri)

  -- The `except` clause: only an `ExtractionError` is caught.
  unfoldable pub rescue : DocumentFetched → Result Bool × Db → Result Bool × Db
  rescue payload (ok done, db) = (ok done, db)
  rescue payload (raise (extraction error), db) = rejected payload error db
  rescue payload (raise e, db) = (raise e, db)

  unfoldable pub stored : DocumentFetched → Result Artifacts → Db → Result Bool × Db
  stored payload (ok artifacts) db = completed payload artifacts db
  stored payload (raise e) db = (raise e, db)

  unfoldable pub handle : DocumentFetched → Db → Result Bool × Db
  handle payload db = rescue payload (stored payload (extract payload) db)
