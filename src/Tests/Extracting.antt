-- ===== src/Tests/Extracting.antt =====
-- The extractor on the data of the tests.
use enterprise_rag_ingestion.Prelude.{◌≡◌, refl, true}
use enterprise_rag_ingestion.Json.{end}
use enterprise_rag_ingestion.Exceptions.{ok}
use enterprise_rag_ingestion.Uuid.{uuid}
use enterprise_rag_ingestion.Database.{Db, ExtractionStatus}
use enterprise_rag_ingestion.Database.Transaction.{◌>>=◌}
use enterprise_rag_ingestion.Database.Statements.{
  claim_event, record_event, store_processed, check_tenant, one_or_none, update_version,
  set_document_status, insert_outbox, store_outbox, new_outbox_row,
}
use enterprise_rag_ingestion.Extractor.Payload.{Ids, payload_ids}
use enterprise_rag_ingestion.Extractor.Repository.{
  ExtractionResult, complete, complete_claimed, complete_found, select_version, store_extraction,
}
use enterprise_rag_ingestion.Extractor.Repository.Ledger.{Recorded}
use enterprise_rag_ingestion.Extractor.Repository.Handoff.{Extracted, complete-Recorded}
use enterprise_rag_ingestion.Tests.Codec.{codec}
use enterprise_rag_ingestion.Tests.Data.{stamp, defaults, fetched, db, db_of}

abbrev ids : Ids
ids = record { tenant_id = 1; document_id = 2; version_id = 3; received_event_id = 4 }

fetched-ids : payload_ids codec fetched ≡ ok ids
unfolding payload_ids uuid
fetched-ids = refl

abbrev pub result : ExtractionResult
result = record {
  normalized = end;
  manifest = record { extractor = "docling"; extractor_version = "2.0"; quality = end };
  extraction_status = ExtractionStatus.succeeded;
}

abbrev pub completed : Db
completed =
    db_of
      (complete codec "2.0" stamp defaults fetched result "s3://a/normalized" "s3://a/manifest" db)
      db

pub complete-commits :
    complete codec "2.0" stamp defaults fetched result "s3://a/normalized" "s3://a/manifest" db
    ≡ ok (true, completed)
unfolding complete complete_claimed complete_found select_version store_extraction payload_ids uuid
    claim_event record_event store_processed check_tenant one_or_none update_version
    set_document_status insert_outbox store_outbox new_outbox_row ◌>>=◌
complete-commits = refl

complete-Recorded_example :
    Recorded (Extracted codec "2.0" stamp defaults fetched ids) ids db true completed
complete-Recorded_example =
    complete-Recorded codec "2.0" stamp defaults fetched ids result "s3://a/normalized"
      "s3://a/manifest" db fetched-ids complete-commits
