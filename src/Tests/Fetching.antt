-- ===== src/Tests/Fetching.antt =====
-- The fetcher on the data of the tests.
use enterprise_rag_ingestion.Prelude.{◌≡◌, ◌++◌, refl, true, none, some, [], ◌∷◌}
use enterprise_rag_ingestion.Json.{end}
use enterprise_rag_ingestion.Exceptions.{ok}
use enterprise_rag_ingestion.Database.{Db}
use enterprise_rag_ingestion.Database.Transaction.{◌>>=◌}
use enterprise_rag_ingestion.Database.Statements.{
  claim_event, record_event, store_processed, check_tenant, one_or_none, update_version,
  set_document_status, insert_outbox, store_outbox, new_outbox_row,
}
use enterprise_rag_ingestion.Uuid.{uuid}
use enterprise_rag_ingestion.Fetcher.Inspect.{SourceInspection}
use enterprise_rag_ingestion.Fetcher.Repository.{
  consumer_name, source_checksum_mismatch, process, process_claimed, select_source, settle, finish,
  verdict, accept_inspected, accept,
}
use enterprise_rag_ingestion.Fetcher.Repository.Handoff.{Processed, process-Processed}
use enterprise_rag_ingestion.Fetcher.Worker.{Answers, Message, received, Worker, run}
use enterprise_rag_ingestion.Fetcher.Worker.Commits.{IsSound, run-IsSound}
use enterprise_rag_ingestion.Fetcher.Repository.Judged.{Judged, verdict-Judged}
use enterprise_rag_ingestion.Fetcher.Repository.Verdict.{Ready, process-fetches, process-refuses}
use enterprise_rag_ingestion.Domain.Events.{DocumentFetched, Event}
use enterprise_rag_ingestion.Domain.Topics.{document_fetched, dead_letter_topic}
use enterprise_rag_ingestion.Database.{OutboxRow, Failure, DocumentStatus, InspectionStatus}
use enterprise_rag_ingestion.Database.Updates.{DocumentIs, InspectionIs}
use enterprise_rag_ingestion.Tests.Codec.{codec}
use enterprise_rag_ingestion.Tests.Inspecting.{tools, file}
use enterprise_rag_ingestion.Tests.Data.{stamp, defaults, submitted, version, db, db_of}

abbrev pub inspection : SourceInspection
inspection = record {
  detected_mime_type = "application/pdf";
  content_sha256 = "digest";
  byte_size = 6;
  metadata = end;
}

abbrev pub after : Db
after = db_of (process codec stamp defaults submitted (some inspection) none db) db

pub process-commits :
    process codec stamp defaults submitted (some inspection) none db ≡ ok (true, after)
unfolding process process_claimed select_source settle finish verdict accept_inspected accept
    claim_event record_event store_processed check_tenant one_or_none update_version
    set_document_status insert_outbox store_outbox ◌>>=◌ uuid new_outbox_row
process-commits = refl

process-Processed_example : Processed stamp 1 4 db true after
unfolding uuid
process-Processed_example =
    process-Processed codec stamp defaults submitted refl refl refl (some inspection) none db
      process-commits

db-Ready : Ready codec stamp defaults submitted 1 2 4 5 db version
unfolding uuid
db-Ready = record {
  own = refl;
  document = refl;
  event = refl;
  correlated = refl;
  known = refl;
  unseen = refl;
  fresh = refl;
  source = refl;
}

process-fetches_example :
    (db' : Db) × (payload' : DocumentFetched) × (row : OutboxRow) × (process codec stamp defaults
        submitted
        (some inspection)
        none
        db
      ≡ ok (true, db'))
    × DocumentIs 1 2 DocumentStatus.fetched db'.documents
    × InspectionIs 1 3 InspectionStatus.valid db'.versions
    × (db'.outbox ≡ [] ++ row ∷ [])
    × (row.payload ≡ Event.fetched payload')
    × (row.kafka_topic ≡ document_fetched)
    × (payload'.content_sha256 ≡ "digest")
    × (payload'.document_version_id ≡ "xxx")
process-fetches_example =
    process-fetches codec stamp defaults submitted 1 2 4 5 inspection db version db-Ready refl refl

abbrev other : SourceInspection
other = record inspection { content_sha256 = "another digest" }

process-refuses_example :
    (db' : Db) × (failure : Failure) × (row : OutboxRow) × (process codec stamp defaults submitted
        (some other)
        none
        db
      ≡ ok (true, db'))
    × DocumentIs 1 2 DocumentStatus.failed db'.documents
    × InspectionIs 1 3 InspectionStatus.invalid db'.versions
    × (db'.failures ≡ [] ++ failure ∷ [])
    × (failure.error_code ≡ "source_checksum_mismatch")
    × (db'.outbox ≡ [] ++ row ∷ [])
    × (row.kafka_topic ≡ dead_letter_topic consumer_name)
unfolding verdict
process-refuses_example =
    process-refuses codec stamp defaults submitted 1 2 4 5 (some other) none
      source_checksum_mismatch db version db-Ready refl

verdict-Judged_example : Judged version inspection (verdict version (some inspection) none)
verdict-Judged_example = verdict-Judged version inspection

abbrev pub answers : Answers tools
answers = record { get = λ uri. ok file; stamp = stamp; defaults = defaults }

abbrev pub message : Message
message = record { offset = 0; payload = ok submitted }

abbrev pub worker : Worker
worker = record { db = db; committed = []; polls = []; outcomes = [] }

run-IsSound_example : IsSound codec (run tools (received message answers (ok tt) ∷ []) worker).1
run-IsSound_example = run-IsSound tools (received message answers (ok tt) ∷ []) worker tt
