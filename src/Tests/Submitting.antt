-- ===== src/Tests/Submitting.antt =====
-- A submission, and the fetch that follows it.
use enterprise_rag_ingestion.Prelude.{◌≡◌, ◌++◌, refl, true, none, some, [], ◌∷◌, inl, inr, arith}
use enterprise_rag_ingestion.Exceptions.{ok, raise, integrity_error}
use enterprise_rag_ingestion.Domain.Topics.{document_fetched}
use enterprise_rag_ingestion.Domain.Events.{DocumentFetched, Event, build_document_submitted_event}
use enterprise_rag_ingestion.Database.{Db, DocumentStatus, InspectionStatus, OutboxRow}
use enterprise_rag_ingestion.Database.Statements.{
  Defaults, check_tenant, insert_outbox, store_outbox, new_outbox_row,
}
use enterprise_rag_ingestion.Database.Transaction.{◌>>=◌}
use enterprise_rag_ingestion.Database.Updates.{DocumentIs, InspectionIs}
use enterprise_rag_ingestion.Fetcher.Repository.{process}
use enterprise_rag_ingestion.Submission.{
  Submission, store_document, store_version, set_current_version, submission_row, create_submission,
}
use enterprise_rag_ingestion.Submission.Pipeline.{create_submission-raise}
use enterprise_rag_ingestion.Submission.Fetchable.{event_of, create_submission-fetches}
use enterprise_rag_ingestion.Tests.Codec.{codec}
use enterprise_rag_ingestion.Tests.Data.{stamp, later, defaults, submitted, db, db_of}
use enterprise_rag_ingestion.Tests.Fetching.{inspection}

abbrev pub submission : Submission
submission = record {
  tenant_id = 1;
  document_id = 12;
  version_id = 13;
  source_external_id = "b";
  title = some "B";
  classification = "internal";
  content_sha256 = "digest";
  source_object_uri = "s3://sources/b.pdf";
  mime_type = "application/pdf";
  byte_size = 6;
}

abbrev pub bare : Db
bare = record db { documents = []; versions = [] }

abbrev defaults' : Defaults
defaults' = record { row_id = 20; now = 200 }

abbrev pub after : Db
after =
    db_of
      (create_submission defaults submission (event_of codec submission stamp).0
        (event_of codec submission stamp).1 bare)
      bare

pub submission-commits :
    create_submission defaults submission
      (event_of codec submission stamp).0
      (event_of codec submission stamp).1
      bare
    ≡ ok (tt, after)
unfolding create_submission check_tenant store_document store_version set_current_version
    insert_outbox store_outbox ◌>>=◌ submission_row new_outbox_row build_document_submitted_event
submission-commits = refl

-- The version of the tests has the checksum.
create_submission-raise_example :
    create_submission defaults submission 6 submitted db ≡ raise integrity_error
create_submission-raise_example =
    create_submission-raise defaults submission 6 submitted db
      (inr (inr (inl (inr (inr (refl, refl))))))

create_submission-fetches_example :
    (db'' : Db) × (payload' : DocumentFetched) × (row : OutboxRow) × (process codec later defaults'
        (event_of codec submission stamp).1
        (some inspection)
        none
        after
      ≡ ok (true, db''))
    × DocumentIs 1 12 DocumentStatus.fetched db''.documents
    × InspectionIs 1 13 InspectionStatus.valid db''.versions
    × (db''.outbox ≡ after.outbox ++ row ∷ [])
    × (row.payload ≡ Event.fetched payload')
    × (row.kafka_topic ≡ document_fetched)
    × (payload'.content_sha256 ≡ "digest")
    × (payload'.document_version_id ≡ codec.str 13)
unfolding create_submission check_tenant store_document store_version set_current_version
    insert_outbox store_outbox ◌>>=◌ submission_row new_outbox_row build_document_submitted_event
create_submission-fetches_example =
    create_submission-fetches codec submission stamp defaults defaults' later bare after inspection
      (omega arith) (omega arith) (omega arith) refl refl submission-commits refl refl refl
