-- ===== src/Fetcher/Repository/Verdict.antt =====
-- What `process` comes to for a known document version: it is fetched or refused.
use enterprise_rag_ingestion.Prelude.{
  ◌≡◌, refl, true, false, has, [], ◌∷◌, ◌++◌, select, update_where, Option, none, some, nat_eq,
  string_eq, ◌==◌, eq_self, ◌&&◌,
}
use enterprise_rag_ingestion.Json.{text, set_field}
use enterprise_rag_ingestion.Exceptions.{FetchValidationError, ok}
use enterprise_rag_ingestion.Uuid.{Uuid, Codec, uuid}
use enterprise_rag_ingestion.Domain.Topics.{document_fetched, dead_letter_topic}
use enterprise_rag_ingestion.Domain.Events.{
  DocumentSubmitted, DocumentFetched, Stamp, Event, build_document_fetched_event,
  build_document_fetch_rejected_event,
}
use enterprise_rag_ingestion.Database.{
  Db, Version, DocumentStatus, InspectionStatus, OutboxRow, Failure,
}
use enterprise_rag_ingestion.Database.Transaction.{◌>>=◌}
use enterprise_rag_ingestion.Database.Statements.{
  handoff_headers, Defaults, check_tenant, set_document_status, update_version, store_outbox,
  insert_outbox, clashes, new_outbox_row, insert_failure, store_failure, is_processed, claim_event,
  record_event, store_processed, one_or_none,
}
use enterprise_rag_ingestion.Fetcher.Inspect.{SourceInspection, permitted_mime}
use enterprise_rag_ingestion.Database.Handoffs.{claim_row}
use enterprise_rag_ingestion.Database.Updates.{
  DocumentIs, InspectionIs, DocumentIs-update, InspectionIs-update,
}
use enterprise_rag_ingestion.Fetcher.Repository.{
  consumer_name, is_source, select_source, verdict, error_metadata, enqueue_failure, reject, accept,
  accept_inspected, finish, settle, process_claimed, process,
}

-- A version that is as submitted, and of a permitted type, passes.
verdict-none :
    (v : Version) (i : SourceInspection)
    → i.content_sha256 ≡ v.content_sha256
    → permitted_mime v.mime_type ≡ true
    → verdict v (some i) none ≡ none
unfolding verdict
verdict-none v i same permitted = rw (same, eq_self v.content_sha256, permitted)

module _ (codec : Codec) (stamp : Stamp) (defaults : Defaults) (payload : DocumentSubmitted)
    (t d received correlation : Uuid) where
  fetched_row : Version → SourceInspection → OutboxRow
  unfolding new_outbox_row build_document_fetched_event
  fetched_row v i =
      new_outbox_row defaults t stamp.event_id "document_version" v.id "DocumentFetched"
        document_fetched "document-fetched"
        (Event.fetched
          (build_document_fetched_event codec stamp t d v.id payload.payload_uri
            i.detected_mime_type i.content_sha256 i.byte_size
            (set_field "declared_mime_type" (text v.mime_type) i.metadata) correlation received).1)
        (handoff_headers "DocumentFetched" (codec.str received))

  -- The database after `accept`.
  abbrev accepted : Version → SourceInspection → Db → Db
  accepted v i db = record db {
    versions =
        update_where (λ r. r.tenant_id == t && r.id == v.id)
          (λ w. record w {
            detected_mime_type = some i.detected_mime_type;
            inspection_status = InspectionStatus.valid;
            inspection_metadata = set_field "declared_mime_type" (text v.mime_type) i.metadata;
          })
          db.versions;
    documents =
        update_where (λ r. r.tenant_id == t && r.id == d)
          (λ r. record r { status = DocumentStatus.fetched }) db.documents;
    outbox = db.outbox ++ fetched_row v i ∷ [];
  }

  accept_lem :
      (v : Version) (i : SourceInspection) (db : Db)
      → uuid codec payload.correlation_id ≡ ok correlation
      → has (λ x. x == t) db.tenants ≡ true
      → has (clashes defaults.row_id t stamp.event_id) db.outbox ≡ false
      → accept codec stamp defaults payload t d v received i db ≡ ok (true, accepted v i db)
  unfolding accept fetched_row update_version set_document_status insert_outbox store_outbox
      check_tenant ◌>>=◌
  accept_lem v i db correlated known fresh = rw (correlated, known, fresh)

  refused_row : FetchValidationError → OutboxRow
  unfolding new_outbox_row build_document_fetch_rejected_event
  refused_row e =
      new_outbox_row defaults t stamp.event_id "document" d "DocumentFetchRejected"
        (dead_letter_topic consumer_name) "document-fetch-rejected"
        (Event.fetch_rejected
          (build_document_fetch_rejected_event codec stamp t d payload.payload_uri correlation
            received e.code e.metadata).1)
        (handoff_headers "DocumentFetchRejected" payload.event_id)

  -- The row that `reject` puts into the table of failures.
  abbrev failure_of : Uuid → FetchValidationError → Failure
  failure_of version_id e = record {
    tenant_id = t;
    document_version_id = version_id;
    event_id = received;
    stage = "document-fetcher";
    error_class = "validation";
    error_code = e.code;
    error_detail = error_metadata e;
  }

  -- The database after `reject`.
  abbrev refused : Uuid → FetchValidationError → Db → Db
  refused version_id e db = record db {
    versions =
        update_where (λ r. r.tenant_id == t && r.id == version_id)
          (λ w. record w {
            inspection_status = InspectionStatus.invalid;
            inspection_metadata = error_metadata e;
          })
          db.versions;
    documents =
        update_where (λ r. r.tenant_id == t && r.id == d)
          (λ r. record r { status = DocumentStatus.failed }) db.documents;
    failures = db.failures ++ failure_of version_id e ∷ [];
    outbox = db.outbox ++ refused_row e ∷ [];
  }

  reject_lem :
      (version_id : Uuid) (e : FetchValidationError) (db : Db)
      → uuid codec payload.tenant_id ≡ ok t
      → uuid codec payload.document_id ≡ ok d
      → uuid codec payload.event_id ≡ ok received
      → uuid codec payload.correlation_id ≡ ok correlation
      → has (λ x. x == t) db.tenants ≡ true
      → has (clashes defaults.row_id t stamp.event_id) db.outbox ≡ false
      → reject codec stamp defaults payload t d version_id received e db
        ≡ ok (true, refused version_id e db)
  unfolding reject enqueue_failure refused_row update_version set_document_status insert_outbox
      store_outbox check_tenant insert_failure store_failure ◌>>=◌
  reject_lem version_id e db own document event correlated known fresh =
      rw (known, own, document, correlated, event, known, fresh)

  -- An event of a known tenant that has not been processed, whose identifiers can be read and whose
  -- source is the one current version `v`; the fresh identifiers are not in the outbox.
  pub record Ready (db : Db) (v : Version) : Type 0 where
    pub own : uuid codec payload.tenant_id ≡ ok t
    pub document : uuid codec payload.document_id ≡ ok d
    pub event : uuid codec payload.event_id ≡ ok received
    pub correlated : uuid codec payload.correlation_id ≡ ok correlation
    pub known : has (λ x. x == t) db.tenants ≡ true
    pub unseen : has (is_processed t received consumer_name) db.processed ≡ false
    pub fresh : has (clashes defaults.row_id t stamp.event_id) db.outbox ≡ false
    pub source : select (is_source t d payload.payload_uri) db.versions ≡ v ∷ []

  -- The database with the event recorded.
  abbrev claimed : Db → Db
  claimed db = record db { processed = db.processed ++ claim_row t received consumer_name ∷ [] }

  process-finish :
      (i : Option SourceInspection) (e : Option FetchValidationError) (db : Db) (v : Version)
      → Ready db v
      → process codec stamp defaults payload i e db
        ≡ finish codec stamp defaults payload t d v received i (verdict v i e) (claimed db)
  unfolding process process_claimed select_source one_or_none settle claim_event record_event
      store_processed check_tenant ◌>>=◌
  process-finish i e db v r = rw (r.own, r.document, r.event, r.unseen, r.known, r.source)

  -- Where the event's identifiers can be read, its tenant is known, it has not been processed, one
  -- current version is its source, and the fresh identifiers clash with no outbox row: if the
  -- inspected bytes are the version's, by their checksum, and the declared type is permitted, the
  -- event is processed: its document is `fetched`, the version's inspection is `valid`, and the
  -- row that is handed over is bound for `document.fetched` and carries the version's checksum.
  pub process-fetches :
      (i : SourceInspection) (db : Db) (v : Version)
      → Ready db v
      → i.content_sha256 ≡ v.content_sha256
      → permitted_mime v.mime_type ≡ true
      → (db' : Db) × (payload' : DocumentFetched) × (row : OutboxRow) × (process codec stamp
            defaults payload
            (some i)
            none
            db
          ≡ ok (true, db'))
        × DocumentIs t d DocumentStatus.fetched db'.documents
        × InspectionIs t v.id InspectionStatus.valid db'.versions
        × (db'.outbox ≡ db.outbox ++ row ∷ [])
        × (row.payload ≡ Event.fetched payload')
        × (row.kafka_topic ≡ document_fetched)
        × (payload'.content_sha256 ≡ v.content_sha256)
        × (payload'.document_version_id ≡ codec.str v.id)
  unfolding fetched_row new_outbox_row build_document_fetched_event finish accept_inspected
  process-fetches i db v r same permitted = (
    accepted v i (claimed db),
    (build_document_fetched_event codec stamp t d v.id payload.payload_uri i.detected_mime_type
        i.content_sha256 i.byte_size (set_field "declared_mime_type" (text v.mime_type) i.metadata)
        correlation received).1,
    fetched_row v i,
    rw (process-finish (some i) none db v r, verdict-none v i same permitted)
        (accept_lem v i (claimed db) r.correlated r.known r.fresh),
    DocumentIs-update t d DocumentStatus.fetched db.documents,
    InspectionIs-update t v.id InspectionStatus.valid _ db.versions (λ x. refl),
    refl,
    refl,
    refl,
    same,
    refl,
  )

  -- Where the event's identifiers can be read, its tenant is known, it has not been processed, one
  -- current version is its source, and the fresh identifiers clash with no outbox row: if the checks
  -- end with an error, the event is processed all the same: its document is `failed`,
  -- the version's inspection is `invalid`, one failure with the error's code is recorded, and the row
  -- that is handed over is bound for the stage's DLQ.
  pub process-refuses :
      (i : Option SourceInspection) (e : Option FetchValidationError) (final : FetchValidationError)
      (db : Db) (v : Version)
      → Ready db v
      → verdict v i e ≡ some final
      → (db' : Db) × (failure : Failure) × (row : OutboxRow) × (process codec stamp defaults payload
            i e db
          ≡ ok (true, db'))
        × DocumentIs t d DocumentStatus.failed db'.documents
        × InspectionIs t v.id InspectionStatus.invalid db'.versions
        × (db'.failures ≡ db.failures ++ failure ∷ [])
        × (failure.error_code ≡ final.code)
        × (db'.outbox ≡ db.outbox ++ row ∷ [])
        × (row.kafka_topic ≡ dead_letter_topic consumer_name)
  unfolding refused_row new_outbox_row finish
  process-refuses i e final db v r decided = (
    refused v.id final (claimed db),
    failure_of v.id final,
    refused_row final,
    rw (process-finish i e db v r, decided)
        (reject_lem v.id final (claimed db) r.own r.document r.event r.correlated r.known r.fresh),
    DocumentIs-update t d DocumentStatus.failed db.documents,
    InspectionIs-update t v.id InspectionStatus.invalid _ db.versions (λ x. refl),
    refl,
    refl,
    refl,
    refl,
  )
