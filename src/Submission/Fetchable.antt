-- ===== src/Submission/Fetchable.antt =====
-- The fetch that follows a submission.
use enterprise_rag_ingestion.Prelude.{
  ◌^◌, ◌<◌, ◌≡◌, refl, ap, ◌∙◌, String, Bool, true, false, ◌&&◌, none, some, List, [], ◌∷◌, ◌++◌,
  nat_eq, string_eq, ◌==◌, eq_self, has, select, select-append, arith,
}
use enterprise_rag_ingestion.Exceptions.{ok}
use enterprise_rag_ingestion.Uuid.{Uuid, Codec, uuid}
use enterprise_rag_ingestion.Domain.Topics.{document_fetched}
use enterprise_rag_ingestion.Domain.Events.{
  DocumentSubmitted, DocumentFetched, Event, Stamp, build_document_submitted_event,
}
use enterprise_rag_ingestion.Database.{Db, DocumentStatus, InspectionStatus, Version, OutboxRow}
use enterprise_rag_ingestion.Database.Statements.{Defaults, is_processed, clashes}
use enterprise_rag_ingestion.Database.Updates.{DocumentIs, InspectionIs}
use enterprise_rag_ingestion.Fetcher.Inspect.{SourceInspection, permitted_mime}
use enterprise_rag_ingestion.Fetcher.Repository.{consumer_name, is_source, process}
use enterprise_rag_ingestion.Fetcher.Repository.Verdict.{Ready, process-fetches}
use enterprise_rag_ingestion.Submission.{Submission, version_of, create_submission}
use enterprise_rag_ingestion.Submission.Pipeline.{create_submission-Submitted}

-- No version of the document.
abbrev pub is_of : Uuid → Uuid → Version → Bool
is_of t d r = r.tenant_id == t && r.document_id == d

select_none :
    (t d : Uuid) (uri : String) (rows : List Version)
    → has (is_of t d) rows ≡ false
    → select (is_source t d uri) rows ≡ []
select_none t d uri [] h = refl
select_none t d uri (r ∷ rows) h = ground (arith, select_none t d uri rows)

select_only :
    (s : Submission) (rows : List Version)
    → has (is_of s.tenant_id s.document_id) rows ≡ false
    → select (is_source s.tenant_id s.document_id s.source_object_uri) (rows ++ version_of s ∷ [])
      ≡ version_of s ∷ []
select_only s rows h = rw (
  select-append (is_source s.tenant_id s.document_id s.source_object_uri) rows (version_of s ∷ []),
  select_none s.tenant_id s.document_id s.source_object_uri rows h,
  eq_self s.tenant_id,
  eq_self s.document_id,
  eq_self s.source_object_uri,
)

uuid-str : (codec : Codec) (u : Uuid) → u < 2 ^ 128 → uuid codec (codec.str u) ≡ ok u
unfolding uuid
uuid-str codec u bound = rw (codec.parse-str u bound)

module _ (codec : Codec) (s : Submission) (stamp : Stamp) where
  -- The event of the submission.
  abbrev pub event_of : Uuid × DocumentSubmitted
  event_of =
      build_document_submitted_event codec stamp s.tenant_id s.document_id s.source_object_uri none

  event_of-Ready :
      (defaults defaults' : Defaults) (later : Stamp) (db db' : Db)
      → s.tenant_id < 2 ^ 128
      → s.document_id < 2 ^ 128
      → stamp.event_id < 2 ^ 128
      → has (is_of s.tenant_id s.document_id) db.versions ≡ false
      → has (is_processed s.tenant_id stamp.event_id consumer_name) db.processed ≡ false
      → create_submission defaults s event_of.0 event_of.1 db ≡ ok (tt, db')
      → has (clashes defaults'.row_id s.tenant_id later.event_id) db'.outbox ≡ false
      → Ready codec later defaults' event_of.1 s.tenant_id s.document_id stamp.event_id
          stamp.event_id db'
          (version_of s)
  unfolding build_document_submitted_event
  event_of-Ready defaults defaults' later db db' t_bound d_bound e_bound new unseen committed
        fresh =
      let sub = create_submission-Submitted defaults s event_of.0 event_of.1 db db' committed in
      record {
        own = uuid-str codec s.tenant_id t_bound;
        document = uuid-str codec s.document_id d_bound;
        event = uuid-str codec stamp.event_id e_bound;
        correlated = uuid-str codec stamp.event_id e_bound;
        known = ap (has (λ x. x == s.tenant_id)) sub.tenants ∙ sub.known;
        unseen =
            ap (has (is_processed s.tenant_id stamp.event_id consumer_name)) sub.processed ∙ unseen;
        fresh = fresh;
        source =
            ap (select (is_source s.tenant_id s.document_id s.source_object_uri)) sub.versions
            ∙ select_only s db.versions new;
      }

  -- Where a submission of a new document has committed with the event that is built for it, its
  -- identifiers have 128 bits, the event has not been processed, and the fetch's fresh identifiers
  -- clash with no outbox row, the fetch of that event succeeds for an inspection with the submitted
  -- checksum, if the submitted type is permitted: the document is `fetched`, the version's inspection
  -- is `valid`, and one row bound for `document.fetched` is added, whose payload names the version
  -- and carries the submitted checksum.
  pub create_submission-fetches :
      (defaults defaults' : Defaults) (later : Stamp) (db db' : Db) (i : SourceInspection)
      → s.tenant_id < 2 ^ 128
      → s.document_id < 2 ^ 128
      → stamp.event_id < 2 ^ 128
      → has (is_of s.tenant_id s.document_id) db.versions ≡ false
      → has (is_processed s.tenant_id stamp.event_id consumer_name) db.processed ≡ false
      → create_submission defaults s event_of.0 event_of.1 db ≡ ok (tt, db')
      → has (clashes defaults'.row_id s.tenant_id later.event_id) db'.outbox ≡ false
      → i.content_sha256 ≡ s.content_sha256
      → permitted_mime s.mime_type ≡ true
      → (db'' : Db) × (payload' : DocumentFetched) × (row : OutboxRow) × (process codec later
            defaults' event_of.1
            (some i)
            none
            db'
          ≡ ok (true, db''))
        × DocumentIs s.tenant_id s.document_id DocumentStatus.fetched db''.documents
        × InspectionIs s.tenant_id s.version_id InspectionStatus.valid db''.versions
        × (db''.outbox ≡ db'.outbox ++ row ∷ [])
        × (row.payload ≡ Event.fetched payload')
        × (row.kafka_topic ≡ document_fetched)
        × (payload'.content_sha256 ≡ s.content_sha256)
        × (payload'.document_version_id ≡ codec.str s.version_id)
  create_submission-fetches defaults defaults' later db db' i t_bound d_bound e_bound new unseen
        committed fresh same permitted =
      process-fetches codec later defaults' event_of.1 s.tenant_id s.document_id stamp.event_id
        stamp.event_id i db' (version_of s)
        (event_of-Ready defaults defaults' later db db' t_bound d_bound e_bound new unseen committed
          fresh)
        same permitted
