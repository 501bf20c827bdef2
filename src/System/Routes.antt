-- ===== src/System/Routes.antt =====
-- Every message of the pipeline can be delivered: its topic is declared, and its contract is checked
-- in.
use enterprise_rag_ingestion.Prelude.{
  ◌≡◌, refl, sym, subst, inl, inr, String, Bool, true, List, [], ◌∷◌, ◌++◌, All, has, update_where,
  string_eq, ◌==◌, Bool-cases,
}
use enterprise_rag_ingestion.Exceptions.{ok}
use enterprise_rag_ingestion.Uuid.{Uuid, Codec}
use enterprise_rag_ingestion.Domain.Events.{Stamp}
use enterprise_rag_ingestion.Domain.Topics.{retry_topic, dead_letter_topic}
use enterprise_rag_ingestion.Database.{Db, OutboxRow}
use enterprise_rag_ingestion.Database.Statements.{new_outbox_row}
use enterprise_rag_ingestion.Kafka.{TopicSpec, pipeline_topic_specs}
use enterprise_rag_ingestion.Publisher.Outbox.{
  picks, is_picked, claim_update, is_claimed_by, complete_update,
}
use enterprise_rag_ingestion.Publisher.Outbox.Claims.{
  claim_outbox_events-eq-ok, complete_outbox_event-eq-ok,
}
use enterprise_rag_ingestion.Publisher.Publish.{serializer}
use enterprise_rag_ingestion.Submission.{submission_row}
use enterprise_rag_ingestion.Submission.Pipeline.{create_submission-Submitted}
use enterprise_rag_ingestion.Fetcher.Repository.Handoff.{IsHandoff, Processed, process-Processed}
use enterprise_rag_ingestion.Fetcher.Repository.Redelivery.{process-reads_ids}
use enterprise_rag_ingestion.Extractor.Payload.{Ids}
use enterprise_rag_ingestion.Extractor.Repository.Ledger.{Recorded}
use enterprise_rag_ingestion.Extractor.Repository.Handoff.{
  IsHandoffTo, complete-Recorded, reject-Recorded, complete-reads_ids, reject-reads_ids,
}
use enterprise_rag_ingestion.System.{
  Step, submits, fetches, extracts, refuses, claims, completes, History, start, then,
}

abbrev declares : String → Bool
declares topic = has (λ (s : TopicSpec). s.name == topic) pipeline_topic_specs

-- The row's topic is one that the bootstrap declares, and its contract has a schema file.
pub record IsRouted (row : OutboxRow) : Type 0 where
  pub topic : has (λ (s : TopicSpec). s.name == row.kafka_topic) pipeline_topic_specs ≡ true
  pub file : String
  pub contract : serializer row.event_contract_namespace row.event_schema_name ≡ ok file

routed :
    (topic namespace schema file : String) (row : OutboxRow)
    → row.kafka_topic ≡ topic
    → row.event_contract_namespace ≡ namespace
    → row.event_schema_name ≡ schema
    → declares topic ≡ true
    → serializer namespace schema ≡ ok file
    → IsRouted row
routed topic namespace schema file row at under named known found = record {
  topic = subst (λ t. declares t ≡ true) (sym at) known;
  file = file;
  contract =
      subst (λ n. serializer n row.event_schema_name ≡ ok file) (sym under)
        (subst (λ s. serializer namespace s ≡ ok file) (sym named) found);
}

IsHandoff-IsRouted :
    (stamp : Stamp) (t : Uuid) (row : OutboxRow) → IsHandoff stamp t row → IsRouted row
unfolding pipeline_topic_specs serializer retry_topic dead_letter_topic
IsHandoff-IsRouted stamp t row h = elim h.topic [
  | inl (at, named) ↦ routed _ _ _ _ row at h.namespace named refl refl
  | inr (at, named) ↦ routed _ _ _ _ row at h.namespace named refl refl
]

IsHandoffTo-IsRouted :
    (topic schema file : String) (stamp : Stamp) (ids : Ids) (row : OutboxRow)
    → declares topic ≡ true
    → serializer "rag.ingestion.v1" schema ≡ ok file
    → IsHandoffTo topic schema stamp ids row
    → IsRouted row
IsHandoffTo-IsRouted topic schema file stamp ids row known found h =
    routed topic "rag.ingestion.v1" schema file row h.kafka_topic h.namespace h.contract known found

All-append-one :
    (rows : List OutboxRow) (row : OutboxRow)
    → All IsRouted rows
    → IsRouted row
    → All IsRouted (rows ++ row ∷ [])
All-append-one [] row h r = (r, tt)
All-append-one (x ∷ rows) row (hx, rest) r = (hx, All-append-one rows row rest r)

All-update_where :
    (p : OutboxRow → Bool) (f : OutboxRow → OutboxRow) (rows : List OutboxRow)
    → ((x : OutboxRow) → IsRouted x → IsRouted (f x))
    → All IsRouted rows
    → All IsRouted (update_where p f rows)
All-update_where p f [] keeps h = tt
All-update_where p f (x ∷ rows) keeps (hx, rest) = elim (Bool-cases (p x)) [
  | inl hit ↦ rw hit (keeps x hx, All-update_where p f rows keeps rest)
  | inr miss ↦ rw miss (hx, All-update_where p f rows keeps rest)
]

Processed-AllRouted :
    (stamp : Stamp) (t received : Uuid) (db db' : Db) (done : Bool)
    → Processed stamp t received db done db'
    → All IsRouted db.outbox
    → All IsRouted db'.outbox
Processed-AllRouted stamp t received db db' done (inl (skipped, same, found)) h = rw same h
Processed-AllRouted stamp t received db db' done
      (inr (row, ended, fresh, added, free, processed, handoff)) h =
    rw added (All-append-one db.outbox row h (IsHandoff-IsRouted stamp t row handoff))

Recorded-AllRouted :
    (Q : OutboxRow → Type 0) (ids : Ids) (db db' : Db) (done : Bool)
    → ((row : OutboxRow) → Q row → IsRouted row)
    → Recorded Q ids db done db'
    → All IsRouted db.outbox
    → All IsRouted db'.outbox
Recorded-AllRouted Q ids db db' done routes (inl (skipped, same, found)) h = rw same h
Recorded-AllRouted Q ids db db' done routes
      (inr (row, ended, fresh, added, free, processed, handoff)) h =
    rw added (All-append-one db.outbox row h (routes row handoff))

Step-AllRouted :
    (codec : Codec) (docling_version : String) (db db' : Db)
    → Step codec docling_version db db'
    → All IsRouted db.outbox
    → All IsRouted db'.outbox
unfolding submission_row new_outbox_row pipeline_topic_specs serializer retry_topic
    dead_letter_topic
Step-AllRouted codec v db db' (submits defaults s event_id payload h) all =
    let added = create_submission-Submitted defaults s event_id payload db db' h in
    rw added.outbox (
      All-append-one db.outbox (submission_row defaults s event_id payload) all
        (record { topic = refl; file = "document-submitted.avsc"; contract = refl }))
Step-AllRouted codec v db db' (fetches stamp defaults payload i e done h) all =
    let (t, d, received, own, document, event) =
      process-reads_ids codec stamp defaults payload i e db h in
    Processed-AllRouted stamp t received db db' done
      (process-Processed codec stamp defaults payload own document event i e db h) all
Step-AllRouted codec v db db' (extracts stamp defaults payload r normalized manifest done h) all =
    let (ids, read) =
      complete-reads_ids codec v stamp defaults payload r normalized manifest db h in
    Recorded-AllRouted _ ids db db' done
      (λ row. IsHandoffTo-IsRouted _ _ "content-extracted.avsc" stamp ids row refl refl)
      (complete-Recorded codec v stamp defaults payload ids r normalized manifest db read h) all
Step-AllRouted codec v db db' (refuses stamp defaults payload e done h) all =
    let (ids, read) = reject-reads_ids codec v stamp defaults payload e db h in
    Recorded-AllRouted _ ids db db' done
      (λ row. IsHandoffTo-IsRouted _ _ "content-extraction-rejected.avsc" stamp ids row refl refl)
      (reject-Recorded codec v stamp defaults payload ids e db read h) all
Step-AllRouted codec v db db' (claims skipped now worker_name batch_size claimed h) all =
    let (rows, table) = claim_outbox_events-eq-ok skipped now worker_name batch_size db h in
    rw (sym table) (
      All-update_where (is_picked (picks skipped now batch_size db.outbox))
        (claim_update now worker_name) db.outbox
        (λ x r. record { topic = r.topic; file = r.file; contract = r.contract }) all)
Step-AllRouted codec v db db' (completes now outbox_id worker_name succeeded message retry_at h)
      all =
    rw
      (sym
        (complete_outbox_event-eq-ok now outbox_id worker_name succeeded message retry_at db db' h))
      (All-update_where (is_claimed_by outbox_id worker_name)
        (complete_update now succeeded message retry_at) db.outbox
        (λ x r. record { topic = r.topic; file = r.file; contract = r.contract }) all)

-- Where the topic of every outbox row is one that the topic bootstrap declares, and its contract one
-- whose schema file is checked in, the same holds after any history of committed transactions.
pub History-AllRouted :
    (codec : Codec) (docling_version : String) (db db' : Db)
    → History codec docling_version db db'
    → All IsRouted db.outbox
    → All IsRouted db'.outbox
History-AllRouted codec v db db' start all = all
History-AllRouted codec v db db' (then {mid} before step) all =
    Step-AllRouted codec v mid db' step (History-AllRouted codec v db mid before all)
