-- ===== src/System/Refines.antt =====
-- Every transaction of the pipeline is a step of the log of messages.
use enterprise_rag_ingestion.Prelude.{
  ℕ, Option, ◌≡◌, refl, sym, ap, subst, ◌∙◌, inl, inr, String, Bool, false, List, [], ◌∷◌, ◌++◌,
  map, has, update_where, arith, Bool-cases,
}
use enterprise_rag_ingestion.Exceptions.{ok}
use enterprise_rag_ingestion.Uuid.{Uuid, Codec}
use enterprise_rag_ingestion.Domain.Events.{DocumentSubmitted, Stamp}
use enterprise_rag_ingestion.Database.{Db, OutboxRow}
use enterprise_rag_ingestion.Database.Statements.{
  is_processed, clashes, check_tenant, insert_outbox, store_outbox, Defaults,
}
use enterprise_rag_ingestion.Database.Transaction.{◌>>=◌}
use enterprise_rag_ingestion.Database.Handoffs.{claim_row}
use enterprise_rag_ingestion.Submission.{
  Submission, store_document, store_version, set_current_version, submission_row, create_submission,
}
use enterprise_rag_ingestion.Fetcher.Repository.{consumer_name as fetcher_name}
use enterprise_rag_ingestion.Fetcher.Repository.Handoff.{Processed, process-Processed}
use enterprise_rag_ingestion.Fetcher.Repository.Redelivery.{process-reads_ids}
use enterprise_rag_ingestion.Extractor.Payload.{Ids}
use enterprise_rag_ingestion.Extractor.Repository.{consumer_name as extractor_name}
use enterprise_rag_ingestion.Extractor.Repository.Ledger.{Recorded}
use enterprise_rag_ingestion.Extractor.Repository.Handoff.{
  complete-Recorded, reject-Recorded, complete-reads_ids, reject-reads_ids,
}
use enterprise_rag_ingestion.Publisher.Outbox.{
  picks, claim_update, is_picked, claim_outbox_events, is_claimed_by, complete_update,
  complete_outbox_event,
}
use enterprise_rag_ingestion.System.{Step, submits, fetches, extracts, refuses, claims, completes}
use enterprise_rag_ingestion.System.Messages.{
  message_of, log_of, collides, LogStep, stays, enters, hands_over,
}

map-append-one :
    (rows : List OutboxRow) (row : OutboxRow)
    → map message_of (rows ++ row ∷ []) ≡ map message_of rows ++ message_of row ∷ []
map-append-one [] row = refl
map-append-one (r ∷ rows) row = ap (◌∷◌ (message_of r)) (map-append-one rows row)

has-map-message_of :
    (row : OutboxRow) (rows : List OutboxRow)
    → has (collides (message_of row)) (map message_of rows)
      ≡ has (clashes row.id row.tenant_id row.event_id) rows
has-map-message_of row [] = refl
has-map-message_of row (r ∷ rows) = ground (arith, has-map-message_of row rows)

-- A change of the delivery's columns.
map-update_where :
    (p : OutboxRow → Bool) (f : OutboxRow → OutboxRow) (rows : List OutboxRow)
    → ((r : OutboxRow) → message_of (f r) ≡ message_of r)
    → map message_of (update_where p f rows) ≡ map message_of rows
map-update_where p f [] same = refl
map-update_where p f (r ∷ rows) same = elim (Bool-cases (p r)) [
  | inl hit ↦ rw (hit, same r, map-update_where p f rows same) refl
  | inr miss ↦ rw (miss, map-update_where p f rows same) refl
]

-- A submission's row clashes with none.
pub create_submission-fresh :
    (defaults : Defaults) (s : Submission) (event_id : Uuid) (payload : DocumentSubmitted)
    (db db' : Db)
    → create_submission defaults s event_id payload db ≡ ok (tt, db')
    → (row : OutboxRow) × (db'.outbox ≡ db.outbox ++ row ∷ [])
      × (has (clashes row.id row.tenant_id row.event_id) db.outbox ≡ false)
      × (db'.processed ≡ db.processed)
unfolding create_submission check_tenant store_document store_version set_current_version
    insert_outbox store_outbox ◌>>=◌
create_submission-fresh defaults s event_id payload db db' h =
    (submission_row defaults s event_id payload, ground arith, ground arith, ground arith)

enters_row :
    (db db' : Db) (row : OutboxRow)
    → db'.outbox ≡ db.outbox ++ row ∷ []
    → has (clashes row.id row.tenant_id row.event_id) db.outbox ≡ false
    → db'.processed ≡ db.processed
    → LogStep (log_of db) (log_of db')
enters_row db db' row added free same =
    enters (message_of row) (has-map-message_of row db.outbox ∙ free)
      (ap (map message_of) added ∙ map-append-one db.outbox row) same

hands_over_row :
    (t e : Uuid) (consumer : String) (db db' : Db) (row : OutboxRow)
    → has (is_processed t e consumer) db.processed ≡ false
    → db'.outbox ≡ db.outbox ++ row ∷ []
    → has (clashes row.id row.tenant_id row.event_id) db.outbox ≡ false
    → db'.processed ≡ db.processed ++ claim_row t e consumer ∷ []
    → LogStep (log_of db) (log_of db')
hands_over_row t e consumer db db' row fresh added free processed =
    hands_over (message_of row) (claim_row t e consumer) fresh
      (has-map-message_of row db.outbox ∙ free)
      (ap (map message_of) added ∙ map-append-one db.outbox row) processed

stays_same : (db db' : Db) → log_of db' ≡ log_of db → LogStep (log_of db) (log_of db')
stays_same db db' same = subst (λ l. LogStep (log_of db) l) (sym same) stays

Processed-LogStep :
    (stamp : Stamp) (t received : Uuid) (db db' : Db) (done : Bool)
    → Processed stamp t received db done db'
    → LogStep (log_of db) (log_of db')
Processed-LogStep stamp t received db db' done (inl (skipped, same, found)) =
    stays_same db db' (ap log_of same)
Processed-LogStep stamp t received db db' done
      (inr (row, ended, fresh, added, free, processed, handoff)) =
    hands_over_row t received fetcher_name db db' row fresh added free processed

Recorded-LogStep :
    (Q : OutboxRow → Type 0) (ids : Ids) (db db' : Db) (done : Bool)
    → Recorded Q ids db done db'
    → LogStep (log_of db) (log_of db')
Recorded-LogStep Q ids db db' done (inl (skipped, same, found)) = stays_same db db' (ap log_of same)
Recorded-LogStep Q ids db db' done (inr (row, ended, fresh, added, free, processed, handoff)) =
    hands_over_row ids.tenant_id ids.received_event_id extractor_name db db' row fresh added free
      processed

claim_outbox_events-log :
    (skipped : OutboxRow → Bool) (now : ℕ) (worker_name : String) (batch_size : ℕ)
    (claimed : List OutboxRow) (db db' : Db)
    → claim_outbox_events skipped now worker_name batch_size db ≡ ok (claimed, db')
    → log_of db' ≡ log_of db
unfolding claim_outbox_events
claim_outbox_events-log skipped now worker_name batch_size claimed db db' h =
    let same =
      map-update_where (is_picked (picks skipped now batch_size db.outbox))
        (claim_update now worker_name) db.outbox (λ r. refl) in
    ground (arith, same)

complete_outbox_event-log :
    (now : ℕ) (outbox_id : Uuid) (worker_name : String) (succeeded : Bool) (message : Option String)
    (retry_at : Option ℕ) (db db' : Db)
    → complete_outbox_event now outbox_id worker_name succeeded message retry_at db ≡ ok (tt, db')
    → log_of db' ≡ log_of db
unfolding complete_outbox_event
complete_outbox_event-log now outbox_id worker_name succeeded message retry_at db db' h =
    let same =
      map-update_where (is_claimed_by outbox_id worker_name)
        (complete_update now succeeded message retry_at) db.outbox (λ r. refl) in
    ground (arith, same)

-- Every committed transaction of the API, of a worker or of the publisher is, on the log of messages
-- that it leaves of the database, no change, one new message, or the end of one event that its
-- consumer has not ended before together with one new message; no two messages share their id, or
-- their tenant and event.
pub Step-refines :
    (codec : Codec) (docling_version : String) (db db' : Db)
    → Step codec docling_version db db'
    → LogStep (log_of db) (log_of db')
Step-refines codec v db db' (submits defaults s event_id payload h) =
    let (row, added, free, same) = create_submission-fresh defaults s event_id payload db db' h in
    enters_row db db' row added free same
Step-refines codec v db db' (fetches stamp defaults payload i e done h) =
    let (t, d, received, own, document, event) =
      process-reads_ids codec stamp defaults payload i e db h in
    Processed-LogStep stamp t received db db' done
      (process-Processed codec stamp defaults payload own document event i e db h)
Step-refines codec v db db' (extracts stamp defaults payload r normalized manifest done h) =
    let (ids, read) =
      complete-reads_ids codec v stamp defaults payload r normalized manifest db h in
    Recorded-LogStep _ ids db db' done
      (complete-Recorded codec v stamp defaults payload ids r normalized manifest db read h)
Step-refines codec v db db' (refuses stamp defaults payload e done h) =
    let (ids, read) = reject-reads_ids codec v stamp defaults payload e db h in
    Recorded-LogStep _ ids db db' done
      (reject-Recorded codec v stamp defaults payload ids e db read h)
Step-refines codec v db db' (claims skipped now worker_name batch_size claimed h) =
    stays_same db db' (claim_outbox_events-log skipped now worker_name batch_size claimed db db' h)
Step-refines codec v db db' (completes now outbox_id worker_name succeeded message retry_at h) =
    stays_same db db'
      (complete_outbox_event-log now outbox_id worker_name succeeded message retry_at db db' h)
