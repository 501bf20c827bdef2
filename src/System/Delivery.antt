-- ===== src/System/Delivery.antt =====
-- An outbox row in any history: it is not lost, and a published row is final.
use enterprise_rag_ingestion.Prelude.{
  ℕ, ◌≤◌, ◌≡◌, refl, sym, ap, subst, ◌∙◌, inl, inr, String, Bool, true, Option, some, List, [], ◌∷◌,
  ◌++◌, nat_eq, arith, Bool-cases,
}
use enterprise_rag_ingestion.Exceptions.{ok}
use enterprise_rag_ingestion.Uuid.{Uuid, Codec}
use enterprise_rag_ingestion.Domain.Events.{Stamp}
use enterprise_rag_ingestion.Database.{Db, OutboxRow, OutboxStatus}
use enterprise_rag_ingestion.Publisher.Outbox.{
  claimable, picks, claim_update, is_picked, claim_outbox_events, is_claimed_by, complete_update,
  complete_outbox_event,
}
use enterprise_rag_ingestion.Publisher.Outbox.Rows.{Distinct, find, is_picked-claimable}
use enterprise_rag_ingestion.Publisher.Outbox.Distinct.{find-updated}
use enterprise_rag_ingestion.Publisher.Outbox.Claims.{
  claim_outbox_events-eq-ok, complete_outbox_event-eq-ok,
}
use enterprise_rag_ingestion.System.{
  Step, submits, fetches, extracts, refuses, claims, completes, History, start, then,
}
use enterprise_rag_ingestion.System.Messages.{message_of, log_of}
use enterprise_rag_ingestion.System.Invariants.{IsKeyed, Apart-Distinct, History-IsKeyed}
use enterprise_rag_ingestion.Fetcher.Repository.Handoff.{Processed, process-Processed}
use enterprise_rag_ingestion.Fetcher.Repository.Redelivery.{process-reads_ids}
use enterprise_rag_ingestion.Extractor.Payload.{Ids}
use enterprise_rag_ingestion.Extractor.Repository.Ledger.{Recorded}
use enterprise_rag_ingestion.Extractor.Repository.Handoff.{
  complete-Recorded, reject-Recorded, complete-reads_ids, reject-reads_ids,
}
use enterprise_rag_ingestion.System.Refines.{create_submission-fresh}
use enterprise_rag_ingestion.System.Rows.{
  Moves, rests, is_taken, is_ended, Moves-message, Moves-attempts, Moves-published, find-append,
  find-passed_over, All-find,
}

-- The row that `i` leads to has made moves since it was `r`.
abbrev MovedIn : Uuid → OutboxRow → Db → Type 0
MovedIn i r db = (r' : OutboxRow) × (find i db.outbox ≡ some r') × Moves r r'

MovedIn-append :
    (i : Uuid) (r : OutboxRow) (more : List OutboxRow) (db db' : Db)
    → db'.outbox ≡ db.outbox ++ more
    → MovedIn i r db
    → MovedIn i r db'
MovedIn-append i r more db db' added (now, at, moved) =
    (now, rw added (find-append i db.outbox more now at), moved)

Processed-MovedIn :
    (i : Uuid) (r : OutboxRow) (stamp : Stamp) (t received : Uuid) (db db' : Db) (done : Bool)
    → Processed stamp t received db done db'
    → MovedIn i r db
    → MovedIn i r db'
Processed-MovedIn i r stamp t received db db' done (inl (skipped, same, found)) h =
    subst (MovedIn i r) (sym same) h
Processed-MovedIn i r stamp t received db db' done
      (inr (row, ended, fresh, added, free, processed, handoff)) h =
    MovedIn-append i r (row ∷ []) db db' added h

Recorded-MovedIn :
    (i : Uuid) (r : OutboxRow) (Q : OutboxRow → Type 0) (ids : Ids) (db db' : Db) (done : Bool)
    → Recorded Q ids db done db'
    → MovedIn i r db
    → MovedIn i r db'
Recorded-MovedIn i r Q ids db db' done (inl (skipped, same, found)) h =
    subst (MovedIn i r) (sym same) h
Recorded-MovedIn i r Q ids db db' done (inr (row, ended, fresh, added, free, processed, handoff))
      h =
    MovedIn-append i r (row ∷ []) db db' added h

-- A claim takes the row only if it waits.
claim-MovedIn :
    (i : Uuid) (r : OutboxRow) (skipped : OutboxRow → Bool) (now : ℕ) (worker_name : String)
    (batch_size : ℕ) (claimed : List OutboxRow) (db db' : Db)
    → Distinct db.outbox
    → claim_outbox_events skipped now worker_name batch_size db ≡ ok (claimed, db')
    → MovedIn i r db
    → MovedIn i r db'
claim-MovedIn i r skipped now worker_name batch_size claimed db db' distinct h (mid, at, moved) =
    let chosen = picks skipped now batch_size db.outbox in
    let (rows, table) = claim_outbox_events-eq-ok skipped now worker_name batch_size db h in
    let may : is_picked chosen mid ≡ true → claimable skipped now mid ≡ true =
      All-find _ i db.outbox mid (is_picked-claimable skipped now batch_size db.outbox distinct)
        at in
    elim (Bool-cases (is_picked chosen mid)) [
      | inl hit ↦ (
        claim_update now worker_name mid,
        rw (sym table) (
            find-updated (is_picked chosen) (claim_update now worker_name) (λ x. refl) i db.outbox
              mid at hit),
        is_taken now worker_name moved (ground (arith, may hit)),
      )
      | inr miss ↦ (
        mid,
        rw (sym table) (
            find-passed_over (is_picked chosen) (claim_update now worker_name) i db.outbox mid
              (λ x. refl) at miss),
        moved,
      )
    ]

-- A completion takes the row only if it is being published.
complete-MovedIn :
    (i : Uuid) (r : OutboxRow) (now : ℕ) (outbox_id : Uuid) (worker_name : String)
    (succeeded : Bool) (message : Option String) (retry_at : Option ℕ) (db db' : Db)
    → complete_outbox_event now outbox_id worker_name succeeded message retry_at db ≡ ok (tt, db')
    → MovedIn i r db
    → MovedIn i r db'
complete-MovedIn i r now outbox_id worker_name succeeded message retry_at db db' h
      (mid, at, moved) =
    let table =
      complete_outbox_event-eq-ok now outbox_id worker_name succeeded message retry_at db db' h in
    let change = complete_update now succeeded message retry_at in
    elim (Bool-cases (is_claimed_by outbox_id worker_name mid)) [
      | inl hit ↦ (
        change mid,
        rw (sym table) (
            find-updated (is_claimed_by outbox_id worker_name) change (λ x. refl) i db.outbox mid at
              hit),
        is_ended now succeeded message retry_at moved (ground arith),
      )
      | inr miss ↦ (
        mid,
        rw (sym table) (
            find-passed_over (is_claimed_by outbox_id worker_name) change i db.outbox mid
              (λ x. refl) at miss),
        moved,
      )
    ]

Step-MovedIn :
    (codec : Codec) (docling_version : String) (i : Uuid) (r : OutboxRow) (db db' : Db)
    → Distinct db.outbox
    → Step codec docling_version db db'
    → MovedIn i r db
    → MovedIn i r db'
Step-MovedIn codec v i r db db' distinct (submits defaults s event_id payload h) at =
    let (row, added, free, same) = create_submission-fresh defaults s event_id payload db db' h in
    MovedIn-append i r (row ∷ []) db db' added at
Step-MovedIn codec v i r db db' distinct (fetches stamp defaults payload e f done h) at =
    let (t, d, received, own, document, event) =
      process-reads_ids codec stamp defaults payload e f db h in
    Processed-MovedIn i r stamp t received db db' done
      (process-Processed codec stamp defaults payload own document event e f db h) at
Step-MovedIn codec v i r db db' distinct
      (extracts stamp defaults payload x normalized manifest done h) at =
    let (ids, read) =
      complete-reads_ids codec v stamp defaults payload x normalized manifest db h in
    Recorded-MovedIn i r _ ids db db' done
      (complete-Recorded codec v stamp defaults payload ids x normalized manifest db read h) at
Step-MovedIn codec v i r db db' distinct (refuses stamp defaults payload e done h) at =
    let (ids, read) = reject-reads_ids codec v stamp defaults payload e db h in
    Recorded-MovedIn i r _ ids db db' done
      (reject-Recorded codec v stamp defaults payload ids e db read h) at
Step-MovedIn codec v i r db db' distinct (claims skipped now worker_name batch_size claimed h) at =
    claim-MovedIn i r skipped now worker_name batch_size claimed db db' distinct h at
Step-MovedIn codec v i r db db' distinct
      (completes now outbox_id worker_name succeeded message retry_at h) at =
    complete-MovedIn i r now outbox_id worker_name succeeded message retry_at db db' h at

module _ (codec : Codec) (docling_version : String) where
  History-MovedIn :
      (i : Uuid) (r : OutboxRow) (db db' : Db)
      → IsKeyed (log_of db)
      → History codec docling_version db db'
      → find i db.outbox ≡ some r
      → MovedIn i r db'
  History-MovedIn i r db db' keyed start at = (r, at, rests)
  History-MovedIn i r db db' keyed (then {mid} before step) at =
      let mid_keyed = History-IsKeyed codec docling_version db mid before keyed in
      Step-MovedIn codec docling_version i r mid db' (Apart-Distinct mid.outbox mid_keyed.messages)
        step (History-MovedIn i r db mid keyed before at)

  -- Where the outbox and the ledger keep their keys, an outbox row is never lost: after any history of
  -- committed transactions its id leads to a row with the same message and at least as many attempts,
  -- which its delivery moved there by claims, each of a waiting row, and completions, each of a row
  -- that was being published.
  pub History-keeps_row :
      (i : Uuid) (r : OutboxRow) (db db' : Db)
      → IsKeyed (log_of db)
      → History codec docling_version db db'
      → find i db.outbox ≡ some r
      → (r' : OutboxRow) × (find i db'.outbox ≡ some r')
        × Moves r r'
        × (message_of r' ≡ message_of r)
        × (r.attempt_count ≤ r'.attempt_count)
  History-keeps_row i r db db' keyed history at =
      let (r', at', moved) = History-MovedIn i r db db' keyed history at in
      (r', at', moved, Moves-message r r' moved, Moves-attempts r r' moved)

  -- Where the outbox and the ledger keep their keys, a published row is final: after any history of
  -- committed transactions its id leads to the same row, unchanged in every column.
  pub History-published :
      (i : Uuid) (r : OutboxRow) (db db' : Db)
      → IsKeyed (log_of db)
      → History codec docling_version db db'
      → find i db.outbox ≡ some r
      → r.status ≡ OutboxStatus.published
      → find i db'.outbox ≡ some r
  History-published i r db db' keyed history at over =
      let (r', at', moved) = History-MovedIn i r db db' keyed history at in
      at' ∙ ap some (Moves-published r r' moved over)
