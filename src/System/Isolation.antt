-- ===== src/System/Isolation.antt =====
-- What the transactions of the other tenants, and those of the publisher, leave of a tenant's rows.
use enterprise_rag_ingestion.Prelude.{
  ℕ, String, ◌≡◌, ◌≢◌, refl, sym, ap, ◌∙◌, Bool, true, not, Option, List, [], ◌∷◌, nat_eq, ◌==◌,
  select, arith,
}
use enterprise_rag_ingestion.Exceptions.{ok}
use enterprise_rag_ingestion.Uuid.{Uuid, Codec, uuid}
use enterprise_rag_ingestion.Domain.Events.{DocumentFetched}
use enterprise_rag_ingestion.Database.{Db, Document, Version, OutboxRow, ProcessedEvent, Failure}
use enterprise_rag_ingestion.Database.Tenants.{Others, others}
use enterprise_rag_ingestion.Extractor.Payload.{Ids, payload_ids}
use enterprise_rag_ingestion.Publisher.Outbox.{claim_outbox_events, complete_outbox_event}
use enterprise_rag_ingestion.Submission.Isolation.{create_submission-Keeps-others}
use enterprise_rag_ingestion.Fetcher.Repository.Isolation.{process-Keeps-others}
use enterprise_rag_ingestion.Fetcher.Repository.Redelivery.{process-reads_ids}
use enterprise_rag_ingestion.Extractor.Repository.Handoff.{complete-reads_ids, reject-reads_ids}
use enterprise_rag_ingestion.Extractor.Repository.Isolation.{
  complete-Keeps-others, reject-Keeps-others,
}
use enterprise_rag_ingestion.System.{
  Step, submits, fetches, extracts, refuses, claims, completes, History, start, then,
}

-- The rows of one tenant, in every table but the outbox, which the publisher moves along.
pub record Owned : Type 0 where
  pub documents : List Document
  pub versions : List Version
  pub processed : List ProcessedEvent
  pub failures : List Failure

unfoldable pub owned : Uuid → Db → Owned
owned t db = record {
  documents = select (λ r. r.tenant_id == t) db.documents;
  versions = select (λ r. r.tenant_id == t) db.versions;
  processed = select (λ r. r.tenant_id == t) db.processed;
  failures = select (λ r. r.tenant_id == t) db.failures;
}

-- The same, of what another tenant's transaction leaves alone.
abbrev owned_of : Uuid → Others → Owned
owned_of t o = record {
  documents = select (λ r. r.tenant_id == t) o.documents;
  versions = select (λ r. r.tenant_id == t) o.versions;
  processed = select (λ r. r.tenant_id == t) o.processed;
  failures = select (λ r. r.tenant_id == t) o.failures;
}

-- A narrower selection sees no difference.
select-select_wider {ℓ} :
    {A : Type ℓ} (p q : A → Bool) (xs : List A)
    → ((x : A) → p x ≡ true → q x ≡ true)
    → select p (select q xs) ≡ select p xs
select-select_wider p q [] wider = refl
select-select_wider p q (x ∷ xs) wider = ground (arith, wider x, select-select_wider p q xs wider)

is_foreign : (s t r : Uuid) → s ≢ t → (r == t) ≡ true → not (r == s) ≡ true
is_foreign s t r other own = ground arith

owned_of-others : (s t : Uuid) (db : Db) → s ≢ t → owned_of t (others s db) ≡ owned t db
unfolding others owned
owned_of-others s t db other =
    let documents =
      select-select_wider (λ (r : Document). r.tenant_id == t) (λ r. not (r.tenant_id == s))
        db.documents (λ r. is_foreign s t r.tenant_id other) in
    let versions =
      select-select_wider (λ (r : Version). r.tenant_id == t) (λ r. not (r.tenant_id == s))
        db.versions (λ r. is_foreign s t r.tenant_id other) in
    let processed =
      select-select_wider (λ (r : ProcessedEvent). r.tenant_id == t) (λ r. not (r.tenant_id == s))
        db.processed (λ r. is_foreign s t r.tenant_id other) in
    let failures =
      select-select_wider (λ (r : Failure). r.tenant_id == t) (λ r. not (r.tenant_id == s))
        db.failures (λ r. is_foreign s t r.tenant_id other) in
    rw (documents, versions, processed, failures) refl

owned-others :
    (s t : Uuid) (db db' : Db) → s ≢ t → others s db' ≡ others s db → owned t db' ≡ owned t db
owned-others s t db db' other same =
    sym (owned_of-others s t db' other) ∙ ap (owned_of t) same ∙ owned_of-others s t db other

claim_outbox_events-owned :
    (t : Uuid) (skipped : OutboxRow → Bool) (now : ℕ) (worker_name : String) (batch_size : ℕ)
    (claimed : List OutboxRow) (db db' : Db)
    → claim_outbox_events skipped now worker_name batch_size db ≡ ok (claimed, db')
    → owned t db' ≡ owned t db
unfolding claim_outbox_events owned
claim_outbox_events-owned t skipped now worker_name batch_size claimed db db' h = ground arith

complete_outbox_event-owned :
    (t : Uuid) (now : ℕ) (outbox_id : Uuid) (worker_name : String) (succeeded : Bool)
    (message : Option String) (retry_at : Option ℕ) (db db' : Db)
    → complete_outbox_event now outbox_id worker_name succeeded message retry_at db ≡ ok (tt, db')
    → owned t db' ≡ owned t db
unfolding complete_outbox_event owned
complete_outbox_event-owned t now outbox_id worker_name succeeded message retry_at db db' h =
    ground arith

payload_ids-tenant_id :
    (codec : Codec) (payload : DocumentFetched) (ids : Ids)
    → payload_ids codec payload ≡ ok ids
    → uuid codec payload.tenant_id ≡ ok ids.tenant_id
unfolding payload_ids
payload_ids-tenant_id codec payload ids h = ground arith

module _ (codec : Codec) (docling_version : String) (t : Uuid) where
  -- A step of the publisher, or of a submission or an event that names another tenant.
  unfoldable pub IsForeign : {db db' : Db} → Step codec docling_version db db' → Type 0
  IsForeign (submits defaults s event_id payload h) = s.tenant_id ≢ t
  IsForeign (fetches stamp defaults payload i e done h) = uuid codec payload.tenant_id ≢ ok t
  IsForeign (extracts stamp defaults payload r normalized manifest done h) =
      uuid codec payload.tenant_id ≢ ok t
  IsForeign (refuses stamp defaults payload e done h) = uuid codec payload.tenant_id ≢ ok t
  IsForeign (claims skipped now worker_name batch_size claimed h) = Unit
  IsForeign (completes now outbox_id worker_name succeeded message retry_at h) = Unit

  unfoldable pub AllForeign : {db db' : Db} → History codec docling_version db db' → Type 0
  AllForeign start = Unit
  AllForeign (then h s) = AllForeign h × IsForeign s

  named : (name : String) (s : Uuid) → uuid codec name ≢ ok t → uuid codec name ≡ ok s → s ≢ t
  named name s other own same = other (own ∙ ap ok same)

  Step-owned :
      {db db' : Db} (s : Step codec docling_version db db') → IsForeign s → owned t db' ≡ owned t db
  unfolding IsForeign
  Step-owned {db} {db'} (submits defaults s event_id payload h) other =
      owned-others s.tenant_id t db db' other
        (create_submission-Keeps-others defaults s event_id payload db db' h)
  Step-owned {db} {db'} (fetches stamp defaults payload i e done h) other =
      let (s, d, received, own, document, event) =
        process-reads_ids codec stamp defaults payload i e db h in
      owned-others s t db db' (named payload.tenant_id s other own)
        (process-Keeps-others codec stamp defaults payload i e db own h)
  Step-owned {db} {db'} (extracts stamp defaults payload r normalized manifest done h) other =
      let (ids, read) =
        complete-reads_ids codec docling_version stamp defaults payload r normalized manifest db
          h in
      owned-others ids.tenant_id t db db'
        (named payload.tenant_id ids.tenant_id other (payload_ids-tenant_id codec payload ids read))
        (complete-Keeps-others codec docling_version stamp defaults payload ids r normalized
          manifest db read h)
  Step-owned {db} {db'} (refuses stamp defaults payload e done h) other =
      let (ids, read) = reject-reads_ids codec docling_version stamp defaults payload e db h in
      owned-others ids.tenant_id t db db'
        (named payload.tenant_id ids.tenant_id other (payload_ids-tenant_id codec payload ids read))
        (reject-Keeps-others codec docling_version stamp defaults payload ids e db read h)
  Step-owned {db} {db'} (claims skipped now worker_name batch_size claimed h) other =
      claim_outbox_events-owned t skipped now worker_name batch_size claimed db db' h
  Step-owned {db} {db'} (completes now outbox_id worker_name succeeded message retry_at h) other =
      complete_outbox_event-owned t now outbox_id worker_name succeeded message retry_at db db' h

  -- Whatever transactions follow, in any order, of the publisher and of submissions and events that
  -- name other tenants: the tenant's documents, versions, processed events and failures stay the
  -- same rows in the same order.
  pub History-owned :
      {db db' : Db} (h : History codec docling_version db db')
      → AllForeign h
      → owned t db' ≡ owned t db
  unfolding AllForeign
  History-owned start all = refl
  History-owned (then h s) (before, other) = Step-owned s other ∙ History-owned h before
