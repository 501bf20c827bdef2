-- ===== src/Database/Tenants.antt =====
-- What belongs to the other tenants, which the statements of one tenant's transaction leave alone.
use enterprise_rag_ingestion.Prelude.{
  String, ◌≡◌, refl, Bool, true, false, not, ◌&&◌, List, [], ◌∷◌, ◌++◌, nat_eq, ◌==◌, select,
  select-update_where, arith,
}
use enterprise_rag_ingestion.Uuid.{Uuid}
use enterprise_rag_ingestion.Database.{
  Db, Document, DocumentStatus, Version, OutboxRow, ProcessedEvent, Failure,
}
use enterprise_rag_ingestion.Database.Statements.{
  check_tenant, store_processed, record_event, store_outbox, store_failure, claim_event,
  set_document_status, update_version, insert_outbox, insert_failure,
}
use enterprise_rag_ingestion.Database.Keeps.{Keeps, Keeps-pure, Keeps-then}

-- The rows of every tenant but one.
pub record Others : Type 0 where
  pub tenants : List Uuid
  pub documents : List Document
  pub versions : List Version
  pub outbox : List OutboxRow
  pub processed : List ProcessedEvent
  pub failures : List Failure

unfoldable pub others : Uuid → Db → Others
others t db = record {
  tenants = db.tenants;
  documents = select (λ r. not (r.tenant_id == t)) db.documents;
  versions = select (λ r. not (r.tenant_id == t)) db.versions;
  outbox = select (λ r. not (r.tenant_id == t)) db.outbox;
  processed = select (λ r. not (r.tenant_id == t)) db.processed;
  failures = select (λ r. not (r.tenant_id == t)) db.failures;
}

-- A row that does not pass is not seen behind the others.
pub select-append_unseen {ℓ} :
    {A : Type ℓ} (p : A → Bool) (xs : List A) (x : A)
    → p x ≡ false
    → select p (xs ++ x ∷ []) ≡ select p xs
select-append_unseen p [] x h = ground arith
select-append_unseen p (y ∷ xs) x h = ground (arith, select-append_unseen p xs x h)

pub is_own : {s t : Uuid} → s ≡ t → not (s == t) ≡ false
is_own e = ground arith

module _ (t : Uuid) where
  pub check_tenant-Keeps-others : (s : Uuid) → Keeps (others t) (check_tenant s)
  unfolding check_tenant
  check_tenant-Keeps-others s = record { at = λ db db' a h. ground arith }

  store_processed-Keeps-others :
      (row : ProcessedEvent) → row.tenant_id ≡ t → Keeps (others t) (store_processed row)
  unfolding store_processed others
  store_processed-Keeps-others row own = record {
    at = λ db db' a h.
        ground
          (arith, select-append_unseen (λ r. not (r.tenant_id == t)) db.processed row (is_own own));
  }

  store_outbox-Keeps-others :
      (row : OutboxRow) → row.tenant_id ≡ t → Keeps (others t) (store_outbox row)
  unfolding store_outbox others
  store_outbox-Keeps-others row own = record {
    at = λ db db' a h.
        ground
          (arith, select-append_unseen (λ r. not (r.tenant_id == t)) db.outbox row (is_own own));
  }

  store_failure-Keeps-others :
      (row : Failure) → row.tenant_id ≡ t → Keeps (others t) (store_failure row)
  unfolding store_failure others
  store_failure-Keeps-others row own = record {
    at = λ db db' a h.
        ground
          (arith, select-append_unseen (λ r. not (r.tenant_id == t)) db.failures row (is_own own));
  }

  record_event-Keeps-others :
      (row : ProcessedEvent) → row.tenant_id ≡ t → Keeps (others t) (record_event row)
  unfolding record_event
  record_event-Keeps-others row own =
      Keeps-then _ _ (check_tenant-Keeps-others _)
        (Keeps-then _ _ (store_processed-Keeps-others row own) (Keeps-pure true))

  pub claim_event-Keeps-others :
      (event_id : Uuid) (consumer_name : String)
      → Keeps (others t) (claim_event t event_id consumer_name)
  unfolding claim_event
  claim_event-Keeps-others event_id consumer_name = record {
    at = λ db db' a h. ground (
      arith,
      (record_event-Keeps-others
            (record { tenant_id = t; event_id = event_id; consumer_name = consumer_name }) refl).at
          db db' a,
    );
  }

  pub set_document_status-Keeps-others :
      (status : DocumentStatus) (document_id : Uuid)
      → Keeps (others t) (set_document_status status t document_id)
  unfolding set_document_status others
  set_document_status-Keeps-others status document_id = record {
    at = λ db db' a h. ground (
      arith,
      select-update_where (λ r. not (r.tenant_id == t))
          (λ r. r.tenant_id == t && r.id == document_id) (λ r. record r { status = status })
          db.documents (λ r hit. ground arith),
    );
  }

  -- A change that leaves the row with its tenant.
  pub update_version-Keeps-others :
      (version_id : Uuid) (change : Version → Version)
      → ((v : Version) → (change v).tenant_id ≡ v.tenant_id)
      → Keeps (others t) (update_version t version_id change)
  unfolding update_version others
  update_version-Keeps-others version_id change same = record {
    at = λ db db' a h. ground (
      arith,
      select-update_where (λ r. not (r.tenant_id == t))
          (λ r. r.tenant_id == t && r.id == version_id) change db.versions
          (λ r hit. ground (arith, same r)),
    );
  }

  pub insert_outbox-Keeps-others :
      (row : OutboxRow) → row.tenant_id ≡ t → Keeps (others t) (insert_outbox row)
  unfolding insert_outbox
  insert_outbox-Keeps-others row own =
      Keeps-then _ _ (check_tenant-Keeps-others _) (store_outbox-Keeps-others row own)

  pub insert_failure-Keeps-others :
      (row : Failure) → row.tenant_id ≡ t → Keeps (others t) (insert_failure row)
  unfolding insert_failure
  insert_failure-Keeps-others row own =
      Keeps-then _ _ (check_tenant-Keeps-others _) (store_failure-Keeps-others row own)
