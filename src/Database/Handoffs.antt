-- ===== src/Database/Handoffs.antt =====
-- Transactions that hand one event over to the outbox.
use enterprise_rag_ingestion.Prelude.{
  String, ◌≡◌, refl, ap, subst, ◌∙◌, string_eq, eq_iff, Bool, true, false, List, [], ◌∷◌, ◌++◌, has,
  arith,
}
use enterprise_rag_ingestion.Exceptions.{Exception, Result, ok, raise}
use enterprise_rag_ingestion.Uuid.{Uuid}
use enterprise_rag_ingestion.Database.{
  Db, DocumentStatus, Version, OutboxRow, ProcessedEvent, Failure,
}
use enterprise_rag_ingestion.Database.Transaction.{Tx, pure, throw, lift, ◌>>=◌, ◌>>◌, >>=-eq-ok}
use enterprise_rag_ingestion.Database.Statements.{
  check_tenant, store_processed, record_event, claim_event, is_processed, set_document_status,
  update_version, store_outbox, clashes, insert_outbox, store_failure, insert_failure,
}
use enterprise_rag_ingestion.Database.Keeps.{Keeps, Keeps-then}

-- The outbox and the ledger of processed events.
abbrev pub queues : Db → List OutboxRow × List ProcessedEvent
queues db = (db.outbox, db.processed)

abbrev pub claim_row : Uuid → Uuid → String → ProcessedEvent
claim_row t e consumer = record { tenant_id = t; event_id = e; consumer_name = consumer }

-- If `m` commits, it has put one row behind the outbox, which clashes with no other, and of which and
-- of its result `P` holds, and it has recorded no event as processed.
pub record Emits {A : Type 0} (P : A → OutboxRow → Type 0) (m : Tx A) : Type 0 where
  pub at :
      (db db' : Db) (a : A)
      → m db ≡ ok (a, db')
      → (row : OutboxRow) × (db'.outbox ≡ db.outbox ++ row ∷ [])
        × (has (clashes row.id row.tenant_id row.event_id) db.outbox ≡ false)
        × (db'.processed ≡ db.processed)
        × P a row

module _ {A B : Type 0} {P : B → OutboxRow → Type 0} where
  pub Emits-bind :
      (m : Tx A) (f : A → Tx B) → Keeps queues m → ((a : A) → Emits P (f a)) → Emits P (m >>= f)
  Emits-bind m f km ef = record {
    at = λ db db' b h.
        let (a, mid, first, second) = >>=-eq-ok m f db h in
        let same : queues mid ≡ queues db = km.at db mid a first in
        let (row, added, free, processed, p) = (ef a).at mid db' b second in
        (
          row,
          added ∙ ap (λ (q : List OutboxRow × List ProcessedEvent). q.0 ++ row ∷ []) same,
          subst
              (λ (q : List OutboxRow × List ProcessedEvent).
                has (clashes row.id row.tenant_id row.event_id) q.0 ≡ false)
              same free,
          processed ∙ ap (λ (q : List OutboxRow × List ProcessedEvent). q.1) same,
          p,
        );
  }

  pub Emits-bind-lift :
      (r : Result A) (f : A → Tx B) → ((a : A) → r ≡ ok a → Emits P (f a)) → Emits P (lift r >>= f)
  unfolding ◌>>=◌
  Emits-bind-lift (ok a) f ef = record { at = (ef a refl).at }
  Emits-bind-lift (raise e) f ef = record { at = λ db db' b h. cc }

module _ {A : Type 0} {P : A → OutboxRow → Type 0} where
  pub Emits-throw : (e : Exception) → Emits P (throw {A = A} e)
  unfolding throw
  Emits-throw e = record { at = λ db db' b h. cc }

  pub Emits-then : (m : Tx Unit) (k : Tx A) → Keeps queues m → Emits P k → Emits P (m >> k)
  Emits-then m k km ek = Emits-bind m (λ _. k) km (λ _. ek)

  -- Emission last but for the result.
  pub Emits-pure :
      (m : Tx Unit) (a : A) → Emits (λ (u : Unit {0}) row. P a row) m → Emits P (m >> pure a)
  Emits-pure m a em = record {
    at = λ db db' b h.
        let (u, mid, first, second) = >>=-eq-ok m (λ _. pure a) db h in
        let same : (mid ≡ db') × (a ≡ b) = unfold pure in ground arith in
        let (row, added, free, processed, p) = em.at db mid u first in
        (
          row,
          subst (λ d. d.outbox ≡ db.outbox ++ row ∷ []) same.0 added,
          free,
          subst (λ d. d.processed ≡ db.processed) same.0 processed,
          subst (λ c. P c row) same.1 p,
        );
  }

check_tenant-same : (t : Uuid) {X : Type 0} (view : Db → X) → Keeps view (check_tenant t)
unfolding check_tenant
check_tenant-same t view = record { at = λ db db' a h. ground arith }

pub set_document_status-Keeps-queues :
    (status : DocumentStatus) (t d : Uuid) → Keeps queues (set_document_status status t d)
unfolding set_document_status
set_document_status-Keeps-queues status t d = record { at = λ db db' a h. ground arith }

pub update_version-Keeps-queues :
    (t v : Uuid) (change : Version → Version) → Keeps queues (update_version t v change)
unfolding update_version
update_version-Keeps-queues t v change = record { at = λ db db' a h. ground arith }

store_failure-Keeps-queues : (row : Failure) → Keeps queues (store_failure row)
unfolding store_failure
store_failure-Keeps-queues row = record { at = λ db db' a h. ground arith }

pub insert_failure-Keeps-queues : (row : Failure) → Keeps queues (insert_failure row)
unfolding insert_failure
insert_failure-Keeps-queues row =
    Keeps-then _ _ (check_tenant-same _ queues) (store_failure-Keeps-queues row)

store_outbox-Emits :
    (P : Unit {0} → OutboxRow → Type 0) (row : OutboxRow)
    → ((u : Unit {0}) → P u row)
    → Emits P (store_outbox row)
unfolding store_outbox
store_outbox-Emits P row p = record {
  at = λ db db' a h. (row, ground arith, ground arith, ground arith, p a);
}

pub insert_outbox-Emits :
    (P : Unit {0} → OutboxRow → Type 0) (row : OutboxRow)
    → ((u : Unit {0}) → P u row)
    → Emits P (insert_outbox row)
unfolding insert_outbox
insert_outbox-Emits P row p =
    Emits-then _ _ (check_tenant-same _ queues) (store_outbox-Emits P row p)

check_tenant-same_db : (t : Uuid) → Keeps (λ db. db) (check_tenant t)
check_tenant-same_db t = check_tenant-same t (λ db. db)

record_event-stores :
    (row : ProcessedEvent) (db : Db) {db' : Db} {a : Bool}
    → record_event row db ≡ ok (a, db')
    → (a ≡ true) × (db' ≡ record db { processed = db.processed ++ row ∷ [] })
unfolding record_event store_processed ◌>>=◌
record_event-stores row db h =
    let (u, mid, first, second) = >>=-eq-ok (check_tenant row.tenant_id) _ db h in
    let same : mid ≡ db = (check_tenant-same_db row.tenant_id).at db mid u first in ground arith

-- A claim that returns true found no row with the key and has added it.
pub claim_event-true :
    (t e : Uuid) (consumer : String) (db : Db) {db' : Db}
    → claim_event t e consumer db ≡ ok (true, db')
    → (has (is_processed t e consumer) db.processed ≡ false)
      × (db' ≡ record db { processed = db.processed ++ claim_row t e consumer ∷ [] })
unfolding claim_event
claim_event-true t e consumer db {db'} h =
    ground (arith, record_event-stores (claim_row t e consumer) db {db' = db'} {a = true})

-- A claim that returns false found the key, and has changed nothing.
pub claim_event-false :
    (t e : Uuid) (consumer : String) (db : Db) {db' : Db}
    → claim_event t e consumer db ≡ ok (false, db')
    → (has (is_processed t e consumer) db.processed ≡ true) × (db' ≡ db)
unfolding claim_event
claim_event-false t e consumer db {db'} h =
    ground (arith, record_event-stores (claim_row t e consumer) db {db' = db'} {a = false})

-- A key that is in the ledger is not claimed again.
pub claim_event-again :
    (t e : Uuid) (consumer : String) (db : Db)
    → has (is_processed t e consumer) db.processed ≡ true
    → claim_event t e consumer db ≡ ok (false, db)
unfolding claim_event
claim_event-again t e consumer db h = rw h

-- The ledger's new row is found by its key.
pub claim_row-found :
    (t e : Uuid) (consumer : String) (rows : List ProcessedEvent)
    → has (is_processed t e consumer) (rows ++ claim_row t e consumer ∷ []) ≡ true
claim_row-found t e consumer [] = ground (arith, eq_iff consumer consumer)
claim_row-found t e consumer (r ∷ rows) = ground (arith, claim_row-found t e consumer rows)
