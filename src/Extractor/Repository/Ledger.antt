-- ===== src/Extractor/Repository/Ledger.antt =====
-- What `complete` and `reject` of workers/content_extractor.py share: the identifiers of the payload,
-- the claim of the event, and the statements that follow it.
use enterprise_rag_ingestion.Prelude.{
  ◌≡◌, refl, ap, ◌∙◌, subst, ◌⊎◌, inl, inr, Bool, true, false, has, [], ◌∷◌, ◌++◌, arith,
  if◌then◌else◌,
}
use enterprise_rag_ingestion.Exceptions.{ok}
use enterprise_rag_ingestion.Uuid.{Codec}
use enterprise_rag_ingestion.Domain.Events.{DocumentFetched}
use enterprise_rag_ingestion.Database.{Db, OutboxRow}
use enterprise_rag_ingestion.Database.Transaction.{Tx, pure, lift, ◌>>=◌, >>=-eq-ok, >>=-of-ok}
use enterprise_rag_ingestion.Database.Statements.{claim_event, is_processed, clashes}
use enterprise_rag_ingestion.Database.Keeps.{Keeps, Keeps-if, Keeps-pure, Keeps-bind}
use enterprise_rag_ingestion.Database.Tenants.{others, claim_event-Keeps-others}
use enterprise_rag_ingestion.Database.Handoffs.{
  Emits, claim_row, claim_event-true, claim_event-false, claim_event-again, claim_row-found,
}
use enterprise_rag_ingestion.Extractor.Repository.{consumer_name}
use enterprise_rag_ingestion.Extractor.Payload.{Ids, payload_ids}

-- A transaction that claims the payload's event, and then runs `body`.
abbrev pub claiming : Codec → DocumentFetched → (Ids → Tx Bool) → Tx Bool
claiming codec payload body = lift (payload_ids codec payload) >>= λ ids.
    claim_event ids.tenant_id ids.received_event_id consumer_name >>= λ claimed.
    if claimed then body ids else pure false

-- The transaction found the event in the ledger and changed nothing, or it recorded the event and
-- added one row, a `Q`, to the outbox.
abbrev pub Recorded : (OutboxRow → Type 0) → Ids → Db → Bool → Db → Type 0
Recorded Q ids db done db' =
    ((done ≡ false)
      × (db' ≡ db)
      × (has (is_processed ids.tenant_id ids.received_event_id consumer_name) db.processed ≡ true))
    ⊎ ((row : OutboxRow) × (done ≡ true)
        × (has (is_processed ids.tenant_id ids.received_event_id consumer_name) db.processed
            ≡ false)
        × (db'.outbox ≡ db.outbox ++ row ∷ [])
        × (has (clashes row.id row.tenant_id row.event_id) db.outbox ≡ false)
        × (db'.processed
            ≡ db.processed ++ claim_row ids.tenant_id ids.received_event_id consumer_name ∷ [])
        × Q row)

module _ (codec : Codec) (payload : DocumentFetched) (body : Ids → Tx Bool) {ids : Ids}
    (read : payload_ids codec payload ≡ ok ids) where
  claiming_identified : claiming codec payload body ≡ (
      claim_event ids.tenant_id ids.received_event_id consumer_name >>= λ claimed.
      if claimed then body ids else pure false)
  unfolding ◌>>=◌
  claiming_identified = rw read refl

  after_claim :
      (Q : OutboxRow → Type 0) (claimed done : Bool) (db mid db' : Db)
      → Emits (λ d row. (d ≡ true) × Q row) (body ids)
      → claim_event ids.tenant_id ids.received_event_id consumer_name db ≡ ok (claimed, mid)
      → (if claimed then body ids else pure false) mid ≡ ok (done, db')
      → Recorded Q ids db done db'
  unfolding pure
  after_claim Q true done db mid db' emits claim rest =
      let (fresh, recorded) =
        claim_event-true ids.tenant_id ids.received_event_id consumer_name db claim in
      let (row, added, free, processed, finished) = emits.at mid db' done rest in
      inr (
        row,
        finished.0,
        fresh,
        added ∙ ap (λ (x : Db). x.outbox ++ row ∷ []) recorded,
        subst (λ (x : Db). has (clashes row.id row.tenant_id row.event_id) x.outbox ≡ false)
            recorded free,
        processed ∙ ap (λ (x : Db). x.processed) recorded,
        finished.1,
      )
  after_claim Q false done db mid db' emits claim rest =
      let (found, same) =
        claim_event-false ids.tenant_id ids.received_event_id consumer_name db claim in
      inl (ground arith, ground arith, found)

  pub claiming-Recorded :
      (Q : OutboxRow → Type 0) (db : Db) {db' : Db} {done : Bool}
      → Emits (λ d row. (d ≡ true) × Q row) (body ids)
      → claiming codec payload body db ≡ ok (done, db')
      → Recorded Q ids db done db'
  claiming-Recorded Q db {db'} {done} emits h =
      let (claimed, mid, claim, rest) =
        >>=-eq-ok (claim_event ids.tenant_id ids.received_event_id consumer_name) _ db
          (rw claiming_identified at h) in
      after_claim Q claimed done db mid db' emits claim rest

  pub claiming-redelivered :
      (db : Db)
      → has (is_processed ids.tenant_id ids.received_event_id consumer_name) db.processed ≡ true
      → claiming codec payload body db ≡ ok (false, db)
  unfolding pure
  claiming-redelivered db found = rw claiming_identified (
      >>=-of-ok (claim_event ids.tenant_id ids.received_event_id consumer_name) _ db
        (claim_event-again ids.tenant_id ids.received_event_id consumer_name db found))

  pub claiming-Keeps-others :
      Keeps (others ids.tenant_id) (body ids)
      → Keeps (others ids.tenant_id) (claiming codec payload body)
  claiming-Keeps-others keeps = rw claiming_identified (
      Keeps-bind _ _ (claim_event-Keeps-others ids.tenant_id ids.received_event_id consumer_name)
        λ claimed. Keeps-if claimed _ _ keeps (Keeps-pure false))

-- What a transaction committed, it has recorded.
pub Recorded-found :
    (Q : OutboxRow → Type 0) (ids : Ids) (db db' : Db) (done : Bool)
    → Recorded Q ids db done db'
    → has (is_processed ids.tenant_id ids.received_event_id consumer_name) db'.processed ≡ true
Recorded-found Q ids db db' done (inl (skipped, same, found)) = rw same found
Recorded-found Q ids db db' done (inr (row, ended, fresh, added, free, processed, handoff)) =
    rw processed (claim_row-found ids.tenant_id ids.received_event_id consumer_name db.processed)

-- A transaction that committed has read its identifiers.
pub claiming-reads_ids :
    (codec : Codec) (payload : DocumentFetched) (body : Ids → Tx Bool) (db : Db) {db' : Db}
    {done : Bool}
    → claiming codec payload body db ≡ ok (done, db')
    → (ids : Ids) × (payload_ids codec payload ≡ ok ids)
unfolding lift
claiming-reads_ids codec payload body db h =
    let (ids, mid, read, rest) = >>=-eq-ok (lift (payload_ids codec payload)) _ db h in
    (ids, ground arith)
