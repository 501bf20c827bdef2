-- ===== src/Fetcher/Repository/Handoff.antt =====
-- One claimed event is one handoff: each event is processed once, and hands one event on.
use enterprise_rag_ingestion.Prelude.{
  String, ◌≡◌, refl, ap, subst, ◌∙◌, ◌⊎◌, inl, inr, Bool, true, false, has, [], ◌∷◌, ◌++◌, Option,
  none, some, arith, if◌then◌else◌,
}
use enterprise_rag_ingestion.Exceptions.{FetchValidationError, ok, ok_unique}
use enterprise_rag_ingestion.Uuid.{Uuid, Codec, uuid}
use enterprise_rag_ingestion.Domain.Topics.{document_fetched, dead_letter_topic}
use enterprise_rag_ingestion.Domain.Events.{
  DocumentSubmitted, Stamp, build_document_fetched_event, build_document_fetch_rejected_event,
}
use enterprise_rag_ingestion.Database.{Db, Version, OutboxRow, OutboxStatus}
use enterprise_rag_ingestion.Database.Transaction.{pure, lift, ◌>>=◌, >>=-eq-ok, >>=-of-ok}
use enterprise_rag_ingestion.Database.Statements.{
  Defaults, new_outbox_row, claim_event, is_processed, clashes,
}
use enterprise_rag_ingestion.Database.Keeps.{Keeps, Keeps-lift}
use enterprise_rag_ingestion.Database.Handoffs.{
  queues, Emits, Emits-bind, Emits-bind-lift, Emits-throw, Emits-then, Emits-pure, claim_row,
  set_document_status-Keeps-queues, update_version-Keeps-queues, insert_failure-Keeps-queues,
  insert_outbox-Emits, claim_event-true, claim_event-false, claim_event-again,
}
use enterprise_rag_ingestion.Fetcher.Inspect.{SourceInspection}
use enterprise_rag_ingestion.Fetcher.Repository.{
  consumer_name, select_source, verdict, enqueue_failure, reject, accept, accept_inspected, finish,
  settle, process_claimed, process,
}

-- An outbox row as `process` writes it for an event of tenant `t`: new, and bound for the next stage
-- or for the stage's dead-letter topic.
pub record IsHandoff (stamp : Stamp) (t : Uuid) (row : OutboxRow) : Type 0 where
  pub tenant : row.tenant_id ≡ t
  pub event : row.event_id ≡ stamp.event_id
  pub status : row.status ≡ OutboxStatus.pending
  pub attempts : row.attempt_count ≡ 0
  pub namespace : row.event_contract_namespace ≡ "rag.ingestion.v1"
  pub topic :
      ((row.kafka_topic ≡ document_fetched) × (row.event_schema_name ≡ "document-fetched"))
      ⊎ ((row.kafka_topic ≡ dead_letter_topic consumer_name)
          × (row.event_schema_name ≡ "document-fetch-rejected"))

-- A transaction that processed its event.
abbrev Done : Stamp → Uuid → Bool → OutboxRow → Type 0
Done stamp t done row = (done ≡ true) × IsHandoff stamp t row

module _ (codec : Codec) (stamp : Stamp) (defaults : Defaults) (payload : DocumentSubmitted)
    {t : Uuid} (own : uuid codec payload.tenant_id ≡ ok t) where
  enqueue_failure-Emits :
      (e : FetchValidationError)
      → Emits (λ _ row. Done stamp t true row) (enqueue_failure codec stamp defaults payload e)
  unfolding enqueue_failure new_outbox_row build_document_fetch_rejected_event
  enqueue_failure-Emits e = Emits-bind-lift _ _ λ tenant_id parsed.
      Emits-bind _ _ (Keeps-lift _) λ document_id. Emits-bind _ _ (Keeps-lift _) λ correlation_id.
        Emits-bind _ _ (Keeps-lift _) λ causation_id. insert_outbox-Emits _ _ λ _. (
          refl,
          record {
            tenant = ok_unique parsed own;
            event = refl;
            status = refl;
            attempts = refl;
            namespace = refl;
            topic = inr (refl, refl);
          },
        )

  reject-Emits :
      (document_id version_id received : Uuid) (e : FetchValidationError)
      → Emits
          (Done stamp t)
          (reject codec stamp defaults payload t document_id version_id received e)
  unfolding reject
  reject-Emits document_id version_id received e =
      Emits-then _ _ (update_version-Keeps-queues t version_id _) (
        Emits-then _ _ (set_document_status-Keeps-queues _ t document_id) (
          Emits-then _ _ (insert_failure-Keeps-queues _)
            (Emits-pure _ true (enqueue_failure-Emits e))))

  accept-Emits :
      (document_id : Uuid) (v : Version) (received : Uuid) (i : SourceInspection)
      → Emits (Done stamp t) (accept codec stamp defaults payload t document_id v received i)
  unfolding accept new_outbox_row build_document_fetched_event
  accept-Emits document_id v received i = Emits-then _ _ (update_version-Keeps-queues t v.id _) (
      Emits-then _ _ (set_document_status-Keeps-queues _ t document_id) (
        Emits-bind _ _ (Keeps-lift _) λ correlation_id. Emits-pure _ true (
          insert_outbox-Emits _ _ λ _. (
            refl,
            record {
              tenant = refl;
              event = refl;
              status = refl;
              attempts = refl;
              namespace = refl;
              topic = inl (refl, refl);
            },
          ))))

  finish-Emits :
      (document_id : Uuid) (v : Version) (received : Uuid) (i : Option SourceInspection)
      (final : Option FetchValidationError)
      → Emits (Done stamp t) (finish codec stamp defaults payload t document_id v received i final)
  unfolding finish accept_inspected
  finish-Emits document_id v received i (some e) = reject-Emits document_id v.id received e
  finish-Emits document_id v received none none = Emits-throw _
  finish-Emits document_id v received (some i) none = accept-Emits document_id v received i

  settle-Emits :
      (document_id received : Uuid) (i : Option SourceInspection) (e : Option FetchValidationError)
      (found : Option Version)
      → Emits (Done stamp t) (settle codec stamp defaults payload t document_id received i e found)
  unfolding settle
  settle-Emits document_id received i e none = Emits-pure _ true (enqueue_failure-Emits _)
  settle-Emits document_id received i e (some v) =
      finish-Emits document_id v received i (verdict v i e)

  select_source-Keeps-queues :
      (document_id : Uuid) (uri : String) → Keeps queues (select_source t document_id uri)
  unfolding select_source lift
  select_source-Keeps-queues document_id uri = record { at = λ db db' a h. ground arith }

  pub process_claimed-Emits :
      (document_id received : Uuid) (i : Option SourceInspection) (e : Option FetchValidationError)
      → Emits
          (Done stamp t)
          (process_claimed codec stamp defaults payload t document_id received i e)
  unfolding process_claimed
  process_claimed-Emits document_id received i e =
      Emits-bind _ _ (select_source-Keeps-queues document_id payload.payload_uri)
        (settle-Emits document_id received i e)

-- What a committed `process` comes to: it found the event in the ledger and changed nothing, or it
-- recorded the event and handed one row over.
abbrev pub Processed : Stamp → Uuid → Uuid → Db → Bool → Db → Type 0
Processed stamp t received db done db' =
    ((done ≡ false)
      × (db' ≡ db)
      × (has (is_processed t received consumer_name) db.processed ≡ true))
    ⊎ ((row : OutboxRow) × (done ≡ true)
        × (has (is_processed t received consumer_name) db.processed ≡ false)
        × (db'.outbox ≡ db.outbox ++ row ∷ [])
        × (has (clashes row.id row.tenant_id row.event_id) db.outbox ≡ false)
        × (db'.processed ≡ db.processed ++ claim_row t received consumer_name ∷ [])
        × IsHandoff stamp t row)

module _ (codec : Codec) (stamp : Stamp) (defaults : Defaults) (payload : DocumentSubmitted)
    {t d received : Uuid} (own : uuid codec payload.tenant_id ≡ ok t)
    (document : uuid codec payload.document_id ≡ ok d)
    (event : uuid codec payload.event_id ≡ ok received) (i : Option SourceInspection)
    (e : Option FetchValidationError) where
  -- The transaction once the identifiers of the payload are read.
  process_identified : process codec stamp defaults payload i e ≡ (
      claim_event t received consumer_name >>= λ claimed.
      if claimed then process_claimed codec stamp defaults payload t d received i e else pure false)
  unfolding process ◌>>=◌
  process_identified = rw (own, document, event)

  after_claim :
      (claimed done : Bool) (db mid db' : Db)
      → claim_event t received consumer_name db ≡ ok (claimed, mid)
      → (if claimed
            then process_claimed codec stamp defaults payload t d received i e
            else pure false)
          mid
        ≡ ok (done, db')
      → Processed stamp t received db done db'
  unfolding pure
  after_claim true done db mid db' claim rest =
      let (fresh, recorded) = claim_event-true t received consumer_name db claim in
      let (row, added, free, processed, finished) =
        (process_claimed-Emits codec stamp defaults payload own d received i e).at mid db' done
          rest in
      inr (
        row,
        finished.0,
        fresh,
        added ∙ ap (λ (x : Db). x.outbox ++ row ∷ []) recorded,
        subst (λ (x : Db). has (clashes row.id row.tenant_id row.event_id) x.outbox ≡ false)
            recorded free,
        processed ∙ ap (λ (x : Db). x.processed) recorded,
        finished.1,
      )
  after_claim false done db mid db' claim rest =
      let (found, same) = claim_event-false t received consumer_name db claim in
      inl (ground arith, ground arith, found)

  -- A committed `process` of an event whose identifiers can be read either found the event in the
  -- ledger, returned false and changed nothing, or returned true after it added the event to the
  -- ledger and exactly one new pending row to the outbox, which clashes with no row there, for the
  -- same tenant and bound for `document.fetched` or for the stage's DLQ.
  pub process-Processed :
      (db : Db) {db' : Db} {done : Bool}
      → process codec stamp defaults payload i e db ≡ ok (done, db')
      → Processed stamp t received db done db'
  process-Processed db {db'} {done} h =
      let (claimed, mid, claim, rest) =
        >>=-eq-ok (claim_event t received consumer_name) _ db (rw process_identified at h) in
      after_claim claimed done db mid db' claim rest

  -- An event that is in the ledger is answered by false, and nothing is changed.
  pub process-redelivered :
      (db : Db)
      → has (is_processed t received consumer_name) db.processed ≡ true
      → process codec stamp defaults payload i e db ≡ ok (false, db)
  unfolding pure
  process-redelivered db found = rw process_identified (
      >>=-of-ok (claim_event t received consumer_name) _ db
        (claim_event-again t received consumer_name db found))
