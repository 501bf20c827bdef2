-- ===== src/Fetcher/Worker/Commits.antt =====
-- An offset is committed to Kafka only for an event that the database has recorded as processed.
use enterprise_rag_ingestion.Prelude.{
  ◌≡◌, refl, sym, subst, inl, inr, Bool, true, has, has-append, List, [], ◌∷◌, ◌++◌, All, Option,
  none, some, string_eq, ◌==◌, arith, Bool-cases,
}
use enterprise_rag_ingestion.Exceptions.{FetchValidationError, Result, ok, raise, fetch_validation}
use enterprise_rag_ingestion.Uuid.{Uuid, Codec, uuid}
use enterprise_rag_ingestion.Domain.Events.{DocumentSubmitted}
use enterprise_rag_ingestion.Database.{Db, ProcessedEvent}
use enterprise_rag_ingestion.Database.Statements.{is_processed}
use enterprise_rag_ingestion.Database.Handoffs.{claim_row}
use enterprise_rag_ingestion.Fetcher.Inspect.{SourceInspection}
use enterprise_rag_ingestion.Fetcher.Repository.{consumer_name, process}
use enterprise_rag_ingestion.Fetcher.Repository.Handoff.{Processed, process-Processed}
use enterprise_rag_ingestion.Fetcher.Repository.Redelivery.{Processed-found, process-reads_ids}
use enterprise_rag_ingestion.Fetcher.Worker.{
  Tools, Answers, record_result, after_inspection, inspect_source, handle, Message, Poll, Worker,
  commit, acknowledge, deliver, round, proceed, run,
}

-- The ledger holds the payload's event.
abbrev pub IsRecorded : Codec → DocumentSubmitted → Db → Type 0
IsRecorded codec payload db =
    (t : Uuid) × (received : Uuid) × (uuid codec payload.tenant_id ≡ ok t)
    × (uuid codec payload.event_id ≡ ok received)
    × (has (is_processed t received consumer_name) db.processed ≡ true)

-- The ledger only grows.
abbrev Grows : Db → Db → Type 0
Grows db db' = (p : ProcessedEvent → Bool) → has p db.processed ≡ true → has p db'.processed ≡ true

module _ (tools : Tools) (answers : Answers tools) where
  Processed-Grows :
      (t received : Uuid) (db db' : Db) {done : Bool}
      → Processed answers.stamp t received db done db'
      → Grows db db'
  Processed-Grows t received db db' (inl (skipped, same, found)) p h = rw same h
  Processed-Grows t received db db' (inr (row, ended, fresh, added, free, processed, handoff)) p h =
      rw processed
        (ground (arith, has-append p db.processed (claim_row t received consumer_name ∷ [])))

  -- What one call of the repository comes to: the ledger grows, and holds the event if it returned.
  abbrev Settles : DocumentSubmitted → Db → Result Bool × Db → Type 0
  Settles payload db (ok done, db') = Grows db db' × IsRecorded tools.codec payload db'
  Settles payload db (raise e, db') = db' ≡ db

  begin-Settles :
      (payload : DocumentSubmitted) (i : Option SourceInspection) (e : Option FetchValidationError)
      (db : Db) (r : Result (Bool × Db))
      → process tools.codec answers.stamp answers.defaults payload i e db ≡ r
      → Settles payload db (elim r [ ok (a, db') ↦ (ok a, db') | raise x ↦ (raise x, db) ])
  begin-Settles payload i e db (ok (done, db')) h =
      let (t, d, received, own, document, event) =
        process-reads_ids tools.codec answers.stamp answers.defaults payload i e db h in
      let outcome =
        process-Processed tools.codec answers.stamp answers.defaults payload own document event i e
          db h in
      (
        Processed-Grows t received db db' outcome,
        (t, received, own, event, Processed-found answers.stamp t received db db' done outcome),
      )
  begin-Settles payload i e db (raise x) h = refl

  record_result-Settles :
      (payload : DocumentSubmitted) (i : Option SourceInspection) (e : Option FetchValidationError)
      (db : Db)
      → Settles payload db (record_result tools answers payload i e db)
  unfolding record_result
  record_result-Settles payload i e db = begin-Settles payload i e db _ refl

  after_inspection-Settles :
      (payload : DocumentSubmitted) (r : Result SourceInspection) (db : Db)
      → Settles payload db (after_inspection tools answers payload r db)
  unfolding after_inspection
  after_inspection-Settles payload (ok i) db = record_result-Settles payload (some i) none db
  after_inspection-Settles payload (raise (fetch_validation e)) db =
      record_result-Settles payload none (some e) db
  after_inspection-Settles payload (raise _) db = refl

  pub handle-Settles :
      (payload : DocumentSubmitted) (db : Db) → Settles payload db (handle tools answers payload db)
  unfolding handle
  handle-Settles payload db = elim (Bool-cases (payload.event_type == "DocumentSubmitted")) [
    | inl expected ↦
        rw expected (after_inspection-Settles payload (inspect_source tools answers payload) db)
    | inr other ↦ rw other (record_result-Settles payload none _ db)
  ]

-- Every committed message has a payload, whose event is in the ledger.
abbrev AllRecorded : Codec → Db → List Message → Type 0
AllRecorded codec db =
    All (λ m. (p : DocumentSubmitted) × (m.payload ≡ ok p) × IsRecorded codec p db)

abbrev pub IsSound : Codec → Worker → Type 0
IsSound codec w = AllRecorded codec w.db w.committed

AllRecorded-Grows :
    (codec : Codec) (db db' : Db) (ms : List Message)
    → Grows db db'
    → AllRecorded codec db ms
    → AllRecorded codec db' ms
AllRecorded-Grows codec db db' [] grow h = tt
AllRecorded-Grows codec db db' (m ∷ ms) grow ((p, decoded, (t, r, own, event, found)), rest) =
    ((p, decoded, (t, r, own, event, grow _ found)), AllRecorded-Grows codec db db' ms grow rest)

AllRecorded-append :
    (codec : Codec) (db : Db) (ms : List Message) (m : Message) (p : DocumentSubmitted)
    → m.payload ≡ ok p
    → IsRecorded codec p db
    → AllRecorded codec db ms
    → AllRecorded codec db (ms ++ m ∷ [])
AllRecorded-append codec db [] m p decoded new h = ((p, decoded, new), tt)
AllRecorded-append codec db (x ∷ ms) m p decoded new (first, rest) =
    (first, AllRecorded-append codec db ms m p decoded new rest)

module _ (tools : Tools) where
  commit-IsSound :
      (m : Message) (answer : Result (Unit {0})) (w : Worker) (p : DocumentSubmitted)
      → m.payload ≡ ok p
      → IsRecorded tools.codec p w.db
      → IsSound tools.codec w
      → IsSound tools.codec (commit tools m answer w).1
  unfolding commit
  commit-IsSound m (ok _) w p decoded new h =
      AllRecorded-append tools.codec w.db w.committed m p decoded new h
  commit-IsSound m (raise e) w p decoded new h = h

  acknowledge-IsSound :
      (answers : Answers tools) (m : Message) (answer : Result (Unit {0})) (p : DocumentSubmitted)
      (w : Worker) (r : Result Bool × Db)
      → m.payload ≡ ok p
      → Settles tools answers p w.db r
      → IsSound tools.codec w
      → IsSound tools.codec (acknowledge tools m answer r w).1
  unfolding acknowledge
  acknowledge-IsSound answers m answer p w (ok done, db) decoded (grow, new) h =
      commit-IsSound m answer _ p decoded new
        (AllRecorded-Grows tools.codec w.db db w.committed grow h)
  acknowledge-IsSound answers m answer p w (raise e, db) decoded same h =
      subst (λ d. AllRecorded tools.codec d w.committed) (sym same) h

  deliver-IsSound :
      (answers : Answers tools) (m : Message) (answer : Result (Unit {0}))
      (r : Result DocumentSubmitted) (w : Worker)
      → m.payload ≡ r
      → IsSound tools.codec w
      → IsSound tools.codec (deliver tools m answers answer r w).1
  unfolding deliver
  deliver-IsSound answers m answer (ok p) w decoded h =
      acknowledge-IsSound answers m answer p w (handle tools answers p w.db) decoded
        (handle-Settles tools answers p w.db) h
  deliver-IsSound answers m answer (raise e) w decoded h = h

  round-IsSound :
      (poll : Poll tools) (w : Worker)
      → IsSound tools.codec w
      → IsSound tools.codec (round tools poll w).1
  unfolding round
  round-IsSound (Poll.poll_raised e) w h = h
  round-IsSound Poll.empty w h = h
  round-IsSound Poll.partition_eof w h = h
  round-IsSound (Poll.broker_error e) w h = h
  round-IsSound (Poll.received m answers answer) w h =
      deliver-IsSound answers m answer m.payload _ refl h

  proceed-IsSound :
      (rest : Worker → Result (Unit {0}) × Worker) (r : Result (Unit {0}) × Worker)
      → ((w : Worker) → IsSound tools.codec w → IsSound tools.codec (rest w).1)
      → IsSound tools.codec r.1
      → IsSound tools.codec (proceed rest r).1
  proceed-IsSound rest (ok _, w) keep h = keep w h
  proceed-IsSound rest (raise e, w) keep h = h

  -- If each message whose offset is committed has a payload whose event is in the database's ledger
  -- of processed events, then this holds after any run of the loop, whatever the broker, the object
  -- store and pypdf answer, and whether or not the loop ends by an exception.
  pub run-IsSound :
      (polls : List (Poll tools)) (w : Worker)
      → IsSound tools.codec w
      → IsSound tools.codec (run tools polls w).1
  unfolding run
  run-IsSound [] w h = h
  run-IsSound (poll ∷ rest) w h =
      proceed-IsSound (run tools rest) (round tools poll w) (run-IsSound rest)
        (round-IsSound poll w h)
