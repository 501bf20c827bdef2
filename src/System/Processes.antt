-- ===== src/System/Processes.antt =====
-- The processes of the program are histories of the pipeline: whatever the fetcher's loop, the
-- publisher's loop and the API do to the database, they do by committed transactions.
use enterprise_rag_ingestion.Prelude.{
  ℕ, ◌≡◌, refl, String, Bool, true, false, Option, none, List, [], ◌∷◌, nat_eq, ◌==◌, Bool-cases,
  inl, inr,
}
use enterprise_rag_ingestion.Exceptions.{Result, ok, raise}
use enterprise_rag_ingestion.Uuid.{Uuid, Codec}
use enterprise_rag_ingestion.Database.{Db, OutboxRow}
use enterprise_rag_ingestion.Database.Transaction.{Tx}
use enterprise_rag_ingestion.Publisher.Outbox.{claim_outbox_events, complete_outbox_event}
use enterprise_rag_ingestion.Publisher.Publish.{
  Encoder, Delivery, publish_event, complete, fail, rescue, complete_published, publish_row,
  proceed as proceed_rows, publish_rows, counted, publish_claimed, publish_batch,
}
use enterprise_rag_ingestion.Publisher.Loop.{Batch, Publisher, finish_poll, proceed, poll, run}
use enterprise_rag_ingestion.System.{Step, claims, completes, History, start, then}

module _ (codec : Codec) (docling_version : String) where
  -- Two histories in a row.
  pub History-trans :
      (db mid db' : Db)
      → History codec docling_version db mid
      → History codec docling_version mid db'
      → History codec docling_version db db'
  History-trans db mid db' h start = h
  History-trans db mid db' h (then {mid = last} before step) =
      then (History-trans db mid last h before) step

  -- What is left of a computation on the database is some history later.
  abbrev pub Moved : {A : Type 0} → Db → Result A × Db → Type 0
  Moved db x = History codec docling_version db x.1

  -- One transaction on the database, committed or rolled back.
  pub begin-History :
      {A : Type 0} (m : Tx A) (db : Db) (r : Result (A × Db))
      → m db ≡ r
      → ((a : A) (db' : Db) → m db ≡ ok (a, db') → Step codec docling_version db db')
      → Moved {A = A} db (elim r [ ok (a, x) ↦ (ok a, x) | raise e ↦ (raise e, db) ])
  begin-History m db (ok (a, db')) h steps = then start (steps a db' h)
  begin-History m db (raise e) h steps = start

  complete-History :
      (connect : Result (Unit {0})) (now : ℕ) (id : Uuid) (worker : String) (succeeded : Bool)
      (message : Option String) (retry_at : Option ℕ) (db : Db)
      → History codec docling_version db
          (complete connect now id worker succeeded message retry_at db).1
  complete-History (raise e) now id worker succeeded message retry_at db = start
  complete-History (ok u) now id worker succeeded message retry_at db =
      begin-History (complete_outbox_event now id worker succeeded message retry_at) db _ refl
        (λ a db' h. completes now id worker succeeded message retry_at h)

  module _ (encoder : Encoder) (worker_name : String) where
    complete_published-History :
        (delivery : Delivery) (row : OutboxRow) (r : Result (Unit {0})) (db : Db)
        → History codec docling_version db
            (complete_published encoder worker_name delivery row r db).1
    complete_published-History delivery row (ok u) db =
        complete-History delivery.connect delivery.now row.id worker_name true none none db
    complete_published-History delivery row (raise e) db = start

    rescue-History :
        (delivery : Delivery) (row : OutboxRow) (db : Db) (x : Result (Unit {0}) × Db)
        → History codec docling_version db x.1
        → History codec docling_version db (rescue encoder worker_name delivery row x).1
    unfolding fail
    rescue-History delivery row db (ok u, d) h = h
    rescue-History delivery row db (raise e, d) h =
        History-trans db d _ h
          (complete-History delivery.reconnect delivery.later row.id worker_name false _ _ d)

    publish_row-History :
        (delivery : Delivery) (row : OutboxRow) (db : Db)
        → History codec docling_version db (publish_row encoder worker_name delivery row db).1
    unfolding publish_row
    publish_row-History delivery row db =
        rescue-History delivery row db _
          (complete_published-History delivery row (publish_event encoder delivery row) db)

    proceed_rows-History :
        (rest : Db → Result (Unit {0}) × Db) (db : Db) (x : Result (Unit {0}) × Db)
        → ((d : Db) → Moved d (rest d))
        → Moved db x
        → Moved db (proceed_rows encoder worker_name rest x)
    proceed_rows-History rest db (ok u, d) rests h = History-trans db d _ h (rests d)
    proceed_rows-History rest db (raise e, d) rests h = h

    publish_rows-History :
        (deliveries : OutboxRow → Delivery) (rows : List OutboxRow) (db : Db)
        → Moved db (publish_rows encoder worker_name deliveries rows db)
    unfolding publish_rows
    publish_rows-History deliveries [] db = start
    publish_rows-History deliveries (row ∷ rest) db =
        proceed_rows-History (publish_rows encoder worker_name deliveries rest) db
          (publish_row encoder worker_name (deliveries row) row db)
          (publish_rows-History deliveries rest) (publish_row-History (deliveries row) row db)

    publish_claimed-History :
        (deliveries : OutboxRow → Delivery) (db : Db) (x : Result (List OutboxRow) × Db)
        → Moved db x
        → Moved db (publish_claimed encoder worker_name deliveries x)
    publish_claimed-History deliveries db (raise e, d) h = h
    publish_claimed-History deliveries db (ok rows, d) h =
        counted-History _ _ (History-trans db d _ h (publish_rows-History deliveries rows d))
      where
        counted-History :
            (n : ℕ) (x : Result (Unit {0}) × Db)
            → Moved db x
            → Moved db (counted encoder worker_name n x)
        counted-History n (ok u, e) k = k
        counted-History n (raise e, p) k = k

    publish_batch-History :
        (skipped : OutboxRow → Bool) (now batch_size : ℕ) (deliveries : OutboxRow → Delivery)
        (db : Db)
        → Moved db (publish_batch encoder worker_name skipped now batch_size deliveries db)
    unfolding publish_batch
    publish_batch-History skipped now batch_size deliveries db =
        publish_claimed-History deliveries db _ (
          begin-History (claim_outbox_events skipped now worker_name batch_size) db _ refl
            (λ rows db' h. claims skipped now worker_name batch_size rows h))

    finish_poll-History :
        (db : Db) (x : Result ℕ × Db) (w : Publisher)
        → Moved db x
        → History codec docling_version db (finish_poll x w).1.db
    unfolding finish_poll
    finish_poll-History db (raise e, d) w h = h
    finish_poll-History db (ok count, d) w h = elim (Bool-cases (count == 0)) [
      | inl idle ↦ rw idle h
      | inr busy ↦ rw busy h
    ]

    proceed-History :
        (rest : Publisher → Result (Unit {0}) × Publisher) (db : Db)
        (x : Result (Unit {0}) × Publisher)
        → ((w : Publisher) → History codec docling_version w.db (rest w).1.db)
        → History codec docling_version db x.1.db
        → History codec docling_version db (proceed rest x).1.db
    proceed-History rest db (ok u, w) rests h = History-trans db w.db _ h (rests w)
    proceed-History rest db (raise e, w) rests h = h

    poll-History :
        (batch_size : ℕ) (batch : Batch) (w : Publisher)
        → History codec docling_version w.db (poll encoder worker_name batch_size batch w).1.db
    unfolding poll
    poll-History batch_size batch w =
        finish_poll-History w.db _ _
          (publish_batch-History batch.skipped batch.now batch_size batch.deliveries w.db)

    -- Whatever the publisher's loop does to the database, over any number of polls and whether or not
    -- it ends by an exception, is a history of committed claims and completions, so that what holds of
    -- every history holds of it.
    pub run-History :
        (batch_size : ℕ) (batches : List Batch) (w : Publisher)
        → History codec docling_version w.db (run encoder worker_name batch_size batches w).1.db
    unfolding run
    run-History batch_size [] w = start
    run-History batch_size (batch ∷ rest) w =
        proceed-History (run encoder worker_name batch_size rest) w.db
          (poll encoder worker_name batch_size batch w) (run-History batch_size rest)
          (poll-History batch_size batch w)
