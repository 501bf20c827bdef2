-- ===== src/Publisher/Loop/Sent.antt =====
-- A row is published only after Kafka took its message: `_run` of workers/outbox_publisher.py.
use enterprise_rag_ingestion.Prelude.{
  ℕ, ◌≡◌, refl, ◌⊎◌, inl, inr, String, Bool, true, false, none, List, [], ◌∷◌, Any, nat_eq, ◌==◌,
  arith, Bool-cases,
}
use enterprise_rag_ingestion.Exceptions.{Result, ok, raise, >>=-eq-ok}
use enterprise_rag_ingestion.Uuid.{Uuid}
use enterprise_rag_ingestion.Database.{Db, OutboxRow}
use enterprise_rag_ingestion.Publisher.Outbox.{claim_outbox_events}
use enterprise_rag_ingestion.Publisher.Publish.{
  Encoder, Record, Delivery, record_of, publish_event, fail, rescue, complete_published,
  publish_row, proceed as proceed_rows, publish_rows, counted, publish_claimed, publish_batch,
}
use enterprise_rag_ingestion.Publisher.Loop.{Batch, Publisher, finish_poll, proceed, poll, run}
use enterprise_rag_ingestion.Publisher.Loop.Growth.{
  IsPublished, Grows, Grown, Grows-trans, Grows-refl, begin-Grown, complete-Grown, claim-Published,
}

module _ (encoder : Encoder) where
  -- Kafka took the message of the row, and none was outstanding after the flush.
  pub record IsSent (delivery : Delivery) (row : OutboxRow) : Type 0 where
    pub message : Record
    pub made : record_of encoder row ≡ ok message
    pub produced : delivery.produce message ≡ ok tt
    pub flushed : delivery.outstanding ≡ 0

  publish_event-IsSent :
      (delivery : Delivery) (row : OutboxRow) (u : Unit {0})
      → publish_event encoder delivery row ≡ ok u
      → IsSent delivery row
  unfolding publish_event
  publish_event-IsSent delivery row u h =
      let (message, made, rest) = >>=-eq-ok (record_of encoder row) _ h in
      let (t, produced, last) = >>=-eq-ok (delivery.produce message) _ rest in
      record { message = message; made = made; produced = produced; flushed = ground (arith, last) }

  -- A row of the id was sent, by the deliveries of its batch.
  abbrev pub WasSent : (OutboxRow → Delivery) → Uuid → Type 0
  WasSent deliveries i = (row : OutboxRow) × (row.id ≡ i) × IsSent (deliveries row) row

  module _ (S : Uuid → Type 0) where
    module _ (worker_name : String) where
      complete_published-Grown :
          (delivery : Delivery) (row : OutboxRow) (sent : Result (Unit {0})) (db : Db)
          → (sent ≡ ok tt → S row.id)
          → Grown S db (complete_published encoder worker_name delivery row sent db)
      complete_published-Grown delivery row (ok u) db was =
          complete-Grown S delivery.connect delivery.now row.id worker_name true none none db
            (λ h. was refl)
      complete_published-Grown delivery row (raise e) db was = Grows-refl S db

      rescue-Grown :
          (delivery : Delivery) (row : OutboxRow) (db : Db) (x : Result (Unit {0}) × Db)
          → Grown S db x
          → Grown S db (rescue encoder worker_name delivery row x)
      unfolding fail
      rescue-Grown delivery row db (ok u, d) h = h
      rescue-Grown delivery row db (raise e, d) h = Grows-trans S db d _ h (
          complete-Grown S delivery.reconnect delivery.later row.id worker_name false _ _ d
            (λ no. absurd (cc no)))

      publish_row-Grown :
          (delivery : Delivery) (row : OutboxRow) (db : Db)
          → (IsSent delivery row → S row.id)
          → Grown S db (publish_row encoder worker_name delivery row db)
      unfolding publish_row
      publish_row-Grown delivery row db was = rescue-Grown delivery row db _ (
          complete_published-Grown delivery row (publish_event encoder delivery row) db
            (λ h. was (publish_event-IsSent delivery row tt h)))

      proceed_rows-Grown :
          (rest : Db → Result (Unit {0}) × Db) (db : Db) (x : Result (Unit {0}) × Db)
          → ((d : Db) → Grown S d (rest d))
          → Grown S db x
          → Grown S db (proceed_rows encoder worker_name rest x)
      proceed_rows-Grown rest db (ok u, d) rests h = Grows-trans S db d _ h (rests d)
      proceed_rows-Grown rest db (raise e, d) rests h = h

      counted-Grown :
          (n : ℕ) (db : Db) (x : Result (Unit {0}) × Db)
          → Grown S db x
          → Grown S db (counted encoder worker_name n x)
      counted-Grown n db (ok u, e) k = k
      counted-Grown n db (raise e, p) k = k

      module _ (deliveries : OutboxRow → Delivery)
          (was : (row : OutboxRow) → IsSent (deliveries row) row → S row.id) where
        publish_rows-Grown :
            (rows : List OutboxRow) (db : Db)
            → Grown S db (publish_rows encoder worker_name deliveries rows db)
        unfolding publish_rows
        publish_rows-Grown [] db = Grows-refl S db
        publish_rows-Grown (row ∷ rest) db =
            proceed_rows-Grown (publish_rows encoder worker_name deliveries rest) db
              (publish_row encoder worker_name (deliveries row) row db) (publish_rows-Grown rest)
              (publish_row-Grown (deliveries row) row db (was row))

        publish_claimed-Grown :
            (db : Db) (x : Result (List OutboxRow) × Db)
            → Grown S db x
            → Grown S db (publish_claimed encoder worker_name deliveries x)
        publish_claimed-Grown db (raise e, d) h = h
        publish_claimed-Grown db (ok rows, d) h =
            counted-Grown _ db _ (Grows-trans S db d _ h (publish_rows-Grown rows d))

        publish_batch-Grown :
            (skipped : OutboxRow → Bool) (now batch_size : ℕ) (db : Db)
            → Grown S db (publish_batch encoder worker_name skipped now batch_size deliveries db)
        unfolding publish_batch
        publish_batch-Grown skipped now batch_size db = publish_claimed-Grown db _ (
            begin-Grown S (claim_outbox_events skipped now worker_name batch_size) db _ refl
              λ rows db' h. record {
                at = claim-Published S skipped now worker_name batch_size rows db db' h;
              })

      finish_poll-Grows :
          (db : Db) (x : Result ℕ × Db) (w : Publisher)
          → Grown S db x
          → Grows S db (finish_poll x w).1.db
      unfolding finish_poll
      finish_poll-Grows db (raise e, d) w h = h
      finish_poll-Grows db (ok count, d) w h = elim (Bool-cases (count == 0)) [
        | inl idle ↦ rw idle h
        | inr busy ↦ rw busy h
      ]

      proceed-Grows :
          (rest : Publisher → Result (Unit {0}) × Publisher) (db : Db)
          (x : Result (Unit {0}) × Publisher)
          → ((w : Publisher) → Grows S w.db (rest w).1.db)
          → Grows S db x.1.db
          → Grows S db (proceed rest x).1.db
      proceed-Grows rest db (ok u, w) rests h = Grows-trans S db w.db _ h (rests w)
      proceed-Grows rest db (raise e, w) rests h = h

      run-Grows :
          (batch_size : ℕ) (batches : List Batch)
          → ((i : Uuid) → Any (λ (b : Batch). WasSent b.deliveries i) batches → S i)
          → (w : Publisher) → Grows S w.db (run encoder worker_name batch_size batches w).1.db
      unfolding run poll
      run-Grows batch_size [] was w = Grows-refl S w.db
      run-Grows batch_size (batch ∷ rest) was w =
          proceed-Grows (run encoder worker_name batch_size rest) w.db _
            (run-Grows batch_size rest (λ i later. was i (inr later)))
            (finish_poll-Grows w.db _ _ (
              publish_batch-Grown batch.deliveries (λ row sent. was row.id (inl (row, refl, sent)))
                batch.skipped batch.now batch_size w.db))

  -- Over any number of polls, whatever they meet and whether or not the loop ends by an exception: an
  -- id that leads to a published row afterwards led to a published row before, or is that of a row
  -- whose message, in one of the polls, Kafka took with nothing outstanding after the flush.
  pub run-IsPublished :
      (worker_name : String) (batch_size : ℕ) (batches : List Batch) (w : Publisher) (i : Uuid)
      → IsPublished i (run encoder worker_name batch_size batches w).1.db
      → IsPublished i w.db ⊎ Any (λ (b : Batch). WasSent b.deliveries i) batches
  run-IsPublished worker_name batch_size batches w i published =
      (run-Grows (λ j. Any (λ (b : Batch). WasSent b.deliveries j) batches) worker_name batch_size
          batches (λ j sent. sent) w).at
        i published
