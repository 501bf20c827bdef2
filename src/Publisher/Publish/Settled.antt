-- ===== src/Publisher/Publish/Settled.antt =====
-- What a batch leaves of the rows that it claimed: `publish_batch` of workers/outbox_publisher.py.
use enterprise_rag_ingestion.Prelude.{
  ℕ, zero, suc, ap, if◌then◌else◌, ◌+◌, ◌^◌, min, ◌≡◌, refl, sym, subst, String, Bool, true, false,
  Option, none, some, update_where, nat_eq, string_eq, ◌==◌, arith,
}
use enterprise_rag_ingestion.Exceptions.{Exception, runtime_error, Result, ok, raise, ◌>>=◌}
use enterprise_rag_ingestion.Uuid.{Uuid}
use enterprise_rag_ingestion.Database.{OutboxRow, OutboxStatus, Db}
use enterprise_rag_ingestion.Database.Transaction.{begin-of-ok}
use enterprise_rag_ingestion.Publisher.Outbox.{
  is_claimed_by, complete_update, complete_outbox_event,
}
use enterprise_rag_ingestion.Publisher.Outbox.Rows.{find}
use enterprise_rag_ingestion.Publisher.Outbox.Distinct.{find-updated, find-not_updated, find-has}
use enterprise_rag_ingestion.Publisher.Publish.Delay.{retry_delay_lem}
use enterprise_rag_ingestion.Publisher.Publish.{
  Delivery, Encoder, record_of, rescue, publish_event, complete, fail, publish_row,
}

-- A row that the worker holds.
abbrev pub Holds : String → Db → OutboxRow → Type 0
Holds worker_name db r = (find r.id db.outbox ≡ some r) × (is_claimed_by r.id worker_name r ≡ true)

complete_outbox_event-of-Holds :
    (now : ℕ) (worker_name : String) (succeeded : Bool) (message : Option String)
    (retry_at : Option ℕ) (r : OutboxRow) (db : Db)
    → Holds worker_name db r
    → complete_outbox_event now r.id worker_name succeeded message retry_at db
      ≡ ok (
        tt,
        record db {
          outbox =
              update_where
                (is_claimed_by r.id worker_name)
                (complete_update now succeeded message retry_at)
                db.outbox;
        },
      )
unfolding complete_outbox_event
complete_outbox_event-of-Holds now worker_name succeeded message retry_at r db (at, held) =
    rw (find-has (is_claimed_by r.id worker_name) r.id db.outbox r at held) refl

-- The two ends of an event: published, or failed and due again after 2 ^ min n 8 seconds, where n is
-- the number of attempts. Its lock is released by both.
abbrev pub settle : Delivery → OutboxRow → Result (Unit {0}) → OutboxRow
settle delivery r (ok _) = record r {
  status = OutboxStatus.published;
  published_at = some delivery.now;
  last_error = none;
  locked_at = none;
  locked_by = none;
}
settle delivery r (raise e) = record r {
  status = OutboxStatus.failed;
  published_at = none;
  available_at = delivery.later + 2 ^ min r.attempt_count 8;
  last_error = some (delivery.message e);
  locked_at = none;
  locked_by = none;
}

-- A flush that leaves no message outstanding.
abbrev pub flushed : ℕ → Result (Unit {0})
flushed zero = ok tt
flushed (suc n) = raise (runtime_error "Kafka delivery timed out.")

-- Whether Kafka took the message of a row, and left none outstanding.
abbrev pub sent : Encoder → Delivery → OutboxRow → Result (Unit {0})
sent encoder delivery r = record_of encoder r >>= λ message.
    delivery.produce message >>= λ _. flushed delivery.outstanding

publish_event-sent :
    (encoder : Encoder) (delivery : Delivery) (r : OutboxRow)
    → publish_event encoder delivery r ≡ sent encoder delivery r
unfolding publish_event
publish_event-sent encoder delivery r =
    ap (λ x. record_of encoder r >>= λ message. delivery.produce message >>= λ _. x)
      (same delivery.outstanding)
  where
    same :
        (n : ℕ)
        → (if n == 0 then ok tt else raise (runtime_error "Kafka delivery timed out.")) ≡ flushed n
    same zero = refl
    same (suc n) = ground arith

module _ (encoder : Encoder) (worker_name : String) where
  -- The row that an event of a batch ends as: published where Kafka took it and the completion found
  -- its connection, and otherwise failed and due again after the retry delay.
  abbrev pub settled : Delivery → OutboxRow → OutboxRow
  settled delivery r = settle delivery r (sent encoder delivery r >>= λ _. delivery.connect)

  -- One event settles its row, and no other.
  abbrev pub RowSettled : OutboxRow → OutboxRow → Db → Result (Unit {0}) × Db → Type 0
  RowSettled r r' db (ok _, db') =
      (find r.id db'.outbox ≡ some r')
      × ((i : Uuid) → (r.id == i) ≡ false → find i db'.outbox ≡ find i db.outbox)
  RowSettled r r' db (raise e, db') = ⊥

  complete-RowSettled :
      (now : ℕ) (succeeded : Bool) (message : Option String) (retry_at : Option ℕ) (r : OutboxRow)
      (db : Db)
      → Holds worker_name db r
      → RowSettled r
          (complete_update now succeeded message retry_at r)
          db
          (complete (ok tt) now r.id worker_name succeeded message retry_at db)
  complete-RowSettled now succeeded message retry_at r db (at, held) =
      subst (RowSettled r (complete_update now succeeded message retry_at r) db)
        (sym (
          begin-of-ok (complete_outbox_event now r.id worker_name succeeded message retry_at) db (
            complete_outbox_event-of-Holds now worker_name succeeded message retry_at r db
              (at, held))))
        (
          find-updated (is_claimed_by r.id worker_name)
              (complete_update now succeeded message retry_at) (λ x. refl) r.id db.outbox r at held,
          λ i other.
              find-not_updated (is_claimed_by r.id worker_name)
                (complete_update now succeeded message retry_at) (λ x. refl) i db.outbox
                λ x same. ground arith,
        )

  fail-RowSettled :
      (delivery : Delivery) (r : OutboxRow) (e : Exception) (db : Db)
      → delivery.reconnect ≡ ok tt
      → Holds worker_name db r
      → RowSettled r (settle delivery r (raise e)) db (fail encoder worker_name delivery r e db)
  unfolding fail
  fail-RowSettled delivery r e db back held =
      rw (back, sym (retry_delay_lem r.attempt_count).0)
        (complete-RowSettled delivery.later false _ _ r db held)

  rescue-RowSettled :
      (delivery : Delivery) (r r' : OutboxRow) (db : Db) (x : Result (Unit {0}) × Db)
      → RowSettled r r' db x
      → RowSettled r r' db (rescue encoder worker_name delivery r x)
  rescue-RowSettled delivery r r' db (ok _, db') h = h
  rescue-RowSettled delivery r r' db (raise e, db') h = absurd h

  publish_row-RowSettled_at :
      (delivery : Delivery) (r : OutboxRow) (db : Db) (taken connected : Result (Unit {0}))
      → delivery.reconnect ≡ ok tt
      → Holds worker_name db r
      → sent encoder delivery r ≡ taken
      → delivery.connect ≡ connected
      → RowSettled r (settled delivery r) db (publish_row encoder worker_name delivery r db)
  unfolding publish_row
  publish_row-RowSettled_at delivery r db (raise e) connected back held s c =
      rw (publish_event-sent encoder delivery r, s) (fail-RowSettled delivery r e db back held)
  publish_row-RowSettled_at delivery r db (ok _) (raise e) back held s c =
      simp (publish_event-sent encoder delivery r, s, c) (fail-RowSettled delivery r e db back held)
  publish_row-RowSettled_at delivery r db (ok _) (ok _) back held s c =
      simp (publish_event-sent encoder delivery r, s, c)
        (rescue-RowSettled delivery r _ db _
          (complete-RowSettled delivery.now true none none r db held))

  pub publish_row-RowSettled :
      (delivery : Delivery) (r : OutboxRow) (db : Db)
      → delivery.reconnect ≡ ok tt
      → Holds worker_name db r
      → RowSettled r (settled delivery r) db (publish_row encoder worker_name delivery r db)
  publish_row-RowSettled delivery r db back held =
      publish_row-RowSettled_at delivery r db _ _ back held refl refl
