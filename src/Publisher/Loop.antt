-- ===== src/Publisher/Loop.antt =====
-- The polling loop of workers/outbox_publisher.py, `_run`.
pub mod Growth
pub mod Sent
use enterprise_rag_ingestion.Prelude.{
  ℕ, suc, String, Bool, List, [], ◌∷◌, ◌++◌, nat_eq, ◌==◌, if◌then◌else◌,
}
use enterprise_rag_ingestion.Exceptions.{Result, ok, raise}
use enterprise_rag_ingestion.Database.{Db, OutboxRow}
use enterprise_rag_ingestion.Publisher.Publish.{Encoder, Delivery, publish_batch}

-- What one poll meets: the rows that other transactions have locked, the clock, and the deliveries.
pub record Batch : Type 0 where
  pub skipped : OutboxRow → Bool
  pub now : ℕ
  pub deliveries : OutboxRow → Delivery

-- What outlasts a poll: the database, the counted polls, and how often the loop has slept.
pub record Publisher : Type 0 where
  pub db : Db
  pub polls : List String
  pub sleeps : ℕ

abbrev pub count_poll : String → Publisher → Publisher
count_poll outcome w = record w { polls = w.polls ++ outcome ∷ [] }

-- What follows `publish_batch`: the loop sleeps only where nothing was claimed.
unfoldable pub finish_poll : Result ℕ × Db → Publisher → Result (Unit {0}) × Publisher
finish_poll (raise e, db) w = (raise e, count_poll "error" (record w { db = db }))
finish_poll (ok count, db) w = (
  ok tt,
  if count == 0
      then count_poll "empty" (record w { db = db; sleeps = suc w.sleeps })
      else count_poll "events" (record w { db = db }),
)

abbrev pub proceed :
    (Publisher → Result (Unit {0}) × Publisher)
    → Result (Unit {0}) × Publisher
    → Result (Unit {0}) × Publisher
proceed rest (ok _, w) = rest w
proceed rest (raise e, w) = (raise e, w)

module _ (encoder : Encoder) (worker_name : String) (batch_size : ℕ) where
  unfoldable pub poll : Batch → Publisher → Result (Unit {0}) × Publisher
  poll batch w =
      finish_poll
        (publish_batch encoder worker_name batch.skipped batch.now batch_size batch.deliveries w.db)
        (count_poll "started" w)

  -- The loop over what the polls meet. An exception ends it.
  unfoldable pub run : List Batch → Publisher → Result (Unit {0}) × Publisher
  run [] w = (ok tt, w)
  run (batch ∷ rest) w = proceed (run rest) (poll batch w)
