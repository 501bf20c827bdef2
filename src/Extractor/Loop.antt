-- ===== src/Extractor/Loop.antt =====
-- The consumer loop of workers/content_extractor.py, `_run`: tasks in flight, commits in the order in
-- which they end, and a consumer that pauses where every slot is taken.
pub mod Advances
pub mod Sound
pub mod Bounded
use enterprise_rag_ingestion.Prelude.{
  ℕ, zero, suc, ◌≡◌, String, Bool, true, false, not, ◌&&◌, Option, none, some, List, [], ◌∷◌, ◌++◌,
  length, ltb, if◌then◌else◌,
}
use enterprise_rag_ingestion.Exceptions.{
  Exception, Result, ok, raise, external, runtime_error, value_error, ◌>>=◌,
}
use enterprise_rag_ingestion.Domain.Events.{DocumentFetched}
use enterprise_rag_ingestion.Database.{Db}
use enterprise_rag_ingestion.Extractor.Worker.{Tools, Answers, handle}
use enterprise_rag_ingestion.System.{Step}

-- `ContentExtractor.__init__`: the pool of converters is not empty.
unfoldable pub pool {ℓ} : {A : Type ℓ} → List A → Result (List A)
pool [] = raise value_error
pool (c ∷ converters) = ok (c ∷ converters)

-- `ContentExtractor.warm`: every converter is taken, warmed and put back.
unfoldable pub warm {ℓ} : {A : Type ℓ} → (A → Result (Unit {0})) → List A → Result (List A)
warm warm_up [] = ok []
warm warm_up (c ∷ rest) = warm_up c >>= λ _. warm warm_up rest >>= λ converters. ok (c ∷ converters)

-- A Kafka message: its offset, and the payload that the deserializer makes of its value.
pub record Message : Type 0 where
  pub offset : ℕ
  pub payload : Result DocumentFetched

-- A task in flight, with what it has come to.
pub record Task : Type 0 where
  pub message : Message
  pub payload : DocumentFetched
  pub outcome : Option (Result Bool)

-- What `consumer.poll` comes to.
pub data Poll : Type 0 where
  poll_raised : String → Poll
  empty : Poll
  partition_eof : Poll
  broker_error : String → Poll
  received : Message → Poll

-- What outlasts a turn: the database, the tasks in the order of their start, whether the consumer is
-- paused, the offsets committed to Kafka, and the outcomes of the two counters.
pub record Consumer : Type 0 where
  pub db : Db
  pub inflight : List Task
  pub paused : Bool
  pub committed : List Message
  pub polls : List String
  pub outcomes : List String

-- What the broker answers in one turn: to each commit, whether partitions are assigned when the
-- consumer is to be resumed and when it is to be paused, and the poll.
pub record Broker : Type 0 where
  pub commit : Message → Result (Unit {0})
  pub poll : Poll
  pub assigned : Bool

-- `record_worker_poll`
abbrev pub count_poll : String → Consumer → Consumer
count_poll outcome w = record w { polls = w.polls ++ outcome ∷ [] }

-- `record_worker_message`
abbrev pub count_message : Bool → Consumer → Consumer
count_message processed w = record w {
  outcomes = w.outcomes ++ (if processed then "processed" else "duplicate") ∷ [];
}

module _ (commit : Message → Result (Unit {0})) where
  -- The offset of a completed task, with what goes on after the commit.
  abbrev pub committing :
      (Consumer → Result (Unit {0}) × Consumer)
      → List Task
      → Message
      → Result (Unit {0})
      → Consumer
      → Result (Unit {0}) × Consumer
  committing rest left message (ok _) w =
      rest (record w { committed = w.committed ++ message ∷ [] })
  committing rest left message (raise e) w = (raise e, record w { inflight = left })

  -- A task that the loop looks at: it is kept if it runs, and taken out if it has ended.
  abbrev pub collecting :
      (List Task → Consumer → Result (Unit {0}) × Consumer)
      → List Task
      → Task
      → List Task
      → Option (Result Bool)
      → Consumer
      → Result (Unit {0}) × Consumer
  collecting rest kept task later none w = rest (kept ++ task ∷ []) w
  collecting rest kept task later (some (raise e)) w =
      (raise e, record w { inflight = kept ++ later })
  collecting rest kept task later (some (ok processed)) w =
      committing (rest kept) (kept ++ later) task.message (commit task.message)
        (count_message processed w)

  -- The loop over the completed tasks, over those that it has kept and those that it has not seen.
  unfoldable pub collect : List Task → List Task → Consumer → Result (Unit {0}) × Consumer
  collect [] kept w = (ok tt, record w { inflight = kept })
  collect (task ∷ later) kept w =
      collecting (λ kept' w'. collect later kept' w') kept task later task.outcome w

-- `if paused and len(inflight) < max_concurrency`
unfoldable pub resume : ℕ → Consumer → Consumer
resume max_concurrency w =
    if w.paused && ltb (length w.inflight) max_concurrency then record w { paused = false } else w

-- `if len(inflight) >= max_concurrency`: paused only where partitions are assigned.
unfoldable pub pause : ℕ → Bool → Consumer → Consumer
pause max_concurrency assigned w =
    if not (ltb (length w.inflight) max_concurrency) && assigned
    then record w { paused = true }
    else w

-- A task for the payload of a message.
abbrev pub started :
    ℕ → Bool → Message → Result DocumentFetched → Consumer → Result (Unit {0}) × Consumer
started max_concurrency assigned message (raise e) w = (raise e, w)
started max_concurrency assigned message (ok payload) w = (
  ok tt,
  pause max_concurrency assigned (record w {
    inflight = w.inflight ++ (record { message = message; payload = payload; outcome = none }) ∷ [];
  }),
)

-- What follows the poll.
unfoldable pub deliver : ℕ → Bool → Poll → Consumer → Result (Unit {0}) × Consumer
deliver max_concurrency assigned (poll_raised e) w = (raise (external e), w)
deliver max_concurrency assigned empty w = (ok tt, count_poll "empty" w)
deliver max_concurrency assigned partition_eof w = (ok tt, count_poll "partition_eof" w)
deliver max_concurrency assigned (broker_error e) w =
    (raise (runtime_error e), count_poll "error" w)
deliver max_concurrency assigned (received message) w =
    started max_concurrency assigned message message.payload (count_poll "message" w)

abbrev pub polling : ℕ → Broker → Result (Unit {0}) × Consumer → Result (Unit {0}) × Consumer
polling max_concurrency broker (raise e, w) = (raise e, w)
polling max_concurrency broker (ok _, w) =
    deliver max_concurrency broker.assigned broker.poll
      (count_poll "started" (resume max_concurrency w))

-- One turn of the loop. A task that ends during it is seen by the next: a turn writes nothing that a
-- task reads.
unfoldable pub turn : ℕ → Broker → Consumer → Result (Unit {0}) × Consumer
turn max_concurrency broker w =
    polling max_concurrency broker (collect broker.commit w.inflight [] w)

module _ (tools : Tools) (max_concurrency : ℕ) where
  -- What may happen next: a turn of the loop, the end of one of the tasks in flight, or a transaction
  -- of another process.
  pub data Moves : Consumer → Consumer → Type 0 where
    turns : {w : Consumer} (broker : Broker) → Moves w (turn max_concurrency broker w).1
    ends :
        {w : Consumer} (before after : List Task) (message : Message) (payload : DocumentFetched)
        (answers : Answers tools)
        → w.inflight
          ≡ before ++ (record { message = message; payload = payload; outcome = none }) ∷ after
        → Moves w (record w {
          db = (handle tools answers payload w.db).1;
          inflight =
              before
              ++ (record {
                message = message;
                payload = payload;
                outcome = some (handle tools answers payload w.db).0;
              })
                ∷ after;
        })
    elsewhere :
        {w : Consumer} {db' : Db}
        → Step tools.codec tools.libraries.docling_version w.db db'
        → Moves w (record w { db = db' })

  -- Any number of moves.
  pub data Run : Consumer → Consumer → Type 0 where
    begins : {w : Consumer} → Run w w
    goes_on : {w mid w' : Consumer} → Run w mid → Moves mid w' → Run w w'
