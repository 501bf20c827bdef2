-- ===== src/Extractor/Loop/Bounded.antt =====
-- The tasks in flight are never more than the configured slots.
use enterprise_rag_ingestion.Prelude.{
  ℕ, suc, ◌+◌, ◌≤◌, ◌≡◌, refl, sym, ap, ◌∙◌, Bool, true, false, ◌&&◌, ◌||◌, Option, none, some,
  List, [], ◌∷◌, ◌++◌, ltb, length, length-append, arith, Bool-cases, inl, inr,
}
use enterprise_rag_ingestion.Exceptions.{Result, ok, raise}
use enterprise_rag_ingestion.Domain.Events.{DocumentFetched}
use enterprise_rag_ingestion.Extractor.Loop.{
  Message, Task, Poll, poll_raised, empty, partition_eof, broker_error, received, Consumer, Broker,
  count_poll, count_message, committing, collecting, collect, resume, pause, started, deliver,
  polling, turn, turns, ends, elsewhere, Run, begins, goes_on,
}
use enterprise_rag_ingestion.Extractor.Worker.{Tools, handle}

-- At most so many tasks are in flight, and fewer unless the consumer is paused.
pub record IsBounded (max_concurrency : ℕ) (w : Consumer) : Type 0 where
  pub most : length w.inflight ≤ max_concurrency
  pub pauses : (ltb (length w.inflight) max_concurrency || w.paused) ≡ true

-- Whether a poll brings a message.
abbrev pub delivers : Poll → Bool
delivers (received m) = true
delivers _ = false

-- Fewer tasks, under the same pause.
abbrev Fewer : ℕ → Bool → Consumer → Type 0
Fewer n paused w = (length w.inflight ≤ n) × (w.paused ≡ paused)

module _ (commit : Message → Result (Unit {0})) where
  abbrev Rests : List Task → Type 0
  Rests later =
      (kept : List Task) (w : Consumer)
      → Fewer (length kept + length later) w.paused (collect commit later kept w).1

  committing-Fewer :
      (m : Message) (later kept : List Task) (answer : Result (Unit {0})) (w : Consumer)
      → Rests later
      → Fewer
          (length kept + suc (length later))
          w.paused
          (committing commit (λ w'. collect commit later kept w') (kept ++ later) m answer w).1
  committing-Fewer m later kept (ok u) w rests =
      let (less, same) = rests kept (record w { committed = w.committed ++ m ∷ [] }) in
      (omega (arith, less), same)
  committing-Fewer m later kept (raise e) w rests = (omega (arith, length-append kept later), refl)

  collecting-Fewer :
      (t : Task) (later kept : List Task) (outcome : Option (Result Bool)) (w : Consumer)
      → Rests later
      → Fewer
          (length kept + suc (length later))
          w.paused
          (collecting commit (λ kept' w'. collect commit later kept' w') kept t later outcome w).1
  collecting-Fewer t later kept none w rests =
      let (less, same) = rests (kept ++ t ∷ []) w in
      (omega (arith, less, length-append kept (t ∷ [])), same)
  collecting-Fewer t later kept (some (raise e)) w rests =
      (omega (arith, length-append kept later), refl)
  collecting-Fewer t later kept (some (ok processed)) w rests =
      committing-Fewer t.message later kept (commit t.message) (count_message processed w) rests

  collect-Fewer : (ts : List Task) → Rests ts
  unfolding collect
  collect-Fewer [] kept w = (omega arith, refl)
  collect-Fewer (t ∷ later) kept w = collecting-Fewer t later kept t.outcome w (collect-Fewer later)

module _ (max_concurrency : ℕ) where
  Fewer-IsBounded :
      (w w' : Consumer)
      → IsBounded max_concurrency w
      → Fewer (length w.inflight) w.paused w'
      → IsBounded max_concurrency w'
  Fewer-IsBounded w w' h (less, same) = record {
    most = omega (arith, less, h.most);
    pauses = ground (arith, less, same, h.pauses);
  }

  resume-IsBounded :
      (w : Consumer)
      → IsBounded max_concurrency w
      → IsBounded max_concurrency (resume max_concurrency w)
  unfolding resume
  resume-IsBounded w h = elim (Bool-cases (w.paused && ltb (length w.inflight) max_concurrency)) [
    | inl hit ↦ rw hit (record { most = h.most; pauses = ground (arith, hit) })
    | inr miss ↦ rw miss h
  ]

  -- A task more, where a slot is free.
  pause-IsBounded :
      (t : Task) (w : Consumer)
      → IsBounded max_concurrency w
      → w.paused ≡ false
      → IsBounded max_concurrency
          (pause max_concurrency true (record w { inflight = w.inflight ++ t ∷ [] }))
  unfolding pause
  pause-IsBounded t w h running =
      let grown = length-append w.inflight (t ∷ []) in
      elim (Bool-cases (ltb (length (w.inflight ++ t ∷ [])) max_concurrency)) [
        | inl free ↦ rw free (record { most = ground (arith, free); pauses = ground (arith, free) })
        | inr full ↦ rw full (record {
          most = ground (arith, grown, h.pauses, running);
          pauses = ground (arith, full);
        })
      ]

  started-IsBounded :
      (m : Message) (payload : Result DocumentFetched) (w : Consumer)
      → IsBounded max_concurrency w
      → w.paused ≡ false
      → IsBounded max_concurrency (started max_concurrency true m payload w).1
  started-IsBounded m (raise e) w h running = h
  started-IsBounded m (ok p) w h running = pause-IsBounded _ w h running

  deliver-IsBounded :
      (poll : Poll) (w : Consumer)
      → IsBounded max_concurrency w
      → (w.paused && delivers poll) ≡ false
      → IsBounded max_concurrency (deliver max_concurrency true poll w).1
  unfolding deliver
  deliver-IsBounded (poll_raised e) w h held = h
  deliver-IsBounded empty w h held = record { most = h.most; pauses = h.pauses }
  deliver-IsBounded partition_eof w h held = record { most = h.most; pauses = h.pauses }
  deliver-IsBounded (broker_error e) w h held = record { most = h.most; pauses = h.pauses }
  deliver-IsBounded (received m) w h held =
      started-IsBounded m m.payload (count_poll "message" w)
        (record { most = h.most; pauses = h.pauses }) (ground arith)

  polling-IsBounded :
      (broker : Broker) (x : Result (Unit {0}) × Consumer)
      → broker.assigned ≡ true
      → ((resume max_concurrency x.1).paused && delivers broker.poll) ≡ false
      → IsBounded max_concurrency x.1
      → IsBounded max_concurrency (polling max_concurrency broker x).1
  polling-IsBounded broker (raise e, w) assigned held h = h
  polling-IsBounded broker (ok u, w) assigned held h =
      let r = resume-IsBounded w h in
      rw assigned (
        deliver-IsBounded broker.poll (count_poll "started" (resume max_concurrency w))
          (record { most = r.most; pauses = r.pauses }) held)

  -- A turn at which Kafka keeps to the pause.
  turn-IsBounded :
      (broker : Broker) (w : Consumer)
      → broker.assigned ≡ true
      → ((resume max_concurrency (collect broker.commit w.inflight [] w).1).paused
          && delivers broker.poll)
        ≡ false
      → IsBounded max_concurrency w
      → IsBounded max_concurrency (turn max_concurrency broker w).1
  unfolding turn
  turn-IsBounded broker w assigned held h =
      let (less, same) = collect-Fewer broker.commit w.inflight [] w in
      polling-IsBounded broker (collect broker.commit w.inflight [] w) assigned held
        (Fewer-IsBounded w (collect broker.commit w.inflight [] w).1 h (omega (arith, less), same))

module _ (tools : Tools) (max_concurrency : ℕ) where
  -- Whether Kafka keeps to the pause: at each turn, partitions are assigned when the loop is to pause
  -- them, and the poll of a paused consumer brings no message. A rebalance may break either.
  unfoldable pub IsSteady : {w w' : Consumer} → Run tools max_concurrency w w' → Type 0
  IsSteady begins = Unit
  IsSteady (goes_on {mid} before (turns broker)) =
      IsSteady before
      × (broker.assigned ≡ true)
      × (((resume max_concurrency (collect broker.commit mid.inflight [] mid).1).paused
            && delivers broker.poll)
          ≡ false)
  IsSteady (goes_on before (ends earlier later message payload answers at)) = IsSteady before
  IsSteady (goes_on before (elsewhere step)) = IsSteady before

  ended-length :
      (earlier later : List Task) (t t' : Task)
      → length (earlier ++ t ∷ later) ≡ length (earlier ++ t' ∷ later)
  ended-length [] later t t' = refl
  ended-length (x ∷ earlier) later t t' = ap suc (ended-length earlier later t t')

  -- Over any run in which Kafka keeps to the pause (partitions are assigned when the loop pauses them,
  -- and a paused consumer is brought no message) the tasks in flight stay within the configured
  -- slots, and below them unless the consumer is paused.
  pub Run-IsBounded :
      (w w' : Consumer) (run : Run tools max_concurrency w w')
      → IsSteady run
      → IsBounded max_concurrency w
      → IsBounded max_concurrency w'
  unfolding IsSteady
  Run-IsBounded w w' begins steady h = h
  Run-IsBounded w w' (goes_on {mid} before (turns broker)) (steady, assigned, held) h =
      turn-IsBounded max_concurrency broker mid assigned held (Run-IsBounded w mid before steady h)
  Run-IsBounded w w' (goes_on {mid} before (ends earlier later message payload answers at)) steady
        h =
      let k = Run-IsBounded w mid before steady h in
      let running : Task = record { message = message; payload = payload; outcome = none } in
      let ended : Task = record {
        message = message;
        payload = payload;
        outcome = some (handle tools answers payload mid.db).0;
      } in
      let same = ap length at ∙ ended-length earlier later running ended in
      record { most = rw (sym same) k.most; pauses = rw (sym same) k.pauses }
  Run-IsBounded w w' (goes_on {mid} before (elsewhere step)) steady h =
      let k = Run-IsBounded w mid before steady h in record { most = k.most; pauses = k.pauses }
