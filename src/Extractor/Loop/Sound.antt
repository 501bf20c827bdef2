-- ===== src/Extractor/Loop/Sound.antt =====
-- An offset of the extractor is committed only for an event that the database has recorded.
use enterprise_rag_ingestion.Prelude.{
  ℕ, ◌≡◌, refl, sym, subst, Bool, not, ◌&&◌, Option, none, some, List, [], ◌∷◌, ◌++◌, All, ltb,
  length, Bool-cases, inl, inr,
}
use enterprise_rag_ingestion.Exceptions.{Result, ok, raise}
use enterprise_rag_ingestion.Domain.Events.{DocumentFetched}
use enterprise_rag_ingestion.Database.{Db}
use enterprise_rag_ingestion.Extractor.Worker.{Tools, Answers}
use enterprise_rag_ingestion.Extractor.Loop.{
  Message, Task, Poll, poll_raised, empty, partition_eof, broker_error, received, Consumer, Broker,
  count_poll, count_message, committing, collecting, collect, resume, pause, started, deliver,
  polling, turn, Moves, turns, ends, elsewhere, Run, begins, goes_on,
}
use enterprise_rag_ingestion.Extractor.Loop.Advances.{IsRecorded, Advances, handle-Advances}
use enterprise_rag_ingestion.System.{History, start, then}
use enterprise_rag_ingestion.System.Once.{History-processed}

module _ (tools : Tools) (max_concurrency : ℕ) where
  -- The event of a committed message is in the ledger.
  abbrev IsCommitted : Db → Message → Type 0
  IsCommitted db m = (p : DocumentFetched) × (m.payload ≡ ok p) × IsRecorded tools.codec p db

  -- The event of a task that returned is in the ledger.
  abbrev Returned : DocumentFetched → Option (Result Bool) → Db → Type 0
  Returned payload none db = Unit
  Returned payload (some (raise e)) db = Unit
  Returned payload (some (ok processed)) db = IsRecorded tools.codec payload db

  abbrev IsTask : Db → Task → Type 0
  IsTask db t = (t.message.payload ≡ ok t.payload) × Returned t.payload t.outcome db

  pub record IsSound (w : Consumer) : Type 0 where
    pub committed : All (IsCommitted w.db) w.committed
    pub tasks : All (IsTask w.db) w.inflight

  All-append :
      {A : Type 0} (P : A → Type 0) (xs ys : List A) → All P xs → All P ys → All P (xs ++ ys)
  All-append P [] ys hx hy = hy
  All-append P (x ∷ xs) ys (p, hx) hy = (p, All-append P xs ys hx hy)

  All-map :
      {A : Type 0} (P Q : A → Type 0) (xs : List A) → ((x : A) → P x → Q x) → All P xs → All Q xs
  All-map P Q [] f h = tt
  All-map P Q (x ∷ xs) f (p, h) = (f x p, All-map P Q xs f h)

  -- What a history keeps.
  later-IsRecorded :
      (p : DocumentFetched) (db db' : Db)
      → History tools.codec tools.libraries.docling_version db db'
      → IsRecorded tools.codec p db
      → IsRecorded tools.codec p db'
  later-IsRecorded p db db' history (ids, read, found) = (
    ids,
    read,
    History-processed tools.codec tools.libraries.docling_version _ db db' history found,
  )

  later-Returned :
      (p : DocumentFetched) (outcome : Option (Result Bool)) (db db' : Db)
      → History tools.codec tools.libraries.docling_version db db'
      → Returned p outcome db
      → Returned p outcome db'
  later-Returned p none db db' history h = tt
  later-Returned p (some (raise e)) db db' history h = tt
  later-Returned p (some (ok processed)) db db' history h = later-IsRecorded p db db' history h

  later-IsCommitted :
      (db db' : Db) (ms : List Message)
      → History tools.codec tools.libraries.docling_version db db'
      → All (IsCommitted db) ms
      → All (IsCommitted db') ms
  later-IsCommitted db db' ms history h =
      All-map _ _ ms (λ m (p, at, r). (p, at, later-IsRecorded p db db' history r)) h

  later-IsTask :
      (db db' : Db) (ts : List Task)
      → History tools.codec tools.libraries.docling_version db db'
      → All (IsTask db) ts
      → All (IsTask db') ts
  later-IsTask db db' ts history h =
      All-map _ _ ts (λ t (at, r). (at, later-Returned t.payload t.outcome db db' history r)) h

  module _ (commit : Message → Result (Unit {0})) where
    -- The rest of a collection is sound wherever it starts.
    abbrev Rests : List Task → Type 0
    Rests later =
        (kept : List Task) (w : Consumer)
        → All (IsCommitted w.db) w.committed
        → All (IsTask w.db) later
        → All (IsTask w.db) kept
        → IsSound (collect commit later kept w).1

    committing-IsSound :
        (m : Message) (later kept : List Task) (answer : Result (Unit {0})) (w : Consumer)
        → Rests later
        → All (IsCommitted w.db) w.committed
        → IsCommitted w.db m
        → All (IsTask w.db) later
        → All (IsTask w.db) kept
        → IsSound
            (committing commit (λ w'. collect commit later kept w') (kept ++ later) m answer w).1
    committing-IsSound m later kept (ok u) w rests hc hm hl hk =
        rests kept (record w { committed = w.committed ++ m ∷ [] })
          (All-append _ w.committed (m ∷ []) hc (hm, tt)) hl hk
    committing-IsSound m later kept (raise e) w rests hc hm hl hk = record {
      committed = hc;
      tasks = All-append _ kept later hk hl;
    }

    collecting-IsSound :
        (t : Task) (later kept : List Task) (outcome : Option (Result Bool)) (w : Consumer)
        → Rests later
        → All (IsCommitted w.db) w.committed
        → (t.message.payload ≡ ok t.payload) × Returned t.payload outcome w.db
        → t.outcome ≡ outcome
        → All (IsTask w.db) later
        → All (IsTask w.db) kept
        → IsSound
            (collecting commit (λ kept' w'. collect commit later kept' w') kept t later outcome w).1
    collecting-IsSound t later kept none w rests hc (at, r) same hl hk =
        rests (kept ++ t ∷ []) w hc hl (
          All-append _ kept (t ∷ []) hk
            ((at, subst (λ o. Returned t.payload o w.db) (sym same) r), tt))
    collecting-IsSound t later kept (some (raise e)) w rests hc h same hl hk = record {
      committed = hc;
      tasks = All-append _ kept later hk hl;
    }
    collecting-IsSound t later kept (some (ok processed)) w rests hc (at, r) same hl hk =
        committing-IsSound t.message later kept (commit t.message) (count_message processed w) rests
          hc (t.payload, at, r) hl hk

    collect-IsSound : (ts : List Task) → Rests ts
    unfolding collect
    collect-IsSound [] kept w hc hl hk = record { committed = hc; tasks = hk }
    collect-IsSound (t ∷ later) kept w hc (ht, hl) hk =
        collecting-IsSound t later kept t.outcome w (collect-IsSound later) hc ht refl hl hk

  resume-IsSound : (w : Consumer) → IsSound w → IsSound (resume max_concurrency w)
  unfolding resume
  resume-IsSound w h = elim (Bool-cases (w.paused && ltb (length w.inflight) max_concurrency)) [
    | inl hit ↦ rw hit (record { committed = h.committed; tasks = h.tasks })
    | inr miss ↦ rw miss h
  ]

  pause-IsSound :
      (assigned : Bool) (w : Consumer) → IsSound w → IsSound (pause max_concurrency assigned w)
  unfolding pause
  pause-IsSound assigned w h =
      elim (Bool-cases (not (ltb (length w.inflight) max_concurrency) && assigned)) [
        | inl hit ↦ rw hit (record { committed = h.committed; tasks = h.tasks })
        | inr miss ↦ rw miss h
      ]

  started-IsSound :
      (assigned : Bool) (m : Message) (payload : Result DocumentFetched) (w : Consumer)
      → m.payload ≡ payload
      → IsSound w
      → IsSound (started max_concurrency assigned m payload w).1
  started-IsSound assigned m (raise e) w same h = h
  started-IsSound assigned m (ok p) w same h = pause-IsSound assigned _ (record {
    committed = h.committed;
    tasks = All-append _ w.inflight _ h.tasks ((same, tt), tt);
  })

  deliver-IsSound :
      (assigned : Bool) (poll : Poll) (w : Consumer)
      → IsSound w
      → IsSound (deliver max_concurrency assigned poll w).1
  unfolding deliver
  deliver-IsSound assigned (poll_raised e) w h = h
  deliver-IsSound assigned empty w h = record { committed = h.committed; tasks = h.tasks }
  deliver-IsSound assigned partition_eof w h = record { committed = h.committed; tasks = h.tasks }
  deliver-IsSound assigned (broker_error e) w h = record {
    committed = h.committed;
    tasks = h.tasks;
  }
  deliver-IsSound assigned (received m) w h =
      started-IsSound assigned m m.payload (count_poll "message" w) refl
        (record { committed = h.committed; tasks = h.tasks })

  polling-IsSound :
      (broker : Broker) (x : Result (Unit {0}) × Consumer)
      → IsSound x.1
      → IsSound (polling max_concurrency broker x).1
  polling-IsSound broker (raise e, w) h = h
  polling-IsSound broker (ok u, w) h =
      let r = resume-IsSound w h in
      deliver-IsSound broker.assigned broker.poll _
        (record { committed = r.committed; tasks = r.tasks })

  turn-IsSound :
      (broker : Broker) (w : Consumer) → IsSound w → IsSound (turn max_concurrency broker w).1
  unfolding turn
  turn-IsSound broker w h =
      polling-IsSound broker _
        (collect-IsSound broker.commit w.inflight [] w h.committed h.tasks tt)

  -- What a call that ended leaves for its task.
  ended-Returned :
      (answers : Answers tools) (p : DocumentFetched) (db : Db) (x : Result Bool × Db)
      → Advances tools answers p db x
      → Returned p (some x.0) x.1 × History tools.codec tools.libraries.docling_version db x.1
  ended-Returned answers p db (ok processed, db') (recorded, history) = (recorded, history)
  ended-Returned answers p db (raise e, db') same =
      (tt, subst (λ d. History tools.codec tools.libraries.docling_version db d) (sym same) start)

  All-split : (P : Task → Type 0) (xs ys : List Task) → All P (xs ++ ys) → All P xs × All P ys
  All-split P [] ys h = (tt, h)
  All-split P (x ∷ xs) ys (p, h) = let (hx, hy) = All-split P xs ys h in ((p, hx), hy)

  Moves-IsSound : (w w' : Consumer) → Moves tools max_concurrency w w' → IsSound w → IsSound w'
  Moves-IsSound w w' (turns broker) h = turn-IsSound broker w h
  Moves-IsSound w w' (ends before after m p answers inflight) h =
      let (hb, (ht, ha)) =
        All-split (IsTask w.db) before _ (subst (All (IsTask w.db)) inflight h.tasks) in
      let (returned, history) =
        ended-Returned answers p w.db _ (handle-Advances tools answers p w.db) in
      record {
        committed = later-IsCommitted _ _ w.committed history h.committed;
        tasks =
            All-append _ before _ (later-IsTask _ _ before history hb)
              ((ht.0, returned), later-IsTask _ _ after history ha);
      }
  Moves-IsSound w w' (elsewhere step) h = record {
    committed = later-IsCommitted _ _ w.committed (then start step) h.committed;
    tasks = later-IsTask _ _ w.inflight (then start step) h.tasks;
  }

  -- If each committed offset is that of a message whose event is in the ledger, and so is the event of
  -- each task in flight that has returned, then the same holds after any run of the loop: turns, ends
  -- of tasks in any order, and transactions of other processes between them, whatever Kafka, the
  -- stores and Docling answer.
  pub Run-IsSound : (w w' : Consumer) → Run tools max_concurrency w w' → IsSound w → IsSound w'
  Run-IsSound w w' begins h = h
  Run-IsSound w w' (goes_on {mid} before move) h =
      Moves-IsSound mid w' move (Run-IsSound w mid before h)
