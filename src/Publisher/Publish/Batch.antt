-- ===== src/Publisher/Publish/Batch.antt =====
-- A whole batch: `publish_batch` of workers/outbox_publisher.py.
use enterprise_rag_ingestion.Prelude.{
  ℕ, ◌≤◌, ◌≡◌, refl, sym, ap, subst, ◌∙◌, String, Bool, true, false, some, List, [], ◌∷◌, All, has,
  map, length, update_where, nat_eq, string_eq, ◌==◌, eq_self, arith,
}
use enterprise_rag_ingestion.Exceptions.{Result, ok, raise}
use enterprise_rag_ingestion.Uuid.{Uuid}
use enterprise_rag_ingestion.Database.{OutboxRow, Db}
use enterprise_rag_ingestion.Database.Transaction.{begin-of-ok}
use enterprise_rag_ingestion.Publisher.Outbox.{picks, claim_update, is_picked, claim_outbox_events}
use enterprise_rag_ingestion.Publisher.Outbox.Rows.{Distinct, find, FoundIn, picks-claimable}
use enterprise_rag_ingestion.Publisher.Outbox.Claims.{
  claim_outbox_events-of_size, has-map-claim_update, length-map,
}
use enterprise_rag_ingestion.Publisher.Outbox.Eligible.{taken, All-weaken}
use enterprise_rag_ingestion.Publisher.Outbox.Distinct.{
  find-updated, find-not_updated, picks-Distinct,
}
use enterprise_rag_ingestion.Publisher.Publish.{
  Delivery, Encoder, proceed, counted, publish_claimed, publish_rows, publish_batch,
}
use enterprise_rag_ingestion.Publisher.Publish.Settled.{
  Holds, settled, RowSettled, publish_row-RowSettled,
}

module _ (encoder : Encoder) (worker_name : String) (deliveries : OutboxRow → Delivery) where
  -- Every row of the batch is where its id leads, as its event left it; other ids lead where they led.
  abbrev RowsSettled : List OutboxRow → Db → Result (Unit {0}) × Db → Type 0
  RowsSettled rows db (ok _, db') =
      All (λ r. find r.id db'.outbox ≡ some (settled encoder worker_name (deliveries r) r)) rows
      × ((i : Uuid) → has (λ r. r.id == i) rows ≡ false → find i db'.outbox ≡ find i db.outbox)
  RowsSettled rows db (raise e, db') = ⊥

  Holds-kept :
      (i : Uuid) (rows : List OutboxRow) (db db' : Db)
      → has (λ y. y.id == i) rows ≡ false
      → ((j : Uuid) → (i == j) ≡ false → find j db'.outbox ≡ find j db.outbox)
      → All (Holds worker_name db) rows
      → All (Holds worker_name db') rows
  Holds-kept i [] db db' apart same h = tt
  Holds-kept i (x ∷ rows) db db' apart same ((at, held), rest) =
      ((same x.id (ground arith) ∙ at, held), Holds-kept i rows db db' (ground arith) same rest)

  RowsSettled-cons :
      (r : OutboxRow) (rows : List OutboxRow) (db mid : Db)
      → has (λ y. y.id == r.id) rows ≡ false
      → find r.id mid.outbox ≡ some (settled encoder worker_name (deliveries r) r)
      → ((i : Uuid) → (r.id == i) ≡ false → find i mid.outbox ≡ find i db.outbox)
      → (y : Result (Unit {0}) × Db) → RowsSettled rows mid y
      → RowsSettled (r ∷ rows) db y
  RowsSettled-cons r rows db mid apart at same (ok _, db') (settled_rest, others) = (
    (others r.id apart ∙ at, settled_rest),
    λ i fresh. others i (ground arith) ∙ same i (ground arith),
  )
  RowsSettled-cons r rows db mid apart at same (raise e, db') h = absurd h

  proceed-RowsSettled :
      (r : OutboxRow) (rows : List OutboxRow) (db : Db) (x : Result (Unit {0}) × Db)
      → has (λ y. y.id == r.id) rows ≡ false
      → RowSettled encoder worker_name r (settled encoder worker_name (deliveries r) r) db x
      → All (Holds worker_name db) rows
      → ((mid : Db)
          → All (Holds worker_name mid) rows
          → RowsSettled rows mid (publish_rows encoder worker_name deliveries rows mid))
      → RowsSettled
          (r ∷ rows)
          db
          (proceed encoder worker_name (publish_rows encoder worker_name deliveries rows) x)
  proceed-RowsSettled r rows db (raise e, mid) apart one held rest = absurd one
  proceed-RowsSettled r rows db (ok _, mid) apart (at, same) held rest =
      RowsSettled-cons r rows db mid apart at same
        (publish_rows encoder worker_name deliveries rows mid)
        (rest mid (Holds-kept r.id rows db mid apart same held))

  publish_rows-RowsSettled :
      ((r : OutboxRow) → (deliveries r).reconnect ≡ ok tt)
      → (rows : List OutboxRow) (db : Db) → Distinct rows
      → All (Holds worker_name db) rows
      → RowsSettled rows db (publish_rows encoder worker_name deliveries rows db)
  unfolding publish_rows
  publish_rows-RowsSettled back [] db distinct held = (tt, λ i fresh. refl)
  publish_rows-RowsSettled back (r ∷ rows) db (apart, distinct) (head, rest) =
      proceed-RowsSettled r rows db _ apart
        (publish_row-RowSettled encoder worker_name (deliveries r) r db (back r) head) rest
        λ mid held. publish_rows-RowsSettled back rows mid distinct held

  module _ (now : ℕ) where
    Distinct-map :
        (xs : List OutboxRow) → Distinct xs → Distinct (map (claim_update now worker_name) xs)
    Distinct-map [] h = tt
    Distinct-map (x ∷ xs) (apart, rest) =
        (has-map-claim_update now worker_name x.id xs ∙ apart, Distinct-map xs rest)

    -- A claimed row is held, and each row of a list is picked by it.
    Holds-claimed :
        (chosen xs : List OutboxRow) (db db' : Db)
        → db'.outbox ≡ update_where (is_picked chosen) (claim_update now worker_name) db.outbox
        → All (λ r. is_picked chosen r ≡ true) xs
        → All (FoundIn db.outbox) xs
        → All (Holds worker_name db') (map (claim_update now worker_name) xs)
    Holds-claimed chosen [] db db' table picked found = tt
    Holds-claimed chosen (x ∷ xs) db db' table (hit, picked) (at, found) = (
      (
        rw table (
            find-updated (is_picked chosen) (claim_update now worker_name) (λ r. refl) x.id
              db.outbox x at hit),
        rw (eq_self x.id, eq_self worker_name) refl,
      ),
      Holds-claimed chosen xs db db' table picked found,
    )

  widen :
      (x : OutboxRow) (chosen xs : List OutboxRow)
      → All (λ r. is_picked chosen r ≡ true) xs
      → All (λ r. is_picked (x ∷ chosen) r ≡ true) xs
  widen x chosen [] h = tt
  widen x chosen (y ∷ ys) (h, rest) = (ground arith, widen x chosen ys rest)

  All-picked : (xs : List OutboxRow) → All (λ r. is_picked xs r ≡ true) xs
  All-picked [] = tt
  All-picked (x ∷ xs) = (rw (eq_self x.id) refl, widen x xs xs (All-picked xs))

  -- The rows that a batch is to claim end as their events leave them, and no other row changes.
  abbrev pub BatchSettled : ℕ → List OutboxRow → Db → Result ℕ × Db → Type 0
  BatchSettled now chosen db (ok n, db') =
      (n ≡ length chosen)
      × All
          (λ r.
            find r.id db'.outbox
            ≡ some (
                settled encoder worker_name (deliveries (taken now worker_name r))
                  (taken now worker_name r)))
          chosen
      × ((i : Uuid) → has (λ r. r.id == i) chosen ≡ false → find i db'.outbox ≡ find i db.outbox)
  BatchSettled now chosen db (raise e, db') = ⊥

  All-of-map :
      (P : OutboxRow → Type 0) (f : OutboxRow → OutboxRow) (xs : List OutboxRow)
      → All P (map f xs)
      → All (λ x. P (f x)) xs
  All-of-map P f [] h = tt
  All-of-map P f (x ∷ xs) (h, rest) = (h, All-of-map P f xs rest)

  counted-BatchSettled :
      (now : ℕ) (chosen : List OutboxRow) (db mid : Db)
      → mid.outbox ≡ update_where (is_picked chosen) (claim_update now worker_name) db.outbox
      → (x : Result (Unit {0}) × Db) → RowsSettled (map (claim_update now worker_name) chosen) mid x
      → BatchSettled now chosen db
          (counted encoder worker_name (length (map (claim_update now worker_name) chosen)) x)
  counted-BatchSettled now chosen db mid table (raise e, db') h = absurd h
  counted-BatchSettled now chosen db mid table (ok _, db') (settled_rows, others) = (
    length-map (claim_update now worker_name) chosen,
    All-of-map _ (claim_update now worker_name) chosen settled_rows,
    λ i fresh.
        others i (has-map-claim_update now worker_name i chosen ∙ fresh)
        ∙ ap (find i) table
        ∙ find-not_updated (is_picked chosen) (claim_update now worker_name) (λ r. refl) i db.outbox
            λ x same. ap (λ j. has (λ r. r.id == j) chosen) same ∙ fresh,
  )

  -- Where the ids of the outbox are distinct, the batch size is from 1 to 1000, and no completion of
  -- a failure is refused its connection, `publish_batch` raises nothing and returns the number of
  -- rows that it picked. Each of them has one more attempt and its lock released: it is published,
  -- at the completion's time and without an error, where Kafka took it and the completion found its
  -- connection, and otherwise failed, with the error stored, and due again 2 ^ min n 8 seconds after
  -- the completion, for n attempts. Every other row is as it was.
  pub publish_batch-settles :
      (skipped : OutboxRow → Bool) (now batch_size : ℕ) (db : Db)
      → ((r : OutboxRow) → (deliveries r).reconnect ≡ ok tt)
      → Distinct db.outbox
      → 1 ≤ batch_size
      → batch_size ≤ 1000
      → BatchSettled now
          (picks skipped now batch_size db.outbox)
          db
          (publish_batch encoder worker_name skipped now batch_size deliveries db)
  unfolding publish_batch
  publish_batch-settles skipped now batch_size db back distinct least most =
      let chosen = picks skipped now batch_size db.outbox in
      let claim = claim_outbox_events skipped now worker_name batch_size in
      let mid = record db {
        outbox = update_where (is_picked chosen) (claim_update now worker_name) db.outbox;
      } in
      subst (λ x. BatchSettled now chosen db (publish_claimed encoder worker_name deliveries x))
        (sym (
          begin-of-ok claim db
            (claim_outbox_events-of_size skipped now worker_name batch_size db least most)))
        (counted-BatchSettled now chosen db mid refl _ (
          publish_rows-RowsSettled back (map (claim_update now worker_name) chosen) mid
            (Distinct-map now chosen (picks-Distinct skipped now batch_size db.outbox distinct))
            (Holds-claimed now chosen chosen db mid refl (All-picked chosen) (
              All-weaken _ _ chosen (λ r (at, ready). at)
                (picks-claimable skipped now batch_size db.outbox distinct)))))
