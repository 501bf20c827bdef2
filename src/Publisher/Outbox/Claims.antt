-- ===== src/Publisher/Outbox/Claims.antt =====
-- How a claim and a completion change the outbox table: claim_outbox_events and
-- complete_outbox_event of migrations/002_database_roles_and_privileges.sql.
use enterprise_rag_ingestion.Prelude.{
  ℕ, suc, Option, ◌≤◌, ◌≡◌, ◌⊎◌, ◌∙◌, refl, sym, inl, inr, String, Bool, true, false, List, [], ◌∷◌,
  All, has, map, length, length-take, select, update_where, nat_eq, string_eq, ◌==◌, arith, ap,
  Bool-cases, ◌||◌,
}
use enterprise_rag_ingestion.Exceptions.{ok}
use enterprise_rag_ingestion.Uuid.{Uuid}
use enterprise_rag_ingestion.Database.{OutboxRow, Db}
use enterprise_rag_ingestion.Publisher.Outbox.{
  is_waiting, claimable, order, picks, claim_update, is_picked, claim_outbox_events, is_claimed_by,
  complete_update, complete_outbox_event,
}
use enterprise_rag_ingestion.Publisher.Outbox.Rows.{
  Distinct, is_picked-claimable, All-select, All-order, All-take,
}
use enterprise_rag_ingestion.Publisher.Outbox.Eligible.{
  Pairwise, ClaimStep, ClaimsAll, update_where-ClaimsAll, Pairwise-map, All-weaken,
  claimed-ClaimStep, picks-whole,
}

update_where-Pairwise :
    (Q : OutboxRow → Type 0) (p : OutboxRow → Bool) (f : OutboxRow → OutboxRow)
    (xs : List OutboxRow)
    → All (λ x. p x ≡ true → Q x) xs
    → Pairwise (λ x y. (y ≡ x) ⊎ (Q x × (y ≡ f x))) xs (update_where p f xs)
update_where-Pairwise Q p f [] h = tt
update_where-Pairwise Q p f (x ∷ xs) (h, rest) = elim (Bool-cases (p x)) [
  | inl hit ↦ rw hit (inr (h hit, refl), update_where-Pairwise Q p f xs rest)
  | inr miss ↦ rw miss (inl refl, update_where-Pairwise Q p f xs rest)
]

pub length-map : (f : OutboxRow → OutboxRow) (xs : List OutboxRow) → length (map f xs) ≡ length xs
length-map f [] = refl
length-map f (x ∷ xs) = ap suc (length-map f xs)

-- What a claim that succeeds did.
pub claim_outbox_events-eq-ok :
    (skipped : OutboxRow → Bool) (now : ℕ) (worker_name : String) (batch_size : ℕ) (db : Db)
    {claimed : List OutboxRow} {db' : Db}
    → claim_outbox_events skipped now worker_name batch_size db ≡ ok (claimed, db')
    → (map (claim_update now worker_name) (picks skipped now batch_size db.outbox) ≡ claimed)
      × (update_where
            (is_picked (picks skipped now batch_size db.outbox))
            (claim_update now worker_name)
            db.outbox
          ≡ db'.outbox)
unfolding claim_outbox_events
claim_outbox_events-eq-ok skipped now worker_name batch_size db h = ground arith

-- What a completion that succeeds did.
pub complete_outbox_event-eq-ok :
    (now : ℕ) (outbox_id : Uuid) (worker_name : String) (succeeded : Bool) (message : Option String)
    (retry_at : Option ℕ) (db db' : Db)
    → complete_outbox_event now outbox_id worker_name succeeded message retry_at db ≡ ok (tt, db')
    → update_where
        (is_claimed_by outbox_id worker_name)
        (complete_update now succeeded message retry_at)
        db.outbox
      ≡ db'.outbox
unfolding complete_outbox_event
complete_outbox_event-eq-ok now outbox_id worker_name succeeded message retry_at db db' h =
    ground arith

-- A claim of an allowed size succeeds.
pub claim_outbox_events-of_size :
    (skipped : OutboxRow → Bool) (now : ℕ) (worker_name : String) (batch_size : ℕ) (db : Db)
    → 1 ≤ batch_size
    → batch_size ≤ 1000
    → claim_outbox_events skipped now worker_name batch_size db
      ≡ ok (
        map (claim_update now worker_name) (picks skipped now batch_size db.outbox),
        record db {
          outbox =
              update_where
                (is_picked (picks skipped now batch_size db.outbox))
                (claim_update now worker_name)
                db.outbox;
        },
      )
unfolding claim_outbox_events
claim_outbox_events-of_size skipped now worker_name batch_size db least most = ground arith

-- Where the ids of the outbox are distinct, a claim that succeeds returns at most `batch_size` rows,
-- and changes only rows that are pending or failed, due, and not skipped: these become publishing,
-- locked by the worker, with one more attempt. Every other row stays as it is. If it returns fewer
-- than `batch_size` rows, it has taken every row that is pending or failed, due, and not skipped.
pub claim_outbox_events-ClaimStep :
    (skipped : OutboxRow → Bool) (now : ℕ) (worker_name : String) (batch_size : ℕ) (db db' : Db)
    (claimed : List OutboxRow)
    → Distinct db.outbox
    → claim_outbox_events skipped now worker_name batch_size db ≡ ok (claimed, db')
    → Pairwise (ClaimStep skipped now worker_name) db.outbox db'.outbox
      × (length claimed ≤ batch_size)
      × ((length claimed ≡ batch_size)
          ⊎ Pairwise (ClaimsAll skipped now worker_name) db.outbox db'.outbox)
unfolding picks
claim_outbox_events-ClaimStep skipped now worker_name batch_size db db' claimed distinct h =
    let (rows, table) = claim_outbox_events-eq-ok skipped now worker_name batch_size db h in
    (
      rw (sym table) (
          Pairwise-map _ _ db.outbox _ (claimed-ClaimStep skipped now worker_name) (
            update_where-Pairwise _ _ _ db.outbox
              (is_picked-claimable skipped now batch_size db.outbox distinct))),
      omega (
        arith,
        ap length rows,
        length-map (claim_update now worker_name) (picks skipped now batch_size db.outbox),
        length-take batch_size (order (select (claimable skipped now) db.outbox)),
      ),
      elim (picks-whole skipped now worker_name batch_size db.outbox) [
        | inl full ↦ inl (
            sym (ap length rows)
            ∙ length-map (claim_update now worker_name) (picks skipped now batch_size db.outbox)
            ∙ full)
        | inr whole ↦ inr (
            rw (sym table) (
              update_where-ClaimsAll skipped now worker_name _ db.outbox
                (is_picked-claimable skipped now batch_size db.outbox distinct) whole))
      ],
    )

pub All-map :
    (P : OutboxRow → Type 0) (f : OutboxRow → OutboxRow) (xs : List OutboxRow)
    → All (λ x. P (f x)) xs
    → All P (map f xs)
All-map P f [] h = tt
All-map P f (x ∷ xs) (h, rest) = (h, All-map P f xs rest)

module _ (now : ℕ) (worker_name : String) where
  pub has-map-claim_update :
      (id : Uuid) (xs : List OutboxRow)
      → has (λ a. a.id == id) (map (claim_update now worker_name) xs) ≡ has (λ a. a.id == id) xs
  has-map-claim_update id [] = refl
  has-map-claim_update id (x ∷ xs) = ap (◌||◌ (x.id == id)) (has-map-claim_update id xs)

  -- What still waits after a claim was not picked by it.
  waiting-not_picked :
      (chosen xs : List OutboxRow)
      → All
          (λ r. is_waiting r.status ≡ true → is_picked chosen r ≡ false)
          (update_where (is_picked chosen) (claim_update now worker_name) xs)
  waiting-not_picked chosen [] = tt
  waiting-not_picked chosen (x ∷ xs) = elim (Bool-cases (is_picked chosen x)) [
    | inl hit ↦ rw hit (λ waits. absurd (cc), waiting-not_picked chosen xs)
    | inr miss ↦ rw miss (λ waits. miss, waiting-not_picked chosen xs)
  ]

-- A row that one claim returned is in no later claim that follows it directly, whichever the
-- workers, the clocks and the batch sizes: no row of the later one has the id of a row of the first.
pub claim_outbox_events-exclusive :
    (skipped skipped' : OutboxRow → Bool) (now now' : ℕ) (worker worker' : String)
    (batch_size batch_size' : ℕ) (db db' db'' : Db) (claimed claimed' : List OutboxRow)
    → claim_outbox_events skipped now worker batch_size db ≡ ok (claimed, db')
    → claim_outbox_events skipped' now' worker' batch_size' db' ≡ ok (claimed', db'')
    → All (λ r. has (λ c. c.id == r.id) claimed ≡ false) claimed'
unfolding picks
claim_outbox_events-exclusive skipped skipped' now now' worker worker' batch_size batch_size' db db'
      db'' claimed claimed' h h' =
    let (rows, table) = claim_outbox_events-eq-ok skipped now worker batch_size db h in
    let (rows', table') = claim_outbox_events-eq-ok skipped' now' worker' batch_size' db' h' in
    let chosen = picks skipped now batch_size db.outbox in
    let apart : All (λ r. is_waiting r.status ≡ true → is_picked chosen r ≡ false) db'.outbox =
      rw (sym table) (waiting-not_picked now worker chosen db.outbox) in
    let fresh : All (λ r. has (λ c. c.id == r.id) claimed ≡ false)
        (picks skipped' now' batch_size' db'.outbox) =
      All-take _ batch_size' _ (
        All-order _ _ (
          All-weaken _ _ _
            (λ x (imp, ready).
              rw (sym rows, has-map-claim_update now worker x.id chosen) (imp (ground arith)))
            (All-select _ (claimable skipped' now') db'.outbox apart))) in
    rw (sym rows') (All-map _ _ _ fresh)
