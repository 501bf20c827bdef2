-- ===== src/Publisher/Outbox/Eligible.antt =====
-- Which rows a claim may take, told by their columns, and that a claim with room takes them all:
-- claim_outbox_events of migrations/002_database_roles_and_privileges.sql.
use enterprise_rag_ingestion.Prelude.{
  ℕ, zero, suc, ◌+◌, some, ◌≤◌, ◌≡◌, ◌⊎◌, ◌∙◌, take, eq_self, refl, inl, inr, String, Bool, true,
  false, List, [], ◌∷◌, All, has, length, select, update_where, nat_eq, string_eq, ◌==◌, arith, ap,
  Bool-cases,
}
use enterprise_rag_ingestion.Database.{OutboxRow, OutboxStatus}
use enterprise_rag_ingestion.Publisher.Outbox.{
  is_waiting, claimable, order, picks, claim_update, is_picked,
}
use enterprise_rag_ingestion.Publisher.Outbox.Distinct.{has-order}

-- The rows of a table before and after a statement, in their order.
abbrev pub Pairwise : (OutboxRow → OutboxRow → Type 0) → List OutboxRow → List OutboxRow → Type 0
Pairwise R [] [] = Unit
Pairwise R (x ∷ xs) (y ∷ ys) = R x y × Pairwise R xs ys
Pairwise R _ _ = ⊥

-- What a claim may take: a row that is pending or failed, due, and not skipped.
pub record IsEligible (skipped : OutboxRow → Bool) (now : ℕ) (r : OutboxRow) : Type 0 where
  pub waits : (r.status ≡ OutboxStatus.pending) ⊎ (r.status ≡ OutboxStatus.failed)
  pub due : r.available_at ≤ now
  pub free : skipped r ≡ false

-- A row as a claim leaves it: publishing, locked by the worker, and with one more attempt.
abbrev pub taken : ℕ → String → OutboxRow → OutboxRow
taken now worker_name r = record r {
  status = OutboxStatus.publishing;
  locked_at = some now;
  locked_by = some worker_name;
  attempt_count = r.attempt_count + 1;
}

-- A row stays, or a claim may take it and takes it.
abbrev pub ClaimStep : (OutboxRow → Bool) → ℕ → String → OutboxRow → OutboxRow → Type 0
ClaimStep skipped now worker_name r r' =
    (r' ≡ r) ⊎ (IsEligible skipped now r × (r' ≡ taken now worker_name r))

-- A row that a claim may take is taken, and any other stays.
abbrev pub ClaimsAll : (OutboxRow → Bool) → ℕ → String → OutboxRow → OutboxRow → Type 0
ClaimsAll skipped now worker_name r r' =
    (¬ IsEligible skipped now r × (r' ≡ r))
    ⊎ (IsEligible skipped now r × (r' ≡ taken now worker_name r))

waiting-cases :
    (s : OutboxStatus)
    → is_waiting s ≡ true
    → (s ≡ OutboxStatus.pending) ⊎ (s ≡ OutboxStatus.failed)
waiting-cases OutboxStatus.pending h = inl refl
waiting-cases OutboxStatus.failed h = inr refl
waiting-cases OutboxStatus.publishing h = absurd (cc)
waiting-cases OutboxStatus.published h = absurd (cc)

pub claimable-IsEligible :
    (skipped : OutboxRow → Bool) (now : ℕ) (r : OutboxRow)
    → claimable skipped now r ≡ true
    → IsEligible skipped now r
claimable-IsEligible skipped now r h = record {
  waits = waiting-cases r.status (ground arith);
  due = ground arith;
  free = ground arith;
}

IsEligible-waiting :
    (s : OutboxStatus)
    → (s ≡ OutboxStatus.pending) ⊎ (s ≡ OutboxStatus.failed)
    → is_waiting s ≡ true
IsEligible-waiting s (inl pending) = rw pending refl
IsEligible-waiting s (inr failed) = rw failed refl

pub IsEligible-claimable :
    (skipped : OutboxRow → Bool) (now : ℕ) (r : OutboxRow)
    → IsEligible skipped now r
    → claimable skipped now r ≡ true
IsEligible-claimable skipped now r h =
    ground (arith, IsEligible-waiting r.status h.waits, h.due, h.free)

-- A row that the table holds and that may be taken is among all that may be taken.
has-select :
    (p q : OutboxRow → Bool) (xs : List OutboxRow) (x : OutboxRow)
    → p x ≡ true
    → q x ≡ true
    → has q (select p (x ∷ xs)) ≡ true
has-select p q xs x hp hq = ground arith

-- A batch that is not full holds all.
pub take-all : (n : ℕ) (xs : List OutboxRow) → (length (take n xs) ≡ n) ⊎ (take n xs ≡ xs)
take-all zero xs = inl refl
take-all (suc n) [] = inr refl
take-all (suc n) (x ∷ xs) = elim (take-all n xs) [
  | inl full ↦ inl (ap suc full)
  | inr whole ↦ inr (ap (◌∷◌ x) whole)
]

-- The rows of a part of a table that may be taken are found in the selection of the whole.
pub All-selected :
    (p : OutboxRow → Bool) (xs : List OutboxRow)
    → All (λ x. p x ≡ true → has (λ c. c.id == x.id) (select p xs) ≡ true) xs
All-selected p [] = tt
All-selected p (x ∷ xs) = (
  λ hit. has-select p (λ c. c.id == x.id) xs x hit (eq_self x.id),
  All-widen xs (All-selected p xs),
)
  where
    All-widen :
        (ys : List OutboxRow)
        → All (λ y. p y ≡ true → has (λ c. c.id == y.id) (select p xs) ≡ true) ys
        → All (λ y. p y ≡ true → has (λ c. c.id == y.id) (select p (x ∷ xs)) ≡ true) ys
    All-widen [] h = tt
    All-widen (y ∷ ys) (h, rest) = (λ hit. ground (arith, h hit), All-widen ys rest)

pub All-weaken :
    (P Q : OutboxRow → Type 0) (xs : List OutboxRow)
    → ((x : OutboxRow) → P x → Q x)
    → All P xs
    → All Q xs
All-weaken P Q [] imp h = tt
All-weaken P Q (x ∷ xs) imp (h, rest) = (imp x h, All-weaken P Q xs imp rest)

-- What is updated where a test holds exactly of the rows that a claim may take.
pub update_where-ClaimsAll :
    (skipped : OutboxRow → Bool) (now : ℕ) (worker_name : String) (p : OutboxRow → Bool)
    (xs : List OutboxRow)
    → All (λ x. p x ≡ true → claimable skipped now x ≡ true) xs
    → All (λ x. claimable skipped now x ≡ true → p x ≡ true) xs
    → Pairwise
        (ClaimsAll skipped now worker_name)
        xs
        (update_where p (claim_update now worker_name) xs)
update_where-ClaimsAll skipped now worker_name p [] sound whole = tt
update_where-ClaimsAll skipped now worker_name p (x ∷ xs) (s, sound) (w, whole) =
    elim (Bool-cases (p x)) [
      | inl hit ↦ rw hit (
        inr (claimable-IsEligible skipped now x (s hit), refl),
        update_where-ClaimsAll skipped now worker_name p xs sound whole,
      )
      | inr miss ↦ rw miss (
        inl (λ e. absurd (cc (miss, w (IsEligible-claimable skipped now x e))), refl),
        update_where-ClaimsAll skipped now worker_name p xs sound whole,
      )
    ]

pub Pairwise-map :
    (R S : OutboxRow → OutboxRow → Type 0) (xs ys : List OutboxRow)
    → ((x y : OutboxRow) → R x y → S x y)
    → Pairwise R xs ys
    → Pairwise S xs ys
Pairwise-map R S [] [] f h = tt
Pairwise-map R S [] (y ∷ ys) f h = h
Pairwise-map R S (x ∷ xs) [] f h = h
Pairwise-map R S (x ∷ xs) (y ∷ ys) f (h, rest) = (f x y h, Pairwise-map R S xs ys f rest)

module _ (skipped : OutboxRow → Bool) (now : ℕ) (worker_name : String) where
  pub claimed-ClaimStep :
      (r r' : OutboxRow)
      → (r' ≡ r) ⊎ ((claimable skipped now r ≡ true) × (r' ≡ claim_update now worker_name r))
      → ClaimStep skipped now worker_name r r'
  claimed-ClaimStep r r' (inl same) = inl same
  claimed-ClaimStep r r' (inr (ready, new)) = inr (claimable-IsEligible skipped now r ready, new)

  -- A batch with room left has picked every row that it may take.
  pub picks-whole :
      (batch_size : ℕ) (rows : List OutboxRow)
      → (length (picks skipped now batch_size rows) ≡ batch_size)
        ⊎ All
            (λ x.
              claimable skipped now x ≡ true
              → is_picked (picks skipped now batch_size rows) x ≡ true)
            rows
  unfolding picks
  picks-whole batch_size rows =
      elim (take-all batch_size (order (select (claimable skipped now) rows))) [
        | inl full ↦ inl full
        | inr whole ↦ inr (
            rw whole (
              All-weaken _ _ rows
                (λ x imp ready.
                  has-order (λ c. c.id == x.id) (select (claimable skipped now) rows) ∙ imp ready)
                (All-selected (claimable skipped now) rows)))
      ]
