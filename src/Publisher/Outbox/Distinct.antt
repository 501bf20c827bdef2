-- ===== src/Publisher/Outbox/Distinct.antt =====
-- A claim picks each row once, and an update leaves a row where its id leads.
use enterprise_rag_ingestion.Prelude.{
  ℕ, zero, suc, ◌≡◌, refl, inl, inr, Bool, true, false, ◌||◌, some, List, [], ◌∷◌, has, take,
  select, update_where, nat_eq, ◌==◌, arith, Bool-cases,
}
use enterprise_rag_ingestion.Uuid.{Uuid}
use enterprise_rag_ingestion.Database.{OutboxRow}
use enterprise_rag_ingestion.Publisher.Outbox.{before, insert_ordered, order, picks}
use enterprise_rag_ingestion.Publisher.Outbox.Rows.{Distinct, find}

module _ (p : OutboxRow → Bool) where
  has-insert_ordered :
      (x : OutboxRow) (ys : List OutboxRow) → has p (insert_ordered x ys) ≡ (p x || has p ys)
  unfolding insert_ordered
  has-insert_ordered x [] = refl
  has-insert_ordered x (y ∷ ys) = ground (arith, has-insert_ordered x ys)

  pub has-order : (xs : List OutboxRow) → has p (order xs) ≡ has p xs
  unfolding order
  has-order [] = refl
  has-order (x ∷ xs) = ground (arith, has-insert_ordered x (order xs), has-order xs)

  has-select :
      (q : OutboxRow → Bool) (xs : List OutboxRow) → has p xs ≡ false → has p (select q xs) ≡ false
  has-select q [] h = refl
  has-select q (x ∷ xs) h = ground (arith, has-select q xs)

  has-take : (n : ℕ) (xs : List OutboxRow) → has p xs ≡ false → has p (take n xs) ≡ false
  has-take zero xs h = refl
  has-take (suc n) [] h = refl
  has-take (suc n) (x ∷ xs) h = ground (arith, has-take n xs)

Distinct-insert_ordered :
    (x : OutboxRow) (ys : List OutboxRow)
    → has (λ y. y.id == x.id) ys ≡ false
    → Distinct ys
    → Distinct (insert_ordered x ys)
unfolding insert_ordered
Distinct-insert_ordered x [] fresh h = (refl, tt)
Distinct-insert_ordered x (y ∷ ys) fresh (apart, rest) = elim (Bool-cases (before x y)) [
  | inl first ↦ rw first (fresh, (apart, rest))
  | inr later ↦ rw later (
    ground (arith, has-insert_ordered (λ z. z.id == y.id) x ys),
    Distinct-insert_ordered x ys (ground arith) rest,
  )
]

Distinct-order : (xs : List OutboxRow) → Distinct xs → Distinct (order xs)
unfolding order
Distinct-order [] h = tt
Distinct-order (x ∷ xs) (apart, rest) =
    Distinct-insert_ordered x (order xs) (ground (arith, has-order (λ y. y.id == x.id) xs))
      (Distinct-order xs rest)

Distinct-select :
    (q : OutboxRow → Bool) (xs : List OutboxRow) → Distinct xs → Distinct (select q xs)
Distinct-select q [] h = tt
Distinct-select q (x ∷ xs) (apart, rest) = elim (Bool-cases (q x)) [
  | inl hit ↦ rw hit (has-select _ q xs apart, Distinct-select q xs rest)
  | inr miss ↦ rw miss (Distinct-select q xs rest)
]

Distinct-take : (n : ℕ) (xs : List OutboxRow) → Distinct xs → Distinct (take n xs)
Distinct-take zero xs h = tt
Distinct-take (suc n) [] h = tt
Distinct-take (suc n) (x ∷ xs) (apart, rest) = (has-take _ n xs apart, Distinct-take n xs rest)

pub picks-Distinct :
    (skipped : OutboxRow → Bool) (now batch_size : ℕ) (rows : List OutboxRow)
    → Distinct rows
    → Distinct (picks skipped now batch_size rows)
unfolding picks
picks-Distinct skipped now batch_size rows h =
    Distinct-take batch_size _ (Distinct-order _ (Distinct-select _ rows h))

module _ (p : OutboxRow → Bool) (f : OutboxRow → OutboxRow)
    (keeps : (x : OutboxRow) → (f x).id ≡ x.id) where
  pub find-updated :
      (i : Uuid) (xs : List OutboxRow) (r : OutboxRow)
      → find i xs ≡ some r
      → p r ≡ true
      → find i (update_where p f xs) ≡ some (f r)
  unfolding find
  find-updated i [] r at hit = cc
  find-updated i (x ∷ xs) r at hit = ground (arith, keeps x, find-updated i xs r)

  pub find-not_updated :
      (i : Uuid) (xs : List OutboxRow)
      → ((x : OutboxRow) → x.id ≡ i → p x ≡ false)
      → find i (update_where p f xs) ≡ find i xs
  unfolding find
  find-not_updated i [] miss = refl
  find-not_updated i (x ∷ xs) miss = ground (arith, keeps x, miss x, find-not_updated i xs miss)

pub find-has :
    (p : OutboxRow → Bool) (i : Uuid) (xs : List OutboxRow) (r : OutboxRow)
    → find i xs ≡ some r
    → p r ≡ true
    → has p xs ≡ true
unfolding find
find-has p i [] r at hit = cc
find-has p i (x ∷ xs) r at hit = ground (arith, find-has p i xs r)
