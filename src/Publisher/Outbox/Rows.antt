-- ===== src/Publisher/Outbox/Rows.antt =====
-- What the primary key gives: a row is found by its id, and the rows that a claim picks are rows of
-- the table that it may take.
use enterprise_rag_ingestion.Prelude.{
  ℕ, zero, suc, ◌≡◌, inl, inr, Bool, true, false, Option, none, some, List, [], ◌∷◌, All, has, take,
  select, nat_eq, ◌==◌, eq_iff, ap, subst, arith, Bool-cases, if◌then◌else◌,
}
use enterprise_rag_ingestion.Uuid.{Uuid}
use enterprise_rag_ingestion.Database.{OutboxRow}
use enterprise_rag_ingestion.Publisher.Outbox.{claimable, insert_ordered, order, picks, is_picked}

-- No two rows have one id.
abbrev pub Distinct : List OutboxRow → Type 0
Distinct [] = Unit
Distinct (x ∷ xs) = (has (λ y. y.id == x.id) xs ≡ false) × Distinct xs

unfoldable pub find : Uuid → List OutboxRow → Option OutboxRow
find id [] = none
find id (x ∷ xs) = if x.id == id then some x else find id xs

-- The row is in the table, where its id leads to it.
abbrev pub FoundIn : List OutboxRow → OutboxRow → Type 0
FoundIn rows r = find r.id rows ≡ some r

FoundIn-cons :
    (x : OutboxRow) (xs ys : List OutboxRow)
    → has (λ y. y.id == x.id) ys ≡ false
    → All (FoundIn xs) ys
    → All (FoundIn (x ∷ xs)) ys
unfolding find
FoundIn-cons x xs [] apart h = tt
FoundIn-cons x xs (y ∷ ys) apart (h, rest) =
    (ground arith, FoundIn-cons x xs ys (ground arith) rest)

-- Each row of a table with distinct ids is found in it.
Distinct-FoundIn : (xs : List OutboxRow) → Distinct xs → All (FoundIn xs) xs
unfolding find
Distinct-FoundIn [] h = tt
Distinct-FoundIn (x ∷ xs) (apart, rest) =
    (ground arith, FoundIn-cons x xs xs apart (Distinct-FoundIn xs rest))

pub All-select :
    (P : OutboxRow → Type 0) (p : OutboxRow → Bool) (xs : List OutboxRow)
    → All P xs
    → All (λ x. P x × (p x ≡ true)) (select p xs)
All-select P p [] h = tt
All-select P p (x ∷ xs) (h, rest) = elim (Bool-cases (p x)) [
  | inl hit ↦ rw hit ((h, hit), All-select P p xs rest)
  | inr miss ↦ rw miss (All-select P p xs rest)
]

All-insert_ordered :
    (P : OutboxRow → Type 0) (x : OutboxRow) (xs : List OutboxRow)
    → P x
    → All P xs
    → All P (insert_ordered x xs)
unfolding insert_ordered
All-insert_ordered P x [] hx h = (hx, tt)
All-insert_ordered P x (y ∷ ys) hx (hy, rest) = ground (arith, All-insert_ordered P x ys hx rest)

pub All-order : (P : OutboxRow → Type 0) (xs : List OutboxRow) → All P xs → All P (order xs)
unfolding order
All-order P [] h = tt
All-order P (x ∷ xs) (hx, rest) = All-insert_ordered P x (order xs) hx (All-order P xs rest)

pub All-take : (P : OutboxRow → Type 0) (n : ℕ) (xs : List OutboxRow) → All P xs → All P (take n xs)
All-take P zero xs h = tt
All-take P (suc n) [] h = tt
All-take P (suc n) (x ∷ xs) (hx, rest) = (hx, All-take P n xs rest)

same-row :
    (rows : List OutboxRow) (x c : OutboxRow)
    → find x.id rows ≡ some x
    → find c.id rows ≡ some c
    → (c.id == x.id) ≡ true
    → c ≡ x
same-row rows x c at_x at_c same =
    cc (ap (λ i. find i rows) ((eq_iff c.id x.id).0 same), at_x, at_c)

module _ (skipped : OutboxRow → Bool) (now batch_size : ℕ) (rows : List OutboxRow) where
  pub picks-claimable :
      Distinct rows
      → All
          (λ r. FoundIn rows r × (claimable skipped now r ≡ true))
          (picks skipped now batch_size rows)
  unfolding picks
  picks-claimable distinct = All-take _ batch_size _ (
      All-order _ _
        (All-select (FoundIn rows) (claimable skipped now) rows (Distinct-FoundIn rows distinct)))

  picked-claimable :
      (x : OutboxRow) (chosen : List OutboxRow)
      → FoundIn rows x
      → All (λ r. FoundIn rows r × (claimable skipped now r ≡ true)) chosen
      → is_picked chosen x ≡ true
      → claimable skipped now x ≡ true
  picked-claimable x [] found h hit = absurd (cc)
  picked-claimable x (c ∷ chosen) found ((at, ready), rest) hit = elim (Bool-cases (c.id == x.id)) [
    | inl same ↦ subst (λ r. claimable skipped now r ≡ true) (same-row rows x c found at same) ready
    | inr other ↦ picked-claimable x chosen found rest (ground arith)
  ]

  picked-All :
      (xs : List OutboxRow)
      → All (FoundIn rows) xs
      → All
          (λ r. FoundIn rows r × (claimable skipped now r ≡ true))
          (picks skipped now batch_size rows)
      → All
          (λ x.
            is_picked (picks skipped now batch_size rows) x ≡ true → claimable skipped now x ≡ true)
          xs
  picked-All [] found chosen = tt
  picked-All (x ∷ xs) (h, rest) chosen = (picked-claimable x _ h chosen, picked-All xs rest chosen)

  -- A claim updates only rows that it may take.
  pub is_picked-claimable :
      Distinct rows
      → All
          (λ x.
            is_picked (picks skipped now batch_size rows) x ≡ true → claimable skipped now x ≡ true)
          rows
  is_picked-claimable distinct =
      picked-All rows (Distinct-FoundIn rows distinct) (picks-claimable distinct)
