-- ===== src/Publisher/Loop/Growth.antt =====
-- Which rows a claim and a completion add to those that are published: workers/outbox_publisher.py.
use enterprise_rag_ingestion.Prelude.{
  ℕ, ◌≡◌, refl, sym, ap, subst, ◌∙◌, ◌⊎◌, inl, inr, String, Bool, true, false, Option, some, List,
  [], ◌∷◌, update_where, nat_eq, ◌==◌, eq_iff, arith, Bool-cases, if◌then◌else◌,
}
use enterprise_rag_ingestion.Exceptions.{Result, ok, raise}
use enterprise_rag_ingestion.Uuid.{Uuid}
use enterprise_rag_ingestion.Database.{Db, OutboxRow, OutboxStatus}
use enterprise_rag_ingestion.Database.Transaction.{Tx}
use enterprise_rag_ingestion.Publisher.Outbox.{
  picks, is_picked, claim_update, claim_outbox_events, is_claimed_by, complete_update,
  complete_outbox_event,
}
use enterprise_rag_ingestion.Publisher.Outbox.Rows.{find}
use enterprise_rag_ingestion.Publisher.Outbox.Claims.{
  claim_outbox_events-eq-ok, complete_outbox_event-eq-ok,
}
use enterprise_rag_ingestion.Publisher.Publish.{complete}

-- The id leads to a row that is published.
abbrev pub IsPublished : Uuid → Db → Type 0
IsPublished i db =
    (r : OutboxRow) × (find i db.outbox ≡ some r) × (r.status ≡ OutboxStatus.published)

some_unique : (x y : OutboxRow) → some x ≡ some y → x ≡ y
some_unique x y h = ground (arith, h)

-- A row that an id leads to after an update was led to before, and is updated or not.
find-update_where :
    (p : OutboxRow → Bool) (f : OutboxRow → OutboxRow) (i : Uuid) (xs : List OutboxRow)
    (r' : OutboxRow)
    → ((x : OutboxRow) → (f x).id ≡ x.id)
    → find i (update_where p f xs) ≡ some r'
    → (r : OutboxRow) × (find i xs ≡ some r) × (r.id ≡ i) × ((r' ≡ r) ⊎ ((p r ≡ true) × (r' ≡ f r)))
unfolding find
find-update_where p f i [] r' keeps h = absurd (cc h)
find-update_where p f i (x ∷ xs) r' keeps h = elim (Bool-cases (x.id == i)) [
  | inl here ↦ elim (Bool-cases (p x)) [
    | inl hit ↦
        let named : ((f x).id == i) ≡ true = ap (λ j. j == i) (keeps x) ∙ here in
        let known : some (f x) ≡ some r' = rw (hit, named) at h in
        (x, rw here refl, (eq_iff x.id i).0 here, inr (hit, sym (some_unique (f x) r' known)))
    | inr miss ↦
        let known : some x ≡ some r' = rw (miss, here) at h in
        (x, rw here refl, (eq_iff x.id i).0 here, inl (sym (some_unique x r' known)))
  ]
  | inr other ↦ elim (Bool-cases (p x)) [
    | inl hit ↦
        let (r, at, id, change) =
          find-update_where p f i xs r' keeps (rw (hit, keeps x, other) at h) in
        (r, rw other at, id, change)
    | inr miss ↦
        let (r, at, id, change) = find-update_where p f i xs r' keeps (rw (miss, other) at h) in
        (r, rw other at, id, change)
  ]
]

module _ (S : Uuid → Type 0) where
  -- What is published in the end was so before, or is in `S`.
  pub record Grows (db db' : Db) : Type 0 where
    pub at : (i : Uuid) → IsPublished i db' → IsPublished i db ⊎ S i

  pub Grows-trans : (a b c : Db) → Grows a b → Grows b c → Grows a c
  Grows-trans a b c ab bc = record {
    at = λ i h. elim (bc.at i h) [ inl before ↦ ab.at i before | inr sent ↦ inr sent ];
  }

  -- The same, of what a computation leaves.
  abbrev pub Grown : {A : Type 0} → Db → Result A × Db → Type 0
  Grown db x = Grows db x.1

  pub Grows-refl : (db : Db) → Grows db db
  Grows-refl db = record { at = λ i published. inl published }

  pub begin-Grown :
      {A : Type 0} (m : Tx A) (db : Db) (r : Result (A × Db))
      → m db ≡ r
      → ((a : A) (db' : Db) → m db ≡ ok (a, db') → Grows db db')
      → Grown {A = A} db (elim r [ ok (a, x) ↦ (ok a, x) | raise e ↦ (raise e, db) ])
  begin-Grown m db (ok (a, db')) h grows = grows a db' h
  begin-Grown m db (raise e) h grows = Grows-refl db

  pub claim-Published :
      (skipped : OutboxRow → Bool) (now : ℕ) (worker_name : String) (batch_size : ℕ)
      (claimed : List OutboxRow) (db db' : Db)
      → claim_outbox_events skipped now worker_name batch_size db ≡ ok (claimed, db')
      → (i : Uuid) → IsPublished i db'
      → IsPublished i db ⊎ S i
  claim-Published skipped now worker_name batch_size claimed db db' h i (r', at, published) =
      let chosen = picks skipped now batch_size db.outbox in
      let (rows, table) = claim_outbox_events-eq-ok skipped now worker_name batch_size db h in
      let (r, found, id, change) =
        find-update_where (is_picked chosen) (claim_update now worker_name) i db.outbox r'
          (λ x. refl) (ap (find i) table ∙ at) in
      elim change [
        | inl same ↦ inl (r, found, ap (λ (x : OutboxRow). x.status) (sym same) ∙ published)
        | inr (hit, new) ↦ absurd (cc (ap (λ (x : OutboxRow). x.status) new, published))
      ]

  -- A completion publishes nothing but the row that it is called for.
  complete-Published :
      (now : ℕ) (outbox_id : Uuid) (worker_name : String) (succeeded : Bool)
      (message : Option String) (retry_at : Option ℕ) (db db' : Db)
      → (succeeded ≡ true → S outbox_id)
      → complete_outbox_event now outbox_id worker_name succeeded message retry_at db ≡ ok (tt, db')
      → (i : Uuid) → IsPublished i db'
      → IsPublished i db ⊎ S i
  complete-Published now outbox_id worker_name succeeded message retry_at db db' sent h i
        (r', at, published) =
      let table =
        complete_outbox_event-eq-ok now outbox_id worker_name succeeded message retry_at db db' h in
      let (r, found, id, change) =
        find-update_where (is_claimed_by outbox_id worker_name)
          (complete_update now succeeded message retry_at) i db.outbox r' (λ x. refl)
          (ap (find i) table ∙ at) in
      elim change [
        | inl same ↦ inl (r, found, ap (λ (x : OutboxRow). x.status) (sym same) ∙ published)
        | inr (hit, new) ↦
            let named : r.id ≡ outbox_id = ground (arith, hit) in
            let flag : succeeded ≡ true =
              succeeded_published succeeded
                (ap (λ (x : OutboxRow). x.status) (sym new) ∙ published) in
            inr (subst S (sym named ∙ id) (sent flag))
      ]
    where
      succeeded_published :
          (b : Bool)
          → (if b then OutboxStatus.published else OutboxStatus.failed) ≡ OutboxStatus.published
          → b ≡ true
      succeeded_published true e = refl
      succeeded_published false e = absurd (cc e)

  pub complete-Grown :
      (connect : Result (Unit {0})) (now : ℕ) (id : Uuid) (worker_name : String) (succeeded : Bool)
      (message : Option String) (retry_at : Option ℕ) (db : Db)
      → (succeeded ≡ true → S id)
      → Grown db (complete connect now id worker_name succeeded message retry_at db)
  complete-Grown (raise e) now id worker_name succeeded message retry_at db sent = Grows-refl db
  complete-Grown (ok u) now id worker_name succeeded message retry_at db sent =
      begin-Grown (complete_outbox_event now id worker_name succeeded message retry_at) db _ refl
        λ a db' h. record {
          at = complete-Published now id worker_name succeeded message retry_at db db' sent h;
        }
