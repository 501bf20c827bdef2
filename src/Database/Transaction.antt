-- ===== src/Database/Transaction.antt =====
-- `async with engine.begin() as connection`: statements in sequence. A statement that raises ends
-- the transaction, and the database keeps the state that it had before.
use enterprise_rag_ingestion.Prelude.{◌≡◌, refl, ap}
use enterprise_rag_ingestion.Exceptions.{Exception, Result, ok, raise}
use enterprise_rag_ingestion.Database.{Db}

abbrev pub Tx : Type 0 → Type 0
Tx A = Db → Result (A × Db)

module _ {A : Type 0} where
  unfoldable pub pure : A → Tx A
  pure a db = ok (a, db)

  unfoldable pub throw : Exception → Tx A
  throw e db = raise e

  unfoldable pub lift : Result A → Tx A
  lift (ok a) db = ok (a, db)
  lift (raise e) db = raise e

  -- The commit, or the rollback.
  abbrev pub begin : Tx A → Db → Result A × Db
  begin m db = elim (m db) [ ok (a, db') ↦ (ok a, db') | raise e ↦ (raise e, db) ]

module _ {A : Type 0} where
  -- A transaction that raises nothing commits.
  pub begin-of-ok :
      (m : Tx A) (db : Db) {a : A} {db' : Db} → m db ≡ ok (a, db') → begin m db ≡ (ok a, db')
  begin-of-ok m db h = rw (h, begin) refl

module _ {A B : Type 0} where
  -- The rest of a sequence after a statement's outcome.
  abbrev pub continue : Result (A × Db) → (A → Tx B) → Result (B × Db)
  continue (ok (a, db)) f = f a db
  continue (raise e) f = raise e

infixl 10 ◌>>=◌ ◌>>◌
-- Shut, so that the rules for transactions apply to it; opening it opens the others.
unfoldable pub ◌>>=◌ : {A B : Type 0} → Tx A → (A → Tx B) → Tx B
unfolding pure throw lift
◌>>=◌ m f db = continue (m db) f

abbrev pub ◌>>◌ : {B : Type 0} → Tx Unit → Tx B → Tx B
m >> k = m >>= λ _. k

module _ {A B : Type 0} where
  continue-eq-ok :
      (r : Result (A × Db)) (f : A → Tx B) {b : B} {db' : Db}
      → continue r f ≡ ok (b, db')
      → (a : A) × (mid : Db) × (r ≡ ok (a, mid)) × (f a mid ≡ ok (b, db'))
  continue-eq-ok (ok (a, mid)) f h = (a, mid, refl, h)
  continue-eq-ok (raise e) f h = cc

  -- What a committed sequence went through.
  pub >>=-eq-ok :
      (m : Tx A) (f : A → Tx B) {b : B} (db : Db) {db' : Db}
      → (m >>= f) db ≡ ok (b, db')
      → (a : A) × (mid : Db) × (m db ≡ ok (a, mid)) × (f a mid ≡ ok (b, db'))
  unfolding ◌>>=◌
  >>=-eq-ok m f db h = continue-eq-ok (m db) f h

  -- A sequence goes on from what its first statement left.
  pub >>=-of-ok :
      (m : Tx A) (f : A → Tx B) (db : Db) {mid : Db} {a : A}
      → m db ≡ ok (a, mid)
      → (m >>= f) db ≡ f a mid
  unfolding ◌>>=◌
  >>=-of-ok m f db h = ap (λ r. continue r f) h
