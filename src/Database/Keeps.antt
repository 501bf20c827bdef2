-- ===== src/Database/Keeps.antt =====
-- What a committed transaction leaves as it was: a rule for each way to build a transaction.
use enterprise_rag_ingestion.Prelude.{◌≡◌, refl, ◌∙◌, arith, Bool, true, false, if◌then◌else◌}
use enterprise_rag_ingestion.Exceptions.{Exception, Result, ok, raise}
use enterprise_rag_ingestion.Database.{Db}
use enterprise_rag_ingestion.Database.Transaction.{Tx, pure, throw, lift, ◌>>=◌, ◌>>◌, >>=-eq-ok}

-- If `m` commits, `view` is unchanged.
pub record Keeps {X : Type 0} (view : Db → X) {A : Type 0} (m : Tx A) : Type 0 where
  pub at : (db db' : Db) (a : A) → m db ≡ ok (a, db') → view db' ≡ view db

module _ {X : Type 0} {view : Db → X} {A : Type 0} where
  pub Keeps-pure : (a : A) → Keeps view (pure a)
  unfolding pure
  Keeps-pure a = record { at = λ db db' b h. ground arith }

  pub Keeps-throw : (e : Exception) → Keeps view (throw {A = A} e)
  unfolding throw
  Keeps-throw e = record { at = λ db db' b h. cc }

  pub Keeps-lift : (r : Result A) → Keeps view (lift r)
  unfolding lift
  Keeps-lift r = record { at = λ db db' b h. ground arith }

  pub Keeps-if :
      (b : Bool) (m n : Tx A) → Keeps view m → Keeps view n → Keeps view (if b then m else n)
  Keeps-if true m n km kn = km
  Keeps-if false m n km kn = kn

module _ {X : Type 0} {view : Db → X} {A B : Type 0} where
  pub Keeps-bind :
      (m : Tx A) (f : A → Tx B) → Keeps view m → ((a : A) → Keeps view (f a)) → Keeps view (m >>= f)
  Keeps-bind m f km kf = record {
    at = λ db db' b h.
        let (a, mid, first, second) = >>=-eq-ok m f db h in
        (kf a).at mid db' b second ∙ km.at db mid a first;
  }

  -- The rest of the transaction may use what `r` returned.
  pub Keeps-bind-lift :
      (r : Result A) (f : A → Tx B)
      → ((a : A) → r ≡ ok a → Keeps view (f a))
      → Keeps view (lift r >>= f)
  unfolding ◌>>=◌
  Keeps-bind-lift (ok a) f kf = record { at = (kf a refl).at }
  Keeps-bind-lift (raise e) f kf = record { at = λ db db' b h. cc }

module _ {X : Type 0} {view : Db → X} {B : Type 0} where
  pub Keeps-then : (m : Tx Unit) (k : Tx B) → Keeps view m → Keeps view k → Keeps view (m >> k)
  Keeps-then m k km kk = Keeps-bind m (λ _. k) km (λ _. kk)
