-- ===== src/System/Invariants.antt =====
-- What holds of the log of messages in every state that the pipeline can reach.
use enterprise_rag_ingestion.Prelude.{
  String, ◌≡◌, refl, Bool, false, List, [], ◌∷◌, ◌++◌, map, has, has-append, nat_eq, string_eq,
  ◌==◌, eq_iff, arith,
}
use enterprise_rag_ingestion.Uuid.{Codec}
use enterprise_rag_ingestion.Database.{Db, OutboxRow, ProcessedEvent}
use enterprise_rag_ingestion.Database.Statements.{is_processed}
use enterprise_rag_ingestion.Publisher.Outbox.Rows.{Distinct}
use enterprise_rag_ingestion.System.{History, start, then}
use enterprise_rag_ingestion.System.Messages.{
  message_of, Log, log_of, collides, LogStep, stays, enters, hands_over,
}
use enterprise_rag_ingestion.System.Refines.{Step-refines}

-- No row stands before another that it excludes.
abbrev pub Apart {ℓ} : {A : Type ℓ} → (A → A → Bool) → List A → Type ℓ
Apart same [] = Unit
Apart same (x ∷ xs) = (has (same x) xs ≡ false) × Apart same xs

-- A row that excludes none of the others may be put behind them.
Apart-append {ℓ} :
    {A : Type ℓ} (same : A → A → Bool) (xs : List A) (x : A)
    → ((y : A) → same y x ≡ same x y)
    → has (same x) xs ≡ false
    → Apart same xs
    → Apart same (xs ++ x ∷ [])
Apart-append same [] x symmetric free h = (refl, tt)
Apart-append same (y ∷ xs) x symmetric free (apart, rest) = (
  ground (arith, has-append (same y) xs (x ∷ []), symmetric y),
  Apart-append same xs x symmetric (ground arith) rest,
)

abbrev same_event : ProcessedEvent → ProcessedEvent → Bool
same_event p = is_processed p.tenant_id p.event_id p.consumer_name

same_event-swap : (p q : ProcessedEvent) → same_event q p ≡ same_event p q
same_event-swap p q =
    ground (arith, eq_iff p.consumer_name q.consumer_name, eq_iff q.consumer_name p.consumer_name)

-- The primary keys and unique constraints of the outbox and of the ledger.
pub record IsKeyed (l : Log) : Type 0 where
  pub messages : Apart collides l.messages
  pub processed : Apart same_event l.processed

LogStep-IsKeyed : (l l' : Log) → LogStep l l' → IsKeyed l → IsKeyed l'
LogStep-IsKeyed l l' stays h = h
LogStep-IsKeyed l l' (enters m free added same) h = record {
  messages = rw added (Apart-append collides l.messages m (λ y. ground arith) free h.messages);
  processed = rw same h.processed;
}
LogStep-IsKeyed l l' (hands_over m p fresh free added recorded) h = record {
  messages = rw added (Apart-append collides l.messages m (λ y. ground arith) free h.messages);
  processed =
      rw recorded (Apart-append same_event l.processed p (same_event-swap p) fresh h.processed);
}

-- What a claim relies on.
pub Apart-Distinct : (rows : List OutboxRow) → Apart collides (map message_of rows) → Distinct rows
Apart-Distinct [] h = tt
Apart-Distinct (r ∷ rows) (apart, rest) = (has_id r rows apart, Apart-Distinct rows rest)
  where
    has_id :
        (r : OutboxRow) (rows : List OutboxRow)
        → has (collides (message_of r)) (map message_of rows) ≡ false
        → has (λ y. y.id == r.id) rows ≡ false
    has_id r [] h = refl
    has_id r (x ∷ rows) h = ground (arith, has_id r rows)

module _ (codec : Codec) (docling_version : String) where
  -- Where no two outbox rows share their id, or their tenant and event, and no two rows of the ledger
  -- their tenant, event and consumer, the same holds after any history of committed transactions.
  pub History-IsKeyed :
      (db db' : Db)
      → History codec docling_version db db'
      → IsKeyed (log_of db)
      → IsKeyed (log_of db')
  History-IsKeyed db db' start h = h
  History-IsKeyed db db' (then {mid} before step) h =
      LogStep-IsKeyed (log_of mid) (log_of db') (Step-refines codec docling_version mid db' step)
        (History-IsKeyed db mid before h)
