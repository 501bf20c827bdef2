-- ===== src/System/Rows.antt =====
-- The life of one outbox row: the moves that its delivery makes.
use enterprise_rag_ingestion.Prelude.{
  ℕ, ◌≤◌, ◌≡◌, refl, ap, subst, inl, inr, String, Bool, true, false, Option, some, List, [], ◌∷◌,
  ◌++◌, All, update_where, nat_eq, ◌==◌, arith, Bool-cases,
}
use enterprise_rag_ingestion.Uuid.{Uuid}
use enterprise_rag_ingestion.Database.{OutboxRow, OutboxStatus}
use enterprise_rag_ingestion.Publisher.Outbox.{
  is_waiting, is_publishing, claim_update, complete_update,
}
use enterprise_rag_ingestion.Publisher.Outbox.Rows.{find}
use enterprise_rag_ingestion.System.Messages.{message_of}

-- The delivery of a row: a waiting row is claimed, and a claimed row is completed, as published or as
-- failed, which waits again.
pub data Moves (r : OutboxRow) : OutboxRow → Type 0 where
  rests : Moves r r
  is_taken :
      {mid : OutboxRow} (now : ℕ) (worker_name : String)
      → Moves r mid
      → is_waiting mid.status ≡ true
      → Moves r (claim_update now worker_name mid)
  is_ended :
      {mid : OutboxRow} (now : ℕ) (succeeded : Bool) (message : Option String) (retry_at : Option ℕ)
      → Moves r mid
      → is_publishing mid.status ≡ true
      → Moves r (complete_update now succeeded message retry_at mid)

pub Moves-message : (r r' : OutboxRow) → Moves r r' → message_of r' ≡ message_of r
Moves-message r r' rests = refl
Moves-message r r' (is_taken {mid} now worker_name before waits) = Moves-message r mid before
Moves-message r r' (is_ended {mid} now succeeded message retry_at before held) =
    Moves-message r mid before

pub Moves-attempts : (r r' : OutboxRow) → Moves r r' → r.attempt_count ≤ r'.attempt_count
Moves-attempts r r' rests = omega arith
Moves-attempts r r' (is_taken {mid} now worker_name before waits) =
    omega (arith, Moves-attempts r mid before)
Moves-attempts r r' (is_ended {mid} now succeeded message retry_at before held) =
    Moves-attempts r mid before

pub Moves-published : (r r' : OutboxRow) → Moves r r' → r.status ≡ OutboxStatus.published → r' ≡ r
Moves-published r r' rests h = refl
Moves-published r r' (is_taken {mid} now worker_name before waits) h =
    let same = Moves-published r mid before h in
    absurd (ground (arith, ap (λ (x : OutboxRow). is_waiting x.status) same))
Moves-published r r' (is_ended {mid} now succeeded message retry_at before held) h =
    let same = Moves-published r mid before h in
    absurd (ground (arith, ap (λ (x : OutboxRow). is_publishing x.status) same))

pub find-append :
    (i : Uuid) (rows more : List OutboxRow) (r : OutboxRow)
    → find i rows ≡ some r
    → find i (rows ++ more) ≡ some r
unfolding find
find-append i [] more r at = cc
find-append i (x ∷ rows) more r at = ground (arith, find-append i rows more r)

-- The row that an id leads to stays there if the update passes it over.
pub find-passed_over :
    (p : OutboxRow → Bool) (f : OutboxRow → OutboxRow) (i : Uuid) (rows : List OutboxRow)
    (r : OutboxRow)
    → ((x : OutboxRow) → (f x).id ≡ x.id)
    → find i rows ≡ some r
    → p r ≡ false
    → find i (update_where p f rows) ≡ some r
unfolding find
find-passed_over p f i [] r keeps at miss = cc
find-passed_over p f i (x ∷ rows) r keeps at miss =
    ground (arith, keeps x, find-passed_over p f i rows r keeps)

pub All-find :
    (P : OutboxRow → Type 0) (i : Uuid) (rows : List OutboxRow) (r : OutboxRow)
    → All P rows
    → find i rows ≡ some r
    → P r
unfolding find
All-find P i [] r h at = absurd (cc)
All-find P i (x ∷ rows) r (h, rest) at = elim (Bool-cases (x.id == i)) [
  | inl hit ↦ subst P (ground arith) h
  | inr miss ↦ All-find P i rows r rest (ground arith)
]
