-- ===== src/Publisher/Outbox.antt =====
-- `rag.claim_outbox_events` and `rag.complete_outbox_event` of
-- migrations/002_database_roles_and_privileges.sql, as statements of one transaction.
pub mod Rows
pub mod Eligible
pub mod Claims
pub mod Distinct
use enterprise_rag_ingestion.Prelude.{
  ℕ, ◌+◌, String, Bool, true, false, ◌&&◌, ◌||◌, Option, none, some, List, [], ◌∷◌, map, has, take,
  update_where, nat_eq, string_eq, ◌==◌, ltb, leb, not, select, if◌then◌else◌,
}
use enterprise_rag_ingestion.Exceptions.{ok, raise, external}
use enterprise_rag_ingestion.Uuid.{Uuid}
use enterprise_rag_ingestion.Database.{OutboxRow, OutboxStatus}
use enterprise_rag_ingestion.Database.Transaction.{Tx}

-- `status IN ('pending', 'failed')`
abbrev pub is_waiting : OutboxStatus → Bool
is_waiting OutboxStatus.pending = true
is_waiting OutboxStatus.failed = true
is_waiting _ = false

-- `status = 'publishing'`
abbrev pub is_publishing : OutboxStatus → Bool
is_publishing OutboxStatus.publishing = true
is_publishing _ = false

abbrev pub is_published : OutboxStatus → Bool
is_published OutboxStatus.published = true
is_published _ = false

-- The rows that a claim may take. `skipped` are those that another transaction has locked.
abbrev pub claimable : (OutboxRow → Bool) → ℕ → OutboxRow → Bool
claimable skipped now r = is_waiting r.status && leb r.available_at now && not (skipped r)

-- `ORDER BY available_at, created_at`
abbrev pub before : OutboxRow → OutboxRow → Bool
before a b =
    ltb a.available_at b.available_at
    || a.available_at == b.available_at && leb a.created_at b.created_at

-- A row put where it belongs in an ordered list.
unfoldable pub insert_ordered : OutboxRow → List OutboxRow → List OutboxRow
insert_ordered x [] = x ∷ []
insert_ordered x (y ∷ ys) = if before x y then x ∷ y ∷ ys else y ∷ insert_ordered x ys

unfoldable pub order : List OutboxRow → List OutboxRow
order [] = []
order (x ∷ xs) = insert_ordered x (order xs)

-- The rows of `claimable`, at most `batch_size` of them.
unfoldable pub picks : (OutboxRow → Bool) → ℕ → ℕ → List OutboxRow → List OutboxRow
picks skipped now batch_size rows = take batch_size (order (select (claimable skipped now) rows))

-- `SET status = 'publishing', locked_at = …, locked_by = …, attempt_count = attempt_count + 1`
abbrev pub claim_update : ℕ → String → OutboxRow → OutboxRow
claim_update now worker_name r = record r {
  status = OutboxStatus.publishing;
  locked_at = some now;
  locked_by = some worker_name;
  attempt_count = r.attempt_count + 1;
}

-- `WHERE outbox.id = claimable.id`
abbrev pub is_picked : List OutboxRow → OutboxRow → Bool
is_picked chosen r = has (λ c. c.id == r.id) chosen

unfoldable pub claim_outbox_events : (OutboxRow → Bool) → ℕ → String → ℕ → Tx (List OutboxRow)
claim_outbox_events skipped now worker_name batch_size db =
    if ltb batch_size 1 || ltb 1000 batch_size
    then raise (external "batch_size must be in the range 1..1000")
    else ok (
      map (claim_update now worker_name) (picks skipped now batch_size db.outbox),
      record db {
        outbox =
            update_where (is_picked (picks skipped now batch_size db.outbox))
              (claim_update now worker_name) db.outbox;
      },
    )

abbrev is_locked_by : String → Option String → Bool
is_locked_by worker_name none = false
is_locked_by worker_name (some w) = w == worker_name

-- `WHERE id = outbox_id AND status = 'publishing' AND locked_by = worker_name`
abbrev pub is_claimed_by : Uuid → String → OutboxRow → Bool
is_claimed_by outbox_id worker_name r =
    r.id == outbox_id && is_publishing r.status && is_locked_by worker_name r.locked_by

abbrev coalesce : Option ℕ → ℕ → ℕ
coalesce none t = t
coalesce (some t) _ = t

-- The `SET` clause of `rag.complete_outbox_event`.
abbrev pub complete_update : ℕ → Bool → Option String → Option ℕ → OutboxRow → OutboxRow
complete_update now succeeded error_message retry_at r = record r {
  status = if succeeded then OutboxStatus.published else OutboxStatus.failed;
  published_at = if succeeded then some now else none;
  available_at = coalesce retry_at r.available_at;
  last_error = if succeeded then none else error_message;
  locked_at = none;
  locked_by = none;
}

unfoldable pub complete_outbox_event : ℕ → Uuid → String → Bool → Option String → Option ℕ → Tx Unit
complete_outbox_event now outbox_id worker_name succeeded error_message retry_at db =
    if has (is_claimed_by outbox_id worker_name) db.outbox
    then ok (
      tt,
      record db {
        outbox =
            update_where (is_claimed_by outbox_id worker_name)
              (complete_update now succeeded error_message retry_at) db.outbox;
      },
    )
    else raise (external "outbox event is not claimed by worker")
