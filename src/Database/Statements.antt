-- ===== src/Database/Statements.antt =====
-- The SQL statements that the repositories share, with the constraints that they can violate.
-- Every statement names the tenant of its transaction, so row-level security hides no row from it.
use enterprise_rag_ingestion.Prelude.{
  ℕ, String, Bool, true, false, ◌&&◌, ◌||◌, List, [], ◌∷◌, ◌++◌, nat_eq, string_eq, ◌==◌, has,
  update_where, Option, none, some, if◌then◌else◌,
}
use enterprise_rag_ingestion.Json.{text, named, Fields, end, field}
use enterprise_rag_ingestion.Exceptions.{Result, ok, raise, integrity_error, multiple_results}
use enterprise_rag_ingestion.Uuid.{Uuid}
use enterprise_rag_ingestion.Domain.Events.{Event}
use enterprise_rag_ingestion.Database.{
  DocumentStatus, Version, OutboxRow, OutboxStatus, ProcessedEvent, Failure,
}
use enterprise_rag_ingestion.Database.Transaction.{Tx, pure, ◌>>◌}

-- The foreign key to `rag.tenants` of every tenant-owned row.
unfoldable pub check_tenant : Uuid → Tx Unit
check_tenant tenant_id db =
    if has (λ t. t == tenant_id) db.tenants then ok (tt, db) else raise integrity_error

abbrev pub is_processed : Uuid → Uuid → String → ProcessedEvent → Bool
is_processed tenant_id event_id consumer_name r =
    r.tenant_id == tenant_id && r.event_id == event_id && r.consumer_name == consumer_name

unfoldable pub store_processed : ProcessedEvent → Tx Unit
store_processed row db = ok (tt, record db { processed = db.processed ++ row ∷ [] })

-- The insert where no row with the key stands in its way.
unfoldable pub record_event : ProcessedEvent → Tx Bool
record_event row = check_tenant row.tenant_id >> (store_processed row >> pure true)

-- `INSERT INTO rag.processed_events … ON CONFLICT DO NOTHING RETURNING event_id`: false where no row
-- came back.
unfoldable pub claim_event : Uuid → Uuid → String → Tx Bool
claim_event tenant_id event_id consumer_name db =
    if has (is_processed tenant_id event_id consumer_name) db.processed
    then ok (false, db)
    else record_event
        (record { tenant_id = tenant_id; event_id = event_id; consumer_name = consumer_name }) db

-- `UPDATE rag.documents SET status = :status WHERE tenant_id = :tenant_id AND id = :document_id`
unfoldable pub set_document_status : DocumentStatus → Uuid → Uuid → Tx Unit
set_document_status status tenant_id document_id db = ok (
  tt,
  record db {
    documents =
        update_where (λ r. r.tenant_id == tenant_id && r.id == document_id)
          (λ r. record r { status = status }) db.documents;
  },
)

-- `UPDATE rag.document_versions SET … WHERE tenant_id = :tenant_id AND id = :version_id`
unfoldable pub update_version : Uuid → Uuid → (Version → Version) → Tx Unit
update_version tenant_id version_id change db = ok (
  tt,
  record db {
    versions =
        update_where (λ r. r.tenant_id == tenant_id && r.id == version_id) change db.versions;
  },
)

-- `one_or_none()`
unfoldable pub one_or_none {ℓ} : {A : Type ℓ} → List A → Result (Option A)
one_or_none [] = ok none
one_or_none (x ∷ []) = ok (some x)
one_or_none (x ∷ y ∷ rest) = raise multiple_results

-- `INSERT INTO rag.ingestion_outbox …`, under the primary key and `UNIQUE (tenant_id, event_id)`.
abbrev pub clashes : Uuid → Uuid → Uuid → OutboxRow → Bool
clashes id tenant_id event_id r = r.id == id || r.tenant_id == tenant_id && r.event_id == event_id

unfoldable pub store_outbox : OutboxRow → Tx Unit
store_outbox row db =
    if has (clashes row.id row.tenant_id row.event_id) db.outbox
    then raise integrity_error
    else ok (tt, record db { outbox = db.outbox ++ row ∷ [] })

unfoldable pub insert_outbox : OutboxRow → Tx Unit
insert_outbox row = check_tenant row.tenant_id >> store_outbox row

-- The columns that an insert leaves to their defaults: the row's id and the clock.
pub record Defaults : Type 0 where
  pub row_id : Uuid
  pub now : ℕ

-- An outbox row as the inserts write it.
unfoldable pub new_outbox_row :
    Defaults → Uuid → Uuid → String → Uuid → String → String → String → Event → Fields → OutboxRow
new_outbox_row defaults tenant_id event_id aggregate_type aggregate_id event_type kafka_topic
      event_schema_name payload headers =
    record {
      id = defaults.row_id;
      tenant_id = tenant_id;
      event_id = event_id;
      aggregate_type = aggregate_type;
      aggregate_id = aggregate_id;
      event_type = event_type;
      kafka_topic = kafka_topic;
      event_contract_namespace = "rag.ingestion.v1";
      event_schema_name = event_schema_name;
      payload = payload;
      headers = headers;
      status = OutboxStatus.pending;
      attempt_count = 0;
      available_at = defaults.now;
      locked_at = none;
      locked_by = none;
      published_at = none;
      last_error = none;
      created_at = defaults.now;
    }

-- The headers of a handoff: `{"event_type": …, "causation_id": …}`
abbrev pub handoff_headers : String → String → Fields
handoff_headers event_type causation_id =
    field (named "event_type") (text event_type)
      (field (named "causation_id") (text causation_id) end)

-- `INSERT INTO rag.ingestion_failures …`
unfoldable pub store_failure : Failure → Tx Unit
store_failure row db = ok (tt, record db { failures = db.failures ++ row ∷ [] })

unfoldable pub insert_failure : Failure → Tx Unit
insert_failure row = check_tenant row.tenant_id >> store_failure row
