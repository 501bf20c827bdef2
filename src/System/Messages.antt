-- ===== src/System/Messages.antt =====
-- What the pipeline has to say, whatever the state of its delivery: the abstract view of the
-- database, and the steps that it allows.
use enterprise_rag_ingestion.Prelude.{
  ℕ, String, Bool, false, ◌&&◌, ◌||◌, List, [], ◌∷◌, ◌++◌, map, has, nat_eq, string_eq, ◌==◌, ◌≡◌,
}
use enterprise_rag_ingestion.Json.{Fields}
use enterprise_rag_ingestion.Uuid.{Uuid}
use enterprise_rag_ingestion.Domain.Events.{Event}
use enterprise_rag_ingestion.Database.{Db, OutboxRow, ProcessedEvent}
use enterprise_rag_ingestion.Database.Statements.{is_processed}

-- An outbox row without the columns that its delivery changes.
pub record Message : Type 0 where
  pub id : Uuid
  pub tenant_id : Uuid
  pub event_id : Uuid
  pub aggregate_type : String
  pub aggregate_id : Uuid
  pub event_type : String
  pub kafka_topic : String
  pub event_contract_namespace : String
  pub event_schema_name : String
  pub payload : Event
  pub headers : Fields
  pub created_at : ℕ

abbrev pub message_of : OutboxRow → Message
message_of r = record {
  id = r.id;
  tenant_id = r.tenant_id;
  event_id = r.event_id;
  aggregate_type = r.aggregate_type;
  aggregate_id = r.aggregate_id;
  event_type = r.event_type;
  kafka_topic = r.kafka_topic;
  event_contract_namespace = r.event_contract_namespace;
  event_schema_name = r.event_schema_name;
  payload = r.payload;
  headers = r.headers;
  created_at = r.created_at;
}

-- A log of messages, and the events that each consumer is done with.
pub record Log : Type 0 where
  pub messages : List Message
  pub processed : List ProcessedEvent

abbrev pub log_of : Db → Log
log_of db = record { messages = map message_of db.outbox; processed = db.processed }

-- Two messages of one id, or of one event of a tenant.
abbrev pub collides : Message → Message → Bool
collides m n = n.id == m.id || n.tenant_id == m.tenant_id && n.event_id == m.event_id

-- What may happen to a log: nothing, a new message from outside, or a consumer that ends an event
-- which it has not ended before, with one new message.
pub data LogStep : Log → Log → Type 0 where
  stays : {l : Log} → LogStep l l
  enters :
      {l l' : Log} (m : Message)
      → has (collides m) l.messages ≡ false
      → l'.messages ≡ l.messages ++ m ∷ []
      → l'.processed ≡ l.processed
      → LogStep l l'
  hands_over :
      {l l' : Log} (m : Message) (p : ProcessedEvent)
      → has (is_processed p.tenant_id p.event_id p.consumer_name) l.processed ≡ false
      → has (collides m) l.messages ≡ false
      → l'.messages ≡ l.messages ++ m ∷ []
      → l'.processed ≡ l.processed ++ p ∷ []
      → LogStep l l'
