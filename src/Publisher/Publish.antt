-- ===== src/Publisher/Publish.antt =====
-- `OutboxPublisher` of workers/outbox_publisher.py. What Kafka, fastavro and the connection answer
-- is an argument.
pub mod Settled
pub mod Batch
pub mod Delay
use Prim.Native.String.{◌++◌ as ◌+++◌}
use enterprise_rag_ingestion.Prelude.{
  ℕ, ◌^◌, ◌+◌, min, String, Bool, true, false, Option, none, some, List, [], ◌∷◌, ◌++◌, length,
  nat_eq, string_eq, ◌==◌, if◌then◌else◌, ◌&&◌,
}
use enterprise_rag_ingestion.Json.{Value, Fields, end, field, key_text}
use enterprise_rag_ingestion.Exceptions.{
  Exception, value_error, runtime_error, Result, ok, raise, ◌>>=◌,
}
use enterprise_rag_ingestion.Uuid.{Uuid, Codec}
use enterprise_rag_ingestion.Domain.Events.{
  Event, DocumentSubmitted, DocumentFetched, DocumentFetchRejected, ContentExtracted,
  ContentExtractionRejected,
}
use enterprise_rag_ingestion.Database.{OutboxRow, Db}
use enterprise_rag_ingestion.Database.Transaction.{begin}
use enterprise_rag_ingestion.Publisher.Outbox.{claim_outbox_events, complete_outbox_event}

-- The file that an entry of `EVENT_SCHEMA_FILES` names.
abbrev lookup : String → String → List (String × String × String) → Option String
lookup namespace name [] = none
lookup namespace name ((n, s, file) ∷ rest) =
    if n == namespace && s == name then some file else lookup namespace name rest

abbrev event_schema_files : List (String × String × String)
event_schema_files =
    ("rag.ingestion.v1", "document-submitted", "document-submitted.avsc")
    ∷ ("rag.ingestion.v1", "document-fetched", "document-fetched.avsc")
    ∷ ("rag.ingestion.v1", "document-fetch-rejected", "document-fetch-rejected.avsc")
    ∷ ("rag.ingestion.v1", "content-extracted", "content-extracted.avsc")
    ∷ ("rag.ingestion.v1", "content-extraction-rejected", "content-extraction-rejected.avsc")
    ∷ []

-- `a or b` where `a` is what `dict.get` finds: a missing key, a null and the empty text are falsy.
abbrev or_else : Option String → Option String → Option String
or_else none other = other
or_else (some s) other = if s == "" then other else some s

abbrev or_text : Option String → String → String
or_text found other = elim (or_else found (some other)) [ none ↦ other | some s ↦ s ]

abbrev schema_name_of : Option String → Result String
schema_name_of none = raise value_error
schema_name_of (some s) = if s == "" then raise value_error else ok s

-- `_resolve_contract_metadata`, of an event that `get` looks up.
unfoldable pub resolve_contract_metadata : (String → Option String) → Result (String × String)
resolve_contract_metadata get =
    schema_name_of (or_else (get "event_schema_name") (get "schema_artifact_id")) >>= λ schema_name.
    ok (
      or_text (or_else (get "event_contract_namespace") (get "schema_group_id")) "rag.ingestion.v1",
      schema_name,
    )

-- `event.get`, for the columns of a claimed row that the contract's metadata may stand in.
unfoldable pub contract_column : OutboxRow → String → Option String
contract_column row name =
    if name == "event_contract_namespace"
    then some row.event_contract_namespace
    else if name == "event_schema_name"
    then some row.event_schema_name
    else none

abbrev or_value_error : Option String → Result String
or_value_error none = raise value_error
or_value_error (some file) = ok file

-- `_serializer`, by the schema file that it reads.
unfoldable pub serializer : String → String → Result String
serializer contract_namespace schema_name =
    or_value_error (lookup contract_namespace schema_name event_schema_files)

unfoldable pub schema_version : Event → String
schema_version (Event.submitted e) = e.schema_version
schema_version (Event.fetched e) = e.schema_version
schema_version (Event.fetch_rejected e) = e.schema_version
schema_version (Event.extracted e) = e.schema_version
schema_version (Event.extraction_rejected e) = e.schema_version

-- What is handed to `Producer.produce`. A header's text stands for its bytes.
pub record Record : Type 0 where
  pub topic : String
  pub key : String
  pub value : List ℕ
  pub headers : List (String × String)

-- fastavro's writer for a schema file, `str` of a header's value, and the text form of UUIDs.
pub record Encoder : Type 0 where
  pub serialize : String → Event → Result (List ℕ)
  pub str : Value → String
  pub codec : Codec

unfoldable pub kafka_headers : (Value → String) → Fields → List (String × String)
kafka_headers str end = []
kafka_headers str (field k v rest) = (key_text k, str v) ∷ kafka_headers str rest

-- `_publish_event`, up to the call of `produce`.
unfoldable pub record_of : Encoder → OutboxRow → Result Record
record_of encoder row =
    resolve_contract_metadata (contract_column row) >>= λ (contract_namespace, schema_name).
    serializer contract_namespace schema_name >>= λ schema_file.
    encoder.serialize schema_file row.payload >>= λ value. ok (record {
      topic = row.kafka_topic;
      key = encoder.codec.str row.tenant_id +++ ":" +++ encoder.codec.str row.aggregate_id;
      value = value;
      headers =
          kafka_headers encoder.str row.headers
          ++ ("content-type", "application/vnd.apache.avro.binary")
            ∷ ("event-contract-namespace", contract_namespace)
            ∷ ("event-schema-name", schema_name)
            ∷ ("schema-version", schema_version row.payload)
            ∷ [];
    })

-- What one event meets: what `produce` raises, the messages that `flush` leaves outstanding, the
-- clock of the two completions, and what opening their connections raises. `message` is
-- `str(error)[:4000]`, the text that the failed completion stores.
pub record Delivery : Type 0 where
  pub produce : Record → Result (Unit {0})
  pub outstanding : ℕ
  pub connect : Result (Unit {0})
  pub now : ℕ
  pub reconnect : Result (Unit {0})
  pub later : ℕ
  pub message : Exception → String

unfoldable pub publish_event : Encoder → Delivery → OutboxRow → Result (Unit {0})
publish_event encoder delivery row = record_of encoder row >>= λ message.
    delivery.produce message >>= λ _.
    if delivery.outstanding == 0 then ok tt else raise (runtime_error "Kafka delivery timed out.")

-- `min(300, 2 ** min(int(event["attempt_count"]), 8))`
unfoldable pub retry_delay : ℕ → ℕ
retry_delay attempt_count = min 300 (2 ^ min attempt_count 8)

-- `_complete`
abbrev pub complete :
    Result (Unit {0})
    → ℕ
    → Uuid
    → String
    → Bool
    → Option String
    → Option ℕ
    → Db
    → Result (Unit {0}) × Db
complete (raise e) now id worker succeeded message retry_at db = (raise e, db)
complete (ok _) now id worker succeeded message retry_at db =
    begin (complete_outbox_event now id worker succeeded message retry_at) db

module _ (encoder : Encoder) (worker_name : String) where
  -- The `except` branch.
  unfoldable pub fail : Delivery → OutboxRow → Exception → Db → Result (Unit {0}) × Db
  fail delivery row e db =
      complete delivery.reconnect delivery.later row.id worker_name false
        (some (delivery.message e)) (some (delivery.later + retry_delay row.attempt_count)) db

  abbrev pub rescue : Delivery → OutboxRow → Result (Unit {0}) × Db → Result (Unit {0}) × Db
  rescue delivery row (ok _, db) = (ok tt, db)
  rescue delivery row (raise e, db) = fail delivery row e db

  abbrev pub complete_published :
      Delivery → OutboxRow → Result (Unit {0}) → Db → Result (Unit {0}) × Db
  complete_published delivery row (ok _) db =
      complete delivery.connect delivery.now row.id worker_name true none none db
  complete_published delivery row (raise e) db = (raise e, db)

  -- One event of a batch.
  unfoldable pub publish_row : Delivery → OutboxRow → Db → Result (Unit {0}) × Db
  publish_row delivery row db =
      rescue delivery row (complete_published delivery row (publish_event encoder delivery row) db)

  abbrev pub proceed :
      (Db → Result (Unit {0}) × Db) → Result (Unit {0}) × Db → Result (Unit {0}) × Db
  proceed rest (ok _, db) = rest db
  proceed rest (raise e, db) = (raise e, db)

  unfoldable pub publish_rows :
      (OutboxRow → Delivery) → List OutboxRow → Db → Result (Unit {0}) × Db
  publish_rows deliveries [] db = (ok tt, db)
  publish_rows deliveries (row ∷ rest) db =
      proceed (publish_rows deliveries rest) (publish_row (deliveries row) row db)

  abbrev pub counted : ℕ → Result (Unit {0}) × Db → Result ℕ × Db
  counted n (ok _, db) = (ok n, db)
  counted n (raise e, db) = (raise e, db)

  abbrev pub publish_claimed : (OutboxRow → Delivery) → Result (List OutboxRow) × Db → Result ℕ × Db
  publish_claimed deliveries (raise e, db) = (raise e, db)
  publish_claimed deliveries (ok rows, db) = counted (length rows) (publish_rows deliveries rows db)

  -- `publish_batch`: the claim commits before the first event is published.
  unfoldable pub publish_batch :
      (OutboxRow → Bool) → ℕ → ℕ → (OutboxRow → Delivery) → Db → Result ℕ × Db
  publish_batch skipped now batch_size deliveries db =
      publish_claimed deliveries (begin (claim_outbox_events skipped now worker_name batch_size) db)
