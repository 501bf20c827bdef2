-- ===== src/Kafka.antt =====
-- Topic declarations and their idempotent creation: infrastructure/kafka_topics.py. The admin client
-- is an interface.
pub mod Rounds
pub mod Ensures
pub mod Answers
use Prim.Native.String.{◌++◌}
use enterprise_rag_ingestion.Prelude.{
  ℕ, zero, suc, ◌*◌, ◌≤◌, ◌≡◌, ◌⊎◌, String, Bool, true, false, not, ◌||◌, Option, none, some, List,
  [], ◌∷◌, map, has, select, string_eq, ◌==◌, ltb, if◌then◌else◌,
}
use mathlib.Core.List.{◌++◌ as ◌+++◌}
use enterprise_rag_ingestion.Exceptions.{
  Exception, runtime_error, value_error, external, Result, ok, raise,
}
use enterprise_rag_ingestion.Texts.{decimal}
use enterprise_rag_ingestion.Domain.Topics.{
  document_submitted, document_fetched, content_extracted, chunks_created, embeddings_generated,
  document_indexed, retry_topic, dead_letter_topic,
}

pub record TopicSpec : Type 0 where
  pub name : String
  pub retention_ms : ℕ

-- `TopicSpec.config`
abbrev pub config : TopicSpec → List (String × String)
config spec = ("cleanup.policy", "delete") ∷ ("retention.ms", decimal spec.retention_ms) ∷ []

abbrev pub event_retention_ms : ℕ
event_retention_ms = 7 * 24 * 60 * 60 * 1000

abbrev pub retry_retention_ms : ℕ
retry_retention_ms = 24 * 60 * 60 * 1000

abbrev pub dlq_retention_ms : ℕ
dlq_retention_ms = 30 * 24 * 60 * 60 * 1000

abbrev pub pipeline_stages : List String
pipeline_stages = "document-fetcher" ∷ "content-extractor" ∷ "chunker" ∷ "embedder" ∷ "indexer" ∷ []

abbrev event_topics : List String
event_topics =
    document_submitted ∷ document_fetched ∷ content_extracted ∷ chunks_created
    ∷ embeddings_generated ∷ document_indexed ∷ []

abbrev spec_of : ℕ → String → TopicSpec
spec_of retention_ms name = record { name = name; retention_ms = retention_ms }

unfoldable pub pipeline_topic_specs : List TopicSpec
pipeline_topic_specs =
    map (spec_of event_retention_ms) event_topics
    +++ map (λ stage. spec_of retry_retention_ms (retry_topic stage)) pipeline_stages
    +++ map (λ stage. spec_of dlq_retention_ms (dead_letter_topic stage)) pipeline_stages

-- What `create_topics` is asked for.
pub record NewTopic : Type 0 where
  pub name : String
  pub num_partitions : ℕ
  pub replication_factor : ℕ
  pub config : List (String × String)

-- The outcome of a future: it returns, or raises a `KafkaException` of a code.
pub data Creation : Type 0 where
  succeeded topic_already_exists : Creation
  refused : String → Creation

-- A call that may raise a `KafkaException`, or another exception.
pub data Call (A : Type 0) : Type 0 where
  returned : A → Call A
  kafka_exception : String → Call A
  raised : Exception → Call A

abbrev pub is_named : String → NewTopic → Bool
is_named name t = t.name == name

-- The first topic of a name.
abbrev pub topic : String → List NewTopic → Option NewTopic
topic name [] = none
topic name (t ∷ rest) = let found = topic name rest in if t.name == name then some t else found

-- Whether a future of the name came back as created or as there already.
abbrev pub settled : Creation → Bool
settled succeeded = true
settled topic_already_exists = true
settled (refused code) = false

abbrev pub is_settled : String → String × Creation → Bool
is_settled name (n, c) = if n == name then settled c else false

-- `AdminClient` at a broker: its topics, and the calls, which may see other clients at work.
pub record Admin : Type 1 where
  pub Broker : Type 0
  pub topics : Broker → List NewTopic
  pub list_topics : Broker → Call (List String) × Broker
  pub create_topics : List NewTopic → Broker → Call (List (String × Creation)) × Broker
  -- A listed topic exists.
  pub listed :
      (b : Broker) (names : List String) (name : String)
      → (list_topics b).0 ≡ returned names
      → has (λ n. n == name) names ≡ true
      → has (is_named name) (topics (list_topics b).1) ≡ true
  -- A topic that is asked for has a future.
  pub asked :
      (new : List NewTopic) (b : Broker) (futures : List (String × Creation)) (name : String)
      → (create_topics new b).0 ≡ returned futures
      → has (is_named name) new ≡ true
      → has (λ f. f.0 == name) futures ≡ true
  -- A topic whose future settled exists.
  pub created :
      (new : List NewTopic) (b : Broker) (futures : List (String × Creation)) (name : String)
      → (create_topics new b).0 ≡ returned futures
      → has (is_settled name) futures ≡ true
      → has (is_named name) (topics (create_topics new b).1) ≡ true
  -- Neither call changes a topic that exists.
  pub list_keeps :
      (b : Broker) (name : String) (t : NewTopic)
      → topic name (topics b) ≡ some t
      → topic name (topics (list_topics b).1) ≡ some t
  pub create_keeps :
      (new : List NewTopic) (b : Broker) (name : String) (t : NewTopic)
      → topic name (topics b) ≡ some t
      → topic name (topics (create_topics new b).1) ≡ some t

-- The loop over the futures.
unfoldable pub await_futures : List (String × Creation) → Result (Unit {0})
await_futures [] = ok tt
await_futures ((name, succeeded) ∷ rest) = await_futures rest
await_futures ((name, topic_already_exists) ∷ rest) = await_futures rest
await_futures ((name, refused error) ∷ rest) =
    raise (runtime_error ("Unable to create Kafka topic '" ++ name ++ "': " ++ error))

-- What one round of the retry loop comes to.
pub data Round : Type 0 where
  finished : Round
  failed : Exception → Round
  unanswered : String → Round

module _ (admin : Admin) (partitions replication_factor : ℕ) where
  open admin use {Broker, list_topics, create_topics}

  abbrev pub new_topic : TopicSpec → NewTopic
  new_topic spec = record {
    name = spec.name;
    num_partitions = partitions;
    replication_factor = replication_factor;
    config = config spec;
  }

  -- The specs of no listed name.
  abbrev pub missing : List String → List TopicSpec
  missing existing = select (λ spec. not (has (λ n. n == spec.name) existing)) pipeline_topic_specs

  abbrev pub awaited : Result (Unit {0}) → Round
  awaited (ok _) = finished
  awaited (raise e) = failed e

  abbrev pub after_create : Call (List (String × Creation)) × Broker → Round × Broker
  after_create (kafka_exception e, b) = (unanswered e, b)
  after_create (raised e, b) = (failed e, b)
  after_create (returned futures, b) = (awaited (await_futures futures), b)

  abbrev pub after_list : Call (List String) × Broker → Round × Broker
  after_list (kafka_exception e, b) = (unanswered e, b)
  after_list (raised e, b) = (failed e, b)
  after_list (returned existing, b) =
      after_create (create_topics (map new_topic (missing existing)) b)

  -- The body of the `try`.
  unfoldable pub round : Broker → Round × Broker
  round b = after_list (list_topics b)

  -- A result, the calls of `sleep(2)`, and the broker.
  pub record Ensured : Type 0 where
    pub result : Result (List String)
    pub sleeps : ℕ
    pub broker : Broker

  abbrev pub slept : Ensured → Ensured
  slept e = record e { sleeps = suc e.sleeps }

  -- What follows a round with `left` attempts to go.
  abbrev pub next : ℕ → (Broker → Ensured) → Round × Broker → Ensured
  next left again (finished, b) = record {
    result = ok (map (λ s. s.name) pipeline_topic_specs);
    sleeps = 0;
    broker = b;
  }
  next left again (failed e, b) = record { result = raise e; sleeps = 0; broker = b }
  next zero again (unanswered e, b) = record { result = raise (external e); sleeps = 0; broker = b }
  next (suc left) again (unanswered e, b) = slept (again b)

  unfoldable pub attempt_rounds : ℕ → Broker → Ensured
  attempt_rounds zero b = record {
    result = raise (runtime_error "Kafka topic bootstrap unexpectedly exhausted its retry loop.");
    sleeps = 0;
    broker = b;
  }
  attempt_rounds (suc left) b = next left (attempt_rounds left) (round b)

  unfoldable pub ensure_pipeline_topics : ℕ → Broker → Ensured
  ensure_pipeline_topics attempts b =
      if ltb partitions 1 || ltb replication_factor 1
      then record { result = raise value_error; sleeps = 0; broker = b }
      else attempt_rounds attempts b
