-- ===== src/Kafka/Ensures.antt =====
-- What `ensure_pipeline_topics` guarantees: the topics exist, and those that existed are
-- untouched.
use enterprise_rag_ingestion.Prelude.{
  ℕ, zero, suc, ◌≡◌, refl, ap, String, true, ◌||◌, Option, none, some, List, map, has, string_eq,
  ◌==◌, ltb, arith, inl, inr, Bool-cases,
}
use enterprise_rag_ingestion.Exceptions.{ok}
use enterprise_rag_ingestion.Kafka.{
  TopicSpec, pipeline_topic_specs, NewTopic, is_named, topic, Admin, Round, finished, failed,
  unanswered, round, next, attempt_rounds, ensure_pipeline_topics,
}
use enterprise_rag_ingestion.Kafka.Rounds.{after_list-finished, attempt_rounds-keeps}

-- A topic that was there is there unchanged.
abbrev pub Kept : Option NewTopic → Option NewTopic → Type 0
Kept none after = Unit
Kept (some t) after = after ≡ some t

module _ (admin : Admin) (partitions replication_factor : ℕ) where
  open admin use {Broker, topics}

  next-eq-ok :
      (left : ℕ) (name : String) (names : List String) (x : Round × Broker)
      → (x.0 ≡ finished → has (is_named name) (topics x.1) ≡ true)
      → ((b : Broker)
          → (attempt_rounds admin partitions replication_factor left b).result ≡ ok names
          → (names ≡ map (λ (s : TopicSpec). s.name) pipeline_topic_specs)
            × (has
                  (is_named name)
                  (topics (attempt_rounds admin partitions replication_factor left b).broker)
                ≡ true))
      → (next admin partitions replication_factor left
          (attempt_rounds admin partitions replication_factor left)
          x).result
        ≡ ok names
      → (names ≡ map (λ (s : TopicSpec). s.name) pipeline_topic_specs)
        × (has (is_named name) (
              topics
                (next admin partitions replication_factor left
                  (attempt_rounds admin partitions replication_factor left)
                  x).broker)
            ≡ true)
  next-eq-ok left name names (finished, b) there rest h = (ground arith, there refl)
  next-eq-ok left name names (failed e, b) there rest h = absurd (cc)
  next-eq-ok zero name names (unanswered e, b) there rest h = absurd (cc)
  next-eq-ok (suc left) name names (unanswered e, b) there rest h = rest b h

  round-finished :
      (b : Broker) (name : String)
      → has (λ (s : TopicSpec). s.name == name) pipeline_topic_specs ≡ true
      → (round admin partitions replication_factor b).0 ≡ finished
      → has (is_named name) (topics (round admin partitions replication_factor b).1) ≡ true
  unfolding round
  round-finished b name declared h =
      after_list-finished admin partitions replication_factor b _ name (admin.list_topics b) refl
        (ap (λ r. (r, (round admin partitions replication_factor b).1)) h) declared

  attempt_rounds-eq-ok :
      (attempts : ℕ) (b : Broker) (name : String) (names : List String)
      → has (λ (s : TopicSpec). s.name == name) pipeline_topic_specs ≡ true
      → (attempt_rounds admin partitions replication_factor attempts b).result ≡ ok names
      → (names ≡ map (λ (s : TopicSpec). s.name) pipeline_topic_specs)
        × (has
              (is_named name)
              (topics (attempt_rounds admin partitions replication_factor attempts b).broker)
            ≡ true)
  unfolding attempt_rounds
  attempt_rounds-eq-ok zero b name names declared h = absurd (cc)
  attempt_rounds-eq-ok (suc left) b name names declared h =
      next-eq-ok left name names (round admin partitions replication_factor b)
        (round-finished b name declared)
        (λ mid done. attempt_rounds-eq-ok left mid name names declared done) h

  attempt_rounds-Kept :
      (attempts : ℕ) (b : Broker) (name : String) (found : Option NewTopic)
      → topic name (topics b) ≡ found
      → Kept found (
          topic name
            (topics (attempt_rounds admin partitions replication_factor attempts b).broker))
  attempt_rounds-Kept attempts b name none h = tt
  attempt_rounds-Kept attempts b name (some t) h =
      attempt_rounds-keeps admin partitions replication_factor attempts b name t h

  -- Where `ensure_pipeline_topics` returns, it returns the names of all specs, a topic of each such
  -- name exists at the broker, and a topic of that name that existed before is the same as it was.
  pub ensure_pipeline_topics-eq-ok :
      (attempts : ℕ) (b : Broker) (name : String) (names : List String)
      → has (λ (s : TopicSpec). s.name == name) pipeline_topic_specs ≡ true
      → (ensure_pipeline_topics admin partitions replication_factor attempts b).result ≡ ok names
      → (names ≡ map (λ (s : TopicSpec). s.name) pipeline_topic_specs)
        × (has (is_named name) (
              topics (ensure_pipeline_topics admin partitions replication_factor attempts b).broker)
            ≡ true)
        × Kept (topic name (topics b)) (
            topic name (
              topics
                (ensure_pipeline_topics admin partitions replication_factor attempts b).broker))
  unfolding ensure_pipeline_topics
  ensure_pipeline_topics-eq-ok attempts b name names declared h =
      elim (Bool-cases (ltb partitions 1 || ltb replication_factor 1)) [
        | inl bad ↦ absurd (cc (h, bad))
        | inr good ↦
            let (same, there) =
              attempt_rounds-eq-ok attempts b name names declared (rw good at h) in
            rw good (same, there, attempt_rounds-Kept attempts b name _ refl)
      ]
