-- ===== src/Kafka/Answers.antt =====
-- A broker that comes up before the attempts of `ensure_pipeline_topics` end is waited for.
use enterprise_rag_ingestion.Prelude.{
  ℕ, zero, suc, ◌≤◌, ◌<◌, ◌≡◌, ◌≢◌, refl, String, Bool, true, false, not, select, [], ◌∷◌, All, Any,
  Any-map, List, map, has, string_eq, ◌==◌, le→ltb, arith, inl, inr, Bool-cases,
}
use enterprise_rag_ingestion.Exceptions.{ok}
use enterprise_rag_ingestion.Kafka.{
  TopicSpec, pipeline_topic_specs, NewTopic, Admin, finished, unanswered, round, Call, returned,
  kafka_exception, raised, Creation, succeeded, topic_already_exists, refused, settled,
  await_futures, after_create, new_topic, missing, attempt_rounds, ensure_pipeline_topics,
}

module _ (admin : Admin) (partitions replication_factor : ℕ) where
  open admin use {Broker, topics}

  -- Rounds in a row in which the broker does not answer.
  pub data Unanswered : ℕ → Broker → Broker → Type 0 where
    answers_at_once : {b : Broker} → Unanswered 0 b b
    waits :
        {k : ℕ} {b mid b' : Broker} (e : String)
        → admin.list_topics b ≡ (kafka_exception e, mid)
        → Unanswered k mid b'
        → Unanswered (suc k) b b'

  -- A broker that takes every request for topics: no future fails but for a topic that exists.
  pub record IsTaking (b : Broker) : Type 0 where
    pub futures : List NewTopic → List (String × Creation)
    pub returns :
        (new : List NewTopic) → new ≢ [] → (admin.create_topics new b).0 ≡ returned (futures new)
    pub settles : (new : List NewTopic) → All (λ f. settled f.1 ≡ true) (futures new)

  await_futures-settled :
      (futures : List (String × Creation))
      → All (λ f. settled f.1 ≡ true) futures
      → await_futures futures ≡ ok tt
  unfolding await_futures
  await_futures-settled [] h = refl
  await_futures-settled ((name, succeeded) ∷ rest) (h, t) = await_futures-settled rest t
  await_futures-settled ((name, topic_already_exists) ∷ rest) (h, t) = await_futures-settled rest t
  await_futures-settled ((name, refused e) ∷ rest) (h, t) = absurd (cc h)

  map-select :
      (p : TopicSpec → Bool) (f : TopicSpec → NewTopic) (xs : List TopicSpec)
      → Any (λ x. p x ≡ true) xs
      → map f (select p xs) ≢ []
  map-select p f [] nowhere empty = absurd nowhere
  map-select p f (x ∷ xs) (inl here) empty = absurd (cc (rw here at empty))
  map-select p f (x ∷ xs) (inr later) empty = elim (Bool-cases (p x)) [
    | inl hit ↦ absurd (cc (rw hit at empty))
    | inr miss ↦ map-select p f xs later (rw miss at empty)
  ]

  after_create-settled :
      (x : Call (List (String × Creation)) × Broker) (futures : List (String × Creation))
      → x.0 ≡ returned futures
      → All (λ f. settled f.1 ≡ true) futures
      → after_create admin partitions replication_factor x ≡ (finished, x.1)
  after_create-settled (returned fs, b) futures same h =
      let same_futures : fs ≡ futures = ground (arith, same) in
      rw (same_futures, await_futures-settled futures h) refl
  after_create-settled (kafka_exception e, b) futures same h = absurd (cc same)
  after_create-settled (raised e, b) futures same h = absurd (cc same)

  round-answered :
      (b mid : Broker) (names : List String)
      → admin.list_topics b ≡ (returned names, mid)
      → Any (λ (s : TopicSpec). has (λ n. n == s.name) names ≡ false) pipeline_topic_specs
      → IsTaking mid
      → (b' : Broker) × (round admin partitions replication_factor b ≡ (finished, b'))
  unfolding round
  round-answered b mid names listed lacking taking =
      let new =
        map (new_topic admin partitions replication_factor)
          (missing admin partitions replication_factor names) in
      let there : new ≢ [] =
        map-select (λ spec. not (has (λ n. n == spec.name) names))
          (new_topic admin partitions replication_factor) pipeline_topic_specs
          (Any-map _ _ pipeline_topic_specs (λ s absent. rw absent refl) lacking) in
      (
        (admin.create_topics new mid).1,
        rw listed (
            after_create-settled (admin.create_topics new mid) (taking.futures new)
              (taking.returns new there) (taking.settles new)),
      )

  round-unanswered :
      (b mid : Broker) (e : String)
      → admin.list_topics b ≡ (kafka_exception e, mid)
      → round admin partitions replication_factor b ≡ (unanswered e, mid)
  unfolding round
  round-unanswered b mid e silent = rw silent refl

  attempt_rounds-answered :
      (attempts k : ℕ) (b b' b'' : Broker)
      → k < attempts
      → Unanswered k b b'
      → round admin partitions replication_factor b' ≡ (finished, b'')
      → attempt_rounds admin partitions replication_factor attempts b ≡ record {
        result = ok (map (λ (s : TopicSpec). s.name) pipeline_topic_specs);
        sleeps = k;
        broker = b'';
      }
  unfolding attempt_rounds
  attempt_rounds-answered zero k b b' b'' less waiting done = absurd (omega arith)
  attempt_rounds-answered (suc left) k b b' b'' less answers_at_once done = rw done refl
  attempt_rounds-answered (suc zero) k b b' b'' less (waits e first waiting) done =
      absurd (omega arith)
  attempt_rounds-answered (suc (suc left)) k b b' b'' less (waits {k = j} {mid} e first waiting)
        done =
      rw
        (
          round-unanswered b mid e first,
          attempt_rounds-answered (suc left) j mid b' b'' (omega arith) waiting done,
        )
        refl

  -- A broker that does not answer the listing of `k` rounds, fewer than the attempts, then lists topics
  -- among which a declared one is missing, and takes every request for topics, is waited for: for
  -- counts that are positive, `ensure_pipeline_topics` returns the names of all specs after `k`
  -- sleeps.
  pub ensure_pipeline_topics-answered :
      (attempts k : ℕ) (b b' mid : Broker) (names : List String)
      → 1 ≤ partitions
      → 1 ≤ replication_factor
      → k < attempts
      → Unanswered k b b'
      → admin.list_topics b' ≡ (returned names, mid)
      → Any (λ (s : TopicSpec). has (λ n. n == s.name) names ≡ false) pipeline_topic_specs
      → IsTaking mid
      → ((ensure_pipeline_topics admin partitions replication_factor attempts b).result
          ≡ ok (map (λ (s : TopicSpec). s.name) pipeline_topic_specs))
        × ((ensure_pipeline_topics admin partitions replication_factor attempts b).sleeps ≡ k)
  unfolding ensure_pipeline_topics
  ensure_pipeline_topics-answered attempts k b b' mid names p r less waiting listed lacking taking =
      let (b'', done) = round-answered b' mid names listed lacking taking in
      rw
        (
          le→ltb partitions 1 p,
          le→ltb replication_factor 1 r,
          attempt_rounds-answered attempts k b b' b'' less waiting done,
        )
        (refl, refl)
