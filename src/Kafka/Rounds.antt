-- ===== src/Kafka/Rounds.antt =====
-- What a round of `ensure_pipeline_topics` leaves at the broker: the topics of a finished round exist,
-- and no round changes a topic that is there.
use enterprise_rag_ingestion.Prelude.{
  ℕ, zero, suc, ◌≡◌, refl, sym, ap, subst, ◌⊎◌, inl, inr, String, true, not, some, List, [], ◌∷◌,
  map, has, select, nat_eq, string_eq, ◌==◌, eq_iff, arith, Bool-cases,
}
use enterprise_rag_ingestion.Exceptions.{Result, ok, raise}
use enterprise_rag_ingestion.Kafka.{
  TopicSpec, pipeline_topic_specs, NewTopic, Creation, succeeded, topic_already_exists, refused,
  Call, returned, kafka_exception, raised, is_named, topic, is_settled, Admin, await_futures, Round,
  finished, failed, unanswered, new_topic, missing, awaited, after_create, after_list, round, next,
  attempt_rounds,
}

-- A topic that exists is the first of its name.
has-topic :
    (name : String) (ts : List NewTopic)
    → has (is_named name) ts ≡ true
    → (t : NewTopic) × (topic name ts ≡ some t)
has-topic name [] h = absurd (cc)
has-topic name (t ∷ ts) h = elim (Bool-cases (t.name == name)) [
  | inl hit ↦ (t, rw hit refl)
  | inr miss ↦ let (u, at) = has-topic name ts (ground arith) in (u, rw miss at)
]

topic-has :
    (name : String) (ts : List NewTopic) (t : NewTopic)
    → topic name ts ≡ some t
    → has (is_named name) ts ≡ true
topic-has name [] t h = cc
topic-has name (u ∷ ts) t h = ground (arith, topic-has name ts t)

-- Where all futures are awaited without a refusal, each has settled.
await-settled :
    (futures : List (String × Creation)) (name : String)
    → await_futures futures ≡ ok tt
    → has (λ f. f.0 == name) futures ≡ true
    → has (is_settled name) futures ≡ true
unfolding await_futures
await-settled [] name h there = cc
await-settled ((n, succeeded) ∷ rest) name h there = ground (arith, await-settled rest name h)
await-settled ((n, topic_already_exists) ∷ rest) name h there =
    ground (arith, await-settled rest name h)
await-settled ((n, refused e) ∷ rest) name h there = cc

module _ (admin : Admin) (partitions replication_factor : ℕ) where
  open admin use {Broker, topics, list_topics, create_topics}

  -- A spec is listed, or is asked for.
  listed-or_missing :
      (existing : List String) (name : String) (specs : List TopicSpec)
      → has (λ (s : TopicSpec). s.name == name) specs ≡ true
      → (has (λ n. n == name) existing ≡ true)
        ⊎ (has (is_named name) (
              map
                (new_topic admin partitions replication_factor)
                (select (λ (s : TopicSpec). not (has (λ n. n == s.name) existing)) specs))
            ≡ true)
  listed-or_missing existing name [] h = absurd (cc)
  listed-or_missing existing name (s ∷ specs) h =
      elim (Bool-cases (has (λ n. n == s.name) existing)) [
        | inl known ↦ elim (Bool-cases (s.name == name)) [
          | inl hit ↦
              inl
                (subst (λ m. has (λ n. n == m) existing ≡ true) ((eq_iff s.name name).0 hit) known)
          | inr other ↦ rw known (listed-or_missing existing name specs (ground arith))
        ]
        | inr new ↦ elim (Bool-cases (s.name == name)) [
          | inl hit ↦ inr (rw (new, hit) refl)
          | inr other ↦ elim (listed-or_missing existing name specs (ground arith)) [
            | inl known ↦ inl known
            | inr asked ↦ inr (rw (new, other, asked) refl)
          ]
        ]
      ]

  awaited-finished :
      (r : Result (Unit {0})) → awaited admin partitions replication_factor r ≡ finished → r ≡ ok tt
  awaited-finished (ok u) h = refl
  awaited-finished (raise e) h = cc

  after_create-finished :
      (y : Call (List (String × Creation)) × Broker) (b' : Broker)
      → after_create admin partitions replication_factor y ≡ (finished, b')
      → (futures : List (String × Creation)) × (y ≡ (returned futures, b'))
        × (await_futures futures ≡ ok tt)
  after_create-finished (kafka_exception e, p) b' h =
      absurd (cc (ap (λ (q : Round × Broker). q.0) h))
  after_create-finished (raised e, p) b' h = absurd (cc (ap (λ (q : Round × Broker). q.0) h))
  after_create-finished (returned futures, p) b' h = (
    futures,
    ap (λ q. (returned futures, q)) (ap (λ (q : Round × Broker). q.1) h),
    awaited-finished (await_futures futures) (ap (λ (q : Round × Broker). q.0) h),
  )

  -- What is there after the calls of a finished round.
  created-exists :
      (existing : List String) (m b' : Broker) (name : String)
      → has (is_named name) (topics m) ≡ true
        ⊎ (has (is_named name) (
              map
                (new_topic admin partitions replication_factor)
                (missing admin partitions replication_factor existing))
            ≡ true)
      → after_create admin partitions replication_factor (
          create_topics
            (map
              (new_topic admin partitions replication_factor)
              (missing admin partitions replication_factor existing))
            m)
        ≡ (finished, b')
      → has (is_named name) (topics b') ≡ true
  created-exists existing m b' name (inl there) h =
      let new =
        map (new_topic admin partitions replication_factor)
          (missing admin partitions replication_factor existing) in
      let (futures, same, done) = after_create-finished (create_topics new m) b' h in
      let (t, at) = has-topic name (topics m) there in
      subst (λ q. has (is_named name) (topics q) ≡ true)
        (ap (λ (q : Call (List (String × Creation)) × Broker). q.1) same)
        (topic-has name (topics (create_topics new m).1) t (admin.create_keeps new m name t at))
  created-exists existing m b' name (inr asked) h =
      let new =
        map (new_topic admin partitions replication_factor)
          (missing admin partitions replication_factor existing) in
      let (futures, same, done) = after_create-finished (create_topics new m) b' h in
      let answered = ap (λ (q : Call (List (String × Creation)) × Broker). q.0) same in
      subst (λ q. has (is_named name) (topics q) ≡ true)
        (ap (λ (q : Call (List (String × Creation)) × Broker). q.1) same)
        (admin.created new m futures name answered
          (await-settled futures name done (admin.asked new m futures name answered asked)))

  pub after_list-finished :
      (b b' : Broker) (name : String) (x : Call (List String) × Broker)
      → list_topics b ≡ x
      → after_list admin partitions replication_factor x ≡ (finished, b')
      → has (λ (s : TopicSpec). s.name == name) pipeline_topic_specs ≡ true
      → has (is_named name) (topics b') ≡ true
  after_list-finished b b' name (kafka_exception e, m) seen h declared =
      absurd (cc (ap (λ (q : Round × Broker). q.0) h))
  after_list-finished b b' name (raised e, m) seen h declared =
      absurd (cc (ap (λ (q : Round × Broker). q.0) h))
  after_list-finished b b' name (returned existing, m) seen h declared =
      created-exists existing m b' name
        (elim (listed-or_missing existing name pipeline_topic_specs declared) [
          | inl known ↦ inl (
              subst (λ q. has (is_named name) (topics q) ≡ true)
                (ap (λ (q : Call (List String) × Broker). q.1) seen)
                (admin.listed b existing name (ap (λ (q : Call (List String) × Broker). q.0) seen)
                  known))
          | inr asked ↦ inr asked
        ])
        h

  -- Every round leaves the topics that it found.
  after_create-keeps :
      (y : Call (List (String × Creation)) × Broker)
      → (after_create admin partitions replication_factor y).1 ≡ y.1
  after_create-keeps (kafka_exception e, p) = refl
  after_create-keeps (raised e, p) = refl
  after_create-keeps (returned futures, p) = refl

  after_list-keeps :
      (name : String) (t : NewTopic) (x : Call (List String) × Broker)
      → topic name (topics x.1) ≡ some t
      → topic name (topics (after_list admin partitions replication_factor x).1) ≡ some t
  after_list-keeps name t (kafka_exception e, m) h = h
  after_list-keeps name t (raised e, m) h = h
  after_list-keeps name t (returned existing, m) h =
      subst (λ q. topic name (topics q) ≡ some t) (sym (after_create-keeps _))
        (admin.create_keeps _ m name t h)

  round-keeps :
      (b : Broker) (name : String) (t : NewTopic)
      → topic name (topics b) ≡ some t
      → topic name (topics (round admin partitions replication_factor b).1) ≡ some t
  unfolding round
  round-keeps b name t h = after_list-keeps name t (list_topics b) (admin.list_keeps b name t h)

  next-keeps :
      (left : ℕ) (name : String) (t : NewTopic) (x : Round × Broker)
      → topic name (topics x.1) ≡ some t
      → ((b : Broker)
          → topic name (topics b) ≡ some t
          → topic name (topics (attempt_rounds admin partitions replication_factor left b).broker)
            ≡ some t)
      → topic name (
          topics
            (next admin partitions replication_factor left
              (attempt_rounds admin partitions replication_factor left)
              x).broker)
        ≡ some t
  next-keeps left name t (finished, b) h rest = h
  next-keeps left name t (failed e, b) h rest = h
  next-keeps zero name t (unanswered e, b) h rest = h
  next-keeps (suc left) name t (unanswered e, b) h rest = rest b h

  pub attempt_rounds-keeps :
      (attempts : ℕ) (b : Broker) (name : String) (t : NewTopic)
      → topic name (topics b) ≡ some t
      → topic name (topics (attempt_rounds admin partitions replication_factor attempts b).broker)
        ≡ some t
  unfolding attempt_rounds
  attempt_rounds-keeps zero b name t h = h
  attempt_rounds-keeps (suc left) b name t h =
      next-keeps left name t (round admin partitions replication_factor b) (round-keeps b name t h)
        (λ mid there. attempt_rounds-keeps left mid name t there)
