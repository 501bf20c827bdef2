-- ===== src/Tests/Declaring.antt =====
-- The topic bootstrap at a broker that holds one topic and answers in its second round.
use enterprise_rag_ingestion.Prelude.{
  ℕ, zero, suc, String, ◌≡◌, refl, sym, ◌∙◌, ap, subst, true, ◌||◌, some, List, [], ◌∷◌, map, has,
  All, Any, false, inl, inr, string_eq, ◌==◌, arith,
}
use mathlib.Core.List.{◌++◌}
use enterprise_rag_ingestion.Exceptions.{ok}
use enterprise_rag_ingestion.Domain.Topics.{document_submitted, retry_topic, dead_letter_topic}
use enterprise_rag_ingestion.Kafka.{
  TopicSpec, pipeline_topic_specs, NewTopic, Creation, succeeded, Call, returned, kafka_exception,
  raised, is_named, settled, topic, is_settled, Admin, await_futures, round, attempt_rounds,
  ensure_pipeline_topics,
}
use enterprise_rag_ingestion.Kafka.Ensures.{Kept, ensure_pipeline_topics-eq-ok}
use enterprise_rag_ingestion.Kafka.Answers.{
  IsTaking, answers_at_once, waits, ensure_pipeline_topics-answered,
}

-- The rounds that the broker misses, and its topics.
abbrev Broker : Type 0
Broker = ℕ × List NewTopic

abbrev list : Broker → Call (List String) × Broker
list (zero, ts) = (returned (map (λ (t : NewTopic). t.name) ts), (zero, ts))
list (suc n, ts) = (kafka_exception "no broker", (n, ts))

abbrev create : List NewTopic → Broker → Call (List (String × Creation)) × Broker
create new (n, ts) = (returned (map (λ (t : NewTopic). (t.name, succeeded)) new), (n, ts ++ new))

listed_names :
    (ts : List NewTopic) (name : String)
    → has (λ n. n == name) (map (λ (t : NewTopic). t.name) ts) ≡ has (is_named name) ts
listed_names [] name = refl
listed_names (t ∷ ts) name = ap (◌||◌ (t.name == name)) (listed_names ts name)

created_names :
    (ts : List NewTopic) (name : String)
    → has (λ (f : String × Creation). f.0 == name) (map (λ (t : NewTopic). (t.name, succeeded)) ts)
      ≡ has (is_named name) ts
created_names [] name = refl
created_names (t ∷ ts) name = ap (◌||◌ (t.name == name)) (created_names ts name)

settled_names :
    (ts : List NewTopic) (name : String)
    → has (is_settled name) (map (λ (t : NewTopic). (t.name, succeeded)) ts)
      ≡ has (is_named name) ts
settled_names [] name = refl
settled_names (t ∷ ts) name = ground (arith, settled_names ts name)

has-behind :
    (ts new : List NewTopic) (name : String)
    → has (is_named name) new ≡ true
    → has (is_named name) (ts ++ new) ≡ true
has-behind [] new name h = h
has-behind (t ∷ ts) new name h = ground (arith, has-behind ts new name h)

topic-before :
    (ts new : List NewTopic) (name : String) (t : NewTopic)
    → topic name ts ≡ some t
    → topic name (ts ++ new) ≡ some t
topic-before [] new name t h = cc
topic-before (u ∷ ts) new name t h = ground (arith, topic-before ts new name t)

returned_same : {A : Type 0} {x y : A} → Path (Call A) (returned x) (returned y) → x ≡ y
returned_same {A} {x} {y} h = ap content h
  where
    content : Call A → A
    content (returned a) = a
    content (kafka_exception e) = x
    content (raised e) = x

listed_there :
    (b : Broker) (names : List String) (name : String)
    → (list b).0 ≡ returned names
    → has (λ n. n == name) names ≡ true
    → has (is_named name) (list b).1.1 ≡ true
listed_there (zero, ts) names name h there =
    sym (listed_names ts name)
    ∙ subst (λ ns. has (λ n. n == name) ns ≡ true) (sym (returned_same h)) there
listed_there (suc n, ts) names name h there = cc

list_keeps :
    (b : Broker) (name : String) (t : NewTopic)
    → topic name b.1 ≡ some t
    → topic name (list b).1.1 ≡ some t
list_keeps (zero, ts) name t h = h
list_keeps (suc n, ts) name t h = h

abbrev admin : Admin
admin = record {
  Broker = Broker;
  topics = λ b. b.1;
  list_topics = list;
  create_topics = create;
  listed = listed_there;
  asked = λ new b futures name h there.
      subst (λ fs. has (λ (f : String × Creation). f.0 == name) fs ≡ true) (returned_same h)
        (created_names new name ∙ there);
  created = λ new b futures name h there. has-behind b.1 new name (
      sym (settled_names new name)
      ∙ subst (λ fs. has (is_settled name) fs ≡ true) (sym (returned_same h)) there);
  list_keeps = list_keeps;
  create_keeps = λ new b name t h. topic-before b.1 new name t h;
}

abbrev old : NewTopic
old = record { name = document_submitted; num_partitions = 6; replication_factor = 3; config = [] }

abbrev broker : Broker
broker = (1, old ∷ [])

abbrev names : List String
names = map (λ (s : TopicSpec). s.name) pipeline_topic_specs

ensured : (ensure_pipeline_topics admin 1 1 2 broker).result ≡ ok names
unfolding ensure_pipeline_topics attempt_rounds round await_futures pipeline_topic_specs retry_topic
    dead_letter_topic
ensured = refl

ensure_pipeline_topics-eq-ok_example :
    (names ≡ names)
    × (has (is_named document_submitted) (ensure_pipeline_topics admin 1 1 2 broker).broker.1
        ≡ true)
    × Kept
        (some old)
        (topic document_submitted (ensure_pipeline_topics admin 1 1 2 broker).broker.1)
unfolding pipeline_topic_specs retry_topic dead_letter_topic
ensure_pipeline_topics-eq-ok_example =
    ensure_pipeline_topics-eq-ok admin 1 1 2 broker document_submitted names refl ensured

abbrev up : Broker
up = (0, old ∷ [])

-- The broker's topics lack the second spec.
lacking :
    Any
      (λ (s : TopicSpec). has (λ n. n == s.name) (document_submitted ∷ []) ≡ false)
      pipeline_topic_specs
unfolding pipeline_topic_specs
lacking = inr (inl refl)

futures_settle :
    (new : List NewTopic)
    → All
        (λ (f : String × Creation). settled f.1 ≡ true)
        (map (λ (t : NewTopic). (t.name, succeeded)) new)
futures_settle [] = tt
futures_settle (t ∷ new) = (refl, futures_settle new)

up-IsTaking : IsTaking admin 1 1 up
up-IsTaking = record {
  futures = λ new. map (λ (t : NewTopic). (t.name, succeeded)) new;
  returns = λ new there. refl;
  settles = futures_settle;
}

ensure_pipeline_topics-answered_example :
    ((ensure_pipeline_topics admin 1 1 2 broker).result ≡ ok names)
    × ((ensure_pipeline_topics admin 1 1 2 broker).sleeps ≡ 1)
ensure_pipeline_topics-answered_example =
    ensure_pipeline_topics-answered admin 1 1 2 1 broker up up (document_submitted ∷ [])
      (omega arith) (omega arith) (omega arith) (waits "no broker" refl answers_at_once) refl
      lacking up-IsTaking
