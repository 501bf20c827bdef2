-- ===== src/Tests/Publishing.antt =====
-- The publisher on an outbox of three rows: one is published, and two wait.
use enterprise_rag_ingestion.Prelude.{
  ◌≡◌, ◌≤◌, ◌⊎◌, refl, false, none, List, [], ◌∷◌, nat_eq, ◌==◌, has, All, length, arith,
}
use enterprise_rag_ingestion.Json.{end}
use enterprise_rag_ingestion.Exceptions.{ok}
use enterprise_rag_ingestion.Domain.Events.{Event}
use enterprise_rag_ingestion.Domain.Topics.{document_submitted}
use enterprise_rag_ingestion.Database.{Db, OutboxRow, OutboxStatus}
use enterprise_rag_ingestion.Publisher.Outbox.{
  claim_outbox_events, claim_update, picks, order, insert_ordered,
}
use enterprise_rag_ingestion.Publisher.Outbox.Eligible.{Pairwise, ClaimStep, ClaimsAll}
use enterprise_rag_ingestion.Publisher.Outbox.Claims.{
  claim_outbox_events-ClaimStep, claim_outbox_events-exclusive,
}
use enterprise_rag_ingestion.Publisher.Publish.{Encoder, Delivery, retry_delay, publish_batch}
use enterprise_rag_ingestion.Publisher.Publish.Batch.{BatchSettled, publish_batch-settles}
use enterprise_rag_ingestion.Tests.Codec.{codec}
use enterprise_rag_ingestion.Tests.Data.{submitted, db, db_of}

abbrev pub waiting : OutboxRow
waiting = record {
  id = 7;
  tenant_id = 1;
  event_id = 4;
  aggregate_type = "document";
  aggregate_id = 2;
  event_type = "DocumentSubmitted";
  kafka_topic = document_submitted;
  event_contract_namespace = "rag.ingestion.v1";
  event_schema_name = "document-submitted";
  payload = Event.submitted submitted;
  headers = end;
  status = OutboxStatus.pending;
  attempt_count = 0;
  available_at = 100;
  locked_at = none;
  locked_by = none;
  published_at = none;
  last_error = none;
  created_at = 100;
}

abbrev pub published : OutboxRow
published = record waiting { id = 9; event_id = 8; status = OutboxStatus.published }

abbrev waiting_too : OutboxRow
waiting_too = record waiting { id = 11; event_id = 10; available_at = 150 }

abbrev pub queued : Db
queued = record db { outbox = published ∷ waiting ∷ waiting_too ∷ [] }

abbrev pub claimed : Db
claimed = db_of (claim_outbox_events (λ r. false) 200 "a" 1 queued) queued

abbrev pub held : List OutboxRow
held = claim_update 200 "a" waiting ∷ []

pub claim-commits : claim_outbox_events (λ r. false) 200 "a" 1 queued ≡ ok (held, claimed)
unfolding claim_outbox_events picks order insert_ordered
claim-commits = refl

abbrev held_too : List OutboxRow
held_too = claim_update 900 "b" waiting_too ∷ []

abbrev claimed_again : Db
claimed_again = db_of (claim_outbox_events (λ r. false) 900 "b" 1 claimed) claimed

claim-commits_again :
    claim_outbox_events (λ r. false) 900 "b" 1 claimed ≡ ok (held_too, claimed_again)
unfolding claim_outbox_events picks order insert_ordered
claim-commits_again = refl

claim_outbox_events-ClaimStep_example :
    Pairwise (ClaimStep (λ r. false) 200 "a") queued.outbox claimed.outbox
    × (length held ≤ 1)
    × ((length held ≡ 1) ⊎ Pairwise (ClaimsAll (λ r. false) 200 "a") queued.outbox claimed.outbox)
claim_outbox_events-ClaimStep_example =
    claim_outbox_events-ClaimStep (λ r. false) 200 "a" 1 queued claimed held
      (refl, (refl, (refl, tt))) claim-commits

claim_outbox_events-exclusive_example : All (λ r. has (λ c. c.id == r.id) held ≡ false) held_too
claim_outbox_events-exclusive_example =
    claim_outbox_events-exclusive (λ r. false) (λ r. false) 200 900 "a" "b" 1 1 queued claimed
      claimed_again held held_too claim-commits claim-commits_again

abbrev pub encoder : Encoder
encoder = record { serialize = λ file event. ok (1 ∷ 2 ∷ []); str = λ value. ""; codec = codec }

-- Kafka takes the message.
abbrev pub delivery : Delivery
delivery = record {
  produce = λ message. ok tt;
  outstanding = 0;
  connect = ok tt;
  now = 210;
  reconnect = ok tt;
  later = 220;
  message = λ e. "";
}

publish_batch-settles_example :
    BatchSettled encoder "a"
      (λ r. delivery)
      200
      (picks (λ r. false) 200 10 queued.outbox)
      queued
      (publish_batch encoder "a" (λ r. false) 200 10 (λ r. delivery) queued)
publish_batch-settles_example =
    publish_batch-settles encoder "a" (λ r. delivery) (λ r. false) 200 10 queued (λ r. refl)
      (refl, (refl, (refl, tt))) (omega arith) (omega arith)

retry_delay-third : (retry_delay 3 ≡ 8) × (retry_delay 30 ≡ 256)
unfolding retry_delay
retry_delay-third = (refl, refl)
