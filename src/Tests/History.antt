-- ===== src/Tests/History.antt =====
-- Histories of the whole pipeline: a submission, a fetch and an extraction with the deliveries after
-- them.
use enterprise_rag_ingestion.Prelude.{
  ◌≡◌, ◌≤◌, ◌⊎◌, ◌+◌, Any, refl, true, false, none, some, List, All, [], ◌∷◌, map, arith,
}
use enterprise_rag_ingestion.Exceptions.{ok}
use enterprise_rag_ingestion.Database.{Db, OutboxRow, OutboxStatus}
use enterprise_rag_ingestion.Publisher.Outbox.{
  claim_update, claim_outbox_events, complete_outbox_event, picks, order, insert_ordered,
}
use enterprise_rag_ingestion.Publisher.Outbox.Rows.{find}
use enterprise_rag_ingestion.Fetcher.Repository.{process}
use enterprise_rag_ingestion.Fetcher.Worker.{unexpected_event_type}
use enterprise_rag_ingestion.Extractor.Repository.{unknown_document_version, complete, reject}
use enterprise_rag_ingestion.System.{Step, submits, claims, completes, History, start, then}
use enterprise_rag_ingestion.System.Messages.{message_of, log_of, LogStep}
use enterprise_rag_ingestion.System.Refines.{Step-refines}
use enterprise_rag_ingestion.System.Invariants.{IsKeyed, History-IsKeyed}
use enterprise_rag_ingestion.System.Rows.{Moves}
use enterprise_rag_ingestion.System.Delivery.{History-keeps_row, History-published}
use enterprise_rag_ingestion.System.Once.{History-process_once, History-complete_once}
use enterprise_rag_ingestion.System.Routes.{IsRouted, History-AllRouted}
use enterprise_rag_ingestion.System.Isolation.{owned, IsForeign, AllForeign, History-owned}
use enterprise_rag_ingestion.Publisher.Loop.Growth.{IsPublished}
use enterprise_rag_ingestion.Publisher.Loop.Sent.{WasSent, run-IsPublished}
use enterprise_rag_ingestion.Publisher.Loop.{Batch, Publisher, finish_poll, poll, run}
use enterprise_rag_ingestion.Publisher.Publish.{
  publish_batch, publish_rows, publish_row, publish_event, record_of, resolve_contract_metadata,
  contract_column, serializer, kafka_headers, schema_version,
}
use enterprise_rag_ingestion.Tests.Fetching.{answers, message, worker}
use enterprise_rag_ingestion.Tests.Codec.{codec}
use enterprise_rag_ingestion.Tests.Data.{
  stamp, later, defaults, submitted, fetched, db, db_of, document,
}
use enterprise_rag_ingestion.Tests.Publishing.{
  queued, claimed, held, claim-commits, waiting, published, encoder, delivery,
}
use enterprise_rag_ingestion.Tests.Submitting.{submission, bare, after, submission-commits}
use enterprise_rag_ingestion.Submission.{
  create_submission, store_document, store_version, set_current_version, submission_row,
}
use enterprise_rag_ingestion.Database.Transaction.{◌>>=◌}
use enterprise_rag_ingestion.Database.Statements.{
  check_tenant, insert_outbox, store_outbox, new_outbox_row,
}
use enterprise_rag_ingestion.Domain.Events.{build_document_submitted_event}
use enterprise_rag_ingestion.Submission.Fetchable.{event_of}
use enterprise_rag_ingestion.Tests.Fetching as Fetching
use enterprise_rag_ingestion.Tests.Extracting as Extracting

submitting : Step codec "2.0" bare after
submitting =
    submits defaults submission (event_of codec submission stamp).0
      (event_of codec submission stamp).1 submission-commits

Step-refines_example : LogStep (log_of bare) (log_of after)
Step-refines_example = Step-refines codec "2.0" bare after submitting

bare-IsKeyed : IsKeyed (log_of bare)
bare-IsKeyed = record { messages = tt; processed = tt }

History-IsKeyed_example : IsKeyed (log_of after)
History-IsKeyed_example =
    History-IsKeyed codec "2.0" bare after (then start submitting) bare-IsKeyed

queued-IsKeyed : IsKeyed (log_of queued)
queued-IsKeyed = record { messages = (refl, (refl, (refl, tt))); processed = tt }

abbrev completed : Db
completed = db_of (complete_outbox_event 210 7 "a" true none none claimed) claimed

completion-commits : complete_outbox_event 210 7 "a" true none none claimed ≡ ok (tt, completed)
unfolding complete_outbox_event claim_outbox_events picks order insert_ordered
completion-commits = refl

delivered : History codec "2.0" queued completed
delivered =
    then (then start (claims (λ r. false) 200 "a" 1 held claim-commits))
      (completes 210 7 "a" true none none completion-commits)

History-keeps_row_example :
    (r' : OutboxRow) × (find 7 completed.outbox ≡ some r')
    × Moves waiting r'
    × (message_of r' ≡ message_of waiting)
    × (waiting.attempt_count ≤ r'.attempt_count)
unfolding find
History-keeps_row_example =
    History-keeps_row codec "2.0" 7 waiting queued completed queued-IsKeyed delivered refl

History-published_example : find 9 completed.outbox ≡ some published
unfolding find
History-published_example =
    History-published codec "2.0" 9 published queued completed queued-IsKeyed delivered refl refl

-- The claim of what a transaction has handed over.
abbrev claim_after : Db → Db
claim_after before = db_of (claim_outbox_events (λ r. false) 300 "a" 5 before) before

abbrev taken_after : Db → List OutboxRow
taken_after before = map (claim_update 300 "a") (picks (λ r. false) 300 5 before.outbox)

claims_after :
    (before : Db)
    → claim_outbox_events (λ r. false) 300 "a" 5 before
      ≡ ok (taken_after before, claim_after before)
unfolding claim_outbox_events
claims_after before = refl

claiming : (before : Db) → History codec "2.0" before (claim_after before)
claiming before =
    then start (claims (λ r. false) 300 "a" 5 (taken_after before) (claims_after before))

History-process_once_example :
    process codec later defaults submitted none
      (some unexpected_event_type)
      (claim_after Fetching.after)
    ≡ ok (false, claim_after Fetching.after)
History-process_once_example =
    History-process_once codec "2.0" stamp later defaults defaults submitted
      (some Fetching.inspection) none none (some unexpected_event_type) db Fetching.after
      (claim_after Fetching.after) true Fetching.process-commits (claiming Fetching.after)

History-complete_once_example :
    (complete codec "2.0" later defaults fetched Extracting.result "s3://b/normalized"
        "s3://b/manifest"
        (claim_after Extracting.completed)
      ≡ ok (false, claim_after Extracting.completed))
    × (reject codec "2.0" later defaults fetched unknown_document_version
          (claim_after Extracting.completed)
        ≡ ok (false, claim_after Extracting.completed))
History-complete_once_example =
    History-complete_once codec "2.0" stamp later defaults defaults fetched Extracting.result
      Extracting.result "s3://a/normalized" "s3://a/manifest" "s3://b/normalized" "s3://b/manifest"
      unknown_document_version db Extracting.completed (claim_after Extracting.completed) true
      Extracting.complete-commits (claiming Extracting.completed)

History-AllRouted_example : All IsRouted after.outbox
History-AllRouted_example = History-AllRouted codec "2.0" bare after (then start submitting) tt

abbrev publisher : Publisher
publisher = record { db = queued; polls = []; sleeps = 0 }

abbrev batch : Batch
batch = record { skipped = λ r. false; now = 200; deliveries = λ r. delivery }

seven-IsPublished : IsPublished 7 (run encoder "a" 10 (batch ∷ []) publisher).1.db
unfolding run poll finish_poll publish_batch publish_rows publish_row publish_event record_of
    resolve_contract_metadata contract_column serializer kafka_headers schema_version
    claim_outbox_events picks order insert_ordered complete_outbox_event find
seven-IsPublished = (
  record waiting {
    status = OutboxStatus.published;
    attempt_count = waiting.attempt_count + 1;
    published_at = some 210;
    last_error = none;
  },
  refl,
  refl,
)

run-IsPublished_example :
    IsPublished 7 queued ⊎ Any (λ (b : Batch). WasSent encoder b.deliveries 7) (batch ∷ [])
run-IsPublished_example = run-IsPublished encoder "a" 10 (batch ∷ []) publisher 7 seven-IsPublished

-- Another tenant has a document of the same name.
abbrev neighbour : Db
neighbour = record bare { documents = record document { tenant_id = 8 } ∷ [] }

abbrev joined : Db
joined =
    db_of
      (create_submission defaults submission (event_of codec submission stamp).0
        (event_of codec submission stamp).1 neighbour)
      neighbour

joining-commits :
    create_submission defaults submission
      (event_of codec submission stamp).0
      (event_of codec submission stamp).1
      neighbour
    ≡ ok (tt, joined)
unfolding create_submission check_tenant store_document store_version set_current_version
    insert_outbox store_outbox ◌>>=◌ submission_row new_outbox_row build_document_submitted_event
joining-commits = refl

abbrev joining : History codec "2.0" neighbour joined
joining = then start (
    submits defaults submission (event_of codec submission stamp).0
      (event_of codec submission stamp).1 joining-commits)

History-owned_example : owned 8 joined ≡ owned 8 neighbour
unfolding AllForeign IsForeign
History-owned_example =
    History-owned codec "2.0" 8 joining (tt, λ same. absurd (omega (arith, same)))
