-- ===== src/System/Workers.antt =====
-- The fetcher's loop and the API as histories of the pipeline.
use enterprise_rag_ingestion.Prelude.{
  refl, String, Bool, Option, none, some, List, [], ◌∷◌, string_eq, ◌==◌, Bool-cases, inl, inr,
}
use enterprise_rag_ingestion.Exceptions.{
  Exception, FetchValidationError, Result, ok, raise, fetch_validation,
}
use enterprise_rag_ingestion.Domain.Events.{DocumentSubmitted}
use enterprise_rag_ingestion.Database.{Db}
use enterprise_rag_ingestion.Streams.Copy.{Copied}
use enterprise_rag_ingestion.Storage.{delete}
use enterprise_rag_ingestion.Submission.{create_submission}
use enterprise_rag_ingestion.Fetcher.Inspect.{SourceInspection}
use enterprise_rag_ingestion.Fetcher.Repository.{process}
use enterprise_rag_ingestion.Fetcher.Worker.{
  Tools, Answers, record_result, inspect_source, after_inspection, handle, unexpected_event_type,
  Message, Poll, poll_raised, empty, partition_eof, broker_error, received, Worker, count_poll,
  commit, acknowledge, deliver, round, proceed, run,
}
use enterprise_rag_ingestion.Api.{
  SubmissionResponse, Server, Fresh, Form, Outcome, on_connection, event_of, submission_of, persist,
  compensated, respond, record_upload, store_upload, with_upload, read_upload, submit_document,
}
use enterprise_rag_ingestion.System.{submits, fetches, History, start}
use enterprise_rag_ingestion.System.Processes.{History-trans, Moved, begin-History}

module _ (docling_version : String) (tools : Tools) where
  module _ (answers : Answers tools) where
    record_result-History :
        (payload : DocumentSubmitted) (i : Option SourceInspection)
        (e : Option FetchValidationError) (db : Db)
        → Moved tools.codec docling_version db (record_result tools answers payload i e db)
    unfolding record_result
    record_result-History payload i e db =
        begin-History tools.codec docling_version
          (process tools.codec answers.stamp answers.defaults payload i e) db _ refl
          (λ done db' h. fetches answers.stamp answers.defaults payload i e done h)

    after_inspection-History :
        (payload : DocumentSubmitted) (r : Result SourceInspection) (db : Db)
        → Moved tools.codec docling_version db (after_inspection tools answers payload r db)
    unfolding after_inspection
    after_inspection-History payload (ok i) db = record_result-History payload (some i) none db
    after_inspection-History payload (raise (fetch_validation e)) db =
        record_result-History payload none (some e) db
    after_inspection-History payload (raise _) db = start

    handle-History :
        (payload : DocumentSubmitted) (db : Db)
        → Moved tools.codec docling_version db (handle tools answers payload db)
    unfolding handle
    handle-History payload db = elim (Bool-cases (payload.event_type == "DocumentSubmitted")) [
      | inl expected ↦
          rw expected (after_inspection-History payload (inspect_source tools answers payload) db)
      | inr other ↦ rw other (record_result-History payload none (some unexpected_event_type) db)
    ]

  -- A worker whose database is some history later.
  abbrev Went : Db → Result (Unit {0}) × Worker → Type 0
  Went db x = History tools.codec docling_version db x.1.db

  commit-History :
      (m : Message) (answer : Result (Unit {0})) (db : Db) (w : Worker)
      → History tools.codec docling_version db w.db
      → Went db (commit tools m answer w)
  unfolding commit
  commit-History m (ok u) db w h = h
  commit-History m (raise e) db w h = h

  acknowledge-History :
      (m : Message) (answer : Result (Unit {0})) (db : Db) (x : Result Bool × Db) (w : Worker)
      → Moved tools.codec docling_version db x
      → Went db (acknowledge tools m answer x w)
  unfolding acknowledge
  acknowledge-History m answer db (ok processed, d) w h = commit-History m answer db _ h
  acknowledge-History m answer db (raise e, d) w h = h

  deliver-History :
      (m : Message) (answers : Answers tools) (answer : Result (Unit {0}))
      (payload : Result DocumentSubmitted) (w : Worker)
      → Went w.db (deliver tools m answers answer payload w)
  unfolding deliver
  deliver-History m answers answer (ok payload) w =
      acknowledge-History m answer w.db _ w (handle-History answers payload w.db)
  deliver-History m answers answer (raise e) w = start

  round-History : (poll : Poll tools) (w : Worker) → Went w.db (round tools poll w)
  unfolding round
  round-History (poll_raised e) w = start
  round-History empty w = start
  round-History (broker_error e) w = start
  round-History partition_eof w = start
  round-History (received m answers answer) w =
      deliver-History m answers answer m.payload (count_poll "message" (count_poll "started" w))

  proceed-History :
      (rest : Worker → Result (Unit {0}) × Worker) (db : Db) (x : Result (Unit {0}) × Worker)
      → ((w : Worker) → Went w.db (rest w))
      → Went db x
      → Went db (proceed rest x)
  proceed-History rest db (ok u, w) rests h =
      History-trans tools.codec docling_version db w.db _ h (rests w)
  proceed-History rest db (raise e, w) rests h = h

  -- Whatever the fetcher's loop does to the database, over any number of rounds and whether or not it
  -- ends by an exception, is a history of committed transactions, so that what holds of every history
  -- holds of it.
  pub fetcher-History :
      (polls : List (Poll tools)) (w : Worker)
      → History tools.codec docling_version w.db (run tools polls w).1.db
  unfolding run
  fetcher-History [] w = start
  fetcher-History (poll ∷ rest) w =
      proceed-History (run tools rest) w.db (round tools poll w) (fetcher-History rest)
        (round-History poll w)

module _ (docling_version : String) (server : Server) (fresh : Fresh) (form : Form server fresh)
    (db : Db) where
  open server use {codec, client, bucket, sha256}

  abbrev Served : Outcome server fresh SubmissionResponse → Type 0
  Served x = History codec docling_version db x.1

  persist-History :
      (filename uri : String) (s : Copied) (connect : Result (Unit {0}))
      → Moved codec docling_version db (
          on_connection connect
            (create_submission fresh.defaults
              (submission_of server fresh form filename s uri)
              (event_of server fresh form uri).0
              (event_of server fresh form uri).1)
            db)
  persist-History filename uri s (raise e) = start
  persist-History filename uri s (ok u) =
      begin-History codec docling_version
        (create_submission fresh.defaults (submission_of server fresh form filename s uri)
          (event_of server fresh form uri).0 (event_of server fresh form uri).1)
        db _ refl (λ a db' h. submits fresh.defaults _ _ _ h)

  compensated-History :
      (e : Exception) (x : Result (Unit {0}) × client.Objects) (d : Db)
      → History codec docling_version db d
      → Served (compensated server fresh e x d)
  compensated-History e (ok u, o) d h = h
  compensated-History e (raise x, o) d h = h

  respond-History :
      (key uri : String) (x : Result (Unit {0}) × Db) (o : client.Objects)
      → Moved codec docling_version db x
      → Served (respond server fresh key uri x o)
  unfolding respond delete
  respond-History key uri (ok u, d) o h = h
  respond-History key uri (raise e, d) o h = compensated-History _ _ d h

  record_upload-History :
      (filename key : String) (s : Copied) (x : Result String × client.Objects)
      → Served (record_upload server fresh form filename s key x db)
  unfolding record_upload persist
  record_upload-History filename key s (raise e, o) = start
  record_upload-History filename key s (ok uri, o) =
      respond-History key uri _ o (persist-History filename uri s fresh.connect)

  with_upload-History :
      (x : Result (String × Copied)) (o : client.Objects)
      → Served (with_upload server fresh form x db o)
  unfolding store_upload
  with_upload-History (raise e) o = start
  with_upload-History (ok (filename, s)) o = record_upload-History filename _ s _

  -- Whatever one call of `submit_document` does to the database is a history of committed
  -- transactions.
  pub submit_document-History :
      (o : client.Objects)
      → History codec docling_version db (submit_document server fresh form db o).1
  unfolding submit_document
  submit_document-History o = with_upload-History (read_upload server fresh form) o
