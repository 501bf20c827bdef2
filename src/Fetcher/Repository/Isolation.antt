-- ===== src/Fetcher/Repository/Isolation.antt =====
-- A fetch result is written in the rows of its own tenant only.
use enterprise_rag_ingestion.Prelude.{
  String, ◌≡◌, refl, Bool, Option, none, some, true, false, arith,
}
use enterprise_rag_ingestion.Exceptions.{FetchValidationError, ok, ok_unique}
use enterprise_rag_ingestion.Uuid.{Uuid, Codec, uuid}
use enterprise_rag_ingestion.Domain.Events.{DocumentSubmitted, Stamp}
use enterprise_rag_ingestion.Database.{Db, Version}
use enterprise_rag_ingestion.Database.Transaction.{lift}
use enterprise_rag_ingestion.Database.Statements.{Defaults, new_outbox_row}
use enterprise_rag_ingestion.Database.Keeps.{
  Keeps, Keeps-pure, Keeps-throw, Keeps-lift, Keeps-if, Keeps-then, Keeps-bind, Keeps-bind-lift,
}
use enterprise_rag_ingestion.Database.Tenants.{
  others, claim_event-Keeps-others, set_document_status-Keeps-others, update_version-Keeps-others,
  insert_outbox-Keeps-others, insert_failure-Keeps-others,
}
use enterprise_rag_ingestion.Fetcher.Inspect.{SourceInspection}
use enterprise_rag_ingestion.Fetcher.Repository.{
  select_source, verdict, enqueue_failure, reject, accept, accept_inspected, finish, settle,
  process_claimed, process,
}

module _ (codec : Codec) (stamp : Stamp) (defaults : Defaults) (payload : DocumentSubmitted)
    {t : Uuid} (own : uuid codec payload.tenant_id ≡ ok t) where
  enqueue_failure-Keeps-others :
      (e : FetchValidationError) → Keeps (others t) (enqueue_failure codec stamp defaults payload e)
  unfolding enqueue_failure new_outbox_row
  enqueue_failure-Keeps-others e = Keeps-bind-lift _ _ λ tenant_id parsed.
      Keeps-bind _ _ (Keeps-lift _) λ document_id. Keeps-bind _ _ (Keeps-lift _) λ correlation_id.
        Keeps-bind _ _ (Keeps-lift _)
          λ causation_id. insert_outbox-Keeps-others t _ (ok_unique parsed own)

  reject-Keeps-others :
      (document_id version_id received : Uuid) (e : FetchValidationError)
      → Keeps (others t) (reject codec stamp defaults payload t document_id version_id received e)
  unfolding reject
  reject-Keeps-others document_id version_id received e =
      Keeps-then _ _ (update_version-Keeps-others t version_id _ (λ v. refl)) (
        Keeps-then _ _ (set_document_status-Keeps-others t _ document_id) (
          Keeps-then _ _ (insert_failure-Keeps-others t _ refl)
            (Keeps-then _ _ (enqueue_failure-Keeps-others e) (Keeps-pure true))))

  accept-Keeps-others :
      (document_id : Uuid) (v : Version) (received : Uuid) (i : SourceInspection)
      → Keeps (others t) (accept codec stamp defaults payload t document_id v received i)
  unfolding accept new_outbox_row
  accept-Keeps-others document_id v received i =
      Keeps-then _ _ (update_version-Keeps-others t v.id _ (λ w. refl)) (
        Keeps-then _ _ (set_document_status-Keeps-others t _ document_id) (
          Keeps-bind _ _ (Keeps-lift _) λ correlation_id.
            Keeps-then _ _ (insert_outbox-Keeps-others t _ refl) (Keeps-pure true)))

  finish-Keeps-others :
      (document_id : Uuid) (v : Version) (received : Uuid) (i : Option SourceInspection)
      (final : Option FetchValidationError)
      → Keeps (others t) (finish codec stamp defaults payload t document_id v received i final)
  unfolding finish accept_inspected
  finish-Keeps-others document_id v received i (some e) =
      reject-Keeps-others document_id v.id received e
  finish-Keeps-others document_id v received none none = Keeps-throw _
  finish-Keeps-others document_id v received (some i) none =
      accept-Keeps-others document_id v received i

  settle-Keeps-others :
      (document_id received : Uuid) (i : Option SourceInspection) (e : Option FetchValidationError)
      (found : Option Version)
      → Keeps (others t) (settle codec stamp defaults payload t document_id received i e found)
  unfolding settle
  settle-Keeps-others document_id received i e none =
      Keeps-then _ _ (enqueue_failure-Keeps-others _) (Keeps-pure true)
  settle-Keeps-others document_id received i e (some v) =
      finish-Keeps-others document_id v received i (verdict v i e)

  select_source-Keeps-others :
      (document_id : Uuid) (uri : String) → Keeps (others t) (select_source t document_id uri)
  unfolding select_source lift
  select_source-Keeps-others document_id uri = record { at = λ db db' a h. ground arith }

  process_claimed-Keeps-others :
      (document_id received : Uuid) (i : Option SourceInspection) (e : Option FetchValidationError)
      → Keeps (others t) (process_claimed codec stamp defaults payload t document_id received i e)
  unfolding process_claimed
  process_claimed-Keeps-others document_id received i e =
      Keeps-bind _ _ (select_source-Keeps-others document_id payload.payload_uri)
        (settle-Keeps-others document_id received i e)

module _ (codec : Codec) (stamp : Stamp) (defaults : Defaults) (payload : DocumentSubmitted) where
  process-Keeps :
      {t : Uuid} (i : Option SourceInspection) (e : Option FetchValidationError)
      → uuid codec payload.tenant_id ≡ ok t
      → Keeps (others t) (process codec stamp defaults payload i e)
  unfolding process
  process-Keeps {t} i e own = Keeps-bind-lift _ _ λ tenant_id parsed.
      let mine : t ≡ tenant_id = ok_unique own parsed in
      Keeps-bind _ _ (Keeps-lift _) λ document_id. Keeps-bind _ _ (Keeps-lift _) λ received.
        rw mine (
          Keeps-bind _ _ (claim_event-Keeps-others tenant_id received _) λ claimed.
            Keeps-if claimed _ _
              (process_claimed-Keeps-others codec stamp defaults payload parsed document_id received
                i e)
              (Keeps-pure false))

  -- A committed `process` of an event of tenant `t` leaves every row of every other tenant, in every
  -- table, as it was and in its order.
  pub process-Keeps-others :
      {t : Uuid} (i : Option SourceInspection) (e : Option FetchValidationError) (db : Db)
      {db' : Db} {done : Bool}
      → uuid codec payload.tenant_id ≡ ok t
      → process codec stamp defaults payload i e db ≡ ok (done, db')
      → others t db' ≡ others t db
  process-Keeps-others i e db {db'} {done} own committed =
      (process-Keeps i e own).at db db' done committed
