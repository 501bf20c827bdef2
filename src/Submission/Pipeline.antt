-- ===== src/Submission/Pipeline.antt =====
-- What a submission adds, and what it is refused for.
use enterprise_rag_ingestion.Prelude.{
  ◌≡◌, ◌≢◌, refl, inl, inr, true, false, ◌&&◌, some, none, List, [], ◌∷◌, ◌++◌, nat_eq, string_eq,
  ◌==◌, has, ◌⊎◌, All, Any, Any-has, update_where, eq_iff, eq_self, arith,
}
use enterprise_rag_ingestion.Json.{end}
use enterprise_rag_ingestion.Exceptions.{ok, raise, integrity_error}
use enterprise_rag_ingestion.Uuid.{Uuid}
use enterprise_rag_ingestion.Domain.Events.{DocumentSubmitted}
use enterprise_rag_ingestion.Database.{
  Db, Document, DocumentStatus, Version, InspectionStatus, ExtractionStatus,
}
use enterprise_rag_ingestion.Database.Transaction.{◌>>=◌}
use enterprise_rag_ingestion.Database.Statements.{
  Defaults, check_tenant, insert_outbox, store_outbox,
}
use enterprise_rag_ingestion.Submission.{
  Submission, same_document, same_version, document_of, version_of, store_document, store_version,
  set_current_version, create_submission, submission_row,
}

-- The document of a submission: submitted, and with its version as the current one.
abbrev pub submitted_document : Submission → Document
submitted_document s = record {
  id = s.document_id;
  tenant_id = s.tenant_id;
  source_system = "api";
  source_external_id = s.source_external_id;
  title = s.title;
  classification = s.classification;
  status = DocumentStatus.submitted;
  current_version_id = some s.version_id;
  is_deleted = false;
}

-- The version of a submission: the first, pending inspection and extraction.
abbrev pub submitted_version : Submission → Version
submitted_version s = record {
  id = s.version_id;
  tenant_id = s.tenant_id;
  document_id = s.document_id;
  version_number = 1;
  content_sha256 = s.content_sha256;
  source_object_uri = s.source_object_uri;
  normalized_object_uri = none;
  mime_type = s.mime_type;
  byte_size = s.byte_size;
  extraction_config = end;
  extraction_metadata = end;
  detected_mime_type = none;
  inspection_status = InspectionStatus.pending;
  inspection_metadata = end;
  extraction_status = ExtractionStatus.pending;
  extraction_manifest_uri = none;
  is_deleted = false;
}

-- What a committed submission added, and that it changed nothing else.
pub record Submitted (defaults : Defaults) (s : Submission) (event_id : Uuid)
    (payload : DocumentSubmitted) (db db' : Db) : Type 0 where
  pub known : has (λ x. x == s.tenant_id) db.tenants ≡ true
  pub tenants : db'.tenants ≡ db.tenants
  pub documents : db'.documents ≡ db.documents ++ submitted_document s ∷ []
  pub versions : db'.versions ≡ db.versions ++ submitted_version s ∷ []
  pub outbox : db'.outbox ≡ db.outbox ++ submission_row defaults s event_id payload ∷ []
  pub processed : db'.processed ≡ db.processed
  pub failures : db'.failures ≡ db.failures

-- An update of the new document changes no other: its id is new.
update_where-new :
    (d : Document) (f : Document → Document) (xs : List Document)
    → has (same_document d) xs ≡ false
    → update_where (λ r. r.tenant_id == d.tenant_id && r.id == d.id) f (xs ++ d ∷ [])
      ≡ xs ++ f d ∷ []
update_where-new d f [] new = rw (eq_self d.tenant_id, eq_self d.id) refl
update_where-new d f (x ∷ xs) new = ground (arith, update_where-new d f xs)

pub create_submission-Submitted :
    (defaults : Defaults) (s : Submission) (event_id : Uuid) (payload : DocumentSubmitted)
    (db db' : Db)
    → create_submission defaults s event_id payload db ≡ ok (tt, db')
    → Submitted defaults s event_id payload db db'
unfolding create_submission check_tenant store_document store_version set_current_version
    insert_outbox store_outbox ◌>>=◌ submission_row
create_submission-Submitted defaults s event_id payload db db' h =
    let updated =
      update_where-new (document_of s) (λ r. record r { current_version_id = some s.version_id })
        db.documents in
    record {
      known = ground arith;
      tenants = ground arith;
      documents = ground (arith, updated);
      versions = ground arith;
      outbox = ground arith;
      processed = ground arith;
      failures = ground arith;
    }

-- A document with the id of the submission's, or of the same tenant and external id.
abbrev pub TakesDocument : Submission → Document → Type 0
TakesDocument s r =
    (r.id ≡ s.document_id)
    ⊎ ((r.tenant_id ≡ s.tenant_id)
        × (r.source_system ≡ "api")
        × (r.source_external_id ≡ s.source_external_id))

-- A version with the id of the submission's, of the same tenant and document with the number 1, or of
-- the same tenant and checksum.
abbrev pub TakesVersion : Submission → Version → Type 0
TakesVersion s r =
    (r.id ≡ s.version_id)
    ⊎ (((r.tenant_id ≡ s.tenant_id) × (r.document_id ≡ s.document_id) × (r.version_number ≡ 1))
        ⊎ ((r.tenant_id ≡ s.tenant_id) × (r.content_sha256 ≡ s.content_sha256)))

-- What the constraints refuse a submission for.
abbrev pub Refused : Submission → Db → Type 0
Refused s db =
    All (λ t. t ≢ s.tenant_id) db.tenants
    ⊎ (Any (TakesDocument s) db.documents ⊎ Any (TakesVersion s) db.versions)

All-unknown : (t : Uuid) (xs : List Uuid) → All (λ x. x ≢ t) xs → has (λ x. x == t) xs ≡ false
All-unknown t [] h = refl
All-unknown t (x ∷ xs) (other, h) = ground (arith, All-unknown t xs h)

TakesDocument-same_document :
    (s : Submission) (r : Document) → TakesDocument s r → same_document (document_of s) r ≡ true
TakesDocument-same_document s r (inl same) = rw (same, eq_self s.document_id) refl
TakesDocument-same_document s r (inr (tenant, system, external)) =
    let t = (eq_iff r.tenant_id s.tenant_id).1 tenant in
    let y = (eq_iff r.source_system "api").1 system in
    let e = (eq_iff r.source_external_id s.source_external_id).1 external in ground (arith, t, y, e)

TakesVersion-same_version :
    (s : Submission) (r : Version) → TakesVersion s r → same_version (version_of s) r ≡ true
TakesVersion-same_version s r (inl same) = rw (same, eq_self s.version_id) refl
TakesVersion-same_version s r (inr (inl (tenant, document, number))) =
    ground (arith, tenant, document, number)
TakesVersion-same_version s r (inr (inr (tenant, checksum))) =
    let t = (eq_iff r.tenant_id s.tenant_id).1 tenant in
    let c = (eq_iff r.content_sha256 s.content_sha256).1 checksum in ground (arith, t, c)

refused-raise :
    (defaults : Defaults) (s : Submission) (event_id : Uuid) (payload : DocumentSubmitted) (db : Db)
    → (has (λ x. x == s.tenant_id) db.tenants ≡ false)
      ⊎ ((has (same_document (document_of s)) db.documents ≡ true)
          ⊎ (has (same_version (version_of s)) db.versions ≡ true))
    → create_submission defaults s event_id payload db ≡ raise integrity_error
unfolding create_submission check_tenant store_document store_version ◌>>=◌
refused-raise defaults s event_id payload db h = ground arith

-- Where no tenant has the submission's tenant id, or some document has its document id, or its tenant,
-- the source system `api` and its external id, or some version has its version id, or its tenant, its
-- document and the number 1, or its tenant and its checksum, the submission raises an integrity error.
pub create_submission-raise :
    (defaults : Defaults) (s : Submission) (event_id : Uuid) (payload : DocumentSubmitted) (db : Db)
    → Refused s db
    → create_submission defaults s event_id payload db ≡ raise integrity_error
create_submission-raise defaults s event_id payload db (inl unknown) =
    refused-raise defaults s event_id payload db (inl (All-unknown s.tenant_id db.tenants unknown))
create_submission-raise defaults s event_id payload db (inr (inl taken)) =
    refused-raise defaults s event_id payload db
      (inr (inl (Any-has _ _ db.documents (TakesDocument-same_document s) taken)))
create_submission-raise defaults s event_id payload db (inr (inr taken)) =
    refused-raise defaults s event_id payload db
      (inr (inr (Any-has _ _ db.versions (TakesVersion-same_version s) taken)))
