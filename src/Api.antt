-- ===== src/Api.antt =====
-- The HTTP API of interfaces/api.py: `submit_document` and the middleware before it. A request comes
-- parsed by FastAPI; a raised exception goes to the handlers outside.
pub mod Creates
pub mod Fails
pub mod Conflicts
use Prim.Native.String.{◌++◌}
use enterprise_rag_ingestion.Prelude.{
  ℕ, suc, ◌*◌, String, Bool, false, ◌&&◌, Option, none, some, List, [], ◌∷◌, string_eq, ◌==◌, ltb,
  if◌then◌else◌,
}
use enterprise_rag_ingestion.Exceptions.{
  Exception, http_exception, integrity_error, Result, ok, raise, ◌>>=◌,
}
use enterprise_rag_ingestion.Uuid.{Uuid, Codec}
use enterprise_rag_ingestion.Domain.Events.{
  DocumentSubmitted, Stamp, build_document_submitted_event,
}
use enterprise_rag_ingestion.Database.{Db}
use enterprise_rag_ingestion.Database.Transaction.{Tx, begin}
use enterprise_rag_ingestion.Database.Statements.{Defaults}
use enterprise_rag_ingestion.Texts.{decimal}
use enterprise_rag_ingestion.Streams.{Reader}
use enterprise_rag_ingestion.Streams.Copy.{Copied, copy_start, copy}
use enterprise_rag_ingestion.Storage.{Client, source_object_key, put, delete}
use enterprise_rag_ingestion.Submission.{Submission, create_submission}

abbrev pub chunk_size : ℕ
chunk_size = 1024 * 1024

-- The body of a 201.
pub record SubmissionResponse : Type 0 where
  pub document_id : Uuid
  pub document_version_id : Uuid
  pub event_id : Uuid
  pub status : String
  pub source_object_uri : String

-- What the application is built with.
pub record Server : Type 1 where
  pub codec : Codec
  pub reader : Reader
  pub client : Client
  pub bucket : String
  pub api_max_upload_bytes : ℕ
  pub sha256 : List ℕ → String

-- What one call draws: two `uuid4()`, the event's stamp, the outbox row's defaults, and the
-- connection of its transaction.
pub record Fresh : Type 0 where
  pub document_id : Uuid
  pub version_id : Uuid
  pub stamp : Stamp
  pub defaults : Defaults
  pub connect : Result (Unit {0})

-- A missing text and the empty text are falsy.
abbrev or_text : Option String → String → String
or_text none other = other
or_text (some s) other = if s == "" then other else s

abbrev pub filename_required : Exception
filename_required = http_exception 422 "A filename is required."

abbrev pub upload_too_large : ℕ → Exception
upload_too_large max_bytes =
    http_exception 413
      ("Upload exceeds the configured maximum of " ++ decimal max_bytes ++ " bytes.")

abbrev pub storage_unavailable : Exception
storage_unavailable = http_exception 503 "Source object storage is unavailable."

abbrev pub already_exists : Exception
already_exists =
    http_exception 409 "A document with this source_external_id already exists for the tenant."

-- `if not file.filename`
abbrev pub named_file : Option String → Result String
named_file none = raise filename_required
named_file (some s) = if s == "" then raise filename_required else ok s

-- A transaction, on a connection that may be refused.
abbrev pub on_connection : Result (Unit {0}) → Tx Unit → Db → Result (Unit {0}) × Db
on_connection (raise e) m db = (raise e, db)
on_connection (ok _) m db = begin m db

module _ (server : Server) (fresh : Fresh) where
  open server use {codec, reader, client, bucket, api_max_upload_bytes, sha256}

  -- The form of one call.
  pub record Form : Type 0 where
    pub filename : Option String
    pub content_type : Option String
    pub file : reader.Body
    pub x_tenant_id : Uuid
    pub title : Option String
    pub classification : String
    pub source_external_id : Option String

  -- A result, with the database and the objects that it leaves.
  abbrev pub Outcome : Type 0 → Type 0
  Outcome A = Result A × Db × client.Objects

  -- The loop over the upload.
  unfoldable pub spool : reader.Body → Result Copied
  spool file =
      let first = reader.read chunk_size file in
      copy reader chunk_size (upload_too_large api_max_upload_bytes)
        (suc (suc api_max_upload_bytes)) api_max_upload_bytes first.0 first.1 copy_start

  abbrev pub mime_type_of : Form → String
  mime_type_of form = or_text form.content_type "application/octet-stream"

  -- The event of the submission.
  abbrev pub event_of : Form → String → Uuid × DocumentSubmitted
  event_of form source_uri =
      build_document_submitted_event codec fresh.stamp form.x_tenant_id fresh.document_id source_uri
        none

  -- The arguments of `create_submission`.
  abbrev pub submission_of : Form → String → Copied → String → Submission
  submission_of form filename s source_uri = record {
    tenant_id = form.x_tenant_id;
    document_id = fresh.document_id;
    version_id = fresh.version_id;
    source_external_id = or_text form.source_external_id (codec.str fresh.document_id);
    title = some (or_text form.title filename);
    classification = form.classification;
    content_sha256 = sha256 s.hashed;
    source_object_uri = source_uri;
    mime_type = mime_type_of form;
    byte_size = s.total;
  }

  -- `repository.create_submission`, on its connection.
  unfoldable pub persist : Form → String → Copied → String → Db → Result (Unit {0}) × Db
  persist form filename s source_uri = on_connection fresh.connect (
      create_submission fresh.defaults (submission_of form filename s source_uri)
        (event_of form source_uri).0 (event_of form source_uri).1)

  -- The compensation, which ends by the first exception or by its own.
  abbrev pub compensated :
      Exception → Result (Unit {0}) × client.Objects → Db → Outcome SubmissionResponse
  compensated e (ok _, o) db = (raise e, db, o)
  compensated e (raise e', o) db = (raise e', db, o)

  -- What the `except` clauses raise: an `IntegrityError` is answered by 409.
  abbrev pub answered : Exception → Exception
  answered integrity_error = already_exists
  answered e = e

  -- What follows the transaction.
  unfoldable pub respond :
      String → String → Result (Unit {0}) × Db → client.Objects → Outcome SubmissionResponse
  respond key source_uri (ok _, db) o = (
    ok (record {
      document_id = fresh.document_id;
      document_version_id = fresh.version_id;
      event_id = fresh.stamp.event_id;
      status = "submitted";
      source_object_uri = source_uri;
    }),
    db,
    o,
  )
  respond key source_uri (raise e, db) o = compensated (answered e) (delete client bucket key o) db

  -- What follows the upload to the object store.
  unfoldable pub record_upload :
      Form
      → String
      → Copied
      → String
      → Result String × client.Objects
      → Db
      → Outcome SubmissionResponse
  record_upload form filename s key (raise e, o) db = (raise storage_unavailable, db, o)
  record_upload form filename s key (ok source_uri, o) db =
      respond key source_uri (persist form filename s source_uri db) o

  -- What follows the loop over the upload.
  unfoldable pub store_upload :
      Form → String → Copied → Db → client.Objects → Outcome SubmissionResponse
  store_upload form filename s db o =
      let key = source_object_key codec form.x_tenant_id fresh.document_id filename in
      record_upload form filename s key
        (put client bucket key s.written (mime_type_of form) (sha256 s.hashed) o) db

  abbrev pub with_upload :
      Form → Result (String × Copied) → Db → client.Objects → Outcome SubmissionResponse
  with_upload form (raise e) db o = (raise e, db, o)
  with_upload form (ok (filename, s)) db o = store_upload form filename s db o

  -- The upload once its name and its bytes are read.
  abbrev pub read_upload : Form → Result (String × Copied)
  read_upload form =
      named_file form.filename >>= λ filename. spool form.file >>= λ s. ok (filename, s)

  unfoldable pub submit_document : Form → Db → client.Objects → Outcome SubmissionResponse
  submit_document form db o = with_upload form (read_upload form) db o

-- What the middleware reads of a request; `content_length` is `none` where the header is missing or
-- is not all digits.
pub record Request : Type 0 where
  pub method : String
  pub path : String
  pub content_length : Option ℕ

pub data Response : Type 0 where
  created : SubmissionResponse → Response
  failed : ℕ → String → Response

abbrev pub status_code : Response → ℕ
status_code (created r) = 201
status_code (failed n d) = n

-- FastAPI answers an `HTTPException`; any other exception goes through the middleware.
abbrev pub response_of : Result SubmissionResponse → Result Response
response_of (ok r) = ok (created r)
response_of (raise (http_exception n d)) = ok (failed n d)
response_of (raise e) = raise e

abbrev exceeds : ℕ → Option ℕ → Bool
exceeds limit none = false
exceeds limit (some n) = ltb limit n

-- The middleware's test of a request before its body is read.
abbrev pub is_declared_too_large : ℕ → Request → Bool
is_declared_too_large limit request =
    request.method == "POST"
    && request.path == "/v1/documents"
    && exceeds limit request.content_length

-- `unhandled_exception`, outside the middleware.
abbrev pub handled : Result Response → Response
handled (ok response) = response
handled (raise e) = failed 500 "Internal server error."

-- `record_http_request`: the method and the status code of a response that reached the middleware.
abbrev pub recorded : String → Result Response → List (String × ℕ)
recorded method (ok response) = (method, status_code response) ∷ []
recorded method (raise e) = []

-- A response, with the counted requests, and the database and the objects that it leaves.
module _ (server : Server) (fresh : Fresh) where
  pub record Answer : Type 0 where
    pub response : Response
    pub requests : List (String × ℕ)
    pub db : Db
    pub objects : server.client.Objects

  abbrev pub answer : String → Outcome server fresh Response → Answer
  answer method (r, db, o) = record {
    response = handled r;
    requests = recorded method r;
    db = db;
    objects = o;
  }

  abbrev pub with_response : Outcome server fresh SubmissionResponse → Outcome server fresh Response
  with_response (r, db, o) = (response_of r, db, o)

  -- `POST /v1/documents`, through `record_response_metrics`.
  unfoldable pub post_document : Request → Form server fresh → Db → server.client.Objects → Answer
  post_document request form db o = answer request.method (
      if is_declared_too_large server.api_max_upload_bytes request
      then (response_of (raise (upload_too_large server.api_max_upload_bytes)), db, o)
      else with_response (submit_document server fresh form db o))
