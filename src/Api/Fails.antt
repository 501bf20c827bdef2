-- ===== src/Api/Fails.antt =====
-- What a call of `submit_document` that raises has left behind, and what is refused for its size.
use enterprise_rag_ingestion.Prelude.{
  ◌<◌, String, ◌≡◌, ◌≢◌, refl, ap, subst, ◌∙◌, none, [], ◌∷◌, length, string_eq, inl, inr,
  Bool-cases, lt→ltb,
}
use enterprise_rag_ingestion.Exceptions.{Exception, integrity_error, Result, ok, raise}
use enterprise_rag_ingestion.Database.{Db}
use enterprise_rag_ingestion.Database.Transaction.{Tx, begin}
use enterprise_rag_ingestion.Streams.Copy.{Copied}
use enterprise_rag_ingestion.Storage.{source_object_key, stored_at, put, delete}
use enterprise_rag_ingestion.Submission.{create_submission}
use enterprise_rag_ingestion.Api.{
  SubmissionResponse, Server, Fresh, Form, Outcome, mime_type_of, event_of, submission_of,
  on_connection, persist, compensated, respond, record_upload, store_upload, with_upload,
  read_upload, named_file, upload_too_large, already_exists, submit_document, Request, status_code,
  is_declared_too_large, post_document,
}
use enterprise_rag_ingestion.Api.Creates.{spool-eq-copy_whole}

-- A transaction that raises leaves the database as it was.
abbrev Rolled : Db → Result (Unit {0}) × Db → Type 0
Rolled db (ok a, db') = Unit
Rolled db (raise e, db') = db' ≡ db

begin-Rolled :
    (m : Tx Unit) (db : Db) (r : Result (Unit {0} × Db))
    → Rolled db (elim r [ ok (a, db') ↦ (ok a, db') | raise e ↦ (raise e, db) ])
begin-Rolled m db (ok (a, db')) = tt
begin-Rolled m db (raise e) = refl

on_connection-Rolled :
    (connect : Result (Unit {0})) (m : Tx Unit) (db : Db) → Rolled db (on_connection connect m db)
on_connection-Rolled (ok u) m db = begin-Rolled m db (m db)
on_connection-Rolled (raise e) m db = refl

module _ (server : Server) (fresh : Fresh) (form : Form server fresh) (db : Db)
    (o : server.client.Objects) (other : String)
    (apart : (f : String)
      → other ≢ source_object_key server.codec form.x_tenant_id fresh.document_id f) where
  open server use {codec, reader, client, bucket, api_max_upload_bytes, sha256}

  -- Where the call raises, the database is as it was, and so is the other object.
  abbrev Unharmed : Outcome server fresh SubmissionResponse → Type 0
  Unharmed (ok r, db', o') = Unit
  Unharmed (raise e, db', o') = (db' ≡ db) × (client.lookup other o' ≡ client.lookup other o)

  compensated-Unharmed :
      (e : Exception) (x : Result (Unit {0}) × client.Objects) (d : Db)
      → d ≡ db
      → client.lookup other x.1 ≡ client.lookup other o
      → Unharmed (compensated server fresh e x d)
  compensated-Unharmed e (ok u, p) d same kept = (same, kept)
  compensated-Unharmed e (raise x, p) d same kept = (same, kept)

  respond-Unharmed :
      (f uri : String) (x : Result (Unit {0}) × Db) (p : client.Objects)
      → Rolled db x
      → client.lookup other p ≡ client.lookup other o
      → Unharmed (
          respond server fresh
            (source_object_key codec form.x_tenant_id fresh.document_id f)
            uri
            x
            p)
  unfolding respond delete
  respond-Unharmed f uri (ok u, d) p rolled kept = tt
  respond-Unharmed f uri (raise e, d) p rolled kept = compensated-Unharmed _ _ d rolled (
      client.delete_others (source_object_key codec form.x_tenant_id fresh.document_id f) other p
        (apart f)
      ∙ kept)

  record_upload-Unharmed :
      (f : String) (s : Copied) (x : Result String × client.Objects)
      → client.lookup other x.1 ≡ client.lookup other o
      → Unharmed (
          record_upload server fresh form f s
            (source_object_key codec form.x_tenant_id fresh.document_id f)
            x
            db)
  unfolding record_upload persist
  record_upload-Unharmed f s (raise e, p) kept = (refl, kept)
  record_upload-Unharmed f s (ok uri, p) kept =
      respond-Unharmed f uri _ p (on_connection-Rolled fresh.connect _ db) kept

  stored_at-same :
      (key : String) (x : Result (Unit {0}) × client.Objects)
      → (stored_at client bucket key x).1 ≡ x.1
  stored_at-same key (ok u, p) = refl
  stored_at-same key (raise e, p) = refl

  with_upload-Unharmed :
      (x : Result (String × Copied)) → Unharmed (with_upload server fresh form x db o)
  unfolding store_upload put
  with_upload-Unharmed (raise e) = (refl, refl)
  with_upload-Unharmed (ok (f, s)) = record_upload-Unharmed f s _ (
      ap (client.lookup other) (stored_at-same _ _)
      ∙ client.upload_others (source_object_key codec form.x_tenant_id fresh.document_id f) other _
          _ _ o (apart f))

  Unharmed-raise :
      (x : Outcome server fresh SubmissionResponse) (e : Exception) (db' : Db) (o' : client.Objects)
      → Unharmed x
      → x ≡ (raise e, db', o')
      → (db' ≡ db) × (client.lookup other o' ≡ client.lookup other o)
  Unharmed-raise x e db' o' h same = subst Unharmed same h

  -- A call that raises, for whatever reason, leaves the database as it was, and every object but those
  -- under the keys of its own new document.
  pub submit_document-raises :
      (e : Exception) (db' : Db) (o' : client.Objects)
      → submit_document server fresh form db o ≡ (raise e, db', o')
      → (db' ≡ db) × (client.lookup other o' ≡ client.lookup other o)
  unfolding submit_document
  submit_document-raises e db' o' h =
      Unharmed-raise _ e db' o' (with_upload-Unharmed (read_upload server fresh form)) h

module _ (server : Server) (fresh : Fresh) (form : Form server fresh) where
  open server use {codec, reader, client, bucket, api_max_upload_bytes, sha256}

  too_large-read :
      (filename : String)
      → named_file form.filename ≡ ok filename
      → api_max_upload_bytes < length (reader.content form.file)
      → read_upload server fresh form ≡ raise (upload_too_large api_max_upload_bytes)
  too_large-read filename named large =
      rw
        (
          named,
          spool-eq-copy_whole server fresh form.file,
          lt→ltb api_max_upload_bytes (length (reader.content form.file)) large,
        )
        refl

  -- An upload with a filename and of more than the configured size is answered by 413, whatever its
  -- `Content-Length` says, and the answer is counted; the database and the objects stay as they were.
  pub post_document-too_large :
      (request : Request) (filename : String) (db : Db) (o : client.Objects)
      → named_file form.filename ≡ ok filename
      → api_max_upload_bytes < length (reader.content form.file)
      → (status_code (post_document server fresh request form db o).response ≡ 413)
        × ((post_document server fresh request form db o).requests ≡ (request.method, 413) ∷ [])
        × ((post_document server fresh request form db o).db ≡ db)
        × ((post_document server fresh request form db o).objects ≡ o)
  unfolding post_document submit_document
  post_document-too_large request filename db o named large =
      elim (Bool-cases (is_declared_too_large api_max_upload_bytes request)) [
        | inl declared ↦ rw declared (refl, refl, refl, refl)
        | inr undeclared ↦
            rw (undeclared, too_large-read filename named large) (refl, refl, refl, refl)
      ]

  -- A submission that violates a constraint of the database is answered by 409 where its compensation
  -- succeeds: the database is as it was, and the object that was put is gone.
  pub submit_document-conflict :
      (filename uri : String) (s : Copied) (db : Db) (o put_to deleted : client.Objects)
      → read_upload server fresh form ≡ ok (filename, s)
      → put client bucket
          (source_object_key codec form.x_tenant_id fresh.document_id filename)
          s.written
          (mime_type_of server fresh form)
          (sha256 s.hashed)
          o
        ≡ (ok uri, put_to)
      → fresh.connect ≡ ok tt
      → create_submission fresh.defaults
          (submission_of server fresh form filename s uri)
          (event_of server fresh form uri).0
          (event_of server fresh form uri).1
          db
        ≡ raise integrity_error
      → client.delete_object
          (source_object_key codec form.x_tenant_id fresh.document_id filename)
          put_to
        ≡ (ok tt, deleted)
      → (submit_document server fresh form db o ≡ (raise already_exists, db, deleted))
        × (client.lookup
              (source_object_key codec form.x_tenant_id fresh.document_id filename)
              deleted
            ≡ none)
  unfolding submit_document store_upload record_upload persist respond delete
  submit_document-conflict filename uri s db o put_to deleted read uploaded connected violated
        compensated_ok =
      (
        rw (read, uploaded, connected, begin, violated, compensated_ok) refl,
        client.lookup-delete _ put_to deleted compensated_ok,
      )
