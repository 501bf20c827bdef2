-- ===== src/Api/Conflicts.antt =====
-- What the client is answered when the database refuses the submission.
use enterprise_rag_ingestion.Prelude.{
  ℕ, ◌≤◌, String, ◌≡◌, ◌≢◌, refl, ap, false, Option, none, some, [], ◌∷◌, length, string_eq, ◌==◌,
  eq_iff, Bool-cases, inl, inr, le→ltb, arith,
}
use enterprise_rag_ingestion.Exceptions.{Result, ok, raise}
use enterprise_rag_ingestion.Database.{Db}
use enterprise_rag_ingestion.Streams.Copy.{all_of, copy_whole_within}
use enterprise_rag_ingestion.Storage.{source_object_key, uri_of, stored_at, put}
use enterprise_rag_ingestion.Submission.Pipeline.{Refused, create_submission-raise}
use enterprise_rag_ingestion.Api.{
  Server, Fresh, Form, mime_type_of, event_of, submission_of, read_upload, named_file,
  upload_too_large, Request, status_code, is_declared_too_large, post_document,
}
use enterprise_rag_ingestion.Api.Creates.{spool-eq-copy_whole}
use enterprise_rag_ingestion.Api.Fails.{submit_document-conflict}

-- A `Content-Length` that is not beyond the limit, where there is one.
abbrev pub Declares : ℕ → Option ℕ → Type 0
Declares limit none = Unit
Declares limit (some n) = n ≤ limit

is_declared_too_large-Declares :
    (limit : ℕ) (method path : String) (declared : Option ℕ)
    → Declares limit declared
    → is_declared_too_large limit
        (record { method = method; path = path; content_length = declared })
      ≡ false
is_declared_too_large-Declares limit method path none h = ground arith
is_declared_too_large-Declares limit method path (some n) h = ground (arith, le→ltb limit n h)

named_file-named :
    (name : Option String) (filename : String)
    → name ≡ some filename
    → filename ≢ ""
    → named_file name ≡ ok filename
named_file-named name filename named there = elim (Bool-cases (filename == "")) [
  | inl empty ↦ absurd (there ((eq_iff filename "").0 empty))
  | inr full ↦ rw (named, full) refl
]

module _ (server : Server) (fresh : Fresh) (form : Form server fresh) where
  open server use {codec, reader, client, bucket, api_max_upload_bytes, sha256}

  read_upload_within :
      (filename : String)
      → form.filename ≡ some filename
      → filename ≢ ""
      → length (reader.content form.file) ≤ api_max_upload_bytes
      → read_upload server fresh form ≡ ok (filename, all_of (reader.content form.file))
  read_upload_within filename named there fits =
      rw
        (
          named_file-named form.filename filename named there,
          spool-eq-copy_whole server fresh form.file,
          copy_whole_within (upload_too_large api_max_upload_bytes) api_max_upload_bytes
              (reader.content form.file) fits,
        )
        refl

  put_accepted :
      (key : String) (x : Result (Unit {0}) × client.Objects)
      → x.0 ≡ ok tt
      → stored_at client bucket key x ≡ (ok (uri_of client bucket key), x.1)
  put_accepted key (ok u, o) h = refl
  put_accepted key (raise e, o) h = absurd (cc)

  -- An upload with a filename and within the limit, whose submission the constraints of the database
  -- refuse, is answered by 409 where the object store takes the object and its deletion; the answer
  -- is counted, the database is as it was, and no object is under the key of the upload.
  pub post_document-conflict :
      (request : Request) (filename : String) (db : Db) (o : client.Objects)
      → Declares api_max_upload_bytes request.content_length
      → form.filename ≡ some filename
      → filename ≢ ""
      → length (reader.content form.file) ≤ api_max_upload_bytes
      → fresh.connect ≡ ok tt
      → ((mime sha : String)
          → (client.upload
              (source_object_key codec form.x_tenant_id fresh.document_id filename)
              (reader.content form.file)
              mime
              sha
              o).0
            ≡ ok tt)
      → ((p : client.Objects)
          → (client.delete_object
              (source_object_key codec form.x_tenant_id fresh.document_id filename)
              p).0
            ≡ ok tt)
      → Refused
          (submission_of server fresh form filename (all_of (reader.content form.file)) (
            uri_of client bucket
              (source_object_key codec form.x_tenant_id fresh.document_id filename)))
          db
      → (status_code (post_document server fresh request form db o).response ≡ 409)
        × ((post_document server fresh request form db o).requests ≡ (request.method, 409) ∷ [])
        × ((post_document server fresh request form db o).db ≡ db)
        × (client.lookup
              (source_object_key codec form.x_tenant_id fresh.document_id filename)
              (post_document server fresh request form db o).objects
            ≡ none)
  unfolding post_document put
  post_document-conflict request filename db o small named there fits connected taken undone
        refused =
      let key = source_object_key codec form.x_tenant_id fresh.document_id filename in
      let uri = uri_of client bucket key in
      let content = reader.content form.file in
      let mime = mime_type_of server fresh form in
      let up = client.upload key content mime (sha256 content) o in
      let down = client.delete_object key up.1 in
      let (raised, gone) =
        submit_document-conflict server fresh form filename uri (all_of content) db o up.1 down.1
          (read_upload_within filename named there fits)
          (put_accepted key up (taken mime (sha256 content))) connected
          (create_submission-raise fresh.defaults
            (submission_of server fresh form filename (all_of content) uri)
            (event_of server fresh form uri).0 (event_of server fresh form uri).1 db refused)
          (ap (λ (r : Result (Unit {0})). (r, down.1)) (undone up.1)) in
      rw
        (
          is_declared_too_large-Declares api_max_upload_bytes request.method request.path
              request.content_length small,
          raised,
        )
        (refl, refl, refl, gone)
