-- ===== src/Api/Creates.antt =====
-- What a call of `submit_document` that returns has stored and committed.
use enterprise_rag_ingestion.Prelude.{
  suc, ◌≤◌, String, ◌≡◌, sym, ap, ◌∙◌, some, [], length, string_eq, arith, ◌≢◌,
}
use enterprise_rag_ingestion.Exceptions.{ok}
use enterprise_rag_ingestion.Database.{Db}
use enterprise_rag_ingestion.Streams.Copy.{all_of, copy_whole, copy-eq-copy_whole}
use enterprise_rag_ingestion.Storage.{source_object_key, uri_of}
use enterprise_rag_ingestion.Submission.{create_submission}
use enterprise_rag_ingestion.Api.{
  chunk_size, SubmissionResponse, Server, Fresh, Form, spool, event_of, submission_of,
  upload_too_large,
}

module _ (server : Server) (fresh : Fresh) where
  open server use {codec, reader, client, bucket, api_max_upload_bytes, sha256}

  -- The loop over an upload, by its whole content.
  pub spool-eq-copy_whole :
      (file : reader.Body)
      → spool server fresh file
        ≡ copy_whole
            (upload_too_large api_max_upload_bytes)
            api_max_upload_bytes
            (reader.content file)
  unfolding spool
  spool-eq-copy_whole file =
      let first = reader.read chunk_size file in
      copy-eq-copy_whole reader chunk_size (upload_too_large api_max_upload_bytes)
        (suc (suc api_max_upload_bytes)) api_max_upload_bytes first.0 first.1 [] (omega arith)
        (omega arith) (λ e. reader.read_end chunk_size file (omega arith) e) (omega arith)
      ∙ ap (copy_whole (upload_too_large api_max_upload_bytes) api_max_upload_bytes)
          (sym (reader.content-read chunk_size file))

  module _ (form : Form server fresh) (db : Db) (o : client.Objects) where
    -- What a 201 promises.
    pub record Created (r : SubmissionResponse) (db' : Db) (o' : client.Objects) : Type 0 where
      pub filename : String
      pub named : form.filename ≡ some filename
      pub not_empty : filename ≢ ""
      pub fits : length (reader.content form.file) ≤ api_max_upload_bytes
      pub document : r.document_id ≡ fresh.document_id
      pub address :
          uri_of client bucket (source_object_key codec form.x_tenant_id fresh.document_id filename)
          ≡ r.source_object_uri
      pub stored :
          client.lookup (source_object_key codec form.x_tenant_id fresh.document_id filename) o'
          ≡ some (reader.content form.file)
      pub committed :
          create_submission fresh.defaults
            (submission_of server fresh form filename
              (all_of (reader.content form.file))
              r.source_object_uri)
            (event_of server fresh form r.source_object_uri).0
            (event_of server fresh form r.source_object_uri).1
            db
          ≡ ok (tt, db')
