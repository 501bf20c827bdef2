-- ===== src/Tests/Serving.antt =====
-- The API and its object store on concrete uploads.
use enterprise_rag_ingestion.Prelude.{
  ℕ, zero, suc, String, ◌≡◌, ◌≢◌, refl, sym, inl, inr, ap, subst, ◌∙◌, false, Option, none, some,
  List, [], ◌∷◌, string_eq, ◌==◌, eq_iff, eq_self, if◌then◌else◌, arith,
}
use Prim.Native.String.{◌++◌}
use text.Mathlib.TextLemmas.{cons-append, nil≢cons}
use enterprise_rag_ingestion.Exceptions.{Result, ok, raise, external}
use enterprise_rag_ingestion.Database.{Db}
use enterprise_rag_ingestion.Streams.{bytes_io}
use enterprise_rag_ingestion.Texts.{is_char, any}
use enterprise_rag_ingestion.Storage.{
  Client, safe_filename, source_object_key, put, get, object_key, urlparse,
}
use enterprise_rag_ingestion.Storage.Keys.{IsKey, get-put, source_object_key-separates}
use enterprise_rag_ingestion.Api.{
  SubmissionResponse, Server, Fresh, Form, Request, submit_document, post_document, status_code,
  filename_required,
}
use enterprise_rag_ingestion.Api.Fails.{submit_document-raises, post_document-too_large}
use enterprise_rag_ingestion.Api.Conflicts.{post_document-conflict}
use enterprise_rag_ingestion.Tests.Codec.{codec, letters}
use enterprise_rag_ingestion.Tests.Data.{stamp, defaults, db}
use enterprise_rag_ingestion.Tests.Submitting.{bare}

abbrev Store : Type 0
Store = String → Option (List ℕ)

abbrev answer_of : Option (List ℕ) → Result (List ℕ)
answer_of none = raise (external "NoSuchKey")
answer_of (some bytes) = ok bytes

stored_others :
    (key other : String) (found : Option (List ℕ)) (o : Store)
    → other ≢ key
    → (if other == key then found else o other) ≡ o other
stored_others key other found o apart = ground (arith, eq_iff other key)

answer-eq-ok :
    (found : Option (List ℕ)) (bytes : List ℕ) → answer_of found ≡ ok bytes → found ≡ some bytes
answer-eq-ok none bytes h = cc
answer-eq-ok (some b) bytes h = ground arith

written :
    (key : String) (found : Option (List ℕ)) (o o' : Store)
    → (λ k. if k == key then found else o k) ≡ o'
    → o' key ≡ found
written key found o o' h = subst (λ (q : Store). q key ≡ found) h (rw (eq_self key) refl)

-- A store that always answers.
abbrev memory : Client
memory = record {
  Objects = Store;
  lookup = λ key o. o key;
  upload = λ key bytes mime sha o. (ok tt, λ k. if k == key then some bytes else o k);
  delete_object = λ key o. (ok tt, λ k. if k == key then none else o k);
  get_object = λ key o. answer_of (o key);
  lookup-upload = λ key bytes mime sha o o' h.
      written key (some bytes) o o' (ap (λ (q : Result (Unit {0}) × Store). q.1) h);
  upload_others = λ key other bytes mime sha o apart. stored_others key other (some bytes) o apart;
  lookup-delete =
      λ key o o' h. written key none o o' (ap (λ (q : Result (Unit {0}) × Store). q.1) h);
  delete_others = λ key other o apart. stored_others key other none o apart;
  get-lookup = λ key o bytes h. answer-eq-ok (o key) bytes h;
}

abbrev server : Server
server = record {
  codec = codec;
  reader = bytes_io;
  client = memory;
  bucket = "sources";
  api_max_upload_bytes = 4;
  sha256 = λ bytes. "digest";
}

abbrev fresh : Fresh
fresh = record {
  document_id = 12;
  version_id = 13;
  stamp = stamp;
  defaults = defaults;
  connect = ok tt;
}

abbrev form : Form server fresh
form = record {
  filename = some "b.pdf";
  content_type = some "application/pdf";
  file = 37 ∷ 80 ∷ 68 ∷ [];
  x_tenant_id = 1;
  title = none;
  classification = "internal";
  source_external_id = some "b";
}

abbrev nothing : Store
nothing = λ key. none

abbrev key : String
key = "x/xxxxxxxxxxxx/original/b.pdf"

abbrev response : SubmissionResponse
response = record {
  document_id = 12;
  document_version_id = 13;
  event_id = 6;
  status = "submitted";
  source_object_uri = "s3://sources/x/xxxxxxxxxxxx/original/b.pdf";
}

abbrev served : Db
served = (submit_document server fresh form bare nothing).1

abbrev holding : Store
holding = (submit_document server fresh form bare nothing).2

abbrev nameless : Form server fresh
nameless = record form { filename = none }

submission-raises :
    submit_document server fresh nameless bare nothing ≡ (raise filename_required, bare, nothing)
unfolding submit_document
submission-raises = refl

empty-apart : (f : String) → "" ≢ source_object_key codec 1 12 f
unfolding source_object_key
empty-apart f h =
    nil≢cons (h ∙ cons-append "x" "" ("/" ++ "xxxxxxxxxxxx" ++ "/original/" ++ safe_filename f))

submit_document-raises_example :
    (bare ≡ bare) × (memory.lookup "" nothing ≡ memory.lookup "" nothing)
submit_document-raises_example =
    submit_document-raises server fresh nameless bare nothing "" empty-apart filename_required bare
      nothing submission-raises

abbrev long : Form server fresh
long = record form { file = 1 ∷ 2 ∷ 3 ∷ 4 ∷ 5 ∷ [] }

abbrev request : Request
request = record { method = "POST"; path = "/v1/documents"; content_length = none }

post_document-too_large_example :
    (status_code (post_document server fresh request long bare nothing).response ≡ 413)
    × ((post_document server fresh request long bare nothing).requests ≡ ("POST", 413) ∷ [])
    × ((post_document server fresh request long bare nothing).db ≡ bare)
    × ((post_document server fresh request long bare nothing).objects ≡ nothing)
post_document-too_large_example =
    post_document-too_large server fresh long request "b.pdf" bare nothing refl (omega arith)

abbrev put_to : Store
put_to = (memory.upload key form.file "application/pdf" "digest" nothing).1

upload-put :
    put memory "sources" key form.file "application/pdf" "digest" nothing
    ≡ (ok "s3://sources/x/xxxxxxxxxxxx/original/b.pdf", put_to)
unfolding put
upload-put = refl

not_empty : ◌≢◌ {A = String} "b.pdf" ""
not_empty h = nil≢cons (sym h ∙ cons-append "b" "" ".pdf")

-- The version of the tests has the checksum.
post_document-conflict_example :
    (status_code (post_document server fresh request form db nothing).response ≡ 409)
    × ((post_document server fresh request form db nothing).requests ≡ ("POST", 409) ∷ [])
    × ((post_document server fresh request form db nothing).db ≡ db)
    × (memory.lookup
          (source_object_key codec 1 12 "b.pdf")
          (post_document server fresh request form db nothing).objects
        ≡ none)
post_document-conflict_example =
    post_document-conflict server fresh form request "b.pdf" db nothing tt refl not_empty
      (omega arith) refl (λ mime sha. refl) (λ p. refl) (inr (inr (inl (inr (inr (refl, refl))))))

key-IsKey : IsKey key
key-IsKey = record { clean = refl; no_slash = refl; there = refl }

get-put_example :
    (get memory "sources" "s3://sources/x/xxxxxxxxxxxx/original/b.pdf" put_to
      ≡ memory.get_object key put_to)
    × (memory.lookup key put_to ≡ some (37 ∷ 80 ∷ 68 ∷ []))
get-put_example =
    get-put memory "sources" key "s3://sources/x/xxxxxxxxxxxx/original/b.pdf" form.file
      "application/pdf" "digest" nothing put_to refl key-IsKey upload-put

letters-no_slash : (u : ℕ) → any (is_char 47) (letters u) ≡ false
letters-no_slash zero = refl
letters-no_slash (suc u) = letters-no_slash u

same_key : source_object_key codec 1 2 "a/b" ≡ source_object_key codec 1 2 "a\\b"
unfolding source_object_key safe_filename
same_key = refl

source_object_key-separates_example : ◌≡◌ {A = ℕ} 1 1 × ◌≡◌ {A = ℕ} 2 2
source_object_key-separates_example =
    source_object_key-separates codec 1 2 1 2 "a/b" "a\\b" (omega arith) (omega arith) (omega arith)
      (omega arith) letters-no_slash same_key

-- A `#` in a filename cuts the key that the URI leads to.
fragment-cuts_key : object_key "sources" "s3://sources/x/xx/original/a#1.pdf" ≡ ok "x/xx/original/a"
unfolding object_key urlparse
fragment-cuts_key = refl
