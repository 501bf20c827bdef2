-- ===== src/Storage.antt =====
-- `SourceObjectStore` and `source_object_key` of infrastructure/document_submission.py. The S3 client
-- is an interface; `urlparse` is that of Python's standard library, for what the code reads of it.
pub mod Addresses
pub mod Keys
use Prim.Native.Char.{Char, code}
use Prim.Native.String.{◌++◌, [], ◌∷◌}
use enterprise_rag_ingestion.Prelude.{
  ℕ, String, ◌≡◌, ◌≢◌, Bool, true, false, not, ◌&&◌, ◌||◌, Option, none, some, List, nat_eq,
  string_eq, ◌==◌, leb, if◌then◌else◌,
}
use enterprise_rag_ingestion.Exceptions.{Exception, Result, ok, raise, value_error, ◌>>=◌}
use enterprise_rag_ingestion.Uuid.{Uuid, Codec}
use enterprise_rag_ingestion.Texts.{is_char, any, map_chars, remove, lstrip, until, from}

-- The S3 client on one bucket. A call that raises may have done its work or not.
pub record Client : Type 1 where
  pub Objects : Type 0
  pub lookup : String → Objects → Option (List ℕ)
  -- The key, the bytes, the content type and the checksum of the metadata.
  pub upload : String → List ℕ → String → String → Objects → Result (Unit {0}) × Objects
  pub delete_object : String → Objects → Result (Unit {0}) × Objects
  pub get_object : String → Objects → Result (List ℕ)
  pub lookup-upload :
      (key : String) (bytes : List ℕ) (mime sha : String) (o o' : Objects)
      → upload key bytes mime sha o ≡ (ok tt, o')
      → lookup key o' ≡ some bytes
  pub upload_others :
      (key other : String) (bytes : List ℕ) (mime sha : String) (o : Objects)
      → other ≢ key
      → lookup other (upload key bytes mime sha o).1 ≡ lookup other o
  pub lookup-delete :
      (key : String) (o o' : Objects) → delete_object key o ≡ (ok tt, o') → lookup key o' ≡ none
  pub delete_others :
      (key other : String) (o : Objects)
      → other ≢ key
      → lookup other (delete_object key o).1 ≡ lookup other o
  pub get-lookup :
      (key : String) (o : Objects) (bytes : List ℕ)
      → get_object key o ≡ ok bytes
      → lookup key o ≡ some bytes

-- `/` and `\` are replaced by `_`.
abbrev pub safe_char : Char → Char
safe_char c = if code c == 47 || code c == 92 then "_" else c

abbrev pub or_upload : String → String
or_upload s = if s == "" then "upload" else s

unfoldable pub safe_filename : String → String
safe_filename filename = or_upload (map_chars safe_char filename)

unfoldable pub source_object_key : Codec → Uuid → Uuid → String → String
source_object_key codec tenant_id document_id filename =
    codec.str tenant_id ++ "/" ++ codec.str document_id ++ "/original/" ++ safe_filename filename

-- What the code reads of a parsed URL.
pub record Url : Type 0 where
  pub scheme : String
  pub netloc : String
  pub path : String

-- Tab, line feed and carriage return, which `urlparse` removes.
abbrev pub is_unsafe : Char → Bool
is_unsafe c = code c == 9 || code c == 10 || code c == 13

abbrev is_letter : Char → Bool
is_letter c = leb 65 (code c) && leb (code c) 90 || leb 97 (code c) && leb (code c) 122

abbrev is_scheme_char : Char → Bool
is_scheme_char c =
    is_letter c
    || leb 48 (code c) && leb (code c) 57
    || code c == 43
    || code c == 45
    || code c == 46

abbrev begins_with_letter : String → Bool
begins_with_letter [] = false
begins_with_letter (c ∷ s) = is_letter c

-- The scheme and the rest, where the text before the first colon is one.
abbrev split_scheme : String → String → String → String × String
split_scheme whole before [] = ("", whole)
split_scheme whole before (c ∷ after) =
    if begins_with_letter before && not (any (λ d. not (is_scheme_char d)) before)
    then (before, after)
    else ("", whole)

-- The end of a netloc: `/`, `?` or `#`.
abbrev pub ends_netloc : Char → Bool
ends_netloc c = code c == 47 || code c == 63 || code c == 35

-- The netloc and the rest.
abbrev split_netloc : String → String × String
split_netloc (a ∷ b ∷ s) =
    if code a == 47 && code b == 47
    then (until ends_netloc s, from ends_netloc s)
    else ("", a ∷ b ∷ s)
split_netloc s = ("", s)

-- The path ends at the fragment, and then at the query.
abbrev path_of : String → String
path_of s = until (is_char 63) (until (is_char 35) s)

abbrev url_of : String × String → Url
url_of (scheme, rest) =
    let (netloc, s) = split_netloc rest in
    record { scheme = scheme; netloc = netloc; path = path_of s }

abbrev parse_clean : String → Url
parse_clean s = url_of (split_scheme s (until (is_char 58) s) (from (is_char 58) s))

unfoldable pub urlparse : String → Url
urlparse s = parse_clean (remove is_unsafe (lstrip (λ c. leb (code c) 32) s))

-- `parsed.scheme != "s3"`, of a scheme that `urlparse` writes in small letters.
abbrev is_s3 : String → Bool
is_s3 scheme = scheme == "s3" || scheme == "S3"

-- `parsed.path.lstrip("/")`
abbrev key_of : Url → String
key_of url = lstrip (is_char 47) url.path

module _ (bucket : String) where
  -- The key that a URI of the bucket names.
  unfoldable pub object_key : String → Result String
  object_key uri =
      let url = urlparse uri in
      if not (is_s3 url.scheme) || not (url.netloc == bucket) || key_of url == ""
      then raise value_error
      else ok (key_of url)

module _ (client : Client) (bucket : String) where
  open client use {Objects, upload, delete_object, get_object}

  -- `f"s3://{self.bucket}/{key}"`
  abbrev pub uri_of : String → String
  uri_of key = "s3://" ++ bucket ++ "/" ++ key

  abbrev pub stored_at : String → Result (Unit {0}) × Objects → Result String × Objects
  stored_at key (ok _, o) = (ok (uri_of key), o)
  stored_at key (raise e, o) = (raise e, o)

  unfoldable pub put : String → List ℕ → String → String → Objects → Result String × Objects
  put key file content_type sha256 o = stored_at key (upload key file content_type sha256 o)

  unfoldable pub delete : String → Objects → Result (Unit {0}) × Objects
  delete key o = delete_object key o

  unfoldable pub get : String → Objects → Result (List ℕ)
  get uri o = object_key bucket uri >>= λ key. get_object key o
