-- ===== src/Storage/Keys.antt =====
-- The keys of source objects: what they lead back to, and that no two documents share one.
use Prim.Native.String.{◌++◌, [], ◌∷◌}
use text.Mathlib.TextLemmas.{nil-append, cons-append}
use enterprise_rag_ingestion.Prelude.{
  ℕ, String, List, ◌<◌, ◌^◌, ◌≡◌, refl, sym, ap, ◌∙◌, false, some, nat_eq, string_eq, ◌==◌, arith,
}
use enterprise_rag_ingestion.Exceptions.{Result, ok, raise}
use enterprise_rag_ingestion.Uuid.{Uuid, Codec}
use enterprise_rag_ingestion.Texts.{is_char, any, lstrip, until, from, until-append, from-append}
use enterprise_rag_ingestion.Storage.{
  Client, safe_filename, source_object_key, uri_of, stored_at, put, get,
}
use enterprise_rag_ingestion.Storage.Addresses.{breaks_bucket, breaks_key, object_key-put_uri}

slash-append : (x : String) → "/" ++ x ≡ "/" ∷ x
slash-append x = rw (cons-append "/" "" x, nil-append x) refl

-- The parts of a key.
key_rest : Codec → Uuid → String → String
key_rest codec d f = codec.str d ++ ("/" ∷ ("original/" ++ safe_filename f))

original-append : (x : String) → "/original/" ++ x ≡ "/" ∷ ("original/" ++ x)
original-append x = cons-append "/" "original/" x

key_parts :
    (codec : Codec) (t d : Uuid) (f : String)
    → source_object_key codec t d f
      ≡ codec.str t ++ ("/" ∷ (codec.str d ++ ("/" ∷ ("original/" ++ safe_filename f))))
unfolding source_object_key
key_parts codec t d f =
    rw
      (
        original-append (safe_filename f),
        slash-append (codec.str d ++ ("/" ∷ ("original/" ++ safe_filename f))),
      )
      refl

-- The text from a slash on, without the slash.
abbrev behind : String → String
behind [] = []
behind (c ∷ s) = s

module _ (codec : Codec) where
  key-tenant :
      (t d : Uuid) (f : String)
      → any (is_char 47) (codec.str t) ≡ false
      → until (is_char 47) (source_object_key codec t d f) ≡ codec.str t
  key-tenant t d f h =
      rw (key_parts codec t d f) (until-append (is_char 47) (codec.str t) _ "/" h refl)

  key-document :
      (t d : Uuid) (f : String)
      → any (is_char 47) (codec.str t) ≡ false
      → any (is_char 47) (codec.str d) ≡ false
      → until (is_char 47) (behind (from (is_char 47) (source_object_key codec t d f)))
        ≡ codec.str d
  key-document t d f h g =
      rw
        (
          key_parts codec t d f,
          from-append (is_char 47) (codec.str t)
              (codec.str d ++ ("/" ∷ ("original/" ++ safe_filename f))) "/" h refl,
        )
        (until-append (is_char 47) (codec.str d) _ "/" g refl)

str_unique :
    (codec : Codec) (t t' : Uuid) → t < 2 ^ 128 → t' < 2 ^ 128 → codec.str t ≡ codec.str t' → t ≡ t'
str_unique codec t t' b b' same =
    let p : some t ≡ some t' =
      sym (codec.parse-str t b) ∙ ap codec.parse same ∙ codec.parse-str t' b' in
    cc

-- The key of a source object tells its tenant and its document, whatever the filenames: where the
-- texts of the identifiers hold no slash, two keys are equal only for one tenant and one document.
pub source_object_key-separates :
    (codec : Codec) (t d t' d' : Uuid) (f f' : String)
    → t < 2 ^ 128
    → t' < 2 ^ 128
    → d < 2 ^ 128
    → d' < 2 ^ 128
    → ((u : Uuid) → any (is_char 47) (codec.str u) ≡ false)
    → source_object_key codec t d f ≡ source_object_key codec t' d' f'
    → (t ≡ t') × (d ≡ d')
source_object_key-separates codec t d t' d' f f' bt bt' bd bd' plain same = (
  str_unique codec t t' bt bt' (
      sym (key-tenant codec t d f (plain t))
      ∙ ap (until (is_char 47)) same
      ∙ key-tenant codec t' d' f' (plain t')),
  str_unique codec d d' bd bd' (
      sym (key-document codec t d f (plain t) (plain d))
      ∙ ap (λ k. until (is_char 47) (behind (from (is_char 47) k))) same
      ∙ key-document codec t' d' f' (plain t') (plain d')),
)

-- Where a key is plain enough for a URI.
pub record IsKey (key : String) : Type 0 where
  pub clean : any breaks_key key ≡ false
  pub no_slash : lstrip (is_char 47) key ≡ key
  pub there : (key == "") ≡ false

module _ (client : Client) (bucket : String) where
  open client use {Objects, upload, lookup, get_object}

  stored_at-eq-ok :
      (key uri : String) (o' : Objects) (r : Result (Unit {0}) × Objects)
      → stored_at client bucket key r ≡ (ok uri, o')
      → (uri_of client bucket key ≡ uri) × (r ≡ (ok tt, o'))
  stored_at-eq-ok key uri o' (ok u, p) h = (
    ground (arith, ap (λ (x : Result String × Objects). x.0) h),
    ap (λ q. (ok tt, q)) (ap (λ (x : Result String × Objects). x.1) h),
  )
  stored_at-eq-ok key uri o' (raise e, p) h =
      absurd (ground (arith, ap (λ (x : Result String × Objects). x.0) h))

  -- What `put` that returns has stored.
  pub put-eq-ok :
      (key uri : String) (file : List ℕ) (mime sha : String) (o o' : Objects)
      → put client bucket key file mime sha o ≡ (ok uri, o')
      → (uri_of client bucket key ≡ uri) × (upload key file mime sha o ≡ (ok tt, o'))
  unfolding put
  put-eq-ok key uri file mime sha o o' h = stored_at-eq-ok key uri o' (upload key file mime sha o) h

  -- Where `put` returns a URI for a bucket whose name has no `/`, `?`, `#` or control break and a key
  -- that has no `?`, `#` or control break, is not empty and does not begin with `/`, `get` of that URI
  -- asks for the very key, and under the key stand the bytes that were put.
  pub get-put :
      (key uri : String) (file : List ℕ) (mime sha : String) (o o' : Objects)
      → any breaks_bucket bucket ≡ false
      → IsKey key
      → put client bucket key file mime sha o ≡ (ok uri, o')
      → (get client bucket uri o' ≡ get_object key o') × (lookup key o' ≡ some file)
  unfolding get
  get-put key uri file mime sha o o' plain is_key h =
      let (address, stored) = put-eq-ok key uri file mime sha o o' h in
      let found = object_key-put_uri bucket key plain is_key.clean is_key.no_slash is_key.there in
      (rw (sym address, found) refl, client.lookup-upload key file mime sha o o' stored)
