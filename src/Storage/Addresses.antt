-- ===== src/Storage/Addresses.antt =====
-- What is stored is found again under its URI.
use Prim.Native.Char.{Char}
use Prim.Native.String.{◌++◌, [], ◌∷◌}
use text.Mathlib.TextLemmas.{nil-append, cons-append}
use enterprise_rag_ingestion.Prelude.{
  String, ◌≡◌, refl, ◌∙◌, Bool, false, ◌||◌, nat_eq, string_eq, ◌==◌, eq_self, arith,
}
use enterprise_rag_ingestion.Exceptions.{ok}
use enterprise_rag_ingestion.Texts.{
  is_char, any, remove, lstrip, any-append, remove-clean, until-clean, until-append, from-append,
}
use enterprise_rag_ingestion.Storage.{is_unsafe, ends_netloc, urlparse, object_key}

-- The characters that a part of a URI must do without.
abbrev ends_path : Char → Bool
ends_path c = is_char 35 c || is_char 63 c

abbrev pub breaks_key : Char → Bool
breaks_key c = is_unsafe c || ends_path c

abbrev pub breaks_bucket : Char → Bool
breaks_bucket c = is_unsafe c || ends_netloc c

s3-append : (x : String) → "s3://" ++ x ≡ "s" ∷ "3" ∷ ":" ∷ "/" ∷ "/" ∷ x
s3-append x =
    rw
      (
        cons-append "s" "3://" x,
        cons-append "3" "://" x,
        cons-append ":" "//" x,
        cons-append "/" "/" x,
        cons-append "/" "" x,
        nil-append x,
      )
      refl

any-or : (p q : Char → Bool) (s : String) → any (λ c. p c || q c) s ≡ (any p s || any q s)
any-or p q [] = refl
any-or p q (c ∷ s) = ground (arith, any-or p q s)

-- A text without the characters of either kind.
any-or_left : (p q : Char → Bool) (s : String) → any (λ c. p c || q c) s ≡ false → any p s ≡ false
any-or_left p q s h = ground (arith, any-or p q s)

any-or_right : (p q : Char → Bool) (s : String) → any (λ c. p c || q c) s ≡ false → any q s ≡ false
any-or_right p q s h = ground (arith, any-or p q s)

slash-append : (x : String) → "/" ++ x ≡ "/" ∷ x
slash-append x = rw (cons-append "/" "" x, nil-append x) refl

-- What follows the scheme.
tail_clean :
    (bucket key : String)
    → any breaks_bucket bucket ≡ false
    → any breaks_key key ≡ false
    → remove is_unsafe (bucket ++ ("/" ∷ key)) ≡ bucket ++ ("/" ∷ key)
tail_clean bucket key b k = remove-clean is_unsafe (bucket ++ ("/" ∷ key)) (
    any-append is_unsafe bucket ("/" ∷ key)
    ∙ rw (any-or_left is_unsafe ends_netloc bucket b, any-or_left is_unsafe ends_path key k) refl)

urlparse-s3 :
    (bucket key : String)
    → any breaks_bucket bucket ≡ false
    → any breaks_key key ≡ false
    → urlparse ("s3://" ++ bucket ++ "/" ++ key)
      ≡ record { scheme = "s3"; netloc = bucket; path = "/" ∷ key }
unfolding urlparse
urlparse-s3 bucket key b k =
    rw (slash-append key, s3-append (bucket ++ ("/" ∷ key)))
      (rw (tail_clean bucket key b k) (
        rw
          (
            until-append ends_netloc bucket key "/" (any-or_right is_unsafe ends_netloc bucket b)
                refl,
            from-append ends_netloc bucket key "/" (any-or_right is_unsafe ends_netloc bucket b)
                refl,
            until-clean (is_char 35) key (
                any-or_left (is_char 35) (is_char 63) key (any-or_right is_unsafe ends_path key k)),
            until-clean (is_char 63) key (
                any-or_right (is_char 35) (is_char 63) key
                  (any-or_right is_unsafe ends_path key k)),
          )
          refl))

-- What the store names is what it is asked for later: the URI of a bucket and a key leads to the key,
-- if the bucket's name has no `/`, `?`, `#` or control break, and the key is not empty, has no `?`,
-- `#` or control break, and does not begin with `/`.
pub object_key-put_uri :
    (bucket key : String)
    → any breaks_bucket bucket ≡ false
    → any breaks_key key ≡ false
    → lstrip (is_char 47) key ≡ key
    → (key == "") ≡ false
    → object_key bucket ("s3://" ++ bucket ++ "/" ++ key) ≡ ok key
unfolding object_key
object_key-put_uri bucket key b k no_slash there =
    rw (urlparse-s3 bucket key b k, no_slash, eq_self bucket, there) refl
