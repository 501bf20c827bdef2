-- ===== src/Streams.antt =====
-- A binary stream that a worker reads in chunks (a storage client's body, an upload): third-party
-- code, given by its documented behaviour.
pub mod Copy
use enterprise_rag_ingestion.Prelude.{
  ℕ, ◌<◌, ◌≤◌, ◌≡◌, refl, List, [], ◌∷◌, ◌++◌, length, take, drop, take-append-drop, length-take,
  zero, suc, arith, sym, Bool, true, false, ◌&&◌, nat_eq, ◌==◌,
}

-- `content` is what is left to read. A read returns at most the number of bytes asked for, perhaps
-- fewer, takes them off the front, and returns nothing only at the end.
pub record Reader : Type 1 where
  pub Body : Type 0
  pub read : ℕ → Body → List ℕ × Body
  pub content : Body → List ℕ
  pub content-read : (n : ℕ) (b : Body) → content b ≡ (read n b).0 ++ content (read n b).1
  pub length-read : (n : ℕ) (b : Body) → length (read n b).0 ≤ n
  pub read_end : (n : ℕ) (b : Body) → 0 < n → (read n b).0 ≡ [] → content (read n b).1 ≡ []

-- `bytes.startswith`
unfoldable pub starts_with : List ℕ → List ℕ → Bool
starts_with xs [] = true
starts_with [] (p ∷ ps) = false
starts_with (x ∷ xs) (p ∷ ps) = x == p && starts_with xs ps

-- `BytesIO` over the bytes that are left.
pub bytes_end : (n : ℕ) (b : List ℕ) → 0 < n → take n b ≡ [] → drop n b ≡ []
bytes_end zero b h e = elim h [ ]
bytes_end (suc n) [] h e = refl
bytes_end (suc n) (x ∷ b) h e = cc

pub bytes_bound : (n : ℕ) (b : List ℕ) → length (take n b) ≤ n
bytes_bound n b = omega (arith, length-take n b)

abbrev pub bytes_io : Reader
bytes_io = record {
  Body = List ℕ;
  read = λ n b. (take n b, drop n b);
  content = λ b. b;
  content-read = λ n b. sym (take-append-drop n b);
  length-read = bytes_bound;
  read_end = bytes_end;
}
