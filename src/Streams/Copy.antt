-- ===== src/Streams/Copy.antt =====
-- The loop `while chunk := source.read(CHUNK_SIZE)` of a copy that feeds a digest, writes a file, and
-- gives up beyond a limit: content_extractor.py and api.py have it alike but for the exception.
use enterprise_rag_ingestion.Prelude.{
  ℕ, zero, suc, ◌+◌, ◌-◌, ◌<◌, ◌≤◌, ◌≡◌, refl, sym, ap, ◌∙◌, inl, inr, List, [], ◌∷◌, ◌++◌, length,
  length-append, append_assoc, append-nil, arith, ltb, ltb→lt, ltb→le, lt→ltb, le→ltb,
  if◌then◌else◌, Bool-cases,
}
use enterprise_rag_ingestion.Exceptions.{Exception, Result, ok, raise, no_fuel}
use enterprise_rag_ingestion.Streams.{Reader}

-- The loop's variables: what the digest was fed, what the file holds, and the count.
pub record Copied : Type 0 where
  pub hashed : List ℕ
  pub written : List ℕ
  pub total : ℕ

abbrev pub copy_start : Copied
copy_start = record { hashed = []; written = []; total = 0 }

abbrev pub copy_add : Copied → List ℕ → Copied
copy_add s chunk = record {
  hashed = s.hashed ++ chunk;
  written = s.written ++ chunk;
  total = s.total + length chunk;
}

module _ (reader : Reader) (chunk_size : ℕ) (refusal : Exception) where
  open reader use {Body, read}

  -- `while chunk := source.read(CHUNK_SIZE)`, on fuel, from a chunk that is read.
  unfoldable pub copy : ℕ → ℕ → List ℕ → Body → Copied → Result Copied
  copy zero max_bytes chunk body s = raise no_fuel
  copy (suc fuel) max_bytes [] body s = ok s
  copy (suc fuel) max_bytes (b ∷ bs) body s =
      let next = read chunk_size body in
      let rest = copy fuel max_bytes next.0 next.1 (copy_add s (b ∷ bs)) in
      if ltb max_bytes (s.total + length (b ∷ bs)) then raise refusal else rest

-- The loop's variables once all of `xs` is copied.
abbrev pub all_of : List ℕ → Copied
all_of xs = record { hashed = xs; written = xs; total = length xs }

-- The copy, by the whole content.
abbrev pub copy_whole : Exception → ℕ → List ℕ → Result Copied
copy_whole refusal max_bytes content =
    if ltb max_bytes (length content) then raise refusal else ok (all_of content)

all_of-append : (xs ys : List ℕ) → copy_add (all_of xs) ys ≡ all_of (xs ++ ys)
all_of-append xs ys = ground (arith, length-append xs ys)

pub copy_whole_within :
    (refusal : Exception) (m : ℕ) (xs : List ℕ)
    → length xs ≤ m
    → copy_whole refusal m xs ≡ ok (all_of xs)
copy_whole_within refusal m xs h = rw (le→ltb m (length xs) h)

copy_whole_beyond :
    (refusal : Exception) (m : ℕ) (xs : List ℕ)
    → m < length xs
    → copy_whole refusal m xs ≡ raise refusal
copy_whole_beyond refusal m xs h = rw (lt→ltb m (length xs) h)

pub copy_whole-eq-ok :
    (refusal : Exception) (m : ℕ) (xs : List ℕ) {s : Copied}
    → copy_whole refusal m xs ≡ ok s
    → (all_of xs ≡ s) × (length xs ≤ m)
copy_whole-eq-ok refusal m xs h = ground arith

module _ (reader : Reader) (chunk_size : ℕ) (refusal : Exception) where
  open reader use {Body, read, content, content-read, read_end}

  pub copy-eq-copy_whole :
      (fuel m : ℕ) (chunk : List ℕ) (body : Body) (xs : List ℕ)
      → 0 < chunk_size
      → length xs ≤ m
      → (chunk ≡ [] → content body ≡ [])
      → m - length xs + 1 < fuel
      → copy reader chunk_size refusal fuel m chunk body (all_of xs)
        ≡ copy_whole refusal m (xs ++ (chunk ++ content body))
  unfolding copy
  copy-eq-copy_whole zero m chunk body xs large fits at_end enough = absurd (omega arith)
  copy-eq-copy_whole (suc fuel) m [] body xs large fits at_end enough =
      rw (at_end refl, append-nil xs) (sym (copy_whole_within refusal m xs fits))
  copy-eq-copy_whole (suc fuel) m (b ∷ bs) body xs large fits at_end enough =
      elim (Bool-cases (ltb m (length xs + length (b ∷ bs)))) [
        | inl over ↦ rw over (
            sym (
              copy_whole_beyond refusal m (xs ++ (b ∷ (bs ++ content body))) (
                omega (
                  arith,
                  ltb→lt m (length xs + suc (length bs)) over,
                  length-append xs (b ∷ (bs ++ content body)),
                  length-append bs (content body),
                ))))
        | inr under ↦
            let next = read chunk_size body in
            let room : length xs + suc (length bs) ≤ m =
              ltb→le m (length xs + suc (length bs)) under in
            let grown : length (xs ++ (b ∷ bs)) ≡ length xs + suc (length bs) =
              length-append xs (b ∷ bs) in
            rw under (
              rw (all_of-append xs (b ∷ bs)) (
                copy-eq-copy_whole fuel m next.0 next.1 (xs ++ (b ∷ bs)) large (omega arith)
                  (λ e. read_end chunk_size body large e) (omega arith)
                ∙ ap (copy_whole refusal m) (
                    append_assoc xs (b ∷ bs) (next.0 ++ content next.1)
                    ∙ ap (λ ys. xs ++ (b ∷ (bs ++ ys))) (sym (content-read chunk_size body)))))
      ]
