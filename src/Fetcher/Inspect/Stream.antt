-- ===== src/Fetcher/Inspect/Stream.antt =====
-- The bounded read of `inspect_pdf` against the whole content of the source.
use enterprise_rag_ingestion.Prelude.{
  ℕ, zero, suc, ◌+◌, ◌-◌, ◌<◌, ◌≤◌, min, String, ◌≡◌, refl, sym, ap, ◌∙◌, not, inl, inr, Option,
  List, [], ◌∷◌, ◌++◌, length, length-append, append_assoc, append-nil, arith, ltb, ltb→lt, ltb→le,
  lt→ltb, le→ltb, if◌then◌else◌, Bool-cases,
}
use enterprise_rag_ingestion.Exceptions.{Result, ok, raise, fetch_validation, ◌>>=◌}
use enterprise_rag_ingestion.Streams.{Reader, starts_with}
use enterprise_rag_ingestion.Fetcher.Inspect.{
  PdfOutcome, Scan, chunk_size, document_too_large, scan, scan_add, scan_start, conclude,
  inspect_pdf, mime_mismatch, declared_mime_type_mismatch, invalid_pdf_signature, pdf_signature,
}

-- The loop's variables once all of `xs` is read.
abbrev full : List ℕ → Scan
full xs = record { hashed = xs; buffered = xs; byte_size = length xs }

-- The bounded read, by the whole content: a document over the limit is refused when one byte past
-- it has been seen.
abbrev pub read_bounded : ℕ → List ℕ → Result Scan
read_bounded max_document_bytes content =
    if ltb max_document_bytes (length content)
    then raise (fetch_validation (document_too_large max_document_bytes (max_document_bytes + 1)))
    else ok (full content)

full-append : (xs ys : List ℕ) → scan_add (full xs) ys ≡ full (xs ++ ys)
full-append xs ys = ground (arith, length-append xs ys)

read_bounded_within : (m : ℕ) (xs : List ℕ) → length xs ≤ m → read_bounded m xs ≡ ok (full xs)
read_bounded_within m xs h = rw (le→ltb m (length xs) h)

read_bounded_beyond :
    (m : ℕ) (xs : List ℕ)
    → m < length xs
    → read_bounded m xs ≡ raise (fetch_validation (document_too_large m (m + 1)))
read_bounded_beyond m xs h = rw (lt→ltb m (length xs) h)

module _ (reader : Reader) where
  open reader use {Body, read, content, content-read, length-read, read_end}

  scan-eq-read_bounded :
      (fuel m : ℕ) (chunk : List ℕ) (body : Body) (xs : List ℕ)
      → length xs ≤ m
      → length chunk ≤ m - length xs + 1
      → (chunk ≡ [] → content body ≡ [])
      → m - length xs + 1 < fuel
      → scan reader fuel m chunk body (full xs) ≡ read_bounded m (xs ++ (chunk ++ content body))
  unfolding scan
  scan-eq-read_bounded zero m chunk body xs fits short at_end enough = absurd (omega arith)
  scan-eq-read_bounded (suc fuel) m [] body xs fits short at_end enough =
      rw (at_end refl, append-nil xs) (sym (read_bounded_within m xs fits))
  scan-eq-read_bounded (suc fuel) m (b ∷ bs) body xs fits short at_end enough =
      elim (Bool-cases (ltb m (length xs + length (b ∷ bs)))) [
        | inl over ↦
            let size : length xs + suc (length bs) ≡ m + 1 =
              omega (arith, ltb→lt m (length xs + suc (length bs)) over) in
            rw over (
              rw size (
                sym (
                  read_bounded_beyond m (xs ++ (b ∷ (bs ++ content body))) (
                    omega (
                      arith,
                      length-append xs (b ∷ (bs ++ content body)),
                      length-append bs (content body),
                    )))))
        | inr under ↦
            let remaining = m - (length xs + suc (length bs)) in
            let n = min chunk_size (remaining + 1) in
            let room : length xs + suc (length bs) ≤ m =
              ltb→le m (length xs + suc (length bs)) under in
            let grown : length (xs ++ (b ∷ bs)) ≡ length xs + suc (length bs) =
              length-append xs (b ∷ bs) in
            rw under (
              rw (full-append xs (b ∷ bs)) (
                scan-eq-read_bounded fuel m (read n body).0 (read n body).1 (xs ++ (b ∷ bs))
                  (omega arith) (omega (arith, length-read n body))
                  (λ e. read_end n body (omega arith) e) (omega arith)
                ∙ ap (read_bounded m) (
                    append_assoc xs (b ∷ bs) ((read n body).0 ++ content (read n body).1)
                    ∙ ap (λ ys. xs ++ (b ∷ (bs ++ ys))) (sym (content-read n body)))))
      ]

  -- The first read, and the loop from its chunk, come to the bounded read of the whole content.
  pub scan_start-eq-read_bounded :
      (m : ℕ) (source : Body)
      → let first = read (min chunk_size (m + 1)) source in
        scan reader (suc (suc m)) m first.0 first.1 scan_start ≡ read_bounded m (content source)
  scan_start-eq-read_bounded m source =
      let n = min chunk_size (m + 1) in
      scan-eq-read_bounded (suc (suc m)) m (read n source).0 (read n source).1 [] (omega arith)
        (omega (arith, length-read n source)) (λ e. read_end n source (omega arith) e) (omega arith)
      ∙ ap (read_bounded m) (sym (content-read n source))

module _ (reader : Reader) (sha256 : List ℕ → String) (open_pdf : List ℕ → PdfOutcome) where
  open reader use {Body, read, content}

  -- `inspect_pdf` is the inspection of the whole content behind the two guards and the size limit:
  -- the chunked reads decide nothing, except that the signature is looked for in the first chunk.
  pub inspect_pdf-eq-read_bounded :
      (declared : Option String) (m : ℕ) (source : Body)
      → inspect_pdf reader sha256 open_pdf declared m source ≡ (
          if mime_mismatch declared
          then raise (fetch_validation declared_mime_type_mismatch)
          else if not (starts_with (read (min chunk_size (m + 1)) source).0 pdf_signature)
          then raise (fetch_validation invalid_pdf_signature)
          else (read_bounded m (content source) >>= conclude sha256 open_pdf declared m))
  unfolding inspect_pdf
  inspect_pdf-eq-read_bounded declared m source = rw (scan_start-eq-read_bounded reader m source)
