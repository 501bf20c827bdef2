-- ===== src/Extractor/Extract/Stream.antt =====
-- The chunked copy of `extract_pdf` against the whole content of the source.
use enterprise_rag_ingestion.Prelude.{
  ℕ, suc, ◌≤◌, String, ◌≡◌, sym, ap, ◌∙◌, inl, inr, [], length, arith, Bool-cases, eq_iff,
  string_eq, nat_eq, ◌==◌,
}
use enterprise_rag_ingestion.Exceptions.{ok, extraction, ◌>>=◌, >>=-eq-ok}
use enterprise_rag_ingestion.Json.{Fields}
use enterprise_rag_ingestion.Streams.{Reader}
use enterprise_rag_ingestion.Streams.Copy.{Copied, copy_whole, copy-eq-copy_whole, copy_whole-eq-ok}
use enterprise_rag_ingestion.Extractor.Repository.{ExtractionResult}
use enterprise_rag_ingestion.Extractor.Extract.{
  convert, check_and_build, chunk_size, source_too_large, conclude, Libraries, extract_pdf,
}

module _ (libraries : Libraries) (reader : Reader) where
  open reader use {Body, read, content, content-read, read_end}

  -- `extract_pdf` copies the whole content, whatever the sizes of the chunks, or refuses it as too
  -- large exactly where it exceeds the limit; what it returns depends on the content only.
  pub extract_pdf-eq-copy_whole :
      (max_bytes : ℕ) (expected_sha256 : String) (source : Body)
      → extract_pdf libraries reader max_bytes expected_sha256 source ≡ (
          copy_whole (extraction source_too_large) max_bytes (content source)
          >>= conclude libraries expected_sha256)
  unfolding extract_pdf
  extract_pdf-eq-copy_whole m expected source =
      let first = read chunk_size source in
      ap (λ r. r >>= conclude libraries expected)
        (copy-eq-copy_whole reader chunk_size (extraction source_too_large) (suc (suc m)) m first.0
            first.1 [] (omega arith) (omega arith) (λ e. read_end chunk_size source (omega arith) e)
            (omega arith)
          ∙ ap (copy_whole (extraction source_too_large) m) (sym (content-read chunk_size source)))

  check_and_build-eq-ok :
      (expected : String) (s : Copied) (converted : Fields × String) (r : ExtractionResult)
      → check_and_build libraries expected s converted ≡ ok r
      → libraries.sha256 s.hashed ≡ expected
  unfolding check_and_build
  check_and_build-eq-ok expected s (exported, markdown) r h =
      ground (arith, eq_iff (libraries.sha256 s.hashed) expected)

  conclude-eq-ok :
      (expected : String) (s : Copied) (r : ExtractionResult)
      → conclude libraries expected s ≡ ok r
      → (libraries.sha256 s.hashed ≡ expected) × (1 ≤ s.total)
  unfolding conclude
  conclude-eq-ok expected s r h = elim (Bool-cases (s.total == 0)) [
    | inl empty ↦ absurd (cc (h, empty))
    | inr some_bytes ↦
        let (converted, ran, built) =
          >>=-eq-ok (convert libraries s.written) (check_and_build libraries expected s)
            (rw some_bytes at h) in
        (check_and_build-eq-ok expected s converted r built, ground arith)
  ]

  -- A result is returned only for a source that is not empty, is within the limit, and has the
  -- expected checksum as a whole.
  pub extract_pdf-eq-ok :
      (max_bytes : ℕ) (expected_sha256 : String) (source : Body) (r : ExtractionResult)
      → extract_pdf libraries reader max_bytes expected_sha256 source ≡ ok r
      → (libraries.sha256 (content source) ≡ expected_sha256)
        × (1 ≤ length (content source))
        × (length (content source) ≤ max_bytes)
  extract_pdf-eq-ok m expected source r h =
      let (s, copied, concluded) =
        >>=-eq-ok (copy_whole (extraction source_too_large) m (content source))
          (conclude libraries expected) (sym (extract_pdf-eq-copy_whole m expected source) ∙ h) in
      let (digest, bytes) = conclude-eq-ok expected s r concluded in
      let (same, fits) = copy_whole-eq-ok _ m (content source) copied in
      (
        ap (λ (x : Copied). libraries.sha256 x.hashed) same ∙ digest,
        omega (arith, ap (λ (x : Copied). x.total) same, bytes),
        fits,
      )
