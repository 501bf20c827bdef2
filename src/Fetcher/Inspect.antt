-- ===== src/Fetcher/Inspect.antt =====
-- `inspect_pdf` of workers/document_fetcher.py: the bounded read of the source, its checksum and the
-- structural inspection. pypdf and SHA-256 are parameters.
pub mod Stream
use enterprise_rag_ingestion.Prelude.{
  ℕ, zero, suc, ◌+◌, ◌-◌, ◌*◌, min, String, Bool, false, not, ◌&&◌, ◌||◌, Option, none, some, List,
  [], ◌∷◌, ◌++◌, length, string_eq, ◌==◌, ltb, if◌then◌else◌,
}
use enterprise_rag_ingestion.Json.{Value, null, bool, text, num, named, Fields, end, field}
use enterprise_rag_ingestion.Exceptions.{
  FetchValidationError, Result, ok, raise, fetch_validation, external, no_fuel, ◌>>=◌,
}
use enterprise_rag_ingestion.Streams.{Reader, starts_with}

abbrev pub chunk_size : ℕ
chunk_size = 1024 * 1024

pub record SourceInspection : Type 0 where
  pub detected_mime_type : String
  pub content_sha256 : String
  pub byte_size : ℕ
  pub metadata : Fields

-- What reading a file by `PdfReader(buffered, strict=False)` comes to: an encrypted document, a page
-- count, one of the errors that the inspection catches, or any other exception.
pub data PdfOutcome : Type 0 where
  encrypted : PdfOutcome
  pages : ℕ → PdfOutcome
  unreadable : PdfOutcome
  crashed : String → PdfOutcome

abbrev pub permitted_mime : String → Bool
permitted_mime m = m == "application/pdf" || m == "application/octet-stream"

-- `if declared_mime_type and declared_mime_type not in {…}`
abbrev pub mime_mismatch : Option String → Bool
mime_mismatch none = false
mime_mismatch (some m) = not (m == "") && not (permitted_mime m)

abbrev pub declared_mime_type_mismatch : FetchValidationError
declared_mime_type_mismatch = record {
  code = "declared_mime_type_mismatch";
  detail = "The submitted MIME type is not permitted by the PDF-first fetcher.";
  metadata = end;
}

abbrev pub invalid_pdf_signature : FetchValidationError
invalid_pdf_signature = record {
  code = "invalid_pdf_signature";
  detail = "Object does not start with a PDF signature.";
  metadata = end;
}

abbrev pub document_too_large : ℕ → ℕ → FetchValidationError
document_too_large max_document_bytes observed = record {
  code = "document_too_large";
  detail = "PDF exceeds the configured document byte limit.";
  metadata =
      field (named "max_document_bytes") (num max_document_bytes)
        (field (named "observed_bytes_at_rejection") (num observed) end);
}

abbrev pub encrypted_pdf_unsupported : FetchValidationError
encrypted_pdf_unsupported = record {
  code = "encrypted_pdf_unsupported";
  detail = "Encrypted PDFs are not supported by this pipeline.";
  metadata = end;
}

abbrev pub corrupt_pdf : FetchValidationError
corrupt_pdf = record {
  code = "corrupt_pdf";
  detail = "PDF could not be read by the PDF inspector.";
  metadata = end;
}

-- b"%PDF-"
abbrev pub pdf_signature : List ℕ
pdf_signature = b'%' ∷ b'P' ∷ b'D' ∷ b'F' ∷ b'-' ∷ []

abbrev optional_text : Option String → Value
optional_text none = null
optional_text (some s) = text s

abbrev pub inspection_facts : Option String → ℕ → ℕ → Fields
inspection_facts declared page_count max_document_bytes =
    field (named "declared_mime_type") (optional_text declared) (
      field (named "detected_mime_type") (text "application/pdf") (
        field (named "format") (text "pdf") (
          field (named "preliminary_page_count") (num page_count) (
            field (named "max_document_bytes") (num max_document_bytes)
              (field (named "is_encrypted") (bool false) end)))))

-- The loop's variables: what the digest was fed, what was written to the buffer, and the count.
pub record Scan : Type 0 where
  pub hashed : List ℕ
  pub buffered : List ℕ
  pub byte_size : ℕ

abbrev pub scan_start : Scan
scan_start = record { hashed = []; buffered = []; byte_size = 0 }

abbrev pub scan_add : Scan → List ℕ → Scan
scan_add s chunk = record {
  hashed = s.hashed ++ chunk;
  buffered = s.buffered ++ chunk;
  byte_size = s.byte_size + length chunk;
}

module _ (reader : Reader) where
  open reader use {Body, read}

  -- `while first_chunk: …`, on fuel. The next chunk is read only after the size test.
  unfoldable pub scan : ℕ → ℕ → List ℕ → Body → Scan → Result Scan
  scan zero max_document_bytes chunk body s = raise no_fuel
  scan (suc fuel) max_document_bytes [] body s = ok s
  scan (suc fuel) max_document_bytes (b ∷ bs) body s =
      let size = s.byte_size + length (b ∷ bs) in
      let remaining_bytes = max_document_bytes - size in
      let next = read (min chunk_size (remaining_bytes + 1)) body in
      let rest = scan fuel max_document_bytes next.0 next.1 (scan_add s (b ∷ bs)) in
      if ltb max_document_bytes size
      then raise (fetch_validation (document_too_large max_document_bytes size))
      else rest

module _ (sha256 : List ℕ → String) (open_pdf : List ℕ → PdfOutcome) where
  -- The inspection of the buffered bytes, and the result that is returned.
  unfoldable pub conclude : Option String → ℕ → Scan → Result SourceInspection
  conclude declared max_document_bytes s = elim (open_pdf s.buffered) [
    | encrypted ↦ raise (fetch_validation encrypted_pdf_unsupported)
    | unreadable ↦ raise (fetch_validation corrupt_pdf)
    | crashed e ↦ raise (external e)
    | pages page_count ↦ ok (record {
      detected_mime_type = "application/pdf";
      content_sha256 = sha256 s.hashed;
      byte_size = s.byte_size;
      metadata = inspection_facts declared page_count max_document_bytes;
    })
  ]

module _ (reader : Reader) (sha256 : List ℕ → String) (open_pdf : List ℕ → PdfOutcome) where
  open reader use {Body, read}

  -- Each round but the last adds a byte at least, and the count stays within the limit, so
  -- `max_document_bytes + 2` rounds are enough.
  unfoldable pub inspect_pdf : Option String → ℕ → Body → Result SourceInspection
  unfolding scan conclude
  inspect_pdf declared max_document_bytes source =
      let first = read (min chunk_size (max_document_bytes + 1)) source in
      if mime_mismatch declared
      then raise (fetch_validation declared_mime_type_mismatch)
      else if not (starts_with first.0 pdf_signature)
      then raise (fetch_validation invalid_pdf_signature)
      else (scan reader (suc (suc max_document_bytes)) max_document_bytes first.0 first.1 scan_start
          >>= conclude sha256 open_pdf declared max_document_bytes)
