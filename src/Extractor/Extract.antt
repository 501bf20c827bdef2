-- ===== src/Extractor/Extract.antt =====
-- `extract_pdf` and `DoclingPdfConverter.convert` of workers/content_extractor.py. Docling, SHA-256,
-- `str`, `str.lower` and the length of a stripped text are parameters.
pub mod Stream
use enterprise_rag_ingestion.Prelude.{
  ℕ, zero, suc, ◌+◌, ◌*◌, String, Bool, Option, none, some, List, [], ◌∷◌, ◌++◌, length, nat_eq,
  string_eq, ◌==◌, ltb, if◌then◌else◌,
}
use enterprise_rag_ingestion.Json.{
  Value, bool, text, list, dict, Items, nil, cons, Fields, end, field, named, num,
}
use enterprise_rag_ingestion.Exceptions.{
  ExtractionError, Result, ok, raise, extraction, runtime_error, no_fuel, ◌>>=◌,
}
use enterprise_rag_ingestion.Database.{ExtractionStatus}
use enterprise_rag_ingestion.Streams.{Reader}
use enterprise_rag_ingestion.Streams.Copy.{Copied, copy_start, copy}
use enterprise_rag_ingestion.Extractor.Repository.{ExtractionResult}
use enterprise_rag_ingestion.Extractor.Sanitize.{
  get_field, or_value, without_binary_fields, figure_evidence,
}

abbrev pub chunk_size : ℕ
chunk_size = 1024 * 1024

abbrev pub source_too_large : ExtractionError
source_too_large = record {
  code = "source_too_large";
  detail = "Document exceeds the extraction size limit.";
}

abbrev pub empty_source : ExtractionError
empty_source = record { code = "empty_source"; detail = "Document has no bytes to extract." }

abbrev pub source_checksum_mismatch : ExtractionError
source_checksum_mismatch = record {
  code = "source_checksum_mismatch";
  detail = "Source bytes do not match the fetched checksum.";
}

abbrev pub docling_conversion_failed : ExtractionError
docling_conversion_failed = record {
  code = "docling_conversion_failed";
  detail = "Docling could not normalize this PDF.";
}

abbrev pub invalid_docling_output : ExtractionError
invalid_docling_output = record {
  code = "invalid_docling_output";
  detail = "Docling did not produce a structured document.";
}

-- What Docling comes to on a file.
pub data Conversion : Type 0 where
  not_installed : Conversion
  failed : Conversion
  converted : Value → String → Conversion

-- The libraries, and the version of Docling.
pub record Libraries : Type 0 where
  pub sha256 : List ℕ → String
  pub docling : List ℕ → Conversion
  pub docling_version : String
  pub lower : String → String
  pub str : Value → String
  pub stripped_length : String → ℕ

module _ (libraries : Libraries) where
  open libraries use {sha256, docling, docling_version, lower, str, stripped_length}

  abbrev structured : String → Value → Result (Fields × String)
  structured markdown (dict exported) = ok (without_binary_fields lower exported, markdown)
  structured markdown _ = raise (extraction invalid_docling_output)

  abbrev outcome : Conversion → Result (Fields × String)
  outcome not_installed = raise (runtime_error "Docling is not installed in the worker image.")
  outcome failed = raise (extraction docling_conversion_failed)
  outcome (converted exported markdown) = structured markdown exported

  unfoldable pub convert : List ℕ → Result (Fields × String)
  convert written = outcome (docling written)

  abbrev items_length : Items → ℕ
  items_length nil = 0
  items_length (cons v rest) = suc (items_length rest)

  abbrev list_length : Value → ℕ
  list_length (list items) = items_length items
  list_length _ = 0

  -- `status` of a text length.
  abbrev pub status_of : ℕ → ExtractionStatus
  status_of zero = ExtractionStatus.needs_review
  status_of (suc n) = ExtractionStatus.succeeded

  -- The result of a source whose checksum is the expected one.
  unfoldable pub result_of : ℕ → Fields → String → ExtractionResult
  result_of total exported markdown =
      let figures = figure_evidence lower str exported in
      let text_length = stripped_length markdown in
      record {
        normalized = field (named "schema_version") (text "1.0.0") (
            field (named "format") (text "pdf") (
              field (named "markdown") (text markdown) (
                field (named "document") (dict exported) (
                  field (named "figures") (list figures)
                    (field (named "visual_interpretation") (text "not_performed") end)))));
        manifest = record {
          extractor = "docling";
          extractor_version = docling_version;
          quality = field (named "source_bytes") (num total) (
              field (named "text_characters") (num text_length) (
                field (named "table_count")
                  (num (list_length (or_value (get_field "tables" exported) (list nil))))
                  (field (named "figure_count") (num (items_length figures)) (
                    field (named "empty_text") (bool (text_length == 0))
                      (field (named "visual_interpretation") (text "not_performed") end)))));
        };
        extraction_status = status_of text_length;
      }

  -- What follows the conversion: `exported` is sanitized once more.
  unfoldable pub check_and_build : String → Copied → Fields × String → Result ExtractionResult
  check_and_build expected_sha256 s (exported, markdown) =
      if sha256 s.hashed == expected_sha256
      then ok (result_of s.total (without_binary_fields lower exported) markdown)
      else raise (extraction source_checksum_mismatch)

  -- What follows the loop.
  unfoldable pub conclude : String → Copied → Result ExtractionResult
  conclude expected_sha256 s =
      if s.total == 0
      then raise (extraction empty_source)
      else (convert s.written >>= check_and_build expected_sha256 s)

module _ (libraries : Libraries) (reader : Reader) where
  open reader use {Body, read}

  -- Each round but the last adds a byte at least, so `max_bytes + 2` rounds are enough.
  unfoldable pub extract_pdf : ℕ → String → Body → Result ExtractionResult
  unfolding conclude
  extract_pdf max_bytes expected_sha256 source =
      let first = read chunk_size source in
      copy reader chunk_size (extraction source_too_large) (suc (suc max_bytes)) max_bytes first.0
        first.1 copy_start
      >>= conclude libraries expected_sha256
