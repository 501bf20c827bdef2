-- ===== src/Tests/Inspecting.antt =====
-- The inspection of a source on a file of six bytes.
use enterprise_rag_ingestion.Prelude.{ℕ, ◌≡◌, none, List, [], ◌∷◌}
use enterprise_rag_ingestion.Exceptions.{◌>>=◌}
use enterprise_rag_ingestion.Streams.{bytes_io, starts_with}
use enterprise_rag_ingestion.Fetcher.Inspect.{pages, inspect_pdf, conclude}
use enterprise_rag_ingestion.Fetcher.Inspect.Stream.{read_bounded, inspect_pdf-eq-read_bounded}
use enterprise_rag_ingestion.Fetcher.Worker.{Tools}
use enterprise_rag_ingestion.Tests.Codec.{codec}

abbrev pub tools : Tools
tools = record {
  codec = codec;
  reader = bytes_io;
  sha256 = λ bytes. "digest";
  open_pdf = λ bytes. pages 1;
  max_document_bytes = 16;
}

-- b"%PDF-1"
abbrev pub file : List ℕ
file = b'%' ∷ b'P' ∷ b'D' ∷ b'F' ∷ b'-' ∷ b'1' ∷ []

inspect_pdf-eq-read_bounded_example :
    inspect_pdf bytes_io tools.sha256 tools.open_pdf none 16 file
    ≡ (read_bounded 16 file >>= conclude tools.sha256 tools.open_pdf none 16)
unfolding starts_with
inspect_pdf-eq-read_bounded_example =
    inspect_pdf-eq-read_bounded bytes_io tools.sha256 tools.open_pdf none 16 file
