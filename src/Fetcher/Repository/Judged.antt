-- ===== src/Fetcher/Repository/Judged.antt =====
-- What the checks of an inspected version come to: workers/document_fetcher.py, `process`.
use enterprise_rag_ingestion.Prelude.{
  ◌≡◌, refl, true, Option, none, some, nat_eq, string_eq, ◌==◌, eq_iff, arith, Bool-cases, ◌⊎◌, ◌≢◌,
  inl, inr, String,
}
use enterprise_rag_ingestion.Exceptions.{FetchValidationError}
use enterprise_rag_ingestion.Database.{Version}
use enterprise_rag_ingestion.Fetcher.Inspect.{SourceInspection, permitted_mime}
use enterprise_rag_ingestion.Fetcher.Repository.{verdict}

-- The declared types that the fetcher lets pass.
abbrev pub IsPermitted : String → Type 0
IsPermitted m = (m ≡ "application/pdf") ⊎ (m ≡ "application/octet-stream")

-- What the checks of an inspected version come to, and why.
pub data Judged (v : Version) (i : SourceInspection) : Option FetchValidationError → Type 0 where
  matches : i.content_sha256 ≡ v.content_sha256 → IsPermitted v.mime_type → Judged v i none
  differs :
      {e : FetchValidationError}
      → i.content_sha256 ≢ v.content_sha256
      → e.code ≡ "source_checksum_mismatch"
      → Judged v i (some e)
  mistyped :
      {e : FetchValidationError}
      → i.content_sha256 ≡ v.content_sha256
      → ¬ IsPermitted v.mime_type
      → e.code ≡ "declared_mime_type_mismatch"
      → Judged v i (some e)

permitted_mime-IsPermitted : (m : String) → permitted_mime m ≡ true → IsPermitted m
permitted_mime-IsPermitted m h = elim (Bool-cases (m == "application/pdf")) [
  | inl pdf ↦ inl ((eq_iff m "application/pdf").0 pdf)
  | inr other ↦ inr ((eq_iff m "application/octet-stream").0 (rw other at h))
]

IsPermitted-permitted_mime : (m : String) → IsPermitted m → permitted_mime m ≡ true
IsPermitted-permitted_mime m (inl pdf) = rw ((eq_iff m "application/pdf").1 pdf) refl
IsPermitted-permitted_mime m (inr binary) =
    ground (arith, (eq_iff m "application/octet-stream").1 binary)

-- The checks of an inspected version end without an error where its checksum is the one that was
-- submitted and its declared type is `application/pdf` or `application/octet-stream`, with the error
-- `source_checksum_mismatch` where the checksum is another one, and with the error
-- `declared_mime_type_mismatch` where only the type is another one.
pub verdict-Judged : (v : Version) (i : SourceInspection) → Judged v i (verdict v (some i) none)
unfolding verdict
verdict-Judged v i = elim (Bool-cases (i.content_sha256 == v.content_sha256)) [
  | inr other ↦ rw other (
      differs (λ same. absurd (cc (other, (eq_iff i.content_sha256 v.content_sha256).1 same))) refl)
  | inl same ↦ elim (Bool-cases (permitted_mime v.mime_type)) [
    | inl permitted ↦
        rw (same, permitted)
          (matches ((eq_iff i.content_sha256 v.content_sha256).0 same)
            (permitted_mime-IsPermitted v.mime_type permitted))
    | inr refused ↦
        rw (same, refused)
          (mistyped ((eq_iff i.content_sha256 v.content_sha256).0 same)
            (λ p. absurd (cc (refused, IsPermitted-permitted_mime v.mime_type p))) refl)
  ]
]
