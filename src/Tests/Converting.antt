-- ===== src/Tests/Converting.antt =====
-- The extractor's conversion and its worker on a file of six bytes.
use enterprise_rag_ingestion.Prelude.{◌≤◌, ◌≡◌, refl, string_eq, length, true}
use enterprise_rag_ingestion.Json.{
  Value, bool, text, list, dict, object, nil, cons, end, field, named, converted as converted_key,
}
use enterprise_rag_ingestion.Exceptions.{extraction, ok, ◌>>=◌}
use enterprise_rag_ingestion.Uuid.{uuid}
use enterprise_rag_ingestion.Streams.{bytes_io}
use enterprise_rag_ingestion.Extractor.Payload.{Ids, payload_ids}
use enterprise_rag_ingestion.Extractor.Sanitize.{without_binary, put_first, get_field, drop_field}
use enterprise_rag_ingestion.Extractor.Sanitize.Clean.{IsClean, without_binary-IsClean}
use enterprise_rag_ingestion.Streams.Copy.{copy, copy_whole}
use enterprise_rag_ingestion.Extractor.Extract.{
  source_too_large, Libraries, converted, result_of, conclude, convert, check_and_build,
  extract_pdf,
}
use enterprise_rag_ingestion.Extractor.Extract.Stream.{extract_pdf-eq-copy_whole, extract_pdf-eq-ok}
use enterprise_rag_ingestion.Extractor.Worker.{Tools, Answers, handle}
use enterprise_rag_ingestion.Extractor.Worker.Settles.{Settled, handle-Settled}
use enterprise_rag_ingestion.Tests.Codec.{codec}
use enterprise_rag_ingestion.Tests.Data.{stamp, defaults, fetched, db}
use enterprise_rag_ingestion.Tests.Inspecting.{file}

abbrev libraries : Libraries
libraries = record {
  sha256 = λ bytes. "digest";
  docling = λ bytes. converted (dict end) "words";
  docling_version = "2.0";
  lower = λ s. s;
  str = λ v. "";
  stripped_length = λ s. 5;
}

-- A dictionary with bytes under a binary key, and under another.
abbrev exported : Value
exported = dict (
    field (named "image") (object "b'1'") (
      field (named "name") (object "b'2'")
        (field (converted_key "1") (list (cons (bool true) nil)) end)))

exported-sanitized :
    without_binary libraries.lower exported
    ≡ dict
        (field (named "name") (text "b'2'") (field (named "1") (list (cons (bool true) nil)) end))
unfolding without_binary put_first get_field drop_field
exported-sanitized = refl

without_binary-IsClean_example : IsClean libraries.lower (without_binary libraries.lower exported)
without_binary-IsClean_example = without_binary-IsClean libraries.lower exported

extract_pdf-eq-copy_whole_example :
    extract_pdf libraries bytes_io 16 "digest" file
    ≡ (copy_whole (extraction source_too_large) 16 file >>= conclude libraries "digest")
extract_pdf-eq-copy_whole_example = extract_pdf-eq-copy_whole libraries bytes_io 16 "digest" file

file-extracts :
    extract_pdf libraries bytes_io 16 "digest" file ≡ ok (result_of libraries 6 end "words")
unfolding extract_pdf copy conclude convert check_and_build result_of without_binary
file-extracts = refl

extract_pdf-eq-ok_example :
    (libraries.sha256 file ≡ "digest") × (1 ≤ length file) × (length file ≤ 16)
extract_pdf-eq-ok_example =
    extract_pdf-eq-ok libraries bytes_io 16 "digest" file (result_of libraries 6 end "words")
      file-extracts

abbrev pub tools : Tools
tools = record { codec = codec; reader = bytes_io; libraries = libraries; max_bytes = 16 }

abbrev pub answers : Answers tools
answers = record {
  get = λ uri. ok file;
  put_json = λ key value. ok key;
  stamp = stamp;
  defaults = defaults;
}

abbrev ids : Ids
ids = record { tenant_id = 1; document_id = 2; version_id = 3; received_event_id = 4 }

handle-Settled_example : Settled tools answers fetched ids db (handle tools answers fetched db)
unfolding payload_ids uuid
handle-Settled_example = handle-Settled tools answers fetched ids refl db
