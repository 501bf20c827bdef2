-- ===== src/Uuid.antt =====
-- Python's `uuid.UUID`. An identifier is its 128-bit integer; its text form belongs to the standard
-- library and is given by a codec.
use enterprise_rag_ingestion.Prelude.{ℕ, String, ◌^◌, ◌<◌, ◌≡◌, Option, none, some}
use enterprise_rag_ingestion.Exceptions.{Result, ok, raise, value_error}

abbrev pub Uuid : Type 0
Uuid = ℕ

-- `str(u)` and `UUID(text)`, where `none` is the `ValueError` of a badly formed text.
pub record Codec : Type 0 where
  pub str : Uuid → String
  pub parse : String → Option Uuid
  pub parse-str : (u : Uuid) → u < 2 ^ 128 → parse (str u) ≡ some u

abbrev or_value_error : Option Uuid → Result Uuid
or_value_error none = raise value_error
or_value_error (some u) = ok u

-- `UUID(text)`
unfoldable pub uuid : Codec → String → Result Uuid
uuid codec text = or_value_error (codec.parse text)
