-- ===== src/Exceptions.antt =====
-- The exceptions that the modelled code raises, and a computation that may raise:
-- workers/document_fetcher.py (FetchValidationError), workers/content_extractor.py
-- (ExtractionError), and those of Python, SQLAlchemy and the storage client.
use enterprise_rag_ingestion.Prelude.{ℕ, String, ◌≡◌, refl, arith}
use enterprise_rag_ingestion.Json.{Fields}

pub record FetchValidationError : Type 0 where
  pub code : String
  pub detail : String
  pub metadata : Fields

pub record ExtractionError : Type 0 where
  pub code : String
  pub detail : String

-- `external` is an exception of a third-party client, with its message; `http_exception` has a status
-- code and a detail; `no_fuel` is no exception of
-- the program but the mark of a modelled loop that its fuel did not carry to the end.
pub data Exception : Type 0 where
  fetch_validation : FetchValidationError → Exception
  extraction : ExtractionError → Exception
  value_error : Exception
  assertion_error : Exception
  integrity_error : Exception
  multiple_results : Exception
  runtime_error : String → Exception
  external : String → Exception
  http_exception : ℕ → String → Exception
  no_fuel : Exception

pub data Result {ℓ} (A : Type ℓ) : Type ℓ where
  ok : A → Result A
  raise : Exception → Result A

module _ {ℓ κ} {A : Type ℓ} {B : Type κ} where
  infixl 10 ◌>>=◌
  -- The rest runs only if nothing was raised.
  abbrev pub ◌>>=◌ : Result A → (A → Result B) → Result B
  raise e >>= rest = raise e
  ok value >>= rest = rest value

-- A chain that returned went through a first value.
module _ {ℓ κ} {A : Type ℓ} {B : Type κ} where
  pub >>=-eq-ok :
      (first : Result A) (rest : A → Result B) {b : B}
      → (first >>= rest) ≡ ok b
      → (a : A) × (first ≡ ok a) × (rest a ≡ ok b)
  >>=-eq-ok (raise e) rest h = cc
  >>=-eq-ok (ok a) rest h = (a, refl, h)

-- A computation returns one value.
pub ok_unique {ℓ} : {A : Type ℓ} {r : Result A} {a b : A} → r ≡ ok a → r ≡ ok b → a ≡ b
ok_unique p q = ground arith
