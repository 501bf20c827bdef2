-- ===== src/Tests/Codec.antt =====
-- A codec for the tests: an identifier is written as so many letters.
use Prim.Native.String.{String, ◌∷◌, count}
use text.Mathlib.TextLemmas.{length-cons}
use enterprise_rag_ingestion.Prelude.{ℕ, zero, suc, ◌≡◌, refl, ap, ◌∙◌, some}
use enterprise_rag_ingestion.Uuid.{Codec}

abbrev pub letters : ℕ → String
letters zero = ""
letters (suc n) = "x" ∷ letters n

pub count-letters : (n : ℕ) → count (letters n) ≡ n
count-letters zero = refl
count-letters (suc n) = length-cons "x" (letters n) ∙ ap suc (count-letters n)

abbrev pub codec : Codec
codec = record {
  str = letters;
  parse = λ s. some (count s);
  parse-str = λ u bound. ap some (count-letters u);
}
