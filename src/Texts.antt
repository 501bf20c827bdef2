-- ===== src/Texts.antt =====
-- Texts read character by character: the operations of Python's `str` that the code uses, with their
-- laws on appended texts.
use Prim.Native.Char.{Char, code}
use Prim.Native.Nat.{zero, suc, ◌/◌, ◌%◌}
use Prim.Native.String.{String, [], ◌∷◌, ◌++◌, char_at}
use text.Mathlib.TextLemmas.{nil-append, cons-append}
use enterprise_rag_ingestion.Prelude.{
  ℕ, ◌≡◌, refl, Bool, true, false, ◌||◌, nat_eq, ◌==◌, ltb, if◌then◌else◌, arith,
}

-- The character of a code point.
abbrev pub is_char : ℕ → Char → Bool
is_char n c = code c == n

abbrev pub any : (Char → Bool) → String → Bool
any p [] = false
any p (c ∷ s) = p c || any p s

abbrev pub map_chars : (Char → Char) → String → String
map_chars f [] = []
map_chars f (c ∷ s) = f c ∷ map_chars f s

-- The characters that do not pass.
abbrev pub remove : (Char → Bool) → String → String
remove p [] = []
remove p (c ∷ s) = let rest = remove p s in if p c then rest else c ∷ rest

-- `lstrip`
abbrev pub lstrip : (Char → Bool) → String → String
lstrip p [] = []
lstrip p (c ∷ s) = let rest = lstrip p s in if p c then rest else c ∷ s

-- What stands before the first character that passes.
abbrev pub until : (Char → Bool) → String → String
until p [] = []
until p (c ∷ s) = let rest = until p s in if p c then [] else c ∷ rest

-- The text from the first character that passes.
abbrev pub from : (Char → Bool) → String → String
from p [] = []
from p (c ∷ s) = let rest = from p s in if p c then c ∷ s else rest

-- `str` of a number, by its decimal digits, least last. A number has no more digits than its value and
-- one.
abbrev digit : ℕ → Char
digit n = char_at "0123456789" n

abbrev digits : ℕ → ℕ → String → String
digits zero n shown = shown
digits (suc fuel) n shown =
    let more = digits fuel (n / 10) (digit (n % 10) ∷ shown) in
    if ltb n 10 then digit n ∷ shown else more

unfoldable pub decimal : ℕ → String
decimal n = digits (suc n) n ""

module _ (p : Char → Bool) where
  pub any-append : (s t : String) → any p (s ++ t) ≡ (any p s || any p t)
  any-append [] t = rw (nil-append t) refl
  any-append (c ∷ s) t = rw (cons-append c s t) (ground (arith, any-append s t))

  pub remove-clean : (s : String) → any p s ≡ false → remove p s ≡ s
  remove-clean [] h = refl
  remove-clean (c ∷ s) h = ground (arith, remove-clean s)

  pub until-clean : (s : String) → any p s ≡ false → until p s ≡ s
  until-clean [] h = refl
  until-clean (c ∷ s) h = ground (arith, until-clean s)

  pub until-append :
      (s t : String) (c : Char) → any p s ≡ false → p c ≡ true → until p (s ++ (c ∷ t)) ≡ s
  until-append [] t c h hit = rw (nil-append (c ∷ t)) (rw hit refl)
  until-append (d ∷ s) t c h hit = rw (cons-append d s (c ∷ t)) (ground (arith, until-append s t c))

  pub from-append :
      (s t : String) (c : Char) → any p s ≡ false → p c ≡ true → from p (s ++ (c ∷ t)) ≡ c ∷ t
  from-append [] t c h hit = rw (nil-append (c ∷ t)) (rw hit refl)
  from-append (d ∷ s) t c h hit = rw (cons-append d s (c ∷ t)) (ground (arith, from-append s t c))

-- A text without the characters of one kind has none of a narrower kind.
pub any-narrower :
    (p q : Char → Bool) (s : String)
    → ((c : Char) → p c ≡ false → q c ≡ false)
    → any p s ≡ false
    → any q s ≡ false
any-narrower p q [] narrow h = refl
any-narrower p q (c ∷ s) narrow h = ground (arith, narrow c, any-narrower p q s narrow)
