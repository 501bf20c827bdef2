-- ===== src/Json.antt =====
-- The Python values that the workers persist as JSON. A column or an event field that the source
-- fills by `json.dumps` holds the value that the text encodes.
use enterprise_rag_ingestion.Prelude.{ℕ, String, Bool, string_eq, ◌==◌, if◌then◌else◌}

-- An `int`: `negsuc n` is -(n + 1).
pub data ℤ : Type 0 where
  pos : ℕ → ℤ
  negsuc : ℕ → ℤ

-- A dictionary key: a `str`, or the `str()` of another key.
pub data Key : Type 0 where
  named : String → Key
  converted : String → Key

abbrev pub key_text : Key → String
key_text (named s) = s
key_text (converted s) = s

-- A float is its 64-bit pattern. `object` is a value that is none of the JSON kinds (bytes, a tuple,
-- an instance), with its `str()`.
mutual
  pub data Value : Type 0 where
    null : Value
    bool : Bool → Value
    int : ℤ → Value
    float : ℕ → Value
    text : String → Value
    list : Items → Value
    dict : Fields → Value
    object : String → Value

  pub data Items : Type 0 where
    nil : Items
    cons : Value → Items → Items

  pub data Fields : Type 0 where
    end : Fields
    field : Key → Value → Fields → Fields

abbrev pub num : ℕ → Value
num n = int (ℤ.pos n)

-- `d[k] = v` for a text key.
unfoldable pub set_field : String → Value → Fields → Fields
set_field k v end = field (named k) v end
set_field k v (field j w rest) =
    if key_text j == k then field (named k) v rest else field j w (set_field k v rest)

-- `{**a, **b}`: the entries of `b` written over those of `a`.
unfoldable pub update : Fields → Fields → Fields
unfolding set_field
update a end = a
update a (field k v rest) = update (set_field (key_text k) v a) rest
