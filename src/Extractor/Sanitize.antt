-- ===== src/Extractor/Sanitize.antt =====
-- `_without_binary` and `_figure_evidence` of workers/content_extractor.py. `str.lower` and `str` of
-- a value are parameters.
pub mod Clean
use enterprise_rag_ingestion.Prelude.{
  ℕ, zero, suc, ◌+◌, String, Bool, Option, none, some, List, [], ◌∷◌, string_eq, ◌==◌, has,
  if◌then◌else◌,
}
use enterprise_rag_ingestion.Json.{
  Value, null, bool, int, float, text, list, dict, object, Items, nil, cons, Fields, end, field,
  named, converted, key_text, num,
}

abbrev pub binary_keys : List String
binary_keys = "image" ∷ "image_data" ∷ "data" ∷ "binary" ∷ "base64" ∷ "pixels" ∷ []

-- `d.get(k)`: a key that is no text is not found.
unfoldable pub get_field : String → Fields → Option Value
get_field k end = none
get_field k (field (named j) v rest) = if j == k then some v else get_field k rest
get_field k (field (converted j) v rest) = get_field k rest

unfoldable pub drop_field : String → Fields → Fields
drop_field k end = end
drop_field k (field j v rest) =
    let kept = drop_field k rest in if key_text j == k then kept else field j v kept

abbrev pub or_value : Option Value → Value → Value
or_value none v = v
or_value (some w) v = w

-- An entry before the entries that follow it: of two with one key, the value of the later counts, at
-- the place of the first.
unfoldable pub put_first : String → Value → Fields → Fields
put_first k v rest = field (named k) (or_value (get_field k rest) v) (drop_field k rest)

module _ (lower : String → String) where
  abbrev pub is_binary_key : String → Bool
  is_binary_key k = has (λ b. b == lower k) binary_keys

  unfoldable mutual
    pub without_binary : Value → Value
    without_binary null = null
    without_binary (bool b) = bool b
    without_binary (int n) = int n
    without_binary (float bits) = float bits
    without_binary (text s) = text s
    without_binary (list items) = list (without_binary_items items)
    without_binary (dict entries) = dict (without_binary_fields entries)
    without_binary (object s) = text s

    pub without_binary_items : Items → Items
    without_binary_items nil = nil
    without_binary_items (cons v rest) = cons (without_binary v) (without_binary_items rest)

    pub without_binary_fields : Fields → Fields
    without_binary_fields end = end
    without_binary_fields (field k v rest) =
        let kept = without_binary_fields rest in
        if is_binary_key (key_text k) then kept else put_first (key_text k) (without_binary v) kept

  module _ (str : Value → String) where
    -- One figure's entry.
    unfoldable pub figure_entry : ℕ → Fields → Value
    figure_entry index figure = dict (
        field (named "figure_index") (num index) (
          field (named "self_ref") (text (str (or_value (get_field "self_ref" figure) (text "")))) (
            field (named "captions")
              (without_binary (or_value (get_field "captions" figure) (list nil)))
              (field (named "provenance")
                (without_binary (or_value (get_field "prov" figure) (list nil))) end))))

    unfoldable pub figures_from : ℕ → Items → Items
    figures_from index nil = nil
    figures_from index (cons (dict figure) rest) =
        cons (figure_entry index figure) (figures_from (index + 1) rest)
    figures_from index (cons _ rest) = figures_from (index + 1) rest

    abbrev figures_of : Value → Items
    figures_of (list items) = figures_from 0 items
    figures_of _ = nil

    unfoldable pub figure_evidence : Fields → Items
    figure_evidence document = figures_of (or_value (get_field "pictures" document) (list nil))
