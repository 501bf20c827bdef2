-- ===== src/Extractor/Sanitize/Clean.antt =====
-- What `_without_binary` leaves is JSON without a binary key, at any depth.
use enterprise_rag_ingestion.Prelude.{
  String, ◌≡◌, false, inl, inr, Bool-cases, string_eq, ◌==◌, if◌then◌else◌,
}
use enterprise_rag_ingestion.Json.{
  Value, null, bool, int, float, text, list, dict, object, Items, nil, cons, Fields, end, field,
  named, converted, key_text,
}
use enterprise_rag_ingestion.Extractor.Sanitize.{
  get_field, drop_field, or_value, put_first, is_binary_key, without_binary, without_binary_items,
  without_binary_fields,
}

module _ (lower : String → String) where
  unfoldable mutual
    pub IsClean : Value → Type 0
    IsClean null = Unit
    IsClean (bool b) = Unit
    IsClean (int n) = Unit
    IsClean (float bits) = Unit
    IsClean (text s) = Unit
    IsClean (list items) = AreClean items
    IsClean (dict entries) = EntriesClean entries
    IsClean (object s) = ⊥

    pub AreClean : Items → Type 0
    AreClean nil = Unit
    AreClean (cons v rest) = IsClean v × AreClean rest

    pub EntriesClean : Fields → Type 0
    EntriesClean end = Unit
    EntriesClean (field (named k) v rest) =
        (is_binary_key lower k ≡ false) × IsClean v × EntriesClean rest
    EntriesClean (field (converted k) v rest) = ⊥

  get_field-IsClean :
      (k : String) (v : Value) (entries : Fields)
      → IsClean v
      → EntriesClean entries
      → IsClean (or_value (get_field k entries) v)
  unfolding IsClean get_field
  get_field-IsClean k v end clean rest = clean
  get_field-IsClean k v (field (named j) w entries) clean (key, one, rest) =
      elim (Bool-cases (j == k)) [
        | inl same ↦ rw same one
        | inr other ↦ rw other (get_field-IsClean k v entries clean rest)
      ]
  get_field-IsClean k v (field (converted j) w entries) clean rest = absurd rest

  drop_field-EntriesClean :
      (k : String) (entries : Fields) → EntriesClean entries → EntriesClean (drop_field k entries)
  unfolding IsClean drop_field
  drop_field-EntriesClean k end clean = tt
  drop_field-EntriesClean k (field (named j) w entries) (key, one, rest) =
      elim (Bool-cases (j == k)) [
        | inl same ↦ rw same (drop_field-EntriesClean k entries rest)
        | inr other ↦ rw other (key, one, drop_field-EntriesClean k entries rest)
      ]
  drop_field-EntriesClean k (field (converted j) w entries) clean = absurd clean

  add_entry :
      (k : String) (v : Value) (entries : Fields)
      → IsClean v
      → EntriesClean entries
      → EntriesClean (if is_binary_key lower k then entries else put_first k v entries)
  unfolding IsClean put_first
  add_entry k v entries clean rest = elim (Bool-cases (is_binary_key lower k)) [
    | inl binary ↦ rw binary rest
    | inr plain ↦
        rw plain
          (plain, get_field-IsClean k v entries clean rest, drop_field-EntriesClean k entries rest)
  ]

  mutual
    unfolding IsClean without_binary

    cleaned : (v : Value) → IsClean (without_binary lower v)
    cleaned null = tt
    cleaned (bool b) = tt
    cleaned (int n) = tt
    cleaned (float bits) = tt
    cleaned (text s) = tt
    cleaned (list items) = cleaned_items items
    cleaned (dict entries) = cleaned_fields entries
    cleaned (object s) = tt

    cleaned_items : (items : Items) → AreClean (without_binary_items lower items)
    cleaned_items nil = tt
    cleaned_items (cons v rest) = (cleaned v, cleaned_items rest)

    cleaned_fields : (entries : Fields) → EntriesClean (without_binary_fields lower entries)
    cleaned_fields end = tt
    cleaned_fields (field k v rest) =
        add_entry (key_text k) (without_binary lower v) (without_binary_fields lower rest)
          (cleaned v) (cleaned_fields rest)

  -- Whatever the value, `_without_binary` returns JSON: no bytes, tuple or other object is left in it,
  -- every key is a text, and no key is, in lower case, one of the binary keys, at any depth.
  pub without_binary-IsClean : (v : Value) → IsClean (without_binary lower v)
  without_binary-IsClean v = cleaned v
