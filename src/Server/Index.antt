-- ===== src/Server/Index.antt =====
-- src/server.rs, lines 270-313: the secondary indexes.

pub mod Exact
use kind.Prelude.{
  ℕ, Bool, true, false, List, [], ◌∷◌, ◌++◌, Option, none, some, Text, text_eq, codes, nat_beq,
  is_some, if◌then◌else◌,
}
use kind.Prelude.Map
use kind.SkipMap.{SkipMap}
use kind.Json.{Json}
use kind.Schema.Ast.{FieldDefinition}
use kind.Schema.Registry.{SchemaRegistry, indexed_fields_for_prefix}
use kind.Wal.{Bytes}
use kind.Server.State.{Platform, KindServer, bool_text}

-- `key.split(':').next()`: the text before the first colon, or all of it.
unfoldable pub type_prefix : Text → Text
type_prefix [] = []
type_prefix (c ∷ cs) = let rest = type_prefix cs in if nat_beq c b':' then [] else c ∷ rest

-- `format!("{}:{}:{}", …)`.
abbrev pub index_key : Text → Text → Text → Text
index_key type_name field value = type_name ++ (b':' ∷ (field ++ (b':' ∷ value)))

module _ (j : Json) where
  -- `v_str`; `none` is the `continue`.
  unfoldable pub value_text : j.Value → Option Text
  value_text v = elim (j.as_str v) [
    | some s ↦ some s
    | none ↦ elim (j.as_number v) [
      | some n ↦ some (j.number_text n)
      | none ↦ elim (j.as_bool v) [ some b ↦ some (bool_text j b) | none ↦ none ]
    ]
  ]

  -- What one indexed field adds.
  unfoldable pub field_keys : Text → Text → Option j.Value → List Text
  unfolding value_text
  field_keys type_name field none = []
  field_keys type_name field (some v) = elim (value_text v) [
    | none ↦ []
    | some text ↦ index_key type_name field text ∷ []
  ]

  -- The loop over the indexed fields.
  unfoldable pub object_keys : Text → (Text → Option j.Value) → List FieldDefinition → List Text
  unfolding field_keys
  object_keys type_name obj [] = []
  object_keys type_name obj (f ∷ fields) =
      field_keys type_name f.name (obj f.name) ++ object_keys type_name obj fields

  -- The object that a value holds, if it is the JSON of one.
  unfoldable pub object_of : Bytes → Option (Text → Option j.Value)
  object_of val = elim (j.from_slice val) [ none ↦ none | some v ↦ j.as_object v ]

  unfoldable pub extract_index_keys : SchemaRegistry → Text → Bytes → List Text
  unfolding type_prefix object_of object_keys indexed_fields_for_prefix
  extract_index_keys reg key val = elim (indexed_fields_for_prefix reg (type_prefix key)) [
    | none ↦ []
    | some fields ↦ elim (object_of val) [
      | none ↦ []
      | some obj ↦ elim (Map.get (type_prefix key) reg.prefix_map) [
        | none ↦ []
        | some type_name ↦ object_keys type_name obj fields
      ]
    ]
  ]

module _ (p : Platform) where
  open p use {json, key_sets, index_maps}

  abbrev pub set_or_new : Option key_sets.Store → key_sets.Store
  set_or_new none = key_sets.empty
  set_or_new (some set) = set

  -- One round of `index_record`: the set of the index key, made if it is not there, gets the key.
  -- The set is shared with the map, so that the map holds the new set.
  unfoldable pub add_to_index : Text → Text → index_maps.Store → index_maps.Store
  add_to_index key idx_key indexes =
      index_maps.insert indexes idx_key
        (key_sets.insert (set_or_new (index_maps.get indexes idx_key)) key tt)

  unfoldable pub remove_from_index : Text → Text → index_maps.Store → index_maps.Store
  remove_from_index key idx_key indexes = elim (index_maps.get indexes idx_key) [
    | none ↦ indexes
    | some set ↦ index_maps.insert indexes idx_key (key_sets.remove set key)
  ]

  unfoldable pub add_all : Text → List Text → index_maps.Store → index_maps.Store
  unfolding add_to_index
  add_all key [] indexes = indexes
  add_all key (k ∷ ks) indexes = add_all key ks (add_to_index key k indexes)

  unfoldable pub remove_all : Text → List Text → index_maps.Store → index_maps.Store
  unfolding remove_from_index
  remove_all key [] indexes = indexes
  remove_all key (k ∷ ks) indexes = remove_all key ks (remove_from_index key k indexes)

  unfoldable pub index_record : Text → Bytes → KindServer p → KindServer p
  index_record key val s = record s {
    indexes = add_all key (extract_index_keys json s.schema_registry key val) s.indexes;
  }

  unfoldable pub remove_record_from_index : Text → Bytes → KindServer p → KindServer p
  remove_record_from_index key val s = record s {
    indexes = remove_all key (extract_index_keys json s.schema_registry key val) s.indexes;
  }
