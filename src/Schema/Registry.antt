-- ===== src/Schema/Registry.antt =====
-- src/schema/registry.rs: loading a schema, and the validation of a value against it.
pub mod Validation
pub mod Display
use kind.Prelude.{
  ℕ, zero, suc, ◌+◌, Bool, true, false, ◌||◌, List, [], ◌∷◌, Option, none, some, Text, text_eq,
  codes, contains, filter, is_empty, is_some, if◌then◌else◌,
}
use kind.Prelude.Map
use kind.Prelude.Result.{Result, ok, err, ◌>>=◌, ◌>>◌}
use kind.Json.{Json}
use kind.Schema.Ast.{
  DataType, FieldDefinition, TypeDefinition, EnumDefinition, SchemaNode, string, u16, u32, u64, i32,
  i64, f64, boolean, custom, array,
}
use kind.Schema.Lexer.{CharClass}
use kind.Schema.Parser.{ParseError, parse}

pub record SchemaRegistry : Type 0 where
  pub types : List (Text × TypeDefinition)
  pub enums : List (Text × EnumDefinition)
  pub prefix_map : List (Text × Text)

-- The kinds of value that `InvalidType` names as expected.
pub data Expected : Type 0 where
  object string_value integer float boolean_value enum_variant array_value : Expected

-- A field inside an array is named with its positions, `field[i]`: the name, and the positions
-- from the inside out.
pub record FieldPath : Type 0 where
  pub field : Text
  pub positions : List ℕ

-- `out_of_fuel` belongs to the model only.
pub data ValidationError : Type 0 where
  type_not_found : Text → ValidationError
  field_missing : Text → ValidationError
  invalid_type : FieldPath → Expected → ValidationError
  invalid_enum_variant : FieldPath → Text → ValidationError
  out_of_fuel : ValidationError

abbrev pub Checked : Type 0
Checked = Result ValidationError (Unit {0})

abbrev pub new : SchemaRegistry
new = record { types = []; enums = []; prefix_map = [] }

module _ (u : CharClass) where
  -- `prefix.unwrap_or_else(|| name.to_lowercase())`.
  abbrev pub prefix_of : Text → Option Text → Text
  prefix_of name none = u.to_lowercase name
  prefix_of name (some p) = p

  -- The body of the loop over the nodes.
  unfoldable pub add_node : SchemaNode → SchemaRegistry → SchemaRegistry
  add_node (SchemaNode.type t) reg = record reg {
    prefix_map = Map.insert (prefix_of t.name t.prefix) t.name reg.prefix_map;
    types = Map.insert t.name t reg.types;
  }
  add_node (SchemaNode.enum d) reg = record reg { enums = Map.insert d.name d reg.enums }

  unfoldable pub add_nodes : List SchemaNode → SchemaRegistry → SchemaRegistry
  unfolding add_node
  add_nodes [] reg = reg
  add_nodes (node ∷ nodes) reg = add_nodes nodes (add_node node reg)

  -- A schema that does not parse leaves the registry as it was.
  unfoldable pub load_schema : Text → SchemaRegistry → SchemaRegistry × Result ParseError (Unit {0})
  unfolding parse add_nodes
  load_schema sdl reg = elim (parse u sdl) [
    | ok nodes ↦ (add_nodes nodes reg, ok tt)
    | err e ↦ (reg, err e)
  ]

abbrev pub some_or {ℓ κ} : {E : Type ℓ} {A : Type κ} → Option A → E → Result E A
some_or none e = err e
some_or (some a) e = ok a

abbrev pub check : Bool → ValidationError → Checked
check true e = ok tt
check false e = err e

-- `indexed_fields_for_prefix`.
unfoldable pub indexed_fields_for_prefix : SchemaRegistry → Text → Option (List FieldDefinition)
indexed_fields_for_prefix reg prefix = elim (Map.get prefix reg.prefix_map) [
  | none ↦ none
  | some type_name ↦ elim (Map.get type_name reg.types) [
    | none ↦ none
    | some t ↦
        let indexed = filter (λ (f : FieldDefinition). f.is_indexed) t.fields in
        if is_empty indexed then none else some indexed
  ]
]

module _ (j : Json) (reg : SchemaRegistry) where
  open j use {Value, as_object, as_array, as_str, as_bool, is_i64, is_u64, is_f64}

  abbrev pub Validator : Type 0
  Validator = FieldPath → DataType → Value → Checked

  abbrev pub top : Text → FieldPath
  top field = record { field = field; positions = [] }

  -- The loop over the fields of a type; `rec` is `validate_field`.
  unfoldable pub validate_members :
      Validator → List FieldDefinition → (Text → Option Value) → Checked
  validate_members rec [] obj = ok tt
  validate_members rec (f ∷ fields) obj = do
    v ← some_or (obj f.name) (field_missing f.name)
    rec (top f.name) f.data_type v
    validate_members rec fields obj

  unfoldable pub validate_with : Validator → Text → Value → Checked
  unfolding validate_members
  validate_with rec type_name data_value = do
    t ← some_or (Map.get type_name reg.types) (type_not_found type_name)
    obj ← some_or (as_object data_value) (invalid_type (top (codes "root")) object)
    validate_members rec t.fields obj

  -- The loop over the items of an array, `i` its counter.
  unfoldable pub validate_items : Validator → FieldPath → ℕ → DataType → List Value → Checked
  validate_items rec path i inner [] = ok tt
  validate_items rec path i inner (item ∷ items) = do
    rec (record path { positions = i ∷ path.positions }) inner item
    validate_items rec path (i + 1) inner items

  abbrev pub validate_variant : FieldPath → EnumDefinition → Option Text → Checked
  validate_variant path d none = err (invalid_type path enum_variant)
  validate_variant path d (some s) = check (contains d.variants s) (invalid_enum_variant path s)

  -- An enum of the name, or else a type of the name.
  abbrev pub validate_named : Validator → FieldPath → Text → Value → Option EnumDefinition → Checked
  validate_named rec path name v (some d) = validate_variant path d (as_str v)
  validate_named rec path name v none =
      if is_some (Map.get name reg.types)
      then validate_with rec name v
      else err (type_not_found name)

  unfoldable pub validate_custom : Validator → FieldPath → Text → Value → Checked
  unfolding validate_with
  validate_custom rec path name v = validate_named rec path name v (Map.get name reg.enums)

  unfoldable pub validate_array : Validator → FieldPath → DataType → Option (List Value) → Checked
  unfolding validate_items
  validate_array rec path inner none = err (invalid_type path array_value)
  validate_array rec path inner (some items) = validate_items rec path 0 inner items

  abbrev pub is_integer : Value → Bool
  is_integer v = is_i64 v || is_u64 v

  abbrev pub is_float : Value → Bool
  is_float v = is_f64 v || is_i64 v || is_u64 v

  -- The `match` on the data type.
  unfoldable pub validate_kind : Validator → Validator
  unfolding validate_custom validate_array
  validate_kind rec path string v = check (is_some (as_str v)) (invalid_type path string_value)
  validate_kind rec path u16 v = check (is_integer v) (invalid_type path integer)
  validate_kind rec path u32 v = check (is_integer v) (invalid_type path integer)
  validate_kind rec path u64 v = check (is_integer v) (invalid_type path integer)
  validate_kind rec path i32 v = check (is_integer v) (invalid_type path integer)
  validate_kind rec path i64 v = check (is_integer v) (invalid_type path integer)
  validate_kind rec path f64 v = check (is_float v) (invalid_type path float)
  validate_kind rec path boolean v = check (is_some (as_bool v)) (invalid_type path boolean_value)
  validate_kind rec path (custom name) v = validate_custom rec path name v
  validate_kind rec path (array inner) v = validate_array rec path inner (as_array v)

  unfoldable pub validate_field : ℕ → Validator
  unfolding validate_kind
  validate_field zero path t v = err out_of_fuel
  validate_field (suc fuel) path t v = validate_kind (validate_field fuel) path t v

  -- Each round goes to a smaller value, so the value's size is enough fuel.
  unfoldable pub validate : Text → Value → Checked
  unfolding validate_with validate_field
  validate type_name v = validate_with (validate_field (j.size v)) type_name v
