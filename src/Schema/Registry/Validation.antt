-- ===== src/Schema/Registry/Validation.antt =====
-- The types of src/schema/registry.rs as rules, without an order of evaluation.
pub mod Sound
pub mod Complete
use kind.Prelude.{
  ℕ, zero, suc, ◌+◌, ◌<◌, ◌≤◌, ◌≡◌, ◌↔◌, refl, sym, ap, ◌∙◌, subst, Bool, true, false, List, [],
  ◌∷◌, Option, none, some, Text, text_eq, arith, contains, is_some, All, Option-cases, Bool-cases,
  inl, inr, codes, if_true, if_false, if◌then◌else◌,
}
use kind.Prelude.Map
use kind.Prelude.Result.{Result, ok, err, ◌>>=◌}
use kind.Json.{Json}
use kind.Schema.Ast.{
  DataType, FieldDefinition, TypeDefinition, EnumDefinition, string, u16, u32, u64, i32, i64, f64,
  boolean, custom, array,
}
use kind.Schema.Registry.{
  SchemaRegistry, ValidationError, Checked, FieldPath, Validator, some_or, check, top, is_integer,
  is_float, type_not_found, field_missing, invalid_type, invalid_enum_variant, enum_variant,
  array_value, object, validate_members, validate_with, validate_items, validate_variant,
  validate_named, validate_custom, validate_array, validate_kind, validate_field, validate,
}

abbrev pub IsIntegerType : DataType → Type 0
IsIntegerType u16 = Unit
IsIntegerType u32 = Unit
IsIntegerType u64 = Unit
IsIntegerType i32 = Unit
IsIntegerType i64 = Unit
IsIntegerType _ = ⊥

-- The rules of the types, without an order of evaluation.
mutual
  pub data HasType (j : Json) (reg : SchemaRegistry) : DataType → Json.Value j → Type 0 where
    a_string : {v : j.Value} → is_some (j.as_str v) ≡ true → HasType j reg string v
    an_integer :
        {t : DataType} {v : j.Value}
        → IsIntegerType t
        → is_integer j reg v ≡ true
        → HasType j reg t v
    a_float : {v : j.Value} → is_float j reg v ≡ true → HasType j reg f64 v
    a_boolean : {v : j.Value} → is_some (j.as_bool v) ≡ true → HasType j reg boolean v
    a_variant :
        {name : Text} {v : j.Value} {d : EnumDefinition} {s : Text}
        → Map.get name reg.enums ≡ some d
        → j.as_str v ≡ some s
        → contains d.variants s ≡ true
        → HasType j reg (custom name) v
    a_record :
        {name : Text} {v : j.Value}
        → Map.get name reg.enums ≡ none
        → HasRecord j reg name v
        → HasType j reg (custom name) v
    an_array :
        {t : DataType} {v : j.Value} {items : List j.Value}
        → j.as_array v ≡ some items
        → HasItems j reg t items
        → HasType j reg (array t) v

  pub data HasRecord (j : Json) (reg : SchemaRegistry) : Text → Json.Value j → Type 0 where
    of_type :
        {name : Text} {v : j.Value} {t : TypeDefinition} {obj : Text → Option j.Value}
        → Map.get name reg.types ≡ some t
        → j.as_object v ≡ some obj
        → HasMembers j reg t.fields obj
        → HasRecord j reg name v

  pub data HasMembers (j : Json) (reg : SchemaRegistry)
      : List FieldDefinition → (Text → Option (Json.Value j)) → Type 0 where
    no_fields : {obj : Text → Option j.Value} → HasMembers j reg [] obj
    field :
        {f : FieldDefinition} {fs : List FieldDefinition} {obj : Text → Option j.Value}
        {v : j.Value}
        → obj f.name ≡ some v
        → HasType j reg f.data_type v
        → HasMembers j reg fs obj
        → HasMembers j reg (f ∷ fs) obj

  pub data HasItems (j : Json) (reg : SchemaRegistry)
      : DataType → List (Json.Value j) → Type 0 where
    no_items : {t : DataType} → HasItems j reg t []
    item :
        {t : DataType} {v : j.Value} {vs : List j.Value}
        → HasType j reg t v
        → HasItems j reg t vs
        → HasItems j reg t (v ∷ vs)
