-- ===== src/Schema/Registry/Display.antt =====
-- `Display for ValidationError` of src/schema/registry.rs.
use kind.Prelude.{ℕ, List, [], ◌∷◌, ◌++◌, Option, none, some, Text, codes}
use kind.Schema.Registry.{
  ValidationError, type_not_found, field_missing, invalid_type, invalid_enum_variant, out_of_fuel,
  Expected, object, string_value, integer, float, boolean_value, enum_variant, array_value,
  FieldPath,
}

abbrev pub expected_text : Expected → Text
expected_text object = codes "Object"
expected_text string_value = codes "String"
expected_text integer = codes "Integer"
expected_text float = codes "Float"
expected_text boolean_value = codes "Boolean"
expected_text enum_variant = codes "String (Enum Variant)"
expected_text array_value = codes "Array"

module _ (number : ℕ → Text) where
  -- `format!("{}[{}]", field_name, i)`, from the outside in.
  unfoldable pub field_text : Text → List ℕ → Text
  field_text field [] = field
  field_text field (i ∷ positions) =
      field_text field positions ++ (codes "[" ++ (number i ++ codes "]"))

  abbrev pub path_text : FieldPath → Text
  path_text path = field_text path.field path.positions

  -- `none` where the model ran out of fuel.
  unfoldable pub display : ValidationError → Option Text
  unfolding field_text
  display (type_not_found t) = some (codes "Type not found: " ++ t)
  display (field_missing field) = some (codes "Missing required field: " ++ field)
  display (invalid_type path expected) = some (
      codes "Invalid type for field '"
      ++ (path_text path ++ (codes "', expected " ++ expected_text expected)))
  display (invalid_enum_variant path variant) = some (
      codes "Invalid enum variant '"
      ++ (variant ++ (codes "' for field '" ++ (path_text path ++ codes "'"))))
  display out_of_fuel = none
