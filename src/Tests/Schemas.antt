-- ===== src/Tests/Schemas.antt =====
-- A schema that is parsed, and a value that is validated.
use kind.Prelude.{
  ◌≡◌, ◌≢◌, ◌↔◌, refl, true, false, [], ◌∷◌, some, Text, text_eq, codes, filter, contains, text_beq,
  arith,
}
use kind.Prelude.Map
use kind.Prelude.Result.{ok, err}
use kind.Schema.Ast.{FieldDefinition, SchemaNode, string, custom, array}
use kind.Schema.Lexer.{span, skip_whitespace, token_at, dispatch, next_token_within, next_token}
use kind.Schema.Parser.{
  ParseError, out_of_fuel, data_type_named, advance, identifier_in, expect_identifier, match_token,
  parse_data_type, separator, parse_field, parse_fields, parse_variants, literal_in, parse_prefix,
  parse_type, parse_enum, parse_definition, parse_node, parse_nodes, parse, expected_comma_or_brace,
}
use kind.Schema.Parser
use kind.Schema.Parser.Fuel.{parse_ends}
use kind.Schema.Registry.{validate, invalid_type, string_value}
use kind.Schema.Registry.{
  validate_members, validate_with, validate_items, validate_custom, validate_array, validate_kind,
  validate_field,
}
use kind.Schema.Registry.Validation.{HasRecord}
use kind.Schema.Registry.Validation.Complete.{validate_accepts}
use kind.Schema.Lexer.Fuel.{Lexes, next_token_within-Lexes}
use kind.Tests.Codec.{ascii}
use kind.Tests.Tree.{Tree, trees, object, text, member, no_members, number}
use kind.Tests.Samples.{registry}

unfoldable schema_program : Unit {0}
unfolding span skip_whitespace token_at dispatch next_token_within next_token data_type_named
    advance identifier_in expect_identifier match_token parse_data_type separator parse_field
    parse_fields parse_variants literal_in parse_prefix parse_type parse_enum parse_definition
    parse_node parse_nodes parse Parser.new text_beq contains filter Map.get validate_members
    validate_with validate_items validate_custom validate_array validate_kind validate_field
    validate
schema_program = tt

abbrev sdl : Text
sdl = codes "@prefix(\"user\") type User { @indexed city: String, tags: [Tag] } enum Tag { A, B }"

abbrev city : FieldDefinition
city = record { name = codes "city"; data_type = string; is_indexed = true }

abbrev tags : FieldDefinition
tags = record { name = codes "tags"; data_type = array (custom (codes "Tag")); is_indexed = false }

parsed :
    parse ascii sdl
    ≡ ok (
        SchemaNode.type
          (record { name = codes "User"; fields = city ∷ tags ∷ []; prefix = some (codes "user") })
        ∷ SchemaNode.enum (record { name = codes "Tag"; variants = codes "A" ∷ codes "B" ∷ [] })
        ∷ [])
unfolding schema_program
parsed = refl

no_comma : parse ascii (codes "enum Tag { A B }") ≡ err expected_comma_or_brace
unfolding schema_program
no_comma = refl

parse_ends_example : parse ascii sdl ≢ err out_of_fuel
parse_ends_example = parse_ends ascii sdl

abbrev in_city : Tree → Tree
in_city v = object (member (codes "city") v no_members)

accepted : validate trees registry (codes "User") (in_city (text (codes "Berlin"))) ≡ ok tt
unfolding schema_program
accepted = refl

rejected :
    validate trees registry (codes "User") (in_city (number 7))
    ≡ err (invalid_type (record { field = codes "city"; positions = [] }) string_value)
unfolding schema_program
rejected = refl

validate_accepts_example :
    (validate trees registry (codes "User") (in_city (text (codes "Berlin"))) ≡ ok tt)
    ↔ HasRecord trees registry (codes "User") (in_city (text (codes "Berlin")))
validate_accepts_example =
    validate_accepts trees registry (codes "User") (in_city (text (codes "Berlin")))

next_token_within-Lexes_example : Lexes 4 (next_token_within ascii 5 (codes "type"))
unfolding schema_program
next_token_within-Lexes_example = next_token_within-Lexes ascii 5 (codes "type") (omega arith)
