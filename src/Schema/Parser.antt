-- ===== src/Schema/Parser.antt =====
-- src/schema/parser.rs, lines 120-247: the parser. Its methods return the parser anew.
pub mod Ends
pub mod Fuel
use kind.Prelude.{
  ℕ, zero, suc, ◌+◌, Bool, false, List, [], ◌∷◌, ◌++◌, Option, none, some, Text, codes, text_beq,
  nat_beq, length, is_some, if◌then◌else◌,
}
use kind.Prelude.Result.{Result, ok, err, ◌>>=◌}
use kind.Schema.Ast.{
  DataType, FieldDefinition, SchemaNode, string, u16, u32, u64, i32, i64, f64, boolean, custom,
  array,
}
use kind.Schema.Lexer.{
  CharClass, Token, keyword_type, keyword_enum, identifier, string_literal, l_brace, r_brace,
  l_paren, r_paren, comma, colon, at_indexed, at_prefix, l_bracket, r_bracket, next_token,
}

-- The messages of the source, and `out_of_fuel`, which belongs to the model only.
pub data ParseError : Type 0 where
  expected_identifier expected_string_literal expected_comma_or_brace : ParseError
  expected_keyword out_of_fuel : ParseError
  expected : Token → ParseError

pub record Parser : Type 0 where
  pub current_token : Option Token
  pub input : Text

abbrev pub Parsed : Type 0 → Type 0
Parsed A = Result ParseError (A × Parser)

abbrev pub tag : Token → ℕ
tag keyword_type = 0
tag keyword_enum = 1
tag (identifier _) = 2
tag (string_literal _) = 3
tag l_brace = 4
tag r_brace = 5
tag l_paren = 6
tag r_paren = 7
tag comma = 8
tag colon = 9
tag at_indexed = 10
tag at_prefix = 11
tag l_bracket = 12
tag r_bracket = 13

-- `PartialEq` of `Token`.
abbrev pub token_beq : Token → Token → Bool
token_beq (identifier a) (identifier b) = text_beq a b
token_beq (string_literal a) (string_literal b) = text_beq a b
token_beq a b = nat_beq (tag a) (tag b)

-- `self.current_token == Some(expected)`.
abbrev pub is_token : Option Token → Token → Bool
is_token none wanted = false
is_token (some t) wanted = token_beq t wanted

abbrev pub at : Parser → Token → Bool
at p t = is_token p.current_token t

-- An upper bound of the tokens that are left, which is the fuel of the loops.
abbrev pub tokens_left : Parser → ℕ
tokens_left p = length p.input + (if is_some p.current_token then 1 else 0)

unfoldable pub data_type_named : Text → DataType
data_type_named name =
    if text_beq name (codes "String")
    then string
    else if text_beq name (codes "U16")
    then u16
    else if text_beq name (codes "U32")
    then u32
    else if text_beq name (codes "U64")
    then u64
    else if text_beq name (codes "I32")
    then i32
    else if text_beq name (codes "I64")
    then i64
    else if text_beq name (codes "F64")
    then f64
    else if text_beq name (codes "Boolean")
    then boolean
    else custom name

module _ (u : CharClass) where
  abbrev pub parser_of : Option Token × Text → Parser
  parser_of (t, rest) = record { current_token = t; input = rest }

  -- `Parser::new`.
  unfoldable pub new : Text → Parser
  new input = parser_of (next_token u input)

  unfoldable pub advance : Parser → Parser
  advance p = parser_of (next_token u p.input)

  unfoldable pub identifier_in : Option Token → Parser → Parsed Text
  identifier_in (some (identifier id)) p = ok (id, advance p)
  identifier_in _ p = err expected_identifier

  unfoldable pub expect_identifier : Parser → Parsed Text
  unfolding identifier_in
  expect_identifier p = identifier_in p.current_token p

  unfoldable pub match_token : Token → Parser → Result ParseError Parser
  match_token t p = if at p t then ok (advance p) else err (expected t)

  unfoldable pub parse_data_type : ℕ → Parser → Parsed DataType
  unfolding expect_identifier match_token
  parse_data_type zero p = err out_of_fuel
  parse_data_type (suc fuel) p =
      let array_type : Parsed DataType = do
        (inner, p') ← parse_data_type fuel (advance p)
        p'' ← match_token r_bracket p'
        ok (array inner, p'')
      in if at p l_bracket
        then array_type
        else do (name, p') ← expect_identifier p; ok (data_type_named name, p')

  -- The end of a round of either loop: a comma is passed over, a brace is left.
  unfoldable pub separator : Parser → Result ParseError Parser
  separator p =
      if at p comma
      then ok (advance p)
      else if at p r_brace
      then ok p
      else err expected_comma_or_brace

  -- One round of the loop over the fields.
  unfoldable pub parse_field : Parser → Parsed FieldDefinition
  unfolding expect_identifier match_token parse_data_type separator
  parse_field p = do
    let is_indexed = at p at_indexed
    let start = if is_indexed then advance p else p
    (name, p1) ← expect_identifier start
    p2 ← match_token colon p1
    (data_type, p3) ← parse_data_type (suc (tokens_left p2)) p2
    p4 ← separator p3
    ok (record { name = name; data_type = data_type; is_indexed = is_indexed }, p4)

  unfoldable pub parse_fields : ℕ → List FieldDefinition → Parser → Parsed (List FieldDefinition)
  unfolding parse_field
  parse_fields zero fields p = err out_of_fuel
  parse_fields (suc fuel) fields p =
      let round : Parsed (List FieldDefinition) = do
        (field, p') ← parse_field p
        parse_fields fuel (fields ++ field ∷ []) p'
      in if at p r_brace then ok (fields, p) else round

  unfoldable pub parse_variants : ℕ → List Text → Parser → Parsed (List Text)
  unfolding expect_identifier separator
  parse_variants zero variants p = err out_of_fuel
  parse_variants (suc fuel) variants p =
      let round : Parsed (List Text) = do
        (variant, p1) ← expect_identifier p
        p2 ← separator p1
        parse_variants fuel (variants ++ variant ∷ []) p2
      in if at p r_brace then ok (variants, p) else round

  unfoldable pub literal_in : Option Token → Parser → Parsed (Option Text)
  literal_in (some (string_literal s)) p = ok (some s, advance p)
  literal_in _ p = err expected_string_literal

  -- `@prefix("…")` in front of a node, if it is there.
  unfoldable pub parse_prefix : Parser → Parsed (Option Text)
  unfolding match_token literal_in
  parse_prefix p =
      if at p at_prefix
      then (do
        p1 ← match_token l_paren (advance p)
        (prefix, p2) ← literal_in p1.current_token p1
        p3 ← match_token r_paren p2
        ok (prefix, p3))
      else ok (none, p)

  unfoldable pub parse_type : Option Text → Parser → Parsed SchemaNode
  unfolding expect_identifier match_token parse_fields
  parse_type prefix p = do
    (name, p1) ← expect_identifier (advance p)
    p2 ← match_token l_brace p1
    (fields, p3) ← parse_fields (suc (tokens_left p2)) [] p2
    p4 ← match_token r_brace p3
    ok (SchemaNode.type (record { name = name; fields = fields; prefix = prefix }), p4)

  unfoldable pub parse_enum : Parser → Parsed SchemaNode
  unfolding expect_identifier match_token parse_variants
  parse_enum p = do
    (name, p1) ← expect_identifier (advance p)
    p2 ← match_token l_brace p1
    (variants, p3) ← parse_variants (suc (tokens_left p2)) [] p2
    p4 ← match_token r_brace p3
    ok (SchemaNode.enum (record { name = name; variants = variants }), p4)

  -- The `match` on the token behind the prefix.
  unfoldable pub parse_definition : Option Token → Option Text → Parser → Parsed SchemaNode
  unfolding parse_type parse_enum
  parse_definition (some keyword_type) prefix p = parse_type prefix p
  parse_definition (some keyword_enum) prefix p = parse_enum p
  parse_definition _ prefix p = err expected_keyword

  unfoldable pub parse_node : Parser → Parsed SchemaNode
  unfolding parse_prefix parse_definition
  parse_node p = do (prefix, p') ← parse_prefix p; parse_definition p'.current_token prefix p'

  unfoldable pub parse_nodes : ℕ → List SchemaNode → Parser → Parsed (List SchemaNode)
  unfolding parse_node
  parse_nodes zero nodes p = err out_of_fuel
  parse_nodes (suc fuel) nodes p =
      let round : Parsed (List SchemaNode) = do
        (node, p') ← parse_node p
        parse_nodes fuel (nodes ++ node ∷ []) p'
      in if is_some p.current_token then round else ok (nodes, p)

  -- `Parser::new(sdl).parse()`.
  unfoldable pub parse : Text → Result ParseError (List SchemaNode)
  unfolding new parse_nodes
  parse sdl = do let p = new sdl; (nodes, _) ← parse_nodes (suc (tokens_left p)) [] p; ok nodes
