-- ===== src/Schema/Parser/Fuel.antt =====
-- The loops and the recursion of the parser, src/schema/parser.rs.
use kind.Prelude.{
  ℕ, zero, suc, ◌<◌, ◌≡◌, ◌≢◌, refl, sym, ap, subst, true, List, [], ◌∷◌, ◌++◌, Option, none, some,
  Text, arith, length, inl, inr, Bool-cases, if_true, if_false, if◌then◌else◌, is_some,
}
use kind.Prelude.Result.{Result, ok, err, ◌>>=◌}
use kind.Schema.Ast.{FieldDefinition, SchemaNode}
use kind.Schema.Lexer.{
  CharClass, Token, next_token, identifier, string_literal, l_bracket, r_bracket, at_indexed,
  at_prefix, l_paren, r_paren, l_brace, r_brace, comma, colon, keyword_type, keyword_enum,
}
use kind.Schema.Lexer.Fuel.{Shorter, next_token-Shorter}
use kind.Schema.Parser.{
  ParseError, expected_comma_or_brace, expected, out_of_fuel, Parser, is_token, at, tokens_left,
  new, advance, identifier_in, expect_identifier, match_token, parse_data_type, separator,
  parse_field, parse_fields, parse_variants, literal_in, parse_prefix, parse_type, parse_enum,
  parse_definition, parse_node, parse_nodes, parse, parser_of,
}
use kind.Schema.Parser.Ends.{Ends, Ends->>=, Ends-if, Ends-weaken}

-- What is left behind a result with a value.
abbrev behind : {A : Type 0} → A × Parser → ℕ
behind x = tokens_left x.1

at-is_some : (o : Option Token) (t : Token) → is_token o t ≡ true → is_some o ≡ true
at-is_some none t h = h
at-is_some (some x) t h = refl

module _ (u : CharClass) where
  tokens_left-parser_of :
      (n : ℕ) (l : Option Token × Text) → Shorter n l → tokens_left (parser_of u l) < suc n
  tokens_left-parser_of n (none, rest) (inl short) = omega (arith, short)
  tokens_left-parser_of n (some t, rest) (inl short) = omega (arith, short)
  tokens_left-parser_of n (o, rest) (inr (end, nil)) = rw (end, nil) (omega arith)

  -- Passing over a token leaves fewer.
  advance_shrinks :
      (p : Parser) → is_some p.current_token ≡ true → tokens_left (advance u p) < tokens_left p
  unfolding advance
  advance_shrinks p h =
      let shorter =
        tokens_left-parser_of (length p.input) (next_token u p.input)
          (next_token-Shorter u p.input) in
      ground (arith, shorter, h)

  identifier_in-Ends :
      (o : Option Token) (p : Parser)
      → p.current_token ≡ o
      → Ends behind (tokens_left p) (identifier_in u o p)
  unfolding identifier_in
  identifier_in-Ends (some (identifier id)) p h = advance_shrinks p (ap is_some h)
  identifier_in-Ends _ p h = tt

  expect_identifier-Ends : (p : Parser) → Ends behind (tokens_left p) (expect_identifier u p)
  unfolding expect_identifier
  expect_identifier-Ends p = identifier_in-Ends p.current_token p refl

  match_token-Ends : (t : Token) (p : Parser) → Ends tokens_left (tokens_left p) (match_token u t p)
  unfolding match_token
  match_token-Ends t p =
      Ends-if tokens_left (tokens_left p) (at p t) (ok (advance u p)) (err (expected t))
        (λ h. advance_shrinks p (at-is_some p.current_token t h)) (λ _. tt)

  parse_data_type-Ends :
      (fuel : ℕ) (p : Parser)
      → tokens_left p < fuel
      → Ends behind (tokens_left p) (parse_data_type u fuel p)
  unfolding parse_data_type
  parse_data_type-Ends zero p h = absurd (omega (arith, h))
  parse_data_type-Ends (suc fuel) p h =
      let inner = parse_data_type u fuel (advance u p) in
      Ends-if behind (tokens_left p) (at p l_bracket) _ _
        (λ opens.
          let fewer = advance_shrinks p (at-is_some p.current_token l_bracket opens) in
          Ends->>= behind behind (tokens_left (advance u p)) (tokens_left p) inner _
            (parse_data_type-Ends fuel (advance u p) (omega (arith, fewer, h)))
            (λ x less.
              Ends->>= tokens_left behind (tokens_left x.1) (tokens_left p)
                (match_token u r_bracket x.1) _ (match_token-Ends r_bracket x.1)
                (λ q least. omega (arith, fewer, less, least))))
        (λ _.
          Ends->>= behind behind (tokens_left p) (tokens_left p) (expect_identifier u p) _
            (expect_identifier-Ends p) (λ x less. less))

  separator-Ends : (p : Parser) → Ends tokens_left (suc (tokens_left p)) (separator u p)
  unfolding separator
  separator-Ends p =
      let n = suc (tokens_left p) in
      Ends-if tokens_left n (at p comma) _ _
        (λ h. omega (arith, advance_shrinks p (at-is_some p.current_token comma h)))
        (λ _.
          Ends-if tokens_left n (at p r_brace) (ok p) (err expected_comma_or_brace)
            (λ _. omega arith) (λ _. tt))

  -- A step that passes over a token, and the rest of the chain.
  module _ {C : Type 0} (left : C → ℕ) (m : ℕ) (p : Parser) where
    token-then :
        (t : Token) (f : Parser → Result ParseError C)
        → ((q : Parser) → tokens_left q < tokens_left p → Ends left m (f q))
        → Ends left m (match_token u t p >>= f)
    token-then t f k =
        Ends->>= tokens_left left (tokens_left p) m (match_token u t p) f (match_token-Ends t p) k

    identifier-then :
        (f : Text × Parser → Result ParseError C)
        → ((x : Text × Parser) → behind x < tokens_left p → Ends left m (f x))
        → Ends left m (expect_identifier u p >>= f)
    identifier-then f k =
        Ends->>= behind left (tokens_left p) m (expect_identifier u p) f (expect_identifier-Ends p)
          k

    separator-then :
        (f : Parser → Result ParseError C)
        → ((q : Parser) → tokens_left q < suc (tokens_left p) → Ends left m (f q))
        → Ends left m (separator u p >>= f)
    separator-then f k =
        Ends->>= tokens_left left (suc (tokens_left p)) m (separator u p) f (separator-Ends p) k

  tokens_left-start :
      (p : Parser) → tokens_left (if at p at_indexed then advance u p else p) < suc (tokens_left p)
  tokens_left-start p =
      let fewer = λ (h : at p at_indexed ≡ true).
        advance_shrinks p (at-is_some p.current_token at_indexed h) in
      elim (Bool-cases (at p at_indexed)) [
        | inl h ↦
            subst (λ q. tokens_left q < suc (tokens_left p)) (sym (if_true _ _ _ h))
              (omega (arith, fewer h))
        | inr h ↦
            subst (λ q. tokens_left q < suc (tokens_left p)) (sym (if_false _ _ _ h)) (omega arith)
      ]

  parse_field-Ends : (p : Parser) → Ends behind (tokens_left p) (parse_field u p)
  unfolding parse_field
  parse_field-Ends p =
      let n = tokens_left p in
      let begin = if at p at_indexed then advance u p else p in
      let first = tokens_left-start p in
      identifier-then behind n begin _ (λ x a. token-then behind n x.1 colon _ (λ q b.
        Ends->>= behind behind (tokens_left q) n (parse_data_type u (suc (tokens_left q)) q) _
          (parse_data_type-Ends (suc (tokens_left q)) q (omega arith))
          (λ y c. separator-then behind n y.1 _ (λ r d. omega (arith, first, a, b, c, d)))))

  parse_fields-Ends :
      (fuel : ℕ) (fields : List FieldDefinition) (p : Parser)
      → tokens_left p < fuel
      → Ends behind (suc (tokens_left p)) (parse_fields u fuel fields p)
  unfolding parse_fields
  parse_fields-Ends zero fields p h = absurd (omega (arith, h))
  parse_fields-Ends (suc fuel) fields p h =
      let n = suc (tokens_left p) in
      Ends-if behind n (at p r_brace) (ok (fields, p)) _ (λ _. omega arith)
        (λ _.
          Ends->>= behind behind (tokens_left p) n (parse_field u p) _ (parse_field-Ends p)
            (λ x less.
              Ends-weaken behind (suc (tokens_left x.1)) n _ (omega (arith, less))
                (parse_fields-Ends fuel (fields ++ x.0 ∷ []) x.1 (omega (arith, less, h)))))

  parse_variants-Ends :
      (fuel : ℕ) (variants : List Text) (p : Parser)
      → tokens_left p < fuel
      → Ends behind (suc (tokens_left p)) (parse_variants u fuel variants p)
  unfolding parse_variants
  parse_variants-Ends zero variants p h = absurd (omega (arith, h))
  parse_variants-Ends (suc fuel) variants p h =
      let n = suc (tokens_left p) in
      Ends-if behind n (at p r_brace) (ok (variants, p)) _ (λ _. omega arith)
        (λ _. identifier-then behind n p _ (λ x less. separator-then behind n x.1 _ (λ q least.
          Ends-weaken behind (suc (tokens_left q)) n _ (omega (arith, less, least))
            (parse_variants-Ends fuel (variants ++ x.0 ∷ []) q (omega (arith, less, least, h))))))

  literal_in-Ends :
      (o : Option Token) (p : Parser)
      → p.current_token ≡ o
      → Ends behind (tokens_left p) (literal_in u o p)
  unfolding literal_in
  literal_in-Ends (some (string_literal s)) p h = advance_shrinks p (ap is_some h)
  literal_in-Ends _ p h = tt

  parse_prefix-Ends : (p : Parser) → Ends behind (suc (tokens_left p)) (parse_prefix u p)
  unfolding parse_prefix
  parse_prefix-Ends p =
      let n = suc (tokens_left p) in
      Ends-if behind n (at p at_prefix) _ (ok (none, p))
        (λ h.
          let first = advance_shrinks p (at-is_some p.current_token at_prefix h) in
          token-then behind n (advance u p) l_paren _ (λ q a.
            Ends->>= behind behind (tokens_left q) n (literal_in u q.current_token q) _
              (literal_in-Ends q.current_token q refl)
              (λ x b. token-then behind n x.1 r_paren _ (λ r c. omega (arith, first, a, b, c)))))
        (λ _. omega arith)

  parse_type-Ends :
      (prefix : Option Text) (p : Parser)
      → is_some p.current_token ≡ true
      → Ends behind (tokens_left p) (parse_type u prefix p)
  unfolding parse_type
  parse_type-Ends prefix p h =
      let n = tokens_left p in
      let first = advance_shrinks p h in
      identifier-then behind n (advance u p) _ (λ x a. token-then behind n x.1 l_brace _ (λ q b.
        Ends->>= behind behind (suc (tokens_left q)) n (parse_fields u (suc (tokens_left q)) [] q) _
          (parse_fields-Ends (suc (tokens_left q)) [] q (omega arith))
          (λ y c. token-then behind n y.1 r_brace _ (λ r d. omega (arith, first, a, b, c, d)))))

  parse_enum-Ends :
      (p : Parser) → is_some p.current_token ≡ true → Ends behind (tokens_left p) (parse_enum u p)
  unfolding parse_enum
  parse_enum-Ends p h =
      let n = tokens_left p in
      let first = advance_shrinks p h in
      identifier-then behind n (advance u p) _ (λ x a. token-then behind n x.1 l_brace _ (λ q b.
        Ends->>= behind behind (suc (tokens_left q)) n (parse_variants u (suc (tokens_left q)) [] q)
          _ (parse_variants-Ends (suc (tokens_left q)) [] q (omega arith))
          (λ y c. token-then behind n y.1 r_brace _ (λ r d. omega (arith, first, a, b, c, d)))))

  parse_definition-Ends :
      (o : Option Token) (prefix : Option Text) (p : Parser)
      → p.current_token ≡ o
      → Ends behind (tokens_left p) (parse_definition u o prefix p)
  unfolding parse_definition
  parse_definition-Ends (some keyword_type) prefix p h = parse_type-Ends prefix p (ap is_some h)
  parse_definition-Ends (some keyword_enum) prefix p h = parse_enum-Ends p (ap is_some h)
  parse_definition-Ends _ prefix p h = tt

  parse_node-Ends : (p : Parser) → Ends behind (tokens_left p) (parse_node u p)
  unfolding parse_node
  parse_node-Ends p =
      Ends->>= behind behind (suc (tokens_left p)) (tokens_left p) (parse_prefix u p) _
        (parse_prefix-Ends p)
        (λ x less.
          Ends-weaken behind (tokens_left x.1) (tokens_left p) _ (omega (arith, less))
            (parse_definition-Ends x.1.current_token x.0 x.1 refl))

  parse_nodes-Ends :
      (fuel : ℕ) (nodes : List SchemaNode) (p : Parser)
      → tokens_left p < fuel
      → Ends behind (suc (tokens_left p)) (parse_nodes u fuel nodes p)
  unfolding parse_nodes
  parse_nodes-Ends zero nodes p h = absurd (omega (arith, h))
  parse_nodes-Ends (suc fuel) nodes p h =
      let n = suc (tokens_left p) in
      Ends-if behind n (is_some p.current_token) _ (ok (nodes, p))
        (λ _.
          Ends->>= behind behind (tokens_left p) n (parse_node u p) _ (parse_node-Ends p) (λ x less.
            Ends-weaken behind (suc (tokens_left x.1)) n _ (omega (arith, less))
              (parse_nodes-Ends fuel (nodes ++ x.0 ∷ []) x.1 (omega (arith, less, h)))))
        (λ _. omega arith)

  real_error :
      {B : Type 0} (left : B → ℕ) (n : ℕ) (r : Result ParseError B)
      → Ends left n r
      → r ≢ err out_of_fuel
  real_error left n r h e = subst (Ends left n) e h

  -- Parsing a schema never runs out of fuel: it gives the nodes or an error of the source.
  pub parse_ends : (sdl : Text) → parse u sdl ≢ err out_of_fuel
  unfolding parse
  parse_ends sdl =
      let p = new u sdl in
      real_error (λ _. 0) 1 (parse u sdl)
        (Ends->>= behind (λ _. 0) (suc (tokens_left p)) 1 (parse_nodes u (suc (tokens_left p)) [] p)
          _ (parse_nodes-Ends (suc (tokens_left p)) [] p (omega arith)) (λ x less. omega arith))
