-- ===== src/Schema.antt =====
-- src/schema: the schema language. Syntax in Ast, the lexer and parser of parser.rs in Lexer and
-- Parser, registry.rs in Registry.
pub mod Ast
pub mod Lexer
pub mod Parser
pub mod Registry
