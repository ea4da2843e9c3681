-- ===== src/Schema/Ast.antt =====
-- src/schema/ast.rs: the syntax tree of a schema.
use kind.Prelude.{Text, Bool, Option, List}

pub data DataType : Type 0 where
  string u16 u32 u64 i32 i64 f64 boolean : DataType
  custom : Text → DataType
  array : DataType → DataType

pub record FieldDefinition : Type 0 where
  pub name : Text
  pub data_type : DataType
  pub is_indexed : Bool

pub record TypeDefinition : Type 0 where
  pub name : Text
  pub fields : List FieldDefinition
  pub prefix : Option Text

pub record EnumDefinition : Type 0 where
  pub name : Text
  pub variants : List Text

pub data SchemaNode : Type 0 where
  type : TypeDefinition → SchemaNode
  enum : EnumDefinition → SchemaNode
