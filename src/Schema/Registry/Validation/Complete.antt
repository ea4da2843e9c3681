-- ===== src/Schema/Registry/Validation/Complete.antt =====
-- `SchemaRegistry::validate` of src/schema/registry.rs on values that have the type.
use kind.Prelude.{
  ℕ, zero, suc, ◌+◌, ◌<◌, ◌≤◌, ◌≡◌, ◌↔◌, refl, ap, true, List, [], ◌∷◌, Option, some, Text, text_eq,
  arith, is_some, All,
}
use kind.Prelude.Map
use kind.Prelude.Result.{ok}
use kind.Json.{Json}
use kind.Schema.Ast.{
  DataType, FieldDefinition, string, u16, u32, u64, i32, i64, f64, boolean, custom, array,
}
use kind.Schema.Registry.{
  SchemaRegistry, FieldPath, Validator, top, is_integer, validate_members, validate_with,
  validate_items, validate_custom, validate_array, validate_kind, validate_field, validate,
}
use kind.Schema.Registry.Validation.{
  IsIntegerType, HasType, a_string, an_integer, a_float, a_boolean, a_variant, a_record, an_array,
  HasRecord, of_type, HasMembers, no_fields, field, HasItems, no_items, item,
}
use kind.Schema.Registry.Validation.Sound.{validate_with_sound, validate_field_sound}

module _ (j : Json) (reg : SchemaRegistry) where
  -- A validator accepts what has the type, if it is smaller than `n`.
  abbrev IsCompleteBelow : ℕ → Validator j reg → Type 0
  IsCompleteBelow n rec =
      (path : FieldPath) (t : DataType) (v : j.Value)
      → j.size v < n
      → HasType j reg t v
      → rec path t v ≡ ok tt

  module _ (n : ℕ) (rec : Validator j reg) (complete : IsCompleteBelow n rec) where
    validate_members_complete :
        (fields : List FieldDefinition) (obj : Text → Option j.Value)
        → ((name : Text) (w : j.Value) → obj name ≡ some w → j.size w < n)
        → HasMembers j reg fields obj
        → validate_members j reg rec fields obj ≡ ok tt
    unfolding validate_members
    validate_members_complete [] obj small no_fields = refl
    validate_members_complete (f ∷ fields) obj small (field {v} there typed rest) =
        rw (there, complete (top j reg f.name) f.data_type v (small f.name v there) typed)
          (validate_members_complete fields obj small rest)

    validate_with_complete :
        (name : Text) (v : j.Value)
        → j.size v ≤ n
        → HasRecord j reg name v
        → validate_with j reg rec name v ≡ ok tt
    unfolding validate_with
    validate_with_complete name v small (of_type {t} {obj} typed is_object members) =
        rw (typed, is_object)
          (validate_members_complete t.fields obj
            (λ k w there. omega (arith, small, j.object_smaller v obj k w is_object there)) members)

    validate_items_complete :
        (path : FieldPath) (i : ℕ) (t : DataType) (items : List j.Value)
        → All (λ w. j.size w < n) items
        → HasItems j reg t items
        → validate_items j reg rec path i t items ≡ ok tt
    unfolding validate_items
    validate_items_complete path i t [] small no_items = refl
    validate_items_complete path i t (v ∷ items) small (item typed rest) =
        rw (complete (record path { positions = i ∷ path.positions }) t v small.0 typed)
          (validate_items_complete path (i + 1) t items small.1 rest)

    integer_complete :
        (path : FieldPath) (t : DataType) (v : j.Value)
        → IsIntegerType t
        → is_integer j reg v ≡ true
        → validate_kind j reg rec path t v ≡ ok tt
    unfolding validate_kind
    integer_complete path u16 v i h = rw h refl
    integer_complete path u32 v i h = rw h refl
    integer_complete path u64 v i h = rw h refl
    integer_complete path i32 v i h = rw h refl
    integer_complete path i64 v i h = rw h refl
    integer_complete path string v i h = absurd i
    integer_complete path f64 v i h = absurd i
    integer_complete path boolean v i h = absurd i
    integer_complete path (custom name) v i h = absurd i
    integer_complete path (array t) v i h = absurd i

    knows :
        (name : Text) (v : j.Value)
        → HasRecord j reg name v
        → is_some (Map.get name reg.types) ≡ true
    knows name v (of_type typed _ _) = ap is_some typed

    validate_kind_complete :
        (path : FieldPath) (t : DataType) (v : j.Value)
        → j.size v ≤ n
        → ((items : List j.Value) → j.as_array v ≡ some items → All (λ w. j.size w < n) items)
        → HasType j reg t v
        → validate_kind j reg rec path t v ≡ ok tt
    unfolding validate_kind validate_custom validate_array
    validate_kind_complete path t v small elems (a_string h) = rw h refl
    validate_kind_complete path t v small elems (an_integer i h) = integer_complete path t v i h
    validate_kind_complete path t v small elems (a_float h) = rw h refl
    validate_kind_complete path t v small elems (a_boolean h) = rw h refl
    validate_kind_complete path t v small elems (a_variant at text listed) =
        rw (at, text, listed) refl
    validate_kind_complete path t v small elems (a_record {name} at r) =
        rw (at, knows name v r) (validate_with_complete name v small r)
    validate_kind_complete path t v small elems (an_array {t = inner} {items} at typed) =
        rw at (validate_items_complete path 0 inner items (elems items at) typed)

  All-weaken :
      (n m : ℕ) (items : List j.Value)
      → n ≤ m
      → All (λ w. j.size w < n) items
      → All (λ w. j.size w < m) items
  All-weaken n m [] h all = tt
  All-weaken n m (v ∷ items) h all = (omega (arith, h, all.0), All-weaken n m items h all.1)

  validate_field_complete : (fuel : ℕ) → IsCompleteBelow fuel (validate_field j reg fuel)
  unfolding validate_field
  validate_field_complete zero path t v small typed = absurd (omega (arith, small))
  validate_field_complete (suc fuel) path t v small typed =
      validate_kind_complete fuel (validate_field j reg fuel) (validate_field_complete fuel) path t
        v (omega (arith, small))
        (λ items at.
          All-weaken (j.size v) fuel items (omega (arith, small)) (j.array_smaller v items at))
        typed

  -- Validation of a value against a type by name succeeds exactly when the value is a record of
  -- that type by the rules; in particular its fuel is enough.
  pub validate_accepts :
      (name : Text) (v : j.Value) → (validate j reg name v ≡ ok tt) ↔ HasRecord j reg name v
  unfolding validate
  validate_accepts name v = (
    validate_with_sound j reg (validate_field j reg (j.size v))
        (validate_field_sound j reg (j.size v)) name v,
    validate_with_complete (j.size v) (validate_field j reg (j.size v))
        (validate_field_complete (j.size v)) name v (omega arith),
  )
