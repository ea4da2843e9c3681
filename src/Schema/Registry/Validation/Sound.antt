-- ===== src/Schema/Registry/Validation/Sound.antt =====
-- `SchemaRegistry::validate` of src/schema/registry.rs on values that it accepts.
use kind.Prelude.{
  ℕ, zero, suc, ◌+◌, ◌≡◌, refl, sym, ◌∙◌, Bool, true, false, List, [], ◌∷◌, Option, none, some,
  Text, text_eq, contains, is_some, Bool-cases, inl, inr, codes, if_true, if_false,
}
use kind.Prelude.Map
use kind.Prelude.Result.{Result, ok, err, ◌>>=◌}
use kind.Json.{Json}
use kind.Schema.Ast.{
  DataType, FieldDefinition, EnumDefinition, string, u16, u32, u64, i32, i64, f64, boolean, custom,
  array,
}
use kind.Schema.Registry.{
  SchemaRegistry, ValidationError, FieldPath, Validator, some_or, check, top, type_not_found,
  field_missing, invalid_type, invalid_enum_variant, object, validate_members, validate_with,
  validate_items, validate_variant, validate_named, validate_custom, validate_array, validate_kind,
  validate_field,
}
use kind.Schema.Registry.Validation.{
  HasType, a_string, an_integer, a_float, a_boolean, a_variant, a_record, an_array, HasRecord,
  of_type, HasMembers, no_fields, field, HasItems, no_items, item,
}

chain_ok :
    {E A B : Type 0} (m : Result E A) (f : A → Result E B) (b : B)
    → (m >>= f) ≡ ok b
    → (a : A) × (f a ≡ ok b) × (m ≡ ok a)
chain_ok (ok x) f b h = (x, h, refl)
chain_ok (err x) f b h = cc

some_or-ok : {E A : Type 0} (o : Option A) (e : E) (a : A) → some_or o e ≡ ok a → o ≡ some a
some_or-ok none e a h = cc
some_or-ok (some x) e a h = cc

check-ok : (b : Bool) (e : ValidationError) → check b e ≡ ok tt → b ≡ true
check-ok true e h = refl
check-ok false e h = cc

module _ (j : Json) (reg : SchemaRegistry) where
  -- What a validator accepts has the type.
  abbrev pub IsSoundValidator : Validator j reg → Type 0
  IsSoundValidator rec =
      (path : FieldPath) (t : DataType) (v : j.Value) → rec path t v ≡ ok tt → HasType j reg t v

  module _ (rec : Validator j reg) (rec_sound : IsSoundValidator rec) where
    validate_members_sound :
        (fields : List FieldDefinition) (obj : Text → Option j.Value)
        → validate_members j reg rec fields obj ≡ ok tt
        → HasMembers j reg fields obj
    unfolding validate_members
    validate_members_sound [] obj h = no_fields
    validate_members_sound (f ∷ fields) obj h =
        let (v, rest, found) = chain_ok (some_or (obj f.name) (field_missing f.name)) _ tt h in
        let (_, others, valid) = chain_ok (rec (top j reg f.name) f.data_type v) _ tt rest in
        field (some_or-ok (obj f.name) _ v found) (rec_sound _ f.data_type v valid)
          (validate_members_sound fields obj others)

    pub validate_with_sound :
        (name : Text) (v : j.Value)
        → validate_with j reg rec name v ≡ ok tt
        → HasRecord j reg name v
    unfolding validate_with
    validate_with_sound name v h =
        let (t, rest, typed) =
          chain_ok (some_or (Map.get name reg.types) (type_not_found name)) _ tt h in
        let (obj, members, is_object) =
          chain_ok (some_or (j.as_object v) (invalid_type (top j reg (codes "root")) object)) _ tt
            rest in
        of_type (some_or-ok _ _ t typed) (some_or-ok _ _ obj is_object)
          (validate_members_sound t.fields obj members)

    validate_items_sound :
        (path : FieldPath) (i : ℕ) (t : DataType) (items : List j.Value)
        → validate_items j reg rec path i t items ≡ ok tt
        → HasItems j reg t items
    unfolding validate_items
    validate_items_sound path i t [] h = no_items
    validate_items_sound path i t (v ∷ items) h =
        let (_, rest, valid) = chain_ok (rec _ t v) _ tt h in
        item (rec_sound _ t v valid) (validate_items_sound path (i + 1) t items rest)

    validate_variant_sound :
        (path : FieldPath) (d : EnumDefinition) (o : Option Text)
        → validate_variant j reg path d o ≡ ok tt
        → (s : Text) × (contains d.variants s ≡ true) × (o ≡ some s)
    validate_variant_sound path d none h = cc
    validate_variant_sound path d (some s) h =
        (s, check-ok (contains d.variants s) (invalid_enum_variant path s) h, refl)

    validate_named_sound :
        (path : FieldPath) (name : Text) (v : j.Value) (o : Option EnumDefinition)
        → Map.get name reg.enums ≡ o
        → validate_named j reg rec path name v o ≡ ok tt
        → HasType j reg (custom name) v
    validate_named_sound path name v (some d) at h =
        let (s, listed, text) = validate_variant_sound path d (j.as_str v) h in
        a_variant at text listed
    validate_named_sound path name v none at h =
        elim (Bool-cases (is_some (Map.get name reg.types))) [
          | inl known ↦ a_record at (validate_with_sound name v (sym (if_true _ _ _ known) ∙ h))
          | inr unknown ↦ cc (sym (if_false _ _ _ unknown) ∙ h)
        ]

    validate_array_sound :
        (path : FieldPath) (t : DataType) (v : j.Value) (o : Option (List j.Value))
        → j.as_array v ≡ o
        → validate_array j reg rec path t o ≡ ok tt
        → HasType j reg (array t) v
    unfolding validate_array
    validate_array_sound path t v none at h = cc
    validate_array_sound path t v (some items) at h =
        an_array at (validate_items_sound path 0 t items h)

    validate_kind_sound : IsSoundValidator (validate_kind j reg rec)
    unfolding validate_kind validate_custom
    validate_kind_sound path string v h = a_string (check-ok _ _ h)
    validate_kind_sound path u16 v h = an_integer tt (check-ok _ _ h)
    validate_kind_sound path u32 v h = an_integer tt (check-ok _ _ h)
    validate_kind_sound path u64 v h = an_integer tt (check-ok _ _ h)
    validate_kind_sound path i32 v h = an_integer tt (check-ok _ _ h)
    validate_kind_sound path i64 v h = an_integer tt (check-ok _ _ h)
    validate_kind_sound path f64 v h = a_float (check-ok _ _ h)
    validate_kind_sound path boolean v h = a_boolean (check-ok _ _ h)
    validate_kind_sound path (custom name) v h =
        validate_named_sound path name v (Map.get name reg.enums) refl h
    validate_kind_sound path (array t) v h = validate_array_sound path t v (j.as_array v) refl h

  pub validate_field_sound : (fuel : ℕ) → IsSoundValidator (validate_field j reg fuel)
  unfolding validate_field
  validate_field_sound zero path t v h = cc
  validate_field_sound (suc fuel) path t v h =
      validate_kind_sound (validate_field j reg fuel) (validate_field_sound fuel) path t v h
