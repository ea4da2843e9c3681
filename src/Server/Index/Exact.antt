-- ===== src/Server/Index/Exact.antt =====
-- When the secondary indexes are exact: an index key leads to a key of the tree exactly when the
-- record that is stored there has it.
use kind.Prelude.{
  Option-cases, inl, inr, ◌≡◌, refl, Bool, true, false, ◌&&◌, List, [], ◌∷◌, Option, none, some,
  Text, text_eq, text_beq_iff, ◌==◌, contains, is_some, arith, if◌then◌else◌,
}
use kind.Schema.Registry.{SchemaRegistry}
use kind.Server.Record.{DbRecord}
use kind.Server.State.{Platform, KindServer}
use kind.Server.Index.{
  index_record, extract_index_keys, set_or_new, add_to_index, remove_from_index, add_all,
  remove_all,
}

module _ (p : Platform) where
  open p use {json, key_sets, index_maps}

  abbrev pub set_has : Text → Option key_sets.Store → Bool
  set_has k none = false
  set_has k (some set) = is_some (key_sets.get set k)

  -- Whether the index key `i` leads to `k`.
  abbrev pub member : index_maps.Store → Text → Text → Bool
  member m i k = set_has k (index_maps.get m i)

  abbrev pub indexed_by : SchemaRegistry → Text → Text → Option DbRecord → Bool
  indexed_by reg k i none = false
  indexed_by reg k i (some rec) = contains (extract_index_keys json reg k rec.value) i

  -- The indexes `m` are exact for the records that `f` gives.
  abbrev pub IsExactFor : SchemaRegistry → index_maps.Store → (Text → Option DbRecord) → Type 0
  IsExactFor reg m f = (i k : Text) → member m i k ≡ indexed_by reg k i (f k)

  abbrev pub IsExact : KindServer p → Type 0
  IsExact s = IsExactFor s.schema_registry s.indexes (λ k. p.records.get s.tree k)

  module _ (m : index_maps.Store) (key : Text) where
    member-add_to_index :
        (idx i k : Text)
        → member (add_to_index p key idx m) i k
          ≡ (if idx == i && key == k then true else member m i k)
    unfolding add_to_index
    member-add_to_index idx i k =
        let set = set_or_new p (index_maps.get m idx) in
        ground (
          arith,
          index_maps.get-insert m idx i (key_sets.insert set key tt),
          key_sets.get-insert set key k tt,
          key_sets.get-empty k,
          text_beq_iff idx i,
        )

    member-remove_from_index :
        (idx i k : Text)
        → member (remove_from_index p key idx m) i k
          ≡ (if idx == i && key == k then false else member m i k)
    unfolding remove_from_index
    member-remove_from_index idx i k = elim (Option-cases (index_maps.get m idx)) [
      | inl missing ↦ ground (arith, missing, text_beq_iff idx i)
      | inr (set, there) ↦ ground (
        arith,
        there,
        index_maps.get-insert m idx i (key_sets.remove set key),
        key_sets.get-remove set key k,
        text_beq_iff idx i,
      )
    ]

  member-add_all :
      (m : index_maps.Store) (key : Text) (ks : List Text) (i k : Text)
      → member (add_all p key ks m) i k ≡ (if contains ks i && key == k then true else member m i k)
  unfolding add_all contains
  member-add_all m key [] i k = refl
  member-add_all m key (idx ∷ ks) i k = ground (
    arith,
    member-add_all (add_to_index p key idx m) key ks i k,
    member-add_to_index m key idx i k,
  )

  member-remove_all :
      (m : index_maps.Store) (key : Text) (ks : List Text) (i k : Text)
      → member (remove_all p key ks m) i k
        ≡ (if contains ks i && key == k then false else member m i k)
  unfolding remove_all contains
  member-remove_all m key [] i k = refl
  member-remove_all m key (idx ∷ ks) i k = ground (
    arith,
    member-remove_all (remove_from_index p key idx m) key ks i k,
    member-remove_from_index m key idx i k,
  )

  module _ (reg : SchemaRegistry) (m : index_maps.Store) (f : Text → Option DbRecord) where
    -- Without the entries of its record, a key is out of the indexes.
    pub IsExactFor-remove :
        (key : Text) (rec : DbRecord)
        → f key ≡ some rec
        → IsExactFor reg m f
        → IsExactFor reg
            (remove_all p key (extract_index_keys json reg key rec.value) m)
            (λ k. if key == k then none else f k)
    IsExactFor-remove key rec there exact i k =
        let keys = extract_index_keys json reg key rec.value in
        ground (arith, member-remove_all m key keys i k, exact i k, text_beq_iff key k, there)

    -- A key that is out of the indexes is entered.
    pub IsExactFor-add :
        (key : Text) (rec : DbRecord)
        → f key ≡ none
        → IsExactFor reg m f
        → IsExactFor reg
            (add_all p key (extract_index_keys json reg key rec.value) m)
            (λ k. if key == k then some rec else f k)
    IsExactFor-add key rec missing exact i k =
        let keys = extract_index_keys json reg key rec.value in
        ground (arith, member-add_all m key keys i k, exact i k, text_beq_iff key k, missing)

  -- What one record adds to the indexes, and what taking it out removes.
  pub member-index_record :
      (key : Text) (rec : DbRecord) (s : KindServer p) (i k : Text)
      → member (index_record p key rec.value s).indexes i k ≡ (
          if indexed_by s.schema_registry key i (some rec) && key == k
          then true
          else member s.indexes i k)
  unfolding index_record
  member-index_record key rec s i k =
      member-add_all s.indexes key (extract_index_keys json s.schema_registry key rec.value) i k
