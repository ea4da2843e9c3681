-- ===== src/Server/Sound.antt =====
-- The invariant of the server between requests, and the steps that the writes share.
use kind.Prelude.{
  ◌≡◌, refl, ap, ◌∙◌, Option, none, some, Text, text_eq, text_beq_iff, ◌==◌, arith, if◌then◌else◌,
}
use kind.Wal.{Bytes}
use kind.Schema.Registry.{SchemaRegistry}
use kind.Server.Record.{DbRecord}
use kind.Server.State.{Platform, KindServer}
use kind.Server.Index.{index_record, remove_record_from_index}
use kind.Server.Index.Exact.{IsExact, IsExactFor, IsExactFor-remove, IsExactFor-add, indexed_by}
use kind.Server.Effects.{lookup, unindex, unindex_old}

module _ (p : Platform) where
  -- The cache is valid and the indexes are exact.
  pub record IsSound (s : KindServer p) : Type 0 where
    pub cache : p.caches.IsValid s.cache
    pub exact : IsExact p s

  -- The entry of the tree that a cached value stands for: it is there and never expires.
  abbrev pub Stands : Option Bytes → Option DbRecord → Type 0
  Stands none rec = Unit
  Stands (some v) none = ⊥
  Stands (some v) (some rec) = (rec.value ≡ v) × (rec.expires_at ≡ none)

  -- What the cache would answer is what the tree holds.
  abbrev pub IsCoherent : KindServer p → Type 0
  IsCoherent s = (k : Text) → Stands (p.caches.peek s.cache k) (lookup p k s)

  pub IsExactFor-cong :
      (reg : SchemaRegistry) (m : p.index_maps.Store) (f g : Text → Option DbRecord)
      → ((k : Text) → f k ≡ g k)
      → IsExactFor p reg m f
      → IsExactFor p reg m g
  IsExactFor-cong reg m f g same exact i k = exact i k ∙ ap (indexed_by p reg k i) (same k)

  -- The indexes without the old entries of a key, and those of its new record in their place.
  abbrev pub cleared : Text → KindServer p → p.index_maps.Store
  cleared key s = (unindex_old p key s).indexes

  abbrev pub reindexed : Text → Bytes → KindServer p → p.index_maps.Store
  reindexed key val s = (index_record p key val (unindex_old p key s)).indexes

  unindex-frame :
      (key : Text) (o : Option DbRecord) (s : KindServer p)
      → unindex p key o s ≡ record s { indexes = (unindex p key o s).indexes }
  unfolding remove_record_from_index
  unindex-frame key none s = refl
  unindex-frame key (some old) s = refl

  -- Nothing but the indexes changes.
  pub unindex_old-frame :
      (key : Text) (s : KindServer p) → unindex_old p key s ≡ record s { indexes = cleared key s }
  unfolding unindex_old
  unindex_old-frame key s = unindex-frame key (lookup p key s) s

  pub reindex-frame :
      (key : Text) (val : Bytes) (s : KindServer p)
      → index_record p key val (unindex_old p key s) ≡ record s { indexes = reindexed key val s }
  unfolding index_record
  reindex-frame key val s = rw (unindex_old-frame key s)

  unindex-IsExactFor :
      (key : Text) (o : Option DbRecord) (s : KindServer p)
      → lookup p key s ≡ o
      → IsExact p s
      → IsExactFor p s.schema_registry
          (unindex p key o s).indexes
          (λ k. if key == k then none else lookup p k s)
  unfolding remove_record_from_index
  unindex-IsExactFor key none s missing exact =
      λ i k. ground (arith, exact i k, text_beq_iff key k, missing)
  unindex-IsExactFor key (some old) s there exact =
      IsExactFor-remove p s.schema_registry s.indexes (λ k. lookup p k s) key old there exact

  -- The old entries of a key out: what is left is exact for the tree without the key.
  pub cleared-IsExactFor :
      (key : Text) (s : KindServer p)
      → IsExact p s
      → IsExactFor p s.schema_registry
          (cleared key s)
          (λ k. if key == k then none else lookup p k s)
  unfolding unindex_old
  cleared-IsExactFor key s exact = unindex-IsExactFor key (lookup p key s) s refl exact

  -- The new entries of a key that is out of the indexes.
  pub index_record-IsExactFor :
      (key : Text) (rec : DbRecord) (s : KindServer p) (f : Text → Option DbRecord)
      → f key ≡ none
      → IsExactFor p s.schema_registry s.indexes f
      → IsExactFor p s.schema_registry
          (index_record p key rec.value s).indexes
          (λ k. if key == k then some rec else f k)
  unfolding index_record
  index_record-IsExactFor key rec s f missing exact =
      IsExactFor-add p s.schema_registry s.indexes f key rec missing exact

  pub reindexed-IsExactFor :
      (key : Text) (rec : DbRecord) (s : KindServer p)
      → IsExact p s
      → IsExactFor p s.schema_registry
          (reindexed key rec.value s)
          (λ k. if key == k then some rec else lookup p k s)
  unfolding index_record
  reindexed-IsExactFor key rec s exact = rw (unindex_old-frame key s) (
      IsExactFor-cong s.schema_registry _
        (λ k. if key == k then some rec else if key == k then none else lookup p k s)
        (λ k. if key == k then some rec else lookup p k s) (λ k. ground arith)
        (index_record-IsExactFor key rec (record s { indexes = cleared key s })
          (λ k. if key == k then none else lookup p k s) (ground (arith, text_beq_iff key key))
          (cleared-IsExactFor key s exact)))
