-- ===== src/Cache/Lru/Enter.antt =====
-- Values that are overwritten and entries that are new, in `put` of src/cache.rs's `LruCache`.
use kind.Prelude.{
  ℕ, ◌<◌, ◌≡◌, sym, ap, ◌∙◌, nat_eq, Eq, ◌==◌, true, List, ◌∷◌, none, some, arith, length, contains,
  IsDistinct, get_elem?, set, subst, get_elem?-set, length-set, inl, inr, Bool-cases, nat_beq_iff,
}
use kind.Prelude.Map
use kind.Cache.Lru.{LruNode, LruInner}
use kind.Cache.Lru.Links.{slot, key_of, IsSlot, SameEntries, IsSlot-same}
use kind.Cache.Lru.Chain.{IsChain}
use kind.Cache.Lru.Invariant.{IsConsistent}
use kind.Cache.Lru.Allocate.{slot_ne, IsPlaced}

module _ {K V : Type 0} ⦃e : Eq K⦄ where
  -- The value at a slot that is there.
  abbrev pub with_value : ℕ → LruNode K V → V → LruInner K V → LruInner K V
  with_value i node value c = record c { nodes = set c.nodes i (record node { value = value }) }

  IsSlot-set :
      (c : LruInner K V) (i j : ℕ) (node written : LruNode K V)
      → slot c i ≡ some node
      → IsSlot c (some j)
      → (found : LruNode K V) × (get_elem? (set c.nodes i written) j ≡ some found)
  IsSlot-set c i j node written at (there, here) = elim (Bool-cases (i == j)) [
    | inl same ↦ (written, ground (arith, get_elem?-set c.nodes i j written at))
    | inr other ↦ (there, ground (arith, get_elem?-set c.nodes i j written at))
  ]

  pub with_value-IsConsistent :
      (c : LruInner K V) (order : List ℕ) (i : ℕ) (node : LruNode K V) (value : V)
      → IsConsistent c order
      → slot c i ≡ some node
      → IsConsistent (with_value i node value c) order
  with_value-IsConsistent c order i node value v at =
      let written : LruNode K V = record node { value = value } in
      record {
        positive = v.positive;
        chain = record {
          distinct = v.chain.distinct;
          prevs = λ j h. ground (arith, v.chain.prevs j, get_elem?-set c.nodes i j written at);
          nexts = λ j h. ground (arith, v.chain.nexts j, get_elem?-set c.nodes i j written at);
          head_is = v.chain.head_is;
          tail_is = v.chain.tail_is;
        };
        is_map = v.is_map;
        mapped = λ k j h. ground (arith, v.mapped k j, get_elem?-set c.nodes i j written at);
        keyed = λ j k h g. ground (arith, v.keyed j k, get_elem?-set c.nodes i j written at);
        unused =
            λ j h. let (out, there) = v.unused j h in (out, IsSlot-set c i j node written at there);
        free_distinct = v.free_distinct;
        slots = length-set c.nodes i written ∙ v.slots;
        same_length = v.same_length;
        bounded = v.bounded;
        small = ground (arith, v.small, length-set c.nodes i written);
      }

  -- The map and the keys of the slots fit, with the new slot.
  entered_keys :
      (c p r : LruInner K V) (order : List ℕ) (i : ℕ) (k : K) (value : V)
      → IsConsistent c order
      → Map.get k c.map ≡ none
      → IsPlaced c order i k value p
      → r.map ≡ Map.insert k i c.map
      → ((j : ℕ) → key_of (slot r j) ≡ key_of (slot p j))
      → ((k' : K) (j : ℕ)
          → Map.get k' r.map ≡ some j
          → (contains (i ∷ order) j ≡ true) × (key_of (slot r j) ≡ some k'))
        × ((j : ℕ) (k' : K)
            → contains (i ∷ order) j ≡ true
            → key_of (slot r j) ≡ some k'
            → Map.get k' r.map ≡ some j)
  unfolding contains
  entered_keys c p r order i k value v absent w map_is keys = (
    λ k' j h. elim (Bool-cases (k == k')) [
      | inl same ↦
          ground (arith, keys j, w.there, map_is, Map.get-insert k k' i c.map, e.beq_iff k k')
      | inr other ↦
          let (used, key) = v.mapped k' j (ground (arith, map_is, Map.get-insert k k' i c.map)) in
          let ne = slot_ne i j order w.new used in
          (ground arith, keys j ∙ ap key_of (w.others j ne) ∙ key)
    ],
    λ j k' h g. elim (Bool-cases (i == j)) [
      | inl same ↦ ground (
        arith,
        keys j,
        w.there,
        map_is,
        Map.get-insert k k' i c.map,
        e.beq_iff k k',
        nat_beq_iff i j,
      )
      | inr other ↦
          let key = ap key_of (sym (w.others j other)) ∙ sym (keys j) ∙ g in
          let found = v.keyed j k' (ground arith) key in
          ground (arith, map_is, Map.get-insert k k' i c.map, e.beq_iff k k')
    ],
  )

  -- The new slot, entered into the map and linked in front.
  pub enter-IsConsistent :
      (c p r : LruInner K V) (order : List ℕ) (i : ℕ) (k : K) (value : V)
      → IsConsistent c order
      → length c.map < c.capacity
      → Map.get k c.map ≡ none
      → IsPlaced c order i k value p
      → IsChain r (i ∷ order)
      → SameEntries (record p { map = Map.insert k i p.map }) r
      → IsConsistent r (i ∷ order)
  unfolding contains
  enter-IsConsistent c p r order i k value v room absent w chain same =
      let map_is : r.map ≡ Map.insert k i c.map = same.map ∙ ap (Map.insert k i) w.same_map in
      let entered = entered_keys c p r order i k value v absent w map_is same.keys in
      record {
        positive = ground (arith, v.positive, same.capacity, w.same_capacity);
        chain = chain;
        is_map = subst Map.IsMap (sym map_is) (Map.IsMap-insert k i c.map v.is_map);
        mapped = entered.0;
        keyed = entered.1;
        unused = λ j h.
            let (out, there) = w.unused j (ap (λ f. contains f j) (sym same.free_list) ∙ h) in
            (out, IsSlot-same (some j) same there);
        free_distinct = subst IsDistinct (sym same.free_list) w.free_distinct;
        slots = ground (arith, w.slots, same.size, same.free_list);
        same_length = ground (arith, v.same_length, map_is, Map.length-insert k i c.map, absent);
        bounded = ground (
          arith,
          room,
          map_is,
          Map.length-insert k i c.map,
          absent,
          same.capacity,
          w.same_capacity,
        );
        small = ground (arith, w.small, same.size, same.capacity);
      }
