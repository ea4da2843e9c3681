-- ===== src/Cache/Lru/Invariant.antt =====
-- What holds of a least-recently-used cache between calls.
use kind.Prelude.{
  ℕ, nat_beq_iff, ◌+◌, ◌≤◌, ◌<◌, ◌≡◌, sym, ap, ◌∙◌, nat_eq, Eq, ◌==◌, true, false, List, ◌∷◌, some,
  arith, length, contains, without, contains-without, length-without, IsDistinct, inl, inr,
  Bool-cases, subst,
}
use kind.Prelude.Map
use kind.Cache.Lru.{LruInner}
use kind.Cache.Lru.Links.{slot, key_of, IsSlot, SameEntries, IsSlot-same}
use kind.Cache.Lru.Chain.{IsChain, IsChain-map, IsChain-node}

-- `order` are the slots in use, most recent first. The map leads from the key of each to it, and
-- every other slot is in the free list.
pub record IsConsistent {K V : Type 0} ⦃e : Eq K⦄ (c : LruInner K V) (order : List ℕ) : Type 0 where
  pub positive : 0 < c.capacity
  pub chain : IsChain c order
  pub is_map : Map.IsMap c.map
  pub mapped :
      (k : K) (i : ℕ)
      → Map.get k c.map ≡ some i
      → (contains order i ≡ true) × (key_of (slot c i) ≡ some k)
  pub keyed :
      (j : ℕ) (k : K)
      → contains order j ≡ true
      → key_of (slot c j) ≡ some k
      → Map.get k c.map ≡ some j
  pub unused :
      (j : ℕ) → contains c.free_list j ≡ true → (contains order j ≡ false) × IsSlot c (some j)
  pub free_distinct : IsDistinct c.free_list
  pub slots : length c.nodes ≡ length order + length c.free_list
  pub same_length : length order ≡ length c.map
  pub bounded : length c.map ≤ c.capacity
  pub small : length c.nodes ≤ c.capacity

contains-touch :
    (i j : ℕ) (order : List ℕ)
    → contains order i ≡ true
    → contains (i ∷ without i order) j ≡ contains order j
unfolding contains
contains-touch i j order there = ground (arith, contains-without i j order)

length-touch :
    (i : ℕ) (order : List ℕ)
    → IsDistinct order
    → contains order i ≡ true
    → length (i ∷ without i order) ≡ length order
length-touch i order d there = ground (arith, length-without i order d)

module _ {K V : Type 0} ⦃e : Eq K⦄ where
  -- A slot in use that goes to the front.
  pub touch-IsConsistent :
      (c r : LruInner K V) (order : List ℕ) (i : ℕ)
      → IsConsistent c order
      → contains order i ≡ true
      → IsChain r (i ∷ without i order)
      → SameEntries c r
      → IsConsistent r (i ∷ without i order)
  touch-IsConsistent c r order i v there chain same = record {
    positive = ground (arith, v.positive, same.capacity);
    chain = chain;
    is_map = subst Map.IsMap (sym same.map) v.is_map;
    mapped = λ k j h. ground (arith, v.mapped k j, contains-touch i j order, same.keys j, same.map);
    keyed = λ j k h g. ground (arith, v.keyed j k, contains-touch i j order, same.keys j, same.map);
    unused = λ j h.
        let (out, at) = v.unused j (ap (λ f. contains f j) (sym same.free_list) ∙ h) in
        (contains-touch i j order there ∙ out, IsSlot-same (some j) same at);
    free_distinct = subst IsDistinct (sym same.free_list) v.free_distinct;
    slots =
        ground (arith, v.slots, length-touch i order v.chain.distinct, same.size, same.free_list);
    same_length = ground (arith, v.same_length, length-touch i order v.chain.distinct, same.map);
    bounded = ground (arith, v.bounded, same.map, same.capacity);
    small = ground (arith, v.small, same.size, same.capacity);
  }

  -- A slot in use that is taken out: its key leaves the map, and it is free.
  pub detach-IsConsistent :
      (c r : LruInner K V) (order : List ℕ) (i : ℕ) (k : K)
      → IsConsistent c order
      → contains order i ≡ true
      → key_of (slot c i) ≡ some k
      → IsChain r (without i order)
      → SameEntries c r
      → IsConsistent
          (record r { map = Map.remove k c.map; free_list = i ∷ c.free_list })
          (without i order)
  unfolding contains
  detach-IsConsistent c r order i k v there key chain same = record {
    positive = ground (arith, v.positive, same.capacity);
    chain = IsChain-map r (without i order) (Map.remove k c.map) (i ∷ c.free_list) chain;
    is_map = Map.IsMap-remove k c.map v.is_map;
    mapped = λ k' j h. ground (
      arith,
      v.mapped k' j,
      contains-without i j order,
      same.keys j,
      Map.get-remove k k' c.map,
      e.beq_iff k k',
    );
    keyed = λ j k' h g. ground (
      arith,
      v.keyed j k',
      v.keyed i k,
      contains-without i j order,
      same.keys j,
      Map.get-remove k k' c.map,
      e.beq_iff k k',
    );
    unused = λ j h. elim (Bool-cases (i == j)) [
      | inl at ↦ (
        contains-without i j order ∙ rw at,
        IsSlot-same (some j) same (
            let (node, here, _, _) =
              IsChain-node c order j v.chain (ground (arith, nat_beq_iff i j)) in
            (node, here)),
      )
      | inr other ↦
          let (out, at) = v.unused j (ground arith) in
          (contains-without i j order ∙ rw (other, out), IsSlot-same (some j) same at)
    ];
    free_distinct = (
      elim (Bool-cases (contains c.free_list i)) [
        | inl free ↦ absurd (ground (arith, (v.unused i free).0))
        | inr used ↦ used
      ],
      v.free_distinct,
    );
    slots = ground (arith, v.slots, length-without i order v.chain.distinct, same.size);
    same_length = ground (
      arith,
      v.same_length,
      length-without i order v.chain.distinct,
      Map.length-remove k c.map v.is_map,
      v.keyed i k,
    );
    bounded = ground (arith, v.bounded, Map.length-remove k c.map v.is_map, same.capacity);
    small = ground (arith, v.small, same.size, same.capacity);
  }
