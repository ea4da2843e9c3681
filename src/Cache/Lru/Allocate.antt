-- ===== src/Cache/Lru/Allocate.antt =====
-- The slot that `put` of src/cache.rs's `LruCache` takes for a new entry.
use kind.Prelude.{
  ℕ, suc, ◌+◌, ◌≤◌, ◌<◌, ◌≡◌, refl, ap, ◌∙◌, nat_eq, Eq, ◌==◌, true, false, List, [], ◌∷◌, ◌++◌,
  some, arith, length, contains, IsDistinct, set, subst, get_elem?-set, length-set, get_elem?-snoc,
  get_elem?-length, length-append, inl, inr, Bool-cases, nat_beq_iff, List-cases,
}
use kind.Cache.Lru.{LruInner, allocate, fresh}
use kind.Cache.Lru.Links.{slot, prev_of, next_of, IsSlot, update_node_lem}
use kind.Cache.Lru.Chain.{IsChain, IsChain-node}
use kind.Cache.Lru.Invariant.{IsConsistent}

pub slot_ne :
    (i j : ℕ) (order : List ℕ)
    → contains order i ≡ false
    → contains order j ≡ true
    → (i == j) ≡ false
slot_ne i j order out there = ground (arith, nat_beq_iff i j)

module _ {K V : Type 0} ⦃e : Eq K⦄ where
  -- The cache with a new slot `i` for `k`, which is not linked yet.
  pub record IsPlaced (c : LruInner K V) (order : List ℕ) (i : ℕ) (k : K) (value : V)
      (p : LruInner K V) : Type 0 where
    pub new : contains order i ≡ false
    pub there : slot p i ≡ some (fresh k value)
    pub others : (j : ℕ) → (i == j) ≡ false → slot p j ≡ slot c j
    pub chain : IsChain p order
    pub unused :
        (j : ℕ)
        → contains p.free_list j ≡ true
        → (contains (i ∷ order) j ≡ false) × IsSlot p (some j)
    pub free_distinct : IsDistinct p.free_list
    pub slots : length p.nodes ≡ suc (length order) + length p.free_list
    pub small : length p.nodes ≤ p.capacity
    pub same_map : p.map ≡ c.map
    pub same_capacity : p.capacity ≡ c.capacity

  others-IsChain :
      (c p : LruInner K V) (order : List ℕ) (i : ℕ)
      → IsChain c order
      → contains order i ≡ false
      → ((j : ℕ) → (i == j) ≡ false → slot p j ≡ slot c j)
      → p.head ≡ c.head
      → p.tail ≡ c.tail
      → IsChain p order
  others-IsChain c p order i chain new others head tail = record {
    distinct = chain.distinct;
    prevs = λ j h. ap prev_of (others j (slot_ne i j order new h)) ∙ chain.prevs j h;
    nexts = λ j h. ap next_of (others j (slot_ne i j order new h)) ∙ chain.nexts j h;
    head_is = head ∙ chain.head_is;
    tail_is = tail ∙ chain.tail_is;
  }

  allocate_free :
      (c : LruInner K V) (order free : List ℕ) (i : ℕ) (k : K) (value : V)
      → IsConsistent c order
      → c.free_list ≡ i ∷ free
      → (p : LruInner K V) × (allocate c.free_list k value c ≡ some (i, p))
        × IsPlaced c order i k value p
  unfolding allocate contains
  allocate_free c order free i k value v list =
      let (out, (node, at)) = v.unused i (rw list (ground (arith, nat_beq_iff i i))) in
      let taken : LruInner K V = record c { free_list = free } in
      let placed : LruInner K V = record taken { nodes = set c.nodes i (fresh k value) } in
      let others : (j : ℕ) → (i == j) ≡ false → slot placed j ≡ slot c j =
        λ j ne. ground (arith, get_elem?-set c.nodes i j (fresh k value) at) in
      let distinct : IsDistinct (i ∷ free) = subst IsDistinct list v.free_distinct in
      (
        placed,
        rw list (ground (arith, update_node_lem i (λ _. fresh k value) taken node at)),
        record {
          new = out;
          there = ground (arith, get_elem?-set c.nodes i i (fresh k value) at, nat_beq_iff i i);
          others = others;
          chain = others-IsChain c placed order i v.chain out others refl refl;
          unused = λ j h.
              let ne = slot_ne i j free distinct.0 h in
              let (free_j, (found, here)) = v.unused j (rw list (ground arith)) in
              (ground arith, (found, others j ne ∙ here));
          free_distinct = distinct.1;
          slots = ground (arith, length-set c.nodes i (fresh k value), v.slots, ap length list);
          small = ground (arith, length-set c.nodes i (fresh k value), v.small);
          same_map = refl;
          same_capacity = refl;
        },
      )

  allocate_new :
      (c : LruInner K V) (order : List ℕ) (k : K) (value : V)
      → IsConsistent c order
      → length c.map < c.capacity
      → c.free_list ≡ []
      → (p : LruInner K V) × (allocate c.free_list k value c ≡ some (length c.nodes, p))
        × IsPlaced c order (length c.nodes) k value p
  unfolding allocate contains
  allocate_new c order k value v room list =
      let i = length c.nodes in
      let placed : LruInner K V = record c { nodes = c.nodes ++ fresh k value ∷ [] } in
      let others : (j : ℕ) → (i == j) ≡ false → slot placed j ≡ slot c j =
        λ j ne. ground (arith, get_elem?-snoc c.nodes (fresh k value) j) in
      let out : contains order i ≡ false = elim (Bool-cases (contains order i)) [
        | inl used ↦
            let (node, at, _, _) = IsChain-node c order i v.chain used in
            absurd (ground (arith, get_elem?-length c.nodes))
        | inr unused ↦ unused
      ] in
      (
        placed,
        rw list refl,
        record {
          new = out;
          there = ground (arith, get_elem?-snoc c.nodes (fresh k value) i, nat_beq_iff i i);
          others = others;
          chain = others-IsChain c placed order i v.chain out others refl refl;
          unused = λ j h. absurd (ground (arith, ap (λ f. contains f j) list));
          free_distinct = v.free_distinct;
          slots = ground (arith, length-append c.nodes (fresh k value ∷ []), v.slots);
          small = ground (
            arith,
            length-append c.nodes (fresh k value ∷ []),
            v.slots,
            v.same_length,
            ap length list,
          );
          same_map = refl;
          same_capacity = refl;
        },
      )

  -- With room for one entry a slot is found, free or new.
  pub allocate-IsPlaced :
      (c : LruInner K V) (order : List ℕ) (k : K) (value : V)
      → IsConsistent c order
      → length c.map < c.capacity
      → (i : ℕ) × (p : LruInner K V) × (allocate c.free_list k value c ≡ some (i, p))
        × IsPlaced c order i k value p
  allocate-IsPlaced c order k value v room = elim (List-cases c.free_list) [
    | inl none_free ↦
        let (p, returns, placed) = allocate_new c order k value v room none_free in
        (length c.nodes, p, returns, placed)
    | inr (i, free, list) ↦
        let (p, returns, placed) = allocate_free c order free i k value v list in
        (i, p, returns, placed)
  ]
