-- ===== src/Cache/Lru/Chain.antt =====
-- The chain of src/cache.rs's `LruInner` from head to tail, and what moving a node does to it.
use kind.Prelude.{
  ℕ, ◌≡◌, refl, sym, ap, nat_eq, true, false, List, ◌∷◌, Option, none, some, arith, contains,
  without, contains-without, subst, ==_refl, IsDistinct, IsDistinct-without, inl, inr, Bool-cases,
  ◌∙◌,
}
use kind.Cache.Lru.{LruNode, LruInner, is_index, remove_node, attach_front, move_to_front}
use kind.Cache.Lru.Order.{
  first, last_or, before, after, before-contains, after-contains, after-without, before-without,
  first-without, last_or-without, cons-without-first, before-cons, last_or-cons, first-contains,
}
use kind.Cache.Lru.Links.{
  prev_of, next_of, slot, IsSlot, SameEntries, SameEntries-refl, SameEntries-trans, IsSlot-same,
}
use kind.Cache.Lru.Links.Steps.{remove_node-Relinked, attach_front-Relinked}

-- `order` lists the linked slots from the head to the tail, each with its neighbours as links.
pub record IsChain {K V : Type 0} (c : LruInner K V) (order : List ℕ) : Type 0 where
  pub distinct : IsDistinct order
  pub prevs : (j : ℕ) → contains order j ≡ true → prev_of (slot c j) ≡ some (before none j order)
  pub nexts : (j : ℕ) → contains order j ≡ true → next_of (slot c j) ≡ some (after j order)
  pub head_is : c.head ≡ first order
  pub tail_is : c.tail ≡ last_or none order

module _ {K V : Type 0} where
  linked_node :
      (o : Option (LruNode K V)) (p n : Option ℕ)
      → prev_of o ≡ some p
      → next_of o ≡ some n
      → (node : LruNode K V) × (o ≡ some node) × (node.prev ≡ p) × (node.next ≡ n)
  linked_node none p n h g = absurd (ground arith)
  linked_node (some node) p n h g = (node, refl, ground arith, ground arith)

  -- A slot of the chain.
  pub IsChain-node :
      (c : LruInner K V) (order : List ℕ) (i : ℕ)
      → IsChain c order
      → contains order i ≡ true
      → (node : LruNode K V) × (slot c i ≡ some node)
        × (node.prev ≡ before none i order)
        × (node.next ≡ after i order)
  IsChain-node c order i chain there =
      linked_node (slot c i) (before none i order) (after i order) (chain.prevs i there)
        (chain.nexts i there)

  IsChain-IsSlot :
      (c : LruInner K V) (order : List ℕ) (o : Option ℕ)
      → IsChain c order
      → ((j : ℕ) → is_index o j ≡ true → contains order j ≡ true)
      → IsSlot c o
  IsChain-IsSlot c order none chain inside = tt
  IsChain-IsSlot c order (some i) chain inside =
      let (node, at, _, _) = IsChain-node c order i chain (inside i (ground arith)) in (node, at)

  -- Links that are those of the rest of the chain.
  pub remove_node-IsChain :
      (c : LruInner K V) (order : List ℕ) (i : ℕ)
      → IsChain c order
      → contains order i ≡ true
      → (r : LruInner K V) × (remove_node i c ≡ some r)
        × IsChain r (without i order)
        × SameEntries c r
  remove_node-IsChain c order i chain there =
      let (node, at, prev, next) = IsChain-node c order i chain there in
      let (r, returns, w) =
        remove_node-Relinked i c node at
          (IsChain-IsSlot c order node.prev chain
            (λ j h. before-contains none i j order (ap (λ o. is_index o j) (sym prev) ∙ h) refl))
          (IsChain-IsSlot c order node.next chain
            (λ j h. after-contains i j order (ap (λ o. is_index o j) (sym next) ∙ h))) in
      (
        r,
        returns,
        record {
          distinct = IsDistinct-without i order chain.distinct;
          prevs = λ j h. ground (
            arith,
            w.prevs j,
            chain.prevs j,
            contains-without i j order,
            before-without none i j order chain.distinct,
            prev,
            next,
            h,
          );
          nexts = λ j h. ground (
            arith,
            w.nexts j,
            chain.nexts j,
            contains-without i j order,
            after-without none i j order chain.distinct there,
            prev,
            next,
            h,
          );
          head_is = ground (
            arith,
            w.head_is,
            chain.head_is,
            first-without i order chain.distinct there,
            prev,
            next,
          );
          tail_is = ground (
            arith,
            w.tail_is,
            chain.tail_is,
            last_or-without none i order chain.distinct there,
            prev,
            next,
          );
        },
        w.same,
      )

  pub attach_front-IsChain :
      (c : LruInner K V) (order : List ℕ) (i : ℕ) (node : LruNode K V)
      → IsChain c order
      → contains order i ≡ false
      → slot c i ≡ some node
      → (r : LruInner K V) × (attach_front i c ≡ some r) × IsChain r (i ∷ order) × SameEntries c r
  unfolding before after contains last_or
  attach_front-IsChain c order i node chain new at =
      let (r, returns, w) = attach_front-Relinked i c node at (
        IsChain-IsSlot c order c.head chain
          (λ j h. ground (arith, chain.head_is, first-contains j order))) in
      (
        r,
        returns,
        record {
          distinct = (new, chain.distinct);
          prevs = λ j h. ground (
            arith,
            w.prevs j,
            chain.prevs j,
            before-cons i j order,
            chain.head_is,
            first-contains j order,
          );
          nexts = λ j h. ground (arith, w.nexts j, chain.nexts j, chain.head_is);
          head_is = w.head_is;
          tail_is = ground (arith, w.tail_is, chain.tail_is, last_or-cons i order);
        },
        w.same,
      )

  -- `move_to_front` on a slot of the chain returns, and puts the slot first.
  pub move_to_front-IsChain :
      (c : LruInner K V) (order : List ℕ) (i : ℕ)
      → IsChain c order
      → contains order i ≡ true
      → (r : LruInner K V) × (move_to_front i c ≡ some r)
        × IsChain r (i ∷ without i order)
        × SameEntries c r
  unfolding move_to_front
  move_to_front-IsChain c order i chain there = elim (Bool-cases (is_index c.head i)) [
    | inl front ↦
        let stays = cons-without-first i order (ground (arith, chain.head_is)) chain.distinct in
        (c, rw front, subst (IsChain c) (sym stays) chain, SameEntries-refl c)
    | inr behind ↦
        let (a, step1, chain1, same1) = remove_node-IsChain c order i chain there in
        let (node, at, _, _) = IsChain-node c order i chain there in
        let (node', at') = IsSlot-same (some i) same1 (node, at) in
        let (r, step2, chain2, same2) =
          attach_front-IsChain a (without i order) i node' chain1
            (contains-without i i order ∙ rw (==_refl i)) at' in
        (r, ground (arith, step1, step2), chain2, SameEntries-trans same1 same2)
  ]

  -- The map and the free list are no part of the chain.
  pub IsChain-map :
      (c : LruInner K V) (order : List ℕ) (m : List (K × ℕ)) (f : List ℕ)
      → IsChain c order
      → IsChain (record c { map = m; free_list = f }) order
  IsChain-map c order m f chain = record {
    distinct = chain.distinct;
    prevs = chain.prevs;
    nexts = chain.nexts;
    head_is = chain.head_is;
    tail_is = chain.tail_is;
  }
