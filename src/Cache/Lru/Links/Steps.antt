-- ===== src/Cache/Lru/Links/Steps.antt =====
-- `remove_node` and the linking of a new head in src/cache.rs as changes of the links.
use kind.Prelude.{
  ℕ, ◌≡◌, refl, nat_eq, ◌==◌, is_some, Option, none, some, arith, if◌then◌else◌, set, get_elem?-set,
  ◌∙◌,
}
use kind.Cache.Lru.{
  LruNode, LruInner, is_index, with_prev, with_next, relink_prev, relink_next, remove_node,
  link_old_head, attach_front,
}
use kind.Cache.Lru.Links.{
  prev_of, next_of, slot, IsSlot, IsSlot-same, SameEntries-trans, SameEntries-ends, SameEntries-set,
  Relinked, Relinked-set, Relinked-ends, update_node_lem,
}

module _ {K V : Type 0} where
  pub relink_prev-Relinked :
      (p next : Option ℕ) (c : LruInner K V)
      → IsSlot c p
      → (r : LruInner K V) × (relink_prev p next c ≡ some r)
        × Relinked c r
            (λ j. prev_of (slot c j))
            (λ j. if is_index p j then some next else next_of (slot c j))
            (if is_some p then c.head else next)
            c.tail
  unfolding relink_prev
  relink_prev-Relinked none next c there =
      (record c { head = next }, refl, Relinked-ends c next c.tail)
  relink_prev-Relinked (some a) next c (node, at) = (
    record c { nodes = set c.nodes a (with_next next node) },
    update_node_lem a (with_next next) c node at,
    Relinked-set c a node (with_next next node) at refl refl (λ j. ground arith) (λ j. refl),
  )

  pub relink_next-Relinked :
      (n prev : Option ℕ) (c : LruInner K V)
      → IsSlot c n
      → (r : LruInner K V) × (relink_next n prev c ≡ some r)
        × Relinked c r
            (λ j. if is_index n j then some prev else prev_of (slot c j))
            (λ j. next_of (slot c j))
            c.head
            (if is_some n then c.tail else prev)
  unfolding relink_next
  relink_next-Relinked none prev c there =
      (record c { tail = prev }, refl, Relinked-ends c c.head prev)
  relink_next-Relinked (some a) prev c (node, at) = (
    record c { nodes = set c.nodes a (with_prev prev node) },
    update_node_lem a (with_prev prev) c node at,
    Relinked-set c a node (with_prev prev node) at refl refl (λ j. refl) (λ j. ground arith),
  )

  -- `remove_node` on a slot whose neighbours are there returns, and links the neighbours together.
  pub remove_node-Relinked :
      (i : ℕ) (c : LruInner K V) (node : LruNode K V)
      → slot c i ≡ some node
      → IsSlot c node.prev
      → IsSlot c node.next
      → (r : LruInner K V) × (remove_node i c ≡ some r)
        × Relinked c r
            (λ j.
              if i == j
              then some none
              else if is_index node.next j
              then some node.prev
              else prev_of (slot c j))
            (λ j.
              if i == j
              then some none
              else if is_index node.prev j
              then some node.next
              else next_of (slot c j))
            (if is_some node.prev then c.head else node.next)
            (if is_some node.next then c.tail else node.prev)
  unfolding remove_node
  remove_node-Relinked i c node at there_prev there_next =
      let (b, step1, w1) = relink_prev-Relinked node.prev node.next c there_prev in
      let (a, step2, w2) =
        relink_next-Relinked node.next node.prev b (IsSlot-same node.next w1.same there_next) in
      let (last, at') = IsSlot-same (some i) w2.same (IsSlot-same (some i) w1.same (node, at)) in
      let cleared : LruNode K V = record last { prev = none; next = none } in
      let step3 = update_node_lem i (λ n. record n { prev = none; next = none }) a last at' in
      (
        record a { nodes = set a.nodes i cleared },
        ground (arith, step1, step2, step3),
        record {
          prevs =
              λ j. ground (arith, get_elem?-set a.nodes i j cleared at', w1.prevs j, w2.prevs j);
          nexts =
              λ j. ground (arith, get_elem?-set a.nodes i j cleared at', w1.nexts j, w2.nexts j);
          head_is = w2.head_is ∙ w1.head_is;
          tail_is = ground (arith, w2.tail_is, w1.tail_is);
          same =
              SameEntries-trans w1.same
                (SameEntries-trans w2.same (SameEntries-set a i last cleared at' refl refl));
        },
      )

  link_old_head-Relinked :
      (h : Option ℕ) (i : ℕ) (c : LruInner K V)
      → IsSlot c h
      → (r : LruInner K V) × (link_old_head h i c ≡ some r)
        × Relinked c r
            (λ j. if is_index h j then some (some i) else prev_of (slot c j))
            (λ j. next_of (slot c j))
            c.head
            c.tail
  unfolding link_old_head
  link_old_head-Relinked none i c there = (c, refl, Relinked-ends c c.head c.tail)
  link_old_head-Relinked (some h) i c (node, at) = (
    record c { nodes = set c.nodes h (with_prev (some i) node) },
    update_node_lem h (with_prev (some i)) c node at,
    Relinked-set c h node (with_prev (some i) node) at refl refl (λ j. refl) (λ j. ground arith),
  )

  -- `attach_front` on a slot that is there returns, and makes it the head.
  pub attach_front-Relinked :
      (i : ℕ) (c : LruInner K V) (node : LruNode K V)
      → slot c i ≡ some node
      → IsSlot c c.head
      → (r : LruInner K V) × (attach_front i c ≡ some r)
        × Relinked c r
            (λ j.
              if is_index c.head j
              then some (some i)
              else if i == j
              then some none
              else prev_of (slot c j))
            (λ j. if i == j then some c.head else next_of (slot c j))
            (some i)
            (if is_some c.tail then c.tail else some i)
  unfolding attach_front
  attach_front-Relinked i c node at there =
      let front : LruNode K V = record node { prev = none; next = c.head } in
      let linked : LruInner K V = record c { nodes = set c.nodes i front } in
      let step1 = update_node_lem i (λ n. record n { prev = none; next = c.head }) c node at in
      let w1 : Relinked c linked (λ j. if i == j then some none else prev_of (slot c j))
          (λ j. if i == j then some c.head else next_of (slot c j)) c.head c.tail =
        Relinked-set c i node front at refl refl (λ j. refl) (λ j. refl) in
      let (b, step2, w2) =
        link_old_head-Relinked c.head i linked (IsSlot-same c.head w1.same there) in
      (
        record b { head = some i; tail = if is_some b.tail then b.tail else some i },
        ground (arith, step1, step2),
        record {
          prevs = λ j. ground (arith, w1.prevs j, w2.prevs j);
          nexts = λ j. ground (arith, w1.nexts j, w2.nexts j);
          head_is = refl;
          tail_is = ground (arith, w2.tail_is);
          same = SameEntries-trans w1.same (
              SameEntries-trans w2.same
                (SameEntries-ends b (some i) (if is_some b.tail then b.tail else some i)));
        },
      )
