-- ===== src/Cache/Lru/Links.antt =====
-- The links of src/cache.rs's `LruNode`, seen slot by slot, and states that differ in them only.
pub mod Steps
use kind.Prelude.{
  ℕ, ◌≡◌, refl, nat_eq, ◌==◌, Bool, true, false, is_some, List, [], ◌∷◌, Option, none, some, arith,
  if◌then◌else◌, get_elem?, set, length, length-set, get_elem?-set, ◌∙◌, inl, inr, Option-cases,
}
use kind.Cache.Lru.{
  LruNode, LruInner, is_index, update_node, with_prev, with_next, relink_prev, relink_next,
  remove_node, link_old_head, attach_front,
}

module _ {K V : Type 0} where
  -- The links of a slot, `none` where there is no such slot.
  abbrev pub prev_of : Option (LruNode K V) → Option (Option ℕ)
  prev_of none = none
  prev_of (some node) = some node.prev

  abbrev pub next_of : Option (LruNode K V) → Option (Option ℕ)
  next_of none = none
  next_of (some node) = some node.next

  abbrev pub key_of : Option (LruNode K V) → Option K
  key_of none = none
  key_of (some node) = some node.key

  abbrev pub value_of : Option (LruNode K V) → Option V
  value_of none = none
  value_of (some node) = some node.value

  abbrev pub slot : LruInner K V → ℕ → Option (LruNode K V)
  slot c j = get_elem? c.nodes j

  abbrev pub IsSlot : LruInner K V → Option ℕ → Type 0
  IsSlot c none = Unit
  IsSlot c (some i) = (node : LruNode K V) × (slot c i ≡ some node)

  -- `r` is `c` but for links, `head` and `tail`.
  pub record SameEntries (c r : LruInner K V) : Type 0 where
    pub keys : (j : ℕ) → key_of (slot r j) ≡ key_of (slot c j)
    pub values : (j : ℕ) → value_of (slot r j) ≡ value_of (slot c j)
    pub size : length r.nodes ≡ length c.nodes
    pub capacity : r.capacity ≡ c.capacity
    pub map : r.map ≡ c.map
    pub free_list : r.free_list ≡ c.free_list

  pub SameEntries-trans :
      {a b c : LruInner K V} → SameEntries a b → SameEntries b c → SameEntries a c
  SameEntries-trans s t = record {
    keys = λ j. t.keys j ∙ s.keys j;
    values = λ j. t.values j ∙ s.values j;
    size = t.size ∙ s.size;
    capacity = t.capacity ∙ s.capacity;
    map = t.map ∙ s.map;
    free_list = t.free_list ∙ s.free_list;
  }

  pub SameEntries-refl : (c : LruInner K V) → SameEntries c c
  SameEntries-refl c = record {
    keys = λ j. refl;
    values = λ j. refl;
    size = refl;
    capacity = refl;
    map = refl;
    free_list = refl;
  }

  pub SameEntries-ends :
      (c : LruInner K V) (head tail : Option ℕ)
      → SameEntries c (record c { head = head; tail = tail })
  SameEntries-ends c head tail = record {
    keys = λ j. refl;
    values = λ j. refl;
    size = refl;
    capacity = refl;
    map = refl;
    free_list = refl;
  }

  pub SameEntries-set :
      (c : LruInner K V) (i : ℕ) (node written : LruNode K V)
      → slot c i ≡ some node
      → written.key ≡ node.key
      → written.value ≡ node.value
      → SameEntries c (record c { nodes = set c.nodes i written })
  SameEntries-set c i node written at same_key same_value = record {
    keys = λ j. ground (arith, get_elem?-set c.nodes i j written at);
    values = λ j. ground (arith, get_elem?-set c.nodes i j written at);
    size = length-set c.nodes i written;
    capacity = refl;
    map = refl;
    free_list = refl;
  }

  -- `r` is `c` with these links, head and tail.
  pub record Relinked (c r : LruInner K V) (prev next : ℕ → Option (Option ℕ))
      (head tail : Option ℕ) : Type 0 where
    pub prevs : (j : ℕ) → prev_of (slot r j) ≡ prev j
    pub nexts : (j : ℕ) → next_of (slot r j) ≡ next j
    pub head_is : r.head ≡ head
    pub tail_is : r.tail ≡ tail
    pub same : SameEntries c r

  -- A slot that is there may be written.
  pub update_node_lem :
      (i : ℕ) (f : LruNode K V → LruNode K V) (c : LruInner K V) (node : LruNode K V)
      → slot c i ≡ some node
      → update_node i f c ≡ some (record c { nodes = set c.nodes i (f node) })
  unfolding update_node
  update_node_lem i f c node h = ground arith

  pub Relinked-set :
      (c : LruInner K V) (i : ℕ) (node written : LruNode K V) {prev next : ℕ → Option (Option ℕ)}
      → slot c i ≡ some node
      → written.key ≡ node.key
      → written.value ≡ node.value
      → ((j : ℕ) → (if i == j then some written.prev else prev_of (slot c j)) ≡ prev j)
      → ((j : ℕ) → (if i == j then some written.next else next_of (slot c j)) ≡ next j)
      → Relinked c (record c { nodes = set c.nodes i written }) prev next c.head c.tail
  Relinked-set c i node written at same_key same_value prevs nexts = record {
    prevs = λ j. ground (arith, get_elem?-set c.nodes i j written at, prevs j);
    nexts = λ j. ground (arith, get_elem?-set c.nodes i j written at, nexts j);
    head_is = refl;
    tail_is = refl;
    same = SameEntries-set c i node written at same_key same_value;
  }

  pub Relinked-ends :
      (c : LruInner K V) (head tail : Option ℕ)
      → Relinked c
          (record c { head = head; tail = tail })
          (λ j. prev_of (slot c j))
          (λ j. next_of (slot c j))
          head
          tail
  Relinked-ends c head tail = record {
    prevs = λ j. refl;
    nexts = λ j. refl;
    head_is = refl;
    tail_is = refl;
    same = SameEntries-ends c head tail;
  }

  -- A slot that is there stays there.
  pub IsSlot-same : {c r : LruInner K V} (o : Option ℕ) → SameEntries c r → IsSlot c o → IsSlot r o
  IsSlot-same none w there = tt
  IsSlot-same {r} (some i) w (node, at) = elim (Option-cases (slot r i)) [
    | inl gone ↦ absurd (ground (arith, w.keys i))
    | inr found ↦ found
  ]
