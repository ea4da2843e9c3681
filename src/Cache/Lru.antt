-- ===== src/Cache/Lru.antt =====
-- src/cache.rs, lines 13-148: the least-recently-used cache, a doubly linked list threaded through
-- a vector of nodes, with a free list. `none` is a panic: an index out of bounds, or the failed
-- assertion of `new`.
pub mod Order
pub mod Links
pub mod Chain
pub mod Invariant
pub mod Allocate
pub mod Enter
pub mod Entries
pub mod Recency
pub mod Refines
pub mod Contract
pub mod Strategy
pub mod Runs
pub mod Survival
use kind.Prelude.{
  ℕ, Eq, nat_beq, Bool, false, List, [], ◌∷◌, ◌++◌, Option, none, some, is_some, ltb, leb, length,
  get_elem?, set, if◌then◌else◌,
}
use kind.Prelude.Map
use kind.Prelude.Optional.{◌>>=◌}

pub record LruNode (K V : Type 0) : Type 0 where
  pub key : K
  pub value : V
  pub prev : Option ℕ
  pub next : Option ℕ

-- The last element of `free_list`, where `push` and `pop` work, is the list's head.
pub record LruInner (K V : Type 0) : Type 0 where
  pub capacity : ℕ
  pub map : List (K × ℕ)
  pub nodes : List (LruNode K V)
  pub free_list : List ℕ
  pub head : Option ℕ
  pub tail : Option ℕ

-- `self.head == Some(idx)`.
abbrev pub is_index : Option ℕ → ℕ → Bool
is_index none idx = false
is_index (some h) idx = nat_beq h idx

module _ {K V : Type 0} where
  unfoldable pub new : ℕ → Option (LruInner K V)
  new capacity =
      if ltb 0 capacity
      then some (record {
        capacity = capacity;
        map = [];
        nodes = [];
        free_list = [];
        head = none;
        tail = none;
      })
      else none

  -- `self.nodes[idx] = f(self.nodes[idx])`.
  unfoldable pub update_node :
      ℕ → (LruNode K V → LruNode K V) → LruInner K V → Option (LruInner K V)
  update_node idx f inner = elim (get_elem? inner.nodes idx) [
    | none ↦ none
    | some node ↦ some (record inner { nodes = set inner.nodes idx (f node) })
  ]

  abbrev pub with_prev : Option ℕ → LruNode K V → LruNode K V
  with_prev p node = record node { prev = p }

  abbrev pub with_next : Option ℕ → LruNode K V → LruNode K V
  with_next n node = record node { next = n }

  -- The first `if let` of `remove_node`: the neighbour before, or the head.
  unfoldable pub relink_prev : Option ℕ → Option ℕ → LruInner K V → Option (LruInner K V)
  unfolding update_node
  relink_prev (some p) next inner = update_node p (with_next next) inner
  relink_prev none next inner = some (record inner { head = next })

  -- The second: the neighbour after, or the tail.
  unfoldable pub relink_next : Option ℕ → Option ℕ → LruInner K V → Option (LruInner K V)
  unfolding update_node
  relink_next (some n) prev inner = update_node n (with_prev prev) inner
  relink_next none prev inner = some (record inner { tail = prev })

  unfoldable pub remove_node : ℕ → LruInner K V → Option (LruInner K V)
  unfolding relink_prev relink_next update_node
  remove_node idx inner = do
    node ← get_elem? inner.nodes idx
    before ← relink_prev node.prev node.next inner
    after ← relink_next node.next node.prev before
    update_node idx (λ n. record n { prev = none; next = none }) after

  -- `if let Some(h) = old_head { nodes[h].prev = Some(idx) }`.
  unfoldable pub link_old_head : Option ℕ → ℕ → LruInner K V → Option (LruInner K V)
  unfolding update_node
  link_old_head (some h) idx inner = update_node h (with_prev (some idx)) inner
  link_old_head none idx inner = some inner

  -- The end of `move_to_front` and of `put`: the node becomes the head.
  unfoldable pub attach_front : ℕ → LruInner K V → Option (LruInner K V)
  unfolding update_node link_old_head
  attach_front idx inner = do
    linked ← update_node idx (λ n. record n { prev = none; next = inner.head }) inner
    back ← link_old_head inner.head idx linked
    some (record back { head = some idx; tail = if is_some back.tail then back.tail else some idx })

  unfoldable pub move_to_front : ℕ → LruInner K V → Option (LruInner K V)
  unfolding remove_node attach_front
  move_to_front idx inner =
      if is_index inner.head idx
      then some inner
      else do removed ← remove_node idx inner; attach_front idx removed

  -- A node that is not linked yet.
  abbrev pub fresh : K → V → LruNode K V
  fresh key value = record { key = key; value = value; prev = none; next = none }

  -- `new_idx`: a slot of the free list, or a new one at the end. A free slot out of bounds panics.
  unfoldable pub allocate : List ℕ → K → V → LruInner K V → Option (ℕ × LruInner K V)
  unfolding update_node
  allocate (idx ∷ free) key value inner = do
    filled ← update_node idx (λ _. fresh key value) (record inner { free_list = free })
    some (idx, filled)
  allocate [] key value inner =
      some (length inner.nodes, record inner { nodes = inner.nodes ++ fresh key value ∷ [] })

module _ {K V : Type 0} ⦃e : Eq K⦄ where
  unfoldable pub get : LruInner K V → K → Option (LruInner K V × Option V)
  unfolding move_to_front
  get inner key = elim (Map.get key inner.map) [
    | none ↦ some (inner, none)
    | some idx ↦ do
      moved ← move_to_front idx inner
      node ← get_elem? moved.nodes idx
      some (moved, some node.value)
  ]

  -- The eviction of the tail, when the map is full.
  unfoldable pub evict_tail : LruInner K V → Option (LruInner K V)
  unfolding remove_node
  evict_tail inner = elim inner.tail [
    | none ↦ some inner
    | some tail_idx ↦ do
      removed ← remove_node tail_idx inner
      node ← get_elem? removed.nodes tail_idx
      some (record removed {
        map = Map.remove node.key removed.map;
        free_list = tail_idx ∷ removed.free_list;
      })
  ]

  unfoldable pub make_room : LruInner K V → Option (LruInner K V)
  unfolding evict_tail
  make_room inner = if leb inner.capacity (length inner.map) then evict_tail inner else some inner

  unfoldable pub put : LruInner K V → K → V → Option (LruInner K V)
  unfolding update_node move_to_front make_room allocate attach_front
  put inner key value = elim (Map.get key inner.map) [
    | some idx ↦ do
      written ← update_node idx (λ n. record n { value = value }) inner
      move_to_front idx written
    | none ↦ do
      room ← make_room inner
      (new_idx, placed) ← allocate room.free_list key value room
      attach_front new_idx (record placed { map = Map.insert key new_idx placed.map })
  ]

  unfoldable pub invalidate : LruInner K V → K → Option (LruInner K V)
  unfolding remove_node
  invalidate inner key = elim (Map.get key inner.map) [
    | none ↦ some inner
    | some idx ↦ do
      removed ← remove_node idx (record inner { map = Map.remove key inner.map })
      some (record removed { free_list = idx ∷ removed.free_list })
  ]
