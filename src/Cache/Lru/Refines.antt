-- ===== src/Cache/Lru/Refines.antt =====
-- `LruCache` of src/cache.rs keeps the list of its entries as promised.
pub mod Room
use kind.Prelude.{
  ℕ, suc, subst, ◌+◌, ◌≤◌, ◌<◌, ◌≡◌, ◌≢◌, refl, sym, ap, ◌∙◌, nat_eq, Eq, ◌==◌, Bool, true, false,
  List, [], ◌∷◌, Option, none, some, arith, if◌then◌else◌, length, contains, without,
  contains-without, IsDistinct, leb, inl, inr, Bool-cases, Option-cases, nat_beq_iff, get_elem?-set,
}
use kind.Prelude.Map
use kind.Cache.Lru.{
  LruNode, LruInner, allocate, attach_front, fresh, remove_node, move_to_front, get, put,
  invalidate, evict_tail, make_room,
}
use kind.Cache.Lru.Order.{last_or, last_or-contains, last_or-none}
use kind.Cache.Lru.Links.{slot, key_of, value_of, IsSlot, SameEntries, IsSlot-same, update_node_lem}
use kind.Cache.Lru.Chain.{
  IsChain, IsChain-map, IsChain-node, remove_node-IsChain, attach_front-IsChain,
  move_to_front-IsChain,
}
use kind.Cache.Lru.Invariant.{IsConsistent, touch-IsConsistent, detach-IsConsistent}
use kind.Cache.Lru.Allocate.{slot_ne, IsPlaced, allocate-IsPlaced}
use kind.Cache.Lru.Enter.{with_value, with_value-IsConsistent, enter-IsConsistent}
use kind.Cache.Lru.Entries.{
  entries, drop_last, without_last, entries-same, entries-others, length-entries, entries-drop_last,
  OnlyAt, entries-without, get-entries, get-entries-none,
}
use kind.Cache.Lru.Recency.{touch, shrink, store, Represents}

module _ {K V : Type 0} ⦃e : Eq K⦄ (c : LruInner K V) (order : List ℕ)
    (v : IsConsistent c order) where
  module _ (k : K) where
    -- A key that the map has not, or has at a slot.
    pub get-entries_absent : Map.get k c.map ≡ none → Map.get k (entries c order) ≡ none
    get-entries_absent absent =
        get-entries-none c k order (λ j used key. ground (arith, v.keyed j k used key))

    module _ (i : ℕ) (found : Map.get k c.map ≡ some i) where
      OnlyAt-mapped : OnlyAt c k i order
      OnlyAt-mapped = λ j used key. ground (arith, v.keyed j k used key, nat_beq_iff i j)

      pub get-entries_found : Map.get k (entries c order) ≡ value_of (slot c i)
      get-entries_found =
          let (used, key) = v.mapped k i found in get-entries c k i order used key OnlyAt-mapped

      pub entries-without_found : entries c (without i order) ≡ Map.remove k (entries c order)
      entries-without_found = entries-without c k i order (v.mapped k i found).1 OnlyAt-mapped

      pub mapped_node : (node : LruNode K V) × (slot c i ≡ some node) × (node.key ≡ k)
      mapped_node =
          let (used, key) = v.mapped k i found in
          let (node, at, _, _) = IsChain-node c order i v.chain used in (node, at, ground arith)

      -- The slot goes to the front.
      pub move_to_front-Represents :
          (r : LruInner K V) × (node : LruNode K V) × (move_to_front i c ≡ some r)
          × (slot r i ≡ some node)
          × (some node.value ≡ Map.get k (entries c order))
          × Represents r ((k, node.value) ∷ Map.remove k (entries c order))
          × (r.capacity ≡ c.capacity)
      unfolding entries
      move_to_front-Represents =
          let (used, key) = v.mapped k i found in
          let (r, returns, chain, same) = move_to_front-IsChain c order i v.chain used in
          let (old, at, _) = mapped_node in
          let (node, at') = IsSlot-same (some i) same (old, at) in
          (
            r,
            node,
            returns,
            at',
            ground (arith, get-entries_found, same.values i),
            record {
              order = i ∷ without i order;
              consistent = touch-IsConsistent c r order i v used chain same;
              shown = ground (
                arith,
                entries-same c r (without i order) same,
                entries-without_found,
                same.keys i,
              );
            },
            same.capacity,
          )

  pub get_refines_lem :
      (k : K)
      → (r : LruInner K V) × (get c k ≡ some (r, Map.get k (entries c order)))
        × Represents r (touch k (entries c order))
        × (r.capacity ≡ c.capacity)
  unfolding get touch
  get_refines_lem k = elim (Option-cases (Map.get k c.map)) [
    | inl absent ↦
        let none_there = get-entries_absent k absent in
        (
          c,
          ground (arith, none_there),
          record { order = order; consistent = v; shown = ground (arith, none_there) },
          refl,
        )
    | inr (i, found) ↦
        let (r, node, returns, at, value, rep, cap) = move_to_front-Represents k i found in
        (r, ground (arith, returns), subst (Represents r) (ground (arith, value)) rep, cap)
  ]

  -- The slot leaves the chain and the map, and is free.
  pub detach-Represents :
      (k : K) (i : ℕ) (r : LruInner K V) {m : List (K × ℕ)} {f : List ℕ}
      → Map.get k c.map ≡ some i
      → IsChain r (without i order)
      → SameEntries c r
      → m ≡ Map.remove k c.map
      → f ≡ i ∷ c.free_list
      → Represents (record r { map = m; free_list = f }) (Map.remove k (entries c order))
  detach-Represents k i r {m} {f} found chain same map_is free_is =
      let (used, key) = v.mapped k i found in
      let freed : LruInner K V = record r {
        map = Map.remove k c.map;
        free_list = i ∷ c.free_list;
      } in
      let rep : Represents freed (Map.remove k (entries c order)) = record {
        order = without i order;
        consistent = detach-IsConsistent c r order i k v used key chain same;
        shown =
            entries-others r freed (without i order) (λ j h. refl)
            ∙ entries-same c r (without i order) same
            ∙ entries-without_found k i found;
      } in
      subst
        (λ m'. Represents (record r { map = m'; free_list = f }) (Map.remove k (entries c order)))
        (sym map_is)
        (subst
          (λ f'.
            Represents (record r { map = Map.remove k c.map; free_list = f' })
              (Map.remove k (entries c order)))
          (sym free_is) rep)

  -- `invalidate` removes from the map first: the links do not see it.
  pub invalidate_refines_lem :
      (k : K)
      → (r : LruInner K V) × (invalidate c k ≡ some r)
        × Represents r (Map.remove k (entries c order))
        × (r.capacity ≡ c.capacity)
  unfolding invalidate
  invalidate_refines_lem k = elim (Option-cases (Map.get k c.map)) [
    | inl absent ↦
        let none_there = get-entries_absent k absent in
        (
          c,
          ground arith,
          record {
            order = order;
            consistent = v;
            shown = sym (Map.remove_absent k (entries c order) (ground (arith, none_there)));
          },
          refl,
        )
    | inr (i, found) ↦
        let m = Map.remove k c.map in
        let removed = IsChain-map c order m c.free_list v.chain in
        let (used, key) = v.mapped k i found in
        let (r, returns, chain, same) =
          remove_node-IsChain (record c { map = m }) order i removed used in
        (
          record r { free_list = i ∷ r.free_list },
          ground (arith, returns),
          detach-Represents k i (record r { map = c.map; free_list = c.free_list }) found
              (IsChain-map r (without i order) c.map c.free_list chain)
              (record {
                keys = same.keys;
                values = same.values;
                size = same.size;
                capacity = same.capacity;
                map = refl;
                free_list = refl;
              })
              same.map (ap (◌∷◌ i) same.free_list),
          same.capacity,
        )
  ]
