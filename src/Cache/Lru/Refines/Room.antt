-- ===== src/Cache/Lru/Refines/Room.antt =====
-- New entries in src/cache.rs's `LruCache`, and the eviction that makes room for them.
use kind.Prelude.{
  ℕ, suc, subst, ◌<◌, ◌≡◌, refl, sym, ap, ◌∙◌, nat_eq, Eq, true, List, ◌∷◌, none, some, arith,
  length, contains, leb, inl, inr, Bool-cases, Option-cases,
}
use kind.Prelude.Map
use kind.Cache.Lru.{LruInner, allocate, attach_front, fresh, evict_tail, make_room}
use kind.Cache.Lru.Order.{last_or, last_or-contains, last_or-none}
use kind.Cache.Lru.Links.{key_of, IsSlot, IsSlot-same}
use kind.Cache.Lru.Chain.{IsChain-map, IsChain-node, remove_node-IsChain, attach_front-IsChain}
use kind.Cache.Lru.Invariant.{IsConsistent}
use kind.Cache.Lru.Allocate.{slot_ne, allocate-IsPlaced}
use kind.Cache.Lru.Enter.{enter-IsConsistent}
use kind.Cache.Lru.Entries.{
  entries, drop_last, without_last, entries-same, entries-others, length-entries, entries-drop_last,
}
use kind.Cache.Lru.Recency.{shrink, Represents}
use kind.Cache.Lru.Refines.{entries-without_found, detach-Represents}

module _ {K V : Type 0} ⦃e : Eq K⦄ (c : LruInner K V) (order : List ℕ)
    (v : IsConsistent c order) where
  -- A new entry, with room for it, is the most recent.
  pub enter-Represents :
      (k : K) (value : V)
      → Map.get k c.map ≡ none
      → length c.map < c.capacity
      → (i : ℕ) × (p : LruInner K V) × (r : LruInner K V) × (allocate c.free_list k value c
          ≡ some (i, p))
        × (attach_front i (record p { map = Map.insert k i p.map }) ≡ some r)
        × Represents r ((k, value) ∷ entries c order)
        × (r.capacity ≡ c.capacity)
  unfolding entries
  enter-Represents k value absent room =
      let (i, p, step1, placed) = allocate-IsPlaced c order k value v room in
      let m = Map.insert k i p.map in
      let (r, step2, chain, same) =
        attach_front-IsChain (record p { map = m }) order i (fresh k value)
          (IsChain-map p order m p.free_list placed.chain) placed.new placed.there in
      let rest : entries r order ≡ entries c order =
        entries-same (record p { map = m }) r order same
        ∙ entries-others c (record p { map = m }) order
            (λ j used. placed.others j (slot_ne i j order placed.new used)) in
      (
        i,
        p,
        r,
        step1,
        step2,
        record {
          order = i ∷ order;
          consistent = enter-IsConsistent c p r order i k value v room absent placed chain same;
          shown = ground (arith, rest, placed.there, same.keys i, same.values i);
        },
        same.capacity ∙ placed.same_capacity,
      )

  IsSlot-used : (j : ℕ) → contains order j ≡ true → IsSlot c (some j)
  IsSlot-used j used = let (node, at, _, _) = IsChain-node c order j v.chain used in (node, at)

  length-entries_map : length (entries c order) ≡ length c.map
  length-entries_map = length-entries c order IsSlot-used ∙ v.same_length

  -- The least recent entry leaves.
  evict_tail-Represents :
      (t : ℕ)
      → last_or none order ≡ some t
      → (r : LruInner K V) × (evict_tail c ≡ some r)
        × Represents r (drop_last (entries c order))
        × (suc (length r.map) ≡ length c.map)
        × (r.capacity ≡ c.capacity)
        × ((k : K) → Map.get k c.map ≡ none → Map.get k r.map ≡ none)
  unfolding evict_tail
  evict_tail-Represents t last =
      let used : contains order t ≡ true = last_or-contains none t order last refl in
      let (node, at) = IsSlot-used t used in
      let found : Map.get node.key c.map ≡ some t = v.keyed t node.key used (ap key_of at) in
      let (r, returns, chain, same) = remove_node-IsChain c order t v.chain used in
      let (node', at') = IsSlot-same (some t) same (node, at) in
      let key : node'.key ≡ node.key = ground (arith, same.keys t) in
      let map_is : Map.remove node'.key r.map ≡ Map.remove node.key c.map =
        ground (arith, same.map) in
      let dropped : Map.remove node.key (entries c order) ≡ drop_last (entries c order) =
        sym (entries-without_found c order v node.key t found)
        ∙ ap (entries c) (without_last none t order v.chain.distinct refl last)
        ∙ entries-drop_last c order IsSlot-used in
      (
        record r { map = Map.remove node'.key r.map; free_list = t ∷ r.free_list },
        ground (arith, v.chain.tail_is, returns, at'),
        subst (Represents _) dropped (
            detach-Represents c order v node.key t r found chain same map_is
              (ap (◌∷◌ t) same.free_list)),
        ground (arith, map_is, Map.length-remove node.key c.map v.is_map, found),
        same.capacity,
        λ k absent. ground (arith, map_is, Map.get-remove node.key k c.map),
      )

  pub make_room-Represents :
      (r : LruInner K V) × (make_room c ≡ some r)
      × Represents r (shrink c.capacity (entries c order))
      × (length r.map < r.capacity)
      × (r.capacity ≡ c.capacity)
      × ((k : K) → Map.get k c.map ≡ none → Map.get k r.map ≡ none)
  unfolding make_room shrink
  make_room-Represents = elim (Bool-cases (leb c.capacity (length c.map))) [
    | inl full ↦ elim (Option-cases (last_or none order)) [
      | inl empty ↦
          absurd (ground (arith, ap length (last_or-none order empty), v.same_length, v.positive))
      | inr (t, last) ↦
          let (r, returns, rep, smaller, cap, absent) = evict_tail-Represents t last in
          (
            r,
            ground (arith, returns),
            subst (Represents r) (ground (arith, length-entries_map)) rep,
            ground (arith, smaller, cap, v.bounded),
            cap,
            absent,
          )
    ]
    | inr room ↦ (
      c,
      ground arith,
      record { order = order; consistent = v; shown = ground (arith, length-entries_map) },
      ground arith,
      refl,
      λ k absent. absent,
    )
  ]
