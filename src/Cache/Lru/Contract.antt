-- ===== src/Cache/Lru/Contract.antt =====
-- `LruCache` of src/cache.rs against the list of its entries, and as a value of the trait.
use kind.Prelude.{
  ℕ, ==_refl, ◌<◌, ◌≡◌, refl, sym, subst, ◌∙◌, Eq, List, [], none, some, arith, inl, inr,
  Option-cases, lt→ltb, contains, without, nat_eq, get_elem?-set, contains-without, nat_beq_iff,
}
use kind.Prelude.Map
use kind.Cache.Lru.{LruInner, new, get, put, invalidate}
use kind.Cache.Lru.Order.{last_or}
use kind.Cache.Lru.Links.{update_node_lem}
use kind.Cache.Lru.Invariant.{IsConsistent}
use kind.Cache.Lru.Allocate.{slot_ne}
use kind.Cache.Lru.Enter.{with_value, with_value-IsConsistent}
use kind.Cache.Lru.Entries.{entries, entries-others}
use kind.Cache.Lru.Recency.{touch, store, Represents}
use kind.Cache.Lru.Refines.{
  get_refines_lem, invalidate_refines_lem, mapped_node, move_to_front-Represents,
  get-entries_absent, get-entries_found, entries-without_found,
}
use kind.Cache.Lru.Refines.Room.{enter-Represents, make_room-Represents}

module _ {K V : Type 0} ⦃e : Eq K⦄ where
  put_absent :
      (c : LruInner K V) (order : List ℕ) (k : K) (value : V)
      → IsConsistent c order
      → Map.get k c.map ≡ none
      → (r : LruInner K V) × (put c k value ≡ some r)
        × Represents r (store c.capacity k value (entries c order))
        × (r.capacity ≡ c.capacity)
  unfolding put store
  put_absent c order k value v absent =
      let (m, step1, rep, room, cap, still) = make_room-Represents c order v in
      let (i, p, r, step2, step3, rep', cap') =
        enter-Represents m rep.order rep.consistent k value (still k absent) room in
      let none_there = get-entries_absent c order v k absent in
      (
        r,
        ground (arith, step1, step2, step3),
        subst (Represents r) (ground (arith, rep.shown, none_there)) rep',
        cap' ∙ cap,
      )

  put_found :
      (c : LruInner K V) (order : List ℕ) (k : K) (value : V) (i : ℕ)
      → IsConsistent c order
      → Map.get k c.map ≡ some i
      → (r : LruInner K V) × (put c k value ≡ some r)
        × Represents r (store c.capacity k value (entries c order))
        × (r.capacity ≡ c.capacity)
  unfolding put store
  put_found c order k value i v found =
      let (node, at, key) = mapped_node c order v k i found in
      let w = with_value i node value c in
      let v' = with_value-IsConsistent c order i node value v at in
      let (r, moved, step, at', shown, rep, cap) = move_to_front-Represents w order v' k i found in
      let rest : Map.remove k (entries w order) ≡ Map.remove k (entries c order) =
        sym (entries-without_found w order v' k i found)
        ∙ entries-others c w (without i order) (λ j used.
          let ne =
            slot_ne i j (without i order) (contains-without i i order ∙ rw (==_refl i)) used in
          ground (arith, get_elem?-set c.nodes i j (record node { value = value }) at))
        ∙ entries-without_found c order v k i found in
      let written : moved.value ≡ value = ground (
        arith,
        shown,
        get-entries_found w order v' k i found,
        get_elem?-set c.nodes i i (record node { value = value }) at,
        nat_beq_iff i i,
      ) in
      (
        r,
        ground (arith, update_node_lem i (λ n. record n { value = value }) c node at, step),
        subst (Represents r) (ground (arith, rest, get-entries_found c order v k i found)) rep,
        cap,
      )

  -- A get on a cache that holds a list of entries returns what the list has for the key, and moves
  -- the entry to the front.
  pub get_refines :
      (c : LruInner K V) (es : List (K × V)) (k : K)
      → Represents c es
      → (r : LruInner K V) × (get c k ≡ some (r, Map.get k es))
        × Represents r (touch k es)
        × (r.capacity ≡ c.capacity)
  get_refines c es k rep =
      subst
        (λ es'.
          (r : LruInner K V) × (get c k ≡ some (r, Map.get k es'))
          × Represents r (touch k es')
          × (r.capacity ≡ c.capacity))
        rep.shown (get_refines_lem c rep.order rep.consistent k)

  -- A put into an LRU cache that holds a list of entries returns, and the cache then holds the
  -- list in which the entry is in front, without an older one of the key; if the key is new and
  -- the list is full, the last entry is gone.
  pub put_refines :
      (c : LruInner K V) (es : List (K × V)) (k : K) (value : V)
      → Represents c es
      → (r : LruInner K V) × (put c k value ≡ some r)
        × Represents r (store c.capacity k value es)
        × (r.capacity ≡ c.capacity)
  put_refines c es k value rep =
      let kept = λ (es' : List (K × V)).
        (r : LruInner K V) × (put c k value ≡ some r)
        × Represents r (store c.capacity k value es')
        × (r.capacity ≡ c.capacity) in
      subst kept rep.shown (elim (Option-cases (Map.get k c.map)) [
        | inl absent ↦ put_absent c rep.order k value rep.consistent absent
        | inr (i, found) ↦ put_found c rep.order k value i rep.consistent found
      ])

  pub invalidate_refines :
      (c : LruInner K V) (es : List (K × V)) (k : K)
      → Represents c es
      → (r : LruInner K V) × (invalidate c k ≡ some r)
        × Represents r (Map.remove k es)
        × (r.capacity ≡ c.capacity)
  invalidate_refines c es k rep =
      subst
        (λ es'.
          (r : LruInner K V) × (invalidate c k ≡ some r)
          × Represents r (Map.remove k es')
          × (r.capacity ≡ c.capacity))
        rep.shown (invalidate_refines_lem c rep.order rep.consistent k)

  abbrev pub empty : ℕ → LruInner K V
  empty n = record { capacity = n; map = []; nodes = []; free_list = []; head = none; tail = none }

  pub empty-Represents : (n : ℕ) → 0 < n → Represents (empty n) []
  unfolding entries contains Map.get last_or
  empty-Represents n positive = record {
    order = [];
    shown = refl;
    consistent = record {
      positive = positive;
      chain = record {
        distinct = tt;
        prevs = λ j h. absurd (ground arith);
        nexts = λ j h. absurd (ground arith);
        head_is = refl;
        tail_is = refl;
      };
      is_map = tt;
      mapped = λ k i h. absurd (ground arith);
      keyed = λ j k h g. absurd (ground arith);
      unused = λ j h. absurd (ground arith);
      free_distinct = tt;
      slots = refl;
      same_length = refl;
      bounded = omega arith;
      small = omega arith;
    };
  }

  -- A new cache is empty.
  pub new_refines :
      (n : ℕ) → 0 < n → (c : LruInner K V) × (new n ≡ some c) × Represents c [] × (c.capacity ≡ n)
  unfolding new
  new_refines n positive = (empty n, rw (lt→ltb 0 n positive), empty-Represents n positive, refl)
