-- ===== src/Cache/Fifo/Contract.antt =====
-- `FifoCache` of src/cache.rs as a value of the trait, and the order of its evictions.
use kind.Prelude.{
  lt→ltb, ℕ, ◌<◌, [], ◌+◌, ◌≡◌, inl, inr, refl, Eq, ◌==◌, true, false, Bool-cases, List, [], ◌∷◌,
  ◌++◌, none, some, arith, length, if◌then◌else◌,
}
use kind.Prelude.Map
use kind.Cache.{Cache, Kept}
use kind.Cache.Fifo.{FifoInner, new, get, evict_front, append, put, invalidate}
use kind.Cache.Fifo.Invariant.{new-IsValid, IsValid, append-IsConsistent, invalidate-IsConsistent}
use kind.Cache.Fifo.Evict.{HasRoom, evict_loop-HasRoom, evict_loop_full}

module _ {K V : Type 0} ⦃e : Eq K⦄ where
  -- What a successful `put` leaves.
  pub record IsPut (c : FifoInner K V) (k : K) (v : V) (c' : FifoInner K V) : Type 0 where
    pub valid : IsValid c'
    pub self : Map.get k c'.map ≡ some v
    pub others : (j : K) → (k == j) ≡ false → Kept (Map.get j c'.map) (Map.get j c.map)

  IsPut-append :
      (c r : FifoInner K V) (k : K) (v : V)
      → Map.contains_key k c.map ≡ false
      → HasRoom c r
      → IsPut c k v (append k v r)
  unfolding append
  IsPut-append c r k v new_key room = record {
    valid = record {
      consistent = append-IsConsistent r k v (ground (arith, room.kept k)) room.consistent;
      bounded = ground (arith, Map.length-insert k v r.map, room.room);
    };
    self = ground (arith, Map.get-insert k k v r.map, e.beq_iff k k);
    others = λ j ne. rw (Map.get-insert, ne) (room.kept j);
  }

  IsPut-overwrite :
      (c : FifoInner K V) (k : K) (v : V)
      → Map.contains_key k c.map ≡ true
      → IsValid c
      → IsPut c k v (record c { map = Map.insert k v c.map })
  IsPut-overwrite c k v there valid = record {
    valid = record {
      consistent = record {
        positive = valid.consistent.positive;
        is_map = Map.IsMap-insert k v c.map valid.consistent.is_map;
        distinct = valid.consistent.distinct;
        same_keys = λ j.
            ground (
              arith,
              Map.get-insert k j v c.map,
              valid.consistent.same_keys j,
              e.beq_iff k j,
              there,
            );
        same_length =
            ground (arith, Map.length-insert k v c.map, there, valid.consistent.same_length);
      };
      bounded = ground (arith, Map.length-insert k v c.map, there, valid.bounded);
    };
    self = ground (arith, Map.get-insert k k v c.map, e.beq_iff k k);
    others = λ j ne. rw (Map.get-insert, ne) (inr refl);
  }

  pub put-IsPut :
      (c : FifoInner K V) (k : K) (v : V)
      → IsValid c
      → (c' : FifoInner K V) × (put c k v ≡ some c') × IsPut c k v c'
  unfolding put
  put-IsPut c k v valid = elim (Bool-cases (Map.contains_key k c.map)) [
    | inl there ↦
        (record c { map = Map.insert k v c.map }, rw there, IsPut-overwrite c k v there valid)
    | inr absent ↦
        let (r, ends, room) =
          evict_loop-HasRoom (length c.map + 1) c valid.consistent (omega arith) in
        (append k v r, rw (absent, ends), IsPut-append c r k v absent room)
  ]

  pub invalidate-IsValid : (c : FifoInner K V) (k : K) → IsValid c → IsValid (invalidate c k)
  unfolding invalidate
  invalidate-IsValid c k valid = record {
    consistent = invalidate-IsConsistent c k valid.consistent;
    bounded = ground (arith, Map.length-remove k c.map valid.consistent.is_map, valid.bounded);
  }

  pub invalidate-get :
      (c : FifoInner K V) (k j : K)
      → Map.get j (invalidate c k).map ≡ (if k == j then none else Map.get j c.map)
  unfolding invalidate
  invalidate-get c k j = ground (arith, Map.get-remove k j c.map, e.beq_iff k j)

  pub new_returns :
      (n : ℕ)
      → 0 < n
      → (c : FifoInner K V) × (new n ≡ some c) × IsValid c × ((j : K) → get c j ≡ none)
  unfolding new get Map.get
  new_returns n h =
      let c : FifoInner K V = record { capacity = n; map = []; queue = [] } in
      let made : new n ≡ some c = rw (lt→ltb 0 n h) in (c, made, (new-IsValid n made).0, λ j. refl)

  -- A put on a valid cache returns a valid cache, in which the key has the value and every other
  -- key has the value that it had or none.
  pub put_returns :
      (c : FifoInner K V) (k : K) (v : V)
      → IsValid c
      → (c' : FifoInner K V) × (put c k v ≡ some c')
        × IsValid c'
        × (get c' k ≡ some v)
        × ((j : K) → (k == j) ≡ false → Kept (get c' j) (get c j))
  unfolding get
  put_returns c k v valid =
      let (c', ends, p) = put-IsPut c k v valid in (c', ends, p.valid, p.self, p.others)

  -- An invalidation on a valid cache leaves a valid cache in which the key has no value and every
  -- other key has the value that it had.
  pub invalidate_returns :
      (c : FifoInner K V) (k : K)
      → IsValid c
      → (c' : FifoInner K V) × (some (invalidate c k) ≡ some c')
        × IsValid c'
        × ((j : K) → get c' j ≡ (if k == j then none else get c j))
  unfolding get
  invalidate_returns c k valid =
      (invalidate c k, refl, invalidate-IsValid c k valid, invalidate-get c k)

  -- The cache as a value of the trait.
  abbrev pub fifo : Cache K V
  fifo = record {
    State = FifoInner K V;
    IsValid = IsValid;
    peek = get;
    new = new;
    new_returns = new_returns;
    get = λ c k. some (c, get c k);
    put = put;
    invalidate = λ c k. some (invalidate c k);
    get_returns = λ c k valid. (c, refl, valid, λ j. refl);
    put_returns = put_returns;
    invalidate_returns = invalidate_returns;
  }

  -- On a valid cache that is full, a put of a new key returns, the key at the front of the queue
  -- leaves, the new key has the value and stands at the back of the queue, and every other key
  -- keeps its value.
  pub put_evicts_oldest :
      (c : FifoInner K V) (k o : K) (q : List K) (v : V)
      → IsValid c
      → Map.contains_key k c.map ≡ false
      → length c.map ≡ c.capacity
      → c.queue ≡ o ∷ q
      → (c' : FifoInner K V) × (put c k v ≡ some c')
        × (c'.queue ≡ q ++ k ∷ [])
        × ((j : K)
            → Map.get j c'.map
              ≡ (if k == j then some v else if o == j then none else Map.get j c.map))
  unfolding put evict_front append
  put_evicts_oldest c k o q v valid new_key full front =
      let ends = evict_loop_full c o q valid.consistent full front in
      (
        append k v (evict_front c (o ∷ q)),
        rw (new_key, ends),
        refl,
        λ j. rw (Map.get-insert, Map.get-remove),
      )
