-- ===== src/Cache/Fifo/Invariant.antt =====
-- What holds of a first-in first-out cache between calls.
use kind.Prelude.{
  ℕ, ◌+◌, ◌≤◌, ◌<◌, ◌∙◌, inl, inr, true, subst, ap, Bool-cases, false, contains-append,
  length-append, IsDistinct-snoc, Eq, List, [], ◌∷◌, some, ◌≡◌, refl, arith, length, contains,
  IsDistinct, contains-without, IsDistinct-without, length-without,
}
use kind.Prelude.Map
use kind.Cache.Fifo.{FifoInner, new, evict_front, append, invalidate}

-- The queue holds exactly the keys of the map, each once.
pub record IsConsistent {K V : Type 0} ⦃e : Eq K⦄ (c : FifoInner K V) : Type 0 where
  pub positive : 0 < c.capacity
  pub is_map : Map.IsMap c.map
  pub distinct : IsDistinct c.queue
  pub same_keys : (k : K) → contains c.queue k ≡ Map.contains_key k c.map
  pub same_length : length c.queue ≡ length c.map

pub record IsValid {K V : Type 0} ⦃e : Eq K⦄ (c : FifoInner K V) : Type 0 where
  pub consistent : IsConsistent c
  pub bounded : length c.map ≤ c.capacity

module _ {K V : Type 0} ⦃e : Eq K⦄ where
  -- The constructor returns an empty, valid cache exactly when the capacity is positive.
  pub new-IsValid :
      (n : ℕ) {c : FifoInner K V} → new n ≡ some c → IsValid c × (c.map ≡ []) × (c.capacity ≡ n)
  unfolding new contains Map.get
  new-IsValid n {c} h = ground arith

  -- The loop's body, where the queue has a front: one entry goes, and the rest stays consistent.
  pub evict_front-IsConsistent :
      (c : FifoInner K V) (k : K) (q : List K)
      → c.queue ≡ k ∷ q
      → IsConsistent c
      → IsConsistent (evict_front c (k ∷ q))
        × (length c.map ≡ length (evict_front c (k ∷ q)).map + 1)
        × ((evict_front c (k ∷ q)).capacity ≡ c.capacity)
  unfolding evict_front contains
  evict_front-IsConsistent c k q h v =
      let d : IsDistinct (k ∷ q) = subst IsDistinct h v.distinct in
      let there : Map.contains_key k c.map ≡ true =
        ground (arith, v.same_keys k, e.beq_iff k k, h) in
      (
        record {
          positive = v.positive;
          is_map = Map.IsMap-remove k c.map v.is_map;
          distinct = d.1;
          same_keys =
              λ j. ground (arith, Map.get-remove k j c.map, v.same_keys j, e.beq_iff k j, h, d.0);
          same_length =
              ground (arith, Map.length-remove k c.map v.is_map, v.same_length, ap length h, there);
        },
        ground (arith, Map.length-remove k c.map v.is_map, there),
        refl,
      )

  pub append-IsConsistent :
      (c : FifoInner K V) (k : K) (x : V)
      → Map.contains_key k c.map ≡ false
      → IsConsistent c
      → IsConsistent (append k x c)
  unfolding append contains
  append-IsConsistent c k x new_key v = record {
    positive = v.positive;
    is_map = Map.IsMap-insert k x c.map v.is_map;
    distinct = IsDistinct-snoc c.queue k v.distinct (v.same_keys k ∙ new_key);
    same_keys = λ j.
        ground
          (arith, contains-append c.queue (k ∷ []) j, Map.get-insert k j x c.map, v.same_keys j);
    same_length =
        ground (arith, length-append c.queue (k ∷ []), Map.length-insert k x c.map, v.same_length);
  }

  pub invalidate-IsConsistent :
      (c : FifoInner K V) (k : K) → IsConsistent c → IsConsistent (invalidate c k)
  unfolding invalidate
  invalidate-IsConsistent c k v = elim (Bool-cases (Map.contains_key k c.map)) [
    | inl there ↦
        rw (invalidate, there)
          (record {
            positive = v.positive;
            is_map = Map.IsMap-remove k c.map v.is_map;
            distinct = IsDistinct-without k c.queue v.distinct;
            same_keys = λ j.
                ground
                  (arith, contains-without k j c.queue, Map.get-remove k j c.map, v.same_keys j);
            same_length = ground (
              arith,
              length-without k c.queue v.distinct,
              Map.length-remove k c.map v.is_map,
              v.same_keys k,
            );
          })
    | inr absent ↦ rw (invalidate, absent) v
  ]
