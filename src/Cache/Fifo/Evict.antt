-- ===== src/Cache/Fifo/Evict.antt =====
-- The eviction loop of `FifoCache::put`, src/cache.rs.
use kind.Prelude.{
  List-cases, ℕ, zero, suc, ◌+◌, ◌-◌, true, false, ◌<◌, ◌≡◌, inl, inr, refl, ap, ◌∙◌, Eq, ◌==◌,
  Bool-cases, List, ◌∷◌, some, arith, leb, leb→le, leb-false→lt, length,
}
use kind.Prelude.Map
use kind.Cache.{Kept, Kept-trans, Kept-if}
use kind.Cache.Fifo.{FifoInner, evict_front, evict_loop}
use kind.Cache.Fifo.Invariant.{IsConsistent, evict_front-IsConsistent}

-- What the loop leaves: room for one entry, and some of the entries as they were.
pub record HasRoom {K V : Type 0} ⦃e : Eq K⦄ (c c' : FifoInner K V) : Type 0 where
  pub consistent : IsConsistent c'
  pub room : length c'.map < c'.capacity
  pub capacity : c'.capacity ≡ c.capacity
  pub kept : (j : K) → Kept (Map.get j c'.map) (Map.get j c.map)

module _ {K V : Type 0} ⦃e : Eq K⦄ where
  evict_front-Kept :
      (c : FifoInner K V) (k : K) (q : List K) (j : K)
      → Kept (Map.get j (evict_front c (k ∷ q)).map) (Map.get j c.map)
  unfolding evict_front
  evict_front-Kept c k q j = rw Map.get-remove (Kept-if (k == j) (Map.get j c.map))

  HasRoom-evict_front :
      (c c' : FifoInner K V) (k : K) (q : List K)
      → c.queue ≡ k ∷ q
      → IsConsistent c
      → HasRoom (evict_front c (k ∷ q)) c'
      → HasRoom c c'
  HasRoom-evict_front c c' k q h v r = record {
    consistent = r.consistent;
    room = r.room;
    capacity = r.capacity ∙ (evict_front-IsConsistent c k q h v).2;
    kept = λ j. Kept-trans _ _ _ (r.kept j) (evict_front-Kept c k q j);
  }

  -- On a consistent cache the eviction loop ends within one round more than there are entries. It
  -- leaves a consistent cache of the same capacity with room for one entry, in which every key has
  -- the value that it had or none.
  pub evict_loop-HasRoom :
      (fuel : ℕ) (c : FifoInner K V)
      → IsConsistent c
      → length c.map < fuel
      → (c' : FifoInner K V) × (evict_loop fuel c ≡ some c') × HasRoom c c'
  unfolding evict_loop
  evict_loop-HasRoom zero c v h = absurd (omega arith)
  evict_loop-HasRoom (suc fuel) c v h = elim (Bool-cases (leb c.capacity (length c.map))) [
    | inr done ↦ (
      c,
      rw done,
      record {
        consistent = v;
        room = leb-false→lt _ _ done;
        capacity = refl;
        kept = λ j. inr refl;
      },
    )
    | inl full ↦ elim (List-cases c.queue) [
      | inl empty ↦
          absurd (omega (arith, v.positive, leb→le _ _ full, v.same_length, ap length empty))
      | inr (k, q, front) ↦
          let step = evict_front-IsConsistent c k q front v in
          let (c', ends, room) =
            evict_loop-HasRoom fuel (evict_front c (k ∷ q)) step.0 (omega arith) in
          (
            c',
            rw full (ap (λ l. evict_loop fuel (evict_front c l)) front ∙ ends),
            HasRoom-evict_front c c' k q front v room,
          )
    ]
  ]

  -- The loop on a full cache: one round.
  pub evict_loop_full :
      (c : FifoInner K V) (o : K) (q : List K)
      → IsConsistent c
      → length c.map ≡ c.capacity
      → c.queue ≡ o ∷ q
      → evict_loop (length c.map + 1) c ≡ some (evict_front c (o ∷ q))
  unfolding evict_loop
  evict_loop_full c o q v full front =
      let step = evict_front-IsConsistent c o q front v in
      let n = length c.map - 1 in
      let e : length c.map + 1 ≡ suc (suc n) = omega (arith, v.positive, full) in
      let again : leb c.capacity (length c.map) ≡ true = ground (arith, full) in
      let done : leb c.capacity (length (evict_front c (o ∷ q)).map) ≡ false =
        ground (arith, full, step.1) in
      ap (λ m. evict_loop m c) e ∙ rw (again, front) (ground (arith, done, step.2))
