-- ===== src/Tests/Caches.antt =====
-- The three caches, as src/cache.rs tests them.
use kind.Prelude.{
  ℕ, ◌≡◌, refl, ◌==◌, nat_eq, [], ◌∷◌, none, some, arith, if◌then◌else◌, contains, without,
}
use kind.Prelude.Map
use kind.Prelude.Optional.{◌>>=◌}
use kind.Prelude.{Option, ℕ}
use kind.Cache.Lru
use kind.Cache.Lru.{LruInner}
use kind.Cache.Fifo.{FifoInner, new, get, put, invalidate, evict_front, evict_loop, append}
use kind.Cache.Fifo.Invariant.{IsValid, new-IsValid}
use kind.Cache.Fifo.Evict.{HasRoom, evict_loop-HasRoom}
use kind.Cache.Fifo.Contract.{put_evicts_oldest}

unfoldable fifo_program : Unit {0}
unfolding Map.get Map.insert Map.remove contains without new get put invalidate evict_front
    evict_loop append
fifo_program = tt

abbrev empty : FifoInner ℕ ℕ
empty = record { capacity = 2; map = []; queue = [] }

abbrev full : FifoInner ℕ ℕ
full = record { capacity = 2; map = (1, 10) ∷ (2, 20) ∷ []; queue = 1 ∷ 2 ∷ [] }

abbrev one : FifoInner ℕ ℕ
one = record { capacity = 2; map = (1, 10) ∷ []; queue = 1 ∷ [] }

empty_made : IsValid empty × (empty.map ≡ []) × (empty.capacity ≡ 2)
unfolding fifo_program
empty_made = new-IsValid 2 {c = empty} refl

full-IsValid : IsValid full
unfolding fifo_program
full-IsValid = record {
  consistent = record {
    positive = omega arith;
    is_map = (refl, (refl, tt));
    distinct = (refl, (refl, tt));
    same_keys = λ k. ground arith;
    same_length = refl;
  };
  bounded = omega arith;
}

evict_loop-HasRoom_example : (c : FifoInner ℕ ℕ) × (evict_loop 3 full ≡ some c) × HasRoom full c
evict_loop-HasRoom_example = evict_loop-HasRoom 3 full full-IsValid.consistent (omega arith)

put_evicts_oldest_example :
    (c : FifoInner ℕ ℕ) × (put full 3 30 ≡ some c)
    × (c.queue ≡ 2 ∷ 3 ∷ [])
    × ((j : ℕ)
        → Map.get j c.map
          ≡ (if 3 == j then some 30 else if 1 == j then none else Map.get j full.map))
unfolding fifo_program
put_evicts_oldest_example = put_evicts_oldest full 3 1 (2 ∷ []) 30 full-IsValid refl refl refl

-- `test_fifo_cache`: a read does not save the first key.
fifo_eviction :
    (put full 3 30 ≡ some (record full { map = (2, 20) ∷ (3, 30) ∷ []; queue = 2 ∷ 3 ∷ [] }))
    × (get full 1 ≡ some 10)
unfolding fifo_program
fifo_eviction = (refl, refl)

unfoldable lru_program : Unit {0}
unfolding Map.get Map.insert Map.remove Lru.new Lru.update_node Lru.relink_prev Lru.relink_next
    Lru.remove_node Lru.link_old_head Lru.attach_front Lru.move_to_front Lru.allocate Lru.get
    Lru.evict_tail Lru.make_room Lru.put Lru.invalidate
lru_program = tt

abbrev lru_full : Option (LruInner ℕ ℕ)
lru_full = do empty_lru ← Lru.new 2; one_in ← Lru.put empty_lru 1 10; Lru.put one_in 2 20

abbrev lru_values : Option (LruInner ℕ ℕ) → Option (Option ℕ × Option ℕ × Option ℕ)
lru_values cache = do
  c ← cache
  (c2, second) ← Lru.get c 2
  (c3, third) ← Lru.get c2 3
  (c1, first) ← Lru.get c3 1
  some (first, second, third)

-- `test_lru_cache`: a read saves the first key, so that the second is evicted.
lru_eviction :
    lru_values (do c ← lru_full; (read, _) ← Lru.get c 1; Lru.put read 3 30)
    ≡ some (some 10, none, some 30)
unfolding lru_program
lru_eviction = refl

-- A node that an invalidation frees is used again.
lru_reuse :
    lru_values (do c ← lru_full; freed ← Lru.invalidate c 1; Lru.put freed 3 30)
    ≡ some (none, some 20, some 30)
unfolding lru_program
lru_reuse = refl
