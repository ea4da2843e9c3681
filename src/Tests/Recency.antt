-- ===== src/Tests/Recency.antt =====
-- Runs of the least-recently-used cache, as src/cache.rs tests it.
use kind.Prelude.{ℕ, nat_eq, ◌≡◌, ◌≤◌, ◌+◌, refl, List, [], ◌∷◌, Option, none, some, arith, length}
use kind.Prelude.Map
use kind.Cache.Lru
use kind.Cache.Lru.{LruInner}
use kind.Cache.Lru.Contract.{empty, empty-Represents}
use kind.Cache.Lru.Entries.{drop_last}
use kind.Cache.Lru.Recency.{touch, shrink, store, Represents}
use kind.Cache.Lru.Runs.{
  Call, get, put, invalidate, run, entries_after, replies_after, run_refines, run_bounded,
}
use kind.Cache.Lru.Survival.{put_survives_calls}

unfoldable recency_program : Unit {0}
unfolding Map.get Map.remove touch shrink store drop_last entries_after replies_after
recency_program = tt

-- `test_lru_cache`, and an invalidation.
abbrev calls : List (Call ℕ ℕ)
calls =
    put 1 10
    ∷ put 2 20
    ∷ get 1
    ∷ put 3 30
    ∷ get 2
    ∷ get 3
    ∷ get 1
    ∷ invalidate 3
    ∷ put 4 40
    ∷ get 3
    ∷ []

run_refines_example :
    (c : LruInner ℕ ℕ) × (r : LruInner ℕ ℕ) × (Lru.new 2 ≡ some c)
    × (run calls c ≡ some (r, some 10 ∷ none ∷ some 30 ∷ some 10 ∷ none ∷ []))
    × Represents r ((4, 40) ∷ (1, 10) ∷ [])
unfolding recency_program
run_refines_example = run_refines 2 calls (omega arith)

run_bounded_example :
    (c : LruInner ℕ ℕ) × (r : LruInner ℕ ℕ) × (replies : List (Option ℕ)) × (Lru.new 2 ≡ some c)
    × (run calls c ≡ some (r, replies))
    × (length r.map ≤ 2)
    × (length r.nodes ≤ 2)
    × (length r.nodes ≡ length r.map + length r.free_list)
run_bounded_example = run_bounded 2 calls (omega arith)

put_survives_calls_example :
    (r : LruInner ℕ ℕ) × (r' : LruInner ℕ ℕ) × (replies : List (Option ℕ)) × (run
        (put 1 10 ∷ put 2 20 ∷ get 3 ∷ [])
        (empty 3)
      ≡ some (r, replies))
    × (Lru.get r 1 ≡ some (r', some 10))
put_survives_calls_example =
    put_survives_calls (empty 3) [] 1 10 (put 2 20 ∷ get 3 ∷ []) (empty-Represents 3 (omega arith))
      (refl, tt) (omega arith)
