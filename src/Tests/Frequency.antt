-- ===== src/Tests/Frequency.antt =====
-- The least-frequently-used cache, as src/cache.rs tests it.
use kind.Prelude.{
  ℕ, nat_eq, ◌≡◌, ◌==◌, refl, true, List, ◌∷◌, Option, none, some, arith, if◌then◌else◌, contains,
  without,
}
use kind.Prelude.Map
use kind.Prelude.Optional.{◌>>=◌}
use kind.Cache.Lfu
use kind.Cache.Lfu.{LfuInner, HashOrder}
use kind.Cache.Lfu.Invariant.{IsConsistent, IsValid, enter, enter-IsConsistent}
use kind.Cache.Lfu.Contract.{IsLeast, put_evicts-IsLeast}
use kind.Cache.Lfu.Strategy.{empty, empty-IsValid, get_counts, counted}

unfoldable lfu_program : Unit {0}
unfolding Map.get Map.insert Map.remove contains without Lfu.new Lfu.insert_sorted Lfu.drop_key
    Lfu.enter_key Lfu.set_freq Lfu.increment_freq Lfu.get Lfu.invalidate Lfu.evict Lfu.make_room
    Lfu.put
lfu_program = tt

first_mem : (k : ℕ) (ks : List ℕ) → contains (k ∷ ks) k ≡ true
unfolding contains
first_mem k ks = ground arith

abbrev first : HashOrder ℕ
first = record { pick = λ k ks. k; pick_mem = first_mem }

abbrev lfu_run : Option (Option ℕ × Option ℕ × Option ℕ)
lfu_run = do
  c0 ← Lfu.new {K = ℕ} {V = ℕ} 2
  c1 ← Lfu.put first c0 1 10
  c2 ← Lfu.put first c1 2 20
  c3 ← Lfu.put first (Lfu.get c2 1).0 3 30
  some ((Lfu.get c3 1).1, (Lfu.get c3 2).1, (Lfu.get c3 3).1)

-- `test_lfu_cache`: the key that was read less often is evicted.
lfu_eviction : lfu_run ≡ some (some 10, none, some 30)
unfolding lfu_program
lfu_eviction = refl

abbrev one_in : LfuInner ℕ ℕ
one_in = enter 1 10 (empty 2)

abbrev full : LfuInner ℕ ℕ
full = enter 2 20 one_in

one-IsConsistent : IsConsistent one_in
unfolding lfu_program
one-IsConsistent = enter-IsConsistent (empty 2) 1 10 (empty-IsValid 2 (omega arith)).consistent refl

full-IsValid : IsValid full
unfolding lfu_program
full-IsValid = record {
  consistent = enter-IsConsistent one_in 2 20 one-IsConsistent refl;
  bounded = omega arith;
}

get_counts_example :
    (c : LfuInner ℕ ℕ) × (Lfu.get full 1 ≡ (c, some 10))
    × IsValid c
    × ((j : ℕ)
        → Map.get j c.map ≡ (if 1 == j then counted (Map.get j full.map) else Map.get j full.map))
unfolding lfu_program
get_counts_example = get_counts full 1 full-IsValid

put_evicts-IsLeast_example :
    (c : LfuInner ℕ ℕ) × (o : ℕ) × (w : ℕ) × (f : ℕ) × IsLeast full o w f
    × (Lfu.put first full 3 30 ≡ some c)
    × IsValid c
    × ((j : ℕ)
        → Map.get j c.map
          ≡ (if 3 == j then some (30, 1) else if o == j then none else Map.get j full.map))
unfolding lfu_program
put_evicts-IsLeast_example = put_evicts-IsLeast first full 3 30 full-IsValid refl refl
