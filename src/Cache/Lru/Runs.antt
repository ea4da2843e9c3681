-- ===== src/Cache/Lru/Runs.antt =====
-- Sequences of calls on `LruCache` of src/cache.rs.
use kind.Prelude.{
  ℕ, subst, ◌+◌, ◌<◌, ◌≤◌, ◌≡◌, refl, ◌∙◌, Eq, List, [], ◌∷◌, Option, some, arith, length,
}
use kind.Prelude.Map
use kind.Prelude.Optional.{◌>>=◌}
use kind.Cache.Lru
use kind.Cache.Lru.{LruInner}
use kind.Cache.Lru.Recency.{touch, store, Represents}
use kind.Cache.Lru.Contract.{new_refines, get_refines, put_refines, invalidate_refines}

pub data Call (K V : Type 0) : Type 0 where
  get : K → Call K V
  put : K → V → Call K V
  invalidate : K → Call K V

module _ {K V : Type 0} ⦃e : Eq K⦄ where
  -- The calls in turn, with the replies of the gets.
  unfoldable pub run : List (Call K V) → LruInner K V → Option (LruInner K V × List (Option V))
  run [] c = some (c, [])
  run (get k ∷ calls) c = do
    (c', reply) ← Lru.get c k
    (r, replies) ← run calls c'
    some (r, reply ∷ replies)
  run (put k v ∷ calls) c = do c' ← Lru.put c k v; run calls c'
  run (invalidate k ∷ calls) c = do c' ← Lru.invalidate c k; run calls c'

  -- The same calls on the list of entries.
  unfoldable pub entries_after : ℕ → List (Call K V) → List (K × V) → List (K × V)
  entries_after n [] es = es
  entries_after n (get k ∷ calls) es = entries_after n calls (touch k es)
  entries_after n (put k v ∷ calls) es = entries_after n calls (store n k v es)
  entries_after n (invalidate k ∷ calls) es = entries_after n calls (Map.remove k es)

  unfoldable pub replies_after : ℕ → List (Call K V) → List (K × V) → List (Option V)
  replies_after n [] es = []
  replies_after n (get k ∷ calls) es = Map.get k es ∷ replies_after n calls (touch k es)
  replies_after n (put k v ∷ calls) es = replies_after n calls (store n k v es)
  replies_after n (invalidate k ∷ calls) es = replies_after n calls (Map.remove k es)

  pub run-Represents :
      (n : ℕ) (calls : List (Call K V)) (c : LruInner K V) (es : List (K × V))
      → Represents c es
      → c.capacity ≡ n
      → (r : LruInner K V) × (run calls c ≡ some (r, replies_after n calls es))
        × Represents r (entries_after n calls es)
        × (r.capacity ≡ n)
  unfolding run entries_after replies_after
  run-Represents n [] c es rep cap = (c, refl, rep, cap)
  run-Represents n (get k ∷ calls) c es rep cap =
      let (c', step, rep', cap') = get_refines c es k rep in
      let (r, rest, rep'', cap'') = run-Represents n calls c' (touch k es) rep' (cap' ∙ cap) in
      (r, ground (arith, step, rest), rep'', cap'')
  run-Represents n (put k v ∷ calls) c es rep cap =
      let (c', step, rep', cap') = put_refines c es k v rep in
      let rep_n = subst (λ m. Represents c' (store m k v es)) cap rep' in
      let (r, rest, rep'', cap'') = run-Represents n calls c' (store n k v es) rep_n (cap' ∙ cap) in
      (r, ground (arith, step, rest), rep'', cap'')
  run-Represents n (invalidate k ∷ calls) c es rep cap =
      let (c', step, rep', cap') = invalidate_refines c es k rep in
      let (r, rest, rep'', cap'') = run-Represents n calls c' (Map.remove k es) rep' (cap' ∙ cap) in
      (r, ground (arith, step, rest), rep'', cap'')

  -- Whatever sequence of gets, puts and invalidations is made on a new LRU cache of positive
  -- capacity, every call returns. The gets are answered as by a list of entries in which a get or
  -- a put brings its entry to the front, a put of a new key into a full list drops the last entry,
  -- and an invalidation removes one. The cache then holds that list, with its links, its free
  -- slots and its map in order.
  pub run_refines :
      (n : ℕ) (calls : List (Call K V))
      → 0 < n
      → (c : LruInner K V) × (r : LruInner K V) × (Lru.new n ≡ some c)
        × (run calls c ≡ some (r, replies_after n calls []))
        × Represents r (entries_after n calls [])
  run_refines n calls positive =
      let (c, made, rep, cap) = new_refines n positive in
      let (r, runs, rep', _) = run-Represents n calls c [] rep cap in (c, r, made, runs, rep')

  -- Whatever sequence of calls is made on a new LRU cache of positive capacity, they return,
  -- neither the map nor the vector of nodes grows beyond the capacity, and every slot of the
  -- vector is either in use or in the free list.
  pub run_bounded :
      (n : ℕ) (calls : List (Call K V))
      → 0 < n
      → (c : LruInner K V) × (r : LruInner K V) × (replies : List (Option V)) × (Lru.new n ≡ some c)
        × (run calls c ≡ some (r, replies))
        × (length r.map ≤ n)
        × (length r.nodes ≤ n)
        × (length r.nodes ≡ length r.map + length r.free_list)
  run_bounded n calls positive =
      let (c, made, rep, cap) = new_refines n positive in
      let (r, runs, rep', cap') = run-Represents n calls c [] rep cap in
      let v = rep'.consistent in
      (
        c,
        r,
        replies_after n calls [],
        made,
        runs,
        ground (arith, v.bounded),
        ground (arith, v.small),
        ground (arith, v.slots, v.same_length),
      )
