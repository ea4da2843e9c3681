-- ===== src/Cache/Lru/Survival.antt =====
-- How long an entry stays in `LruCache` of src/cache.rs.
use kind.Prelude.{
  ℕ, suc, ◌+◌, ◌<◌, ◌≤◌, ◌≡◌, refl, ap, ◌∙◌, Eq, ◌==◌, false, List, [], ◌∷◌, Option, some, arith,
  if◌then◌else◌, length,
}
use kind.Prelude.Map
use kind.Cache.Lru
use kind.Cache.Lru.{LruInner}
use kind.Cache.Lru.Entries.{drop_last}
use kind.Cache.Lru.Recency.{touch, shrink, store, Represents}
use kind.Cache.Lru.Contract.{put_refines, get_refines}
use kind.Cache.Lru.Strategy.{get-touch, get-store_self}
use kind.Cache.Lru.Runs.{
  Call, get, put, invalidate, run, entries_after, replies_after, run-Represents,
}

module _ {K V : Type 0} ⦃e : Eq K⦄ where
  -- How many entries are more recent than that of `k`.
  unfoldable pub behind : K → List (K × V) → ℕ
  behind k [] = 0
  behind k ((j, v) ∷ es) = if j == k then 0 else suc (behind k es)

  -- The calls neither write nor invalidate `k`.
  abbrev pub LeavesAlone : K → List (Call K V) → Type 0
  LeavesAlone k [] = Unit
  LeavesAlone k (get j ∷ calls) = LeavesAlone k calls
  LeavesAlone k (put j v ∷ calls) = ((j == k) ≡ false) × LeavesAlone k calls
  LeavesAlone k (invalidate j ∷ calls) = ((j == k) ≡ false) × LeavesAlone k calls

  behind-remove :
      (j k : K) (es : List (K × V)) → (j == k) ≡ false → behind k (Map.remove j es) ≤ behind k es
  unfolding behind Map.remove
  behind-remove j k [] ne = omega arith
  behind-remove j k ((i, v) ∷ es) ne = ground (arith, behind-remove j k es ne, e.beq_iff i j)

  behind-touch : (j k : K) (es : List (K × V)) → behind k (touch j es) ≤ behind k es + 1
  unfolding behind touch
  behind-touch j k es = ground (arith, behind-remove j k es)

  -- An entry that is not the last one keeps its place when the last one leaves.
  drop_last-behind :
      (k : K) (es : List (K × V))
      → behind k es + 1 < length es
      → (Map.get k (drop_last es) ≡ Map.get k es) × (behind k (drop_last es) ≡ behind k es)
  unfolding behind drop_last Map.get
  drop_last-behind k [] h = absurd (omega arith)
  drop_last-behind k ((i, v) ∷ []) h = ground arith
  drop_last-behind k ((i, v) ∷ (j, w) ∷ es) h = ground (arith, drop_last-behind k ((j, w) ∷ es))

  shrink-behind :
      (n : ℕ) (k : K) (es : List (K × V))
      → behind k es + 1 < n
      → (Map.get k (shrink n es) ≡ Map.get k es) × (behind k (shrink n es) ≡ behind k es)
  unfolding shrink
  shrink-behind n k es h = ground (arith, drop_last-behind k es)

  store-behind :
      (n : ℕ) (j k : K) (w : V) (es : List (K × V))
      → (j == k) ≡ false
      → behind k es + 1 < n
      → (Map.get k (store n j w es) ≡ Map.get k es) × (behind k (store n j w es) ≤ behind k es + 1)
  unfolding store behind Map.get
  store-behind n j k w es ne h =
      ground (arith, shrink-behind n k es, behind-remove j k es ne, Map.get-remove j k es)

  behind-store_self : (n : ℕ) (k : K) (v : V) (es : List (K × V)) → behind k (store n k v es) ≡ 0
  unfolding store behind
  behind-store_self n k v es = ground (arith, e.beq_iff k k)

  entries_after-get :
      (n : ℕ) (k : K) (calls : List (Call K V)) (es : List (K × V))
      → LeavesAlone k calls
      → behind k es + length calls < n
      → Map.get k (entries_after n calls es) ≡ Map.get k es
  unfolding entries_after
  entries_after-get n k [] es alone h = refl
  entries_after-get n k (get j ∷ calls) es alone h =
      ground (
        arith,
        entries_after-get n k calls (touch j es) alone,
        behind-touch j k es,
        get-touch j k es,
      )
  entries_after-get n k (put j w ∷ calls) es alone h =
      ground (
        arith,
        entries_after-get n k calls (store n j w es) alone.1,
        store-behind n j k w es alone.0,
      )
  entries_after-get n k (invalidate j ∷ calls) es alone h = ground (
    arith,
    entries_after-get n k calls (Map.remove j es) alone.1,
    behind-remove j k es alone.0,
    Map.get-remove j k es,
  )

  -- After a put into a valid LRU cache, and fewer further calls than its capacity, none of which
  -- writes or invalidates the key, all calls return and a get of the key returns the value.
  pub put_survives_calls :
      (c : LruInner K V) (es : List (K × V)) (k : K) (v : V) (calls : List (Call K V))
      → Represents c es
      → LeavesAlone k calls
      → length calls < c.capacity
      → (r : LruInner K V) × (r' : LruInner K V) × (replies : List (Option V)) × (run
            (put k v ∷ calls)
            c
          ≡ some (r, replies))
        × (Lru.get r k ≡ some (r', some v))
  unfolding run
  put_survives_calls c es k v calls rep alone few =
      let n = c.capacity in
      let es' = store n k v es in
      let (a, step, rep', cap) = put_refines c es k v rep in
      let (r, rest, rep'', _) = run-Represents n calls a es' rep' cap in
      let (r', reads, _, _) = get_refines r (entries_after n calls es') k rep'' in
      let stays =
        entries_after-get n k calls es' alone (ground (arith, behind-store_self n k v es)) in
      (
        r,
        r',
        replies_after n calls es',
        ground (arith, step, rest),
        reads ∙ ap (λ o. some (r', o)) (stays ∙ get-store_self n k v es),
      )
