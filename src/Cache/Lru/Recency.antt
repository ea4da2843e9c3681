-- ===== src/Cache/Lru/Recency.antt =====
-- What the least-recently-used cache of src/cache.rs promises: a list of entries, most recent
-- first, of bounded length.
use kind.Prelude.{ℕ, ◌≡◌, Eq, List, ◌∷◌, none, some, leb, length, if◌then◌else◌}
use kind.Prelude.Map
use kind.Cache.Lru.{LruInner}
use kind.Cache.Lru.Invariant.{IsConsistent}
use kind.Cache.Lru.Entries.{entries, drop_last}

module _ {K V : Type 0} ⦃e : Eq K⦄ where
  -- A read makes its entry the most recent.
  unfoldable pub touch : K → List (K × V) → List (K × V)
  touch k es = elim (Map.get k es) [ none ↦ es | some v ↦ (k, v) ∷ Map.remove k es ]

  -- A new entry, in a full list, drives the least recent one out.
  unfoldable pub shrink : ℕ → List (K × V) → List (K × V)
  shrink capacity es = if leb capacity (length es) then drop_last es else es

  unfoldable pub store : ℕ → K → V → List (K × V) → List (K × V)
  store capacity k v es =
      if Map.contains_key k es then (k, v) ∷ Map.remove k es else (k, v) ∷ shrink capacity es

-- The cache holds the entries `es`, in this order.
pub record Represents {K V : Type 0} ⦃e : Eq K⦄ (c : LruInner K V) (es : List (K × V))
    : Type 0 where
  pub order : List ℕ
  pub consistent : IsConsistent c order
  pub shown : entries c order ≡ es
