-- ===== src/Cache/Lru/Strategy.antt =====
-- `LruCache` of src/cache.rs as a value of the trait `Cache`.
use kind.Prelude.{
  ℕ, ◌<◌, ◌≡◌, refl, sym, ap, ◌∙◌, Eq, ◌==◌, false, List, [], ◌∷◌, Option, none, some, arith,
  if◌then◌else◌, inl, inr, Option-cases, Bool-cases, nat_eq,
}
use kind.Prelude.Map
use kind.Cache.{Cache, Kept}
use kind.Cache.Lru.{LruInner, new, get, put, invalidate}
use kind.Cache.Lru.Links.{slot, value_of}
use kind.Cache.Lru.Entries.{drop_last}
use kind.Cache.Lru.Recency.{touch, shrink, store, Represents}
use kind.Cache.Lru.Refines.{get-entries_absent, get-entries_found}
use kind.Cache.Lru.Contract.{new_refines, get_refines, put_refines, invalidate_refines}

module _ {K V : Type 0} ⦃e : Eq K⦄ where
  pub get-touch : (k j : K) (es : List (K × V)) → Map.get j (touch k es) ≡ Map.get j es
  unfolding touch Map.get
  get-touch k j es = ground (arith, Map.get-remove k j es, e.beq_iff k j)

  get-drop_last : (j : K) (es : List (K × V)) → Kept (Map.get j (drop_last es)) (Map.get j es)
  unfolding drop_last Map.get
  get-drop_last j [] = inl refl
  get-drop_last j ((k, v) ∷ []) = inl refl
  get-drop_last j ((k, v) ∷ (k', v') ∷ es) = elim (Bool-cases (k == j)) [
    | inl same ↦ inr (ground arith)
    | inr other ↦ ground (arith, get-drop_last j ((k', v') ∷ es))
  ]

  pub get-store_self :
      (capacity : ℕ) (k : K) (v : V) (es : List (K × V))
      → Map.get k (store capacity k v es) ≡ some v
  unfolding store Map.get
  get-store_self capacity k v es = ground (arith, e.beq_iff k k)

  get-store :
      (capacity : ℕ) (k j : K) (v : V) (es : List (K × V))
      → (k == j) ≡ false
      → Kept (Map.get j (store capacity k v es)) (Map.get j es)
  unfolding store shrink Map.get
  get-store capacity k j v es ne = ground (arith, Map.get-remove k j es, get-drop_last j es)

  -- What a get would return, with no entry moved.
  unfoldable pub peek : LruInner K V → K → Option V
  peek c k = elim (Map.get k c.map) [ none ↦ none | some i ↦ value_of (slot c i) ]

  peek-Represents :
      (c : LruInner K V) (es : List (K × V)) (k : K) → Represents c es → peek c k ≡ Map.get k es
  unfolding peek
  peek-Represents c es k rep = elim (Option-cases (Map.get k c.map)) [
    | inl absent ↦ ground (arith, get-entries_absent c rep.order rep.consistent k absent, rep.shown)
    | inr (i, found) ↦
        ground (arith, get-entries_found c rep.order rep.consistent k i found, rep.shown)
  ]

  abbrev pub IsValid : LruInner K V → Type 0
  IsValid c = (es : List (K × V)) × Represents c es

  pub lru_new_returns :
      (n : ℕ)
      → 0 < n
      → (c : LruInner K V) × (new n ≡ some c) × IsValid c × ((j : K) → peek c j ≡ none)
  unfolding Map.get
  lru_new_returns n positive =
      let (c, made, rep, _) = new_refines n positive in
      (c, made, ([], rep), λ j. peek-Represents c [] j rep)

  pub lru_get_returns :
      (c : LruInner K V) (k : K)
      → IsValid c
      → (c' : LruInner K V) × (get c k ≡ some (c', peek c k))
        × IsValid c'
        × ((j : K) → peek c' j ≡ peek c j)
  lru_get_returns c k (es, rep) =
      let (r, returns, rep', _) = get_refines c es k rep in
      (
        r,
        returns ∙ ap (λ o. some (r, o)) (sym (peek-Represents c es k rep)),
        (touch k es, rep'),
        λ j.
            peek-Represents r (touch k es) j rep'
            ∙ get-touch k j es
            ∙ sym (peek-Represents c es j rep),
      )

  pub lru_put_returns :
      (c : LruInner K V) (k : K) (v : V)
      → IsValid c
      → (c' : LruInner K V) × (put c k v ≡ some c')
        × IsValid c'
        × (peek c' k ≡ some v)
        × ((j : K) → (k == j) ≡ false → Kept (peek c' j) (peek c j))
  lru_put_returns c k v (es, rep) =
      let (r, returns, rep', _) = put_refines c es k v rep in
      let es' = store c.capacity k v es in
      (
        r,
        returns,
        (es', rep'),
        peek-Represents r es' k rep' ∙ get-store_self c.capacity k v es,
        λ j ne. ground (
          arith,
          get-store c.capacity k j v es ne,
          peek-Represents r es' j rep',
          peek-Represents c es j rep,
        ),
      )

  pub lru_invalidate_returns :
      (c : LruInner K V) (k : K)
      → IsValid c
      → (c' : LruInner K V) × (invalidate c k ≡ some c')
        × IsValid c'
        × ((j : K) → peek c' j ≡ (if k == j then none else peek c j))
  lru_invalidate_returns c k (es, rep) =
      let (r, returns, rep', _) = invalidate_refines c es k rep in
      (
        r,
        returns,
        (Map.remove k es, rep'),
        λ j. ground (
          arith,
          peek-Represents r (Map.remove k es) j rep',
          Map.get-remove k j es,
          peek-Represents c es j rep,
        ),
      )

  -- The cache as a value of the trait.
  abbrev pub lru : Cache K V
  lru = record {
    State = LruInner K V;
    IsValid = IsValid;
    peek = peek;
    new = new;
    new_returns = lru_new_returns;
    get = get;
    put = put;
    invalidate = invalidate;
    get_returns = lru_get_returns;
    put_returns = lru_put_returns;
    invalidate_returns = lru_invalidate_returns;
  }
