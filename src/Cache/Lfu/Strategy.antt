-- ===== src/Cache/Lfu/Strategy.antt =====
-- `LfuCache` of src/cache.rs as a value of the trait `Cache`, and what a read counts.
use kind.Prelude.{
  ℕ, ◌+◌, ◌%◌, ◌^◌, ◌<◌, ◌≡◌, refl, ap, Eq, ◌==◌, ==_refl, false, [], Option, none, some, arith,
  if◌then◌else◌, contains, inl, inr, Option-cases, lt→ltb,
}
use mathlib.Core.Option
use kind.Prelude.Map
use kind.Cache.{Cache, Kept}
use kind.Cache.Lfu.{HashOrder, LfuInner, new, increment_freq, get, put, invalidate}
use kind.Cache.Lfu.Invariant.{
  IsValid, increment_freq-get, increment_freq-length, increment_freq-IsConsistent, invalidate-get,
  invalidate-IsConsistent, invalidate-length,
}
use kind.Cache.Lfu.Contract.{put-IsPut, invalidate_capacity, increment_capacity}

module _ {V : Type 0} where
  -- An entry that is read: its frequency grows by one, modulo 2 ^ 64.
  abbrev pub counted : Option (V × ℕ) → Option (V × ℕ)
  counted none = none
  counted (some (x, f)) = some (x, (f + 1) % 2 ^ 64)

  abbrev pub value_in : Option (V × ℕ) → Option V
  value_in entry = Option.map (λ e. e.0) entry

module _ {K V : Type 0} ⦃e : Eq K⦄ where
  -- What a get would return.
  unfoldable pub peek : LfuInner K V → K → Option V
  peek c k = value_in (Map.get k c.map)

  -- A get on a valid LFU cache returns the value of the key and leaves a valid cache, in which the
  -- frequency of the key, if it is there, has grown by one, modulo 2 ^ 64, and nothing else is
  -- changed.
  pub get_counts :
      (c : LfuInner K V) (k : K)
      → IsValid c
      → (c' : LfuInner K V) × (get c k ≡ (c', value_in (Map.get k c.map)))
        × IsValid c'
        × ((j : K)
            → Map.get j c'.map ≡ (if k == j then counted (Map.get j c.map) else Map.get j c.map))
  unfolding get
  get_counts c k valid = elim (Option-cases (Map.get k c.map)) [
    | inl absent ↦ (c, ground arith, valid, λ j. ground (arith, e.beq_iff k j))
    | inr ((x, f), found) ↦
        let moved = increment_freq-get c valid.consistent k f x found in
        (
          increment_freq k f c,
          ground (arith, moved k, ==_refl k),
          record {
            consistent = increment_freq-IsConsistent c valid.consistent k f x found;
            bounded = ground (
              arith,
              increment_freq-length c valid.consistent k f x found,
              increment_capacity k f c,
              valid.bounded,
            );
          },
          λ j. ground (arith, moved j, e.beq_iff k j),
        )
  ]

  abbrev pub empty : ℕ → LfuInner K V
  empty n = record { capacity = n; map = []; freqs = [] }

  pub empty-IsValid : (n : ℕ) → 0 < n → IsValid (empty n)
  unfolding Map.get contains
  empty-IsValid n positive = record {
    consistent = record {
      positive = positive;
      is_map = tt;
      listed = λ f k. refl;
      filled = λ f h. absurd (ground arith);
      ascending = tt;
    };
    bounded = omega arith;
  }

  pub lfu_new_returns :
      (n : ℕ)
      → 0 < n
      → (c : LfuInner K V) × (new n ≡ some c) × IsValid c × ((j : K) → peek c j ≡ none)
  unfolding new peek Map.get
  lfu_new_returns n positive =
      (empty n, rw (lt→ltb 0 n positive), empty-IsValid n positive, λ j. refl)

  pub lfu_get_returns :
      (c : LfuInner K V) (k : K)
      → IsValid c
      → (c' : LfuInner K V) × (some (get c k) ≡ some (c', peek c k))
        × IsValid c'
        × ((j : K) → peek c' j ≡ peek c j)
  unfolding peek
  lfu_get_returns c k valid =
      let (c', returns, valid', get') = get_counts c k valid in
      (c', ap some returns, valid', λ j. ground (arith, get' j))

  pub lfu_put_returns :
      (order : HashOrder K) (c : LfuInner K V) (k : K) (x : V)
      → IsValid c
      → (c' : LfuInner K V) × (put order c k x ≡ some c')
        × IsValid c'
        × (peek c' k ≡ some x)
        × ((j : K) → (k == j) ≡ false → Kept (peek c' j) (peek c j))
  unfolding peek
  lfu_put_returns order c k x valid =
      let (c', returns, p) = put-IsPut order c k x valid in
      (
        c',
        returns,
        p.valid,
        ap value_in p.self,
        λ j ne. elim (p.others j ne) [
          | inl gone ↦ inl (ap value_in gone)
          | inr same ↦ inr (ap value_in same)
        ],
      )

  pub lfu_invalidate_returns :
      (c : LfuInner K V) (k : K)
      → IsValid c
      → (c' : LfuInner K V) × (some (invalidate c k) ≡ some c')
        × IsValid c'
        × ((j : K) → peek c' j ≡ (if k == j then none else peek c j))
  unfolding peek
  lfu_invalidate_returns c k valid = (
    invalidate c k,
    refl,
    record {
      consistent = invalidate-IsConsistent c k valid.consistent;
      bounded =
          ground
            (arith, invalidate-length c k valid.consistent, invalidate_capacity c k, valid.bounded);
    },
    λ j. ground (arith, invalidate-get c k j),
  )

  -- The cache as a value of the trait.
  abbrev pub lfu : HashOrder K → Cache K V
  lfu order = record {
    State = LfuInner K V;
    IsValid = IsValid;
    peek = peek;
    new = new;
    new_returns = lfu_new_returns;
    get = λ c k. some (get c k);
    put = put order;
    invalidate = λ c k. some (invalidate c k);
    get_returns = lfu_get_returns;
    put_returns = lfu_put_returns order;
    invalidate_returns = lfu_invalidate_returns;
  }
