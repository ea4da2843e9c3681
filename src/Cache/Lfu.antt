-- ===== src/Cache/Lfu.antt =====
-- src/cache.rs, lines 152-242: the least-frequently-used cache. `freqs` is the ordered map of the
-- standard library, kept sorted by frequency; a `HashSet` is a list of distinct keys, of which
-- `pick` chooses the one that its iterator gives first.
pub mod Frequencies
pub mod Invariant
pub mod Contract
pub mod Strategy
use kind.Prelude.{
  ℕ, ◌+◌, ◌%◌, ◌^◌, Eq, nat_beq, nat_eq, ◌≡◌, true, List, [], ◌∷◌, Option, none, some, ltb, leb,
  length, is_empty, contains, without, if◌then◌else◌,
}
use mathlib.Core.Option
use kind.Prelude.Map
use kind.Prelude.Optional.{◌>>=◌}

-- The iterator of a non-empty set gives one of its members first; which one is not specified.
pub record HashOrder (K : Type 0) ⦃e : Eq K⦄ : Type 0 where
  pub pick : K → List K → K
  pub pick_mem : (k : K) (ks : List K) → contains (k ∷ ks) (pick k ks) ≡ true

pub record LfuInner (K V : Type 0) : Type 0 where
  pub capacity : ℕ
  pub map : List (K × (V × ℕ))
  pub freqs : List (ℕ × List K)

module _ {K V : Type 0} where
  unfoldable pub new : ℕ → Option (LfuInner K V)
  new capacity =
      if ltb 0 capacity then some (record { capacity = capacity; map = []; freqs = [] }) else none

-- The counter is a `usize`, 64 bits wide.
abbrev pub next_freq : ℕ → ℕ
next_freq freq = (freq + 1) % 2 ^ 64

-- `BTreeMap::insert`: in order of the keys, an old value replaced.
unfoldable pub insert_sorted {ℓ} : {A : Type ℓ} → ℕ → A → List (ℕ × A) → List (ℕ × A)
insert_sorted f s [] = (f, s) ∷ []
insert_sorted f s ((g, t) ∷ m) =
    if ltb f g
    then (f, s) ∷ (g, t) ∷ m
    else if nat_beq f g
    then (f, s) ∷ m
    else (g, t) ∷ insert_sorted f s m

module _ {K : Type 0} ⦃e : Eq K⦄ where
  -- `HashSet::insert`.
  abbrev pub add_key : K → List K → List K
  add_key key keys = if contains keys key then keys else key ∷ keys

  -- `set.remove(key)`, and the set itself if it is empty now.
  unfoldable pub drop_key : K → ℕ → List (ℕ × List K) → List (ℕ × List K)
  drop_key key freq freqs = elim (Map.get freq freqs) [
    | none ↦ freqs
    | some keys ↦
        let rest = without key keys in
        if is_empty rest then Map.remove freq freqs else insert_sorted freq rest freqs
  ]

  abbrev pub keys_or_empty : Option (List K) → List K
  keys_or_empty none = []
  keys_or_empty (some keys) = keys

  -- `freqs.entry(freq).or_insert_with(HashSet::new).insert(key)`.
  unfoldable pub enter_key : K → ℕ → List (ℕ × List K) → List (ℕ × List K)
  enter_key key freq freqs =
      insert_sorted freq (add_key key (keys_or_empty (Map.get freq freqs))) freqs

module _ {K V : Type 0} ⦃e : Eq K⦄ where
  -- `if let Some(entry) = map.get_mut(key) { entry.1 = freq }`.
  unfoldable pub set_freq : K → ℕ → List (K × (V × ℕ)) → List (K × (V × ℕ))
  set_freq key freq map = elim (Map.get key map) [
    | none ↦ map
    | some (value, _) ↦ Map.insert key (value, freq) map
  ]

  unfoldable pub increment_freq : K → ℕ → LfuInner K V → LfuInner K V
  unfolding drop_key enter_key set_freq
  increment_freq key current inner = record inner {
    map = set_freq key (next_freq current) inner.map;
    freqs = enter_key key (next_freq current) (drop_key key current inner.freqs);
  }

  unfoldable pub get : LfuInner K V → K → LfuInner K V × Option V
  unfolding increment_freq
  get inner key = elim (Map.get key inner.map) [
    | none ↦ (inner, none)
    | some (_, freq) ↦
        let counted = increment_freq key freq inner in
        (counted, Option.map (λ e. e.0) (Map.get key counted.map))
  ]

  -- `map.remove(key)` and, if it was there, its place in `freqs`: the end of the eviction, and
  -- `invalidate`.
  unfoldable pub invalidate : LfuInner K V → K → LfuInner K V
  unfolding drop_key
  invalidate inner key = elim (Map.get key inner.map) [
    | none ↦ inner
    | some (_, freq) ↦ record inner {
      map = Map.remove key inner.map;
      freqs = drop_key key freq inner.freqs;
    }
  ]

  -- The eviction: a key of the lowest frequency. `none` is the `unwrap` on an empty set.
  unfoldable pub evict : HashOrder K → LfuInner K V → Option (LfuInner K V)
  unfolding invalidate
  evict order inner = elim inner.freqs [
    | [] ↦ some inner
    | (_, []) ∷ _ ↦ none
    | (_, k ∷ ks) ∷ _ ↦ some (invalidate inner (order.pick k ks))
  ]

  unfoldable pub make_room : HashOrder K → LfuInner K V → Option (LfuInner K V)
  unfolding evict
  make_room order inner =
      if leb inner.capacity (length inner.map) then evict order inner else some inner

  unfoldable pub put : HashOrder K → LfuInner K V → K → V → Option (LfuInner K V)
  unfolding increment_freq make_room enter_key
  put order inner key value = elim (Map.get key inner.map) [
    | some (_, freq) ↦
        some
          (increment_freq key freq (record inner { map = Map.insert key (value, freq) inner.map }))
    | none ↦ do
      room ← make_room order inner
      some (record room {
        map = Map.insert key (value, 1) room.map;
        freqs = enter_key key 1 room.freqs;
      })
  ]
