-- ===== src/Cache/Lfu/Invariant.antt =====
-- What holds of src/cache.rs's `LfuInner` between calls.
use kind.Prelude.{
  ℕ, ◌+◌, subst, sym, ◌<◌, ◌≤◌, ◌≡◌, ap, ◌∙◌, Eq, ◌==◌, nat_eq, nat_beq_iff, Bool, true, false,
  List, Option, none, some, arith, if◌then◌else◌, contains, contains-without, length, inl, inr,
  Option-cases,
}
use kind.Prelude.Map
use kind.Cache.Lfu.{
  LfuInner, next_freq, add_key, drop_key, enter_key, set_freq, increment_freq, invalidate,
}
use kind.Cache.Lfu.Frequencies.{
  IsAscending, IsFilled, keys_at, drop_key_lem, drop_key-IsFilled, drop_key-IsAscending,
  enter_key_lem, enter_key-IsFilled, enter_key-IsAscending,
}

-- An entry with this frequency.
abbrev pub has_freq {ℓ} : {V : Type ℓ} → ℕ → Option (V × ℕ) → Bool
has_freq f none = false
has_freq f (some (_, g)) = g == f

-- A key stands in the set of a frequency exactly when that is the frequency of its entry.
pub record IsConsistent {K V : Type 0} ⦃e : Eq K⦄ (c : LfuInner K V) : Type 0 where
  pub positive : 0 < c.capacity
  pub is_map : Map.IsMap c.map
  pub listed : (f : ℕ) (k : K) → contains (keys_at f c.freqs) k ≡ has_freq f (Map.get k c.map)
  pub filled : IsFilled c.freqs
  pub ascending : IsAscending c.freqs

pub record IsValid {K V : Type 0} ⦃e : Eq K⦄ (c : LfuInner K V) : Type 0 where
  pub consistent : IsConsistent c
  pub bounded : length c.map ≤ c.capacity

module _ {K : Type 0} ⦃e : Eq K⦄ where
  contains-add_key :
      (k j : K) (keys : List K)
      → contains (add_key k keys) j ≡ (if k == j then true else contains keys j)
  unfolding contains
  contains-add_key k j keys = ground (arith, e.beq_iff k j)

module _ {K V : Type 0} ⦃e : Eq K⦄ where
  -- `set_freq` on a key that is there.
  set_freq_found :
      (k : K) (f g : ℕ) (v : V) (m : List (K × (V × ℕ)))
      → Map.get k m ≡ some (v, f)
      → set_freq k g m ≡ Map.insert k (v, g) m
  unfolding set_freq
  set_freq_found k f g v m h = ground arith

  module _ (c : LfuInner K V) (v : IsConsistent c) (k : K) (f : ℕ) (x : V)
      (found : Map.get k c.map ≡ some (x, f)) where
    -- The entry moves to the next frequency.
    pub increment_freq-get :
        (j : K)
        → Map.get j (increment_freq k f c).map
          ≡ (if k == j then some (x, next_freq f) else Map.get j c.map)
    unfolding increment_freq
    increment_freq-get j =
        ap (Map.get j) (set_freq_found k f (next_freq f) x c.map found)
        ∙ Map.get-insert k j (x, next_freq f) c.map

    pub increment_freq-length : length (increment_freq k f c).map ≡ length c.map
    unfolding increment_freq
    increment_freq-length =
        ap length (set_freq_found k f (next_freq f) x c.map found)
        ∙ ground (arith, Map.length-insert k (x, next_freq f) c.map)

    increment_freq-listed :
        (g : ℕ) (j : K)
        → contains (keys_at g (increment_freq k f c).freqs) j
          ≡ has_freq g (Map.get j (increment_freq k f c).map)
    unfolding increment_freq
    increment_freq-listed g j =
        let next = next_freq f in
        let freqs = drop_key k f c.freqs in
        ground (
          arith,
          increment_freq-get j,
          enter_key_lem k next g freqs,
          drop_key_lem k f g c.freqs,
          contains-add_key k j (keys_at g freqs),
          contains-without k j (keys_at g c.freqs),
          v.listed g j,
          v.listed g k,
          e.beq_iff k j,
          nat_beq_iff f g,
        )

    pub increment_freq-IsConsistent : IsConsistent (increment_freq k f c)
    unfolding increment_freq
    increment_freq-IsConsistent = record {
      positive = v.positive;
      is_map =
          subst Map.IsMap (sym (set_freq_found k f (next_freq f) x c.map found))
            (Map.IsMap-insert k (x, next_freq f) c.map v.is_map);
      listed = increment_freq-listed;
      filled =
          enter_key-IsFilled k (next_freq f) (drop_key k f c.freqs)
            (drop_key-IsFilled k f c.freqs v.filled);
      ascending =
          enter_key-IsAscending k (next_freq f) (drop_key k f c.freqs)
            (drop_key-IsAscending k f c.freqs v.ascending);
    }

  -- A key leaves the map and the set of its frequency.
  pub invalidate-get :
      (c : LfuInner K V) (k j : K)
      → Map.get j (invalidate c k).map ≡ (if k == j then none else Map.get j c.map)
  unfolding invalidate
  invalidate-get c k j = ground (arith, Map.get-remove k j c.map, e.beq_iff k j)

  pub invalidate-IsConsistent :
      (c : LfuInner K V) (k : K) → IsConsistent c → IsConsistent (invalidate c k)
  unfolding invalidate
  invalidate-IsConsistent c k v = elim (Option-cases (Map.get k c.map)) [
    | inl absent ↦ rw (invalidate, absent) v
    | inr ((x, f), found) ↦
        rw (invalidate, found)
          (record {
            positive = v.positive;
            is_map = Map.IsMap-remove k c.map v.is_map;
            listed = λ g j. ground (
              arith,
              drop_key_lem k f g c.freqs,
              contains-without k j (keys_at g c.freqs),
              Map.get-remove k j c.map,
              v.listed g j,
              v.listed g k,
              e.beq_iff k j,
              nat_beq_iff f g,
            );
            filled = drop_key-IsFilled k f c.freqs v.filled;
            ascending = drop_key-IsAscending k f c.freqs v.ascending;
          })
  ]

  pub invalidate-length :
      (c : LfuInner K V) (k : K)
      → IsConsistent c
      → length c.map ≡ length (invalidate c k).map + (if Map.contains_key k c.map then 1 else 0)
  unfolding invalidate
  invalidate-length c k v = ground (arith, Map.length-remove k c.map v.is_map)

  -- A new key starts at frequency one.
  abbrev pub enter : K → V → LfuInner K V → LfuInner K V
  enter k x c = record c { map = Map.insert k (x, 1) c.map; freqs = enter_key k 1 c.freqs }

  pub enter-IsConsistent :
      (c : LfuInner K V) (k : K) (x : V)
      → IsConsistent c
      → Map.get k c.map ≡ none
      → IsConsistent (enter k x c)
  enter-IsConsistent c k x v absent = record {
    positive = v.positive;
    is_map = Map.IsMap-insert k (x, 1) c.map v.is_map;
    listed = λ g j. ground (
      arith,
      enter_key_lem k 1 g c.freqs,
      contains-add_key k j (keys_at g c.freqs),
      Map.get-insert k j (x, 1) c.map,
      v.listed g j,
      e.beq_iff k j,
      nat_beq_iff 1 g,
    );
    filled = enter_key-IsFilled k 1 c.freqs v.filled;
    ascending = enter_key-IsAscending k 1 c.freqs v.ascending;
  }

  -- A value that is overwritten, with its frequency.
  abbrev pub overwrite : K → V → ℕ → LfuInner K V → LfuInner K V
  overwrite k x f c = record c { map = Map.insert k (x, f) c.map }

  pub overwrite-IsConsistent :
      (c : LfuInner K V) (k : K) (x old : V) (f : ℕ)
      → IsConsistent c
      → Map.get k c.map ≡ some (old, f)
      → IsConsistent (overwrite k x f c)
  overwrite-IsConsistent c k x old f v found = record {
    positive = v.positive;
    is_map = Map.IsMap-insert k (x, f) c.map v.is_map;
    listed = λ g j. ground (arith, Map.get-insert k j (x, f) c.map, v.listed g j, e.beq_iff k j);
    filled = v.filled;
    ascending = v.ascending;
  }
