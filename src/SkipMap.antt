-- ===== src/SkipMap.antt =====
-- `crossbeam_skiplist`, which the program calls and does not contain: `SkipMap` with text keys, and
-- `SkipSet` as the map to the unit type. The laws are its documented behaviour, with one thread at
-- a time: a map from keys to values whose iterators go in the order of the keys.
pub mod Order
use kind.Prelude.{
  ◌≡◌, Bool, true, false, ◌&&◌, List, [], ◌∷◌, Option, none, some, Text, text_eq, text_le, ◌==◌,
  filter, if◌then◌else◌,
}
use kind.Prelude.Map

-- Each key is below every later one.
abbrev pub IsAscending {ℓ} : {V : Type ℓ} → List (Text × V) → Type 0
IsAscending [] = Unit
IsAscending ((k, v) ∷ []) = Unit
IsAscending ((k, v) ∷ (j, w) ∷ es) =
    (text_le k j ≡ true) × ((k == j) ≡ false) × IsAscending ((j, w) ∷ es)

pub record SkipMap (V : Type 0) : Type 1 where
  pub Store : Type 0
  pub empty : Store
  pub get : Store → Text → Option V
  pub insert : Store → Text → V → Store
  pub remove : Store → Text → Store
  -- `iter`, `range(lo..)` and `range(lo..=hi)`.
  pub iter : Store → List (Text × V)
  pub range_from : Store → Text → List (Text × V)
  pub range_between : Store → Text → Text → List (Text × V)
  pub get-empty : (k : Text) → get empty k ≡ none
  pub get-insert :
      (m : Store) (k j : Text) (v : V) → get (insert m k v) j ≡ (if k == j then some v else get m j)
  pub get-remove :
      (m : Store) (k j : Text) → get (remove m k) j ≡ (if k == j then none else get m j)
  pub get-iter : (m : Store) (k : Text) → Map.get k (iter m) ≡ get m k
  pub iter-IsAscending : (m : Store) → IsAscending (iter m)
  pub range_from-iter :
      (m : Store) (lo : Text) → range_from m lo ≡ filter (λ e. text_le lo e.0) (iter m)
  pub range_between-iter :
      (m : Store) (lo hi : Text)
      → range_between m lo hi ≡ filter (λ e. text_le lo e.0 && text_le e.0 hi) (iter m)
