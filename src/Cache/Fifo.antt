-- ===== src/Cache/Fifo.antt =====
-- src/cache.rs, lines 244-298: the first-in first-out cache.
pub mod Invariant
pub mod Evict
pub mod Contract
use kind.Prelude.{
  ℕ, zero, suc, ◌+◌, Eq, Bool, List, [], ◌∷◌, ◌++◌, Option, none, some, ltb, leb, length, without,
  if◌then◌else◌,
}
use kind.Prelude.Map
use kind.Prelude.Optional.{◌>>=◌}

-- `FifoInner`; the queue's front is the list's head.
pub record FifoInner (K V : Type 0) : Type 0 where
  pub capacity : ℕ
  pub map : List (K × V)
  pub queue : List K

module _ {K V : Type 0} where
  -- `none` is the failed assertion.
  unfoldable pub new : ℕ → Option (FifoInner K V)
  new capacity =
      if ltb 0 capacity then some (record { capacity = capacity; map = []; queue = [] }) else none

module _ {K V : Type 0} ⦃e : Eq K⦄ where
  unfoldable pub get : FifoInner K V → K → Option V
  get inner key = Map.get key inner.map

  -- `if let Some(evict_key) = queue.pop_front()`: the body of the loop.
  unfoldable pub evict_front : FifoInner K V → List K → FifoInner K V
  evict_front inner [] = inner
  evict_front inner (evict_key ∷ rest) = record inner {
    map = Map.remove evict_key inner.map;
    queue = rest;
  }

  -- The `while` loop of `put`. On an empty queue its body does nothing, so it would not end; `none`
  -- means that the fuel ran out.
  unfoldable pub evict_loop : ℕ → FifoInner K V → Option (FifoInner K V)
  unfolding evict_front
  evict_loop zero inner = none
  evict_loop (suc fuel) inner =
      let rest = evict_loop fuel (evict_front inner inner.queue) in
      if leb inner.capacity (length inner.map) then rest else some inner

  -- `push_back` and `insert`, after the loop.
  unfoldable pub append : K → V → FifoInner K V → FifoInner K V
  append key value inner = record inner {
    map = Map.insert key value inner.map;
    queue = inner.queue ++ key ∷ [];
  }

  unfoldable pub put : FifoInner K V → K → V → Option (FifoInner K V)
  unfolding evict_loop append
  put inner key value =
      if Map.contains_key key inner.map
      then some (record inner { map = Map.insert key value inner.map })
      else do room ← evict_loop (length inner.map + 1) inner; some (append key value room)

  unfoldable pub invalidate : FifoInner K V → K → FifoInner K V
  invalidate inner key =
      if Map.contains_key key inner.map
      then record inner { map = Map.remove key inner.map; queue = without key inner.queue }
      else inner
