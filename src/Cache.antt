-- ===== src/Cache.antt =====
-- src/cache.rs: the trait `Cache` as an interface of operations and laws. The three strategies are
-- in the modules below; each fills the interface.
pub mod Fifo
pub mod Lfu
pub mod Lru
use kind.Prelude.{
  ℕ, ◌<◌, Bool, true, refl, ◌∙◌, inl, inr, Eq, ◌==◌, Option, none, some, ◌≡◌, ◌⊎◌, false,
  if◌then◌else◌,
}

-- An entry after an operation that may evict: it is gone, or it is what it was.
abbrev pub Kept {ℓ} : {V : Type ℓ} → Option V → Option V → Type ℓ
Kept after before = (after ≡ none) ⊎ (after ≡ before)

pub Kept-trans {ℓ} : {V : Type ℓ} (x y z : Option V) → Kept x y → Kept y z → Kept x z
Kept-trans x y z (inl p) k = inl p
Kept-trans x y z (inr p) (inl q) = inl (p ∙ q)
Kept-trans x y z (inr p) (inr q) = inr (p ∙ q)

pub Kept-if {ℓ} : {V : Type ℓ} (b : Bool) (x : Option V) → Kept (if b then none else x) x
Kept-if true x = inl refl
Kept-if false x = inr refl

-- `&self` is the state behind the mutex, returned anew. `none` is a call that does not return: a
-- panic, or a loop without end. `peek` is what `get` would return.
pub record Cache (K V : Type 0) ⦃e : Eq K⦄ : Type 1 where
  pub State : Type 0
  pub IsValid : State → Type 0
  pub peek : State → K → Option V
  -- The constructor of the strategy, which is not in the trait.
  pub new : ℕ → Option State
  pub get : State → K → Option (State × Option V)
  pub put : State → K → V → Option State
  pub invalidate : State → K → Option State
  pub new_returns :
      (n : ℕ) → 0 < n → (c : State) × (new n ≡ some c) × IsValid c × ((j : K) → peek c j ≡ none)
  pub get_returns :
      (c : State) (k : K)
      → IsValid c
      → (c' : State) × (get c k ≡ some (c', peek c k))
        × IsValid c'
        × ((j : K) → peek c' j ≡ peek c j)
  pub put_returns :
      (c : State) (k : K) (v : V)
      → IsValid c
      → (c' : State) × (put c k v ≡ some c')
        × IsValid c'
        × (peek c' k ≡ some v)
        × ((j : K) → (k == j) ≡ false → Kept (peek c' j) (peek c j))
  pub invalidate_returns :
      (c : State) (k : K)
      → IsValid c
      → (c' : State) × (invalidate c k ≡ some c')
        × IsValid c'
        × ((j : K) → peek c' j ≡ (if k == j then none else peek c j))
