-- ===== src/Cache/Lfu/Frequencies.antt =====
-- The ordered map `freqs` of src/cache.rs's `LfuInner`, from frequencies to sets of keys.
use kind.Prelude.{
  ℕ, ◌<◌, ◌≡◌, ◌≢◌, refl, Eq, ◌==◌, nat_eq, nat_beq_iff, true, List, [], ◌∷◌, some, arith,
  if◌then◌else◌, contains, without, is_empty, inl, inr, Option-cases,
}
use kind.Prelude.Map
use kind.Cache.Lfu.{insert_sorted, add_key, drop_key, keys_or_empty, enter_key}

module _ {ℓ} {A : Type ℓ} where
  abbrev pub AllAbove : ℕ → List (ℕ × A) → Type 0
  AllAbove f [] = Unit
  AllAbove f ((g, s) ∷ m) = (f < g) × AllAbove f m

  -- Each frequency is above those in front of it.
  abbrev pub IsAscending : List (ℕ × A) → Type 0
  IsAscending [] = Unit
  IsAscending ((f, s) ∷ m) = AllAbove f m × IsAscending m

  pub get-insert_sorted :
      (f g : ℕ) (s : A) (m : List (ℕ × A))
      → Map.get g (insert_sorted f s m) ≡ (if f == g then some s else Map.get g m)
  unfolding insert_sorted Map.get
  get-insert_sorted f g s [] = refl
  get-insert_sorted f g s ((h, t) ∷ m) =
      ground (arith, get-insert_sorted f g s m, nat_beq_iff f g, nat_beq_iff f h, nat_beq_iff h g)

  AllAbove-insert_sorted :
      (e f : ℕ) (s : A) (m : List (ℕ × A)) → e < f → AllAbove e m → AllAbove e (insert_sorted f s m)
  unfolding insert_sorted
  AllAbove-insert_sorted e f s [] h a = (h, tt)
  AllAbove-insert_sorted e f s ((g, t) ∷ m) h a =
      ground (arith, AllAbove-insert_sorted e f s m h a.1)

  AllAbove-trans : (e f : ℕ) (m : List (ℕ × A)) → e < f → AllAbove f m → AllAbove e m
  AllAbove-trans e f [] h a = tt
  AllAbove-trans e f ((g, t) ∷ m) h a = (omega arith, AllAbove-trans e f m h a.1)

  IsAscending-insert_sorted :
      (f : ℕ) (s : A) (m : List (ℕ × A)) → IsAscending m → IsAscending (insert_sorted f s m)
  unfolding insert_sorted
  IsAscending-insert_sorted f s [] a = (tt, tt)
  IsAscending-insert_sorted f s ((g, t) ∷ m) a = ground (
    arith,
    IsAscending-insert_sorted f s m a.1,
    AllAbove-insert_sorted g f s m,
    AllAbove-trans f g m,
    nat_beq_iff f g,
  )

  AllAbove-remove : (e f : ℕ) (m : List (ℕ × A)) → AllAbove e m → AllAbove e (Map.remove f m)
  unfolding Map.remove
  AllAbove-remove e f [] a = tt
  AllAbove-remove e f ((g, t) ∷ m) a = ground (arith, AllAbove-remove e f m a.1)

  IsAscending-remove : (f : ℕ) (m : List (ℕ × A)) → IsAscending m → IsAscending (Map.remove f m)
  unfolding Map.remove
  IsAscending-remove f [] a = tt
  IsAscending-remove f ((g, t) ∷ m) a =
      ground (arith, IsAscending-remove f m a.1, AllAbove-remove g f m)

  -- The first frequency is the lowest.
  pub AllAbove-get :
      (e f : ℕ) (s : A) (m : List (ℕ × A)) → AllAbove e m → Map.get f m ≡ some s → e < f
  unfolding Map.get
  AllAbove-get e f s [] a h = absurd (ground arith)
  AllAbove-get e f s ((g, t) ∷ m) a h = ground (arith, AllAbove-get e f s m a.1, nat_beq_iff g f)

is_empty_lem {ℓ} : {A : Type ℓ} (xs : List A) → is_empty xs ≡ true → xs ≡ []
is_empty_lem [] h = refl
is_empty_lem (x ∷ xs) h = cc

module _ {K : Type 0} ⦃e : Eq K⦄ where
  abbrev pub keys_at : ℕ → List (ℕ × List K) → List K
  keys_at f m = keys_or_empty (Map.get f m)

  -- No set is empty.
  abbrev pub IsFilled : List (ℕ × List K) → Type 0
  IsFilled m = (f : ℕ) → Map.get f m ≢ some []

  pub drop_key_lem :
      (k : K) (f g : ℕ) (m : List (ℕ × List K))
      → keys_at g (drop_key k f m) ≡ (if f == g then without k (keys_at g m) else keys_at g m)
  unfolding drop_key without
  drop_key_lem k f g m = elim (Option-cases (Map.get f m)) [
    | inl absent ↦ ground (arith, nat_beq_iff f g)
    | inr (keys, there) ↦ ground (
      arith,
      nat_beq_iff f g,
      Map.get-remove f g m,
      get-insert_sorted f g (without k keys) m,
      is_empty_lem (without k keys),
    )
  ]

  pub drop_key-IsFilled :
      (k : K) (f : ℕ) (m : List (ℕ × List K)) → IsFilled m → IsFilled (drop_key k f m)
  unfolding drop_key
  drop_key-IsFilled k f m filled g h = elim (Option-cases (Map.get f m)) [
    | inl absent ↦ filled g (ground arith)
    | inr (keys, there) ↦ ground (
      arith,
      filled g,
      Map.get-remove f g m,
      get-insert_sorted f g (without k keys) m,
      nat_beq_iff f g,
    )
  ]

  pub drop_key-IsAscending :
      (k : K) (f : ℕ) (m : List (ℕ × List K)) → IsAscending m → IsAscending (drop_key k f m)
  unfolding drop_key
  drop_key-IsAscending k f m a =
      ground
        (arith, IsAscending-remove f m, IsAscending-insert_sorted f (without k (keys_at f m)) m)

  pub enter_key_lem :
      (k : K) (f g : ℕ) (m : List (ℕ × List K))
      → keys_at g (enter_key k f m) ≡ (if f == g then add_key k (keys_at g m) else keys_at g m)
  unfolding enter_key
  enter_key_lem k f g m =
      ground (arith, nat_beq_iff f g, get-insert_sorted f g (add_key k (keys_at f m)) m)

  add_key-ne-nil : (k : K) (keys : List K) → add_key k keys ≢ []
  unfolding contains
  add_key-ne-nil k [] h = cc
  add_key-ne-nil k (j ∷ keys) h = ground arith

  pub enter_key-IsFilled :
      (k : K) (f : ℕ) (m : List (ℕ × List K)) → IsFilled m → IsFilled (enter_key k f m)
  unfolding enter_key contains
  enter_key-IsFilled k f m filled g h = ground (
    arith,
    filled g,
    get-insert_sorted f g (add_key k (keys_at f m)) m,
    add_key-ne-nil k (keys_at f m),
  )

  pub enter_key-IsAscending :
      (k : K) (f : ℕ) (m : List (ℕ × List K)) → IsAscending m → IsAscending (enter_key k f m)
  unfolding enter_key
  enter_key-IsAscending k f m a = IsAscending-insert_sorted f (add_key k (keys_at f m)) m a
