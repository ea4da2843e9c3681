-- ===== src/Cache/Lru/Entries.antt =====
-- The entries of a least-recently-used cache as a list, most recent first.
use kind.Prelude.{
  ℕ, ◌≡◌, ◌≢◌, refl, ap, ◌∙◌, nat_eq, Eq, ◌==◌, true, false, List, [], ◌∷◌, Option, none, some,
  arith, length, contains, without, IsDistinct, nat_beq_iff, Option-cases, inl, inr,
}
use kind.Prelude.Map
use kind.Cache.Lru.{LruNode, LruInner, is_index}
use kind.Cache.Lru.Order.{last_or, last_or-contains}
use kind.Cache.Lru.Links.{slot, key_of, value_of, IsSlot, SameEntries}

-- The list without its last element.
unfoldable pub drop_last {ℓ} : {A : Type ℓ} → List A → List A
drop_last [] = []
drop_last (x ∷ []) = []
drop_last (x ∷ y ∷ ys) = x ∷ drop_last (y ∷ ys)

pub without_last :
    (p : Option ℕ) (t : ℕ) (xs : List ℕ)
    → IsDistinct xs
    → is_index p t ≡ false
    → last_or p xs ≡ some t
    → without t xs ≡ drop_last xs
unfolding last_or without contains drop_last
without_last p t [] d np h = refl
without_last p t (x ∷ []) d np h = ground (arith, nat_beq_iff x t)
without_last p t (x ∷ y ∷ ys) d np h =
    let later = last_or-contains (some y) t ys in
    ground (
      arith,
      without_last (some x) t (y ∷ ys) d.1,
      nat_beq_iff x t,
      nat_beq_iff y t,
      nat_beq_iff y x,
      later,
    )

module _ {K V : Type 0} where
  abbrev pub entry_of : Option (LruNode K V) → List (K × V) → List (K × V)
  entry_of none rest = rest
  entry_of (some node) rest = (node.key, node.value) ∷ rest

  unfoldable pub entries : LruInner K V → List ℕ → List (K × V)
  entries c [] = []
  entries c (i ∷ order) = entry_of (slot c i) (entries c order)

  entry_of-same :
      (a b : Option (LruNode K V)) (rest : List (K × V))
      → key_of a ≡ key_of b
      → value_of a ≡ value_of b
      → entry_of a rest ≡ entry_of b rest
  entry_of-same none none rest h g = refl
  entry_of-same (some a) (some b) rest h g = ground arith
  entry_of-same a b rest h g = ground arith

  pub entries-same :
      (c r : LruInner K V) (order : List ℕ) → SameEntries c r → entries r order ≡ entries c order
  unfolding entries
  entries-same c r [] same = refl
  entries-same c r (i ∷ order) same =
      ap (entry_of (slot r i)) (entries-same c r order same)
      ∙ entry_of-same (slot r i) (slot c i) (entries c order) (same.keys i) (same.values i)

  pub entries-others :
      (c r : LruInner K V) (order : List ℕ)
      → ((j : ℕ) → contains order j ≡ true → slot r j ≡ slot c j)
      → entries r order ≡ entries c order
  unfolding entries contains
  entries-others c r [] others = refl
  entries-others c r (i ∷ order) others =
      ap (entry_of (slot r i)) (entries-others c r order (λ j h. others j (ground arith)))
      ∙ ap (λ o. entry_of o (entries c order)) (others i (ground (arith, nat_beq_iff i i)))

  pub length-entries :
      (c : LruInner K V) (order : List ℕ)
      → ((j : ℕ) → contains order j ≡ true → IsSlot c (some j))
      → length (entries c order) ≡ length order
  unfolding entries contains
  length-entries c [] slots = refl
  length-entries c (i ∷ order) slots =
      let (node, at) = slots i (ground (arith, nat_beq_iff i i)) in
      ground (arith, length-entries c order (λ j h. slots j (ground arith)))

  pub entries-drop_last :
      (c : LruInner K V) (order : List ℕ)
      → ((j : ℕ) → contains order j ≡ true → IsSlot c (some j))
      → entries c (drop_last order) ≡ drop_last (entries c order)
  unfolding entries contains drop_last
  entries-drop_last c [] slots = refl
  entries-drop_last c (i ∷ []) slots =
      let (node, at) = slots i (ground (arith, nat_beq_iff i i)) in ground arith
  entries-drop_last c (i ∷ k ∷ order) slots =
      let (node, at) = slots i (ground (arith, nat_beq_iff i i)) in
      let (node', at') = slots k (ground (arith, nat_beq_iff k k)) in
      ground (arith, entries-drop_last c (k ∷ order) (λ j h. slots j (ground arith)))

module _ {K V : Type 0} ⦃e : Eq K⦄ (c : LruInner K V) (k : K) where
  -- No slot of the list but `i` has the key.
  abbrev pub OnlyAt : ℕ → List ℕ → Type 0
  OnlyAt i order = (j : ℕ) → contains order j ≡ true → key_of (slot c j) ≡ some k → (i == j) ≡ true

  OnlyAt-tail : (i x : ℕ) (order : List ℕ) → OnlyAt i (x ∷ order) → OnlyAt i order
  unfolding contains
  OnlyAt-tail i x order only = λ j h g. only j (ground arith) g

  pub entries-without :
      (i : ℕ) (order : List ℕ)
      → key_of (slot c i) ≡ some k
      → OnlyAt i order
      → entries c (without i order) ≡ Map.remove k (entries c order)
  unfolding entries contains without Map.remove
  entries-without i [] key only = refl
  entries-without i (x ∷ order) key only =
      let ih = entries-without i order key (OnlyAt-tail i x order only) in
      let here : contains (x ∷ order) x ≡ true = ground (arith, nat_beq_iff x x) in
      elim (Option-cases (slot c x)) [
        | inl gone ↦ ground (arith, ih, nat_beq_iff x i)
        | inr (node, at) ↦
            ground (arith, ih, e.beq_iff node.key k, nat_beq_iff x i, nat_beq_iff i x, only x here)
      ]

  pub get-entries :
      (i : ℕ) (order : List ℕ)
      → contains order i ≡ true
      → key_of (slot c i) ≡ some k
      → OnlyAt i order
      → Map.get k (entries c order) ≡ value_of (slot c i)
  unfolding entries contains Map.get
  get-entries i [] there key only = absurd (ground arith)
  get-entries i (x ∷ order) there key only =
      let here : contains (x ∷ order) x ≡ true = ground (arith, nat_beq_iff x x) in
      elim (Option-cases (slot c x)) [
        | inl gone ↦
            ground (arith, nat_beq_iff x i, get-entries i order, OnlyAt-tail i x order only)
        | inr (node, at) ↦ ground (
          arith,
          get-entries i order,
          OnlyAt-tail i x order only,
          e.beq_iff node.key k,
          nat_beq_iff x i,
          nat_beq_iff i x,
          only x here,
        )
      ]

  pub get-entries-none :
      (order : List ℕ)
      → ((j : ℕ) → contains order j ≡ true → key_of (slot c j) ≢ some k)
      → Map.get k (entries c order) ≡ none
  unfolding entries contains Map.get
  get-entries-none [] absent = refl
  get-entries-none (x ∷ order) absent =
      let ih = get-entries-none order (λ j h. absent j (ground arith)) in
      let key = absent x (ground (arith, nat_beq_iff x x)) in
      elim (Option-cases (slot c x)) [
        | inl gone ↦ ground (arith, ih)
        | inr (node, at) ↦ ground (arith, ih, e.beq_iff node.key k)
      ]
