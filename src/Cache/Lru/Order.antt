-- ===== src/Cache/Lru/Order.antt =====
-- The neighbours of an index in a list of indices, which the links of src/cache.rs's `LruNode` are
-- meant to be.
use kind.Prelude.{
  ℕ, nat_eq, ◌==◌, true, false, ◌≡◌, refl, List, [], ◌∷◌, Option, none, some, arith, if◌then◌else◌,
  contains, without, IsDistinct, without_absent, is_some,
}
use kind.Cache.Lru.{is_index}

abbrev pub first : List ℕ → Option ℕ
first [] = none
first (x ∷ xs) = some x

-- The last index, or `p` if there is none.
unfoldable pub last_or : Option ℕ → List ℕ → Option ℕ
last_or p [] = p
last_or p (x ∷ xs) = last_or (some x) xs

-- The index before `j`, where `p` stands before the list.
unfoldable pub before : Option ℕ → ℕ → List ℕ → Option ℕ
before p j [] = none
before p j (x ∷ xs) = if x == j then p else before (some x) j xs

unfoldable pub after : ℕ → List ℕ → Option ℕ
after j [] = none
after j (x ∷ xs) = if x == j then first xs else after j xs

-- What stands before an index is `p` or is in the list.
pub before-contains :
    (p : Option ℕ) (i j : ℕ) (xs : List ℕ)
    → is_index (before p i xs) j ≡ true
    → is_index p j ≡ false
    → contains xs j ≡ true
unfolding before contains
before-contains p i j [] h g = ground arith
before-contains p i j (x ∷ xs) h g = ground (arith, before-contains (some x) i j xs)

pub after-contains : (i j : ℕ) (xs : List ℕ) → is_index (after i xs) j ≡ true → contains xs j ≡ true
unfolding after contains
after-contains i j [] h = ground arith
after-contains i j (x ∷ []) h = ground (arith, after-contains i j [])
after-contains i j (x ∷ y ∷ ys) h = ground (arith, after-contains i j (y ∷ ys))

-- Without an index that is not `j`, the index after `j` is the same, or is the one behind it.
pub after-without :
    (p : Option ℕ) (i j : ℕ) (xs : List ℕ)
    → IsDistinct xs
    → contains xs i ≡ true
    → (i == j) ≡ false
    → is_index p j ≡ false
    → after j (without i xs) ≡ (if is_index (before p i xs) j then after i xs else after j xs)
unfolding before after contains without
after-without p i j [] d c ne np = ground arith
after-without p i j (x ∷ []) d c ne np = ground arith
after-without p i j (x ∷ y ∷ ys) d c ne np = ground (
  arith,
  after-without (some x) i j (y ∷ ys) d.1,
  without_absent i (y ∷ ys),
  without_absent i ys,
  before-contains (some y) i j ys,
)

pub before-without :
    (p : Option ℕ) (i j : ℕ) (xs : List ℕ)
    → IsDistinct xs
    → (i == j) ≡ false
    → before p j (without i xs) ≡ (if is_index (after i xs) j then before p i xs else before p j xs)
unfolding before after contains without
before-without p i j [] d ne = ground arith
before-without p i j (x ∷ []) d ne = ground arith
before-without p i j (x ∷ y ∷ ys) d ne = ground (
  arith,
  before-without (some x) i j (y ∷ ys) d.1,
  without_absent i (y ∷ ys),
  after-contains i j (y ∷ ys),
)

before-some : (p i : ℕ) (xs : List ℕ) → contains xs i ≡ true → is_some (before (some p) i xs) ≡ true
unfolding before contains
before-some p i [] c = ground arith
before-some p i (x ∷ xs) c = ground (arith, before-some x i xs)

pub first-without :
    (i : ℕ) (xs : List ℕ)
    → IsDistinct xs
    → contains xs i ≡ true
    → first (without i xs) ≡ (if is_some (before none i xs) then first xs else after i xs)
unfolding before after contains without
first-without i [] d c = ground arith
first-without i (x ∷ xs) d c = ground (arith, without_absent i xs, before-some x i xs)

pub last_or-without :
    (p : Option ℕ) (i : ℕ) (xs : List ℕ)
    → IsDistinct xs
    → contains xs i ≡ true
    → last_or p (without i xs) ≡ (if is_some (after i xs) then last_or p xs else before p i xs)
unfolding before after contains without last_or
last_or-without p i [] d c = ground arith
last_or-without p i (x ∷ []) d c = ground arith
last_or-without p i (x ∷ y ∷ ys) d c =
    ground (arith, without_absent i (y ∷ ys), last_or-without (some x) i (y ∷ ys) d.1)

pub before-cons :
    (i j : ℕ) (xs : List ℕ)
    → before (some i) j xs ≡ (if is_index (first xs) j then some i else before none j xs)
unfolding before
before-cons i j [] = refl
before-cons i j (x ∷ xs) = ground arith

last_or-some :
    (p : ℕ) (xs : List ℕ)
    → (is_some (last_or (some p) xs) ≡ true)
      × (last_or (some p) xs ≡ (if is_some (last_or none xs) then last_or none xs else some p))
unfolding last_or
last_or-some p [] = (refl, refl)
last_or-some p (x ∷ xs) = ground (arith, last_or-some x xs)

pub last_or-cons :
    (i : ℕ) (xs : List ℕ)
    → last_or (some i) xs ≡ (if is_some (last_or none xs) then last_or none xs else some i)
last_or-cons i xs = (last_or-some i xs).1

-- The first and the last index are in the list.
pub first-contains : (i : ℕ) (xs : List ℕ) → first xs ≡ some i → contains xs i ≡ true
unfolding contains
first-contains i [] h = cc
first-contains i (x ∷ xs) h = ground arith

pub last_or-contains :
    (p : Option ℕ) (i : ℕ) (xs : List ℕ)
    → last_or p xs ≡ some i
    → is_index p i ≡ false
    → contains xs i ≡ true
unfolding contains last_or
last_or-contains p i [] h g = ground arith
last_or-contains p i (x ∷ xs) h g = ground (arith, last_or-contains (some x) i xs)

pub last_or-none : (xs : List ℕ) → last_or none xs ≡ none → xs ≡ []
unfolding last_or
last_or-none [] h = refl
last_or-none (x ∷ xs) h = ground (arith, last_or-some x xs)

pub cons-without-first :
    (i : ℕ) (xs : List ℕ) → first xs ≡ some i → IsDistinct xs → i ∷ without i xs ≡ xs
unfolding without contains
cons-without-first i [] h d = cc
cons-without-first i (x ∷ xs) h d = ground (arith, without_absent i xs)
