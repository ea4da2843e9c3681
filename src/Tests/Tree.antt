-- ===== src/Tests/Tree.antt =====
-- JSON values as trees. A byte sequence that is not empty reads as an object with one member, the
-- text of these bytes.
use mathlib.Core.Option.{some-injective}
use kind.Prelude.{
  ℕ, suc, ◌+◌, ◌<◌, ◌≤◌, ap, ◌≡◌, ◌∙◌, subst, Bool, true, false, List, [], ◌∷◌, All, Option, none,
  some, Text, text_eq, ◌==◌, codes, arith, if◌then◌else◌,
}
use kind.Json.{Json}

mutual
  pub data Tree : Type 0 where
    null : Tree
    boolean : Bool → Tree
    number : ℕ → Tree
    text : Text → Tree
    array : Items → Tree
    object : Members → Tree

  pub data Items : Type 0 where
    no_items : Items
    item : Tree → Items → Items

  pub data Members : Type 0 where
    no_members : Members
    member : Text → Tree → Members → Members

abbrev mutual
  pub size : Tree → ℕ
  size null = 1
  size (boolean b) = 1
  size (number n) = 1
  size (text s) = 1
  size (array xs) = suc (items_size xs)
  size (object ms) = suc (members_size ms)

  pub items_size : Items → ℕ
  items_size no_items = 0
  items_size (item x xs) = size x + items_size xs

  pub members_size : Members → ℕ
  members_size no_members = 0
  members_size (member k v ms) = size v + members_size ms

abbrev pub items : Items → List Tree
items no_items = []
items (item x xs) = x ∷ items xs

abbrev pub find : Members → Text → Option Tree
find no_members k = none
find (member j v ms) k = if j == k then some v else find ms k

pub find_smaller :
    (ms : Members) (k : Text) (w : Tree) → find ms k ≡ some w → size w < suc (members_size ms)
find_smaller no_members k w h = cc
find_smaller (member j v ms) k w h = ground (arith, find_smaller ms k w)

All-weaken :
    (xs : List Tree) (a b : ℕ) → a ≤ b + 1 → All (λ w. size w < a) xs → All (λ w. size w < suc b) xs
All-weaken [] a b p h = tt
All-weaken (x ∷ xs) a b p h = (omega (arith, h.0), All-weaken xs a b p h.1)

pub items_smaller : (xs : Items) → All (λ w. size w < suc (items_size xs)) (items xs)
items_smaller no_items = tt
items_smaller (item x xs) = (
  omega arith,
  All-weaken (items xs) (suc (items_size xs)) (size x + items_size xs) (omega arith)
      (items_smaller xs),
)

abbrev pub as_object : Tree → Option (Text → Option Tree)
as_object (object ms) = some (find ms)
as_object _ = none

abbrev pub as_array : Tree → Option (List Tree)
as_array (array xs) = some (items xs)
as_array _ = none

abbrev pub as_str : Tree → Option Text
as_str (text s) = some s
as_str _ = none

abbrev pub as_bool : Tree → Option Bool
as_bool (boolean b) = some b
as_bool _ = none

abbrev pub as_number : Tree → Option ℕ
as_number (number n) = some n
as_number _ = none

abbrev pub is_number : Tree → Bool
is_number (number n) = true
is_number _ = false

abbrev pub from_slice : List ℕ → Option Tree
from_slice [] = none
from_slice (b ∷ bs) = some (object (member (codes "city") (text (b ∷ bs)) no_members))

pub object_smaller :
    (v : Tree) (obj : Text → Option Tree) (field : Text) (w : Tree)
    → as_object v ≡ some obj
    → obj field ≡ some w
    → size w < size v
object_smaller (object ms) obj field w p q =
    find_smaller ms field w (ap (λ f. f field) (some-injective (find ms) obj p) ∙ q)
object_smaller _ obj field w p q = cc

pub array_smaller :
    (v : Tree) (xs : List Tree) → as_array v ≡ some xs → All (λ w. size w < size v) xs
array_smaller (array xs) ys p =
    subst (λ l. All (λ w. size w < size (array xs)) l) (some-injective (items xs) ys p)
      (items_smaller xs)
array_smaller _ ys p = cc

abbrev pub trees : Json
trees = record {
  Value = Tree;
  Number = ℕ;
  as_object = as_object;
  as_array = as_array;
  as_str = as_str;
  as_bool = as_bool;
  as_number = as_number;
  is_i64 = is_number;
  is_u64 = is_number;
  is_f64 = λ v. false;
  number_text = λ n. n ∷ [];
  is_close = λ n s. false;
  from_slice = from_slice;
  size = size;
  object_smaller = object_smaller;
  array_smaller = array_smaller;
}
