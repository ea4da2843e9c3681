-- ===== src/Json.antt =====
-- `serde_json`, which the program calls and does not contain: the type of values, the accessors
-- that the program uses, and what it relies on. A value is a finite tree, so its members are
-- smaller than it is.
use kind.Prelude.{ℕ, ◌<◌, ◌≡◌, Bool, List, All, Option, some, Text}

pub record Json : Type 1 where
  pub Value : Type 0
  pub Number : Type 0
  -- `as_object`, as its `get`.
  pub as_object : Value → Option (Text → Option Value)
  pub as_array : Value → Option (List Value)
  pub as_str : Value → Option Text
  pub as_bool : Value → Option Bool
  pub as_number : Value → Option Number
  pub is_i64 : Value → Bool
  pub is_u64 : Value → Bool
  pub is_f64 : Value → Bool
  -- `Number::to_string`.
  pub number_text : Number → Text
  -- `(n.as_f64(), text.parse::<f64>())`, both there and less than `f64::EPSILON` apart.
  pub is_close : Number → Text → Bool
  -- `serde_json::from_slice`; `none` is its error.
  pub from_slice : List ℕ → Option Value
  pub size : Value → ℕ
  pub object_smaller :
      (v : Value) (obj : Text → Option Value) (field : Text) (w : Value)
      → as_object v ≡ some obj
      → obj field ≡ some w
      → size w < size v
  pub array_smaller :
      (v : Value) (items : List Value) → as_array v ≡ some items → All (λ w. size w < size v) items
