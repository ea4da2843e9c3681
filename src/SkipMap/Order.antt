-- ===== src/SkipMap/Order.antt =====
-- The order of texts, and what the order of an iterator gives.
use kind.Prelude.{
  ◌≡◌, refl, true, false, List, [], ◌∷◌, Text, text_eq, text_beq_iff, text_le, starts_with, ◌==◌,
  arith,
}
use kind.Prelude.Map
use kind.SkipMap.{IsAscending}

pub text_le_refl : (a : Text) → text_le a a ≡ true
unfolding text_le
text_le_refl [] = refl
text_le_refl (x ∷ a) = ground (arith, text_le_refl a)

pub text_le_trans : (a b c : Text) → text_le a b ≡ true → text_le b c ≡ true → text_le a c ≡ true
unfolding text_le
text_le_trans [] b c p q = refl
text_le_trans (x ∷ a) [] c p q = cc
text_le_trans (x ∷ a) (y ∷ b) [] p q = cc
text_le_trans (x ∷ a) (y ∷ b) (z ∷ c) p q = ground (arith, text_le_trans a b c)

pub text_le_antisym : (a b : Text) → text_le a b ≡ true → text_le b a ≡ true → a ≡ b
unfolding text_le
text_le_antisym [] [] p q = refl
text_le_antisym [] (y ∷ b) p q = cc
text_le_antisym (x ∷ a) [] p q = cc
text_le_antisym (x ∷ a) (y ∷ b) p q = ground (arith, text_le_antisym a b)

-- A key between a prefix and a key that has the prefix has it too.
pub starts_with-between :
    (a b prefix : Text)
    → text_le prefix a ≡ true
    → text_le a b ≡ true
    → starts_with b prefix ≡ true
    → starts_with a prefix ≡ true
unfolding text_le starts_with
starts_with-between [] b [] p q h = refl
starts_with-between (x ∷ a) b [] p q h = refl
starts_with-between [] b (z ∷ ps) p q h = cc
starts_with-between (x ∷ a) [] (z ∷ ps) p q h = cc
starts_with-between (x ∷ a) (y ∷ b) (z ∷ ps) p q h = ground (arith, starts_with-between a b ps)

-- A key with a prefix is not below it.
pub text_le-starts_with : (a prefix : Text) → starts_with a prefix ≡ true → text_le prefix a ≡ true
unfolding text_le starts_with
text_le-starts_with a [] h = refl
text_le-starts_with [] (z ∷ ps) h = cc
text_le-starts_with (x ∷ a) (z ∷ ps) h = ground (arith, text_le-starts_with a ps)

module _ {ℓ} {V : Type ℓ} where
  -- A key below the first one of an ascending list is not in it.
  pub absent_below :
      (k : Text) (es : List (Text × V)) (j : Text) (v : V)
      → text_le k j ≡ true
      → (k == j) ≡ false
      → IsAscending ((j, v) ∷ es)
      → Map.contains_key k ((j, v) ∷ es) ≡ false
  unfolding Map.get
  absent_below k [] j v p n h = ground (arith, text_beq_iff j k, text_beq_iff k j)
  absent_below k ((i, w) ∷ es) j v p n h = ground (
    arith,
    absent_below k es i w (text_le_trans k j i p h.0),
    text_le_antisym k j,
    text_beq_iff j k,
    text_beq_iff k j,
    text_beq_iff k i,
  )

  -- The keys of an ascending list are distinct.
  pub IsAscending-IsMap : (es : List (Text × V)) → IsAscending es → Map.IsMap es
  unfolding Map.get
  IsAscending-IsMap [] h = tt
  IsAscending-IsMap ((k, v) ∷ []) h = (refl, tt)
  IsAscending-IsMap ((k, v) ∷ (j, w) ∷ es) h =
      (absent_below k es j w h.0 h.1 h.2, IsAscending-IsMap ((j, w) ∷ es) h.2)
