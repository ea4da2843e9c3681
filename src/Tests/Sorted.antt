-- ===== src/Tests/Sorted.antt =====
-- A skip map as a sorted list.
use kind.Prelude.{
  ◌≡◌, refl, sym, subst, ◌∙◌, true, false, ◌&&◌, List, [], ◌∷◌, none, some, Text, text_eq, text_le,
  text_beq, text_beq_iff, ◌==◌, filter, if◌then◌else◌, arith, if_true, if_false, Bool-cases, inl,
  inr,
}
use kind.Prelude.Map
use kind.SkipMap.{IsAscending, SkipMap}
use kind.SkipMap.Order.{text_le_trans, text_le_antisym}

text_le_total : (a b : Text) → text_le a b ≡ false → text_le b a ≡ true
unfolding text_le
text_le_total [] b h = cc
text_le_total (x ∷ a) [] h = refl
text_le_total (x ∷ a) (y ∷ b) h = ground (arith, text_le_total a b)

module _ {V : Type 0} where
  unfoldable pub insert_sorted : Text → V → List (Text × V) → List (Text × V)
  insert_sorted k v [] = (k, v) ∷ []
  insert_sorted k v ((j, w) ∷ es) =
      let rest = insert_sorted k v es in
      if k == j then (k, v) ∷ es else if text_le k j then (k, v) ∷ (j, w) ∷ es else (j, w) ∷ rest

  pub get-insert_sorted :
      (es : List (Text × V)) (k j : Text) (v : V)
      → Map.get j (insert_sorted k v es) ≡ (if k == j then some v else Map.get j es)
  unfolding Map.get insert_sorted
  get-insert_sorted [] k j v = refl
  get-insert_sorted ((i, w) ∷ es) k j v =
      ground
        (arith, get-insert_sorted es k j v, text_beq_iff k j, text_beq_iff k i, text_beq_iff i j)

  IsAscending-replace :
      (k : Text) (v w : V) (es : List (Text × V))
      → IsAscending ((k, w) ∷ es)
      → IsAscending ((k, v) ∷ es)
  IsAscending-replace k v w [] h = tt
  IsAscending-replace k v w ((j, x) ∷ es) h = h

  IsAscending-drop :
      (j i : Text) (w x : V) (es : List (Text × V))
      → IsAscending ((j, w) ∷ (i, x) ∷ es)
      → IsAscending ((j, w) ∷ es)
  IsAscending-drop j i w x [] h = tt
  IsAscending-drop j i w x ((k, v) ∷ es) h = (
    text_le_trans j i k h.0 h.2.0,
    ground (arith, text_le_antisym j i, text_beq_iff j k, text_beq_iff j i, text_beq_iff i k),
    h.2.2,
  )

  IsAscending-insert :
      (j k : Text) (w v : V) (es : List (Text × V))
      → text_le j k ≡ true
      → (j == k) ≡ false
      → IsAscending ((j, w) ∷ es)
      → IsAscending ((j, w) ∷ insert_sorted k v es)
  unfolding insert_sorted
  IsAscending-insert j k w v [] p n h = (p, n, tt)
  IsAscending-insert j k w v ((i, x) ∷ es) p n h = elim (Bool-cases (text_beq k i)) [
    | inl same ↦
        subst (λ l. IsAscending ((j, w) ∷ l)) (sym (if_true _ _ _ same))
          (
            p,
            n,
            IsAscending-replace k v x es
                (subst (λ q. IsAscending ((q, x) ∷ es)) (sym ((text_beq_iff k i).0 same)) h.2),
          )
    | inr other ↦ elim (Bool-cases (text_le k i)) [
      | inl below ↦
          subst (λ l. IsAscending ((j, w) ∷ l)) (sym (if_false _ _ _ other ∙ if_true _ _ _ below))
            (p, n, (below, other, h.2))
      | inr above ↦
          subst (λ l. IsAscending ((j, w) ∷ l)) (sym (if_false _ _ _ other ∙ if_false _ _ _ above))
            (
              h.0,
              h.1,
              IsAscending-insert i k x v es (text_le_total k i above)
                  (ground (arith, text_beq_iff k i, text_beq_iff i k)) h.2,
            )
    ]
  ]

  pub IsAscending-insert_sorted :
      (k : Text) (v : V) (es : List (Text × V))
      → IsAscending es
      → IsAscending (insert_sorted k v es)
  unfolding insert_sorted
  IsAscending-insert_sorted k v [] h = tt
  IsAscending-insert_sorted k v ((i, x) ∷ es) h = elim (Bool-cases (text_beq k i)) [
    | inl same ↦ subst IsAscending (sym (if_true _ _ _ same)) (
        IsAscending-replace k v x es
          (subst (λ q. IsAscending ((q, x) ∷ es)) (sym ((text_beq_iff k i).0 same)) h))
    | inr other ↦ elim (Bool-cases (text_le k i)) [
      | inl below ↦
          subst IsAscending (sym (if_false _ _ _ other ∙ if_true _ _ _ below)) (below, other, h)
      | inr above ↦ subst IsAscending (sym (if_false _ _ _ other ∙ if_false _ _ _ above)) (
          IsAscending-insert i k x v es (text_le_total k i above)
            (ground (arith, text_beq_iff k i, text_beq_iff i k)) h)
    ]
  ]

  IsAscending-remove :
      (j k : Text) (w : V) (es : List (Text × V))
      → IsAscending ((j, w) ∷ es)
      → IsAscending ((j, w) ∷ Map.remove k es)
  unfolding Map.remove
  IsAscending-remove j k w [] h = h
  IsAscending-remove j k w ((i, x) ∷ es) h = elim (Bool-cases (text_beq i k)) [
    | inl same ↦
        subst (λ l. IsAscending ((j, w) ∷ l)) (sym (if_true _ _ _ same))
          (IsAscending-remove j k w es (IsAscending-drop j i w x es h))
    | inr other ↦
        subst (λ l. IsAscending ((j, w) ∷ l)) (sym (if_false _ _ _ other))
          (h.0, h.1, IsAscending-remove i k x es h.2)
  ]

  IsAscending-tail :
      (i : Text) (x : V) (es : List (Text × V)) → IsAscending ((i, x) ∷ es) → IsAscending es
  IsAscending-tail i x [] h = tt
  IsAscending-tail i x ((j, y) ∷ es) h = h.2

  pub IsAscending-removed :
      (k : Text) (es : List (Text × V)) → IsAscending es → IsAscending (Map.remove k es)
  unfolding Map.remove
  IsAscending-removed k [] h = tt
  IsAscending-removed k ((i, x) ∷ es) h = elim (Bool-cases (text_beq i k)) [
    | inl same ↦
        subst IsAscending (sym (if_true _ _ _ same))
          (IsAscending-removed k es (IsAscending-tail i x es h))
    | inr other ↦ subst IsAscending (sym (if_false _ _ _ other)) (IsAscending-remove i k x es h)
  ]

pub empty_gets : {V : Type 0} (k : Text) → Map.get {V = V} k [] ≡ none
unfolding Map.get
empty_gets k = refl

abbrev pub sorted : (V : Type 0) → SkipMap V
sorted V = record {
  Store = (es : List (Text × V)) × IsAscending es;
  empty = ([], tt);
  get = λ m k. Map.get k m.0;
  insert = λ m k v. (insert_sorted k v m.0, IsAscending-insert_sorted k v m.0 m.1);
  remove = λ m k. (Map.remove k m.0, IsAscending-removed k m.0 m.1);
  iter = λ m. m.0;
  range_from = λ m lo. filter (λ e. text_le lo e.0) m.0;
  range_between = λ m lo hi. filter (λ e. text_le lo e.0 && text_le e.0 hi) m.0;
  get-empty = empty_gets;
  get-insert = λ m k j v. get-insert_sorted m.0 k j v;
  get-remove = λ m k j. Map.get-remove k j m.0;
  get-iter = λ m k. refl;
  iter-IsAscending = λ m. m.1;
  range_from-iter = λ m lo. refl;
  range_between-iter = λ m lo hi. refl;
}
