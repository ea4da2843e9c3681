-- ===== src/Server/Reads/Filters.antt =====
-- The rules by which a value of src/server.rs matches the filters of a scan, and `matches_filters`.
use kind.Prelude.{
  ℕ, ◌≤◌, ◌≡◌, refl, sym, ap, ◌∙◌, ◌↔◌, Bool, true, false, List, [], ◌∷◌, Option, none, some, Text,
  text_beq, text_beq_iff, arith, All, codes, Bool-cases, Option-cases, inl, inr, if_false,
}
use kind.Wal.{Bytes}
use kind.Json.{Json}
use kind.Server.Record.{is_expired}
use kind.Server.State.{
  ScanFilter, bool_text, matches_number, matches_value, matches_all, matches_filters,
}

-- A record is live until the time of its expiry, that time included.
abbrev pub IsLive : ℕ → Option ℕ → Type 0
IsLive now none = Unit
IsLive now (some exp) = now ≤ exp

IsLive-complete : (now : ℕ) (t : Option ℕ) → IsLive now t → is_expired now t ≡ false
unfolding is_expired
IsLive-complete now none live = refl
IsLive-complete now (some exp) live = ground (arith, live)

IsLive-sound : (now : ℕ) (t : Option ℕ) → is_expired now t ≡ false → IsLive now t
unfolding is_expired
IsLive-sound now none h = tt
IsLive-sound now (some exp) h = ground (arith, h)

pub IsLive-iff : (now : ℕ) (t : Option ℕ) → (is_expired now t ≡ false) ↔ IsLive now t
IsLive-iff now t = (IsLive-sound now t, IsLive-complete now t)

module _ (j : Json) where
  -- A member is the wanted text, a number that prints as it or is close to it, or a Boolean of
  -- that name.
  pub data Equals (wanted : Text) (v : j.Value) : Type 0 where
    as_text : j.as_str v ≡ some wanted → Equals wanted v
    as_printed :
        (n : j.Number)
        → j.as_str v ≡ none
        → j.as_number v ≡ some n
        → j.number_text n ≡ wanted
        → Equals wanted v
    as_close :
        (n : j.Number)
        → j.as_str v ≡ none
        → j.as_number v ≡ some n
        → j.is_close n wanted ≡ true
        → Equals wanted v
    as_true :
        j.as_str v ≡ none
        → j.as_number v ≡ none
        → j.as_bool v ≡ some true
        → wanted ≡ codes "true"
        → Equals wanted v
    as_false :
        j.as_str v ≡ none
        → j.as_number v ≡ none
        → j.as_bool v ≡ some false
        → wanted ≡ codes "false"
        → Equals wanted v

  -- The object has the field of the filter, equal to its value.
  abbrev pub Fits : (Text → Option j.Value) → ScanFilter → Type 0
  Fits obj filter = (v : j.Value) × (obj filter.field ≡ some v) × Equals filter.value v

  -- Without filters any value does; otherwise it is a JSON object that fits each.
  abbrev pub Passes : Bytes → List ScanFilter → Type 0
  Passes val [] = Unit
  Passes val (f ∷ filters) =
      (v : j.Value) × (obj : Text → Option j.Value) × (j.from_slice val ≡ some v)
      × (j.as_object v ≡ some obj)
      × All (Fits obj) (f ∷ filters)

  matches_value_complete :
      (wanted : Text) (v : j.Value) → Equals wanted v → matches_value j wanted v ≡ true
  unfolding matches_value
  matches_value_complete wanted v (as_text s) = ground (arith, s, text_beq_iff wanted wanted)
  matches_value_complete wanted v (as_printed n s k e) =
      ground (arith, s, k, e, text_beq_iff (j.number_text n) wanted)
  matches_value_complete wanted v (as_close n s k e) = ground (arith, s, k, e)
  matches_value_complete wanted v (as_true s k b e) =
      ground (arith, s, k, b, e, text_beq_iff (codes "true") wanted)
  matches_value_complete wanted v (as_false s k b e) =
      ground (arith, s, k, b, e, text_beq_iff (codes "false") wanted)

  matches_number_sound :
      (wanted : Text) (v : j.Value) (n : j.Number)
      → j.as_str v ≡ none
      → j.as_number v ≡ some n
      → matches_number j wanted n ≡ true
      → Equals wanted v
  matches_number_sound wanted v n s k h = elim (Bool-cases (text_beq (j.number_text n) wanted)) [
    | inl printed ↦ as_printed n s k ((text_beq_iff (j.number_text n) wanted).0 printed)
    | inr other ↦ as_close n s k (sym (if_false _ _ _ other) ∙ h)
  ]

  matches_bool_sound :
      (wanted : Text) (v : j.Value) (b : Bool)
      → j.as_str v ≡ none
      → j.as_number v ≡ none
      → j.as_bool v ≡ some b
      → text_beq (bool_text j b) wanted ≡ true
      → Equals wanted v
  matches_bool_sound wanted v true s k b h =
      as_true s k b (sym ((text_beq_iff (codes "true") wanted).0 h))
  matches_bool_sound wanted v false s k b h =
      as_false s k b (sym ((text_beq_iff (codes "false") wanted).0 h))

  matches_value_sound :
      (wanted : Text) (v : j.Value) → matches_value j wanted v ≡ true → Equals wanted v
  unfolding matches_value
  matches_value_sound wanted v h = elim (Option-cases (j.as_str v)) [
    | inr (t, s) ↦ as_text (s ∙ ap some ((text_beq_iff t wanted).0 (ground (arith, h, s))))
    | inl s ↦ elim (Option-cases (j.as_number v)) [
      | inr (n, k) ↦ matches_number_sound wanted v n s k (ground (arith, h, s, k))
      | inl k ↦ elim (Option-cases (j.as_bool v)) [
        | inr (b, is) ↦ matches_bool_sound wanted v b s k is (ground (arith, h, s, k, is))
        | inl is ↦ absurd (ground (arith, h, s, k, is))
      ]
    ]
  ]

  matches_all_sound :
      (obj : Text → Option j.Value) (filters : List ScanFilter)
      → matches_all j obj filters ≡ true
      → All (Fits obj) filters
  unfolding matches_all
  matches_all_sound obj [] h = tt
  matches_all_sound obj (f ∷ filters) h = elim (Option-cases (obj f.field)) [
    | inl missing ↦ absurd (ground (arith, h, missing))
    | inr (v, there) ↦
        let member : matches_value j f.value v ≡ true = ground (arith, h, there) in
        (
          (v, there, matches_value_sound f.value v member),
          matches_all_sound obj filters (ground (arith, h, there, member)),
        )
  ]

  matches_all_complete :
      (obj : Text → Option j.Value) (filters : List ScanFilter)
      → All (Fits obj) filters
      → matches_all j obj filters ≡ true
  unfolding matches_all
  matches_all_complete obj [] fits = refl
  matches_all_complete obj (f ∷ filters) ((v, there, equals), rest) =
      let member = matches_value_complete f.value v equals in
      rw (there, member, matches_all_complete obj filters rest) refl

  matches_filters_sound :
      (val : Bytes) (filters : List ScanFilter)
      → matches_filters j val filters ≡ true
      → Passes val filters
  unfolding matches_filters
  matches_filters_sound val [] h = tt
  matches_filters_sound val (f ∷ filters) h = elim (Option-cases (j.from_slice val)) [
    | inl bad ↦ absurd (ground (arith, h, bad))
    | inr (v, parsed) ↦ elim (Option-cases (j.as_object v)) [
      | inl other ↦ absurd (ground (arith, h, parsed, other))
      | inr (obj, is) ↦
          (v, obj, parsed, is, matches_all_sound obj (f ∷ filters) (ground (arith, h, parsed, is)))
    ]
  ]

  matches_filters_complete :
      (val : Bytes) (filters : List ScanFilter)
      → Passes val filters
      → matches_filters j val filters ≡ true
  unfolding matches_filters
  matches_filters_complete val [] passes = refl
  matches_filters_complete val (f ∷ filters) (v, obj, parsed, is, fits) =
      ground (arith, parsed, is, matches_all_complete obj (f ∷ filters) fits)

  pub matches_filters-Passes :
      (val : Bytes) (filters : List ScanFilter)
      → (matches_filters j val filters ≡ true) ↔ Passes val filters
  matches_filters-Passes val filters =
      (matches_filters_sound val filters, matches_filters_complete val filters)
