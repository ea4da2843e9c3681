-- ===== src/Server/Reads/Range.antt =====
-- `range_scan` of src/server.rs, and `db_range_scan` and `prefix_scan` of the server's own interface.
use kind.Prelude.{
  sym, false-ne-true, is_some, if_true, if_false, ℕ, ◌≡◌, refl, ap, ◌∙◌, Bool, true, false, ◌&&◌,
  ◌↔◌, List, [], ◌∷◌, Option, none, some, Text, text_eq, text_beq_iff, ◌==◌, arith, filter, text_le,
  if◌then◌else◌, Bool-cases, inl, inr,
}
use kind.Prelude.Map
use kind.SkipMap.Order.{IsAscending-IsMap}
use kind.Server.Record.{DbRecord, is_expired}
use kind.Server.State.{Platform, KindServer, ScanFilter, matches_filters}
use kind.Server.Effects.{lookup}
use kind.Server.Reads.Filters.{IsLive, IsLive-iff, Passes, matches_filters-Passes}
use kind.Server.Reads.{RecordMessage, message, is_result, collect, range_scan}

-- The message of a key in a reply.
unfoldable pub find_message : Text → List RecordMessage → Option RecordMessage
find_message k [] = none
find_message k (m ∷ ms) = let rest = find_message k ms in if m.key == k then some m else rest

get-filter :
    (t : Text → Bool) (k : Text) (es : List (Text × DbRecord))
    → Map.get k (filter (λ e. t e.0) es) ≡ (if t k then Map.get k es else none)
unfolding Map.get filter
get-filter t k [] = ground arith
get-filter t k ((j, rec) ∷ es) = elim (Bool-cases (j == k)) [
  | inl same ↦ ground (arith, same, get-filter t k es, ap t ((text_beq_iff j k).0 same))
  | inr other ↦ ground (arith, other, get-filter t k es)
]

IsMap-filter :
    (t : Text → Bool) (es : List (Text × DbRecord))
    → Map.IsMap es
    → Map.IsMap (filter (λ e. t e.0) es)
unfolding filter
IsMap-filter t [] distinct = tt
IsMap-filter t ((j, rec) ∷ es) distinct =
    ground (arith, IsMap-filter t es distinct.1, get-filter t j es, distinct.0)

module _ (p : Platform) (now : ℕ) (filters : List ScanFilter) where
  -- The reply for an entry.
  abbrev result : Text → Option DbRecord → Option RecordMessage
  result k none = none
  result k (some rec) = if is_result p now filters rec then some (message k rec) else none

  result-if :
      (b : Bool) (k : Text) (o : Option DbRecord)
      → result k (if b then o else none) ≡ (if b then result k o else none)
  result-if true k o = refl
  result-if false k o = refl

  find_message-collect :
      (k : Text) (es : List (Text × DbRecord))
      → Map.IsMap es
      → find_message k (collect p now filters es) ≡ result k (Map.get k es)
  unfolding find_message collect Map.get
  find_message-collect k [] distinct = refl
  find_message-collect k ((j, rec) ∷ es) distinct =
      ground (arith, find_message-collect k es distinct.1, text_beq_iff j k, distinct.0)

  find_message-range_scan :
      (lo hi k : Text) (s : KindServer p)
      → find_message k (range_scan p now lo hi filters s)
        ≡ (if text_le lo k && text_le k hi then result k (lookup p k s) else none)
  unfolding range_scan
  find_message-range_scan lo hi k s =
      let t = λ (j : Text). text_le lo j && text_le j hi in
      let es = p.records.iter s.tree in
      let distinct = IsMap-filter t es (IsAscending-IsMap es (p.records.iter-IsAscending s.tree)) in
      ap (λ xs. find_message k (collect p now filters xs))
        (p.records.range_between-iter s.tree lo hi)
      ∙ find_message-collect k (filter (λ e. t e.0) es) distinct
      ∙ ap (result k)
          (get-filter t k es ∙ ap (λ o. if t k then o else none) (p.records.get-iter s.tree k))
      ∙ result-if (t k) k (lookup p k s)

  -- What a scan answers for a key: the message of a record that is stored, live, and passes.
  pub record Found (lo hi k : Text) (s : KindServer p) (m : RecordMessage) : Type 0 where
    pub from_lo : text_le lo k ≡ true
    pub to_hi : text_le k hi ≡ true
    pub stored : DbRecord
    pub there : lookup p k s ≡ some stored
    pub live : IsLive now stored.expires_at
    pub passes : Passes p.json stored.value filters
    pub shown : m ≡ record { key = k; value = stored.value; expires_at = stored.expires_at }

  live_and_matching :
      (expired matching : Bool)
      → (if expired then false else matching) ≡ true
      → (expired ≡ false) × (matching ≡ true)
  live_and_matching true matching h = absurd (false-ne-true h)
  live_and_matching false matching h = (refl, h)

  result_sound :
      (a b : Bool) (k : Text) (o : Option DbRecord) (m : RecordMessage)
      → (if a && b then result k o else none) ≡ some m
      → (a ≡ true)
        × (b ≡ true)
        × (rec : DbRecord) × (o ≡ some rec)
        × (is_result p now filters rec ≡ true)
        × (m ≡ message k rec)
  result_sound true true k (some rec) m h = elim (Bool-cases (is_result p now filters rec)) [
    | inl found ↦ (refl, refl, rec, refl, found, cc (sym (if_true _ _ _ found) ∙ h))
    | inr left_out ↦ absurd (false-ne-true (ap is_some (sym (if_false _ _ _ left_out) ∙ h)))
  ]
  result_sound true true k none m h = absurd (false-ne-true (ap is_some h))
  result_sound true false k o m h = absurd (false-ne-true (ap is_some h))
  result_sound false b k o m h = absurd (false-ne-true (ap is_some h))

  -- A range scan answers for a key with a message exactly when the key lies between the bounds,
  -- both included, a record is stored under it whose expiry is not before the clock, its value
  -- passes the filters by their rules, and the message has the key, the value and the expiry of
  -- this record. By the rules any value passes no filters, and otherwise it is a JSON object that
  -- has each field with the wanted text, a number that prints as it or is close to it, or a
  -- Boolean of that name.
  pub range_scan_lem :
      (lo hi k : Text) (s : KindServer p) (m : RecordMessage)
      → (find_message k (range_scan p now lo hi filters s) ≡ some m) ↔ Found lo hi k s m
  range_scan_lem lo hi k s m =
      let finds = find_message-range_scan lo hi k s in
      (
        λ h.
            let (from, to, rec, there, result, shown) =
              result_sound (text_le lo k) (text_le k hi) k (lookup p k s) m (sym finds ∙ h) in
            let (alive, matching) =
              live_and_matching (is_expired now rec.expires_at)
                (matches_filters p.json rec.value filters) result in
            record {
              from_lo = from;
              to_hi = to;
              stored = rec;
              there = there;
              live = (IsLive-iff now rec.expires_at).0 alive;
              passes = (matches_filters-Passes p.json rec.value filters).0 matching;
              shown = shown;
            },
        λ found.
            let alive = (IsLive-iff now found.stored.expires_at).1 found.live in
            let matching =
              (matches_filters-Passes p.json found.stored.value filters).1 found.passes in
            finds
            ∙ ground (arith, found.from_lo, found.to_hi)
            ∙ ap (result k) found.there
            ∙ if_true _ _ _ (if_false _ _ _ alive ∙ matching)
            ∙ ap some (sym found.shown),
      )
