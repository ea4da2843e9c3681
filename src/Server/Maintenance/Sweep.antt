-- ===== src/Server/Maintenance/Sweep.antt =====
-- One tick of the eviction task of `run_server`, src/server.rs.
use kind.Prelude.{
  ℕ, ◌≡◌, refl, sym, ap, ◌∙◌, subst, true, false, List, [], ◌∷◌, Option, none, some, Text, text_eq,
  text_beq_iff, ◌==◌, arith, is_some, Option-cases, inl, inr, if_true, if_false, false-ne-true,
  if◌then◌else◌,
}
use kind.Prelude.Map
use kind.SkipMap.Order.{IsAscending-IsMap}
use kind.Server.Record.{DbRecord, is_expired}
use kind.Server.State.{Platform, KindServer}
use kind.Server.Index.{remove_record_from_index}
use kind.Server.Index.Exact.{IsExactFor-remove}
use kind.Server.Effects.{lookup, tree_remove}
use kind.Server.Sound.{IsSound, IsCoherent, Stands, IsExactFor-cong}
use kind.Server.Reads.Get.{live, Stands-remove}
use kind.Server.Maintenance.{expired_entries, evict_entries, sweep}

module _ (p : Platform) (now : ℕ) where
  abbrev if_expired : Option DbRecord → Option DbRecord
  if_expired none = none
  if_expired (some rec) = if is_expired now rec.expires_at then some rec else none

  live_or_expired :
      (o : Option DbRecord) → (if is_some (if_expired o) then none else o) ≡ live now o
  live_or_expired none = refl
  live_or_expired (some rec) = ground arith

  get-expired_entries :
      (es : List (Text × DbRecord)) (k : Text)
      → Map.IsMap es
      → Map.get k (expired_entries p now es) ≡ if_expired (Map.get k es)
  unfolding expired_entries Map.get
  get-expired_entries [] k h = refl
  get-expired_entries ((j, rec) ∷ es) k h =
      ground (arith, get-expired_entries es k h.1, text_beq_iff j k)

  IsMap-expired_entries :
      (es : List (Text × DbRecord)) → Map.IsMap es → Map.IsMap (expired_entries p now es)
  unfolding expired_entries
  IsMap-expired_entries [] h = tt
  IsMap-expired_entries ((j, rec) ∷ es) h =
      ground (arith, IsMap-expired_entries es h.1, get-expired_entries es j h.1)

  -- The entries are expired records of the tree.
  abbrev pub Stored : List (Text × DbRecord) → KindServer p → Type 0
  Stored es s =
      (k : Text) (rec : DbRecord)
      → Map.get k es ≡ some rec
      → (lookup p k s ≡ some rec) × (is_expired now rec.expires_at ≡ true)

  -- The server is `s` without the entries.
  record Evicted (es : List (Text × DbRecord)) (s s' : KindServer p) : Type 0 where
    sound : IsSound p s'
    coherent : IsCoherent p s'
    lookups : (k : Text) → lookup p k s' ≡ (if Map.contains_key k es then none else lookup p k s)

  abbrev without_entry : Text → DbRecord → KindServer p → KindServer p
  without_entry key rec s = tree_remove p key (remove_record_from_index p key rec.value s)

  -- An expired record is not cached.
  not_cached :
      (s : KindServer p) (key : Text) (rec : DbRecord)
      → IsCoherent p s
      → lookup p key s ≡ some rec
      → is_expired now rec.expires_at ≡ true
      → p.caches.peek s.cache key ≡ none
  unfolding is_expired
  not_cached s key rec coherent there expired = elim (Option-cases (p.caches.peek s.cache key)) [
    | inl miss ↦ miss
    | inr (v, hit) ↦
        let stands : Stands p (some v) (some rec) =
          subst (λ o. Stands p o (some rec)) hit
            (subst (Stands p (p.caches.peek s.cache key)) there (coherent key)) in
        absurd (false-ne-true (sym (ap (is_expired now) stands.1) ∙ expired))
  ]

  Stored-tail :
      (key : Text) (rec : DbRecord) (es : List (Text × DbRecord)) (s : KindServer p)
      → Map.contains_key key es ≡ false
      → Stored ((key, rec) ∷ es) s
      → Stored es (without_entry key rec s)
  unfolding tree_remove remove_record_from_index Map.get
  Stored-tail key rec es s absent stored k r there =
      let other : (key == k) ≡ false = ground (arith, absent, there, text_beq_iff key k) in
      let before = stored k r (if_false _ _ _ other ∙ there) in
      (p.records.get-remove s.tree key k ∙ if_false _ _ _ other ∙ before.0, before.1)

  Evicted-one :
      (key : Text) (rec : DbRecord) (s : KindServer p)
      → lookup p key s ≡ some rec
      → is_expired now rec.expires_at ≡ true
      → IsSound p s
      → IsCoherent p s
      → Evicted ((key, rec) ∷ []) s (without_entry key rec s)
  unfolding tree_remove remove_record_from_index Map.get
  Evicted-one key rec s there expired sound coherent = record {
    sound = record {
      cache = sound.cache;
      exact =
          IsExactFor-cong p s.schema_registry _ (λ k. if key == k then none else lookup p k s) _
            (λ k. sym (p.records.get-remove s.tree key k))
            (IsExactFor-remove p s.schema_registry s.indexes (λ k. lookup p k s) key rec there
              sound.exact);
    };
    coherent =
        λ k. Stands-remove p s key k (not_cached s key rec coherent there expired) (coherent k);
    lookups = λ k. p.records.get-remove s.tree key k ∙ ground arith;
  }

  evict_entries-Evicted :
      (es : List (Text × DbRecord)) (s : KindServer p)
      → Map.IsMap es
      → Stored es s
      → IsSound p s
      → IsCoherent p s
      → Evicted es s (evict_entries p now es s)
  unfolding evict_entries Map.get
  evict_entries-Evicted [] s h stored sound coherent = record {
    sound = sound;
    coherent = coherent;
    lookups = λ k. refl;
  }
  evict_entries-Evicted ((key, rec) ∷ es) s h stored sound coherent =
      let (there, expired) = stored key rec (if_true _ _ _ ((text_beq_iff key key).1 refl)) in
      let one = Evicted-one key rec s there expired sound coherent in
      let rest =
        evict_entries-Evicted es (without_entry key rec s) h.1 (Stored-tail key rec es s h.0 stored)
          one.sound one.coherent in
      record {
        sound = rest.sound;
        coherent = rest.coherent;
        lookups = λ k. ground (arith, rest.lookups k, one.lookups k, h.0, text_beq_iff key k);
      }

  Stored-expired_entries :
      (s : KindServer p) → Stored (expired_entries p now (p.records.iter s.tree)) s
  unfolding Map.get
  Stored-expired_entries s k rec there =
      let es = p.records.iter s.tree in
      let found : if_expired (lookup p k s) ≡ some rec =
        ap if_expired (sym (p.records.get-iter s.tree k))
        ∙ sym (get-expired_entries es k (IsAscending-IsMap es (p.records.iter-IsAscending s.tree)))
        ∙ there in
      elim (Option-cases (lookup p k s)) [
        | inl missing ↦ ground (arith, missing, found)
        | inr (r, stored) ↦ ground (arith, stored, found)
      ]

  -- On a sound server whose cache agrees with its tree, a tick of the eviction task removes
  -- exactly the records that have expired, and leaves the server sound and its cache agreeing.
  pub sweep_removes_expired :
      (s : KindServer p)
      → IsSound p s
      → IsCoherent p s
      → IsSound p (sweep p now s)
        × IsCoherent p (sweep p now s)
        × ((k : Text) → lookup p k (sweep p now s) ≡ live now (lookup p k s))
  unfolding sweep
  sweep_removes_expired s sound coherent =
      let es = p.records.iter s.tree in
      let is_map = IsAscending-IsMap es (p.records.iter-IsAscending s.tree) in
      let done =
        evict_entries-Evicted (expired_entries p now es) s (IsMap-expired_entries es is_map)
          (Stored-expired_entries s) sound coherent in
      (
        done.sound,
        done.coherent,
        λ k.
            done.lookups k
            ∙ ap (λ (e : Option DbRecord). if is_some e then none else lookup p k s)
                (get-expired_entries es k is_map ∙ ap if_expired (p.records.get-iter s.tree k))
            ∙ live_or_expired (lookup p k s),
      )
