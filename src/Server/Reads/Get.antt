-- ===== src/Server/Reads/Get.antt =====
-- `get` of src/server.rs.
use mathlib.Core.Path.{ap₂}
use kind.Prelude.{
  ℕ, ◌≡◌, refl, sym, ap, ◌∙◌, subst, Option, none, some, Text, text_eq, text_beq_iff, ◌==◌,
  Bool-cases, Option-cases, inl, inr, if_true, if_false, if◌then◌else◌,
}
use kind.Prelude.Result.{Result, ok, err}
use kind.Wal.{Bytes}
use kind.Server.Record.{DbRecord, is_expired}
use kind.Server.State.{Platform, KindServer}
use kind.Server.Index.{remove_record_from_index}
use kind.Server.Index.Exact.{IsExactFor-remove}
use kind.Server.Effects.{Status, not_found, lookup, tree_remove}
use kind.Server.Sound.{IsSound, IsCoherent, Stands, IsExactFor-cong}
use kind.Server.Reads.{RecordMessage, message, get_stored, get_from, get_request}

-- The answer that the tree's entry calls for: the record, unless it is not there or has expired.
abbrev pub answer : ℕ → Text → Option DbRecord → Result Status RecordMessage
answer now key none = err not_found
answer now key (some rec) =
    if is_expired now rec.expires_at then err not_found else ok (message key rec)

abbrev pub live : ℕ → Option DbRecord → Option DbRecord
live now none = none
live now (some rec) = if is_expired now rec.expires_at then none else some rec

-- To write back the entry that is there changes nothing.
write_back :
    (f : Text → Option DbRecord) (key k : Text) {o : Option DbRecord}
    → f key ≡ o
    → f k ≡ (if key == k then o else f k)
write_back f key k h = elim (Bool-cases (key == k)) [
  | inl same ↦ ap f (sym ((text_beq_iff key k).0 same)) ∙ h ∙ sym (if_true _ _ _ same)
  | inr other ↦ sym (if_false _ _ _ other)
]

module _ (p : Platform) where
  -- What `get` leaves: an expired record of its key is gone, and nothing else changes.
  pub record Gets (now : ℕ) (key : Text) (s s' : KindServer p) : Type 0 where
    pub sound : IsSound p s'
    pub coherent : IsCoherent p s'
    pub lookups :
        (k : Text) → lookup p k s' ≡ (if key == k then live now (lookup p key s) else lookup p k s)
    pub same_version : s'.global_version ≡ s.global_version
    pub same_role : s'.is_replica ≡ s.is_replica

  -- A key that the cache does not hold may leave the tree.
  pub Stands-remove :
      (s : KindServer p) (key k : Text)
      → p.caches.peek s.cache key ≡ none
      → Stands p (p.caches.peek s.cache k) (lookup p k s)
      → Stands p (p.caches.peek s.cache k) (p.records.get (p.records.remove s.tree key) k)
  Stands-remove s key k miss stands = elim (Bool-cases (key == k)) [
    | inl same ↦
        subst (λ o. Stands p o (p.records.get (p.records.remove s.tree key) k))
          (sym (ap (p.caches.peek s.cache) (sym ((text_beq_iff key k).0 same)) ∙ miss)) tt
    | inr other ↦
        subst (Stands p (p.caches.peek s.cache k))
          (sym (p.records.get-remove s.tree key k ∙ if_false _ _ _ other)) stands
  ]

  module _ (now : ℕ) (key : Text) (s : KindServer p) (sound : IsSound p s)
      (coherent : IsCoherent p s) where
    -- A miss of the cache, `o` the tree's entry.
    get_stored-Gets :
        (o : Option DbRecord)
        → lookup p key s ≡ o
        → p.caches.peek s.cache key ≡ none
        → (s' : KindServer p) × (get_stored p now key o s ≡ some (s', answer now key o))
          × Gets now key s s'
    unfolding get_stored tree_remove remove_record_from_index
    get_stored-Gets none missing miss = (
      s,
      refl,
      record {
        sound = sound;
        coherent = coherent;
        lookups = λ k. write_back (λ j. lookup p j s) key k (missing ∙ sym (ap (live now) missing));
        same_version = refl;
        same_role = refl;
      },
    )
    get_stored-Gets (some rec) there miss = elim (Bool-cases (is_expired now rec.expires_at)) [
      | inl expired ↦ (
        tree_remove p key (remove_record_from_index p key rec.value s),
        if_true _ _ _ expired
            ∙ ap (λ a. some (tree_remove p key (remove_record_from_index p key rec.value s), a))
                (sym (if_true _ _ _ expired)),
        record {
          sound = record {
            cache = sound.cache;
            exact =
                IsExactFor-cong p s.schema_registry _ (λ k. if key == k then none else lookup p k s)
                  _ (λ k. sym (p.records.get-remove s.tree key k))
                  (IsExactFor-remove p s.schema_registry s.indexes (λ k. lookup p k s) key rec there
                    sound.exact);
          };
          coherent = λ k. Stands-remove s key k miss (coherent k);
          lookups = λ k.
              p.records.get-remove s.tree key k
              ∙ ap (λ o. if key == k then o else lookup p k s)
                  (sym (ap (live now) there ∙ if_true _ _ _ expired));
          same_version = refl;
          same_role = refl;
        },
      )
      | inr fresh ↦ (
        s,
        if_false _ _ _ fresh ∙ ap (λ a. some (s, a)) (sym (if_false _ _ _ fresh)),
        record {
          sound = sound;
          coherent = coherent;
          lookups = λ k.
              write_back (λ j. lookup p j s) key k
                (there ∙ sym (ap (live now) there ∙ if_false _ _ _ fresh));
          same_version = refl;
          same_role = refl;
        },
      )
    ]

    -- A hit of the cache: the entry of the tree is the one that the cached value stands for.
    get_from-Gets :
        (hit : Option Bytes)
        → p.caches.peek s.cache key ≡ hit
        → (s' : KindServer p) × (get_from p now key hit s
            ≡ some (s', answer now key (lookup p key s)))
          × Gets now key s s'
    unfolding is_expired
    get_from-Gets none miss = get_stored-Gets (lookup p key s) refl miss
    get_from-Gets (some val) hit = elim (Option-cases (lookup p key s)) [
      | inl missing ↦ absurd (
          subst (λ o. Stands p o none) hit
            (subst (Stands p (p.caches.peek s.cache key)) missing (coherent key)))
      | inr (rec, there) ↦
          let stands : Stands p (some val) (some rec) =
            subst (λ o. Stands p o (some rec)) hit
              (subst (Stands p (p.caches.peek s.cache key)) there (coherent key)) in
          let fresh = ap (is_expired now) stands.1 in
          (
            s,
            ap (λ a. some (s, a))
                (ap₂ (λ v t. ok (record { key = key; value = v; expires_at = t })) (sym stands.0)
                    (sym stands.1)
                  ∙ sym (if_false _ _ _ fresh)
                  ∙ ap (answer now key) (sym there)),
            record {
              sound = sound;
              coherent = coherent;
              lookups = λ k.
                  write_back (λ j. lookup p j s) key k
                    (there ∙ sym (ap (live now) there ∙ if_false _ _ _ fresh));
              same_version = refl;
              same_role = refl;
            },
          )
    ]

  -- On a sound server whose cache agrees with its tree, a get always returns. It answers with the
  -- record of the tree, or that there is none if the record is missing or has expired. The server
  -- stays sound and its cache keeps agreeing; an expired record of the key leaves the tree, and no
  -- other entry of the tree, nor the version, changes.
  pub get_request-Gets :
      (now : ℕ) (key : Text) (s : KindServer p)
      → IsSound p s
      → IsCoherent p s
      → (s' : KindServer p) × (get_request p now key s ≡ some (s', answer now key (lookup p key s)))
        × Gets now key s s'
  unfolding get_request
  get_request-Gets now key s sound coherent =
      let (c, hits, valid, same) = p.caches.get_returns s.cache key sound.cache in
      let s1 = record s { cache = c } in
      let (s', returns, gets) =
        get_from-Gets now key s1 (record { cache = valid; exact = sound.exact })
          (λ k. subst (λ o. Stands p o (lookup p k s)) (sym (same k)) (coherent k))
          (p.caches.peek s.cache key) (same key) in
      (
        s',
        rw hits returns,
        record {
          sound = gets.sound;
          coherent = gets.coherent;
          lookups = gets.lookups;
          same_version = gets.same_version;
          same_role = gets.same_role;
        },
      )
