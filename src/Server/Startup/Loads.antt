-- ===== src/Server/Startup/Loads.antt =====
-- `KindServerImpl::new` of src/server.rs: the lines of a snapshot are loaded.
use mathlib.Core.List.{append_assoc}
use kind.Prelude.{
  ℕ, ◌≡◌, refl, sym, ap, ◌∙◌, subst, true, false, List, [], ◌∷◌, ◌++◌, Option, none, some, Text,
  text_eq, text_beq_iff, ◌==◌, arith, is_some, contains, nat_eq, max, Bool-cases, inl, inr, if_true,
  if_false, if◌then◌else◌,
}
use kind.Prelude.Map
use kind.Wal.Lines.{lines, lines-append, lines-line, IsClosed-line}
use kind.Server.Record.{DbRecord, is_expired}
use kind.Server.State.{Platform, KindServer}
use kind.Server.Index.{index_record}
use kind.Server.Effects.{lookup, tree_insert}
use kind.Server.Sound.{IsSound, IsExactFor-cong, index_record-IsExactFor}
use kind.Server.Reads.Get.{live}
use kind.Server.Maintenance.{snapshot_text}
use kind.Server.Startup.{enter, load_record, load_line, load_lines}

-- A line in front of the rest of a file.
lines-cons :
    (l rest : Text)
    → contains l b'\n' ≡ false
    → contains l b'\r' ≡ false
    → lines (l ++ (b'\n' ∷ rest)) ≡ l ∷ lines rest
lines-cons l rest n r =
    ap lines (sym (append_assoc l (b'\n' ∷ []) rest))
    ∙ lines-append (l ++ b'\n' ∷ []) rest (IsClosed-line l)
    ∙ ap (λ x. x ++ lines rest) (lines-line l n r)

module _ (p : Platform) (saved now : ℕ) where
  -- The record that survives a snapshot and a start.
  abbrev pub kept : Option DbRecord → Option DbRecord
  kept o = live now (live saved o)

  enter-IsSound :
      (key : Text) (rec : DbRecord) (s : KindServer p)
      → lookup p key s ≡ none
      → IsSound p s
      → IsSound p (enter p now key rec s)
  unfolding enter tree_insert index_record
  enter-IsSound key rec s absent sound = record {
    cache = sound.cache;
    exact =
        IsExactFor-cong p s.schema_registry _ (λ k. if key == k then some rec else lookup p k s) _
          (λ k. sym (p.records.get-insert s.tree key k rec))
          (index_record-IsExactFor p key rec s (λ k. lookup p k s) absent sound.exact);
  }

  -- The server is `s` with the entries that survive.
  pub record Loads (es : List (Text × DbRecord)) (s s' : KindServer p) : Type 0 where
    pub sound : IsSound p s'
    pub lookups :
        (k : Text)
        → lookup p k s' ≡ (if Map.contains_key k es then kept (Map.get k es) else lookup p k s)
    pub same_cache : s'.cache ≡ s.cache

  abbrev AllAbsent : List (Text × DbRecord) → KindServer p → Type 0
  AllAbsent es s = (k : Text) → Map.contains_key k es ≡ true → lookup p k s ≡ none

  -- One entry, at the time of the start.
  load_record-Loads :
      (key : Text) (rec : DbRecord) (s : KindServer p)
      → lookup p key s ≡ none
      → is_expired saved rec.expires_at ≡ false
      → IsSound p s
      → Loads ((key, rec) ∷ []) s (load_record p now (some (key, rec)) s)
  unfolding Map.get enter tree_insert index_record
  load_record-Loads key rec s absent alive sound =
      elim (Bool-cases (is_expired now rec.expires_at)) [
        | inl stale ↦ subst (Loads ((key, rec) ∷ []) s) (sym (if_true _ _ _ stale)) (record {
          sound = sound;
          lookups = λ k. ground (arith, text_beq_iff key k, absent, stale, alive);
          same_cache = refl;
        })
        | inr fresh ↦
            let s1 : KindServer p = record s {
              global_version = max s.global_version rec.version;
            } in
            subst (Loads ((key, rec) ∷ []) s) (sym (if_false _ _ _ fresh)) (record {
              sound =
                  enter-IsSound key rec s1 absent
                    (record { cache = sound.cache; exact = sound.exact });
              lookups = λ k.
                  p.records.get-insert s.tree key k rec
                  ∙ ground (arith, fresh, alive, text_beq_iff key k);
              same_cache = refl;
            })
      ]

  -- The line of a record is read as the record.
  load_line-record_text :
      (key : Text) (rec : DbRecord) (s : KindServer p)
      → load_line p now (p.snapshots.record_text key rec) s ≡ load_record p now (some (key, rec)) s
  unfolding load_line
  load_line-record_text key rec s =
      if_false _ _ _ (p.snapshots.not_blank key rec)
      ∙ ap (λ o. load_record p now o s) (p.snapshots.record_of-record_text key rec)

  load_lines-record_text :
      (key : Text) (rec : DbRecord) (file : Text) (s : KindServer p)
      → load_lines p now (lines (p.snapshots.record_text key rec ++ (b'\n' ∷ file))) s
        ≡ load_lines p now (lines file) (load_record p now (some (key, rec)) s)
  unfolding load_lines
  load_lines-record_text key rec file s =
      ap (λ ls. load_lines p now ls s)
        (lines-cons _ file (p.snapshots.no_newline key rec) (p.snapshots.no_return key rec))
      ∙ ap (load_lines p now (lines file)) (load_line-record_text key rec s)

  Loads-skip :
      (key : Text) (rec : DbRecord) (es : List (Text × DbRecord)) (s s' : KindServer p)
      → Map.contains_key key es ≡ false
      → lookup p key s ≡ none
      → is_expired saved rec.expires_at ≡ true
      → Loads es s s'
      → Loads ((key, rec) ∷ es) s s'
  unfolding Map.get
  Loads-skip key rec es s s' new_key absent dead rest = record {
    sound = rest.sound;
    lookups = λ k. ground (arith, rest.lookups k, new_key, dead, absent, text_beq_iff key k);
    same_cache = rest.same_cache;
  }

  Loads-next :
      (key : Text) (rec : DbRecord) (es : List (Text × DbRecord)) (s s1 s' : KindServer p)
      → Map.contains_key key es ≡ false
      → Loads ((key, rec) ∷ []) s s1
      → Loads es s1 s'
      → Loads ((key, rec) ∷ es) s s'
  unfolding Map.get
  Loads-next key rec es s s1 s' new_key one rest = record {
    sound = rest.sound;
    lookups = λ k. ground (arith, rest.lookups k, one.lookups k, new_key, text_beq_iff key k);
    same_cache = rest.same_cache ∙ one.same_cache;
  }

  AllAbsent-next :
      (key : Text) (rec : DbRecord) (es : List (Text × DbRecord)) (s s1 : KindServer p)
      → Map.contains_key key es ≡ false
      → Loads ((key, rec) ∷ []) s s1
      → AllAbsent ((key, rec) ∷ es) s
      → AllAbsent es s1
  unfolding Map.get
  AllAbsent-next key rec es s s1 new_key one absent k inside =
      ground (arith, one.lookups k, new_key, inside, absent k, text_beq_iff key k)

  pub load_lines-Loads :
      (es : List (Text × DbRecord)) (s : KindServer p)
      → Map.IsMap es
      → AllAbsent es s
      → IsSound p s
      → Loads es s (load_lines p now (lines (snapshot_text p saved es)) s)
  unfolding snapshot_text load_lines lines Map.get
  load_lines-Loads [] s h absent sound = record {
    sound = sound;
    lookups = λ k. refl;
    same_cache = refl;
  }
  load_lines-Loads ((key, rec) ∷ es) s h absent sound =
      let missing = absent key (ap is_some (if_true _ _ _ ((text_beq_iff key key).1 refl))) in
      let load = λ (file : Text). load_lines p now (lines file) s in
      elim (Bool-cases (is_expired saved rec.expires_at)) [
        | inl dead ↦ subst (Loads ((key, rec) ∷ es) s) (sym (ap load (if_true _ _ _ dead))) (
            Loads-skip key rec es s _ h.0 missing dead
              (load_lines-Loads es s h.1 (λ k inside. absent k (ground (arith, inside))) sound))
        | inr alive ↦
            let one = load_record-Loads key rec s missing alive sound in
            subst (Loads ((key, rec) ∷ es) s)
              (sym (ap load (if_false _ _ _ alive) ∙ load_lines-record_text key rec _ s))
              (Loads-next key rec es s _ _ h.0 one (
                load_lines-Loads es (load_record p now (some (key, rec)) s) h.1
                  (AllAbsent-next key rec es s _ h.0 one absent) one.sound))
      ]
