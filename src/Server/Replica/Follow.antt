-- ===== src/Server/Replica/Follow.antt =====
-- `apply_command` of src/replica.rs: what a command does to the records.
use mathlib.Core.Option
use kind.Prelude.{
  ℕ, ◌≡◌, refl, sym, ap, ◌∙◌, Option, none, some, Text, text_eq, ◌==◌, if◌then◌else◌,
}
use kind.Prelude.Optional.{◌>>=◌}
use kind.Wal.{Bytes, WalCommand, Commands, put, delete, tx_commit, nil, cons, append}
use kind.Server.Record.{DbRecord}
use kind.Server.State.{Platform, KindServer}
use kind.Server.Effects.{lookup, tree_insert, tree_remove, cache_invalidate, wal_append}
use kind.Server.Sound.{
  IsSound, IsExactFor-cong, cleared, reindexed, unindex_old-frame, reindex-frame,
  cleared-IsExactFor, reindexed-IsExactFor,
}
use kind.Server.Replica.{versioned, apply_subcommand, apply_subcommands, apply_match}

-- What a command does to the entry of a key, at a version.
abbrev pub sub_effect : ℕ → WalCommand → Text → Option DbRecord → Option DbRecord
sub_effect version (put key value t) k before =
    if key == k then some (record { value = value; expires_at = t; version = version }) else before
sub_effect version (delete key) k before = if key == k then none else before
sub_effect version (tx_commit _) k before = before

abbrev pub effects : ℕ → Commands → Text → Option DbRecord → Option DbRecord
effects version nil k before = before
effects version (cons c cs) k before = effects version cs k (sub_effect version c k before)

abbrev pub effect : ℕ → WalCommand → Text → Option DbRecord → Option DbRecord
effect version (put key value t) = sub_effect version (put key value t)
effect version (delete key) = sub_effect version (delete key)
effect version (tx_commit cs) = effects version cs

module _ (p : Platform) where
  -- The server is `s` with an effect on its entries.
  pub record Applied (f : Text → Option DbRecord → Option DbRecord) (s s' : KindServer p)
      : Type 0 where
    pub sound : IsSound p s'
    pub lookups : (k : Text) → lookup p k s' ≡ f k (lookup p k s)

  abbrev put_state : Text → DbRecord → KindServer p → p.caches.State → Option Text → KindServer p
  put_state key rec s cache wal = record s {
    tree = p.records.insert s.tree key rec;
    indexes = reindexed p key rec.value s;
    cache = cache;
    wal = wal;
  }

  abbrev delete_state : Text → KindServer p → p.caches.State → Option Text → KindServer p
  delete_state key s cache wal = record s {
    tree = p.records.remove s.tree key;
    indexes = cleared p key s;
    cache = cache;
    wal = wal;
  }

  module _ (version : ℕ) (s : KindServer p) (sound : IsSound p s) (c : p.caches.State)
      (valid : p.caches.IsValid c) (wal : Option Text) where
    put_state-Applied :
        (key : Text) (value : Bytes) (t : Option ℕ)
        → Applied
            (sub_effect version (put key value t))
            s
            (put_state key (versioned p version value t) s c wal)
    put_state-Applied key value t =
        let rec = versioned p version value t in
        record {
          sound = record {
            cache = valid;
            exact =
                IsExactFor-cong p s.schema_registry _
                  (λ k. if key == k then some rec else lookup p k s) _
                  (λ k. sym (p.records.get-insert s.tree key k rec))
                  (reindexed-IsExactFor p key rec s sound.exact);
          };
          lookups = λ k. p.records.get-insert s.tree key k rec;
        }

    delete_state-Applied :
        (key : Text) → Applied (sub_effect version (delete key)) s (delete_state key s c wal)
    delete_state-Applied key = record {
      sound = record {
        cache = valid;
        exact =
            IsExactFor-cong p s.schema_registry _ (λ k. if key == k then none else lookup p k s) _
              (λ k. sym (p.records.get-remove s.tree key k))
              (cleared-IsExactFor p key s sound.exact);
      };
      lookups = λ k. p.records.get-remove s.tree key k;
    }

  apply_subcommand-Applied :
      (version : ℕ) (command : WalCommand) (s : KindServer p)
      → IsSound p s
      → (s' : KindServer p) × (apply_subcommand p version command s ≡ some s')
        × Applied (sub_effect version command) s s'
  unfolding apply_subcommand cache_invalidate tree_insert tree_remove
  apply_subcommand-Applied version (put key value t) s sound =
      let (c, returns, valid, _) = p.caches.invalidate_returns s.cache key sound.cache in
      (
        put_state key (versioned p version value t) s c s.wal,
        ap
              (λ x. cache_invalidate p key x >>= λ y.
                some (tree_insert p key (versioned p version value t) y))
              (reindex-frame p key value s)
            ∙ rw returns refl,
        put_state-Applied version s sound c valid s.wal key value t,
      )
  apply_subcommand-Applied version (delete key) s sound =
      let (c, returns, valid, _) = p.caches.invalidate_returns s.cache key sound.cache in
      (
        delete_state key s c s.wal,
        ap (λ x. cache_invalidate p key (tree_remove p key x)) (unindex_old-frame p key s)
            ∙ rw returns refl,
        delete_state-Applied version s sound c valid s.wal key,
      )
  apply_subcommand-Applied version (tx_commit _) s sound =
      (s, refl, record { sound = sound; lookups = λ k. refl })

  apply_subcommands-Applied :
      (version : ℕ) (commands : Commands) (s : KindServer p)
      → IsSound p s
      → (s' : KindServer p) × (apply_subcommands p version commands s ≡ some s')
        × Applied (effects version commands) s s'
  unfolding apply_subcommands
  apply_subcommands-Applied version nil s sound =
      (s, refl, record { sound = sound; lookups = λ k. refl })
  apply_subcommands-Applied version (cons command commands) s sound =
      let (s1, returns, one) = apply_subcommand-Applied version command s sound in
      let (s2, returns', rest) = apply_subcommands-Applied version commands s1 one.sound in
      (
        s2,
        ap (λ o. o >>= apply_subcommands p version commands) returns ∙ returns',
        record {
          sound = rest.sound;
          lookups = λ k. rest.lookups k ∙ ap (effects version commands k) (one.lookups k);
        },
      )

  pub apply_match-Applied :
      (version : ℕ) (command : WalCommand) (s : KindServer p)
      → IsSound p s
      → (s' : KindServer p) × (apply_match p version command s ≡ some s')
        × Applied (effect version command) s s'
  unfolding apply_match cache_invalidate tree_insert tree_remove wal_append
  apply_match-Applied version (put key value t) s sound =
      let (c, returns, valid, _) = p.caches.invalidate_returns s.cache key sound.cache in
      let wal = Option.map (append p.codec version (put key value t)) s.wal in
      (
        put_state key (versioned p version value t) s c wal,
        ap
              (λ x. cache_invalidate p key (wal_append p version (put key value t) x) >>= λ y.
                some (tree_insert p key (versioned p version value t) y))
              (reindex-frame p key value s)
            ∙ rw returns refl,
        put_state-Applied version s sound c valid wal key value t,
      )
  apply_match-Applied version (delete key) s sound =
      let (c, returns, valid, _) = p.caches.invalidate_returns s.cache key sound.cache in
      let wal = Option.map (append p.codec version (delete key)) s.wal in
      (
        delete_state key s c wal,
        ap
              (λ x. cache_invalidate p key (tree_remove p key x) >>= λ y.
                some (wal_append p version (delete key) y))
              (unindex_old-frame p key s)
            ∙ rw returns refl,
        delete_state-Applied version s sound c valid wal key,
      )
  apply_match-Applied version (tx_commit commands) s sound =
      let (s', returns, done) =
        apply_subcommands-Applied version commands (wal_append p version (tx_commit commands) s)
          (record { cache = sound.cache; exact = sound.exact }) in
      (s', returns, record { sound = done.sound; lookups = done.lookups })
