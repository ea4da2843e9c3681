-- ===== src/Server/Writes/Delete.antt =====
-- `delete` of src/server.rs.
use mathlib.Core.Option
use kind.Prelude.{
  ◌≡◌, refl, sym, ap, ◌∙◌, Bool, true, false, [], ◌∷◌, ◌++◌, none, some, Text, text_eq, ◌==◌,
  Bool-cases, Option-cases, inl, inr, if_true, if_false, if◌then◌else◌,
}
use kind.Prelude.Optional.{◌>>=◌}
use kind.Prelude.Result.{Result, ok, err}
use kind.Wal.{Bytes, delete, append}
use kind.Server.Record.{DbRecord, next_version}
use kind.Server.State.{Platform, KindServer}
use kind.Server.Index.{remove_record_from_index}
use kind.Server.Index.Exact.{IsExactFor-remove}
use kind.Server.Effects.{
  Status, permission_denied, lookup, tree_remove, cache_invalidate, bump_version, wal_append,
  send_sync, send_watch, delete_watch,
}
use kind.Server.Sound.{IsSound, IsExactFor-cong}
use kind.Server.Writes.{delete_record, delete_found, delete_request}

module _ (p : Platform) where
  -- The server is `s` without one key; the removal is logged, sent and announced.
  pub record Deletes (s s' : KindServer p) (key : Text) : Type 0 where
    pub lookups : (k : Text) → lookup p k s' ≡ (if key == k then none else lookup p k s)
    pub version : s'.global_version ≡ next_version s.global_version
    pub logged : s'.wal ≡ Option.map (append p.codec s'.global_version (delete key)) s.wal
    pub sent : s'.sync_tx ≡ s.sync_tx ++ (s'.global_version, delete key) ∷ []
    pub announced : s'.watch_tx ≡ s.watch_tx ++ delete_watch p key ∷ []
    pub same_role : s'.is_replica ≡ s.is_replica
    pub uncached :
        (k : Text) → p.caches.peek s'.cache k ≡ (if key == k then none else p.caches.peek s.cache k)

  -- The state that a delete leaves, with the cache that the invalidation leaves.
  abbrev without_key : Text → Bytes → KindServer p → p.caches.State → KindServer p
  without_key key val s cache =
      let version = next_version s.global_version in
      record s {
        tree = p.records.remove s.tree key;
        indexes = (remove_record_from_index p key val s).indexes;
        cache = cache;
        global_version = version;
        wal = Option.map (append p.codec version (delete key)) s.wal;
        sync_tx = s.sync_tx ++ (version, delete key) ∷ [];
        watch_tx = s.watch_tx ++ delete_watch p key ∷ [];
      }

  delete_record-Deletes :
      (key : Text) (old : DbRecord) (s : KindServer p)
      → IsSound p s
      → lookup p key s ≡ some old
      → (s' : KindServer p) × (delete_record p key old s ≡ some s')
        × IsSound p s'
        × Deletes s s' key
  unfolding delete_record cache_invalidate tree_remove bump_version wal_append send_sync send_watch
      remove_record_from_index
  delete_record-Deletes key old s sound there =
      let (c, returns, valid, gone) = p.caches.invalidate_returns s.cache key sound.cache in
      (
        without_key key old.value s c,
        rw returns,
        record {
          cache = valid;
          exact =
              IsExactFor-cong p s.schema_registry _ (λ k. if key == k then none else lookup p k s) _
                (λ k. sym (p.records.get-remove s.tree key k))
                (IsExactFor-remove p s.schema_registry s.indexes (λ k. lookup p k s) key old there
                  sound.exact);
        },
        record {
          lookups = λ k. p.records.get-remove s.tree key k;
          version = refl;
          logged = refl;
          sent = refl;
          announced = refl;
          same_role = refl;
          uncached = gone;
        },
      )

  -- The reply to a delete, on every branch.
  pub data DeleteOutcome (s : KindServer p) (key : Text)
      : KindServer p → Result Status Bool → Type 0 where
    refused : s.is_replica ≡ true → DeleteOutcome s key s (err permission_denied)
    missing : s.is_replica ≡ false → lookup p key s ≡ none → DeleteOutcome s key s (ok false)
    deleted :
        {s' : KindServer p} (old : DbRecord)
        → s.is_replica ≡ false
        → lookup p key s ≡ some old
        → Deletes s s' key
        → DeleteOutcome s key s' (ok true)

  -- A delete on a sound server always returns and keeps the server sound. A replica refuses it,
  -- and a key that is not there is reported, both with nothing changed. A key that is there leaves
  -- the tree and the cache, no other key does, and the removal is logged, sent and announced at
  -- the next version.
  pub delete_request-DeleteOutcome :
      (key : Text) (s : KindServer p)
      → IsSound p s
      → (s' : KindServer p) × (r : Result Status Bool) × (delete_request p key s ≡ some (s', r))
        × IsSound p s'
        × DeleteOutcome s key s' r
  unfolding delete_request
  delete_request-DeleteOutcome key s sound = elim (Bool-cases s.is_replica) [
    | inl replica ↦
        (s, err permission_denied, if_true s.is_replica _ _ replica, sound, refused replica)
    | inr leader ↦ elim (Option-cases (lookup p key s)) [
      | inl none_there ↦ (
        s,
        ok false,
        if_false s.is_replica _ _ leader ∙ ap (delete_found p key s) none_there,
        sound,
        missing leader none_there,
      )
      | inr (old, there) ↦
          let (s', returns, sound', done) = delete_record-Deletes key old s sound there in
          (
            s',
            ok true,
            if_false s.is_replica _ _ leader
                ∙ ap (delete_found p key s) there
                ∙ ap (λ o. o >>= λ x. some (x, ok true)) returns,
            sound',
            deleted old leader there done,
          )
    ]
  ]
