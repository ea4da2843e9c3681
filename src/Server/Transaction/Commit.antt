-- ===== src/Server/Transaction/Commit.antt =====
-- `TxHandle::commit` of src/server.rs: the writes that it applies.
use mathlib.Core.List.{append-nil, append_assoc}
use kind.Prelude.{
  ℕ, ◌≡◌, refl, sym, ap, ◌∙◌, List, [], ◌∷◌, ◌++◌, Option, none, some, Text, text_eq, ◌==◌,
  if◌then◌else◌,
}
use kind.Prelude.Optional.{◌>>=◌}
use kind.Wal.{Bytes}
use kind.Server.Record.{DbRecord}
use kind.Server.State.{Platform, KindServer, WatchEvent}
use kind.Server.Index.{index_record}
use kind.Server.Index.Exact.{IsExact}
use kind.Server.Effects.{
  lookup, tree_insert, tree_remove, cache_invalidate, send_watch, put_watch, delete_watch,
}
use kind.Server.Sound.{
  IsSound, IsExactFor-cong, cleared, reindexed, reindex-frame, unindex_old-frame,
  cleared-IsExactFor, reindexed-IsExactFor,
}
use kind.Server.Transaction.{WriteSet, apply_write, apply_writes}

abbrev pub at_version : ℕ → Option DbRecord → Option DbRecord
at_version version none = none
at_version version (some rec) = some (record rec { version = version })

-- The entry of a key after the writes: a key that is written twice has its last write.
unfoldable pub written : ℕ → WriteSet → Text → Option DbRecord → Option DbRecord
written version [] k before = before
written version ((j, v) ∷ ws) k before =
    written version ws k (if j == k then at_version version v else before)

module _ (p : Platform) where
  abbrev pub event : Text → Option DbRecord → WatchEvent
  event k none = delete_watch p k
  event k (some rec) = put_watch p k rec.value

  unfoldable pub events : WriteSet → List WatchEvent
  events [] = []
  events ((k, v) ∷ ws) = event k v ∷ events ws

  unfoldable pub uncached : WriteSet → Text → Option Bytes → Option Bytes
  uncached [] k before = before
  uncached ((j, v) ∷ ws) k before = uncached ws k (if j == k then none else before)

  -- The server is `s` with the writes applied; the log and the replicas' channel are left alone.
  pub record Applies (version : ℕ) (ws : WriteSet) (s s' : KindServer p) : Type 0 where
    pub lookups : (k : Text) → lookup p k s' ≡ written version ws k (lookup p k s)
    pub caches : (k : Text) → p.caches.peek s'.cache k ≡ uncached ws k (p.caches.peek s.cache k)
    pub announced : s'.watch_tx ≡ s.watch_tx ++ events ws
    pub same_version : s'.global_version ≡ s.global_version
    pub same_wal : s'.wal ≡ s.wal
    pub same_sync : s'.sync_tx ≡ s.sync_tx
    pub same_role : s'.is_replica ≡ s.is_replica

  -- The state that one write leaves, with the cache that the invalidation leaves.
  abbrev after_write : ℕ → Text → Option DbRecord → KindServer p → p.caches.State → KindServer p
  after_write version k (some rec) s cache = record s {
    tree = p.records.insert s.tree k (record rec { version = version });
    indexes = reindexed p k rec.value s;
    watch_tx = s.watch_tx ++ put_watch p k rec.value ∷ [];
    cache = cache;
  }
  after_write version k none s cache = record s {
    tree = p.records.remove s.tree k;
    indexes = cleared p k s;
    watch_tx = s.watch_tx ++ delete_watch p k ∷ [];
    cache = cache;
  }

  apply_write-returns :
      (version : ℕ) (k : Text) (v : Option DbRecord) (s : KindServer p)
      → p.caches.IsValid s.cache
      → (c : p.caches.State) × (apply_write p version k v s ≡ some (after_write version k v s c))
        × p.caches.IsValid c
        × ((j : Text) → p.caches.peek c j ≡ (if k == j then none else p.caches.peek s.cache j))
  unfolding apply_write cache_invalidate send_watch index_record tree_insert tree_remove
  apply_write-returns version k (some rec) s valid =
      let (c, returns, valid', gone) = p.caches.invalidate_returns s.cache k valid in
      (
        c,
        ap
              (λ x. cache_invalidate p k (
                send_watch p (put_watch p k rec.value)
                  (tree_insert p k (record rec { version = version }) x)))
              (reindex-frame p k rec.value s)
            ∙ rw returns,
        valid',
        gone,
      )
  apply_write-returns version k none s valid =
      let (c, returns, valid', gone) = p.caches.invalidate_returns s.cache k valid in
      (
        c,
        ap (λ x. cache_invalidate p k (send_watch p (delete_watch p k) (tree_remove p k x)))
              (unindex_old-frame p k s)
            ∙ rw returns,
        valid',
        gone,
      )

  after_write-IsSound :
      (version : ℕ) (k : Text) (v : Option DbRecord) (s : KindServer p) (c : p.caches.State)
      → p.caches.IsValid c
      → IsExact p s
      → IsSound p (after_write version k v s c)
  after_write-IsSound version k (some rec) s c valid exact =
      let rec' = record rec { version = version } in
      record {
        cache = valid;
        exact =
            IsExactFor-cong p s.schema_registry (reindexed p k rec.value s)
              (λ j. if k == j then some rec' else lookup p j s) _
              (λ j. sym (p.records.get-insert s.tree k j rec'))
              (reindexed-IsExactFor p k rec' s exact);
      }
  after_write-IsSound version k none s c valid exact = record {
    cache = valid;
    exact =
        IsExactFor-cong p s.schema_registry (cleared p k s)
          (λ j. if k == j then none else lookup p j s) _
          (λ j. sym (p.records.get-remove s.tree k j)) (cleared-IsExactFor p k s exact);
  }

  after_write-lookup :
      (version : ℕ) (k : Text) (v : Option DbRecord) (s : KindServer p) (c : p.caches.State)
      (j : Text)
      → lookup p j (after_write version k v s c)
        ≡ (if k == j then at_version version v else lookup p j s)
  after_write-lookup version k (some rec) s c j =
      p.records.get-insert s.tree k j (record rec { version = version })
  after_write-lookup version k none s c j = p.records.get-remove s.tree k j

  after_write-frame :
      (version : ℕ) (k : Text) (v : Option DbRecord) (s : KindServer p) (c : p.caches.State)
      → ((after_write version k v s c).cache ≡ c)
        × ((after_write version k v s c).watch_tx ≡ s.watch_tx ++ event k v ∷ [])
        × ((after_write version k v s c).global_version ≡ s.global_version)
        × ((after_write version k v s c).wal ≡ s.wal)
        × ((after_write version k v s c).sync_tx ≡ s.sync_tx)
        × ((after_write version k v s c).is_replica ≡ s.is_replica)
  after_write-frame version k (some rec) s c = (refl, refl, refl, refl, refl, refl)
  after_write-frame version k none s c = (refl, refl, refl, refl, refl, refl)

  -- Applying a write set to a sound server always returns and keeps it sound. Each key has its
  -- last write of the set, at the given version, or else what it had; the keys of the set leave
  -- the cache; the watchers get one event for each write, in order; and the version, the log and
  -- the channel of the replicas are left alone.
  pub apply_writes-Applies :
      (version : ℕ) (ws : WriteSet) (s : KindServer p)
      → IsSound p s
      → (s' : KindServer p) × (apply_writes p version ws s ≡ some s')
        × IsSound p s'
        × Applies version ws s s'
  unfolding apply_writes written events uncached
  apply_writes-Applies version [] s sound = (
    s,
    refl,
    sound,
    record {
      lookups = λ k. refl;
      caches = λ k. refl;
      announced = sym (append-nil s.watch_tx);
      same_version = refl;
      same_wal = refl;
      same_sync = refl;
      same_role = refl;
    },
  )
  apply_writes-Applies version ((k, v) ∷ ws) s sound =
      let (c, returns, valid, gone) = apply_write-returns version k v s sound.cache in
      let s1 = after_write version k v s c in
      let frame = after_write-frame version k v s c in
      let (s', rest, sound', done) =
        apply_writes-Applies version ws s1
          (after_write-IsSound version k v s c valid sound.exact) in
      (
        s',
        ap (λ o. o >>= λ x. apply_writes p version ws x) returns ∙ rest,
        sound',
        record {
          lookups = λ j.
              done.lookups j ∙ ap (written version ws j) (after_write-lookup version k v s c j);
          caches = λ j.
              done.caches j ∙ ap (uncached ws j) (ap (λ x. p.caches.peek x j) frame.0 ∙ gone j);
          announced =
              done.announced
              ∙ ap (λ x. x ++ events ws) frame.1
              ∙ append_assoc s.watch_tx (event k v ∷ []) (events ws);
          same_version = done.same_version ∙ frame.2;
          same_wal = done.same_wal ∙ frame.3;
          same_sync = done.same_sync ∙ frame.4;
          same_role = done.same_role ∙ frame.5;
        },
      )
