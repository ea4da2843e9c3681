-- ===== src/Server/Writes/Put.antt =====
-- `put` of src/server.rs.
use mathlib.Core.Option
use kind.Prelude.{
  if_false, ℕ, ◌≡◌, refl, sym, ap, ◌∙◌, true, false, [], ◌∷◌, ◌++◌, Option, none, some, Text,
  text_eq, ◌==◌, is_some, if◌then◌else◌,
}
use kind.Prelude.Optional.{◌>>=◌}
use kind.Prelude.Result.{ok}
use kind.Cache.{Kept}
use kind.Wal.{Bytes, put, append}
use kind.Server.Record.{DbRecord, expiry, next_version}
use kind.Server.State.{Platform, KindServer}
use kind.Server.Index.Exact.{IsExactFor}
use kind.Server.Effects.{
  lookup, tree_insert, cache_put, bump_version, wal_append, send_sync, send_watch, put_watch,
}
use kind.Server.Sound.{IsSound, IsExactFor-cong, reindexed, reindex-frame, reindexed-IsExactFor}
use kind.Server.Writes.{PutRequest, publish_put, put_record, put_request}

module _ (p : Platform) where
  -- The record of a put: its version is the one that the server moves to.
  abbrev pub new_record : KindServer p → Bytes → Option ℕ → DbRecord
  new_record s val expires_at = record {
    value = val;
    expires_at = expires_at;
    version = next_version s.global_version;
  }

  -- The server is `s` with one record written, logged, sent to the replicas and announced.
  pub record Writes (s s' : KindServer p) (key : Text) (rec : DbRecord) : Type 0 where
    pub lookups : (k : Text) → lookup p k s' ≡ (if key == k then some rec else lookup p k s)
    pub version : s'.global_version ≡ next_version s.global_version
    pub logged :
        s'.wal ≡ Option.map (append p.codec rec.version (put key rec.value rec.expires_at)) s.wal
    pub sent : s'.sync_tx ≡ s.sync_tx ++ (rec.version, put key rec.value rec.expires_at) ∷ []
    pub announced : s'.watch_tx ≡ s.watch_tx ++ put_watch p key rec.value ∷ []
    pub kept_registry : s'.schema_registry ≡ s.schema_registry
    pub kept_snapshot : s'.snapshot ≡ s.snapshot
    pub kept_role : s'.is_replica ≡ s.is_replica

  -- The state behind the cache, published.
  abbrev pub published :
      KindServer p → p.index_maps.Store → p.caches.State → Text → Bytes → Option ℕ → KindServer p
  published s indexes cache key val expires_at =
      publish_put p key val expires_at
        (bump_version p (record s { indexes = indexes; cache = cache }))

  pub published-Writes :
      (s : KindServer p) (m : p.index_maps.Store) (c : p.caches.State) (key : Text) (val : Bytes)
      (expires_at : Option ℕ)
      → Writes s (published s m c key val expires_at) key (new_record s val expires_at)
  unfolding publish_put bump_version wal_append send_sync tree_insert send_watch
  published-Writes s m c key val expires_at = record {
    lookups = λ k. p.records.get-insert s.tree key k (new_record s val expires_at);
    version = refl;
    logged = refl;
    sent = refl;
    announced = refl;
    kept_registry = refl;
    kept_snapshot = refl;
    kept_role = refl;
  }

  -- If the indexes are exact for the tree with the new record, so they are when it is published.
  pub published-IsSound :
      (s : KindServer p) (m : p.index_maps.Store) (c : p.caches.State) (key : Text) (val : Bytes)
      (expires_at : Option ℕ)
      → p.caches.IsValid c
      → IsExactFor p s.schema_registry m
          (λ k. if key == k then some (new_record s val expires_at) else lookup p k s)
      → IsSound p (published s m c key val expires_at)
  unfolding publish_put bump_version wal_append send_sync tree_insert send_watch
  published-IsSound s m c key val expires_at valid exact = record {
    cache = valid;
    exact =
        IsExactFor-cong p s.schema_registry m
          (λ k. if key == k then some (new_record s val expires_at) else lookup p k s) _
          (λ k. sym (p.records.get-insert s.tree key k (new_record s val expires_at))) exact;
  }

  pub published-cache :
      (s : KindServer p) (m : p.index_maps.Store) (c : p.caches.State) (key : Text) (val : Bytes)
      (expires_at : Option ℕ)
      → (published s m c key val expires_at).cache ≡ c
  unfolding publish_put bump_version wal_append send_sync tree_insert send_watch
  published-cache s m c key val expires_at = refl

  -- The cache after a put: it holds the value if that never expires, and is left alone otherwise.
  abbrev pub CachedPut : Text → Bytes → Option ℕ → (before after : p.caches.State) → Type 0
  CachedPut key val none before after =
      (p.caches.peek after key ≡ some val)
      × ((j : Text) → (key == j) ≡ false → Kept (p.caches.peek after j) (p.caches.peek before j))
  CachedPut key val (some _) before after = after ≡ before

  -- The end of `put_record`, behind the indexes.
  abbrev cached_put : Text → Bytes → Option ℕ → KindServer p → Option (KindServer p)
  cached_put key val expires_at x = do
    cached ← if is_some expires_at then some x else cache_put p key val x
    some (publish_put p key val expires_at (bump_version p cached))

  put_record-returns :
      (key : Text) (val : Bytes) (expires_at : Option ℕ) (s : KindServer p)
      → IsSound p s
      → (c : p.caches.State) × (put_record p key val expires_at s
          ≡ some (published s (reindexed p key val s) c key val expires_at))
        × p.caches.IsValid c
        × CachedPut key val expires_at s.cache c
  unfolding put_record cache_put
  put_record-returns key val (some t) s sound = (
    s.cache,
    ap (λ x. some (publish_put p key val (some t) (bump_version p x))) (reindex-frame p key val s),
    sound.cache,
    refl,
  )
  put_record-returns key val none s sound =
      let (c, puts, valid, self, others) = p.caches.put_returns s.cache key val sound.cache in
      (c, ap (cached_put key val none) (reindex-frame p key val s) ∙ rw puts, valid, (self, others))

  -- On a sound server that is no replica, a put returns success whatever the key, the value and
  -- the time to live. The server stays sound. Exactly its key changes in the tree, to the new
  -- record at the next version; the log, the channel of the replicas and that of the watchers each
  -- get the record once; and the cache then holds the value if the record never expires, and is
  -- left alone otherwise.
  pub put_request-Writes :
      (now : ℕ) (req : PutRequest) (s : KindServer p)
      → IsSound p s
      → s.is_replica ≡ false
      → (s' : KindServer p) × (put_request p now req s ≡ some (s', ok true))
        × IsSound p s'
        × Writes s s' req.key (new_record s req.value (expiry now req.ttl_ms))
        × CachedPut req.key req.value (expiry now req.ttl_ms) s.cache s'.cache
  unfolding put_request
  put_request-Writes now req s sound leader =
      let t = expiry now req.ttl_ms in
      let (c, puts, valid, cached) = put_record-returns req.key req.value t s sound in
      let m = reindexed p req.key req.value s in
      (
        published s m c req.key req.value t,
        if_false s.is_replica _ _ leader ∙ ap (λ o. o >>= λ s'. some (s', ok true)) puts,
        published-IsSound s m c req.key req.value t valid
            (reindexed-IsExactFor p req.key (new_record s req.value t) s sound.exact),
        published-Writes s m c req.key req.value t,
        rw (published-cache s m c req.key req.value t) cached,
      )
