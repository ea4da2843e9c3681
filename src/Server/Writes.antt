-- ===== src/Server/Writes.antt =====
-- src/server.rs, lines 489-548 and 599-660: the requests that write.
pub mod Put
pub mod Delete
pub mod Cas
pub mod Expired
use kind.Prelude.{
  ℕ, Bool, true, false, not, List, [], ◌∷◌, Option, none, some, Text, text_eq, ◌==◌, is_empty,
  is_some, if◌then◌else◌,
}
use kind.Prelude.Optional.{◌>>=◌}
use kind.Prelude.Result.{ok, err}
use kind.Wal.{Bytes, WalCommand, put, delete}
use kind.Server.Record.{DbRecord, is_expired, expiry, next_version}
use kind.Server.State.{Platform, KindServer}
use kind.Server.Index.{index_record, remove_record_from_index}
use kind.Server.Effects.{
  Reply, permission_denied, lookup, tree_insert, tree_remove, cache_invalidate, cache_put,
  bump_version, wal_append, send_sync, send_watch, put_watch, delete_watch, unindex_old,
}

pub record PutRequest : Type 0 where
  pub key : Text
  pub value : Bytes
  pub ttl_ms : Option ℕ

pub record CasRequest : Type 0 where
  pub key : Text
  pub expected_value : Bytes
  pub new_value : Bytes
  pub ttl_ms : Option ℕ

module _ (p : Platform) where
  -- The log, the replicas and the tree get the record, and the watchers the event. The log is given
  -- the version that was just drawn.
  unfoldable pub publish_put : Text → Bytes → Option ℕ → KindServer p → KindServer p
  publish_put key val expires_at s =
      let version = s.global_version in
      let logged = wal_append p version (put key val expires_at) s in
      let sent = send_sync p version (put key val expires_at) logged in
      let stored =
        tree_insert p key (record { value = val; expires_at = expires_at; version = version })
          sent in
      send_watch p (put_watch p key val) stored

  -- The body of `put` behind its guard.
  unfoldable pub put_record : Text → Bytes → Option ℕ → KindServer p → Option (KindServer p)
  put_record key val expires_at s = do
    let indexed = index_record p key val (unindex_old p key s)
    cached ← if is_some expires_at then some indexed else cache_put p key val indexed
    some (publish_put key val expires_at (bump_version p cached))

  unfoldable pub put_request : ℕ → PutRequest → KindServer p → Reply p Bool
  put_request now req s =
      if s.is_replica
      then some (s, err permission_denied)
      else do s' ← put_record req.key req.value (expiry now req.ttl_ms) s; some (s', ok true)

  -- `delete` of a key that is there.
  unfoldable pub delete_record : Text → DbRecord → KindServer p → Option (KindServer p)
  delete_record key old s = do
    let removed = tree_remove p key (remove_record_from_index p key old.value s)
    invalidated ← cache_invalidate p key removed
    let bumped = bump_version p invalidated
    let version = bumped.global_version
    let logged = wal_append p version (delete key) bumped
    let sent = send_sync p version (delete key) logged
    some (send_watch p (delete_watch p key) sent)

  -- `if let Some(old) = tree.get(key)`, and its `else`.
  abbrev pub delete_found : Text → KindServer p → Option DbRecord → Reply p Bool
  delete_found key s none = some (s, ok false)
  delete_found key s (some old) = do s' ← delete_record key old s; some (s', ok true)

  unfoldable pub delete_request : Text → KindServer p → Reply p Bool
  delete_request key s =
      if s.is_replica then some (s, err permission_denied) else delete_found key s (lookup p key s)

  -- The writes of `cas`, in both of its branches.
  unfoldable pub cas_write : Text → Bytes → Option ℕ → KindServer p → Option (KindServer p)
  cas_write key val expires_at s = do
    invalidated ← cache_invalidate p key (index_record p key val s)
    some (publish_put key val expires_at (bump_version p invalidated))

  -- `if expected.is_empty()`, behind the first `if let`.
  unfoldable pub cas_absent : CasRequest → Option ℕ → KindServer p → Reply p Bool
  cas_absent req expires_at s =
      if is_empty req.expected_value
      then (do s' ← cas_write req.key req.new_value expires_at s; some (s', ok true))
      else some (s, ok false)

  -- A record that has not expired.
  unfoldable pub cas_present : CasRequest → Option ℕ → DbRecord → KindServer p → Reply p Bool
  cas_present req expires_at rec s =
      if rec.value == req.expected_value
      then (do
        s' ←
            cas_write req.key req.new_value expires_at
              (remove_record_from_index p req.key rec.value s)
        some (s', ok true))
      else some (s, ok false)

  -- `if let Some(entry) = tree.get(key)`, and what follows it.
  abbrev pub cas_found : ℕ → CasRequest → Option ℕ → KindServer p → Option DbRecord → Reply p Bool
  cas_found now req expires_at s none = cas_absent req expires_at s
  cas_found now req expires_at s (some rec) =
      if is_expired now rec.expires_at
      then (if is_empty req.expected_value then cas_absent req expires_at s else some (s, ok false))
      else cas_present req expires_at rec s

  unfoldable pub cas_request : ℕ → CasRequest → KindServer p → Reply p Bool
  cas_request now req s =
      let expires_at = expiry now req.ttl_ms in
      if s.is_replica
      then some (s, err permission_denied)
      else cas_found now req expires_at s (lookup p req.key s)
