-- ===== src/Server/Effects.antt =====
-- src/server.rs: the steps that the requests share. Each is one statement of the source.
use mathlib.Core.Option
use kind.Prelude.{[], ◌∷◌, ◌++◌, ℕ, Option, none, some, Text}
use kind.Prelude.Result.{Result}
use kind.Wal.{Bytes, WalCommand, append}
use kind.Server.Record.{DbRecord, next_version}
use kind.Server.State.{Platform, KindServer, WatchEvent, put_event, delete_event}
use kind.Server.Index.{remove_record_from_index}

-- `tonic::Status`, by its code. `internal` is the reply where a lock is poisoned.
pub data Status : Type 0 where
  not_found permission_denied internal : Status

module _ (p : Platform) where
  -- A request returns the server anew and its reply. `none` is a panic in the cache.
  abbrev pub Reply : Type 0 → Type 0
  Reply A = Option (KindServer p × Result Status A)

  abbrev pub lookup : Text → KindServer p → Option DbRecord
  lookup key s = p.records.get s.tree key

  unfoldable pub tree_insert : Text → DbRecord → KindServer p → KindServer p
  tree_insert key rec s = record s { tree = p.records.insert s.tree key rec }

  unfoldable pub tree_remove : Text → KindServer p → KindServer p
  tree_remove key s = record s { tree = p.records.remove s.tree key }

  unfoldable pub cache_invalidate : Text → KindServer p → Option (KindServer p)
  cache_invalidate key s =
      Option.map (λ c. record s { cache = c }) (p.caches.invalidate s.cache key)

  unfoldable pub cache_put : Text → Bytes → KindServer p → Option (KindServer p)
  cache_put key val s = Option.map (λ c. record s { cache = c }) (p.caches.put s.cache key val)

  unfoldable pub bump_version : KindServer p → KindServer p
  bump_version s = record s { global_version = next_version s.global_version }

  -- `if let Some(wal) = lock.as_mut() { let _ = wal.append(…) }`.
  unfoldable pub wal_append : ℕ → WalCommand → KindServer p → KindServer p
  wal_append tx_id command s = record s { wal = Option.map (append p.codec tx_id command) s.wal }

  unfoldable pub send_sync : ℕ → WalCommand → KindServer p → KindServer p
  send_sync tx_id command s = record s { sync_tx = s.sync_tx ++ (tx_id, command) ∷ [] }

  unfoldable pub send_watch : WatchEvent → KindServer p → KindServer p
  send_watch event s = record s { watch_tx = s.watch_tx ++ event ∷ [] }

  abbrev pub put_watch : Text → Bytes → WatchEvent
  put_watch key val = record { key = key; new_value = some val; operation_type = put_event }

  abbrev pub delete_watch : Text → WatchEvent
  delete_watch key = record { key = key; new_value = none; operation_type = delete_event }

  abbrev pub unindex : Text → Option DbRecord → KindServer p → KindServer p
  unindex key none s = s
  unindex key (some old) s = remove_record_from_index p key old.value s

  -- `if let Some(old) = tree.get(key) { remove_record_from_index(key, old.value) }`.
  unfoldable pub unindex_old : Text → KindServer p → KindServer p
  unindex_old key s = unindex key (lookup key s) s
