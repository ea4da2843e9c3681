-- ===== src/Server/Transaction.antt =====
-- src/server.rs, lines 345-352 and 381-463: transactions. A write set is a hash map; the lists that
-- the commit makes of it are in the order of the association list.
pub mod Commit
pub mod Isolation
pub mod Race
use kind.Prelude.{
  ℕ, Bool, true, false, List, [], ◌∷◌, Option, none, some, Text, text_eq, ltb, if◌then◌else◌,
}
use kind.Prelude.Map
use kind.Prelude.Optional.{◌>>=◌}
use kind.Prelude.Result.{Result, ok, err}
use kind.Wal.{Bytes, WalCommand, Commands, put, delete, tx_commit, nil, cons}
use kind.Server.Record.{DbRecord, expiry}
use kind.Server.State.{Platform, KindServer}
use kind.Server.Index.{index_record}
use kind.Server.Effects.{
  lookup, tree_insert, tree_remove, cache_invalidate, bump_version, wal_append, send_sync,
  send_watch, put_watch, delete_watch, unindex_old,
}

-- `DbError`, without the text of `CommitFailed`.
pub data DbError : Type 0 where
  not_found conflict commit_failed : DbError

abbrev pub WriteSet : Type 0
WriteSet = List (Text × Option DbRecord)

-- `TxHandle`; the server that it borrows is the one that `commit` is given.
pub record TxHandle : Type 0 where
  pub write_set : WriteSet
  pub snapshot_version : ℕ

-- `TxHandle::put` and `TxHandle::delete`.
unfoldable pub tx_put : ℕ → Text → Bytes → Option ℕ → TxHandle → TxHandle
tx_put now key value ttl_ms tx = record tx {
  write_set =
      Map.insert key (some (record { value = value; expires_at = expiry now ttl_ms; version = 0 }))
        tx.write_set;
}

unfoldable pub tx_delete : Text → TxHandle → TxHandle
tx_delete key tx = record tx { write_set = Map.insert key none tx.write_set }

-- `pending`: the log's commands for the write set.
unfoldable pub pending : WriteSet → Commands
pending [] = nil
pending ((k, some rec) ∷ ws) = cons (put k rec.value rec.expires_at) (pending ws)
pending ((k, none) ∷ ws) = cons (delete k) (pending ws)

module _ (p : Platform) where
  -- The handle is dropped with its write set.
  abbrev pub rollback : TxHandle → KindServer p → KindServer p
  rollback tx s = s

  unfoldable pub begin_transaction : KindServer p → TxHandle
  begin_transaction s = record { write_set = []; snapshot_version = s.global_version }

  abbrev pub is_newer : ℕ → Option DbRecord → Bool
  is_newer snapshot none = false
  is_newer snapshot (some current) = ltb snapshot current.version

  -- The loop over the keys that looks for a conflict.
  unfoldable pub has_conflict : ℕ → WriteSet → KindServer p → Bool
  has_conflict snapshot [] s = false
  has_conflict snapshot ((k, _) ∷ ws) s =
      if is_newer snapshot (lookup p k s) then true else has_conflict snapshot ws s

  -- One round of the loop that applies the writes, the invalidation of the cache included.
  unfoldable pub apply_write : ℕ → Text → Option DbRecord → KindServer p → Option (KindServer p)
  apply_write version k (some rec) s = cache_invalidate p k (
      send_watch p (put_watch p k rec.value) (
        index_record p k rec.value
          (tree_insert p k (record rec { version = version }) (unindex_old p k s))))
  apply_write version k none s =
      cache_invalidate p k (send_watch p (delete_watch p k) (tree_remove p k (unindex_old p k s)))

  unfoldable pub apply_writes : ℕ → WriteSet → KindServer p → Option (KindServer p)
  apply_writes version [] s = some s
  apply_writes version ((k, v) ∷ ws) s = do
    s' ← apply_write version k v s
    apply_writes version ws s'

  -- The log and the replicas get the whole transaction.
  unfoldable pub log_commit : WriteSet → KindServer p → KindServer p
  log_commit ws s =
      let bumped = bump_version p s in
      let version = bumped.global_version in
      send_sync p version (tx_commit (pending ws))
        (wal_append p version (tx_commit (pending ws)) bumped)

  unfoldable pub commit :
      TxHandle → KindServer p → Option (KindServer p × Result DbError (Unit {0}))
  commit tx s =
      if s.is_replica
      then some (s, err commit_failed)
      else if has_conflict tx.snapshot_version tx.write_set s
      then some (s, err conflict)
      else do
        let logged = log_commit tx.write_set s
        s' ← apply_writes logged.global_version tx.write_set logged
        some (s', ok tt)
