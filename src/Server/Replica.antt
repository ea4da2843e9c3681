-- ===== src/Server/Replica.antt =====
-- src/replica.rs: a replica applies what its leader sends.
pub mod Follow
pub mod Level
pub mod Session
pub mod Loaded
pub mod Rounds
pub mod CatchUp
use kind.Prelude.{
  ℕ, Bool, true, false, not, ◌&&◌, List, [], ◌∷◌, Option, none, some, Text, leb, nat_beq,
  if◌then◌else◌,
}
use kind.Prelude.Optional.{◌>>=◌}
use kind.Wal.{Bytes, WalCommand, WalEnvelope, Commands, put, delete, tx_commit, nil, cons}
use kind.Server.Record.{DbRecord, next_version}
use kind.Server.State.{Platform, KindServer}
use kind.Server.Index.{index_record}
use kind.Server.Effects.{tree_insert, tree_remove, cache_invalidate, wal_append, unindex_old}
use kind.Server.Reads.{RecordMessage}
use kind.Server.Sync.{SyncPayload, snapshot_chunk, wal_record}

module _ (p : Platform) where
  abbrev pub store_version : ℕ → KindServer p → KindServer p
  store_version tx_id s = record s { global_version = tx_id }

  abbrev pub versioned : ℕ → Bytes → Option ℕ → DbRecord
  versioned tx_id value expires_at = record {
    value = value;
    expires_at = expires_at;
    version = tx_id;
  }

  -- A command inside a transaction: the log has the whole transaction already.
  unfoldable pub apply_subcommand : ℕ → WalCommand → KindServer p → Option (KindServer p)
  apply_subcommand tx_id (put key value expires_at) s = do
    s' ← cache_invalidate p key (index_record p key value (unindex_old p key s))
    some (tree_insert p key (versioned tx_id value expires_at) s')
  apply_subcommand tx_id (delete key) s =
      cache_invalidate p key (tree_remove p key (unindex_old p key s))
  apply_subcommand tx_id (tx_commit _) s = some s

  unfoldable pub apply_subcommands : ℕ → Commands → KindServer p → Option (KindServer p)
  apply_subcommands tx_id nil s = some s
  apply_subcommands tx_id (cons command commands) s = do
    s' ← apply_subcommand tx_id command s
    apply_subcommands tx_id commands s'

  -- The `match` of `apply_command`.
  unfoldable pub apply_match : ℕ → WalCommand → KindServer p → Option (KindServer p)
  apply_match tx_id (put key value expires_at) s = do
    let indexed = index_record p key value (unindex_old p key s)
    s' ← cache_invalidate p key (wal_append p tx_id (put key value expires_at) indexed)
    some (tree_insert p key (versioned tx_id value expires_at) s')
  apply_match tx_id (delete key) s = do
    s' ← cache_invalidate p key (tree_remove p key (unindex_old p key s))
    some (wal_append p tx_id (delete key) s')
  apply_match tx_id (tx_commit commands) s =
      apply_subcommands tx_id commands (wal_append p tx_id (tx_commit commands) s)

  unfoldable pub apply_command : ℕ → WalCommand → KindServer p → Option (KindServer p)
  apply_command tx_id command s = do s' ← apply_match tx_id command s; some (store_version tx_id s')

  -- The loop over the records of a chunk.
  unfoldable pub load_chunk : ℕ → List RecordMessage → KindServer p → KindServer p
  load_chunk max_tx_id [] s = s
  load_chunk max_tx_id (rec ∷ records) s = load_chunk max_tx_id records (
      index_record p rec.key rec.value
        (tree_insert p rec.key (versioned max_tx_id rec.value rec.expires_at) s))

  abbrev pub apply_envelope : ℕ → Option WalEnvelope → KindServer p → Option (KindServer p)
  apply_envelope tx_id none s = some s
  apply_envelope tx_id (some e) s = apply_command tx_id e.c s

  -- A log record: a duplicate is ignored, a gap ends the stream. The Boolean says whether the
  -- stream goes on.
  unfoldable pub receive_record : ℕ → Text → KindServer p → Option (Bool × KindServer p)
  receive_record tx_id payload s =
      let current = s.global_version in
      if leb tx_id current
      then some (true, s)
      else if not (nat_beq tx_id (next_version current)) && not (nat_beq current 0)
      then some (false, s)
      else do s' ← apply_envelope tx_id (p.codec.envelope_of payload) s; some (true, s')

  unfoldable pub receive : SyncPayload → KindServer p → Option (Bool × KindServer p)
  receive (snapshot_chunk records max_tx_id) s =
      some (true, store_version max_tx_id (load_chunk max_tx_id records s))
  receive (wal_record tx_id payload) s = receive_record tx_id payload s

  -- The loop over the stream of one connection.
  unfoldable pub receive_all : List SyncPayload → KindServer p → Option (KindServer p)
  receive_all [] s = some s
  receive_all (payload ∷ payloads) s = do
    (goes_on, s') ← receive payload s
    let rest = receive_all payloads s'
    if goes_on then rest else some s'
