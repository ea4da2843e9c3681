-- ===== src/Server/Startup.antt =====
-- src/server.rs, lines 114-268: the server is built from the schema, the snapshot and the log. The
-- fields are filled in place: `max_ver` is the version of the server that is being built, and the
-- closure `extract_keys` is `extract_index_keys`, whose text it repeats.
pub mod Loads
pub mod Restart
pub mod Replay
pub mod Content
pub mod Durable
pub mod Stale
pub mod Ahead
use kind.Prelude.{ℕ, max, Bool, List, [], ◌∷◌, Option, none, some, Text, ltb, if◌then◌else◌}
use kind.Prelude.Optional.{◌>>=◌}
use kind.Schema.Registry
use kind.Schema.Registry.{SchemaRegistry, load_schema}
use kind.Wal.{
  Bytes, WalCommand, Commands, put, delete, tx_commit, nil, cons, is_blank, read_all_commands,
}
use kind.Wal.Lines.{lines}
use kind.Server.Record.{DbRecord, is_expired, next_version}
use kind.Server.State.{Platform, KindServer}
use kind.Server.Index.{index_record}
use kind.Server.Effects.{tree_insert, tree_remove, unindex_old}

module _ (p : Platform) (now : ℕ) where
  abbrev pub set_version : ℕ → KindServer p → KindServer p
  set_version v s = record s { global_version = v }

  -- A record is entered: its index keys, then the tree.
  unfoldable pub enter : Text → DbRecord → KindServer p → KindServer p
  enter key rec s = tree_insert p key rec (index_record p key rec.value s)

  -- A decoded line of the snapshot.
  abbrev pub load_record : Option (Text × DbRecord) → KindServer p → KindServer p
  load_record none s = s
  load_record (some (key, rec)) s =
      if is_expired now rec.expires_at
      then s
      else enter key rec (set_version (max s.global_version rec.version) s)

  unfoldable pub load_line : Text → KindServer p → KindServer p
  load_line line s = if is_blank p.chars line then s else load_record (p.snapshots.record_of line) s

  unfoldable pub load_lines : List Text → KindServer p → KindServer p
  load_lines [] s = s
  load_lines (l ∷ ls) s = load_lines ls (load_line l s)

  abbrev pub load_snapshot : Option Text → KindServer p → KindServer p
  load_snapshot none s = s
  load_snapshot (some file) s = load_lines (lines file) s

  unfoldable pub replay_put : ℕ → Text → Bytes → Option ℕ → KindServer p → KindServer p
  replay_put version key value expires_at s =
      if is_expired now expires_at
      then s
      else enter key (record { value = value; expires_at = expires_at; version = version }) s

  unfoldable pub replay_delete : Text → KindServer p → KindServer p
  replay_delete key s = tree_remove p key (unindex_old p key s)

  -- The commands of a transaction; one inside another is ignored. The version is `max_ver + 1`.
  unfoldable pub replay_commands : Commands → KindServer p → KindServer p
  replay_commands nil s = s
  replay_commands (cons (put key value expires_at) cmds) s =
      replay_commands cmds (replay_put (next_version s.global_version) key value expires_at s)
  replay_commands (cons (delete key) cmds) s = replay_commands cmds (replay_delete key s)
  replay_commands (cons (tx_commit _) cmds) s = replay_commands cmds s

  unfoldable pub replay_command : WalCommand → KindServer p → KindServer p
  replay_command (put key value expires_at) s = replay_put s.global_version key value expires_at s
  replay_command (delete key) s = replay_delete key s
  replay_command (tx_commit cmds) s = replay_commands cmds s

  -- `if tx_id > 0 { max_ver.max(tx_id) } else { max_ver + 1 }`.
  abbrev pub advance_version : ℕ → ℕ → ℕ
  advance_version tx_id max_ver = if ltb 0 tx_id then max max_ver tx_id else next_version max_ver

  unfoldable pub replay : List (ℕ × WalCommand) → KindServer p → KindServer p
  replay [] s = s
  replay ((tx_id, command) ∷ commands) s =
      replay commands
        (replay_command command (set_version (advance_version tx_id s.global_version) s))

  abbrev pub replay_wal : Option Text → KindServer p → KindServer p
  replay_wal none s = s
  replay_wal (some file) s = replay (read_all_commands p.codec file) s

  -- A schema file that cannot be read or parsed is ignored.
  abbrev pub registry_of : Option Text → SchemaRegistry
  registry_of none = Registry.new
  registry_of (some sdl) = (load_schema p.chars sdl Registry.new).0

  -- The server before any file is read.
  abbrev pub blank : p.caches.State → (snapshot schema wal : Option Text) → Bool → KindServer p
  blank cache snapshot schema wal is_replica = record {
    tree = p.records.empty;
    indexes = p.index_maps.empty;
    cache = cache;
    snapshot = snapshot;
    schema_registry = registry_of schema;
    wal = wal;
    global_version = 0;
    watch_tx = [];
    sync_tx = [];
    is_replica = is_replica;
  }

  -- `KindServerImpl::new`, with the files' texts in place of their paths.
  unfoldable pub new : (snapshot schema wal : Option Text) → Bool → Option (KindServer p)
  new snapshot schema wal is_replica = do
    cache ← p.caches.new 1000
    some (replay_wal wal (load_snapshot snapshot (blank cache snapshot schema wal is_replica)))
