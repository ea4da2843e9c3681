-- ===== src/Server/Maintenance.antt =====
-- src/server.rs, lines 315-343 and 817-835: the snapshot, and the sweep of expired records.
pub mod Sweep
use kind.Prelude.{ℕ, List, [], ◌∷◌, ◌++◌, Option, none, some, Text, if◌then◌else◌}
use mathlib.Core.Option
use kind.Wal.{truncate}
use kind.Server.Record.{DbRecord, is_expired}
use kind.Server.State.{Platform, KindServer}
use kind.Server.Index.{remove_record_from_index}
use kind.Server.Effects.{tree_remove}

module _ (p : Platform) (now : ℕ) where
  -- The loop that writes the snapshot.
  unfoldable pub snapshot_text : List (Text × DbRecord) → Text
  snapshot_text [] = []
  snapshot_text ((key, rec) ∷ entries) =
      let rest = snapshot_text entries in
      if is_expired now rec.expires_at
      then rest
      else p.snapshots.record_text key rec ++ (b'\n' ∷ rest)

  -- The new file replaces the old one in one step, and then the log is emptied.
  abbrev pub save_to : Option Text → KindServer p → KindServer p
  save_to none s = s
  save_to (some _) s = record s {
    snapshot = some (snapshot_text (p.records.iter s.tree));
    wal = Option.map (truncate p.codec) s.wal;
  }

  unfoldable pub save_snapshot_and_truncate_wal : KindServer p → KindServer p
  save_snapshot_and_truncate_wal s = save_to s.snapshot s

  -- The first loop of a tick of the eviction task.
  unfoldable pub expired_entries : List (Text × DbRecord) → List (Text × DbRecord)
  expired_entries [] = []
  expired_entries ((key, rec) ∷ entries) =
      let rest = expired_entries entries in
      if is_expired now rec.expires_at then (key, rec) ∷ rest else rest

  -- The second.
  unfoldable pub evict_entries : List (Text × DbRecord) → KindServer p → KindServer p
  evict_entries [] s = s
  evict_entries ((key, rec) ∷ entries) s =
      evict_entries entries (tree_remove p key (remove_record_from_index p key rec.value s))

  unfoldable pub sweep : KindServer p → KindServer p
  sweep s = evict_entries (expired_entries (p.records.iter s.tree)) s
