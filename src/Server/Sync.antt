-- ===== src/Server/Sync.antt =====
-- src/server.rs, lines 690-801: what the leader sends to a replica.
use kind.Prelude.{
  ℕ, List, [], ◌∷◌, ◌++◌, Option, none, some, Text, ltb, leb, nat_beq, length, if◌then◌else◌,
}
use kind.Wal.{WalCommand, read_from_tx_id}
use kind.Server.Record.{DbRecord, is_expired, next_version}
use kind.Server.State.{Platform, KindServer}
use kind.Server.Reads.{RecordMessage, message}

-- `SyncPayload`; the JSON of a log record is its text.
pub data SyncPayload : Type 0 where
  snapshot_chunk : List RecordMessage → ℕ → SyncPayload
  wal_record : ℕ → Text → SyncPayload

-- `require_snapshot`, or the records of the log to send.
pub data Plan : Type 0 where
  require_snapshot : Plan
  send_records : List (ℕ × Text) → Plan

abbrev pub plan_records : ℕ → ℕ → List (ℕ × Text) → Plan
plan_records last global [] = if ltb last global then require_snapshot else send_records []
plan_records last global ((first, line) ∷ records) =
    if ltb (next_version last) first
    then require_snapshot
    else send_records ((first, line) ∷ records)

abbrev pub plan_log : (Text → List (ℕ × Text)) → ℕ → ℕ → Option Text → Plan
plan_log read last global none = require_snapshot
plan_log read last global (some file) = plan_records last global (read file)

-- The payload of the last chunk: what is left, or an empty chunk of a leader without a version.
abbrev pub last_chunk : ℕ → List RecordMessage → List SyncPayload
last_chunk max_tx_id [] = if nat_beq max_tx_id 0 then snapshot_chunk [] max_tx_id ∷ [] else []
last_chunk max_tx_id (m ∷ chunk) = snapshot_chunk (m ∷ chunk) max_tx_id ∷ []

-- The records of the log, as payloads.
unfoldable pub record_payloads : List (ℕ × Text) → List SyncPayload
record_payloads [] = []
record_payloads ((tx_id, json) ∷ records) = wal_record tx_id json ∷ record_payloads records

-- `start_streaming_tx_id` behind the records: the id of the last one.
unfoldable pub last_sent : ℕ → List (ℕ × Text) → ℕ
last_sent last [] = last
last_sent last ((tx_id, _) ∷ records) = last_sent tx_id records

module _ (p : Platform) where
  unfoldable pub plan : ℕ → KindServer p → Plan
  plan last s =
      if nat_beq last 0
      then require_snapshot
      else plan_log (λ file. read_from_tx_id p.codec file (next_version last)) last s.global_version
          s.wal

  -- The loop over the tree: a chunk is sent when it holds a hundred records.
  unfoldable pub chunks : ℕ → ℕ → List RecordMessage → List (Text × DbRecord) → List SyncPayload
  chunks now max_tx_id chunk [] = last_chunk max_tx_id chunk
  chunks now max_tx_id chunk ((key, rec) ∷ entries) =
      let full = chunk ++ message key rec ∷ [] in
      let skip = chunks now max_tx_id chunk entries in
      let flush = snapshot_chunk full max_tx_id ∷ chunks now max_tx_id [] entries in
      let keep = chunks now max_tx_id full entries in
      if is_expired now rec.expires_at then skip else if leb 100 (length full) then flush else keep

  -- What is sent before streaming, and the id from which streaming starts.
  abbrev pub run_plan : ℕ → ℕ → KindServer p → Plan → List SyncPayload × ℕ
  run_plan now last s require_snapshot =
      (chunks now s.global_version [] (p.records.iter s.tree), s.global_version)
  run_plan now last s (send_records records) = (record_payloads records, last_sent last records)

  unfoldable pub sync : ℕ → ℕ → KindServer p → List SyncPayload × ℕ
  sync now last s = run_plan now last s (plan last s)

  -- The streaming loop over what the channel delivers. The checksum field is 0.
  unfoldable pub stream : ℕ → List (ℕ × WalCommand) → List SyncPayload
  stream start [] = []
  stream start ((tx_id, command) ∷ sent) =
      let rest = stream start sent in
      if leb tx_id start
      then rest
      else wal_record tx_id
          (p.codec.envelope_text (record { c = command; k = 0; tx_id = tx_id }) ++ b'\n' ∷ [])
        ∷ rest
