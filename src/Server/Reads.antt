-- ===== src/Server/Reads.antt =====
-- src/server.rs, lines 354-378, 467-487 and 550-597: the requests that read.
pub mod Get
pub mod Scans
pub mod Filters
pub mod Range
pub mod Query
use kind.Prelude.{
  ℕ, Bool, true, false, not, ◌&&◌, List, [], ◌∷◌, ◌++◌, Option, none, some, Text, starts_with, take,
  drop, if◌then◌else◌,
}
use kind.Prelude.Optional.{◌>>=◌}
use kind.Prelude.Result.{ok, err}
use kind.Wal.{Bytes}
use kind.Server.Record.{DbRecord, is_expired}
use kind.Server.State.{Platform, KindServer, ScanFilter, WatchEvent, matches_filters}
use kind.Server.Index.{index_key, remove_record_from_index}
use kind.Server.Effects.{Reply, not_found, lookup, tree_remove}

-- The message `Record` of the service.
pub record RecordMessage : Type 0 where
  pub key : Text
  pub value : Bytes
  pub expires_at : Option ℕ

pub record QueryRequest : Type 0 where
  pub schema_type : Text
  pub field : Text
  pub value : Text
  pub limit : Option ℕ
  pub offset : Option ℕ

abbrev pub message : Text → DbRecord → RecordMessage
message key rec = record { key = key; value = rec.value; expires_at = rec.expires_at }

-- `unwrap_or`.
abbrev pub or_default : Option ℕ → ℕ → ℕ
or_default none d = d
or_default (some n) d = n

module _ (p : Platform) where
  -- The `match` on the tree's entry, behind a miss of the cache.
  unfoldable pub get_stored : ℕ → Text → Option DbRecord → KindServer p → Reply p RecordMessage
  get_stored now key none s = some (s, err not_found)
  get_stored now key (some rec) s =
      if is_expired now rec.expires_at
      then some (tree_remove p key (remove_record_from_index p key rec.value s), err not_found)
      else some (s, ok (message key rec))

  abbrev pub get_from : ℕ → Text → Option Bytes → KindServer p → Reply p RecordMessage
  get_from now key (some val) s =
      some (s, ok (record { key = key; value = val; expires_at = none }))
  get_from now key none s = get_stored now key (lookup p key s) s

  unfoldable pub get_request : ℕ → Text → KindServer p → Reply p RecordMessage
  get_request now key s = do
    (cache, hit) ← p.caches.get s.cache key
    get_from now key hit (record s { cache = cache })

  -- The test inside the scans.
  abbrev pub is_result : ℕ → List ScanFilter → DbRecord → Bool
  is_result now filters rec =
      if is_expired now rec.expires_at then false else matches_filters p.json rec.value filters

  -- The loop of `range_scan`.
  unfoldable pub collect : ℕ → List ScanFilter → List (Text × DbRecord) → List RecordMessage
  collect now filters [] = []
  collect now filters ((key, rec) ∷ entries) =
      let rest = collect now filters entries in
      if is_result now filters rec then message key rec ∷ rest else rest

  unfoldable pub range_scan : ℕ → Text → Text → List ScanFilter → KindServer p → List RecordMessage
  range_scan now lo hi filters s = collect now filters (p.records.range_between s.tree lo hi)

  -- The loop of `prefix_scan`, which stops at the first key without the prefix.
  unfoldable pub collect_prefix :
      ℕ → Text → List ScanFilter → List (Text × DbRecord) → List RecordMessage
  collect_prefix now prefix filters [] = []
  collect_prefix now prefix filters ((key, rec) ∷ entries) =
      let rest = collect_prefix now prefix filters entries in
      if starts_with key prefix
      then (if is_result now filters rec then message key rec ∷ rest else rest)
      else []

  unfoldable pub prefix_scan : ℕ → Text → List ScanFilter → KindServer p → List RecordMessage
  prefix_scan now prefix filters s =
      collect_prefix now prefix filters (p.records.range_from s.tree prefix)

  -- `filter_map` on the records that are live.
  unfoldable pub live_records : ℕ → List (Text × DbRecord) → List DbRecord
  live_records now [] = []
  live_records now ((_, rec) ∷ entries) =
      let rest = live_records now entries in
      if not (is_expired now rec.expires_at) then rec ∷ rest else rest

  unfoldable pub db_range_scan : ℕ → Text → Text → KindServer p → List DbRecord
  db_range_scan now lo hi s = live_records now (p.records.range_between s.tree lo hi)

  -- The loop of `KindServerImpl::prefix_scan`.
  unfoldable pub live_with_prefix : ℕ → Text → List (Text × DbRecord) → List DbRecord
  live_with_prefix now prefix [] = []
  live_with_prefix now prefix ((key, rec) ∷ entries) =
      let rest = live_with_prefix now prefix entries in
      if starts_with key prefix
      then (if not (is_expired now rec.expires_at) then rec ∷ rest else rest)
      else []

  unfoldable pub db_prefix_scan : ℕ → Text → KindServer p → List DbRecord
  db_prefix_scan now prefix s = live_with_prefix now prefix (p.records.range_from s.tree prefix)

  -- The body of the loop of `query`: the record of an indexed key, if it is there and live.
  abbrev pub query_result : ℕ → Text → Option DbRecord → List RecordMessage
  query_result now key none = []
  query_result now key (some rec) =
      if is_expired now rec.expires_at then [] else message key rec ∷ []

  unfoldable pub query_keys : ℕ → List (Text × Unit {0}) → KindServer p → List RecordMessage
  query_keys now [] s = []
  query_keys now ((key, _) ∷ keys) s =
      query_result now key (lookup p key s) ++ query_keys now keys s

  unfoldable pub query : ℕ → QueryRequest → KindServer p → List RecordMessage
  query now req s =
      elim (p.index_maps.get s.indexes (index_key req.schema_type req.field req.value)) [
        | none ↦ []
        | some set ↦
            query_keys now
              (take (or_default req.limit 100)
                (drop (or_default req.offset 0) (p.key_sets.iter set)))
              s
      ]

  -- The filter of `watch` over the events that a subscriber receives.
  unfoldable pub watch_events : Text → List WatchEvent → List WatchEvent
  watch_events prefix [] = []
  watch_events prefix (event ∷ events) =
      let rest = watch_events prefix events in
      if starts_with event.key prefix then event ∷ rest else rest
