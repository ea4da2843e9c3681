-- ===== src/Tests/Operation.antt =====
-- Runs, background tasks, scans and queries on a server with one user.
use mathlib.Core.List.{Mem}
use kind.Prelude.{
  sym, subst, ◌∙◌, some_pair-fst, ◌≡◌, refl, true, false, [], ◌∷◌, none, some, Text, text_eq, codes,
  inl, All, filter, arith,
}
use kind.Prelude.Result.{ok}
use kind.Server.Record.{DbRecord}
use kind.Server.State.{KindServer}
use kind.Server.Effects.{lookup}
use kind.Server.Sound.{IsSound, IsCoherent}
use kind.Server.Reads.{QueryRequest, message, collect, prefix_scan, query}
use kind.Server.Reads.Get.{live}
use kind.Server.Reads.Scans.{has_prefix, prefix_scan_lem}
use kind.Server.Reads.Query.{IsResult, query_finds_indexed, query_finds_all}
use kind.Server.Maintenance.{sweep, save_snapshot_and_truncate_wal}
use kind.Server.Maintenance.Sweep.{sweep_removes_expired}
use kind.Server.Startup.{new}
use kind.Server.Startup.Restart.{restart_after_snapshot}
use kind.Server.Runs.{Run, start, next, puts, sweeps, saves, IsGood, Run-IsGood}
use kind.Prelude.{◌==◌, if◌then◌else◌, max}
use kind.Server.Writes.{PutRequest, CasRequest, put_request, cas_request}
use kind.Server.Writes.Put.{new_record, put_request-Writes}
use kind.Server.Writes.Expired.{cas_keeps_expired_index}
use kind.Wal.{append, put}
use kind.Server.Database.{Holds, AllAnswered, last_of, database_of}
use kind.Server.Database.Refines.{requests_refine_database}
use kind.Server.Index.Exact.{member, indexed_by}
use kind.Server.Startup.{replay_wal, replay_put}
use kind.Server.Startup.Stale.{replay_put_keeps_old_index}
use kind.Server.Startup.Replay.{put_survives_restart}
use kind.Tests.Codec.{wal_codec}
use kind.Tests.Samples.{
  platform, program, one_user, one_user-IsSound, one_user-IsCoherent, empty_server,
  empty_server-IsSound, empty_server-IsCoherent, after, put_berlin, put_berlin-returns,
}

abbrev key : Text
key = codes "user:1"

abbrev berlin : DbRecord
berlin = record { value = codes "Berlin"; expires_at = none; version = 1 }

-- A put, a sweep and a snapshot.
abbrev day :
    Run platform empty_server
      (save_snapshot_and_truncate_wal platform 9 (sweep platform 8 one_user))
day =
    next
      (next (next start (puts 5 put_berlin (ok true) put_berlin-returns) (inl refl)) (sweeps 8) tt)
      (saves 9) tt

Run-IsGood_example :
    IsGood platform (save_snapshot_and_truncate_wal platform 9 (sweep platform 8 one_user))
Run-IsGood_example =
    Run-IsGood platform day
      (record { sound = empty_server-IsSound; coherent = empty_server-IsCoherent })

requests_refine_database_example :
    AllAnswered platform day (database_of platform empty_server)
    × Holds platform
        (save_snapshot_and_truncate_wal platform 9 (sweep platform 8 one_user))
        (last_of platform day (database_of platform empty_server))
requests_refine_database_example =
    requests_refine_database platform empty_server-IsSound empty_server-IsCoherent day

sweep_removes_expired_example :
    IsSound platform (sweep platform 8 one_user)
    × IsCoherent platform (sweep platform 8 one_user)
    × ((k : Text)
        → lookup platform k (sweep platform 8 one_user) ≡ live 8 (lookup platform k one_user))
sweep_removes_expired_example =
    sweep_removes_expired platform 8 one_user one_user-IsSound one_user-IsCoherent

abbrev paris : DbRecord
paris = record { value = codes "Paris"; expires_at = none; version = 2 }

abbrev moved : KindServer platform
moved = replay_put platform 7 2 key paris.value paris.expires_at one_user

replay_put_keeps_old_index_example :
    (lookup platform key moved ≡ some (record paris { version = 2 }))
    × ((i k : Text)
        → member platform moved.indexes i k ≡ (
            if key == k
            then (if indexed_by platform one_user.schema_registry key i (some paris)
                then true
                else indexed_by platform one_user.schema_registry key i (some berlin))
            else member platform one_user.indexes i k))
unfolding program
replay_put_keeps_old_index_example =
    replay_put_keeps_old_index platform 7 2 key berlin paris one_user one_user-IsSound refl refl

restart_after_snapshot_example :
    (s' : KindServer platform) × (new platform 20
        (save_snapshot_and_truncate_wal platform 9 one_user).snapshot
        none
        (save_snapshot_and_truncate_wal platform 9 one_user).wal
        false
      ≡ some s')
    × IsSound platform s'
    × IsCoherent platform s'
    × ((k : Text) → lookup platform k s' ≡ live 20 (live 9 (lookup platform k one_user)))
unfolding program
restart_after_snapshot_example = restart_after_snapshot platform 9 20 one_user [] none false refl

prefix_scan_lem_example :
    prefix_scan platform 9 (codes "user") [] one_user
    ≡ collect platform 9 []
        (filter (has_prefix (codes "user")) (platform.records.iter one_user.tree))
prefix_scan_lem_example = prefix_scan_lem platform 9 (codes "user") [] one_user

abbrev in_berlin : QueryRequest
in_berlin = record {
  schema_type = codes "User";
  field = codes "city";
  value = codes "Berlin";
  limit = none;
  offset = none;
}

query_finds_indexed_example :
    All
      (IsResult platform 9 (codes "User:city:Berlin") one_user)
      (query platform 9 in_berlin one_user)
query_finds_indexed_example = query_finds_indexed platform 9 in_berlin one_user one_user-IsSound

query_finds_all_example : Mem (message key berlin) (query platform 9 in_berlin one_user)
unfolding program
query_finds_all_example =
    query_finds_all platform 9 in_berlin one_user ((key, tt) ∷ [], tt) key berlin one_user-IsSound
      refl refl (omega arith) refl refl refl

abbrev put_paris : PutRequest
put_paris = record { key = key; value = codes "Paris"; ttl_ms = some 10 }

abbrev log : Text
log = append wal_codec 1 (put key (codes "Berlin") none) []

-- The start is at 12, when the put has not expired.
put_survives_restart_example :
    (s' : KindServer platform) × (put_request platform 7 put_paris one_user ≡ some (s', ok true))
    × ((k : Text)
        → lookup platform k (replay_wal platform 12 s'.wal empty_server) ≡ (
            if key == k
            then some (record {
              value = codes "Paris";
              expires_at = some 17;
              version = max (replay_wal platform 12 one_user.wal empty_server).global_version 2;
            })
            else lookup platform k (replay_wal platform 12 one_user.wal empty_server)))
unfolding program
put_survives_restart_example =
    put_survives_restart platform 12 7 put_paris one_user empty_server log one_user-IsSound refl
      refl refl (omega arith)

-- A user whose record expires at 15.
abbrev short_stay : PutRequest
short_stay = record { key = key; value = codes "Berlin"; ttl_ms = some 10 }

abbrev staying : KindServer platform
staying = after empty_server (put_request platform 5 short_stay empty_server)

short_stay-returns : put_request platform 5 short_stay empty_server ≡ some (staying, ok true)
unfolding program
short_stay-returns = refl

staying-IsSound : IsSound platform staying
staying-IsSound =
    let (s', returns, sound, _, _) =
      put_request-Writes platform 5 short_stay empty_server empty_server-IsSound refl in
    subst (IsSound platform) (some_pair-fst (sym returns ∙ short_stay-returns)) sound

abbrev to_paris : CasRequest
to_paris = record { key = key; expected_value = []; new_value = codes "Paris"; ttl_ms = none }

cas_keeps_expired_index_example :
    (s' : KindServer platform) × (cas_request platform 20 to_paris staying ≡ some (s', ok true))
    × (lookup platform key s' ≡ some (new_record platform staying (codes "Paris") none))
    × ((i : Text)
        → member platform s'.indexes i key ≡ (
            if indexed_by platform staying.schema_registry key i
              (some (new_record platform staying (codes "Paris") none))
            then true
            else indexed_by platform staying.schema_registry key i
                (some (record { value = codes "Berlin"; expires_at = some 15; version = 1 }))))
unfolding program
cas_keeps_expired_index_example =
    cas_keeps_expired_index platform 20 to_paris staying
      (record { value = codes "Berlin"; expires_at = some 15; version = 1 }) staying-IsSound refl
      refl refl refl
