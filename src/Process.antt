-- ===== src/Process.antt =====
-- src/main.rs, and what `run_server` of src/server.rs starts: the arguments and the environment give
-- the paths of the files and the role of the server.
use kind.Prelude.{
  ℕ, Bool, List, [], ◌∷◌, Option, none, some, is_some, Text, codes, text_beq, if◌then◌else◌,
}
use kind.Wal
use kind.Server.State.{Platform, KindServer}
use kind.Server.Startup.{new}
use kind.Server.Replica.Session.{Attempt, host_of, run_replica_loop}

abbrev pub replica_flag : Text
replica_flag = codes "--replica-of"

-- The loop over the arguments behind the program's name. The flag takes the next argument, and
-- forgets an earlier one if there is none.
unfoldable pub parse_args : Option Text → List Text → Option Text
parse_args replica_of [] = replica_of
parse_args replica_of (arg ∷ []) = if text_beq arg replica_flag then none else replica_of
parse_args replica_of (arg ∷ next ∷ args) =
    let taken = parse_args (some next) args in
    let passed = parse_args replica_of (next ∷ args) in
    if text_beq arg replica_flag then taken else passed

pub record Config : Type 0 where
  pub snapshot_path : Text
  pub schema_path : Text
  pub wal_path : Text
  pub is_replica : Bool
  -- `KIND_REPLICA_OF` of the environment, which the argument sets.
  pub leader : Option Text

abbrev pub or_text : Option Text → Text → Text
or_text none t = t
or_text (some found) t = found

unfoldable pub configure : (Text → Option Text) → List Text → Config
unfolding parse_args
configure env args =
    let replica_of = parse_args none args in
    record {
      snapshot_path = or_text (env (codes "KIND_SNAPSHOT_PATH")) (codes "kind_snapshot.json");
      schema_path = or_text (env (codes "KIND_SCHEMA_PATH")) (codes "schema.ksl");
      wal_path = or_text (env (codes "KIND_WAL_PATH")) (codes "kind.wal");
      is_replica = is_some replica_of;
      leader = if is_some replica_of then replica_of else env (codes "KIND_REPLICA_OF");
    }

module _ (p : Platform) where
  -- The server that `run_server` builds; a file that is not there is read as an empty one.
  unfoldable pub start : ℕ → (Text → Option Text) → Config → Option (KindServer p)
  start now files config =
      new p now (some (or_text (files config.snapshot_path) []))
        (some (or_text (files config.schema_path) []))
        (some (Wal.open_file (files config.wal_path))) config.is_replica

  -- The task of the replica after `n` rounds; without a leader's address it has nothing to do.
  abbrev pub follow_leader :
      Option Text → (Text → ℕ → Attempt) → ℕ → KindServer p → Option (KindServer p)
  follow_leader none network n s = some s
  follow_leader (some leader_addr) network n s =
      run_replica_loop p (network (host_of leader_addr)) n s

  -- `if is_replica { if let Ok(leader_addr) = … { run_replica_loop(…) } }`, for a network.
  unfoldable pub follow : Config → (Text → ℕ → Attempt) → ℕ → KindServer p → Option (KindServer p)
  follow config network n s =
      if config.is_replica then follow_leader config.leader network n s else some s
