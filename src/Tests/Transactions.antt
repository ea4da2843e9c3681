-- ===== src/Tests/Transactions.antt =====
-- Transactions on a server with one user.
use kind.Prelude.{◌≡◌, refl, [], ◌∷◌, Option, none, some, Text, text_eq, codes, arith}
use kind.Prelude.Result.{Result, ok, err}
use kind.Server.Record.{DbRecord}
use kind.Server.State.{KindServer}
use kind.Server.Effects.{lookup}
use kind.Server.Sound.{IsSound}
use kind.Server.Transaction.{TxHandle, DbError, conflict, commit}
use kind.Server.Transaction.Isolation.{CommitOutcome, commit-CommitOutcome}
use kind.Server.Transaction.Race.{first_committer_wins, delete_evades_conflict}
use kind.Tests.Samples.{platform, program, one_user, one_user-IsSound}

abbrev key : Text
key = codes "user:1"

abbrev pending_record : Text → DbRecord
pending_record value = record { value = value; expires_at = none; version = 0 }

-- Three transactions that were begun together.
abbrev moves_to_paris : TxHandle
moves_to_paris = record {
  write_set = (key, some (pending_record (codes "Paris"))) ∷ (codes "user:2", none) ∷ [];
  snapshot_version = 1;
}

abbrev moves_to_rome : TxHandle
moves_to_rome = record {
  write_set = (key, some (pending_record (codes "Rome"))) ∷ [];
  snapshot_version = 1;
}

abbrev leaves : TxHandle
leaves = record { write_set = (key, none) ∷ []; snapshot_version = 1 }

abbrev server_of : {R : Type 0} → Option (KindServer platform × R) → KindServer platform
server_of none = one_user
server_of (some (s, _)) = s

-- The server after a commit.
abbrev committed_by : TxHandle → KindServer platform
committed_by tx = server_of (commit platform tx one_user)

commit-CommitOutcome_example :
    (s' : KindServer platform) × (r : Result DbError (Unit {0})) × (commit platform moves_to_paris
        one_user
      ≡ some (s', r))
    × IsSound platform s'
    × CommitOutcome platform moves_to_paris one_user s' r
commit-CommitOutcome_example =
    commit-CommitOutcome platform moves_to_paris one_user one_user-IsSound

paris_first : commit platform moves_to_paris one_user ≡ some (committed_by moves_to_paris, ok tt)
unfolding program
paris_first = refl

first_committer_wins_example :
    commit platform moves_to_rome (committed_by moves_to_paris)
    ≡ some (committed_by moves_to_paris, err conflict)
unfolding program
first_committer_wins_example =
    first_committer_wins platform moves_to_paris moves_to_rome one_user
      (committed_by moves_to_paris) key (pending_record (codes "Paris")) one_user-IsSound
      (refl, (refl, tt)) refl refl (omega arith) (omega arith) paris_first

leaves_first : commit platform leaves one_user ≡ some (committed_by leaves, ok tt)
unfolding program
leaves_first = refl

delete_evades_conflict_example :
    (s'' : KindServer platform) × (commit platform moves_to_rome (committed_by leaves)
      ≡ some (s'', ok tt))
    × (lookup platform key s''
        ≡ some (record { value = codes "Rome"; expires_at = none; version = 3 }))
unfolding program
delete_evades_conflict_example =
    delete_evades_conflict platform leaves moves_to_rome one_user (committed_by leaves) key
      (pending_record (codes "Rome")) one_user-IsSound (refl, tt) refl refl leaves_first
