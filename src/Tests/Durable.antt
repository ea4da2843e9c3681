-- ===== src/Tests/Durable.antt =====
-- Writes to a server that was just started, and a start from their log.
use kind.Prelude.{
  ap, is_some, false-ne-true, ◌∷◌, ◌≢◌, ◌≡◌, refl, true, false, [], Option, none, some, Text, codes,
  arith,
}
use kind.Prelude.Result.{ok, err}
use kind.Wal.{read_all_commands}
use kind.Server.State.{KindServer}
use kind.Server.Effects.{lookup}
use kind.Server.Writes.{CasRequest, put_request, cas_request, PutRequest}
use kind.Server.Broadcast.{by_put, by_cas}
use kind.Wal.{Commands, nil, cons, put, tx_commit}
use kind.Server.Record.{DbRecord}
use kind.Server.Transaction.{conflict, tx_put, begin_transaction, commit}
use kind.Server.Startup.Ahead.{recovered_commit_conflicts}
use kind.Server.Startup.{new, replay, replay_command, replay_commands, replay_put, enter}
use kind.Server.Startup.Content.{content}
use kind.Server.Startup.Durable.{Writings, start, next, writes_survive_restart}
use kind.Tests.Samples.{empty_server, platform, program, after}

abbrev or_empty : Option (KindServer platform) → KindServer platform
or_empty none = empty_server
or_empty (some s) = s

abbrev started : KindServer platform
started = or_empty (new platform 5 none none (some []) false)

started-returns : new platform 5 none none (some []) false ≡ some started
unfolding program new replay read_all_commands
started-returns = refl

abbrev put_berlin : PutRequest
put_berlin = record { key = codes "user:1"; value = codes "Berlin"; ttl_ms = some 10 }

abbrev in_berlin : KindServer platform
in_berlin = after started (put_request platform 5 put_berlin started)

put_berlin-returns : put_request platform 5 put_berlin started ≡ some (in_berlin, ok true)
unfolding program new replay read_all_commands
put_berlin-returns = refl

abbrev swap_paris : CasRequest
swap_paris = record {
  key = codes "user:1";
  expected_value = codes "Berlin";
  new_value = codes "Paris";
  ttl_ms = some 10;
}

abbrev in_paris : KindServer platform
in_paris = after in_berlin (cas_request platform 6 swap_paris in_berlin)

swap_paris-returns : cas_request platform 6 swap_paris in_berlin ≡ some (in_paris, ok true)
unfolding program new replay read_all_commands
swap_paris-returns = refl

unfoldable moves : Writings platform 12 started in_paris
unfolding program new replay read_all_commands
moves =
    next (next start (by_put 5 put_berlin put_berlin-returns) tt refl)
      (by_cas 6 swap_paris swap_paris-returns) refl refl

writes_survive_restart_example :
    (r : KindServer platform) × (new platform 12 none none in_paris.wal false ≡ some r)
    × ((k : Text) → content (lookup platform k r) ≡ content (lookup platform k in_paris))
unfolding program moves
writes_survive_restart_example =
    writes_survive_restart platform 12 5 none none false started in_paris started-returns moves
      (omega arith)

-- The log has one transaction.
abbrev moved_in : Commands
moved_in = cons (put (codes "user:1") (codes "Berlin") none) nil

abbrev recovered : KindServer platform
recovered = replay platform 7 ((1, tx_commit moved_in) ∷ []) empty_server

abbrev berlin : DbRecord
berlin = record { value = codes "Berlin"; expires_at = none; version = 2 }

berlin_there : lookup platform (codes "user:1") recovered ≡ some berlin
unfolding program replay replay_command replay_commands replay_put enter
berlin_there = refl

berlin_new : lookup platform (codes "user:1") empty_server ≢ some berlin
unfolding program
berlin_new e = false-ne-true (ap is_some e)

recovered_commit_conflicts_example :
    commit platform
      (tx_put 8 (codes "user:1") (codes "Paris") none (begin_transaction platform recovered))
      recovered
    ≡ some (recovered, err conflict)
recovered_commit_conflicts_example =
    recovered_commit_conflicts platform 7 1 8 moved_in empty_server recovered (codes "user:1")
      berlin (codes "Paris") none refl refl (omega arith) (omega arith) (omega arith) berlin_there
      berlin_new
