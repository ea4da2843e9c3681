-- ===== src/Tests/Replication.antt =====
-- A replica of a server with one user, and a put on the leader.
use kind.Prelude.{
  ℕ, zero, suc, none, zero, suc, none, ◌≡◌, refl, true, [], ◌∷◌, ◌++◌, some, text_eq, codes, arith,
}
use kind.Prelude.Result.{ok}
use kind.Wal.{put}
use kind.Server.State.{KindServer}
use kind.Server.Sound.{IsSound}
use kind.Server.Sync.{stream}
use kind.Server.Replica.{receive_all}
use kind.Server.Broadcast.{by_put}
use kind.Server.Replica.Level.{IsLevel, replica_follows_leader}
use kind.Server.Writes.{PutRequest, put_request}
use kind.Server.Record.{expiry, next_version}
use kind.Server.Replica.Session.{Attempt, no_connection, connected, streams, message, stream_error}
use kind.Server.Replica.CatchUp.{leader}
use kind.Tests.Samples.{empty_server, platform, program, one_user, one_user-IsSound, after}

abbrev replica : KindServer platform
replica = record one_user { is_replica = true }

replica-IsSound : IsSound platform replica
replica-IsSound = record { cache = one_user-IsSound.cache; exact = one_user-IsSound.exact }

abbrev put_paris : PutRequest
put_paris = record { key = codes "user:1"; value = codes "Paris"; ttl_ms = some 10 }

abbrev moved : KindServer platform
moved = after one_user (put_request platform 7 put_paris one_user)

put_paris-returns : put_request platform 7 put_paris one_user ≡ some (moved, ok true)
unfolding program
put_paris-returns = refl

replica_follows_leader_example :
    (r' : KindServer platform) × (moved.sync_tx
      ≡ one_user.sync_tx
        ++ (
          next_version one_user.global_version,
          put put_paris.key put_paris.value (expiry 7 put_paris.ttl_ms),
        )
          ∷ [])
    × (receive_all platform
          (stream platform one_user.global_version (
            (
              next_version one_user.global_version,
              put put_paris.key put_paris.value (expiry 7 put_paris.ttl_ms),
            )
            ∷ []))
          replica
        ≡ some r')
    × IsSound platform r'
    × IsLevel platform moved r'
unfolding program
replica_follows_leader_example =
    replica_follows_leader platform one_user moved replica one_user-IsSound replica-IsSound
      (record { version = refl; lookups = λ k. refl }) (omega arith)
      (by_put 7 put_paris put_paris-returns)

-- A replica that was just started.
abbrev fresh : KindServer platform
fresh = record empty_server { is_replica = true }

-- No connection, then a stream that breaks after an empty message, and then the leader, whose
-- stream breaks behind the snapshot.
abbrev network : ℕ → Attempt
network zero = no_connection
network (suc zero) = connected (λ last. streams (message none ∷ stream_error ∷ []))
network (suc (suc _)) = leader platform 6 one_user (stream_error ∷ message none ∷ [])
