-- ===== src/Server/Replica/Session.antt =====
-- src/replica.rs, lines 9-90: the loop that connects, asks for what is missing, and receives. The
-- network is what each round meets: no connection, a refused request, or a stream that depends on
-- the version asked from.
use kind.Prelude.{
  ℕ, zero, suc, List, [], ◌∷◌, ◌++◌, Option, none, some, Text, codes, starts_with, if◌then◌else◌,
}
use kind.Prelude.Optional.{◌>>=◌}
use kind.Server.State.{Platform, KindServer}
use kind.Server.Sync.{SyncPayload}
use kind.Server.Replica.{receive}

-- `host`: the address, with a scheme.
unfoldable pub host_of : Text → Text
host_of leader_addr =
    if starts_with leader_addr (codes "http") then leader_addr else codes "http://" ++ leader_addr

-- What `stream.next()` gives: a message, whose `payload` may be missing, or an error.
pub data StreamItem : Type 0 where
  message : Option SyncPayload → StreamItem
  stream_error : StreamItem

-- `client.sync(req)`.
pub data SyncAnswer : Type 0 where
  sync_failed : SyncAnswer
  streams : List StreamItem → SyncAnswer

-- `KindServiceClient::connect`, and the leader's answer to a request with a `last_known_tx_id`.
pub data Attempt : Type 0 where
  no_connection : Attempt
  connected : (ℕ → SyncAnswer) → Attempt

module _ (p : Platform) where
  -- The loop over the stream.
  unfoldable pub receive_stream : List StreamItem → KindServer p → Option (KindServer p)
  receive_stream [] s = some s
  receive_stream (message none ∷ items) s = receive_stream items s
  receive_stream (message (some payload) ∷ items) s = do
    (goes_on, s') ← receive p payload s
    let rest = receive_stream items s'
    if goes_on then rest else some s'
  receive_stream (stream_error ∷ items) s = some s

  abbrev pub receive_answer : SyncAnswer → KindServer p → Option (KindServer p)
  receive_answer sync_failed s = some s
  receive_answer (streams items) s = receive_stream items s

  -- One round of the loop.
  unfoldable pub attempt : Attempt → KindServer p → Option (KindServer p)
  attempt no_connection s = some s
  attempt (connected answer) s = receive_answer (answer s.global_version) s

  -- The loop has no end: this is the replica after its first `n` rounds, where `network k` is what
  -- round `k` meets.
  unfoldable pub run_replica_loop : (ℕ → Attempt) → ℕ → KindServer p → Option (KindServer p)
  run_replica_loop network zero s = some s
  run_replica_loop network (suc n) s = do s' ← run_replica_loop network n s; attempt (network n) s'
