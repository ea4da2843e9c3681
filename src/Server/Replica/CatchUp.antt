-- ===== src/Server/Replica/CatchUp.antt =====
-- `run_replica_loop` of src/replica.rs against `sync` of src/server.rs: a replica that is sent a
-- snapshot.
use kind.Prelude.{ℕ, List, ◌++◌, some, text_eq, map}
use kind.Server.State.{Platform, KindServer}
use kind.Server.Sync.{sync}
use kind.Server.Replica.Session.{StreamItem, message, streams, Attempt, connected}

module _ (p : Platform) where
  -- The leader, as it answers a request at a time; `tail` is what the stream meets behind that.
  abbrev pub leader : ℕ → KindServer p → List StreamItem → Attempt
  leader now s tail =
      connected (λ last. streams (map (λ x. message (some x)) (sync p now last s).0 ++ tail))
