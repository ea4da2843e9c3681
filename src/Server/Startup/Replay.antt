-- ===== src/Server/Startup/Replay.antt =====
-- `KindServerImpl::new` of src/server.rs on a log that ends with a put.
use mathlib.Core.Option
use kind.Prelude.{
  ℕ, ◌+◌, ◌<◌, ◌^◌, ◌≡◌, refl, sym, ap, ◌∙◌, Bool, true, false, List, [], ◌∷◌, ◌++◌, Option, some,
  Text, text_eq, ◌==◌, arith, ltb, max, Bool-cases, inl, inr, if_true, if_false, if◌then◌else◌,
}
use kind.Prelude.Result.{ok}
use kind.Wal.{Bytes, WalCommand, put, append, read_all_commands}
use kind.Wal.Lines.{IsClosed}
use kind.Wal.Recovery.{read_all_commands-append}
use kind.Server.Record.{DbRecord, is_expired, expiry, next_version}
use kind.Server.State.{Platform, KindServer}
use kind.Server.Index.{index_record}
use kind.Server.Effects.{lookup, tree_insert}
use kind.Server.Sound.{IsSound}
use kind.Server.Writes.{PutRequest, put_request}
use kind.Server.Writes.Put.{put_request-Writes}
use kind.Server.Startup.{enter, replay_put, replay_command, replay, replay_wal}

module _ (p : Platform) (later : ℕ) where
  replay-append :
      (xs ys : List (ℕ × WalCommand)) (s : KindServer p)
      → replay p later (xs ++ ys) s ≡ replay p later ys (replay p later xs s)
  unfolding replay
  replay-append [] ys s = refl
  replay-append ((v, c) ∷ xs) ys s = replay-append xs ys _

  -- The entry of a key after a put is replayed; one that has expired is passed over.
  abbrev pub replayed : Bool → Option DbRecord → DbRecord → Option DbRecord
  replayed expired before rec = if expired then before else some rec

  pub lookup-replay_put :
      (version : ℕ) (key : Text) (value : Bytes) (t : Option ℕ) (s : KindServer p) (k : Text)
      → lookup p k (replay_put p later version key value t s) ≡ (
          if key == k
          then replayed
              (is_expired later t)
              (lookup p k s)
              (record { value = value; expires_at = t; version = version })
          else lookup p k s)
  unfolding replay_put enter tree_insert index_record
  lookup-replay_put version key value t s k = elim (Bool-cases (is_expired later t)) [
    | inl expired ↦ ap (lookup p k) (if_true _ _ _ expired) ∙ ground (arith, expired)
    | inr fresh ↦
        ap (lookup p k) (if_false _ _ _ fresh)
        ∙ p.records.get-insert s.tree key k
            (record { value = value; expires_at = t; version = version })
        ∙ ground (arith, fresh)
  ]

  pub replay_wal-append :
      (v : ℕ) (command : WalCommand) (file : Text) (b : KindServer p)
      → IsClosed file
      → 0 < v
      → replay_wal p later (some (append p.codec v command file)) b
        ≡ replay_command p later command (record (replay_wal p later (some file) b) {
          global_version = max (replay_wal p later (some file) b).global_version v;
        })
  unfolding replay
  replay_wal-append v command file b closed positive =
      let s = replay_wal p later (some file) b in
      ap (λ commands. replay p later commands b)
        (read_all_commands-append p.codec v command file closed)
      ∙ replay-append (read_all_commands p.codec file) ((v, command) ∷ []) b
      ∙ ap (λ n. replay_command p later command (record s { global_version = n }))
          (if_true (ltb 0 v) _ _ (ground (arith, positive)))

  -- The entry of a key after the log `wal`, and then a put, have been replayed.
  abbrev put_entry :
      Option Text → ℕ → Text → Bytes → Option ℕ → KindServer p → Text → Option DbRecord
  put_entry wal v key value t b k =
      let before = replay_wal p later wal b in
      if key == k
      then replayed (is_expired later t) (lookup p k before)
          (record { value = value; expires_at = t; version = max before.global_version v })
      else lookup p k before

  lookup-replay_wal :
      (v : ℕ) (key : Text) (value : Bytes) (t : Option ℕ) (file : Text) (b : KindServer p)
      (k : Text)
      → IsClosed file
      → 0 < v
      → lookup p k (replay_wal p later (some (append p.codec v (put key value t) file)) b)
        ≡ put_entry (some file) v key value t b k
  unfolding replay_command
  lookup-replay_wal v key value t file b k closed positive =
      let s = replay_wal p later (some file) b in
      ap (lookup p k) (replay_wal-append v (put key value t) file b closed positive)
      ∙ lookup-replay_put (max s.global_version v) key value t
          (record s { global_version = max s.global_version v }) k

  -- Let a put run on a sound leader whose log is complete and whose version counter does not wrap.
  -- It succeeds, and the tree after a start that replays the log then differs from the tree after
  -- a start that replays the log without the put in the entry of its key only: if the record has
  -- not expired by then, this is the record, at the version of the put or the one that the replay
  -- had reached if that is larger; if it has expired, this is still the entry that the replay
  -- without the put gives.
  pub put_survives_restart :
      (now : ℕ) (req : PutRequest) (s b : KindServer p) (file : Text)
      → IsSound p s
      → s.is_replica ≡ false
      → s.wal ≡ some file
      → IsClosed file
      → s.global_version + 1 < 2 ^ 64
      → (s' : KindServer p) × (put_request p now req s ≡ some (s', ok true))
        × ((k : Text)
            → lookup p k (replay_wal p later s'.wal b) ≡ (
                if req.key == k
                then replayed
                    (is_expired later (expiry now req.ttl_ms))
                    (lookup p k (replay_wal p later s.wal b))
                    (record {
                      value = req.value;
                      expires_at = expiry now req.ttl_ms;
                      version =
                          max (replay_wal p later s.wal b).global_version (s.global_version + 1);
                    })
                else lookup p k (replay_wal p later s.wal b)))
  put_survives_restart now req s b file sound leader logs closed small =
      let (s', returns, _, w, _) = put_request-Writes p now req s sound leader in
      let v = next_version s.global_version in
      let t = expiry now req.ttl_ms in
      let next : v ≡ s.global_version + 1 = ground (arith, small) in
      (
        s',
        returns,
        λ k.
            ap (λ wal. lookup p k (replay_wal p later wal b))
              (w.logged ∙ ap (Option.map (append p.codec v (put req.key req.value t))) logs)
            ∙ lookup-replay_wal v req.key req.value t file b k closed (omega (arith, next))
            ∙ ap (λ wal. put_entry wal v req.key req.value t b k) (sym logs)
            ∙ ap (λ n. put_entry s.wal n req.key req.value t b k) next,
      )
