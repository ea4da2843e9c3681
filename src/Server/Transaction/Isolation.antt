-- ===== src/Server/Transaction/Isolation.antt =====
-- `TxHandle::commit` of src/server.rs: the test for conflicts, and the whole commit.
use mathlib.Core.Option
use kind.Prelude.{
  ℕ, ◌≡◌, ◌≤◌, ◌<◌, sym, ap, ◌∙◌, true, false, [], ◌∷◌, ◌++◌, some, Text, is_some, text_eq,
  text_beq_iff, ◌==◌, arith, ltb, ltb→lt, Bool-cases, Option-cases, inl, inr, if_true, if_false,
  false-ne-true,
}
use kind.Prelude.Map
use kind.Prelude.Optional.{◌>>=◌}
use kind.Prelude.Result.{Result, ok, err}
use kind.Wal.{tx_commit, append}
use kind.Server.Record.{DbRecord, next_version}
use kind.Server.State.{Platform, KindServer}
use kind.Server.Effects.{lookup, bump_version, wal_append, send_sync}
use kind.Server.Sound.{IsSound}
use kind.Server.Transaction.{
  DbError, conflict, commit_failed, WriteSet, TxHandle, pending, is_newer, has_conflict, log_commit,
  commit,
}
use kind.Server.Transaction.Commit.{written, events, uncached, apply_writes-Applies}

module _ (p : Platform) where
  -- A key of the write set has a record that is newer than the snapshot.
  pub record Newer (snapshot : ℕ) (ws : WriteSet) (s : KindServer p) : Type 0 where
    pub key : Text
    pub current : DbRecord
    pub in_write_set : Map.contains_key key ws ≡ true
    pub stored : lookup p key s ≡ some current
    pub newer : snapshot < current.version

  abbrev pub NoneNewer : ℕ → WriteSet → KindServer p → Type 0
  NoneNewer snapshot ws s =
      (k : Text) (current : DbRecord)
      → Map.contains_key k ws ≡ true
      → lookup p k s ≡ some current
      → current.version ≤ snapshot

  pub has_conflict_sound :
      (snapshot : ℕ) (ws : WriteSet) (s : KindServer p)
      → has_conflict p snapshot ws s ≡ true
      → Newer snapshot ws s
  unfolding has_conflict Map.get
  has_conflict_sound snapshot [] s h = absurd (false-ne-true h)
  has_conflict_sound snapshot ((k, v) ∷ ws) s h =
      elim (Bool-cases (is_newer p snapshot (lookup p k s))) [
        | inl found ↦ elim (Option-cases (lookup p k s)) [
          | inl missing ↦ absurd (false-ne-true (sym (ap (is_newer p snapshot) missing) ∙ found))
          | inr (current, stored) ↦ record {
            key = k;
            current = current;
            in_write_set = ground (arith, text_beq_iff k k);
            stored = stored;
            newer = ltb→lt _ _ (sym (ap (is_newer p snapshot) stored) ∙ found);
          }
        ]
        | inr not_here ↦
            let n = has_conflict_sound snapshot ws s (sym (if_false _ _ _ not_here) ∙ h) in
            record {
              key = n.key;
              current = n.current;
              in_write_set = ground (arith, n.in_write_set);
              stored = n.stored;
              newer = n.newer;
            }
      ]

  pub has_conflict_complete :
      (snapshot : ℕ) (ws : WriteSet) (s : KindServer p)
      → has_conflict p snapshot ws s ≡ false
      → NoneNewer snapshot ws s
  unfolding has_conflict Map.get
  has_conflict_complete snapshot [] s h k current inside stored = absurd (false-ne-true inside)
  has_conflict_complete snapshot ((j, v) ∷ ws) s h k current inside stored =
      elim (Bool-cases (is_newer p snapshot (lookup p j s))) [
        | inl found ↦ absurd (false-ne-true (sym h ∙ if_true _ _ _ found))
        | inr older ↦
            let rest = sym (if_false _ _ _ older) ∙ h in
            elim (Bool-cases (j == k)) [
              | inl same ↦
                  let at_k : is_newer p snapshot (lookup p k s) ≡ false =
                    ap (λ x. is_newer p snapshot (lookup p x s)) (sym ((text_beq_iff j k).0 same))
                    ∙ older in
                  let bound : ltb snapshot current.version ≡ false =
                    sym (ap (is_newer p snapshot) stored) ∙ at_k in
                  ground arith
              | inr other ↦
                  has_conflict_complete snapshot ws s rest k current
                    (sym (ap is_some (if_false _ _ _ other)) ∙ inside) stored
            ]
      ]

  -- The server is `s` with the whole write set at the next version, in the tree, the log, the
  -- replicas' channel and the watchers' channel.
  pub record Commits (ws : WriteSet) (s s' : KindServer p) : Type 0 where
    pub version : s'.global_version ≡ next_version s.global_version
    pub lookups :
        (k : Text) → lookup p k s' ≡ written (next_version s.global_version) ws k (lookup p k s)
    pub logged :
        s'.wal
        ≡ Option.map (append p.codec (next_version s.global_version) (tx_commit (pending ws))) s.wal
    pub sent :
        s'.sync_tx ≡ s.sync_tx ++ (next_version s.global_version, tx_commit (pending ws)) ∷ []
    pub announced : s'.watch_tx ≡ s.watch_tx ++ events p ws
    pub caches : (k : Text) → p.caches.peek s'.cache k ≡ uncached p ws k (p.caches.peek s.cache k)
    pub same_role : s'.is_replica ≡ s.is_replica

  pub data CommitOutcome (tx : TxHandle) (s : KindServer p)
      : KindServer p → Result DbError (Unit {0}) → Type 0 where
    refused : s.is_replica ≡ true → CommitOutcome tx s s (err commit_failed)
    aborted :
        s.is_replica ≡ false
        → Newer tx.snapshot_version tx.write_set s
        → CommitOutcome tx s s (err conflict)
    committed :
        {s' : KindServer p}
        → s.is_replica ≡ false
        → NoneNewer tx.snapshot_version tx.write_set s
        → Commits tx.write_set s s'
        → CommitOutcome tx s s' (ok tt)

  -- A commit on a sound server always returns and keeps the server sound. On a replica it is
  -- refused with nothing changed. On a leader it is aborted with nothing changed where a key of
  -- the write set has a record that is newer than the snapshot; otherwise no key has, and the
  -- whole write set takes effect at the next version, in the tree, the log and both channels, and
  -- its keys leave the cache.
  pub commit-CommitOutcome :
      (tx : TxHandle) (s : KindServer p)
      → IsSound p s
      → (s' : KindServer p) × (r : Result DbError (Unit {0})) × (commit p tx s ≡ some (s', r))
        × IsSound p s'
        × CommitOutcome tx s s' r
  unfolding commit log_commit bump_version wal_append send_sync
  commit-CommitOutcome tx s sound = elim (Bool-cases s.is_replica) [
    | inl replica ↦ (s, err commit_failed, if_true _ _ _ replica, sound, refused replica)
    | inr leader ↦ elim (Bool-cases (has_conflict p tx.snapshot_version tx.write_set s)) [
      | inl found ↦ (
        s,
        err conflict,
        if_false _ _ _ leader ∙ if_true _ _ _ found,
        sound,
        aborted leader (has_conflict_sound _ tx.write_set s found),
      )
      | inr clear ↦
          let logged = log_commit p tx.write_set s in
          let (s', returns, sound', done) =
            apply_writes-Applies p logged.global_version tx.write_set logged
              (record { cache = sound.cache; exact = sound.exact }) in
          (
            s',
            ok tt,
            if_false _ _ _ leader
                ∙ if_false _ _ _ clear
                ∙ ap (λ o. o >>= λ x. some (x, ok tt)) returns,
            sound',
            committed leader (has_conflict_complete _ tx.write_set s clear) (record {
              version = done.same_version;
              lookups = done.lookups;
              logged = done.same_wal;
              sent = done.same_sync;
              announced = done.announced;
              caches = done.caches;
              same_role = done.same_role;
            }),
          )
    ]
  ]
