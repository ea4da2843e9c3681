-- ===== src/Server/Startup/Ahead.antt =====
-- `KindServerImpl::new` of src/server.rs on a logged transaction, and the transaction after it.
use kind.Prelude.{
  ℕ, ◌+◌, ◌≤◌, ◌<◌, ◌^◌, ◌≡◌, ◌≢◌, refl, sym, ap, ◌∙◌, true, false, [], ◌∷◌, Option, none, some,
  Text, text_eq, arith, ltb, max, Bool-cases, inl, inr, if_true, if_false, if◌then◌else◌, ◌==◌,
  subst,
}
use kind.Prelude.Map
use kind.Prelude.Result.{err}
use kind.Wal.{Bytes, Commands, put, delete, tx_commit, nil, cons}
use kind.Server.Record.{DbRecord, is_expired, next_version}
use kind.Server.State.{Platform, KindServer}
use kind.Server.Index.{index_record}
use kind.Server.Effects.{lookup, tree_insert, tree_remove}
use kind.Server.Sound.{unindex_old-frame}
use kind.Server.Transaction.{conflict, tx_put, begin_transaction, is_newer, has_conflict, commit}
use kind.Server.Startup.{enter, replay_put, replay_delete, replay_commands, replay_command, replay}

module _ (p : Platform) (later : ℕ) where
  -- What has become of the entry of a key when commands of a transaction have been replayed.
  data Entry (version : ℕ) (before : Option DbRecord) : Option DbRecord → Type 0 where
    same : Entry version before before
    gone : Entry version before none
    written : (rec : DbRecord) → rec.version ≡ version → Entry version before (some rec)

  Entry-trans :
      (version : ℕ) (a b c : Option DbRecord)
      → Entry version a b
      → Entry version b c
      → Entry version a c
  Entry-trans version a b c h same = h
  Entry-trans version a b c h gone = gone
  Entry-trans version a b c h (written rec e) = written rec e

  -- A replay of one command of a transaction.
  record Replays (k : Text) (s s' : KindServer p) : Type 0 where
    version : s'.global_version ≡ s.global_version
    role : s'.is_replica ≡ s.is_replica
    entry : Entry (next_version s.global_version) (lookup p k s) (lookup p k s')

  replay_put-Replays :
      (key : Text) (value : Bytes) (t : Option ℕ) (k : Text) (s : KindServer p)
      → Replays k s (replay_put p later (next_version s.global_version) key value t s)
  unfolding replay_put enter tree_insert index_record
  replay_put-Replays key value t k s = elim (Bool-cases (is_expired later t)) [
    | inl expired ↦
        subst (Replays k s) (sym (if_true _ _ _ expired))
          (record { version = refl; role = refl; entry = same })
    | inr fresh ↦
        let v = next_version s.global_version in
        let rec : DbRecord = record { value = value; expires_at = t; version = v } in
        subst (Replays k s) (sym (if_false _ _ _ fresh)) (record {
          version = refl;
          role = refl;
          entry =
              subst (Entry v (lookup p k s)) (sym (p.records.get-insert s.tree key k rec))
                (elim (Bool-cases (key == k)) [
                  | inl at ↦
                      subst (Entry v (lookup p k s)) (sym (if_true _ _ _ at)) (written rec refl)
                  | inr other ↦ subst (Entry v (lookup p k s)) (sym (if_false _ _ _ other)) same
                ]);
        })
  ]

  replay_delete-Replays :
      (key k : Text) (s : KindServer p) → Replays k s (replay_delete p later key s)
  unfolding replay_delete tree_remove
  replay_delete-Replays key k s =
      let frame = unindex_old-frame p key s in
      record {
        version = ap (λ (x : KindServer p). x.global_version) frame;
        role = ap (λ (x : KindServer p). x.is_replica) frame;
        entry =
            subst (Entry (next_version s.global_version) (lookup p k s))
              (sym (
                ap (λ (x : KindServer p). p.records.get (p.records.remove x.tree key) k) frame
                ∙ p.records.get-remove s.tree key k))
              (elim (Bool-cases (key == k)) [
                | inl at ↦
                    subst (Entry (next_version s.global_version) (lookup p k s))
                      (sym (if_true _ _ _ at)) gone
                | inr other ↦
                    subst (Entry (next_version s.global_version) (lookup p k s))
                      (sym (if_false _ _ _ other)) same
              ]);
      }

  Replays-trans : (k : Text) (a b c : KindServer p) → Replays k a b → Replays k b c → Replays k a c
  Replays-trans k a b c f g = record {
    version = g.version ∙ f.version;
    role = g.role ∙ f.role;
    entry =
        Entry-trans _ (lookup p k a) (lookup p k b) (lookup p k c) f.entry
          (subst (λ v. Entry (next_version v) (lookup p k b) (lookup p k c)) f.version g.entry);
  }

  replay_commands-Replays :
      (cs : Commands) (k : Text) (s : KindServer p) → Replays k s (replay_commands p later cs s)
  unfolding replay_commands
  replay_commands-Replays nil k s = record { version = refl; role = refl; entry = same }
  replay_commands-Replays (cons (put key value t) cs) k s =
      Replays-trans k s _ _ (replay_put-Replays key value t k s) (replay_commands-Replays cs k _)
  replay_commands-Replays (cons (delete key) cs) k s =
      Replays-trans k s _ _ (replay_delete-Replays key k s) (replay_commands-Replays cs k _)
  replay_commands-Replays (cons (tx_commit _) cs) k s = replay_commands-Replays cs k s

  written_by :
      (version : ℕ) (before after : Option DbRecord) (rec : DbRecord)
      → Entry version before after
      → after ≡ some rec
      → before ≢ some rec
      → rec.version ≡ version
  written_by version before after rec same e other = absurd (other e)
  written_by version before after rec gone e other = cc
  written_by version before after rec (written r v) e other =
      ap (λ (o : Option DbRecord). elim o [ none ↦ 0 | some x ↦ x.version ]) (sym e) ∙ v

  -- Let a leader that starts replay a logged transaction whose id is positive, not below the
  -- version that the server has reached, and with no wrap at the next one. If a key then has a
  -- record that it had not before, the first transaction that is begun after it and puts this key
  -- is aborted with a conflict and changes nothing, although nothing was written in between.
  pub recovered_commit_conflicts :
      (v now : ℕ) (cs : Commands) (s s' : KindServer p) (key : Text) (rec : DbRecord)
      (value : Bytes) (ttl_ms : Option ℕ)
      → replay p later ((v, tx_commit cs) ∷ []) s ≡ s'
      → s.is_replica ≡ false
      → 0 < v
      → s.global_version ≤ v
      → v + 1 < 2 ^ 64
      → lookup p key s' ≡ some rec
      → lookup p key s ≢ some rec
      → commit p (tx_put now key value ttl_ms (begin_transaction p s')) s' ≡ some (s', err conflict)
  unfolding replay replay_command commit tx_put begin_transaction has_conflict Map.insert
  recovered_commit_conflicts v now cs s s' key rec value ttl_ms is leader positive behind small
        there new =
      let s1 : KindServer p = record s {
        global_version = if ltb 0 v then max s.global_version v else next_version s.global_version;
      } in
      let at_v : s1.global_version ≡ v = ground (arith, positive, behind) in
      let d : Replays key s1 s' = subst (Replays key s1) is (replay_commands-Replays cs key s1) in
      let version : s'.global_version ≡ v = d.version ∙ at_v in
      let ahead : rec.version ≡ next_version v =
        written_by _ (lookup p key s) (lookup p key s') rec d.entry there new
        ∙ ap next_version at_v in
      let newer : is_newer p s'.global_version (lookup p key s') ≡ true =
        ap (is_newer p s'.global_version) there ∙ ground (arith, version, ahead, small) in
      if_false _ _ _ (d.role ∙ leader) ∙ if_true _ _ _ (if_true _ _ _ newer)
