-- ===== src/Server/Transaction/Race.antt =====
-- Two transactions of src/server.rs that write the same key.
use kind.Prelude.{
  ℕ, ◌≡◌, ◌≤◌, ◌<◌, ◌+◌, ◌^◌, refl, sym, ap, ◌∙◌, subst, true, false, [], ◌∷◌, Option, none, some,
  Text, text_eq, text_beq_iff, ◌==◌, arith, some_pair-fst, some_pair-snd, false-ne-true, Bool-cases,
  inl, inr, if_true, if_false,
}
use kind.Prelude.Map
use kind.Prelude.Result.{Result, ok, err}
use kind.Server.Record.{DbRecord, next_version}
use kind.Server.State.{Platform, KindServer}
use kind.Server.Effects.{lookup}
use kind.Server.Sound.{IsSound}
use kind.Server.Transaction.{DbError, conflict, WriteSet, TxHandle, commit}
use kind.Server.Transaction.Commit.{at_version, written}
use kind.Server.Transaction.Isolation.{
  Commits, CommitOutcome, refused, aborted, committed, commit-CommitOutcome,
}

written_absent :
    (version : ℕ) (ws : WriteSet) (k : Text) (before : Option DbRecord)
    → Map.contains_key k ws ≡ false
    → written version ws k before ≡ before
unfolding written Map.get
written_absent version [] k before h = refl
written_absent version ((j, v) ∷ ws) k before h = ground (arith, written_absent version ws k before)

-- In a write set that is a map, a key that is written ends with its entry.
written-eq :
    (version : ℕ) (ws : WriteSet) (k : Text) (v before : Option DbRecord)
    → Map.IsMap ws
    → Map.get k ws ≡ some v
    → written version ws k before ≡ at_version version v
unfolding written Map.get
written-eq version [] k v before m h = cc
written-eq version ((j, w) ∷ ws) k v before m h = elim (Bool-cases (j == k)) [
  | inl same ↦
      let gone : Map.contains_key k ws ≡ false =
        ap (λ x. Map.contains_key x ws) (sym ((text_beq_iff j k).0 same)) ∙ m.0 in
      let entry : w ≡ v = ground (arith, h, same) in
      written_absent version ws k _ gone ∙ if_true _ _ _ same ∙ ap (at_version version) entry
  | inr other ↦ written-eq version ws k v _ m.1 (sym (if_false _ _ _ other) ∙ h)
]

only_key : (k j : Text) (v : Option DbRecord) → Map.contains_key j ((k, v) ∷ []) ≡ true → k ≡ j
unfolding Map.get
only_key k j v h = ground (arith, text_beq_iff k j)

none-ne-some {ℓ} : {A : Type ℓ} {a : A} → none ≡ some a → ⊥
none-ne-some h = cc

module _ (p : Platform) where
  committed-Commits :
      (tx : TxHandle) (s s' : KindServer p) (r : Result DbError (Unit {0}))
      → CommitOutcome p tx s s' r
      → r ≡ ok tt
      → (s.is_replica ≡ false) × Commits p tx.write_set s s'
  committed-Commits tx s s' r (refused replica) e = cc
  committed-Commits tx s s' r (aborted leader n) e = cc
  committed-Commits tx s s' r (committed leader n c) e = (leader, c)

  -- The state behind a commit that succeeded.
  pub commit_ok :
      (tx : TxHandle) (s s' : KindServer p)
      → IsSound p s
      → commit p tx s ≡ some (s', ok tt)
      → IsSound p s' × (s.is_replica ≡ false) × Commits p tx.write_set s s'
  commit_ok tx s s' sound done =
      let (x, r, returns, sound', outcome) = commit-CommitOutcome p tx s sound in
      let same = some_pair-fst (sym returns ∙ done) in
      let c = committed-Commits tx s x r outcome (some_pair-snd (sym returns ∙ done)) in
      (subst (IsSound p) same sound', c.0, subst (Commits p tx.write_set s) same c.1)

  -- A key that was written after the snapshot cannot be committed.
  aborts :
      (tx : TxHandle) (s s' : KindServer p) (r : Result DbError (Unit {0})) (k : Text)
      (current : DbRecord)
      → s.is_replica ≡ false
      → Map.contains_key k tx.write_set ≡ true
      → lookup p k s ≡ some current
      → tx.snapshot_version < current.version
      → CommitOutcome p tx s s' r
      → commit p tx s ≡ some (s', r)
      → commit p tx s ≡ some (s, err conflict)
  aborts tx s s' r k current leader inside stored newer (refused replica) e =
      absurd (false-ne-true (sym leader ∙ replica))
  aborts tx s s' r k current leader inside stored newer (aborted _ n) e = e
  aborts tx s s' r k current leader inside stored newer (committed _ none_newer c) e =
      let older = none_newer k current inside stored in absurd (omega arith)

  -- A write set of one key, which the tree does not hold, meets no conflict.
  passes :
      (tx : TxHandle) (s s' : KindServer p) (r : Result DbError (Unit {0})) (k : Text)
      (v : Option DbRecord)
      → s.is_replica ≡ false
      → tx.write_set ≡ (k, v) ∷ []
      → lookup p k s ≡ none
      → CommitOutcome p tx s s' r
      → commit p tx s ≡ some (s', r)
      → (y : KindServer p) × (commit p tx s ≡ some (y, ok tt)) × Commits p tx.write_set s y
  passes tx s s' r k v leader only missing (refused replica) e =
      absurd (false-ne-true (sym leader ∙ replica))
  passes tx s s' r k v leader only missing (aborted _ n) e =
      let inside : Map.contains_key n.key ((k, v) ∷ []) ≡ true =
        ap (Map.contains_key n.key) (sym only) ∙ n.in_write_set in
      let at : k ≡ n.key = only_key k n.key v inside in
      absurd (none-ne-some (sym missing ∙ ap (λ x. lookup p x s) at ∙ n.stored))
  passes tx s s' r k v leader only missing (committed _ none_newer c) e = (s', e, c)

  -- Of two transactions that write the same key, where the second was begun no later than the
  -- first is committed, the first commit stores a value at that key, the server is sound and the
  -- version counter does not wrap, the second commit is aborted with a conflict and changes
  -- nothing.
  pub first_committer_wins :
      (first second : TxHandle) (s s' : KindServer p) (k : Text) (rec : DbRecord)
      → IsSound p s
      → Map.IsMap first.write_set
      → Map.get k first.write_set ≡ some (some rec)
      → Map.contains_key k second.write_set ≡ true
      → second.snapshot_version ≤ s.global_version
      → s.global_version + 1 < 2 ^ 64
      → commit p first s ≡ some (s', ok tt)
      → commit p second s' ≡ some (s', err conflict)
  first_committer_wins first second s s' k rec sound is_map wrote inside began small done =
      let (sound', leader, c) = commit_ok first s s' sound done in
      let (x, r, returns, _, outcome) = commit-CommitOutcome p second s' sound' in
      let v = next_version s.global_version in
      aborts second s' x r k (record rec { version = v }) (c.same_role ∙ leader) inside
        (c.lookups k ∙ written-eq v first.write_set k (some rec) (lookup p k s) is_map wrote)
        (omega arith) outcome returns

  -- If a commit on a sound server deletes a key, a second transaction that only puts that key is
  -- committed after it whatever its snapshot version is, and the key has its record.
  pub delete_evades_conflict :
      (first second : TxHandle) (s s' : KindServer p) (k : Text) (rec : DbRecord)
      → IsSound p s
      → Map.IsMap first.write_set
      → Map.get k first.write_set ≡ some none
      → second.write_set ≡ (k, some rec) ∷ []
      → commit p first s ≡ some (s', ok tt)
      → (s'' : KindServer p) × (commit p second s' ≡ some (s'', ok tt))
        × (lookup p k s''
            ≡ some (record rec { version = next_version (next_version s.global_version) }))
  unfolding Map.get
  delete_evades_conflict first second s s' k rec sound is_map removed only done =
      let (sound', leader, c) = commit_ok first s s' sound done in
      let (x, r, returns, _, outcome) = commit-CommitOutcome p second s' sound' in
      let v = next_version s.global_version in
      let gone : lookup p k s' ≡ none =
        c.lookups k ∙ written-eq v first.write_set k none (lookup p k s) is_map removed in
      let (y, returns', c') =
        passes second s' x r k (some rec) (c.same_role ∙ leader) only gone outcome returns in
      (
        y,
        returns',
        c'.lookups k
            ∙ ap (λ ws. written (next_version s'.global_version) ws k (lookup p k s')) only
            ∙ written-eq (next_version s'.global_version) ((k, some rec) ∷ []) k (some rec)
                (lookup p k s') (refl, tt) (if_true _ _ _ ((text_beq_iff k k).1 refl))
            ∙ ap (λ n. some (record rec { version = next_version n })) c.version,
      )
