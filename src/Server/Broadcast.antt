-- ===== src/Server/Broadcast.antt =====
-- The requests of src/server.rs that write: each logs and sends one command, and does what it says.
use mathlib.Core.Option
use kind.Prelude.{
  ℕ, ◌≡◌, refl, sym, ap, ◌∙◌, subst, Bool, true, false, [], ◌∷◌, ◌++◌, Option, none, some, Text,
  text_eq, Bool-cases, inl, inr, if_true, some_pair-fst, some_pair-snd, if◌then◌else◌,
}
use kind.Prelude.Result.{Result, ok, err}
use kind.Wal.{Bytes, WalCommand, put, delete, tx_commit}
use kind.Server.Record.{DbRecord, expiry, next_version}
use kind.Server.State.{Platform, KindServer}
use kind.Server.Effects.{Status, permission_denied, lookup}
use kind.Server.Sound.{IsSound}
use kind.Server.Writes.{PutRequest, CasRequest, put_request, delete_request, cas_request}
use kind.Server.Writes.Put.{Writes, new_record, put_request-Writes}
use kind.Server.Writes.Delete.{
  DeleteOutcome, refused, missing, deleted, delete_request-DeleteOutcome,
}
use kind.Server.Writes.Cas.{CasOutcome, swapped, unchanged, cas_request-CasOutcome}
use kind.Server.Transaction.{TxHandle, WriteSet, pending, commit}
use kind.Server.Transaction.Commit.{written}
use kind.Server.Transaction.Race.{commit_ok}
use kind.Server.Replica.Follow.{effect, effects}
use kind.Wal.{append}

effects-pending :
    (version : ℕ) (ws : WriteSet) (k : Text) (before : Option DbRecord)
    → effects version (pending ws) k before ≡ written version ws k before
unfolding pending written
effects-pending version [] k before = refl
effects-pending version ((j, none) ∷ ws) k before = effects-pending version ws k _
effects-pending version ((j, some rec) ∷ ws) k before = effects-pending version ws k _

ok_true : (b : Bool) → ◌≡◌ {A = Result Status Bool} (ok b) (ok true) → b ≡ true
ok_true true e = refl
ok_true false e = cc

module _ (p : Platform) where
  -- A request that wrote, on a leader.
  pub data Wrote (s s' : KindServer p) : Type 0 where
    by_put :
        (now : ℕ) (req : PutRequest) → put_request p now req s ≡ some (s', ok true) → Wrote s s'
    by_delete : (key : Text) → delete_request p key s ≡ some (s', ok true) → Wrote s s'
    by_cas :
        (now : ℕ) (req : CasRequest) → cas_request p now req s ≡ some (s', ok true) → Wrote s s'
    by_commit : (tx : TxHandle) → commit p tx s ≡ some (s', ok tt) → Wrote s s'

  -- The command of a request that wrote.
  abbrev pub command_of : {s s' : KindServer p} → Wrote s s' → WalCommand
  command_of (by_put now req _) = put req.key req.value (expiry now req.ttl_ms)
  command_of (by_delete key _) = delete key
  command_of (by_cas now req _) = put req.key req.new_value (expiry now req.ttl_ms)
  command_of (by_commit tx _) = tx_commit (pending tx.write_set)

  -- What a write logs and sends, and what it does to the leader.
  pub record Broadcasts (s s' : KindServer p) (command : WalCommand) : Type 0 where
    pub sent : s'.sync_tx ≡ s.sync_tx ++ (next_version s.global_version, command) ∷ []
    pub logged : s'.wal ≡ Option.map (append p.codec (next_version s.global_version) command) s.wal
    pub version : s'.global_version ≡ next_version s.global_version
    pub lookups :
        (k : Text) → lookup p k s' ≡ effect (next_version s.global_version) command k (lookup p k s)

  Writes-Broadcasts :
      (s s' : KindServer p) (key : Text) (value : Bytes) (t : Option ℕ)
      → Writes p s s' key (new_record p s value t)
      → Broadcasts s s' (put key value t)
  Writes-Broadcasts s s' key value t w = record {
    logged = w.logged;
    sent = w.sent;
    version = w.version;
    lookups = w.lookups;
  }

  delete-Broadcasts :
      (s s' : KindServer p) (key : Text) (r : Result Status Bool)
      → DeleteOutcome p s key s' r
      → r ≡ ok true
      → Broadcasts s s' (delete key)
  delete-Broadcasts s s' key r (refused _) e = cc
  delete-Broadcasts s s' key r (missing _ _) e = cc
  delete-Broadcasts s s' key r (deleted old _ _ d) e = record {
    logged = d.logged ∙ ap (λ v. Option.map (append p.codec v (delete key)) s.wal) d.version;
    sent = d.sent ∙ ap (λ v. s.sync_tx ++ (v, delete key) ∷ []) d.version;
    version = d.version;
    lookups = d.lookups;
  }

  cas-Broadcasts :
      (now : ℕ) (req : CasRequest) (s s' : KindServer p) (b : Bool)
      → CasOutcome p now req s s' b
      → b ≡ true
      → Broadcasts s s' (put req.key req.new_value (expiry now req.ttl_ms))
  cas-Broadcasts now req s s' b (swapped _ w _) e =
      Writes-Broadcasts s s' req.key req.new_value (expiry now req.ttl_ms) w
  cas-Broadcasts now req s s' b (unchanged _) e = cc

  -- A reply that is no error comes from a leader.
  pub leads :
      (s s' : KindServer p) (x : Option (KindServer p × Result Status Bool))
      → (if s.is_replica then some (s, err permission_denied) else x) ≡ some (s', ok true)
      → s.is_replica ≡ false
  leads s s' x e = elim (Bool-cases s.is_replica) [
    | inl replica ↦ cc (some_pair-snd (sym (if_true _ _ _ replica) ∙ e))
    | inr leader ↦ leader
  ]

  pub Wrote-Broadcasts :
      (s s' : KindServer p) → IsSound p s → (w : Wrote s s') → Broadcasts s s' (command_of w)
  unfolding put_request cas_request
  Wrote-Broadcasts s s' sound (by_put now req e) =
      let (x, returns, _, w, _) = put_request-Writes p now req s sound (leads s s' _ e) in
      subst (λ x. Broadcasts s x (put req.key req.value (expiry now req.ttl_ms)))
        (some_pair-fst (sym returns ∙ e))
        (Writes-Broadcasts s x req.key req.value (expiry now req.ttl_ms) w)
  Wrote-Broadcasts s s' sound (by_delete key e) =
      let (x, r, returns, _, outcome) = delete_request-DeleteOutcome p key s sound in
      subst (λ x. Broadcasts s x (delete key)) (some_pair-fst (sym returns ∙ e))
        (delete-Broadcasts s x key r outcome (some_pair-snd (sym returns ∙ e)))
  Wrote-Broadcasts s s' sound (by_cas now req e) =
      let (x, b, returns, _, outcome) =
        cas_request-CasOutcome p now req s sound.cache (leads s s' _ e) in
      subst (λ x. Broadcasts s x (put req.key req.new_value (expiry now req.ttl_ms)))
        (some_pair-fst (sym returns ∙ e))
        (cas-Broadcasts now req s x b outcome (ok_true b (some_pair-snd (sym returns ∙ e))))
  Wrote-Broadcasts s s' sound (by_commit tx e) =
      let (_, _, c) = commit_ok p tx s s' sound e in
      record {
        logged = c.logged;
        sent = c.sent;
        version = c.version;
        lookups = λ k. c.lookups k ∙ sym (effects-pending _ tx.write_set k (lookup p k s));
      }
