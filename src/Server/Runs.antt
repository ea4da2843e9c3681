-- ===== src/Server/Runs.antt =====
-- The requests of src/server.rs and the ticks of its background tasks, one after the other.
use kind.Prelude.{
  ℕ, ◌≡◌, sym, ap, ◌∙◌, subst, Bool, false, Option, none, some, Text, text_eq, text_beq_iff, ◌==◌,
  Bool-cases, ◌⊎◌, inl, inr, if_true, if_false, some_pair-fst,
}
use kind.Prelude.Result.{Result}
use kind.Wal.{Bytes}
use kind.Server.Record.{expiry}
use kind.Server.State.{Platform, KindServer}
use kind.Server.Effects.{Status, lookup}
use kind.Server.Sound.{IsSound, IsCoherent, Stands}
use kind.Server.Reads.{RecordMessage, get_request}
use kind.Server.Reads.Get.{answer, Gets, get_request-Gets}
use kind.Server.Writes.{PutRequest, CasRequest, put_request, delete_request, cas_request}
use kind.Server.Writes.Put.{Writes, CachedPut, new_record, put_request-Writes}
use kind.Server.Writes.Delete.{
  DeleteOutcome, refused, missing, deleted, delete_request-DeleteOutcome,
}
use kind.Server.Writes.Cas.{
  CasOutcome, swapped, unchanged, is_stale, cas_request-CasOutcome, cas_request-IsSound,
}
use kind.Server.Coherence.{
  Uncached-IsCoherent, CachedPut-IsCoherent, Commits-IsCoherent, Stands-transport,
}
use kind.Server.Transaction.{TxHandle, DbError, commit}
use kind.Server.Transaction.Isolation.{CommitOutcome, commit-CommitOutcome}
use kind.Server.Maintenance.{sweep, save_to, save_snapshot_and_truncate_wal}
use kind.Server.Maintenance.Sweep.{sweep_removes_expired}

never_expires {ℓ} :
    {B : Type ℓ} {ttl : Option ℕ} (now : ℕ) → (ttl ≡ none) ⊎ B → (expiry now ttl ≡ none) ⊎ B
never_expires now (inl never) = inl (ap (expiry now) never)
never_expires now (inr b) = inr b

module _ (p : Platform) where
  -- A request that returns, or a tick of a task.
  pub data Step (s : KindServer p) : KindServer p → Type 0 where
    gets :
        {s' : KindServer p} (now : ℕ) (key : Text) (r : Result Status RecordMessage)
        → get_request p now key s ≡ some (s', r)
        → Step s s'
    puts :
        {s' : KindServer p} (now : ℕ) (req : PutRequest) (r : Result Status Bool)
        → put_request p now req s ≡ some (s', r)
        → Step s s'
    deletes :
        {s' : KindServer p} (key : Text) (r : Result Status Bool)
        → delete_request p key s ≡ some (s', r)
        → Step s s'
    swaps :
        {s' : KindServer p} (now : ℕ) (req : CasRequest) (r : Result Status Bool)
        → cas_request p now req s ≡ some (s', r)
        → Step s s'
    commits :
        {s' : KindServer p} (tx : TxHandle) (r : Result DbError (Unit {0}))
        → commit p tx s ≡ some (s', r)
        → Step s s'
    sweeps : (now : ℕ) → Step s (sweep p now s)
    saves : (now : ℕ) → Step s (save_snapshot_and_truncate_wal p now s)

  -- A put with a time to live meets no cached value of its key, and a swap no expired record.
  abbrev pub IsCareful : {s s' : KindServer p} → Step s s' → Type 0
  IsCareful {s} (puts now req r e) = (req.ttl_ms ≡ none) ⊎ (p.caches.peek s.cache req.key ≡ none)
  IsCareful {s} (swaps now req r e) = is_stale p now (lookup p req.key s) ≡ false
  IsCareful _ = Unit

  pub data Run (s : KindServer p) : KindServer p → Type 0 where
    start : Run s s
    next : {s' s'' : KindServer p} → Run s s' → (t : Step s' s'') → IsCareful t → Run s s''

  pub record IsGood (s : KindServer p) : Type 0 where
    pub sound : IsSound p s
    pub coherent : IsCoherent p s

  put-IsCoherent :
      (s s' : KindServer p) (coherent : IsCoherent p s) (t : Option ℕ) (key : Text) (val : Bytes)
      → Writes p s s' key (new_record p s val t)
      → CachedPut p key val t s.cache s'.cache
      → (t ≡ none) ⊎ (p.caches.peek s.cache key ≡ none)
      → IsCoherent p s'
  put-IsCoherent s s' coherent none key val w cached careful k =
      CachedPut-IsCoherent p s s' key val w cached coherent k
  put-IsCoherent s s' coherent (some t) key val w cached (inl never) k = cc
  put-IsCoherent s s' coherent (some t) key val w cached (inr miss) k =
      let same : p.caches.peek s'.cache k ≡ p.caches.peek s.cache k =
        ap (λ c. p.caches.peek c k) cached in
      elim (Bool-cases (key == k)) [
        | inl at ↦
            let gone : p.caches.peek s'.cache k ≡ none =
              same ∙ ap (p.caches.peek s.cache) (sym ((text_beq_iff key k).0 at)) ∙ miss in
            subst (λ o. Stands p o (lookup p k s')) (sym gone) tt
        | inr other ↦
            Stands-transport p _ _ (lookup p k s) _ same (w.lookups k ∙ if_false _ _ _ other)
              (coherent k)
      ]

  delete-IsCoherent :
      (s s' : KindServer p) (coherent : IsCoherent p s) (key : Text) (r : Result Status Bool)
      → DeleteOutcome p s key s' r
      → IsCoherent p s'
  delete-IsCoherent s s' coherent key r (refused _) = coherent
  delete-IsCoherent s s' coherent key r (missing _ _) = coherent
  delete-IsCoherent s s' coherent key r (deleted old _ _ d) =
      Uncached-IsCoherent p s s' key none d.lookups d.uncached coherent

  cas-IsCoherent :
      (s s' : KindServer p) (coherent : IsCoherent p s) (now : ℕ) (req : CasRequest) (b : Bool)
      → CasOutcome p now req s s' b
      → IsCoherent p s'
  cas-IsCoherent s s' coherent now req b (swapped _ w gone) =
      Uncached-IsCoherent p s s' req.key _ w.lookups gone coherent
  cas-IsCoherent s s' coherent now req b (unchanged _) = coherent

  commit-IsCoherent :
      (s s' : KindServer p) (coherent : IsCoherent p s) (tx : TxHandle)
      (r : Result DbError (Unit {0}))
      → CommitOutcome p tx s s' r
      → IsCoherent p s'
  commit-IsCoherent s s' coherent tx r (CommitOutcome.refused _) = coherent
  commit-IsCoherent s s' coherent tx r (CommitOutcome.aborted _ _) = coherent
  commit-IsCoherent s s' coherent tx r (CommitOutcome.committed _ _ c) =
      Commits-IsCoherent p tx.write_set s s' c coherent

  puts-IsGood :
      (now : ℕ) (req : PutRequest) (s s' : KindServer p) (r : Result Status Bool)
      → put_request p now req s ≡ some (s', r)
      → (req.ttl_ms ≡ none) ⊎ (p.caches.peek s.cache req.key ≡ none)
      → IsGood s
      → IsGood s'
  unfolding put_request
  puts-IsGood now req s s' r e careful good = elim (Bool-cases s.is_replica) [
    | inl replica ↦ subst IsGood (some_pair-fst (sym (if_true _ _ _ replica) ∙ e)) good
    | inr leader ↦
        let (x, returns, sound, w, cached) = put_request-Writes p now req s good.sound leader in
        subst IsGood (some_pair-fst (sym returns ∙ e)) (record {
          sound = sound;
          coherent =
              put-IsCoherent s x good.coherent (expiry now req.ttl_ms) req.key req.value w cached
                (never_expires now careful);
        })
  ]

  swaps-IsGood :
      (now : ℕ) (req : CasRequest) (s s' : KindServer p) (r : Result Status Bool)
      → cas_request p now req s ≡ some (s', r)
      → is_stale p now (lookup p req.key s) ≡ false
      → IsGood s
      → IsGood s'
  unfolding cas_request
  swaps-IsGood now req s s' r e fresh good = elim (Bool-cases s.is_replica) [
    | inl replica ↦ subst IsGood (some_pair-fst (sym (if_true _ _ _ replica) ∙ e)) good
    | inr leader ↦
        let (x, b, returns, valid, outcome) =
          cas_request-CasOutcome p now req s good.sound.cache leader in
        record {
          sound = cas_request-IsSound p now req s s' r good.sound fresh e;
          coherent =
              subst (IsCoherent p) (some_pair-fst (sym returns ∙ e))
                (cas-IsCoherent s x good.coherent now req b outcome);
        }
  ]

  save-IsGood :
      (now : ℕ) (s : KindServer p) (file : Option Text) → IsGood s → IsGood (save_to p now file s)
  save-IsGood now s none good = good
  save-IsGood now s (some _) good = record {
    sound = record { cache = good.sound.cache; exact = good.sound.exact };
    coherent = good.coherent;
  }

  pub Step-IsGood : {s s' : KindServer p} (t : Step s s') → IsCareful t → IsGood s → IsGood s'
  unfolding save_snapshot_and_truncate_wal
  Step-IsGood {s} {s'} (gets now key r e) careful good =
      let (x, returns, g) = get_request-Gets p now key s good.sound good.coherent in
      subst IsGood (some_pair-fst (sym returns ∙ e))
        (record { sound = g.sound; coherent = g.coherent })
  Step-IsGood {s} {s'} (puts now req r e) careful good = puts-IsGood now req s s' r e careful good
  Step-IsGood {s} {s'} (deletes key r e) careful good =
      let (x, r', returns, sound, outcome) = delete_request-DeleteOutcome p key s good.sound in
      subst IsGood (some_pair-fst (sym returns ∙ e))
        (record { sound = sound; coherent = delete-IsCoherent s x good.coherent key r' outcome })
  Step-IsGood {s} {s'} (swaps now req r e) careful good = swaps-IsGood now req s s' r e careful good
  Step-IsGood {s} {s'} (commits tx r e) careful good =
      let (x, r', returns, sound, outcome) = commit-CommitOutcome p tx s good.sound in
      subst IsGood (some_pair-fst (sym returns ∙ e))
        (record { sound = sound; coherent = commit-IsCoherent s x good.coherent tx r' outcome })
  Step-IsGood {s} (sweeps now) careful good =
      let (sound, coherent, _) = sweep_removes_expired p now s good.sound good.coherent in
      record { sound = sound; coherent = coherent }
  Step-IsGood {s} (saves now) careful good = save-IsGood now s s.snapshot good

  -- Over any run of gets, puts, deletes, swaps, commits, sweeps and snapshots in which each put
  -- with a time to live meets no cached value of its key and each swap meets no expired record of
  -- its key, a server that is sound and whose cache agrees with its tree stays so.
  pub Run-IsGood : {s s' : KindServer p} → Run s s' → IsGood s → IsGood s'
  Run-IsGood start good = good
  Run-IsGood (next run t careful) good = Step-IsGood t careful (Run-IsGood run good)

  pub reads_after_run :
      {s s' : KindServer p} (now : ℕ) (key : Text)
      → IsSound p s
      → IsCoherent p s
      → Run s s'
      → (x : KindServer p) × (get_request p now key s' ≡ some (x, answer now key (lookup p key s')))
        × Gets p now key s' x
  reads_after_run {s} {s'} now key sound coherent run =
      let good = Run-IsGood run (record { sound = sound; coherent = coherent }) in
      get_request-Gets p now key s' good.sound good.coherent
