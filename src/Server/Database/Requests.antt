-- ===== src/Server/Database/Requests.antt =====
-- Each request of src/server.rs against the map of versioned records.
use kind.Prelude.{
  ℕ, ◌≡◌, refl, sym, ap, ◌∙◌, subst, Bool, true, false, List, [], ◌∷◌, Option, none, some, Text,
  is_some, text_eq, text_beq_iff, ◌==◌, arith, Bool-cases, inl, inr, if_true, if_false,
  if◌then◌else◌, some_pair-fst, some_pair-snd,
}
use kind.Prelude.Result.{Result, ok}
use kind.Wal.{Bytes}
use kind.Server.Record.{DbRecord, expiry, next_version}
use kind.Server.State.{Platform, KindServer}
use kind.Server.Index.{remove_record_from_index}
use kind.Server.Effects.{Status, tree_remove}
use kind.Server.Reads.{RecordMessage, get_request}
use kind.Server.Reads.Get.{answer, get_request-Gets}
use kind.Server.Writes.{put_request, cas_request}
use kind.Server.Writes.Put.{Writes, new_record, put_request-Writes}
use kind.Server.Writes.Delete.{DeleteOutcome, refused, missing, deleted}
use kind.Server.Writes.Cas.{CasOutcome, swapped, unchanged, current_value, cas_request-CasOutcome}
use kind.Server.Writes.{PutRequest, CasRequest}
use kind.Server.Transaction.{TxHandle, DbError}
use kind.Server.Transaction.Isolation.{CommitOutcome}
use kind.Server.Maintenance.{evict_entries, save_to}
use kind.Server.Runs.{IsGood}
use kind.Server.Database
use kind.Server.Database.{
  Database, Holds, store, conflicts, next_of, IsAnswered, last_of, AllAnswered, database_of,
}
use kind.Server.Database.Conflicts.{Newer-conflicts, NoneNewer-conflicts}

module _ (p : Platform) where
  -- A state and a reply against those of the database.
  pub record Matches {R : Type 0} (answer : Database × R) (s : KindServer p) (r : R) : Type 0 where
    pub reply : r ≡ answer.1
    pub holds : Holds p s answer.0

  module _ {R : Type 0} where
    -- A request returns one state and one reply.
    pub Matches-returned :
        {answer : Database × R} {x s : KindServer p} {a r : R}
        → ◌≡◌ {A = Option (KindServer p × R)} (some (x, a)) (some (s, r))
        → Matches answer x a
        → Matches answer s r
    Matches-returned {answer = answer} e m = record {
      reply = sym (some_pair-snd e) ∙ m.reply;
      holds = subst (λ y. Holds p y answer.0) (some_pair-fst e) m.holds;
    }

    Matches-then :
        {b : Bool} (x y : Database × R) {s : KindServer p} {r : R}
        → b ≡ true
        → Matches x s r
        → Matches (if b then x else y) s r
    Matches-then x y {s = s} {r = r} e m = subst (λ o. Matches o s r) (sym (if_true _ _ _ e)) m

    Matches-else :
        {b : Bool} (x y : Database × R) {s : KindServer p} {r : R}
        → b ≡ false
        → Matches y s r
        → Matches (if b then x else y) s r
    Matches-else x y {s = s} {r = r} e m = subst (λ o. Matches o s r) (sym (if_false _ _ _ e)) m

  Holds-store :
      (s s' : KindServer p) (d : Database) (key : Text) (value : Bytes) (t : Option ℕ)
      → Holds p s d
      → Writes p s s' key (new_record p s value t)
      → Holds p s' (store key value t d)
  Holds-store s s' d key value t holds w = record {
    entries = λ k. w.lookups k ∙ rw (holds.version, holds.entries k) refl;
    version = w.version ∙ ap next_version holds.version;
    role = w.kept_role ∙ holds.role;
  }

  pub delete-Matches :
      (s s' : KindServer p) (d : Database) (key : Text) (r : Result Status Bool)
      → DeleteOutcome p s key s' r
      → Holds p s d
      → Matches (Database.delete key d) s' r
  delete-Matches s s' d key r (refused replica) h =
      Matches-then _ _ (sym h.role ∙ replica) (record { reply = refl; holds = h })
  delete-Matches s s' d key r (missing leader gone) h = Matches-else _ _ (sym h.role ∙ leader) (
      Matches-else _ _ (ap is_some (sym (h.entries key) ∙ gone))
        (record { reply = refl; holds = h }))
  delete-Matches s s' d key r (deleted old leader there done) h =
      Matches-else _ _ (sym h.role ∙ leader) (
        Matches-then _ _ (ap is_some (sym (h.entries key) ∙ there)) (record {
          reply = refl;
          holds = record {
            entries = λ k. done.lookups k ∙ rw (h.entries k) refl;
            version = done.version ∙ ap next_version h.version;
            role = done.same_role ∙ h.role;
          };
        }))

  cas-Matches :
      (s s' : KindServer p) (d : Database) (now : ℕ) (req : CasRequest) (b : Bool)
      → CasOutcome p now req s s' b
      → s.is_replica ≡ false
      → Holds p s d
      → Matches (Database.cas p now req d) s' (ok b)
  cas-Matches s s' d now req b (swapped expected w _) leader h =
      let same = ap (current_value p now) (sym (h.entries req.key)) ∙ expected in
      Matches-else _ _ (sym h.role ∙ leader) (
        Matches-then _ _ ((text_beq_iff _ req.expected_value).1 same) (record {
          reply = refl;
          holds = Holds-store s s' d req.key req.new_value (expiry now req.ttl_ms) h w;
        }))
  cas-Matches s s' d now req b (unchanged other) leader h =
      let value = current_value p now (d.entries req.key) in
      let other' : ¬ (value ≡ req.expected_value) =
        λ same. other (ap (current_value p now) (h.entries req.key) ∙ same) in
      let differs : (value == req.expected_value) ≡ false =
        ground (arith, other', text_beq_iff value req.expected_value) in
      Matches-else _ _ (sym h.role ∙ leader)
        (Matches-else _ _ differs (record { reply = refl; holds = h }))

  pub commit-Matches :
      (s s' : KindServer p) (d : Database) (tx : TxHandle) (r : Result DbError (Unit {0}))
      → CommitOutcome p tx s s' r
      → Holds p s d
      → Matches (Database.commit p tx d) s' r
  commit-Matches s s' d tx r (CommitOutcome.refused replica) h =
      Matches-then _ _ (sym h.role ∙ replica) (record { reply = refl; holds = h })
  commit-Matches s s' d tx r (CommitOutcome.aborted leader newer) h =
      Matches-else _ _ (sym h.role ∙ leader) (
        Matches-then _ _ (Newer-conflicts p _ tx.write_set s d h newer)
          (record { reply = refl; holds = h }))
  commit-Matches s s' d tx r (CommitOutcome.committed leader none_newer c) h =
      Matches-else _ _ (sym h.role ∙ leader) (
        Matches-else _ _ (NoneNewer-conflicts p _ tx.write_set s d h none_newer) (record {
          reply = refl;
          holds = record {
            entries = λ k. c.lookups k ∙ rw (h.version, h.entries k) refl;
            version = c.version ∙ ap next_version h.version;
            role = c.same_role ∙ h.role;
          };
        }))

  pub gets-Matches :
      (now : ℕ) (key : Text) (s s' : KindServer p) (d : Database) (r : Result Status RecordMessage)
      → get_request p now key s ≡ some (s', r)
      → IsGood p s
      → Holds p s d
      → Matches (Database.get now key d) s' r
  gets-Matches now key s s' d r e good h =
      let (x, returns, g) = get_request-Gets p now key s good.sound good.coherent in
      Matches-returned (sym returns ∙ e) (record {
        reply = ap (answer now key) (h.entries key);
        holds = record {
          entries = λ k. g.lookups k ∙ rw (h.entries key, h.entries k) refl;
          version = g.same_version ∙ h.version;
          role = g.same_role ∙ h.role;
        };
      })

  pub puts-Matches :
      (now : ℕ) (req : PutRequest) (s s' : KindServer p) (d : Database) (r : Result Status Bool)
      → put_request p now req s ≡ some (s', r)
      → IsGood p s
      → Holds p s d
      → Matches (Database.put now req d) s' r
  unfolding put_request
  puts-Matches now req s s' d r e good h = elim (Bool-cases s.is_replica) [
    | inl replica ↦
        Matches-returned (sym (if_true _ _ _ replica) ∙ e)
          (Matches-then _ _ (sym h.role ∙ replica) (record { reply = refl; holds = h }))
    | inr leader ↦
        let (x, returns, _, w, _) = put_request-Writes p now req s good.sound leader in
        Matches-returned (sym returns ∙ e) (
          Matches-else _ _ (sym h.role ∙ leader) (record {
            reply = refl;
            holds = Holds-store s x d req.key req.value (expiry now req.ttl_ms) h w;
          }))
  ]

  pub swaps-Matches :
      (now : ℕ) (req : CasRequest) (s s' : KindServer p) (d : Database) (r : Result Status Bool)
      → cas_request p now req s ≡ some (s', r)
      → IsGood p s
      → Holds p s d
      → Matches (Database.cas p now req d) s' r
  unfolding cas_request
  swaps-Matches now req s s' d r e good h = elim (Bool-cases s.is_replica) [
    | inl replica ↦
        Matches-returned (sym (if_true _ _ _ replica) ∙ e)
          (Matches-then _ _ (sym h.role ∙ replica) (record { reply = refl; holds = h }))
    | inr leader ↦
        let (x, b, returns, _, outcome) =
          cas_request-CasOutcome p now req s good.sound.cache leader in
        Matches-returned (sym returns ∙ e) (cas-Matches s x d now req b outcome leader h)
  ]

  pub evict_entries-same :
      (now : ℕ) (es : List (Text × DbRecord)) (s : KindServer p)
      → ((evict_entries p now es s).global_version ≡ s.global_version)
        × ((evict_entries p now es s).is_replica ≡ s.is_replica)
  unfolding evict_entries tree_remove remove_record_from_index
  evict_entries-same now [] s = (refl, refl)
  evict_entries-same now ((key, rec) ∷ es) s = evict_entries-same now es _

  pub save_to-Holds :
      (now : ℕ) (file : Option Text) (s : KindServer p) (d : Database)
      → Holds p s d
      → Holds p (save_to p now file s) d
  save_to-Holds now none s d h = h
  save_to-Holds now (some _) s d h = record {
    entries = h.entries;
    version = h.version;
    role = h.role;
  }
