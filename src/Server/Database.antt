-- ===== src/Server/Database.antt =====
-- What src/server.rs promises: a map of versioned records, without the cache, the indexes, the log
-- and the channels.
pub mod Conflicts
pub mod Requests
pub mod Refines
use kind.Prelude.{
  ℕ, ◌≡◌, Bool, true, false, [], ◌∷◌, Option, none, some, Text, is_some, text_eq, ◌==◌, ltb,
  if◌then◌else◌,
}
use kind.Prelude.Result.{Result, ok, err}
use kind.Wal.{Bytes}
use kind.Server.Record.{DbRecord, expiry, next_version}
use kind.Server.State.{Platform, KindServer}
use kind.Server.Effects.{Status, permission_denied, lookup}
use kind.Server.Reads.{RecordMessage}
use kind.Server.Reads.Get.{answer, live}
use kind.Server.Writes.{PutRequest, CasRequest}
use kind.Server.Writes.Cas.{current_value}
use kind.Server.Transaction.{TxHandle, WriteSet, DbError, conflict, commit_failed, is_newer}
use kind.Server.Transaction.Commit.{written}
use kind.Server.Runs.{Step, gets, puts, deletes, swaps, commits, sweeps, saves, Run, start, next}

pub record Database : Type 0 where
  pub entries : Text → Option DbRecord
  pub version : ℕ
  pub is_replica : Bool

-- One key has a new record, at the next version.
abbrev pub store : Text → Bytes → Option ℕ → Database → Database
store key value t d =
    let version = next_version d.version in
    record d {
      entries = λ k.
          if key == k
          then some (record { value = value; expires_at = t; version = version })
          else d.entries k;
      version = version;
    }

abbrev pub remove : Text → Database → Database
remove key d = record d {
  entries = λ k. if key == k then none else d.entries k;
  version = next_version d.version;
}

-- A read drops a record that has expired.
abbrev pub get : ℕ → Text → Database → Database × Result Status RecordMessage
get now key d = (
  record d { entries = λ k. if key == k then live now (d.entries key) else d.entries k },
  answer now key (d.entries key),
)

-- What a leader does; a replica refuses and changes nothing.
abbrev pub guarded {ℓ} :
    {E : Type ℓ} {A : Type ℓ} → E → Database → Database × Result E A → Database × Result E A
guarded refusal d on_leader = if d.is_replica then (d, err refusal) else on_leader

abbrev pub put : ℕ → PutRequest → Database → Database × Result Status Bool
put now req d =
    guarded permission_denied d (store req.key req.value (expiry now req.ttl_ms) d, ok true)

abbrev pub delete : Text → Database → Database × Result Status Bool
delete key d =
    guarded permission_denied d
      (if is_some (d.entries key) then (remove key d, ok true) else (d, ok false))

module _ (p : Platform) where
  abbrev pub cas : ℕ → CasRequest → Database → Database × Result Status Bool
  cas now req d = guarded permission_denied d (
      if current_value p now (d.entries req.key) == req.expected_value
      then (store req.key req.new_value (expiry now req.ttl_ms) d, ok true)
      else (d, ok false))

  -- A key of the write set has a record that is newer than the snapshot.
  unfoldable pub conflicts : ℕ → WriteSet → Database → Bool
  conflicts snapshot [] d = false
  conflicts snapshot ((k, _) ∷ ws) d =
      if is_newer p snapshot (d.entries k) then true else conflicts snapshot ws d

  abbrev pub commit : TxHandle → Database → Database × Result DbError (Unit {0})
  commit tx d = guarded commit_failed d (
      if conflicts tx.snapshot_version tx.write_set d then (d, err conflict) else (
        record d {
          entries = λ k. written (next_version d.version) tx.write_set k (d.entries k);
          version = next_version d.version;
        },
        ok tt,
      ))

  -- The database after a step.
  abbrev pub next_of : {s s' : KindServer p} → Step p s s' → Database → Database
  next_of (gets now key _ _) d = (get now key d).0
  next_of (puts now req _ _) d = (put now req d).0
  next_of (deletes key _ _) d = (delete key d).0
  next_of (swaps now req _ _) d = (cas now req d).0
  next_of (commits tx _ _) d = (commit tx d).0
  next_of (sweeps now) d = record d { entries = λ k. live now (d.entries k) }
  next_of (saves now) d = d

  -- The reply in the step is the one of the database.
  abbrev pub IsAnswered : {s s' : KindServer p} → Step p s s' → Database → Type 0
  IsAnswered (gets now key r _) d = r ≡ (get now key d).1
  IsAnswered (puts now req r _) d = r ≡ (put now req d).1
  IsAnswered (deletes key r _) d = r ≡ (delete key d).1
  IsAnswered (swaps now req r _) d = r ≡ (cas now req d).1
  IsAnswered (commits tx r _) d = r ≡ (commit tx d).1
  IsAnswered (sweeps now) d = Unit
  IsAnswered (saves now) d = Unit

  abbrev pub last_of : {s s' : KindServer p} → Run p s s' → Database → Database
  last_of start d = d
  last_of (next run t _) d = next_of t (last_of run d)

  abbrev pub AllAnswered : {s s' : KindServer p} → Run p s s' → Database → Type 0
  AllAnswered start d = Unit
  AllAnswered (next run t _) d = AllAnswered run d × IsAnswered t (last_of run d)

  -- The database that a server holds.
  abbrev pub database_of : KindServer p → Database
  database_of s = record {
    entries = λ k. lookup p k s;
    version = s.global_version;
    is_replica = s.is_replica;
  }

  pub record Holds (s : KindServer p) (d : Database) : Type 0 where
    pub entries : (k : Text) → lookup p k s ≡ d.entries k
    pub version : s.global_version ≡ d.version
    pub role : s.is_replica ≡ d.is_replica
