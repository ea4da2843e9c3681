-- ===== src/Server/Database/Refines.antt =====
-- Runs of requests and ticks of src/server.rs against the map of versioned records.
use kind.Prelude.{refl, sym, ap, ◌∙◌, text_eq}
use kind.Server.State.{Platform, KindServer}
use kind.Server.Reads.Get.{live}
use kind.Server.Writes.Delete.{delete_request-DeleteOutcome}
use kind.Server.Transaction.Isolation.{commit-CommitOutcome}
use kind.Server.Maintenance.{sweep, save_snapshot_and_truncate_wal}
use kind.Server.Maintenance.Sweep.{sweep_removes_expired}
use kind.Server.Sound.{IsSound, IsCoherent}
use kind.Server.Runs.{
  Step, gets, puts, deletes, swaps, commits, sweeps, saves, Run, start, next, IsGood, Run-IsGood,
}
use kind.Server.Database.{Database, Holds, next_of, IsAnswered, last_of, AllAnswered, database_of}
use kind.Server.Database.Requests.{
  Matches-returned, gets-Matches, puts-Matches, swaps-Matches, delete-Matches, commit-Matches,
  evict_entries-same, save_to-Holds,
}

module _ (p : Platform) where
  Step-refines :
      {s s' : KindServer p} (t : Step p s s') (d : Database)
      → IsGood p s
      → Holds p s d
      → IsAnswered p t d × Holds p s' (next_of p t d)
  unfolding sweep save_snapshot_and_truncate_wal
  Step-refines {s} {s'} (gets now key r e) d good h =
      let m = gets-Matches p now key s s' d r e good h in (m.reply, m.holds)
  Step-refines {s} {s'} (puts now req r e) d good h =
      let m = puts-Matches p now req s s' d r e good h in (m.reply, m.holds)
  Step-refines {s} {s'} (deletes key r e) d good h =
      let (x, r', returns, _, outcome) = delete_request-DeleteOutcome p key s good.sound in
      let m = Matches-returned p (sym returns ∙ e) (delete-Matches p s x d key r' outcome h) in
      (m.reply, m.holds)
  Step-refines {s} {s'} (swaps now req r e) d good h =
      let m = swaps-Matches p now req s s' d r e good h in (m.reply, m.holds)
  Step-refines {s} {s'} (commits tx r e) d good h =
      let (x, r', returns, _, outcome) = commit-CommitOutcome p tx s good.sound in
      let m = Matches-returned p (sym returns ∙ e) (commit-Matches p s x d tx r' outcome h) in
      (m.reply, m.holds)
  Step-refines {s} (sweeps now) d good h =
      let (_, _, lookups) = sweep_removes_expired p now s good.sound good.coherent in
      let (version, role) = evict_entries-same p now _ s in
      (
        tt,
        record {
          entries = λ k. lookups k ∙ ap (live now) (h.entries k);
          version = version ∙ h.version;
          role = role ∙ h.role;
        },
      )
  Step-refines {s} (saves now) d good h = (tt, save_to-Holds p now s.snapshot s d h)

  Run-refines :
      {s s' : KindServer p} (run : Run p s s') (d : Database)
      → IsGood p s
      → Holds p s d
      → AllAnswered p run d × Holds p s' (last_of p run d)
  Run-refines start d good h = (tt, h)
  Run-refines (next run t careful) d good h =
      let (answered, holds) = Run-refines run d good h in
      let (one, holds') = Step-refines t (last_of p run d) (Run-IsGood p run good) holds in
      ((answered, one), holds')

  -- A sound server whose cache agrees with its tree is a map of versioned records: over any run of
  -- gets, puts, deletes, swaps, commits, sweeps and snapshots, in which each put with a time to
  -- live meets no cached value of its key and each swap meets no expired record of its key, every
  -- reply is the one that the map gives, and the server then holds the records, the version and
  -- the role that the map has come to.
  pub requests_refine_database :
      {s s' : KindServer p}
      → IsSound p s
      → IsCoherent p s
      → (run : Run p s s')
      → AllAnswered p run (database_of p s) × Holds p s' (last_of p run (database_of p s))
  requests_refine_database {s} sound coherent run =
      Run-refines run (database_of p s) (record { sound = sound; coherent = coherent })
        (record { entries = λ k. refl; version = refl; role = refl })
