-- ===== src/Server/Startup/Restart.antt =====
-- `save_snapshot_and_truncate_wal` of src/server.rs, and `KindServerImpl::new` on the snapshot.
use mathlib.Core.Option
use kind.Prelude.{
  ℕ, ◌≡◌, refl, sym, ap, ◌∙◌, subst, Bool, List, Option, none, some, Text, text_eq, arith, nat_eq,
}
use kind.Prelude.Map
use kind.SkipMap.Order.{IsAscending-IsMap}
use kind.Wal.{truncate, read_all_commands, read_lines}
use kind.Wal.Lines.{lines, split_lines, strip_all}
use kind.Server.Record.{DbRecord}
use kind.Server.State.{Platform, KindServer}
use kind.Server.Effects.{lookup}
use kind.Server.Sound.{IsSound, IsCoherent, Stands}
use kind.Server.Reads.Get.{live}
use kind.Server.Maintenance.{snapshot_text, save_to, save_snapshot_and_truncate_wal}
use kind.Server.Startup.{load_lines, replay_wal, blank, new, replay}
use kind.Server.Startup.Loads.{kept, load_lines-Loads}

module _ (p : Platform) (saved now : ℕ) where
  -- The log of a server that has just written its snapshot is empty.
  replay_truncated :
      (file : Option Text) (s : KindServer p)
      → replay_wal p now (Option.map (truncate p.codec) file) s ≡ s
  unfolding replay read_all_commands read_lines lines split_lines strip_all
  replay_truncated none s = refl
  replay_truncated (some file) s = refl

  pub blank-IsSound :
      (c : p.caches.State) (snapshot schema wal : Option Text) (is_replica : Bool)
      → p.caches.IsValid c
      → IsSound p (blank p now c snapshot schema wal is_replica)
  blank-IsSound c snapshot schema wal is_replica valid = record {
    cache = valid;
    exact = λ i k. rw (p.index_maps.get-empty i, p.records.get-empty k) refl;
  }

  load_snapshot-Loads :
      (es : List (Text × DbRecord)) (c : p.caches.State) (schema wal : Option Text) (r : Bool)
      → Map.IsMap es
      → p.caches.IsValid c
      → (s : KindServer p) × (s
          ≡ load_lines p now
              (lines (snapshot_text p saved es))
              (blank p now c (some (snapshot_text p saved es)) schema wal r))
        × IsSound p s
        × (s.cache ≡ c)
        × ((k : Text) → lookup p k s ≡ kept p saved now (Map.get k es))
  load_snapshot-Loads es c schema wal r is_map valid =
      let b = blank p now c (some (snapshot_text p saved es)) schema wal r in
      let l =
        load_lines-Loads p saved now es b is_map (λ k _. p.records.get-empty k)
          (blank-IsSound c (some (snapshot_text p saved es)) schema wal r valid) in
      (
        load_lines p now (lines (snapshot_text p saved es)) b,
        refl,
        l.sound,
        l.same_cache,
        λ k. l.lookups k ∙ ground (arith, p.records.get-empty k),
      )

  new_loads :
      (c : p.caches.State) (file : Text) (schema wal : Option Text) (is_replica : Bool)
      → p.caches.new 1000 ≡ some c
      → new p now (some file) schema wal is_replica
        ≡ some (
            replay_wal p now wal
              (load_lines p now (lines file) (blank p now c (some file) schema wal is_replica)))
  unfolding new
  new_loads c file schema wal is_replica made = rw made refl

  -- If a server has a snapshot file, then after a snapshot a server that is started from the new
  -- file and the emptied log, with any schema, comes up sound with a cache that agrees with its
  -- tree, and each key has the record that it had, with its version, if that had not expired when
  -- the snapshot was written nor when it was read, and none otherwise.
  pub restart_after_snapshot :
      (s : KindServer p) (old : Text) (schema : Option Text) (is_replica : Bool)
      → s.snapshot ≡ some old
      → (s' : KindServer p) × (new p now
            (save_snapshot_and_truncate_wal p saved s).snapshot
            schema
            (save_snapshot_and_truncate_wal p saved s).wal
            is_replica
          ≡ some s')
        × IsSound p s'
        × IsCoherent p s'
        × ((k : Text) → lookup p k s' ≡ live now (live saved (lookup p k s)))
  unfolding new save_snapshot_and_truncate_wal
  restart_after_snapshot s old schema is_replica writes =
      let es = p.records.iter s.tree in
      let (c, made, valid, empty) = p.caches.new_returns 1000 (omega arith) in
      let file = snapshot_text p saved es in
      let wal = Option.map (truncate p.codec) s.wal in
      let (s', is, sound, cache, lookups) =
        load_snapshot-Loads es c schema wal is_replica
          (IsAscending-IsMap es (p.records.iter-IsAscending s.tree)) valid in
      (
        s',
        ap
              (λ f.
                new p now (save_to p saved f s).snapshot schema (save_to p saved f s).wal
                  is_replica)
              writes
            ∙ new_loads c file schema wal is_replica made
            ∙ ap some (replay_truncated s.wal _ ∙ sym is),
        sound,
        λ k.
            subst (λ o. Stands p o (lookup p k s'))
              (sym (ap (λ x. p.caches.peek x k) cache ∙ empty k)) tt,
        λ k. lookups k ∙ ap (kept p saved now) (p.records.get-iter s.tree k),
      )
