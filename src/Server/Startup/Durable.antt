-- ===== src/Server/Startup/Durable.antt =====
-- Writes to src/server.rs, by puts, deletes, swaps and commits, and a start from their log.
use mathlib.Core.Option
use kind.Prelude.{
  ℕ, suc, ◌+◌, ◌<◌, ◌^◌, ◌≡◌, refl, sym, ap, ◌∙◌, subst, Bool, true, false, [], Option, none, some,
  some_pair-fst, Text, text_eq, arith, max,
}
use kind.Prelude.Result.{ok}
use kind.Wal.{append, read_all_commands, read_lines}
use kind.Wal.Lines.{IsClosed, lines, split_lines, strip_all}
use kind.Wal.Recovery.{append-IsClosed}
use kind.Server.Record.{next_version}
use kind.Server.State.{Platform, KindServer}
use kind.Server.Effects.{lookup}
use kind.Server.Sound.{IsSound}
use kind.Server.Broadcast.{
  Wrote, by_put, by_delete, by_cas, by_commit, command_of, leads, Wrote-Broadcasts,
}
use kind.Server.Writes.{put_request}
use kind.Server.Writes.Put.{put_request-Writes}
use kind.Server.Writes.Delete.{delete_request-DeleteOutcome}
use kind.Server.Writes.Cas.{is_stale, cas_request-IsSound}
use kind.Server.Transaction.Race.{commit_ok}
use kind.Server.Startup.{replay, replay_wal, new, blank}
use kind.Server.Startup.Restart.{blank-IsSound}
use kind.Server.Startup.Replay.{replay_wal-append}
use kind.Server.Startup.Content.{content, IsLasting, replay_command-content}

module _ (p : Platform) (later : ℕ) where
  -- A swap meets no expired record.
  abbrev pub IsTimely : {s s' : KindServer p} → Wrote p s s' → Type 0
  IsTimely {s} (by_cas now req _) = is_stale p now (lookup p req.key s) ≡ false
  IsTimely _ = Unit

  -- Requests that wrote, one after the other, and whose puts have not expired at `later`.
  pub data Writings (s : KindServer p) : KindServer p → Type 0 where
    start : Writings s s
    next :
        {s' s'' : KindServer p}
        → Writings s s'
        → (w : Wrote p s' s'') → IsTimely w
        → IsLasting later (command_of p w)
        → Writings s s''

  Wrote-IsSound : {s s' : KindServer p} (w : Wrote p s s') → IsTimely w → IsSound p s → IsSound p s'
  unfolding put_request
  Wrote-IsSound {s} {s'} (by_put now req e) timely sound =
      let (x, returns, sound', _, _) = put_request-Writes p now req s sound (leads p s s' _ e) in
      subst (IsSound p) (some_pair-fst (sym returns ∙ e)) sound'
  Wrote-IsSound {s} {s'} (by_delete key e) timely sound =
      let (x, _, returns, sound', _) = delete_request-DeleteOutcome p key s sound in
      subst (IsSound p) (some_pair-fst (sym returns ∙ e)) sound'
  Wrote-IsSound {s} {s'} (by_cas now req e) timely sound =
      cas_request-IsSound p now req s s' (ok true) sound timely e
  Wrote-IsSound {s} {s'} (by_commit tx e) timely sound = (commit_ok p tx s s' sound e).0

  -- The log is complete, and its replay from `b` has the values and the expiries of the server.
  pub record IsLogged (b s : KindServer p) : Type 0 where
    pub sound : IsSound p s
    pub file : Text
    pub logs : s.wal ≡ some file
    pub closed : IsClosed file
    pub contents :
        (k : Text) → content (lookup p k (replay_wal p later s.wal b)) ≡ content (lookup p k s)

  Wrote-IsLogged :
      {s s' : KindServer p} (b : KindServer p) (w : Wrote p s s')
      → IsTimely w
      → IsLasting later (command_of p w)
      → 0 < s'.global_version
      → IsLogged b s
      → IsLogged b s'
  Wrote-IsLogged {s} {s'} b w timely lasting positive h =
      let c = command_of p w in
      let v = next_version s.global_version in
      let sent = Wrote-Broadcasts p s s' h.sound w in
      let logs = sent.logged ∙ ap (Option.map (append p.codec v c)) h.logs in
      let r = replay_wal p later (some h.file) b in
      record {
        sound = Wrote-IsSound w timely h.sound;
        file = append p.codec v c h.file;
        logs = logs;
        closed = append-IsClosed p.codec v c h.file h.closed;
        contents = λ k.
            ap (λ wal. content (lookup p k (replay_wal p later wal b))) logs
            ∙ ap (λ x. content (lookup p k x))
                (replay_wal-append p later v c h.file b h.closed
                  (subst (λ n. 0 < n) sent.version positive))
            ∙ replay_command-content p later v c
                (record r { global_version = max r.global_version v }) k (lookup p k s) lasting
                (ap (λ wal. content (lookup p k (replay_wal p later wal b))) (sym h.logs)
                  ∙ h.contents k)
            ∙ ap content (sym (sent.lookups k));
      }

  -- How many requests.
  abbrev pub count : {s s' : KindServer p} → Writings s s' → ℕ
  count start = 0
  count (next run _ _ _) = suc (count run)

  Writings-IsLogged :
      {s s' : KindServer p} (b : KindServer p) (run : Writings s s')
      → s.global_version + count run < 2 ^ 64
      → IsLogged b s
      → IsLogged b s' × (s'.global_version ≡ s.global_version + count run)
  Writings-IsLogged b start small h = (h, omega arith)
  Writings-IsLogged {s} {s'} b (next {s' = x} run w timely lasting) small h =
      let (hx, version) = Writings-IsLogged b run (omega (arith, small)) h in
      let version' : s'.global_version ≡ s.global_version + suc (count run) =
        (Wrote-Broadcasts p x s' hx.sound w).version ∙ ground (arith, version, small) in
      (Wrote-IsLogged b w timely lasting (omega (arith, version')) hx, version')

  new_blank :
      (t : ℕ) (schema : Option Text) (c : p.caches.State) (s : KindServer p)
      → p.caches.new 1000 ≡ some c
      → new p t none schema (some []) false ≡ some s
      → s ≡ blank p t c none schema (some []) false
  unfolding new replay read_all_commands read_lines lines split_lines strip_all
  new_blank t schema c s made e = cc (made, e)

  -- Let a leader start without a snapshot and with an empty log, and let puts, deletes, swaps and
  -- commits write, fewer than 2 ^ 64, where no swap meets an expired record and no put has expired
  -- at the time `later`. Then a server that is started at that time from the log alone, with any
  -- schema, comes up, and each key has the value and the expiry that it had, or no record if it
  -- had none.
  pub writes_survive_restart :
      (t : ℕ) (schema schema' : Option Text) (is_replica : Bool) (s s' : KindServer p)
      → new p t none schema (some []) false ≡ some s
      → (run : Writings s s') → count run < 2 ^ 64
      → (r : KindServer p) × (new p later none schema' s'.wal is_replica ≡ some r)
        × ((k : Text) → content (lookup p k r) ≡ content (lookup p k s'))
  unfolding new replay read_all_commands read_lines lines split_lines strip_all
  writes_survive_restart t schema schema' is_replica s s' starts run small =
      let (c, made, valid, _) = p.caches.new_returns 1000 (omega arith) in
      let b = blank p later c none schema' s'.wal is_replica in
      let is_blank = new_blank t schema c s made starts in
      let start_blank : IsLogged b (blank p t c none schema (some []) false) = record {
        sound = blank-IsSound p t t c none schema (some []) false valid;
        file = [];
        logs = refl;
        closed = tt;
        contents = λ k. refl;
      } in
      let logged =
        Writings-IsLogged b run (ground (arith, is_blank, small))
          (subst (IsLogged b) (sym is_blank) start_blank) in
      (replay_wal p later s'.wal b, rw made refl, logged.0.contents)
