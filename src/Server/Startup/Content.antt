-- ===== src/Server/Startup/Content.antt =====
-- The values and the expiries that a start of src/server.rs brings back from a logged command.
use mathlib.Core.Option
use kind.Prelude.{ℕ, ◌≡◌, ap, ◌∙◌, false, Option, Text, text_eq, arith}
use kind.Wal.{Bytes, WalCommand, Commands, put, delete, tx_commit, nil, cons}
use kind.Server.Record.{DbRecord, is_expired, next_version}
use kind.Server.State.{Platform, KindServer}
use kind.Server.Effects.{lookup, tree_remove}
use kind.Server.Sound.{unindex_old-frame}
use kind.Server.Replica.Follow.{sub_effect, effects, effect}
use kind.Server.Startup.{replay_put, replay_delete, replay_commands, replay_command}
use kind.Server.Startup.Replay.{lookup-replay_put}

-- Two entries with the same value and expiry: the versions are left out.
abbrev pub content : Option DbRecord → Option (Bytes × Option ℕ)
content o = Option.map (λ rec. (rec.value, rec.expires_at)) o

-- No put of the command has expired.
abbrev pub AreLasting : ℕ → Commands → Type 0
AreLasting later nil = Unit
AreLasting later (cons (put key value t) cs) = (is_expired later t ≡ false) × AreLasting later cs
AreLasting later (cons (delete key) cs) = AreLasting later cs
AreLasting later (cons (tx_commit _) cs) = AreLasting later cs

abbrev pub IsLasting : ℕ → WalCommand → Type 0
IsLasting later (put key value t) = is_expired later t ≡ false
IsLasting later (delete key) = Unit
IsLasting later (tx_commit cs) = AreLasting later cs

module _ (p : Platform) (later : ℕ) where
  replay_put-content :
      (v w : ℕ) (key : Text) (value : Bytes) (t : Option ℕ) (r : KindServer p) (k : Text)
      (o : Option DbRecord)
      → is_expired later t ≡ false
      → content (lookup p k r) ≡ content o
      → content (lookup p k (replay_put p later v key value t r))
        ≡ content (sub_effect w (put key value t) k o)
  replay_put-content v w key value t r k o lasting same =
      ap content (lookup-replay_put p later v key value t r k) ∙ ground (arith, lasting, same)

  replay_delete-content :
      (w : ℕ) (key : Text) (r : KindServer p) (k : Text) (o : Option DbRecord)
      → content (lookup p k r) ≡ content o
      → content (lookup p k (replay_delete p later key r)) ≡ content (sub_effect w (delete key) k o)
  unfolding replay_delete tree_remove
  replay_delete-content w key r k o same =
      ap (λ x. content (p.records.get (p.records.remove x.tree key) k)) (unindex_old-frame p key r)
      ∙ ap content (p.records.get-remove r.tree key k)
      ∙ ground (arith, same)

  replay_commands-content :
      (w : ℕ) (cs : Commands) (r : KindServer p) (k : Text) (o : Option DbRecord)
      → AreLasting later cs
      → content (lookup p k r) ≡ content o
      → content (lookup p k (replay_commands p later cs r)) ≡ content (effects w cs k o)
  unfolding replay_commands
  replay_commands-content w nil r k o lasting same = same
  replay_commands-content w (cons (put key value t) cs) r k o lasting same =
      replay_commands-content w cs _ k _ lasting.1
        (replay_put-content (next_version r.global_version) w key value t r k o lasting.0 same)
  replay_commands-content w (cons (delete key) cs) r k o lasting same =
      replay_commands-content w cs _ k _ lasting (replay_delete-content w key r k o same)
  replay_commands-content w (cons (tx_commit _) cs) r k o lasting same =
      replay_commands-content w cs r k o lasting same

  -- A command replays as what it did, but for the versions.
  pub replay_command-content :
      (w : ℕ) (c : WalCommand) (r : KindServer p) (k : Text) (o : Option DbRecord)
      → IsLasting later c
      → content (lookup p k r) ≡ content o
      → content (lookup p k (replay_command p later c r)) ≡ content (effect w c k o)
  unfolding replay_command
  replay_command-content w (put key value t) r k o lasting same =
      replay_put-content r.global_version w key value t r k o lasting same
  replay_command-content w (delete key) r k o lasting same = replay_delete-content w key r k o same
  replay_command-content w (tx_commit cs) r k o lasting same =
      replay_commands-content w cs r k o lasting same
