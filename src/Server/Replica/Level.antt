-- ===== src/Server/Replica/Level.antt =====
-- A leader of src/server.rs that writes, and a replica of src/replica.rs that receives.
use kind.Prelude.{
  ℕ, ◌+◌, ◌<◌, ◌^◌, ◌≡◌, sym, ap, ◌∙◌, Bool, true, false, not, ◌&&◌, [], ◌∷◌, ◌++◌, Option, some,
  Text, text_eq, arith, leb, nat_beq, if_false, if◌then◌else◌,
}
use kind.Prelude.Optional.{◌>>=◌}
use kind.Wal.{WalCommand, WalEnvelope}
use kind.Server.Record.{next_version}
use kind.Server.State.{Platform, KindServer}
use kind.Server.Effects.{lookup}
use kind.Server.Sound.{IsSound}
use kind.Server.Sync.{stream}
use kind.Server.Replica.{
  apply_command, apply_envelope, receive_record, receive, receive_all, store_version,
}
use kind.Server.Replica.Follow.{effect, apply_match-Applied}
use kind.Server.Broadcast.{Wrote, command_of, Wrote-Broadcasts}

module _ (p : Platform) where
  -- The replica has the version and the entries of the leader.
  pub record IsLevel (leader replica : KindServer p) : Type 0 where
    pub version : replica.global_version ≡ leader.global_version
    pub lookups : (k : Text) → lookup p k replica ≡ lookup p k leader

  -- The replica takes the record of the next version.
  receive_record-next :
      (version : ℕ) (command : WalCommand) (r : KindServer p)
      → version ≡ next_version r.global_version
      → r.global_version < version
      → receive_record p version
          (p.codec.envelope_text (record { c = command; k = 0; tx_id = version }) ++ b'\n' ∷ [])
          r
        ≡ (apply_command p version command r >>= λ r'. some (true, r'))
  unfolding receive_record
  receive_record-next version command r next later =
      let e : WalEnvelope = record { c = command; k = 0; tx_id = version } in
      let fresh : leb version r.global_version ≡ false = ground (arith, later) in
      let no_gap : (not (nat_beq version (next_version r.global_version))
            && not (nat_beq r.global_version 0))
          ≡ false =
        ground (arith, next) in
      if_false _ _ _ fresh
      ∙ if_false _ _ _ no_gap
      ∙ ap (λ o. apply_envelope p version o r >>= λ r'. some (true, r'))
          (p.codec.envelope_of-line e)

  -- Let a sound replica have the version and the entries of a sound leader, and let the version
  -- counter not wrap. When a put, a delete, a swap or a commit on the leader writes, the leader
  -- sends one message, the command of this request at the next version, and the replica, when it
  -- receives what the leader streams for this message, applies it, stays sound, and again has the
  -- version and the entries of the leader.
  pub replica_follows_leader :
      (s s' r : KindServer p)
      → IsSound p s
      → IsSound p r
      → IsLevel s r
      → s.global_version + 1 < 2 ^ 64
      → (w : Wrote p s s')
      → (r' : KindServer p) × (s'.sync_tx
          ≡ s.sync_tx ++ (next_version s.global_version, command_of p w) ∷ [])
        × (receive_all p
              (stream p s.global_version ((next_version s.global_version, command_of p w) ∷ []))
              r
            ≡ some r')
        × IsSound p r'
        × IsLevel s' r'
  unfolding receive_all stream receive apply_command
  replica_follows_leader s s' r sound sound_r level small wrote =
      let b = Wrote-Broadcasts p s s' sound wrote in
      let command = command_of p wrote in
      let v = next_version s.global_version in
      let (x, applies, done) = apply_match-Applied p v command r sound_r in
      let is_next : v ≡ next_version r.global_version = ap next_version (sym level.version) in
      let later : r.global_version < v = ground (arith, level.version, small) in
      let streamed : leb v s.global_version ≡ false = ground (arith, level.version, later) in
      let applied : apply_command p v command r ≡ some (store_version p v x) =
        ap (λ o. o >>= λ y. some (store_version p v y)) applies in
      (
        store_version p v x,
        b.sent,
        ap (λ payloads. receive_all p payloads r) (if_false _ _ _ streamed)
            ∙ ap
                (λ (o : Option (Bool × KindServer p)).
                  o >>= λ y. if y.0 then some y.1 else some y.1)
                (receive_record-next v command r is_next later
                  ∙ ap (λ o. o >>= λ y. some (true, y)) applied),
        record { cache = done.sound.cache; exact = done.sound.exact },
        record {
          version = sym b.version;
          lookups =
              λ k. done.lookups k ∙ ap (effect v command k) (level.lookups k) ∙ sym (b.lookups k);
        },
      )
