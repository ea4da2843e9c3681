-- ===== src/Server/Startup/Stale.antt =====
-- `KindServerImpl::new` of src/server.rs on a logged put over a record that is there.
use kind.Prelude.{
  ℕ, ◌≡◌, ap, ◌∙◌, true, false, some, Text, text_eq, text_beq_iff, ◌==◌, arith, if_false,
  if◌then◌else◌,
}
use kind.Server.Record.{DbRecord, is_expired}
use kind.Server.State.{Platform, KindServer}
use kind.Server.Index.{index_record}
use kind.Server.Index.Exact.{member, indexed_by, member-index_record}
use kind.Server.Effects.{lookup, tree_insert}
use kind.Server.Sound.{IsSound}
use kind.Server.Startup.{enter, replay_put}

module _ (p : Platform) (now : ℕ) where
  -- When a start replays a put that has not expired over a record that is there, and the indexes
  -- were exact, the new record is in the tree, but the index keys of the old one still lead to the
  -- key, next to those of the new one. The index keys of other keys are left alone.
  pub replay_put_keeps_old_index :
      (version : ℕ) (key : Text) (old rec : DbRecord) (s : KindServer p)
      → IsSound p s
      → lookup p key s ≡ some old
      → is_expired now rec.expires_at ≡ false
      → (lookup p key (replay_put p now version key rec.value rec.expires_at s)
          ≡ some (record rec { version = version }))
        × ((i k : Text)
            → member p (replay_put p now version key rec.value rec.expires_at s).indexes i k ≡ (
                if key == k
                then (if indexed_by p s.schema_registry key i (some rec)
                    then true
                    else indexed_by p s.schema_registry key i (some old))
                else member p s.indexes i k))
  unfolding replay_put enter tree_insert index_record
  replay_put_keeps_old_index version key old rec s sound there fresh = (
    ap (lookup p key) (if_false _ _ _ fresh)
        ∙ p.records.get-insert s.tree key key _
        ∙ ground (arith, text_beq_iff key key),
    λ i k.
        ap (λ (x : KindServer p). member p x.indexes i k) (if_false _ _ _ fresh)
        ∙ member-index_record p key rec s i k
        ∙ ground (arith, sound.exact i k, there, text_beq_iff key k),
  )
