-- ===== src/Server/Writes/Expired.antt =====
-- `cas` of src/server.rs over a record that has expired and is still stored.
use kind.Prelude.{
  ℕ, ◌≡◌, refl, ap, ◌∙◌, true, false, [], Option, some, Text, text_eq, text_beq_iff, arith,
  is_empty, if_true, if_false, if◌then◌else◌,
}
use kind.Prelude.Optional.{◌>>=◌}
use kind.Prelude.Result.{ok}
use kind.Wal.{Bytes}
use kind.Server.Record.{DbRecord, is_expired, expiry}
use kind.Server.State.{Platform, KindServer}
use kind.Server.Index.{index_record}
use kind.Server.Index.Exact.{member, indexed_by, member-index_record}
use kind.Server.Effects.{lookup, tree_insert, bump_version, wal_append, send_sync, send_watch}
use kind.Server.Sound.{IsSound}
use kind.Server.Writes.{CasRequest, publish_put, cas_absent, cas_found, cas_request}
use kind.Server.Writes.Put.{published, published-Writes, new_record}
use kind.Server.Writes.Cas.{cas_write-returns}

module _ (p : Platform) where
  published-indexes :
      (s : KindServer p) (m : p.index_maps.Store) (c : p.caches.State) (key : Text) (value : Bytes)
      (t : Option ℕ)
      → (published p s m c key value t).indexes ≡ m
  unfolding publish_put bump_version wal_append send_sync tree_insert send_watch
  published-indexes s m c key value t = refl

  -- A swap with the empty expected value, on a sound leader that still stores an expired record of
  -- the key, succeeds and stores the new record, but the index keys of the expired one still lead
  -- to the key, next to those of the new one.
  pub cas_keeps_expired_index :
      (now : ℕ) (req : CasRequest) (s : KindServer p) (old : DbRecord)
      → IsSound p s
      → s.is_replica ≡ false
      → lookup p req.key s ≡ some old
      → is_expired now old.expires_at ≡ true
      → req.expected_value ≡ []
      → (s' : KindServer p) × (cas_request p now req s ≡ some (s', ok true))
        × (lookup p req.key s' ≡ some (new_record p s req.new_value (expiry now req.ttl_ms)))
        × ((i : Text)
            → member p s'.indexes i req.key ≡ (
                if indexed_by p s.schema_registry req.key i
                  (some (new_record p s req.new_value (expiry now req.ttl_ms)))
                then true
                else indexed_by p s.schema_registry req.key i (some old)))
  unfolding cas_request cas_absent
  cas_keeps_expired_index now req s old sound leader there expired wanted =
      let t = expiry now req.ttl_ms in
      let rec = new_record p s req.new_value t in
      let empty : is_empty req.expected_value ≡ true = ap is_empty wanted in
      let (c, returns, _, _) = cas_write-returns p req.key req.new_value t s sound.cache in
      let m = (index_record p req.key req.new_value s).indexes in
      (
        published p s m c req.key req.new_value t,
        if_false _ _ _ leader
            ∙ ap (cas_found p now req t s) there
            ∙ if_true _ _ _ expired
            ∙ if_true _ _ _ empty
            ∙ if_true _ _ _ empty
            ∙ ap (λ o. o >>= λ s'. some (s', ok true)) returns,
        (published-Writes p s m c req.key req.new_value t).lookups req.key
            ∙ if_true _ _ _ ((text_beq_iff req.key req.key).1 refl),
        λ i.
            ap (λ x. member p x i req.key) (published-indexes s m c req.key req.new_value t)
            ∙ member-index_record p req.key rec s i req.key
            ∙ ground (arith, sound.exact i req.key, there, text_beq_iff req.key req.key),
      )
