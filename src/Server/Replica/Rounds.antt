-- ===== src/Server/Replica/Rounds.antt =====
-- The rounds of `run_replica_loop` of src/replica.rs: each returns, whatever the network does.
use kind.Prelude.{
  ℕ, zero, suc, ◌≡◌, refl, sym, ap, ◌∙◌, subst, Bool, true, false, not, ◌&&◌, List, [], ◌∷◌, Option,
  none, some, Text, text_eq, leb, nat_beq, if◌then◌else◌, Bool-cases, inl, inr, if_true, if_false,
}
use kind.Prelude.Optional.{◌>>=◌}
use kind.Wal.{Bytes, WalCommand, WalEnvelope, Commands, put, delete, tx_commit, nil, cons}
use kind.Server.Record.{next_version}
use kind.Server.State.{Platform, KindServer}
use kind.Server.Index.{index_record}
use kind.Server.Effects.{tree_insert, tree_remove, cache_invalidate, wal_append, unindex_old}
use kind.Server.Sound.{reindex-frame, unindex_old-frame}
use kind.Server.Sync.{SyncPayload, snapshot_chunk, wal_record}
use kind.Server.Replica.{
  store_version, versioned, apply_subcommand, apply_subcommands, apply_match, apply_command,
  apply_envelope, receive_record, receive,
}
use kind.Server.Replica.Session.{
  StreamItem, message, stream_error, SyncAnswer, sync_failed, streams, Attempt, no_connection,
  connected, receive_stream, receive_answer, attempt, run_replica_loop,
}
use kind.Server.Replica.Loaded.{load_chunk-frame}

module _ (p : Platform) where
  -- A computation on the replica returns, and leaves a valid cache.
  abbrev pub Returns : Option (KindServer p) → Type 0
  Returns o = (s : KindServer p) × (o ≡ some s) × p.caches.IsValid s.cache

  Returns-bind :
      (o : Option (KindServer p)) (f : KindServer p → Option (KindServer p))
      → Returns o
      → ((s : KindServer p) → p.caches.IsValid s.cache → Returns (f s))
      → Returns (o >>= f)
  Returns-bind o f (s, is, valid) next = subst (λ x. Returns (x >>= f)) (sym is) (next s valid)

  cache_invalidate-Returns :
      (key : Text) (s : KindServer p)
      → p.caches.IsValid s.cache
      → Returns (cache_invalidate p key s)
  unfolding cache_invalidate
  cache_invalidate-Returns key s valid =
      let (c, returns, valid', _) = p.caches.invalidate_returns s.cache key valid in
      (record s { cache = c }, rw returns refl, valid')

  -- Neither the indexes nor the tree touch the cache.
  keeps_cache_indexed :
      (key : Text) (value : Bytes) (s : KindServer p)
      → p.caches.IsValid s.cache
      → p.caches.IsValid (index_record p key value (unindex_old p key s)).cache
  keeps_cache_indexed key value s valid =
      subst (λ (x : KindServer p). p.caches.IsValid x.cache) (sym (reindex-frame p key value s))
        valid

  keeps_cache_removed :
      (key : Text) (s : KindServer p)
      → p.caches.IsValid s.cache
      → p.caches.IsValid (tree_remove p key (unindex_old p key s)).cache
  unfolding tree_remove
  keeps_cache_removed key s valid =
      subst (λ (x : KindServer p). p.caches.IsValid x.cache) (sym (unindex_old-frame p key s)) valid

  apply_subcommand-Returns :
      (version : ℕ) (command : WalCommand) (s : KindServer p)
      → p.caches.IsValid s.cache
      → Returns (apply_subcommand p version command s)
  unfolding apply_subcommand tree_insert
  apply_subcommand-Returns version (put key value t) s valid =
      Returns-bind _ _ (cache_invalidate-Returns key _ (keeps_cache_indexed key value s valid))
        (λ s' v. (tree_insert p key (versioned p version value t) s', refl, v))
  apply_subcommand-Returns version (delete key) s valid =
      cache_invalidate-Returns key _ (keeps_cache_removed key s valid)
  apply_subcommand-Returns version (tx_commit _) s valid = (s, refl, valid)

  apply_subcommands-Returns :
      (version : ℕ) (commands : Commands) (s : KindServer p)
      → p.caches.IsValid s.cache
      → Returns (apply_subcommands p version commands s)
  unfolding apply_subcommands
  apply_subcommands-Returns version nil s valid = (s, refl, valid)
  apply_subcommands-Returns version (cons command commands) s valid =
      Returns-bind _ _ (apply_subcommand-Returns version command s valid)
        (apply_subcommands-Returns version commands)

  apply_match-Returns :
      (version : ℕ) (command : WalCommand) (s : KindServer p)
      → p.caches.IsValid s.cache
      → Returns (apply_match p version command s)
  unfolding apply_match tree_insert wal_append
  apply_match-Returns version (put key value t) s valid =
      Returns-bind _ _
        (cache_invalidate-Returns key
          (wal_append p version (put key value t) (index_record p key value (unindex_old p key s)))
          (keeps_cache_indexed key value s valid))
        (λ s' v. (tree_insert p key (versioned p version value t) s', refl, v))
  apply_match-Returns version (delete key) s valid =
      Returns-bind _ _ (cache_invalidate-Returns key _ (keeps_cache_removed key s valid))
        (λ s' v. (wal_append p version (delete key) s', refl, v))
  apply_match-Returns version (tx_commit commands) s valid =
      apply_subcommands-Returns version commands (wal_append p version (tx_commit commands) s) valid

  apply_envelope-Returns :
      (version : ℕ) (o : Option WalEnvelope) (s : KindServer p)
      → p.caches.IsValid s.cache
      → Returns (apply_envelope p version o s)
  unfolding apply_command
  apply_envelope-Returns version none s valid = (s, refl, valid)
  apply_envelope-Returns version (some e) s valid =
      Returns-bind _ _ (apply_match-Returns version e.c s valid)
        (λ s' v. (store_version p version s', refl, v))

  -- A payload is taken, and then the stream goes on or not.
  abbrev Takes : Option (Bool × KindServer p) → Type 0
  Takes o =
      (goes_on : Bool) × (s : KindServer p) × (o ≡ some (goes_on, s)) × p.caches.IsValid s.cache

  receive-Takes :
      (payload : SyncPayload) (s : KindServer p)
      → p.caches.IsValid s.cache
      → Takes (receive p payload s)
  unfolding receive receive_record
  receive-Takes (snapshot_chunk records version) s valid =
      (true, _, refl, subst p.caches.IsValid (sym (load_chunk-frame p version records s).0) valid)
  receive-Takes (wal_record tx_id payload) s valid =
      let current = s.global_version in
      let (x, applied, valid') =
        apply_envelope-Returns tx_id (p.codec.envelope_of payload) s valid in
      elim (Bool-cases (leb tx_id current)) [
        | inl seen ↦ (true, s, if_true _ _ _ seen, valid)
        | inr new ↦
            elim (Bool-cases
              (not (nat_beq tx_id (next_version current)) && not (nat_beq current 0))) [
                | inl gap ↦ (false, s, if_false _ _ _ new ∙ if_true _ _ _ gap, valid)
                | inr in_turn ↦ (
                  true,
                  x,
                  if_false _ _ _ new
                      ∙ if_false _ _ _ in_turn
                      ∙ ap (λ o. o >>= λ y. some (true, y)) applied,
                  valid',
                )
              ]
      ]

  Returns-if :
      (b : Bool) (o o' : Option (KindServer p))
      → Returns o
      → Returns o'
      → Returns (if b then o else o')
  Returns-if true o o' r r' = r
  Returns-if false o o' r r' = r'

  receive_stream-Returns :
      (items : List StreamItem) (s : KindServer p)
      → p.caches.IsValid s.cache
      → Returns (receive_stream p items s)
  unfolding receive_stream
  receive_stream-Returns [] s valid = (s, refl, valid)
  receive_stream-Returns (message none ∷ items) s valid = receive_stream-Returns items s valid
  receive_stream-Returns (message (some payload) ∷ items) s valid =
      let (goes_on, x, takes, v) = receive-Takes payload s valid in
      let after =
        λ (y : Bool × KindServer p). if y.0 then receive_stream p items y.1 else some y.1 in
      subst (λ o. Returns (o >>= after)) (sym takes)
        (Returns-if goes_on _ _ (receive_stream-Returns items x v) (x, refl, v))
  receive_stream-Returns (stream_error ∷ items) s valid = (s, refl, valid)

  receive_answer-Returns :
      (answer : SyncAnswer) (s : KindServer p)
      → p.caches.IsValid s.cache
      → Returns (receive_answer p answer s)
  receive_answer-Returns sync_failed s valid = (s, refl, valid)
  receive_answer-Returns (streams items) s valid = receive_stream-Returns items s valid

  attempt-Returns :
      (a : Attempt) (s : KindServer p) → p.caches.IsValid s.cache → Returns (attempt p a s)
  unfolding attempt
  attempt-Returns no_connection s valid = (s, refl, valid)
  attempt-Returns (connected answer) s valid =
      receive_answer-Returns (answer s.global_version) s valid

  pub run_replica_loop-Returns :
      (network : ℕ → Attempt) (n : ℕ) (s : KindServer p)
      → p.caches.IsValid s.cache
      → Returns (run_replica_loop p network n s)
  unfolding run_replica_loop
  run_replica_loop-Returns network zero s valid = (s, refl, valid)
  run_replica_loop-Returns network (suc n) s valid =
      Returns-bind _ _ (run_replica_loop-Returns network n s valid) (attempt-Returns (network n))
