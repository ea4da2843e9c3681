-- ===== src/Server/Writes/Cas.antt =====
-- `cas` of src/server.rs.
use kind.Prelude.{
  ℕ, ◌≡◌, refl, sym, ap, ◌∙◌, Bool, true, false, [], Option, none, some, Text, text_eq,
  text_beq_iff, ◌==◌, is_empty, arith, false-ne-true, subst, some_pair-fst, List-cases, Bool-cases,
  inl, inr, if_true, if_false, if◌then◌else◌,
}
use kind.Prelude.Optional.{◌>>=◌}
use kind.Prelude.Result.{Result, ok}
use kind.Wal.{Bytes}
use kind.Server.Record.{DbRecord, is_expired, expiry}
use kind.Server.State.{Platform, KindServer}
use kind.Server.Index.{index_record, remove_record_from_index}
use kind.Server.Index.Exact.{IsExact, IsExactFor, IsExactFor-remove}
use kind.Server.Effects.{Status, Reply, lookup, cache_invalidate}
use kind.Server.Sound.{IsSound, IsExactFor-cong, index_record-IsExactFor}
use kind.Server.Writes.{CasRequest, cas_write, cas_absent, cas_present, cas_found, cas_request}
use kind.Server.Writes.Put.{
  new_record, Writes, published, published-Writes, published-IsSound, published-cache,
}

module _ (p : Platform) where
  -- The cache has lost the key, and nothing else.
  abbrev pub Uncached : Text → (before after : p.caches.State) → Type 0
  Uncached key before after =
      (k : Text) → p.caches.peek after k ≡ (if key == k then none else p.caches.peek before k)

  -- What a swap is allowed by: the value of a live record, or the empty value where there is none.
  abbrev pub current_value : ℕ → Option DbRecord → Bytes
  current_value now none = []
  current_value now (some rec) = if is_expired now rec.expires_at then [] else rec.value

  abbrev pub is_stale : ℕ → Option DbRecord → Bool
  is_stale now none = false
  is_stale now (some rec) = is_expired now rec.expires_at

  pub cas_write-returns :
      (key : Text) (val : Bytes) (expires_at : Option ℕ) (s : KindServer p)
      → p.caches.IsValid s.cache
      → (c : p.caches.State) × (cas_write p key val expires_at s
          ≡ some (published p s (index_record p key val s).indexes c key val expires_at))
        × p.caches.IsValid c
        × Uncached key s.cache c
  unfolding cas_write cache_invalidate index_record
  cas_write-returns key val expires_at s valid =
      let (c, returns, valid', gone) = p.caches.invalidate_returns s.cache key valid in
      (c, rw returns, valid', gone)

  -- The reply to a swap that a leader answers.
  pub data CasOutcome (now : ℕ) (req : CasRequest) (s : KindServer p)
      : KindServer p → Bool → Type 0 where
    swapped :
        {s' : KindServer p}
        → current_value now (lookup p req.key s) ≡ req.expected_value
        → Writes p s s' req.key (new_record p s req.new_value (expiry now req.ttl_ms))
        → Uncached req.key s.cache s'.cache
        → CasOutcome now req s s' true
    unchanged :
        ¬ (current_value now (lookup p req.key s) ≡ req.expected_value)
        → CasOutcome now req s s false

  -- What one of the branches gives.
  record Answers (now : ℕ) (req : CasRequest) (s : KindServer p) (reply : Reply p Bool)
      : Type 0 where
    after : KindServer p
    success : Bool
    replies : reply ≡ some (after, ok success)
    valid : p.caches.IsValid after.cache
    outcome : CasOutcome now req s after success
    exact : is_stale now (lookup p req.key s) ≡ false → IsExact p s → IsExact p after

  module _ (now : ℕ) (req : CasRequest) (s : KindServer p) (valid : p.caches.IsValid s.cache) where
    Answers-unchanged :
        {reply : Reply p Bool}
        → reply ≡ some (s, ok false)
        → ¬ (current_value now (lookup p req.key s) ≡ req.expected_value)
        → Answers now req s reply
    Answers-unchanged r ne = record {
      after = s;
      success = false;
      replies = r;
      valid = valid;
      outcome = unchanged ne;
      exact = λ _ exact. exact;
    }

    -- Both successful branches: `m` are the indexes that the new entries are added to.
    Answers-swapped :
        (m : p.index_maps.Store) {reply : Reply p Bool}
        → reply ≡ (
            cas_write p req.key req.new_value (expiry now req.ttl_ms) (record s { indexes = m })
            >>= λ s'. some (s', ok true))
        → current_value now (lookup p req.key s) ≡ req.expected_value
        → (is_stale now (lookup p req.key s) ≡ false
            → IsExact p s
            → IsExactFor p s.schema_registry m (λ k. if req.key == k then none else lookup p k s))
        → Answers now req s reply
    Answers-swapped m r eq exact =
        let t = expiry now req.ttl_ms in
        let s0 = record s { indexes = m } in
        let (c, returns, valid', gone) = cas_write-returns req.key req.new_value t s0 valid in
        let m' = (index_record p req.key req.new_value s0).indexes in
        let rec = new_record p s req.new_value t in
        record {
          after = published p s m' c req.key req.new_value t;
          success = true;
          replies = r ∙ ap (λ o. o >>= λ s'. some (s', ok true)) returns;
          valid = rw published-cache valid';
          outcome =
              swapped eq (published-Writes p s m' c req.key req.new_value t)
                (rw published-cache gone);
          exact = λ fresh old.
              (published-IsSound p s m' c req.key req.new_value t valid' (
                IsExactFor-cong p s.schema_registry m' _
                  (λ k. if req.key == k then some rec else lookup p k s) (λ k. ground arith)
                  (index_record-IsExactFor p req.key rec s0
                    (λ k. if req.key == k then none else lookup p k s)
                    (ground (arith, text_beq_iff req.key req.key)) (exact fresh old)))).exact;
        }

    cas_absent-Answers :
        (o : Option DbRecord)
        → lookup p req.key s ≡ o
        → current_value now o ≡ []
        → (is_stale now o ≡ false → o ≡ none)
        → Answers now req s (cas_absent p req (expiry now req.ttl_ms) s)
    unfolding cas_absent
    cas_absent-Answers o there empty missing = elim (List-cases req.expected_value) [
      | inl none_wanted ↦
          Answers-swapped s.indexes (if_true _ _ _ (ap is_empty none_wanted))
            (ap (current_value now) there ∙ empty ∙ sym none_wanted)
            (λ fresh exact i k. ground (
              arith,
              exact i k,
              text_beq_iff req.key k,
              there ∙ missing (ap (is_stale now) (sym there) ∙ fresh),
            ))
      | inr (b, bs, wanted) ↦
          Answers-unchanged (if_false _ _ _ (ap is_empty wanted))
            (λ q. cc (ap (current_value now) there))
    ]

    cas_present-Answers :
        (rec : DbRecord)
        → lookup p req.key s ≡ some rec
        → is_expired now rec.expires_at ≡ false
        → Answers now req s (cas_present p req (expiry now req.ttl_ms) rec s)
    unfolding cas_present remove_record_from_index
    cas_present-Answers rec there live =
        let current : current_value now (lookup p req.key s) ≡ rec.value =
          ap (current_value now) there ∙ if_false _ _ _ live in
        elim (Bool-cases (rec.value == req.expected_value)) [
          | inl same ↦
              Answers-swapped (remove_record_from_index p req.key rec.value s).indexes
                (if_true _ _ _ same) (current ∙ (text_beq_iff rec.value req.expected_value).0 same)
                (λ _ exact.
                  IsExactFor-remove p s.schema_registry s.indexes (λ k. lookup p k s) req.key rec
                    there exact)
          | inr other ↦ Answers-unchanged (if_false _ _ _ other) (λ q.
              false-ne-true
                (sym other ∙ (text_beq_iff rec.value req.expected_value).1 (sym current ∙ q)))
        ]

    tests_twice :
        (if is_empty req.expected_value
          then cas_absent p req (expiry now req.ttl_ms) s
          else some (s, ok false))
        ≡ cas_absent p req (expiry now req.ttl_ms) s
    unfolding cas_absent
    tests_twice = elim (Bool-cases (is_empty req.expected_value)) [
      | inl empty ↦ if_true _ _ _ empty
      | inr wanted ↦ if_false _ _ _ wanted ∙ sym (if_false _ _ _ wanted)
    ]

    cas_found-Answers :
        (o : Option DbRecord)
        → lookup p req.key s ≡ o
        → Answers now req s (cas_found p now req (expiry now req.ttl_ms) s o)
    cas_found-Answers none there = cas_absent-Answers none there refl (λ _. refl)
    cas_found-Answers (some rec) there = elim (Bool-cases (is_expired now rec.expires_at)) [
      | inl stale ↦ subst (Answers now req s) (sym (if_true _ _ _ stale ∙ tests_twice)) (
          cas_absent-Answers (some rec) there (if_true _ _ _ stale)
            (λ fresh. absurd (false-ne-true (sym fresh ∙ stale))))
      | inr live ↦
          subst (Answers now req s) (sym (if_false _ _ _ live)) (cas_present-Answers rec there live)
    ]

  -- With a valid cache a leader answers every compare-and-swap, and its cache stays valid. If it
  -- reports success, the expected value is that of the live record, or empty where no live record
  -- is, and the new record is written, logged, sent and announced and its key leaves the cache. If
  -- it reports failure, the expected value is not that, and nothing changes.
  pub cas_request-CasOutcome :
      (now : ℕ) (req : CasRequest) (s : KindServer p)
      → p.caches.IsValid s.cache
      → s.is_replica ≡ false
      → (s' : KindServer p) × (b : Bool) × (cas_request p now req s ≡ some (s', ok b))
        × p.caches.IsValid s'.cache
        × CasOutcome now req s s' b
  unfolding cas_request
  cas_request-CasOutcome now req s valid leader =
      let a = cas_found-Answers now req s valid (lookup p req.key s) refl in
      (a.after, a.success, if_false _ _ _ leader ∙ a.replies, a.valid, a.outcome)

  -- A compare-and-swap that returns keeps a sound server sound, indexes included, if no expired
  -- record of its key is stored.
  pub cas_request-IsSound :
      (now : ℕ) (req : CasRequest) (s s' : KindServer p) (r : Result Status Bool)
      → IsSound p s
      → is_stale now (lookup p req.key s) ≡ false
      → cas_request p now req s ≡ some (s', r)
      → IsSound p s'
  unfolding cas_request
  cas_request-IsSound now req s s' r sound fresh replies = elim (Bool-cases s.is_replica) [
    | inl replica ↦ subst (IsSound p) (some_pair-fst (sym (if_true _ _ _ replica) ∙ replies)) sound
    | inr leader ↦
        let a = cas_found-Answers now req s sound.cache (lookup p req.key s) refl in
        subst (IsSound p) (some_pair-fst (sym (if_false _ _ _ leader ∙ a.replies) ∙ replies))
          (record { cache = a.valid; exact = a.exact fresh sound.exact })
  ]
