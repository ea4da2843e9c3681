-- ===== src/Server/Coherence.antt =====
-- The cache and the tree of src/server.rs: the writes, and what they make of both.
use kind.Prelude.{
  ℕ, ◌≡◌, refl, sym, ap, ◌∙◌, subst, Bool, true, false, [], ◌∷◌, Option, none, some, Text, text_eq,
  text_beq_iff, ◌==◌, Bool-cases, inl, inr, if_true, if_false, if◌then◌else◌,
}
use kind.Prelude.Result.{ok}
use kind.Cache.{Kept}
use kind.Wal.{Bytes}
use kind.Server.Record.{DbRecord, expiry}
use kind.Server.State.{Platform, KindServer}
use kind.Server.Effects.{lookup}
use kind.Server.Sound.{IsSound, IsCoherent, Stands}
use kind.Server.Reads.{get_from, get_request}
use kind.Server.Writes.{PutRequest, put_request}
use kind.Server.Writes.Put.{Writes, CachedPut, new_record, put_request-Writes}
use kind.Server.Writes.Cas.{Uncached}
use kind.Server.Transaction.{WriteSet}
use kind.Server.Transaction.Commit.{at_version, written, uncached}
use kind.Server.Transaction.Isolation.{Commits}

module _ (p : Platform) where
  -- Equal cached values and equal entries.
  pub Stands-transport :
      (o o' : Option Bytes) (r r' : Option DbRecord)
      → o' ≡ o
      → r' ≡ r
      → Stands p o r
      → Stands p o' r'
  Stands-transport o o' r r' eo er h =
      subst (λ x. Stands p x r') (sym eo) (subst (Stands p o) (sym er) h)

  -- A value that is gone stands for anything.
  Stands-Kept :
      (o o' : Option Bytes) (r : Option DbRecord) → Kept o' o → Stands p o r → Stands p o' r
  Stands-Kept o o' r (inl gone) h = subst (λ x. Stands p x r) (sym gone) tt
  Stands-Kept o o' r (inr same) h = subst (λ x. Stands p x r) (sym same) h

  Stands-if :
      (b : Bool) (o : Option Bytes) (r r' : Option DbRecord)
      → Stands p o r
      → Stands p (if b then none else o) (if b then r' else r)
  Stands-if true o r r' h = tt
  Stands-if false o r r' h = h

  -- A write whose key leaves the cache.
  pub Uncached-IsCoherent :
      (s s' : KindServer p) (key : Text) (r : Option DbRecord)
      → ((k : Text) → lookup p k s' ≡ (if key == k then r else lookup p k s))
      → Uncached p key s.cache s'.cache
      → IsCoherent p s
      → IsCoherent p s'
  Uncached-IsCoherent s s' key r lookups gone coherent k =
      Stands-transport _ _ _ _ (gone k) (lookups k) (Stands-if (key == k) _ _ r (coherent k))

  -- A put without a time to live.
  pub CachedPut-IsCoherent :
      (s s' : KindServer p) (key : Text) (val : Bytes)
      → Writes p s s' key (new_record p s val none)
      → CachedPut p key val none s.cache s'.cache
      → IsCoherent p s
      → IsCoherent p s'
  CachedPut-IsCoherent s s' key val w cached coherent k = elim (Bool-cases (key == k)) [
    | inl same ↦
        let at = (text_beq_iff key k).0 same in
        Stands-transport (some val) _ (some (new_record p s val none)) _
          (ap (p.caches.peek s'.cache) (sym at) ∙ cached.0) (w.lookups k ∙ if_true _ _ _ same)
          (refl, refl)
    | inr other ↦
        Stands-transport _ _ (lookup p k s) _ refl (w.lookups k ∙ if_false _ _ _ other)
          (Stands-Kept _ _ _ (cached.1 k other) (coherent k))
  ]

  Stands-written :
      (version : ℕ) (ws : WriteSet) (k : Text) (o : Option Bytes) (r : Option DbRecord)
      → Stands p o r
      → Stands p (uncached p ws k o) (written version ws k r)
  unfolding uncached written
  Stands-written version [] k o r h = h
  Stands-written version ((j, v) ∷ ws) k o r h =
      Stands-written version ws k _ _ (Stands-if (j == k) o r (at_version version v) h)

  pub Commits-IsCoherent :
      (ws : WriteSet) (s s' : KindServer p) → Commits p ws s s' → IsCoherent p s → IsCoherent p s'
  Commits-IsCoherent ws s s' c coherent k =
      Stands-transport _ _ _ _ (c.caches k) (c.lookups k) (Stands-written _ ws k _ _ (coherent k))

  -- If the cache of a sound leader holds a value of a key, a put of that key with a time to live
  -- succeeds, and the next get of the key, at any time, returns the old value with no expiry.
  pub ttl_put_leaves_stale_value :
      (now later : ℕ) (req : PutRequest) (s : KindServer p) (old : Bytes) (ms : ℕ)
      → IsSound p s
      → s.is_replica ≡ false
      → req.ttl_ms ≡ some ms
      → p.caches.peek s.cache req.key ≡ some old
      → (s' : KindServer p) × (s'' : KindServer p) × (put_request p now req s ≡ some (s', ok true))
        × (get_request p later req.key s'
            ≡ some (s'', ok (record { key = req.key; value = old; expires_at = none })))
  unfolding get_request
  ttl_put_leaves_stale_value now later req s old ms sound leader ttl cached =
      let (s', puts, sound', w, kept) = put_request-Writes p now req s sound leader in
      let (c, hits, valid, same) = p.caches.get_returns s'.cache req.key sound'.cache in
      let same_cache : s'.cache ≡ s.cache =
        subst (λ t. CachedPut p req.key req.value (expiry now t) s.cache s'.cache) ttl kept in
      let hit : p.caches.peek s'.cache req.key ≡ some old =
        ap (λ x. p.caches.peek x req.key) same_cache ∙ cached in
      (
        s',
        record s' { cache = c },
        puts,
        rw hits (ap (λ h. get_from p later req.key h (record s' { cache = c })) hit),
      )
