-- ===== src/Server/Replica/Loaded.antt =====
-- The chunks of a snapshot of src/server.rs, and a replica of src/replica.rs that receives them.
use mathlib.Core.Path.{fun_ext}
use mathlib.Core.List.{append_assoc, append-nil}
use kind.Prelude.{
  ℕ, ◌≡◌, refl, sym, ap, ◌∙◌, Bool, true, false, List, [], ◌∷◌, ◌++◌, Option, none, some, Text,
  text_eq, text_beq_iff, arith, map, nat_beq, length, leb, if◌then◌else◌, Bool-cases, inl, inr,
  if_true, if_false,
}
use kind.Prelude.Map
use kind.Prelude.Optional.{◌>>=◌}
use kind.Server.Record.{DbRecord, is_expired}
use kind.Server.State.{Platform, KindServer}
use kind.Server.Index.{index_record}
use kind.Server.Effects.{lookup, tree_insert}
use kind.Server.Reads.{RecordMessage}
use kind.Server.Reads
use kind.Server.Sync.{SyncPayload, snapshot_chunk, chunks}
use kind.Server.Replica.{store_version, versioned, load_chunk, receive, receive_all}
use kind.Server.Replica.Session.{StreamItem, message, stream_error, receive_stream}

-- What ends a stream: its end, or an error.
pub data IsEnd : List StreamItem → Type 0 where
  closed : IsEnd []
  broken : (rest : List StreamItem) → IsEnd (stream_error ∷ rest)

module _ (p : Platform) where
  -- The stream of an answer ends after the payloads, or it breaks, and what comes then is not seen.
  pub receive_stream-map :
      (payloads : List SyncPayload) (tail : List StreamItem) (s : KindServer p)
      → IsEnd tail
      → receive_stream p (map (λ x. message (some x)) payloads ++ tail) s ≡ receive_all p payloads s
  unfolding receive_stream receive_all
  receive_stream-map [] [] s closed = refl
  receive_stream-map [] (message _ ∷ rest) s end = elim end [ ]
  receive_stream-map [] (stream_error ∷ rest) s (broken _) = refl
  receive_stream-map (x ∷ payloads) tail s end =
      ap (λ f. receive p x s >>= f)
        (fun_ext
          λ y. ap (λ r. if y.0 then r else some y.1) (receive_stream-map payloads tail y.1 end))

  load_chunk-store_version :
      (v w : ℕ) (ms : List RecordMessage) (s : KindServer p)
      → load_chunk p v ms (store_version p w s) ≡ store_version p w (load_chunk p v ms s)
  unfolding load_chunk index_record tree_insert
  load_chunk-store_version v w [] s = refl
  load_chunk-store_version v w (m ∷ ms) s = load_chunk-store_version v w ms _

  load_chunk-append :
      (v : ℕ) (ms ns : List RecordMessage) (s : KindServer p)
      → load_chunk p v (ms ++ ns) s ≡ load_chunk p v ns (load_chunk p v ms s)
  unfolding load_chunk
  load_chunk-append v [] ns s = refl
  load_chunk-append v (m ∷ ms) ns s = load_chunk-append v ms ns _

  -- The records of a snapshot that are still live.
  abbrev pub live_messages : ℕ → List (Text × DbRecord) → List RecordMessage
  live_messages now [] = []
  live_messages now ((key, rec) ∷ es) =
      if is_expired now rec.expires_at
      then live_messages now es
      else Reads.message key rec ∷ live_messages now es

  -- The replica behind a snapshot: with nothing to send, it is sent an empty chunk or none.
  abbrev pub loaded : ℕ → List RecordMessage → KindServer p → KindServer p
  loaded v [] s = if nat_beq v 0 then store_version p v s else s
  loaded v (m ∷ ms) s = store_version p v (load_chunk p v (m ∷ ms) s)

  loaded-append :
      (v : ℕ) (ms ns : List RecordMessage) (s : KindServer p)
      → loaded v ns (loaded v ms s) ≡ loaded v (ms ++ ns) s
  unfolding load_chunk
  loaded-append v [] [] s = ground arith
  loaded-append v [] (n ∷ ns) s = elim (Bool-cases (nat_beq v 0)) [
    | inl zero_version ↦
        ap (loaded v (n ∷ ns)) (if_true _ (store_version p v s) s zero_version)
        ∙ ap (store_version p v) (load_chunk-store_version v v (n ∷ ns) s)
    | inr other ↦ ap (loaded v (n ∷ ns)) (if_false _ (store_version p v s) s other)
  ]
  loaded-append v (m ∷ ms) [] s =
      elim (Bool-cases (nat_beq v 0)) [
        | inl zero_version ↦ if_true _ _ _ zero_version
        | inr other ↦ if_false _ _ _ other
      ]
      ∙ ap (λ ns. loaded v (m ∷ ns) s) (sym (append-nil ms))
  loaded-append v (m ∷ ms) (n ∷ ns) s =
      ap (store_version p v) (load_chunk-store_version v v (n ∷ ns) (load_chunk p v (m ∷ ms) s))
      ∙ ap (store_version p v) (sym (load_chunk-append v (m ∷ ms) (n ∷ ns) s))

  receive_all-flush :
      (v : ℕ) (m : RecordMessage) (chunk : List RecordMessage) (rest : List SyncPayload)
      (s : KindServer p)
      → receive_all p (snapshot_chunk (chunk ++ m ∷ []) v ∷ rest) s
        ≡ receive_all p rest (loaded v (chunk ++ m ∷ []) s)
  unfolding receive_all receive
  receive_all-flush v m [] rest s = refl
  receive_all-flush v m (x ∷ chunk) rest s = refl

  pub receive_all-chunks :
      (now v : ℕ) (chunk : List RecordMessage) (es : List (Text × DbRecord)) (s : KindServer p)
      → receive_all p (chunks p now v chunk es) s
        ≡ some (loaded v (chunk ++ live_messages now es) s)
  unfolding receive_all chunks receive load_chunk
  receive_all-chunks now v [] [] s = ground arith
  receive_all-chunks now v (m ∷ chunk) [] s =
      ap (λ ms. some (loaded v (m ∷ ms) s)) (sym (append-nil chunk))
  receive_all-chunks now v chunk ((key, rec) ∷ es) s =
      let full = chunk ++ Reads.message key rec ∷ [] in
      let live = live_messages now es in
      let whole = append_assoc chunk (Reads.message key rec ∷ []) live in
      elim (Bool-cases (is_expired now rec.expires_at)) [
        | inl stale ↦
            ap (λ ps. receive_all p ps s) (if_true _ _ _ stale)
            ∙ receive_all-chunks now v chunk es s
            ∙ ap (λ ms. some (loaded v (chunk ++ ms) s)) (sym (if_true _ _ _ stale))
        | inr fresh ↦
            ap (λ ps. receive_all p ps s) (if_false _ _ _ fresh)
            ∙ elim (Bool-cases (leb 100 (length full))) [
              | inl is_full ↦
                  ap (λ ps. receive_all p ps s) (if_true _ _ _ is_full)
                  ∙ receive_all-flush v (Reads.message key rec) chunk (chunks p now v [] es) s
                  ∙ receive_all-chunks now v [] es (loaded v full s)
                  ∙ ap some (loaded-append v full live s)
              | inr room ↦
                  ap (λ ps. receive_all p ps s) (if_false _ _ _ room)
                  ∙ receive_all-chunks now v full es s
            ]
            ∙ ap (λ ms. some (loaded v ms s)) whole
            ∙ ap (λ ms. some (loaded v (chunk ++ ms) s)) (sym (if_false _ _ _ fresh))
      ]

  -- What a snapshot leaves of an entry of the replica, where `e` is the leader's.
  abbrev pub snapshot_entry : ℕ → ℕ → Option DbRecord → Option DbRecord → Option DbRecord
  snapshot_entry now v none before = before
  snapshot_entry now v (some rec) before =
      if is_expired now rec.expires_at
      then before
      else some (record { value = rec.value; expires_at = rec.expires_at; version = v })

  pub lookup-load_chunk :
      (now v : ℕ) (es : List (Text × DbRecord)) (s : KindServer p) (k : Text)
      → Map.IsMap es
      → lookup p k (load_chunk p v (live_messages now es) s)
        ≡ snapshot_entry now v (Map.get k es) (lookup p k s)
  unfolding load_chunk Map.get index_record tree_insert
  lookup-load_chunk now v [] s k distinct = refl
  lookup-load_chunk now v ((key, rec) ∷ es) s k distinct =
      let v_rec = versioned p v rec.value rec.expires_at in
      let s1 = index_record p key rec.value (tree_insert p key v_rec s) in
      elim (Bool-cases (is_expired now rec.expires_at)) [
        | inl stale ↦
            ap (λ ms. lookup p k (load_chunk p v ms s)) (if_true _ _ _ stale)
            ∙ lookup-load_chunk now v es s k distinct.1
            ∙ ground (arith, stale, distinct.0, text_beq_iff key k)
        | inr fresh ↦
            ap (λ ms. lookup p k (load_chunk p v ms s)) (if_false _ _ _ fresh)
            ∙ lookup-load_chunk now v es s1 k distinct.1
            ∙ ap (snapshot_entry now v (Map.get k es)) (p.records.get-insert s.tree key k v_rec)
            ∙ ground (arith, fresh, distinct.0, text_beq_iff key k)
      ]

  -- A snapshot changes neither the cache nor the log.
  pub load_chunk-frame :
      (v : ℕ) (ms : List RecordMessage) (s : KindServer p)
      → ((load_chunk p v ms s).cache ≡ s.cache) × ((load_chunk p v ms s).wal ≡ s.wal)
  unfolding load_chunk index_record tree_insert
  load_chunk-frame v [] s = (refl, refl)
  load_chunk-frame v (m ∷ ms) s = load_chunk-frame v ms _

  stored_frame :
      (b : Bool) (v : ℕ) (s : KindServer p)
      → ((k : Text) → lookup p k (if b then store_version p v s else s) ≡ lookup p k s)
        × ((if b then store_version p v s else s).cache ≡ s.cache)
        × ((if b then store_version p v s else s).wal ≡ s.wal)
  stored_frame true v s = (λ k. refl, refl, refl)
  stored_frame false v s = (λ k. refl, refl, refl)

  pub loaded-frame :
      (v : ℕ) (ms : List RecordMessage) (s : KindServer p)
      → ((k : Text) → lookup p k (loaded v ms s) ≡ lookup p k (load_chunk p v ms s))
        × ((loaded v ms s).cache ≡ s.cache)
        × ((loaded v ms s).wal ≡ s.wal)
  unfolding load_chunk
  loaded-frame v [] s = stored_frame (nat_beq v 0) v s
  loaded-frame v (m ∷ ms) s =
      let (cache, wal) = load_chunk-frame v (m ∷ ms) s in (λ k. refl, cache, wal)

  pub live_messages_any :
      (now : ℕ) (es : List (Text × DbRecord)) (k : Text) (rec : DbRecord)
      → Map.get k es ≡ some rec
      → is_expired now rec.expires_at ≡ false
      → (m : RecordMessage) × (ms : List RecordMessage) × (live_messages now es ≡ m ∷ ms)
  unfolding Map.get
  live_messages_any now [] k rec there fresh = absurd (ground arith)
  live_messages_any now ((key, r) ∷ es) k rec there fresh =
      elim (Bool-cases (is_expired now r.expires_at)) [
        | inl stale ↦
            let (m, ms, is) = live_messages_any now es k rec (ground arith) fresh in
            (m, ms, if_true _ _ _ stale ∙ is)
        | inr alive ↦ (Reads.message key r, live_messages now es, if_false _ _ _ alive)
      ]
