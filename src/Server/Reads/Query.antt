-- ===== src/Server/Reads/Query.antt =====
-- `query` of src/server.rs.
use mathlib.Core.List.{Mem, mem-cons_self, mem-cons_of_mem}
use kind.Prelude.{
  ℕ, zero, suc, ◌≤◌, ◌≡◌, refl, sym, ap, ◌∙◌, subst, true, false, List, [], ◌∷◌, ◌++◌, Option, none,
  some, Text, text_eq, text_beq_iff, ◌==◌, arith, length, take, drop, is_some, Bool-cases,
  Option-cases, inl, inr, if_true, if_false, All,
}
use kind.Prelude.Map
use kind.Server.Record.{DbRecord, is_expired}
use kind.Server.State.{Platform, KindServer}
use kind.Server.Index.{index_key}
use kind.Server.Index.Exact.{set_has, member, indexed_by}
use kind.Server.Effects.{lookup}
use kind.Server.Sound.{IsSound}
use kind.Server.Reads.{
  RecordMessage, QueryRequest, message, or_default, query_result, query_keys, query,
}

abbrev Keys : Type 0
Keys = List (Text × Unit {0})

contains_key-take :
    (n : ℕ) (k : Text) (l : Keys)
    → Map.contains_key k (take n l) ≡ true
    → Map.contains_key k l ≡ true
unfolding Map.get
contains_key-take zero k l h = cc
contains_key-take (suc n) k [] h = cc
contains_key-take (suc n) k ((j, u) ∷ l) h = ground (arith, contains_key-take n k l)

contains_key-drop :
    (n : ℕ) (k : Text) (l : Keys)
    → Map.contains_key k (drop n l) ≡ true
    → Map.contains_key k l ≡ true
unfolding Map.get
contains_key-drop zero k l h = h
contains_key-drop (suc n) k [] h = cc
contains_key-drop (suc n) k ((j, u) ∷ l) h = ground (arith, contains_key-drop n k l)

take_all : (n : ℕ) (l : Keys) → length l ≤ n → take n l ≡ l
take_all zero [] h = refl
take_all zero (x ∷ l) h = absurd (omega arith)
take_all (suc n) [] h = refl
take_all (suc n) (x ∷ l) h = ap (λ r. x ∷ r) (take_all n l (omega arith))

module _ (p : Platform) (now : ℕ) where
  open p use {key_sets, index_maps}

  -- A result: the message of a live record of the tree that has the index key.
  pub record IsResult (i : Text) (s : KindServer p) (m : RecordMessage) : Type 0 where
    pub rec : DbRecord
    pub stored : lookup p m.key s ≡ some rec
    pub fresh : is_expired now rec.expires_at ≡ false
    pub is_message : m ≡ message m.key rec
    pub indexed : indexed_by p s.schema_registry m.key i (some rec) ≡ true

  query_keys-All :
      (i : Text) (keys : Keys) (s : KindServer p)
      → IsSound p s
      → ((k : Text) → Map.contains_key k keys ≡ true → member p s.indexes i k ≡ true)
      → All (IsResult i s) (query_keys p now keys s)
  unfolding query_keys Map.get
  query_keys-All i [] s sound inside = tt
  query_keys-All i ((k, u) ∷ keys) s sound inside =
      let rest : All (IsResult i s) (query_keys p now keys s) =
        query_keys-All i keys s sound (λ j h. inside j (ground (arith, h))) in
      let with_result =
        λ (o : Option DbRecord). query_result p now k o ++ query_keys p now keys s in
      elim (Option-cases (lookup p k s)) [
        | inl missing ↦ subst (All (IsResult i s)) (sym (ap with_result missing)) rest
        | inr (rec, there) ↦ elim (Bool-cases (is_expired now rec.expires_at)) [
          | inl stale ↦
              subst (All (IsResult i s))
                (sym (
                  ap with_result there
                  ∙ ap (λ r. r ++ query_keys p now keys s) (if_true _ _ _ stale)))
                rest
          | inr live ↦
              subst (All (IsResult i s))
                (sym (
                  ap with_result there
                  ∙ ap (λ r. r ++ query_keys p now keys s) (if_false _ _ _ live)))
                (
                  record {
                    rec = rec;
                    stored = there;
                    fresh = live;
                    is_message = refl;
                    indexed =
                        ap (indexed_by p s.schema_registry k i) (sym there)
                        ∙ sym (sound.exact i k)
                        ∙ inside k (ap is_some (if_true _ _ _ ((text_beq_iff k k).1 refl)));
                  },
                  rest,
                )
        ]
      ]

  abbrev pub wanted : QueryRequest → Text
  wanted req = index_key req.schema_type req.field req.value

  -- The keys that the query goes through, out of the set of its index key.
  abbrev selected : QueryRequest → key_sets.Store → Keys
  selected req set =
      take (or_default req.limit 100) (drop (or_default req.offset 0) (key_sets.iter set))

  query-none :
      (req : QueryRequest) (s : KindServer p)
      → index_maps.get s.indexes (wanted req) ≡ none
      → query p now req s ≡ []
  unfolding query
  query-none req s missing = ground (arith, missing)

  query-some :
      (req : QueryRequest) (s : KindServer p) (set : key_sets.Store)
      → index_maps.get s.indexes (wanted req) ≡ some set
      → query p now req s ≡ query_keys p now (selected req set) s
  unfolding query
  query-some req s set there = ground (arith, there)

  -- On a sound server every message that a query returns, whatever its limit and offset, is that
  -- of a record that is stored under its key, has not expired, and has the index key of the query.
  pub query_finds_indexed :
      (req : QueryRequest) (s : KindServer p)
      → IsSound p s
      → All (IsResult (wanted req) s) (query p now req s)
  query_finds_indexed req s sound = elim (Option-cases (index_maps.get s.indexes (wanted req))) [
    | inl missing ↦ subst (All (IsResult (wanted req) s)) (sym (query-none req s missing)) tt
    | inr (set, there) ↦ subst (All (IsResult (wanted req) s)) (sym (query-some req s set there)) (
        query_keys-All (wanted req) (selected req set) s sound (λ k h.
          let stored : is_some (key_sets.get set k) ≡ true =
            ap is_some (sym (key_sets.get-iter set k))
            ∙ contains_key-drop (or_default req.offset 0) k (key_sets.iter set)
                (contains_key-take (or_default req.limit 100) k _ h) in
          ground (arith, there, stored)))
  ]

  Mem-behind :
      (j : Text) (m : RecordMessage) (l : List RecordMessage) (o : Option DbRecord)
      → Mem m l
      → Mem m (query_result p now j o ++ l)
  Mem-behind j m l none h = h
  Mem-behind j m l (some rec) h = elim (Bool-cases (is_expired now rec.expires_at)) [
    | inl stale ↦ subst (λ r. Mem m (r ++ l)) (sym (if_true _ _ _ stale)) h
    | inr live ↦ subst (λ r. Mem m (r ++ l)) (sym (if_false _ _ _ live)) (mem-cons_of_mem _ h)
  ]

  query_keys-Mem :
      (keys : Keys) (s : KindServer p) (k : Text) (rec : DbRecord)
      → Map.contains_key k keys ≡ true
      → lookup p k s ≡ some rec
      → is_expired now rec.expires_at ≡ false
      → Mem (message k rec) (query_keys p now keys s)
  unfolding query_keys Map.get
  query_keys-Mem [] s k rec h there live = cc
  query_keys-Mem ((j, u) ∷ keys) s k rec h there live =
      let rest = query_keys p now keys s in
      elim (Bool-cases (j == k)) [
        | inl same ↦
            subst (λ x. Mem (message k rec) (query_result p now x (lookup p x s) ++ rest))
              (sym ((text_beq_iff j k).0 same))
              (subst (λ r. Mem (message k rec) (r ++ rest))
                (sym (ap (query_result p now k) there ∙ if_false _ _ _ live)) mem-cons_self)
        | inr other ↦
            Mem-behind j (message k rec) rest (lookup p j s)
              (query_keys-Mem keys s k rec (ap is_some (sym (if_false _ _ _ other)) ∙ h) there live)
      ]

  -- On a sound server a query without an offset returns the message of every live record of the
  -- tree that has its index key, if the index set is there and is no longer than the limit.
  pub query_finds_all :
      (req : QueryRequest) (s : KindServer p) (set : key_sets.Store) (k : Text) (rec : DbRecord)
      → IsSound p s
      → index_maps.get s.indexes (wanted req) ≡ some set
      → or_default req.offset 0 ≡ 0
      → length (key_sets.iter set) ≤ or_default req.limit 100
      → lookup p k s ≡ some rec
      → is_expired now rec.expires_at ≡ false
      → indexed_by p s.schema_registry k (wanted req) (some rec) ≡ true
      → Mem (message k rec) (query p now req s)
  query_finds_all req s set k rec sound there offset limit stored live has =
      let all : selected req set ≡ key_sets.iter set =
        ap (λ n. take (or_default req.limit 100) (drop n (key_sets.iter set))) offset
        ∙ take_all (or_default req.limit 100) (key_sets.iter set) limit in
      let in_index : member p s.indexes (wanted req) k ≡ true =
        sound.exact (wanted req) k
        ∙ ap (indexed_by p s.schema_registry k (wanted req)) stored
        ∙ has in
      subst (Mem (message k rec)) (sym (query-some req s set there)) (
        query_keys-Mem (selected req set) s k rec
          (ap (Map.contains_key k) all
            ∙ ap is_some (key_sets.get-iter set k)
            ∙ sym (ap (set_has p k) there)
            ∙ in_index)
          stored live)
