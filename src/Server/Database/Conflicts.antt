-- ===== src/Server/Database/Conflicts.antt =====
-- The test for conflicts of src/server.rs on the map of versioned records.
use kind.Prelude.{
  ℕ, ◌≡◌, refl, sym, ◌∙◌, true, false, [], ◌∷◌, text_eq, arith, Bool-cases, inl, inr,
}
use kind.Server.State.{Platform, KindServer}
use kind.Server.Transaction.{WriteSet, has_conflict}
use kind.Server.Transaction.Isolation.{Newer, NoneNewer, has_conflict_sound, has_conflict_complete}
use kind.Server.Database.{Database, Holds, conflicts}

module _ (p : Platform) where
  has_conflict-conflicts :
      (snapshot : ℕ) (ws : WriteSet) (s : KindServer p) (d : Database)
      → Holds p s d
      → has_conflict p snapshot ws s ≡ conflicts p snapshot ws d
  unfolding has_conflict conflicts
  has_conflict-conflicts snapshot [] s d holds = refl
  has_conflict-conflicts snapshot ((k, v) ∷ ws) s d holds =
      rw (holds.entries k, has_conflict-conflicts snapshot ws s d holds) refl

  pub Newer-conflicts :
      (snapshot : ℕ) (ws : WriteSet) (s : KindServer p) (d : Database)
      → Holds p s d
      → Newer p snapshot ws s
      → conflicts p snapshot ws d ≡ true
  Newer-conflicts snapshot ws s d h n = elim (Bool-cases (has_conflict p snapshot ws s)) [
    | inl found ↦ sym (has_conflict-conflicts snapshot ws s d h) ∙ found
    | inr clear ↦
        let older =
          has_conflict_complete p snapshot ws s clear n.key n.current n.in_write_set n.stored in
        absurd (omega (arith, older, n.newer))
  ]

  pub NoneNewer-conflicts :
      (snapshot : ℕ) (ws : WriteSet) (s : KindServer p) (d : Database)
      → Holds p s d
      → NoneNewer p snapshot ws s
      → conflicts p snapshot ws d ≡ false
  NoneNewer-conflicts snapshot ws s d h none_newer =
      elim (Bool-cases (has_conflict p snapshot ws s)) [
        | inl found ↦
            let n = has_conflict_sound p snapshot ws s found in
            absurd (omega (arith, none_newer n.key n.current n.in_write_set n.stored, n.newer))
        | inr clear ↦ sym (has_conflict-conflicts snapshot ws s d h) ∙ clear
      ]
