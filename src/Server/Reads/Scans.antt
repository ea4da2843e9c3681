-- ===== src/Server/Reads/Scans.antt =====
-- `prefix_scan` of src/server.rs.
use kind.Prelude.{
  ℕ, ◌≡◌, refl, sym, ap, ◌∙◌, Bool, true, false, List, [], ◌∷◌, Text, text_eq, arith, filter,
  starts_with, text_le, Bool-cases, inl, inr, if_false, false-ne-true,
}
use kind.SkipMap.{IsAscending}
use kind.SkipMap.Order.{text_le_trans, starts_with-between, text_le-starts_with}
use kind.Server.Record.{DbRecord}
use kind.Server.State.{Platform, KindServer, ScanFilter}
use kind.Server.Reads.{collect, collect_prefix, prefix_scan}

abbrev pub has_prefix : Text → Text × DbRecord → Bool
has_prefix prefix e = starts_with e.0 prefix

-- Behind a key that is not below the prefix and does not have it, no key has it.
no_prefix_after :
    (prefix k : Text) (rec : DbRecord) (es : List (Text × DbRecord))
    → IsAscending ((k, rec) ∷ es)
    → text_le prefix k ≡ true
    → starts_with k prefix ≡ false
    → filter (has_prefix prefix) es ≡ []
unfolding filter
no_prefix_after prefix k rec [] h above without = refl
no_prefix_after prefix k rec ((j, r) ∷ es) h above without =
    elim (Bool-cases (starts_with j prefix)) [
      | inl with_it ↦
          absurd (false-ne-true (sym without ∙ starts_with-between k j prefix above h.0 with_it))
      | inr other ↦
          if_false _ _ _ other
          ∙ no_prefix_after prefix j r es h.2 (text_le_trans prefix k j above h.0) other
    ]

IsAscending-tail :
    (k : Text) (rec : DbRecord) (es : List (Text × DbRecord))
    → IsAscending ((k, rec) ∷ es)
    → IsAscending es
IsAscending-tail k rec [] h = tt
IsAscending-tail k rec ((j, r) ∷ es) h = h.2

module _ (p : Platform) (now : ℕ) where
  collect_prefix-filter :
      (prefix : Text) (filters : List ScanFilter) (es : List (Text × DbRecord))
      → IsAscending es
      → collect_prefix p now prefix filters (filter (λ e. text_le prefix e.0) es)
        ≡ collect p now filters (filter (has_prefix prefix) es)
  unfolding filter collect_prefix collect
  collect_prefix-filter prefix filters [] h = refl
  collect_prefix-filter prefix filters ((k, rec) ∷ es) h =
      let rest = collect_prefix-filter prefix filters es (IsAscending-tail k rec es h) in
      ground (arith, rest, no_prefix_after prefix k rec es h, text_le-starts_with k prefix)

  -- A prefix scan, which starts at the prefix and stops at the first key without it, returns what
  -- a walk over the whole tree collects from the entries whose keys have the prefix, in the same
  -- order.
  pub prefix_scan_lem :
      (prefix : Text) (filters : List ScanFilter) (s : KindServer p)
      → prefix_scan p now prefix filters s
        ≡ collect p now filters (filter (has_prefix prefix) (p.records.iter s.tree))
  unfolding prefix_scan
  prefix_scan_lem prefix filters s =
      ap (collect_prefix p now prefix filters) (p.records.range_from-iter s.tree prefix)
      ∙ collect_prefix-filter prefix filters (p.records.iter s.tree)
          (p.records.iter-IsAscending s.tree)
