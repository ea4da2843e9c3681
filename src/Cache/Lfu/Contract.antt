-- ===== src/Cache/Lfu/Contract.antt =====
-- `LfuCache` of src/cache.rs: the order of its evictions, and the cache as a value of the trait.
use kind.Prelude.{
  ℕ, subst, sym, ◌≤◌, ◌≡◌, refl, ap, ◌∙◌, Eq, ◌==◌, nat_eq, nat_beq_iff, ==_refl, true, false, List,
  [], ◌∷◌, Option, none, some, arith, if◌then◌else◌, contains, length, inl, inr, Option-cases,
  Bool-cases, List-cases, leb,
}
use kind.Prelude.Map
use kind.Cache.{Kept, Kept-if}
use kind.Cache.Lfu.{
  HashOrder, LfuInner, next_freq, increment_freq, put, invalidate, evict, make_room,
}
use kind.Cache.Lfu.Frequencies.{IsAscending, AllAbove-get}
use kind.Cache.Lfu.Invariant.{
  has_freq, IsConsistent, IsValid, increment_freq-get, increment_freq-length,
  increment_freq-IsConsistent, invalidate-get, invalidate-IsConsistent, invalidate-length, enter,
  enter-IsConsistent, overwrite, overwrite-IsConsistent,
}

has_freq_lem {ℓ} :
    {V : Type ℓ} (f : ℕ) (o : Option (V × ℕ)) → has_freq f o ≡ true → (w : V) × (o ≡ some (w, f))
has_freq_lem f none h = absurd (ground arith)
has_freq_lem f (some (w, g)) h = (w, ground (arith, nat_beq_iff g f))

module _ {K V : Type 0} ⦃e : Eq K⦄ where
  -- An entry of the lowest frequency.
  abbrev pub IsLeast : LfuInner K V → K → V → ℕ → Type 0
  IsLeast c o w f =
      (Map.get o c.map ≡ some (w, f))
      × ((j : K) (w' : V) (g : ℕ) → Map.get j c.map ≡ some (w', g) → f ≤ g)

  used_frequency :
      (c : LfuInner K V) (k : K) (w : V) (f : ℕ)
      → IsConsistent c
      → Map.get k c.map ≡ some (w, f)
      → (keys : List K) × (Map.get f c.freqs ≡ some keys)
  unfolding contains
  used_frequency c k w f v found = elim (Option-cases (Map.get f c.freqs)) [
    | inl absent ↦ absurd (ground (arith, v.listed f k, nat_beq_iff f f))
    | inr there ↦ there
  ]

  evict_picks :
      (order : HashOrder K) (c : LfuInner K V) (f : ℕ) (k : K) (ks : List K)
      (rest : List (ℕ × List K))
      → IsConsistent c
      → c.freqs ≡ (f, k ∷ ks) ∷ rest
      → (w : V) × IsLeast c (order.pick k ks) w f
  unfolding Map.get
  evict_picks order c f k ks rest v freqs =
      let o = order.pick k ks in
      let here : Map.get f c.freqs ≡ some (k ∷ ks) = ap (Map.get f) freqs ∙ rw (==_refl f) in
      let (w, found) =
        has_freq_lem f (Map.get o c.map) (sym (v.listed f o) ∙ rw here (order.pick_mem k ks)) in
      let ascending : IsAscending ((f, k ∷ ks) ∷ rest) = subst IsAscending freqs v.ascending in
      (
        w,
        (
          found,
          λ j w' g at.
              let (keys, there) = used_frequency c j w' g v at in
              ground (
                arith,
                ap (Map.get g) freqs,
                nat_beq_iff f g,
                AllAbove-get f g keys rest ascending.0,
              ),
        ),
      )

  -- On a full cache a key of the lowest frequency is found and taken out.
  evict-IsLeast :
      (order : HashOrder K) (c : LfuInner K V)
      → IsConsistent c
      → c.capacity ≤ length c.map
      → (o : K) × (w : V) × (f : ℕ) × IsLeast c o w f × (evict order c ≡ some (invalidate c o))
  unfolding evict contains Map.get
  evict-IsLeast order c v full = elim (List-cases c.freqs) [
    | inl empty ↦ elim (List-cases c.map) [
      | inl none_there ↦ absurd (ground (arith, v.positive, ap length none_there))
      | inr ((k, (w, f)), rest, there) ↦
          let found : Map.get k c.map ≡ some (w, f) = ap (Map.get k) there ∙ rw (==_refl k) in
          let (keys, used) = used_frequency c k w f v found in
          absurd (ground (arith, ap (Map.get f) empty))
    ]
    | inr ((f, []), rest, there) ↦ absurd (v.filled f (ap (Map.get f) there ∙ rw (==_refl f)))
    | inr ((f, k ∷ ks), rest, there) ↦
        let (w, least) = evict_picks order c f k ks rest v there in
        (order.pick k ks, w, f, least, ground arith)
  ]

  pub invalidate_capacity : (c : LfuInner K V) (k : K) → (invalidate c k).capacity ≡ c.capacity
  unfolding invalidate
  invalidate_capacity c k = ground arith

  pub increment_capacity :
      (k : K) (f : ℕ) (c : LfuInner K V) → (increment_freq k f c).capacity ≡ c.capacity
  unfolding increment_freq
  increment_capacity k f c = refl

  -- A put of a new key into a valid, full LFU cache returns a valid cache, whichever key the
  -- iterator of a set gives first. Exactly one key is gone, one whose frequency is not above that
  -- of any entry; the new key has its value at frequency one, and all other entries are unchanged.
  pub put_evicts-IsLeast :
      (order : HashOrder K) (c : LfuInner K V) (k : K) (x : V)
      → IsValid c
      → Map.get k c.map ≡ none
      → length c.map ≡ c.capacity
      → (c' : LfuInner K V) × (o : K) × (w : V) × (f : ℕ) × IsLeast c o w f
        × (put order c k x ≡ some c')
        × IsValid c'
        × ((j : K)
            → Map.get j c'.map
              ≡ (if k == j then some (x, 1) else if o == j then none else Map.get j c.map))
  unfolding put make_room
  put_evicts-IsLeast order c k x valid absent full =
      let v = valid.consistent in
      let (o, w, f, least, evicts) = evict-IsLeast order c v (ground arith) in
      let room = invalidate c o in
      let out : Map.get k room.map ≡ none = ground (arith, invalidate-get c o k) in
      (
        enter k x room,
        o,
        w,
        f,
        least,
        ground (arith, evicts),
        record {
          consistent = enter-IsConsistent room k x (invalidate-IsConsistent c o v) out;
          bounded = ground (
            arith,
            Map.length-insert k (x, 1) room.map,
            invalidate-length c o v,
            invalidate_capacity c o,
            least.0,
            out,
          );
        },
        λ j.
            Map.get-insert k j (x, 1) room.map
            ∙ ap (λ t. if k == j then some (x, 1) else t) (invalidate-get c o j),
      )

  -- What a put leaves.
  pub record IsPut (c : LfuInner K V) (k : K) (x : V) (c' : LfuInner K V) : Type 0 where
    pub valid : IsValid c'
    pub frequency : ℕ
    pub self : Map.get k c'.map ≡ some (x, frequency)
    pub others : (j : K) → (k == j) ≡ false → Kept (Map.get j c'.map) (Map.get j c.map)

  pub put-IsPut :
      (order : HashOrder K) (c : LfuInner K V) (k : K) (x : V)
      → IsValid c
      → (c' : LfuInner K V) × (put order c k x ≡ some c') × IsPut c k x c'
  unfolding put make_room
  put-IsPut order c k x valid = elim (Option-cases (Map.get k c.map)) [
    | inl absent ↦ elim (Bool-cases (leb c.capacity (length c.map))) [
      | inl full ↦
          let (c', o, w, f, least, returns, valid', get') =
            put_evicts-IsLeast order c k x valid absent (ground (arith, valid.bounded)) in
          (
            c',
            returns,
            record {
              valid = valid';
              frequency = 1;
              self = get' k ∙ rw (==_refl k);
              others = λ j ne.
                  subst (λ t. Kept t (Map.get j c.map)) (sym (get' j))
                    (rw ne (Kept-if (o == j) (Map.get j c.map)));
            },
          )
      | inr room ↦ (
        enter k x c,
        ground arith,
        record {
          valid = record {
            consistent = enter-IsConsistent c k x valid.consistent absent;
            bounded = ground (arith, Map.length-insert k (x, 1) c.map);
          };
          frequency = 1;
          self = Map.get-insert k k (x, 1) c.map ∙ rw (==_refl k);
          others = λ j ne. inr (Map.get-insert k j (x, 1) c.map ∙ rw ne);
        },
      )
    ]
    | inr ((old, f), found) ↦
        let w = overwrite k x f c in
        let v' = overwrite-IsConsistent c k x old f valid.consistent found in
        let found' : Map.get k w.map ≡ some (x, f) =
          Map.get-insert k k (x, f) c.map ∙ rw (==_refl k) in
        let moved = increment_freq-get w v' k f x found' in
        (
          increment_freq k f w,
          ground arith,
          record {
            valid = record {
              consistent = increment_freq-IsConsistent w v' k f x found';
              bounded = ground (
                arith,
                increment_freq-length w v' k f x found',
                Map.length-insert k (x, f) c.map,
                increment_capacity k f w,
                valid.bounded,
              );
            };
            frequency = next_freq f;
            self = moved k ∙ rw (==_refl k);
            others = λ j ne. inr (moved j ∙ rw ne (Map.get-insert k j (x, f) c.map ∙ rw ne));
          },
        )
  ]
