-- ===== src/Kindctl/Session.antt =====
-- Commands of src/bin/kindctl.rs, one after the other, on a server of src/server.rs.
use mathlib.Core.List.{append_assoc}
use kind.Prelude.{
  Option-cases, inl, inr, arith, List, ℕ, Bool, ◌≡◌, ◌≢◌, refl, sym, ap, ◌∙◌, subst, true, false,
  [], ◌∷◌, ◌++◌, Option, none, some, Text, codes, text_eq, ==_refl, if_true, some_pair-fst,
  some_pair-snd,
}
use kind.Prelude.Optional.{◌>>=◌}
use kind.Prelude.Result.{ok}
use kind.Server.Record.{is_expired, expiry}
use kind.Server.State.{Platform, KindServer}
use kind.Server.Effects.{Reply, lookup}
use kind.Server.Sound.{IsSound, IsCoherent}
use kind.Server.Coherence.{CachedPut-IsCoherent}
use kind.Server.Reads.Get.{answer, get_request-Gets}
use kind.Server.Writes.{PutRequest, CasRequest}
use kind.Server.Writes.Put.{Writes, put_request-Writes, new_record}
use kind.Server.Writes.Cas.{CasOutcome, swapped, unchanged, cas_request-CasOutcome, current_value}
use kind.Kindctl.{
  Formats, Line, note, put, get, cas, out, success, exit_one, run, put_run, get_run, cas_run, shown,
  execute,
}

exit_one-ne-success : exit_one ≡ success → ⊥
exit_one-ne-success h = cc

module _ (p : Platform) (f : Formats p.json) where
  -- What is printed for a value: the indented JSON that it reads as, or itself if it is no JSON.
  pub data Displays (value : Text) : Text → Type 0 where
    indented :
        (json : p.json.Value)
        → p.json.from_slice (f.as_bytes value) ≡ some json
        → Displays value (f.to_string_pretty json)
    plain : p.json.from_slice (f.as_bytes value) ≡ none → Displays value value

  shown-Displays : (value : Text) → (t : Text) × (shown f (f.as_bytes value) ≡ t) × Displays value t
  unfolding shown
  shown-Displays value =
      let same = f.from_utf8_lossy-as_bytes value in
      elim (Option-cases (p.json.from_slice (f.as_bytes value))) [
        | inl bad ↦ (value, ground (arith, same, bad), plain bad)
        | inr (json, is) ↦ (f.to_string_pretty json, ground (arith, same, is), indented json is)
      ]

  -- On a sound leader whose cache agrees with its tree, the command put with no time to live
  -- prints that it stored the key and succeeds, and the command get of the key, at any later time,
  -- then prints one text and no expiry, and succeeds. The text is the value, or its indented form
  -- if the value reads as JSON.
  pub put_then_get :
      (now later : ℕ) (key value : Text) (s : KindServer p)
      → IsSound p s
      → IsCoherent p s
      → s.is_replica ≡ false
      → (s1 : KindServer p) × (s2 : KindServer p) × (t : Text) × (execute p f now
            (put key value none)
            s
          ≡ some (s1, run (out (codes "stored \"" ++ (key ++ codes "\"")) ∷ []) success))
        × (execute p f later (get key) s1 ≡ some (s2, run (out t ∷ []) success))
        × Displays value t
  unfolding execute is_expired
  put_then_get now later key value s sound coherent leader =
      let req : PutRequest = record { key = key; value = f.as_bytes value; ttl_ms = none } in
      let (s1, puts, sound1, w, cached) = put_request-Writes p now req s sound leader in
      let coherent1 = CachedPut-IsCoherent p s s1 key (f.as_bytes value) w cached coherent in
      let (s2, gets, _) = get_request-Gets p later key s1 sound1 coherent1 in
      let there = w.lookups key ∙ if_true _ _ _ (==_refl key) in
      let (t, prints, displays) = shown-Displays value in
      (
        s1,
        s2,
        t,
        ap (λ o. o >>= λ y. some (y.0, put_run key y.1)) puts,
        ap (λ o. o >>= λ y. some (y.0, get_run f key y.1))
              (gets ∙ ap (λ r. some (s2, answer later key r)) there)
            ∙ ap (λ x. some (s2, run (out x ∷ []) success)) prints,
        displays,
      )

  as_bytes-injective : (a b : Text) → f.as_bytes a ≡ f.as_bytes b → a ≡ b
  as_bytes-injective a b h =
      sym (f.from_utf8_lossy-as_bytes a) ∙ ap f.from_utf8_lossy h ∙ f.from_utf8_lossy-as_bytes b

  abbrev swap : Text → Text → Text → Option ℕ → CasRequest
  swap key expected new_value ttl = record {
    key = key;
    expected_value = f.as_bytes expected;
    new_value = f.as_bytes new_value;
    ttl_ms = ttl;
  }

  -- A swap whose expected value is not that of the record fails.
  swap_refused :
      (now : ℕ) (req : CasRequest) (s s' : KindServer p) (b : Bool)
      → CasOutcome p now req s s' b
      → current_value p now (lookup p req.key s) ≢ req.expected_value
      → (b ≡ false) × (s' ≡ s)
  swap_refused now req s s' b (swapped same _ _) other = absurd (other same)
  swap_refused now req s s' b (unchanged _) other = (refl, refl)

  swap_done :
      (now : ℕ) (req : CasRequest) (s s' : KindServer p) (b : Bool)
      → CasOutcome p now req s s' b
      → b ≡ true
      → Writes p s s' req.key (new_record p s req.new_value (expiry now req.ttl_ms))
  swap_done now req s s' b (swapped _ w _) done = w
  swap_done now req s s' b (unchanged _) done = cc

  won : (key : Text) (b : Bool) → (cas_run key (ok b)).exit ≡ success → b ≡ true
  won key true h = refl
  won key false h = absurd (exit_one-ne-success h)

  -- The lines that report a swap that did not match.
  abbrev pub mismatch_lines : Text → List Line
  mismatch_lines key =
      note (codes "cas failed: current value of \"" ++ (key ++ codes "\" did not match expected"))
      ∷ note (codes "hint: run `kindctl get " ++ (key ++ codes "` to see the current value"))
      ∷ []

  cas_run-mismatch : (key : Text) → cas_run key (ok false) ≡ run (mismatch_lines key) exit_one
  cas_run-mismatch key =
      let hint =
        note (codes "hint: run `kindctl get " ++ (key ++ codes "` to see the current value")) in
      ap (λ x. run (note (codes "cas failed: current value of \"" ++ x) ∷ hint ∷ []) exit_one)
        (append_assoc key (codes "\"") (codes " did not match expected"))

  -- On a leader with a valid cache, if the command cas with no time to live succeeds with a new
  -- value that is not the expected one, then a second cas of the same key with the same expected
  -- value, at any time, prints that the value of the key did not match and the hint to get it,
  -- exits with the code one, and changes nothing.
  pub swap_wins_once :
      (now later : ℕ) (key expected first second : Text) (ttl : Option ℕ) (s s1 : KindServer p)
      (lines : List Line)
      → p.caches.IsValid s.cache
      → s.is_replica ≡ false
      → first ≢ expected
      → execute p f now (cas key expected first none) s ≡ some (s1, run lines success)
      → execute p f later (cas key expected second ttl) s1
        ≡ some (s1, run (mismatch_lines key) exit_one)
  unfolding execute is_expired
  swap_wins_once now later key expected first second ttl s s1 lines valid leader ne wins =
      let req = swap key expected first none in
      let req2 = swap key expected second ttl in
      let reply = λ (o : Reply p Bool). o >>= λ y. some (y.0, cas_run key y.1) in
      let (x, b, returns, valid_x, outcome) = cas_request-CasOutcome p now req s valid leader in
      let same : some (x, cas_run key (ok b)) ≡ some (s1, run lines success) =
        ap reply (sym returns) ∙ wins in
      let w = swap_done now req s x b outcome (won key b (ap (λ r. r.exit) (some_pair-snd same))) in
      let current : current_value p later (lookup p key x) ≡ f.as_bytes first =
        ap (current_value p later) (w.lookups key ∙ if_true _ _ _ (==_refl key)) in
      let (x', b', returns', _, outcome') =
        cas_request-CasOutcome p later req2 x valid_x (w.kept_role ∙ leader) in
      let (lost, same_state) =
        swap_refused later req2 x x' b' outcome'
          (λ h. ne (as_bytes-injective first expected (sym current ∙ h))) in
      subst
        (λ y. execute p f later (cas key expected second ttl) y ≡ some (y, cas_run key (ok false)))
        (some_pair-fst same)
        (ap reply returns'
          ∙ ap (λ c. some (x', cas_run key (ok c))) lost
          ∙ ap (λ y. some (y, cas_run key (ok false))) same_state)
      ∙ ap (λ r. some (s1, r)) (cas_run-mismatch key)
