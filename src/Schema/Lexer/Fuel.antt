-- ===== src/Schema/Lexer/Fuel.antt =====
-- The recursion of `Lexer::next_token`, src/schema/parser.rs.
use kind.Prelude.{
  ℕ, zero, suc, ◌≤◌, ◌<◌, ◌≡◌, refl, sym, subst, Bool, true, false, ◌||◌, not, [], ◌∷◌, Option,
  none, some, Text, arith, length, ◌⊎◌, inl, inr, Bool-cases, if_true, if_false, if◌then◌else◌,
  codes, text_beq, nat_beq,
}
use kind.Schema.Lexer.{
  CharClass, Token, Lexed, span, behind_quote, word_token, skip_whitespace, is_word_char, token_at,
  l_brace, r_brace, l_paren, r_paren, l_bracket, r_bracket, string_literal, comma, colon,
  at_indexed, at_prefix, dispatch, next_token_within, lexed_or_end, next_token,
}

length-span : (q : ℕ → Bool) (text : Text) → length (span q text).1 ≤ length text
unfolding span
length-span q [] = omega arith
length-span q (c ∷ cs) = ground (arith, length-span q cs)

length-behind_quote : (text : Text) → length (behind_quote text) ≤ length text
length-behind_quote [] = omega arith
length-behind_quote (c ∷ cs) = omega arith

-- A token and less than `n` characters, or the end.
abbrev pub Shorter : ℕ → Lexed → Type 0
Shorter n l = (length l.1 < n) ⊎ ((l.0 ≡ none) × (l.1 ≡ []))

-- The lexer returned, with such a result.
abbrev pub Lexes : ℕ → Option Lexed → Type 0
Lexes n none = ⊥
Lexes n (some l) = Shorter n l

Lexes-if :
    (n : ℕ) (b : Bool) (x y : Option Lexed) → Lexes n x → Lexes n y → Lexes n (if b then x else y)
Lexes-if n true x y hx hy = hx
Lexes-if n false x y hx hy = hy

Shorter-weaken : (n m : ℕ) (l : Lexed) → n ≤ m → Shorter n l → Shorter m l
Shorter-weaken n m l h (inl short) = inl (omega (arith, short))
Shorter-weaken n m l h (inr end) = inr end

Lexes-weaken : (n m : ℕ) (o : Option Lexed) → n ≤ m → Lexes n o → Lexes m o
Lexes-weaken n m none h l = l
Lexes-weaken n m (some x) h l = Shorter-weaken n m x h l

module _ (u : CharClass) where
  length-skip_whitespace : (text : Text) → length (skip_whitespace u text) ≤ length text
  unfolding skip_whitespace
  length-skip_whitespace [] = omega arith
  length-skip_whitespace (c ∷ cs) = ground (arith, length-skip_whitespace cs)

  length-word :
      (c : ℕ) (rest : Text)
      → (u.is_alphabetic c || nat_beq c b'_') ≡ true
      → length (span (is_word_char u) (c ∷ rest)).1 ≤ length rest
  unfolding span
  length-word c rest h =
      ground (arith, u.alphabetic_alphanumeric c, length-span (is_word_char u) rest)

  module _ (again : Text → Option Lexed) (c : ℕ) (rest : Text)
      (ih : (text : Text)
        → length text ≤ length rest
        → Lexes (suc (length text)) (again text)) where
    abbrev n : ℕ
    n = suc (length rest)

    abbrev behind_at : Text
    behind_at = (span u.is_alphanumeric rest).1

    abbrev in_quotes : Text × Text
    in_quotes = span (λ d. not (nat_beq d b'"')) rest

    abbrev word : Text × Text
    word = span (is_word_char u) (c ∷ rest)

    one : length rest < n
    one = omega arith

    -- A token of one character, or what follows.
    single :
        (b : Bool) (t : Token) (y : Option Lexed)
        → Lexes n y
        → Lexes n (if b then some (some t, rest) else y)
    single b t y h = Lexes-if n b (some (some t, rest)) y (inl one) h

    word-Lexes : Lexes n (
        if u.is_alphabetic c || nat_beq c b'_'
        then some (some (word_token word.0), word.1)
        else again rest)
    word-Lexes = elim (Bool-cases (u.is_alphabetic c || nat_beq c b'_')) [
      | inl starts ↦
          subst (Lexes n) (sym (if_true _ _ _ starts))
            (inl (omega (arith, length-word c rest starts)))
      | inr other ↦ subst (Lexes n) (sym (if_false _ _ _ other)) (ih rest (omega arith))
    ]

    at-Lexes : Lexes n (
        if text_beq (span u.is_alphanumeric rest).0 (codes "indexed")
        then some (some at_indexed, behind_at)
        else if text_beq (span u.is_alphanumeric rest).0 (codes "prefix")
        then some (some at_prefix, behind_at)
        else again behind_at)
    at-Lexes =
        let short = length-span u.is_alphanumeric rest in
        Lexes-if n _ (some (some at_indexed, behind_at)) _ (inl (omega (arith, short))) (
          Lexes-if n (text_beq (span u.is_alphanumeric rest).0 (codes "prefix"))
            (some (some at_prefix, behind_at)) (again behind_at) (inl (omega (arith, short)))
            (Lexes-weaken (suc (length behind_at)) n (again behind_at) (omega (arith, short))
              (ih behind_at short)))

    token_at-Lexes : Lexes n (token_at u again c rest)
    unfolding token_at
    token_at-Lexes = single (nat_beq c b'{') l_brace _ (
        single (nat_beq c b'}') r_brace _ (
          single (nat_beq c b'(') l_paren _ (
            single (nat_beq c b')') r_paren _ (
              single (nat_beq c b'[') l_bracket _ (
                single (nat_beq c b']') r_bracket _ (
                  Lexes-if n (nat_beq c b'"')
                    (some (some (string_literal in_quotes.0), behind_quote in_quotes.1)) _
                    (inl (
                      omega (
                        arith,
                        length-behind_quote in_quotes.1,
                        length-span (λ d. not (nat_beq d b'"')) rest,
                      )))
                    (single (nat_beq c b',') comma _ (
                      single (nat_beq c b':') colon _
                        (Lexes-if n (nat_beq c b'@') _ _ at-Lexes word-Lexes)))))))))

  dispatch-Lexes :
      (again : Text → Option Lexed) (text : Text)
      → ((t : Text) → length t < length text → Lexes (length t) (again t))
      → Lexes (length text) (dispatch u again text)
  unfolding dispatch
  dispatch-Lexes again [] ih = inr (refl, refl)
  dispatch-Lexes again (c ∷ rest) ih = token_at-Lexes again c rest (λ t h.
      Lexes-weaken (length t) (suc (length t)) (again t) (omega arith) (ih t (omega (arith, h))))

  -- With more fuel than there are characters the lexer returns: it gives a token, with less text
  -- left than there was, or the end with no text left.
  pub next_token_within-Lexes :
      (fuel : ℕ) (text : Text)
      → length text < fuel
      → Lexes (length text) (next_token_within u fuel text)
  unfolding next_token_within
  next_token_within-Lexes zero text h = absurd (omega (arith, h))
  next_token_within-Lexes (suc fuel) text h =
      let skipped = length-skip_whitespace text in
      Lexes-weaken (length (skip_whitespace u text)) (length text)
        (dispatch u (next_token_within u fuel) (skip_whitespace u text)) skipped
        (dispatch-Lexes (next_token_within u fuel) (skip_whitespace u text)
          (λ t shorter. next_token_within-Lexes fuel t (omega (arith, shorter, skipped, h))))

  Lexes-end : (m : ℕ) (o : Option Lexed) → Lexes m o → Shorter m (lexed_or_end u o)
  Lexes-end m none h = absurd h
  Lexes-end m (some l) h = h

  pub next_token-Shorter : (text : Text) → Shorter (length text) (next_token u text)
  unfolding next_token
  next_token-Shorter text =
      Lexes-end (length text) (next_token_within u (suc (length text)) text)
        (next_token_within-Lexes (suc (length text)) text (omega arith))
