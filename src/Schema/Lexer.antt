-- ===== src/Schema/Lexer.antt =====
-- src/schema/parser.rs, lines 3-118: the lexer. A position in the input is the text that is left.
pub mod Fuel
use kind.Prelude.{
  ℕ, zero, suc, ◌≡◌, Bool, true, not, ◌||◌, [], ◌∷◌, Option, none, some, Text, codes, text_beq,
  nat_beq, length, if◌then◌else◌,
}

-- The classes of Unicode characters of the standard library, as far as the lexer relies on them.
pub record CharClass : Type 0 where
  pub is_whitespace : ℕ → Bool
  pub is_alphabetic : ℕ → Bool
  pub is_alphanumeric : ℕ → Bool
  pub to_lowercase : Text → Text
  pub alphabetic_alphanumeric : (c : ℕ) → is_alphabetic c ≡ true → is_alphanumeric c ≡ true

-- `keyword_type` and `keyword_enum` are `Keyword("type")` and `Keyword("enum")`, the only two.
pub data Token : Type 0 where
  keyword_type keyword_enum : Token
  identifier : Text → Token
  string_literal : Text → Token
  l_brace r_brace l_paren r_paren comma colon at_indexed at_prefix l_bracket r_bracket : Token

-- The longest prefix whose characters pass a test, and the rest: the loops over `end`.
unfoldable pub span : (ℕ → Bool) → Text → Text × Text
span p [] = ([], [])
span p (c ∷ cs) = let (word, rest) = span p cs in if p c then (c ∷ word, rest) else ([], c ∷ cs)

abbrev pub Lexed : Type 0
Lexed = Option Token × Text

-- The rest behind the closing quote, if there is one.
abbrev pub behind_quote : Text → Text
behind_quote [] = []
behind_quote (c ∷ cs) = cs

abbrev pub word_token : Text → Token
word_token word =
    if text_beq word (codes "type")
    then keyword_type
    else if text_beq word (codes "enum")
    then keyword_enum
    else identifier word

module _ (u : CharClass) where
  unfoldable pub skip_whitespace : Text → Text
  skip_whitespace [] = []
  skip_whitespace (c ∷ cs) =
      let rest = skip_whitespace cs in if u.is_whitespace c then rest else c ∷ cs

  abbrev pub is_word_char : ℕ → Bool
  is_word_char c = u.is_alphanumeric c || nat_beq c b'_'

  -- The token at a character that is not white space. `again` is the recursive call.
  unfoldable pub token_at : (Text → Option Lexed) → ℕ → Text → Option Lexed
  unfolding span
  token_at again c rest =
      if nat_beq c b'{'
      then some (some l_brace, rest)
      else if nat_beq c b'}'
      then some (some r_brace, rest)
      else if nat_beq c b'('
      then some (some l_paren, rest)
      else if nat_beq c b')'
      then some (some r_paren, rest)
      else if nat_beq c b'['
      then some (some l_bracket, rest)
      else if nat_beq c b']'
      then some (some r_bracket, rest)
      else if nat_beq c b'"'
      then (let (word, after) = span (λ d. not (nat_beq d b'"')) rest in
          some (some (string_literal word), behind_quote after))
      else if nat_beq c b','
      then some (some comma, rest)
      else if nat_beq c b':'
      then some (some colon, rest)
      else if nat_beq c b'@'
      then (let (word, after) = span u.is_alphanumeric rest in
          if text_beq word (codes "indexed")
          then some (some at_indexed, after)
          else if text_beq word (codes "prefix")
          then some (some at_prefix, after)
          else again after)
      else if u.is_alphabetic c || nat_beq c b'_'
      then (let (word, after) = span is_word_char (c ∷ rest) in
          some (some (word_token word), after))
      else again rest

  unfoldable pub dispatch : (Text → Option Lexed) → Text → Option Lexed
  unfolding token_at
  dispatch again [] = some (none, [])
  dispatch again (c ∷ rest) = token_at again c rest

  -- `none` means that the fuel ran out.
  unfoldable pub next_token_within : ℕ → Text → Option Lexed
  unfolding dispatch skip_whitespace
  next_token_within zero text = none
  next_token_within (suc fuel) text = dispatch (next_token_within fuel) (skip_whitespace text)

  -- Without fuel this reads the end of the text.
  abbrev pub lexed_or_end : Option Lexed → Lexed
  lexed_or_end none = (none, [])
  lexed_or_end (some lexed) = lexed

  -- A character is dropped before each recursive call, so this fuel is enough.
  unfoldable pub next_token : Text → Lexed
  unfolding next_token_within
  next_token text = lexed_or_end (next_token_within (suc (length text)) text)
