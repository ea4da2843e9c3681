-- ===== src/Tests/Codec.antt =====
-- Serialisations as lists of numbers, moved above the control characters and the blank.
use mathlib.Core.List.{append_assoc}
use kind.Prelude.{
  ◌∙◌, ℕ, zero, suc, ◌+◌, ◌≡◌, refl, ap, Bool, true, false, ◌&&◌, ◌||◌, List, [], ◌∷◌, ◌++◌, Option,
  none, some, Text, text_eq, arith, leb, nat_beq, nat_eq, length, take, drop, contains, map,
  if◌then◌else◌, ◌-◌, ◌≤◌, ◌<◌,
}
use kind.Prelude.Optional.{◌>>=◌}
use kind.Schema.Lexer.{CharClass}
use kind.Wal.{
  Bytes, WalCommand, Commands, WalEnvelope, WalCodec, put, delete, tx_commit, nil, cons, is_blank,
}
use kind.Server.Record.{DbRecord}
use kind.Server.State.{SnapshotCodec}

abbrev is_lower : ℕ → Bool
is_lower c = leb b'a' c && leb c b'z'

abbrev is_upper : ℕ → Bool
is_upper c = leb b'A' c && leb c b'Z'

abbrev lower : ℕ → ℕ
lower c = if is_upper c then c + 32 else c

pub alphabetic_alphanumeric :
    (c : ℕ)
    → (is_lower c || is_upper c) ≡ true
    → ((is_lower c || is_upper c) || (leb b'0' c && leb c b'9')) ≡ true
alphabetic_alphanumeric c h = ground (arith, h)

-- The characters of ASCII.
abbrev pub ascii : CharClass
ascii = record {
  is_whitespace = λ c. nat_beq c b' ' || (leb 9 c && leb c 13);
  is_alphabetic = λ c. is_lower c || is_upper c;
  is_alphanumeric = λ c. (is_lower c || is_upper c) || (leb b'0' c && leb c b'9');
  to_lowercase = map lower;
  alphabetic_alphanumeric = alphabetic_alphanumeric;
}

-- A list, behind its length.
unfoldable pub framed : Text → List ℕ → List ℕ
framed t rest = length t ∷ t ++ rest

unfoldable pub unframed : List ℕ → Option (Text × List ℕ)
unframed [] = none
unframed (n ∷ rest) = some (take n rest, drop n rest)

take-length : (t rest : List ℕ) → take (length t) (t ++ rest) ≡ t
take-length [] rest = refl
take-length (x ∷ t) rest = ap (λ l. x ∷ l) (take-length t rest)

drop-length : (t rest : List ℕ) → drop (length t) (t ++ rest) ≡ rest
drop-length [] rest = refl
drop-length (x ∷ t) rest = drop-length t rest

pub unframed-framed : (t rest : List ℕ) → unframed (framed t rest) ≡ some (t, rest)
unfolding unframed framed
unframed-framed t rest = rw (take-length t rest) (rw (drop-length t rest) refl)

unfoldable pub optional : Option ℕ → List ℕ → List ℕ
optional none rest = 0 ∷ rest
optional (some n) rest = 1 ∷ n ∷ rest

unfoldable pub read_optional : List ℕ → Option (Option ℕ × List ℕ)
read_optional [] = none
read_optional (zero ∷ rest) = some (none, rest)
read_optional (suc _ ∷ []) = none
read_optional (suc _ ∷ n ∷ rest) = some (some n, rest)

read_optional-optional :
    (o : Option ℕ) (rest : List ℕ) → read_optional (optional o rest) ≡ some (o, rest)
unfolding read_optional optional
read_optional-optional none rest = refl
read_optional-optional (some n) rest = refl

abbrev mutual
  command_size : WalCommand → ℕ
  command_size (put k v t) = 1
  command_size (delete k) = 1
  command_size (tx_commit cs) = suc (commands_size cs)

  commands_size : Commands → ℕ
  commands_size nil = 1
  commands_size (cons c cs) = suc (command_size c + commands_size cs)

abbrev mutual
  command_words : WalCommand → List ℕ → List ℕ
  command_words (put k v t) rest = 0 ∷ framed k (framed v (optional t rest))
  command_words (delete k) rest = 1 ∷ framed k rest
  command_words (tx_commit cs) rest = 2 ∷ commands_words cs rest

  commands_words : Commands → List ℕ → List ℕ
  commands_words nil rest = 0 ∷ rest
  commands_words (cons c cs) rest = 1 ∷ command_words c (commands_words cs rest)

unfoldable pub read_put : List ℕ → Option (WalCommand × List ℕ)
read_put l = do
  (k, after_key) ← unframed l
  (v, after_value) ← unframed after_key
  (t, rest) ← read_optional after_value
  some (put k v t, rest)

unfoldable pub read_delete : List ℕ → Option (WalCommand × List ℕ)
read_delete l = do (k, rest) ← unframed l; some (delete k, rest)

abbrev mutual
  read_command : ℕ → List ℕ → Option (WalCommand × List ℕ)
  read_command zero l = none
  read_command (suc f) [] = none
  read_command (suc f) (zero ∷ l) = read_put l
  read_command (suc f) (suc zero ∷ l) = read_delete l
  read_command (suc f) (suc (suc _) ∷ l) = do
    (cs, rest) ← read_commands f l
    some (tx_commit cs, rest)

  read_commands : ℕ → List ℕ → Option (Commands × List ℕ)
  read_commands zero l = none
  read_commands (suc f) [] = none
  read_commands (suc f) (zero ∷ l) = some (nil, l)
  read_commands (suc f) (suc _ ∷ l) = do
    (c, after) ← read_command f l
    (cs, rest) ← read_commands f after
    some (cons c cs, rest)

read_put-words :
    (k v : Text) (t : Option ℕ) (rest : List ℕ)
    → read_put (framed k (framed v (optional t rest))) ≡ some (put k v t, rest)
unfolding read_put
read_put-words k v t rest =
    rw (unframed-framed k (framed v (optional t rest)))
      (rw (unframed-framed v (optional t rest)) (rw (read_optional-optional t rest) refl))

read_delete-words : (k : Text) (rest : List ℕ) → read_delete (framed k rest) ≡ some (delete k, rest)
unfolding read_delete
read_delete-words k rest = rw (unframed-framed k rest) refl

mutual
  read_command-words :
      (f : ℕ) (c : WalCommand) (rest : List ℕ)
      → command_size c ≤ f
      → read_command f (command_words c rest) ≡ some (c, rest)
  read_command-words zero (put k v t) rest h = absurd (omega arith)
  read_command-words zero (delete k) rest h = absurd (omega arith)
  read_command-words zero (tx_commit cs) rest h = absurd (omega arith)
  read_command-words (suc f) (put k v t) rest h = read_put-words k v t rest
  read_command-words (suc f) (delete k) rest h = read_delete-words k rest
  read_command-words (suc f) (tx_commit cs) rest h =
      rw (read_commands-words f cs rest (omega arith)) refl

  read_commands-words :
      (f : ℕ) (cs : Commands) (rest : List ℕ)
      → commands_size cs ≤ f
      → read_commands f (commands_words cs rest) ≡ some (cs, rest)
  read_commands-words zero nil rest h = absurd (omega arith)
  read_commands-words zero (cons c cs) rest h = absurd (omega arith)
  read_commands-words (suc f) nil rest h = refl
  read_commands-words (suc f) (cons c cs) rest h =
      rw (read_command-words f c (commands_words cs rest) (omega arith))
        (rw (read_commands-words f cs rest (omega arith)) refl)

-- A text of printing characters, and back.
unfoldable pub raised : List ℕ → Text
raised [] = []
raised (n ∷ l) = (n + 33) ∷ raised l

unfoldable pub lowered : Text → List ℕ
lowered [] = []
lowered (n ∷ l) = (n - 33) ∷ lowered l

lowered-raised : (l : List ℕ) → lowered (raised l) ≡ l
unfolding lowered raised
lowered-raised [] = refl
lowered-raised (n ∷ l) = ground (arith, lowered-raised l)

raised_without : (l : List ℕ) (c : ℕ) → c < 33 → contains (raised l) c ≡ false
unfolding raised contains
raised_without [] c h = refl
raised_without (n ∷ l) c h = ground (arith, raised_without l c h)

raised_not_blank : (n : ℕ) (l : List ℕ) → is_blank ascii (raised (n ∷ l)) ≡ false
unfolding raised is_blank
raised_not_blank n l = ground arith

unfoldable pub envelope_words : WalEnvelope → List ℕ
envelope_words e = command_size e.c ∷ e.k ∷ e.tx_id ∷ command_words e.c []

unfoldable pub read_envelope_words : List ℕ → Option WalEnvelope
read_envelope_words (size ∷ k ∷ tx_id ∷ l) = do
  (c, rest) ← read_command size l
  some (record { c = c; k = k; tx_id = tx_id })
read_envelope_words _ = none

unfoldable pub envelope_text : WalEnvelope → Text
envelope_text e = raised (envelope_words e)

read_envelope_words-words : (e : WalEnvelope) → read_envelope_words (envelope_words e) ≡ some e
unfolding envelope_words read_envelope_words
read_envelope_words-words e = rw (read_command-words (command_size e.c) e.c [] (omega arith)) refl

unfoldable pub envelope_of : Text → Option WalEnvelope
envelope_of l = read_envelope_words (lowered l)

pub envelope_of-envelope_text : (e : WalEnvelope) → envelope_of (envelope_text e) ≡ some e
unfolding envelope_of envelope_text
envelope_of-envelope_text e = rw (lowered-raised (envelope_words e)) (read_envelope_words-words e)

framed-append : (t rest l : List ℕ) → framed t rest ++ l ≡ framed t (rest ++ l)
unfolding framed
framed-append t rest l = ap (λ x. length t ∷ x) (append_assoc t rest l)

optional-append : (o : Option ℕ) (rest l : List ℕ) → optional o rest ++ l ≡ optional o (rest ++ l)
unfolding optional
optional-append none rest l = refl
optional-append (some n) rest l = refl

mutual
  command_words-append :
      (c : WalCommand) (rest l : List ℕ) → command_words c rest ++ l ≡ command_words c (rest ++ l)
  command_words-append (put k v t) rest l =
      ap (λ x. 0 ∷ x)
        (framed-append k (framed v (optional t rest)) l
          ∙ ap (framed k)
              (framed-append v (optional t rest) l ∙ ap (framed v) (optional-append t rest l)))
  command_words-append (delete k) rest l = ap (λ x. 1 ∷ x) (framed-append k rest l)
  command_words-append (tx_commit cs) rest l = ap (λ x. 2 ∷ x) (commands_words-append cs rest l)

  commands_words-append :
      (cs : Commands) (rest l : List ℕ)
      → commands_words cs rest ++ l ≡ commands_words cs (rest ++ l)
  commands_words-append nil rest l = refl
  commands_words-append (cons c cs) rest l =
      ap (λ x. 1 ∷ x)
        (command_words-append c (commands_words cs rest) l
          ∙ ap (command_words c) (commands_words-append cs rest l))

lowered-raised_newline : (l : List ℕ) → lowered (raised l ++ b'\n' ∷ []) ≡ l ++ 0 ∷ []
unfolding lowered raised
lowered-raised_newline [] = refl
lowered-raised_newline (n ∷ l) = ground (arith, lowered-raised_newline l)

read_envelope_words-behind :
    (e : WalEnvelope) (l : List ℕ) → read_envelope_words (envelope_words e ++ l) ≡ some e
unfolding envelope_words read_envelope_words
read_envelope_words-behind e l =
    rw (command_words-append e.c [] l, read_command-words (command_size e.c) e.c l (omega arith))
      refl

pub envelope_of-line : (e : WalEnvelope) → envelope_of (envelope_text e ++ b'\n' ∷ []) ≡ some e
unfolding envelope_of envelope_text
envelope_of-line e =
    ap read_envelope_words (lowered-raised_newline (envelope_words e))
    ∙ read_envelope_words-behind e (0 ∷ [])

pub no_newline : (e : WalEnvelope) → contains (envelope_text e) b'\n' ≡ false
unfolding envelope_text
no_newline e = raised_without (envelope_words e) b'\n' (omega arith)

pub no_return : (e : WalEnvelope) → contains (envelope_text e) b'\r' ≡ false
unfolding envelope_text
no_return e = raised_without (envelope_words e) b'\r' (omega arith)

pub not_blank : (e : WalEnvelope) → is_blank ascii (envelope_text e) ≡ false
unfolding envelope_text envelope_words
not_blank e = raised_not_blank (command_size e.c) _

-- The checksum of a text: its length.
abbrev pub wal_codec : WalCodec ascii
wal_codec = record {
  command_text = λ c. raised (command_words c []);
  envelope_text = envelope_text;
  envelope_of = envelope_of;
  command_of = λ l. none;
  crc32 = length;
  envelope_of-envelope_text = envelope_of-envelope_text;
  envelope_of-line = envelope_of-line;
  no_newline = no_newline;
  no_return = no_return;
  not_blank = not_blank;
}

unfoldable pub record_text : Text → DbRecord → Text
record_text key rec =
    raised (framed key (framed rec.value (optional rec.expires_at (rec.version ∷ []))))

unfoldable pub read_version : Text → Bytes → Option ℕ → List ℕ → Option (Text × DbRecord)
read_version key value t [] = none
read_version key value t (version ∷ _) =
    some (key, record { value = value; expires_at = t; version = version })

unfoldable pub read_record_words : List ℕ → Option (Text × DbRecord)
read_record_words l = do
  (key, after_key) ← unframed l
  (value, after_value) ← unframed after_key
  (t, rest) ← read_optional after_value
  read_version key value t rest

unfoldable pub record_of : Text → Option (Text × DbRecord)
record_of l = read_record_words (lowered l)

pub record_of-record_text :
    (key : Text) (rec : DbRecord) → record_of (record_text key rec) ≡ some (key, rec)
unfolding record_of record_text read_record_words read_version
record_of-record_text key rec =
    let rest = optional rec.expires_at (rec.version ∷ []) in
    rw (lowered-raised (framed key (framed rec.value rest))) (
      rw (unframed-framed key (framed rec.value rest)) (
        rw (unframed-framed rec.value rest)
          (rw (read_optional-optional rec.expires_at (rec.version ∷ [])) refl)))

pub record_no_newline : (key : Text) (rec : DbRecord) → contains (record_text key rec) b'\n' ≡ false
unfolding record_text
record_no_newline key rec =
    raised_without (framed key (framed rec.value (optional rec.expires_at (rec.version ∷ []))))
      b'\n' (omega arith)

pub record_no_return : (key : Text) (rec : DbRecord) → contains (record_text key rec) b'\r' ≡ false
unfolding record_text
record_no_return key rec =
    raised_without (framed key (framed rec.value (optional rec.expires_at (rec.version ∷ []))))
      b'\r' (omega arith)

pub record_not_blank : (key : Text) (rec : DbRecord) → is_blank ascii (record_text key rec) ≡ false
unfolding record_text framed
record_not_blank key rec = raised_not_blank (length key) _

abbrev pub snapshot_codec : SnapshotCodec ascii
snapshot_codec = record {
  record_text = record_text;
  record_of = record_of;
  record_of-record_text = record_of-record_text;
  no_newline = record_no_newline;
  no_return = record_no_return;
  not_blank = record_not_blank;
}
