-- ===== src/Wal.antt =====
-- src/wal.rs: the write-ahead log. The file is its text, and an append that the system accepts
-- writes the whole line. The serialisation and the checksum are parameters.
pub mod Lines
pub mod Recovery
use kind.Prelude.{
  ℕ, ◌≡◌, Bool, true, false, ◌&&◌, List, [], ◌∷◌, ◌++◌, Option, none, some, Text, contains, nat_eq,
  nat_beq, leb, if◌then◌else◌,
}
use kind.Schema.Lexer.{CharClass}
use kind.Wal.Lines.{lines}

abbrev pub Bytes : Type 0
Bytes = List ℕ

mutual
  pub data WalCommand : Type 0 where
    put : Text → Bytes → Option ℕ → WalCommand
    delete : Text → WalCommand
    tx_commit : Commands → WalCommand

  -- `Vec<WalCommand>`.
  pub data Commands : Type 0 where
    nil : Commands
    cons : WalCommand → Commands → Commands

pub record WalEnvelope : Type 0 where
  pub c : WalCommand
  pub k : ℕ
  pub tx_id : ℕ

unfoldable pub is_blank : CharClass → Text → Bool
is_blank u [] = true
is_blank u (x ∷ xs) = u.is_whitespace x && is_blank u xs

-- `serde_json` on the two types of this file, and `crc32fast`. Compact JSON is one line with no
-- control character, it is not blank, and it is read back as what was written.
pub record WalCodec (u : CharClass) : Type 0 where
  pub command_text : WalCommand → Text
  pub envelope_text : WalEnvelope → Text
  pub envelope_of : Text → Option WalEnvelope
  pub command_of : Text → Option WalCommand
  pub crc32 : Text → ℕ
  pub envelope_of-envelope_text : (e : WalEnvelope) → envelope_of (envelope_text e) ≡ some e
  -- White space behind the text is passed over.
  pub envelope_of-line : (e : WalEnvelope) → envelope_of (envelope_text e ++ b'\n' ∷ []) ≡ some e
  pub no_newline : (e : WalEnvelope) → contains (envelope_text e) b'\n' ≡ false
  pub no_return : (e : WalEnvelope) → contains (envelope_text e) b'\r' ≡ false
  pub not_blank : (e : WalEnvelope) → is_blank u (envelope_text e) ≡ false

-- `Wal::new` creates the file if it is not there, and writes behind what it holds.
abbrev pub open_file : Option Text → Text
open_file none = []
open_file (some file) = file

module _ {u : CharClass} (w : WalCodec u) where
  abbrev pub envelope : ℕ → WalCommand → WalEnvelope
  envelope tx_id command = record {
    c = command;
    k = w.crc32 (w.command_text command);
    tx_id = tx_id;
  }

  unfoldable pub append : ℕ → WalCommand → Text → Text
  append tx_id command file = file ++ (w.envelope_text (envelope tx_id command) ++ b'\n' ∷ [])

  -- `self.file.set_len(0)`.
  abbrev pub truncate : Text → Text
  truncate file = []

  -- The checksum of the command, as it would be written, is the one that was stored.
  abbrev pub checks : WalEnvelope → Bool
  checks e = nat_beq (w.crc32 (w.command_text e.c)) e.k

  abbrev pub read_envelope : Option WalEnvelope → Option WalCommand → Option (ℕ × WalCommand)
  read_envelope (some e) old = if checks e then some (e.tx_id, e.c) else none
  read_envelope none (some command) = some (0, command)
  read_envelope none none = none

  -- The body of the loop of `read_all_commands`: what it pushes.
  unfoldable pub read_line : Text → Option (ℕ × WalCommand)
  unfolding is_blank
  read_line line =
      if is_blank u line then none else read_envelope (w.envelope_of line) (w.command_of line)

  abbrev pub push_some {ℓ} : {A : Type ℓ} → Option A → List A → List A
  push_some none xs = xs
  push_some (some x) xs = x ∷ xs

  unfoldable pub read_lines : List Text → List (ℕ × WalCommand)
  unfolding read_line
  read_lines [] = []
  read_lines (l ∷ ls) = push_some (read_line l) (read_lines ls)

  unfoldable pub read_all_commands : Text → List (ℕ × WalCommand)
  unfolding read_lines lines
  read_all_commands file = read_lines (lines file)

  abbrev pub select_envelope : ℕ → Text → Option WalEnvelope → Option (ℕ × Text)
  select_envelope start line none = none
  select_envelope start line (some e) =
      if leb start e.tx_id && checks e then some (e.tx_id, line) else none

  -- The body of the loop of `read_from_tx_id`.
  unfoldable pub select_line : ℕ → Text → Option (ℕ × Text)
  unfolding is_blank
  select_line start line =
      if is_blank u line then none else select_envelope start line (w.envelope_of line)

  unfoldable pub select_lines : ℕ → List Text → List (ℕ × Text)
  unfolding select_line
  select_lines start [] = []
  select_lines start (l ∷ ls) = push_some (select_line start l) (select_lines start ls)

  unfoldable pub read_from_tx_id : Text → ℕ → List (ℕ × Text)
  unfolding select_lines lines
  read_from_tx_id file start = select_lines start (lines file)
