-- ===== src/Wal/Recovery.antt =====
-- `append`, `read_all_commands` and `read_from_tx_id` of src/wal.rs together.
use kind.Prelude.{
  ◌⊎◌, inl, inr, ◌||◌, contains-append, ℕ, ◌≡◌, ◌≢◌, nat_beq_iff, refl, sym, ap, ◌∙◌, false, List,
  [], ◌∷◌, ◌++◌, none, some, Text, contains, nat_eq, arith, leb, if◌then◌else◌,
}
use mathlib.Core.Path.{ap₂}
use mathlib.Core.List.{append-nil, append_assoc}
use kind.Schema.Lexer.{CharClass}
use kind.Wal.{
  WalCommand, WalEnvelope, WalCodec, envelope, append, checks, read_line, read_lines,
  read_all_commands, select_line, select_lines, read_from_tx_id,
}
use kind.Wal.Lines.{lines, IsClosed, IsClosed-append, IsClosed-line, lines-append, lines-line}

module _ {u : CharClass} (w : WalCodec u) where
  read_lines-append :
      (xs ys : List Text) → read_lines w (xs ++ ys) ≡ read_lines w xs ++ read_lines w ys
  unfolding read_lines
  read_lines-append [] ys = refl
  read_lines-append (x ∷ xs) ys = ground (arith, read_lines-append xs ys)

  select_lines-append :
      (start : ℕ) (xs ys : List Text)
      → select_lines w start (xs ++ ys) ≡ select_lines w start xs ++ select_lines w start ys
  unfolding select_lines
  select_lines-append start [] ys = refl
  select_lines-append start (x ∷ xs) ys = ground (arith, select_lines-append start xs ys)

  module _ (tx_id : ℕ) (command : WalCommand) (file : Text) where
    abbrev line : Text
    line = w.envelope_text (envelope w tx_id command)

    -- An append to a log whose last line is complete leaves a log whose last line is complete.
    pub append-IsClosed : IsClosed file → IsClosed (append w tx_id command file)
    unfolding append
    append-IsClosed h = IsClosed-append file _ h (IsClosed-line line)

    lines-append-line :
        IsClosed file → lines (append w tx_id command file) ≡ lines file ++ line ∷ []
    unfolding append
    lines-append-line h =
        lines-append file _ h
        ∙ ap (λ x. lines file ++ x) (lines-line line (w.no_newline _) (w.no_return _))

    read_line-line : read_line w line ≡ some (tx_id, command)
    unfolding read_line
    read_line-line = ground (
      arith,
      w.not_blank (envelope w tx_id command),
      w.envelope_of-envelope_text (envelope w tx_id command),
    )

    -- A command that is appended to a log whose last line is complete is read back, with its
    -- transaction id, behind all that was read back before.
    pub read_all_commands-append :
        IsClosed file
        → read_all_commands w (append w tx_id command file)
          ≡ read_all_commands w file ++ (tx_id, command) ∷ []
    unfolding read_all_commands read_lines
    read_all_commands-append h =
        ap (read_lines w) (lines-append-line h)
        ∙ read_lines-append (lines file) (line ∷ [])
        ∙ ap (λ x. read_lines w (lines file) ++ x) (rw read_line-line)

    select_line-line :
        (start : ℕ)
        → select_line w start line ≡ (if leb start tx_id then some (tx_id, line) else none)
    unfolding select_line
    select_line-line start = ground (
      arith,
      w.not_blank (envelope w tx_id command),
      w.envelope_of-envelope_text (envelope w tx_id command),
    )

    -- A reader that starts at a transaction id sees the line of a command that is appended to a
    -- complete log, behind the lines that it saw before, exactly when the id of the command is not
    -- smaller.
    pub read_from_tx_id-append :
        (start : ℕ)
        → IsClosed file
        → read_from_tx_id w (append w tx_id command file) start
          ≡ read_from_tx_id w file start ++ (if leb start tx_id then (tx_id, line) ∷ [] else [])
    unfolding read_from_tx_id select_lines
    read_from_tx_id-append start h =
        ap (select_lines w start) (lines-append-line h)
        ∙ select_lines-append start (lines file) (line ∷ [])
        ∙ ap (λ x. select_lines w start (lines file) ++ x) (ground (arith, select_line-line start))

  -- A line that decodes to no command leaves no trace.
  read_all_commands-skip :
      (file l : Text)
      → IsClosed file
      → lines (l ++ b'\n' ∷ []) ≡ l ∷ []
      → read_line w l ≡ none
      → read_all_commands w (file ++ (l ++ b'\n' ∷ [])) ≡ read_all_commands w file
  unfolding read_all_commands read_lines
  read_all_commands-skip file l closed one skip =
      ap (read_lines w) (lines-append file _ closed ∙ ap (λ x. lines file ++ x) one)
      ∙ read_lines-append (lines file) (l ∷ [])
      ∙ ap (λ x. read_lines w (lines file) ++ x) (rw skip)
      ∙ append-nil _

  -- A line that the reader of records does not take leaves no trace.
  read_from_tx_id-skip :
      (start : ℕ) (file l : Text)
      → IsClosed file
      → lines (l ++ b'\n' ∷ []) ≡ l ∷ []
      → select_line w start l ≡ none
      → read_from_tx_id w (file ++ (l ++ b'\n' ∷ [])) start ≡ read_from_tx_id w file start
  unfolding read_from_tx_id select_lines
  read_from_tx_id-skip start file l closed one skip =
      ap (select_lines w start) (lines-append file _ closed ∙ ap (λ x. lines file ++ x) one)
      ∙ select_lines-append start (lines file) (l ∷ [])
      ∙ ap (λ x. select_lines w start (lines file) ++ x) (rw skip)
      ∙ append-nil _

  -- The checksum that is stored is not that of the command.
  abbrev pub IsDamaged : WalEnvelope → Type 0
  IsDamaged e = w.crc32 (w.command_text e.c) ≢ e.k

  damaged_fails : (e : WalEnvelope) → IsDamaged e → checks w e ≡ false
  damaged_fails e wrong = ground (arith, wrong, nat_beq_iff (w.crc32 (w.command_text e.c)) e.k)

  -- A line of its own, with no control character, whose stored checksum is not that of its
  -- command, or that reads as neither format of the log, is skipped by both readers: a complete
  -- log is read back, from its start or from any transaction id, as if the line were not there.
  pub read_all_commands-corrupt :
      (file l : Text)
      → IsClosed file
      → contains l b'\n' ≡ false
      → contains l b'\r' ≡ false
      → ((e : WalEnvelope) × (w.envelope_of l ≡ some e) × IsDamaged e)
        ⊎ ((w.envelope_of l ≡ none) × (w.command_of l ≡ none))
      → (read_all_commands w (file ++ (l ++ b'\n' ∷ [])) ≡ read_all_commands w file)
        × ((start : ℕ)
            → read_from_tx_id w (file ++ (l ++ b'\n' ∷ [])) start ≡ read_from_tx_id w file start)
  unfolding read_line select_line
  read_all_commands-corrupt file l closed n r (inl (e, decodes, wrong)) =
      let fails = damaged_fails e wrong in
      let one = lines-line l n r in
      (
        read_all_commands-skip file l closed one (ground (arith, decodes, fails)),
        λ start. read_from_tx_id-skip start file l closed one (ground (arith, decodes, fails)),
      )
  read_all_commands-corrupt file l closed n r (inr (no_envelope, no_command)) =
      let one = lines-line l n r in
      (
        read_all_commands-skip file l closed one (ground arith),
        λ start. read_from_tx_id-skip start file l closed one (ground arith),
      )

  -- If a complete log is followed by a torn line with no control character, and this line joined
  -- with the line of the next command reads as neither format, then the next append is not read
  -- back.
  pub torn_write_loses_next :
      (tx_id : ℕ) (command : WalCommand) (file torn : Text)
      → IsClosed file
      → contains torn b'\n' ≡ false
      → contains torn b'\r' ≡ false
      → (l : Text) → l ≡ torn ++ line tx_id command file
      → w.envelope_of l ≡ none
      → w.command_of l ≡ none
      → read_all_commands w (append w tx_id command (file ++ torn)) ≡ read_all_commands w file
  unfolding append
  torn_write_loses_next tx_id command file torn closed n r l joined no_envelope no_command =
      let x = line tx_id command file in
      let plain = λ (c : ℕ) (t : contains torn c ≡ false) (s : contains x c ≡ false).
        ap (λ y. contains y c) joined ∙ contains-append torn x c ∙ ap₂ ◌||◌ t s in
      ap (read_all_commands w) (
        append_assoc file torn _
        ∙ ap (λ y. file ++ y)
            (sym (append_assoc torn x _) ∙ ap (λ y. y ++ b'\n' ∷ []) (sym joined)))
      ∙ (read_all_commands-corrupt file l closed (plain _ n (w.no_newline _))
          (plain _ r (w.no_return _)) (inr (no_envelope, no_command))).0
