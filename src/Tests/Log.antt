-- ===== src/Tests/Log.antt =====
-- The log with two records, and with damage.
use kind.Prelude.{
  ◌≡◌, refl, [], ◌∷◌, ◌++◌, none, Text, text_eq, codes, inl, ℕ, suc, ◌≢◌, arith, contains,
}
use kind.Wal.{
  WalCommand, WalEnvelope, put, delete, append, read_all_commands, read_from_tx_id, read_lines,
  read_line, is_blank, select_lines, select_line, envelope,
}
use kind.Wal.Lines.{lines, IsClosed}
use kind.Wal.Recovery.{
  read_all_commands-append, read_from_tx_id-append, read_all_commands-corrupt,
  torn_write_loses_next,
}
use kind.Tests.Codec.{
  wal_codec, framed, unframed, optional, read_optional, raised, lowered, envelope_words,
  envelope_text, envelope_of, read_envelope_words, read_put, read_delete,
}

abbrev put_a : WalCommand
put_a = put (codes "a") (codes "1") none

abbrev file : Text
file = append wal_codec 1 put_a []

unfoldable log_program : Unit {0}
unfolding append lines read_all_commands read_from_tx_id read_lines read_line is_blank select_lines
    select_line contains framed unframed optional read_optional raised lowered envelope_words
    envelope_text envelope_of read_envelope_words read_put read_delete
log_program = tt

abbrev torn : Text
torn = b'!' ∷ []

file-IsClosed : IsClosed file
unfolding log_program
file-IsClosed = refl

read_all_commands-append_example :
    read_all_commands wal_codec (append wal_codec 2 (delete (codes "a")) file)
    ≡ read_all_commands wal_codec file ++ (2, delete (codes "a")) ∷ []
read_all_commands-append_example =
    read_all_commands-append wal_codec 2 (delete (codes "a")) file file-IsClosed

-- The whole log, read back.
both :
    read_all_commands wal_codec (append wal_codec 2 (delete (codes "a")) file)
    ≡ (1, put_a) ∷ (2, delete (codes "a")) ∷ []
unfolding log_program
both = refl

abbrev deletion_line : Text
deletion_line = wal_codec.envelope_text (envelope wal_codec 2 (delete (codes "a")))

read_from_tx_id-append_example :
    read_from_tx_id wal_codec (append wal_codec 2 (delete (codes "a")) file) 2
    ≡ read_from_tx_id wal_codec file 2 ++ (2, deletion_line) ∷ []
read_from_tx_id-append_example =
    read_from_tx_id-append wal_codec 2 (delete (codes "a")) file 2 file-IsClosed

-- The line of a delete whose stored checksum is one too large.
abbrev damaged : WalEnvelope
damaged = record {
  c = delete (codes "a");
  k = suc (wal_codec.crc32 (wal_codec.command_text (delete (codes "a"))));
  tx_id = 2;
}

abbrev damaged_line : Text
damaged_line = wal_codec.envelope_text damaged

suc-ne : (n : ℕ) → n ≢ suc n
suc-ne n h = absurd (omega (arith, h))

read_all_commands-corrupt_example :
    (read_all_commands wal_codec (file ++ (damaged_line ++ b'\n' ∷ []))
      ≡ read_all_commands wal_codec file)
    × ((start : ℕ)
        → read_from_tx_id wal_codec (file ++ (damaged_line ++ b'\n' ∷ [])) start
          ≡ read_from_tx_id wal_codec file start)
read_all_commands-corrupt_example =
    read_all_commands-corrupt wal_codec file damaged_line file-IsClosed
      (wal_codec.no_newline damaged) (wal_codec.no_return damaged)
      (inl (damaged, wal_codec.envelope_of-envelope_text damaged, suc-ne _))

-- A line that reads as neither format.
torn_skipped :
    read_all_commands wal_codec (file ++ (torn ++ b'\n' ∷ [])) ≡ read_all_commands wal_codec file
unfolding log_program
torn_skipped = refl

torn_write_loses_next_example :
    read_all_commands wal_codec (append wal_codec 2 (delete (codes "a")) (file ++ torn))
    ≡ read_all_commands wal_codec file
unfolding log_program
torn_write_loses_next_example =
    torn_write_loses_next wal_codec 2 (delete (codes "a")) file torn file-IsClosed refl refl
      (torn ++ deletion_line) refl refl refl
