-- ===== src/Server/Record.antt =====
-- src/server.rs, lines 33-61: a stored record, and expiry.
use kind.Prelude.{ℕ, ◌+◌, ◌%◌, ◌^◌, Bool, false, Option, none, some, ltb}
use kind.Wal.{Bytes}

pub record DbRecord : Type 0 where
  pub value : Bytes
  pub expires_at : Option ℕ
  pub version : ℕ

-- Times are milliseconds of the epoch; `now` is the clock's reading, which lies after the epoch.
unfoldable pub is_expired : ℕ → Option ℕ → Bool
is_expired now none = false
is_expired now (some exp) = ltb exp now

-- `now + ms` on `u64`, which wraps in a release build.
abbrev pub expiry : ℕ → Option ℕ → Option ℕ
expiry now none = none
expiry now (some ms) = some ((now + ms) % 2 ^ 64)

-- `fetch_add(1) + 1` on `AtomicU64`.
abbrev pub next_version : ℕ → ℕ
next_version v = (v + 1) % 2 ^ 64
