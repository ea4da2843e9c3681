-- ===== src/Kindctl.antt =====
-- src/bin/kindctl.rs: the command-line client. A run takes the server to a new state, prints lines
-- and ends with an exit. The requests reach the server of src/server.rs, or no connection is made.
pub mod Session
use kind.Prelude.{
  ℕ, Bool, true, false, ◌≡◌, List, [], ◌∷◌, ◌++◌, Option, none, some, Text, codes, length, is_empty,
  if◌then◌else◌,
}
use kind.Prelude.Optional.{◌>>=◌}
use kind.Prelude.Result.{Result, ok, err}
use kind.Wal.{Bytes}
use kind.Json.{Json}
use kind.Server.State.{Platform, KindServer}
use kind.Server.Effects.{Reply, Status, not_found, permission_denied, internal}
use kind.Server.Reads.{RecordMessage, QueryRequest, get_request, range_scan, query}
use kind.Server.Writes.{PutRequest, CasRequest, put_request, delete_request, cas_request}

-- Text as bytes and back (`as_bytes`, `from_utf8_lossy`), `to_string_pretty`, and numbers in print.
pub record Formats (j : Json) : Type 0 where
  pub as_bytes : Text → Bytes
  pub from_utf8_lossy : Bytes → Text
  pub to_string_pretty : j.Value → Text
  pub number : ℕ → Text
  pub from_utf8_lossy-as_bytes : (t : Text) → from_utf8_lossy (as_bytes t) ≡ t

pub data Commands : Type 0 where
  put : Text → Text → Option ℕ → Commands
  get : Text → Commands
  del : Text → Commands
  scan : Text → Text → Commands
  query_by : Text → Text → Text → ℕ → ℕ → Commands
  cas : Text → Text → Text → Option ℕ → Commands

-- `Channel::connect`, with the text of its error.
pub data Connection : Type 0 where
  connected : Connection
  refused : Text → Connection

-- `println!` and `eprintln!`.
pub data Line : Type 0 where
  out : Text → Line
  note : Text → Line

-- The end of `main`: `Ok(())`, `exit(1)`, or an error that it returns.
pub data Exit : Type 0 where
  success exit_one : Exit
  failed : Status → Exit
  no_connection : Exit

pub record Run : Type 0 where
  pub lines : List Line
  pub exit : Exit

abbrev pub run : List Line → Exit → Run
run lines exit = record { lines = lines; exit = exit }

abbrev pub quoted : Text → Text
quoted t = codes "\"" ++ (t ++ codes "\"")

-- The arms on `success`, and `?` on an error of the server.
abbrev pub put_run : Text → Result Status Bool → Run
put_run key (ok true) = run (out (codes "stored " ++ quoted key) ∷ []) success
put_run key (ok false) = run (note (codes "failed to store " ++ quoted key) ∷ []) exit_one
put_run key (err status) = run [] (failed status)

abbrev pub del_run : Text → Result Status Bool → Run
del_run key (ok true) = run (out (codes "deleted " ++ quoted key) ∷ []) success
del_run key (ok false) = run (note (codes "key not found: " ++ quoted key) ∷ []) exit_one
del_run key (err status) = run [] (failed status)

abbrev pub cas_run : Text → Result Status Bool → Run
cas_run key (ok true) =
    run (out (codes "cas succeeded: " ++ (quoted key ++ codes " updated")) ∷ []) success
cas_run key (ok false) =
    run
      (note
          (codes "cas failed: current value of " ++ (quoted key ++ codes " did not match expected"))
        ∷ note (codes "hint: run `kindctl get " ++ (key ++ codes "` to see the current value"))
        ∷ [])
      exit_one
cas_run key (err status) = run [] (failed status)

-- The texts that name a range and a condition.
abbrev pub range_text : Text → Text → Text → Text
range_text lo between hi = quoted lo ++ (between ++ quoted hi)

abbrev pub condition : Text → Text → Text → Text
condition schema_type field value =
    schema_type ++ (codes "." ++ (field ++ (codes " = " ++ quoted value)))

module _ {j : Json} (f : Formats j) where
  -- `match serde_json::from_str(&value)`: JSON is printed with indentation, other text as it is.
  unfoldable pub shown : Bytes → Text
  shown val = elim (j.from_slice (f.as_bytes (f.from_utf8_lossy val))) [
    | some json ↦ f.to_string_pretty json
    | none ↦ f.from_utf8_lossy val
  ]

  abbrev pub expiry_lines : Option ℕ → List Line
  expiry_lines none = []
  expiry_lines (some t) =
      out (codes "\nexpires at: " ++ (f.number t ++ codes " ms (unix epoch)")) ∷ []

  -- The `match` on the response of `get`.
  abbrev pub get_run : Text → Result Status RecordMessage → Run
  get_run key (ok rec) = run (out (shown rec.value) ∷ expiry_lines rec.expires_at) success
  get_run key (err not_found) = run (note (codes "key not found: " ++ quoted key) ∷ []) exit_one
  get_run key (err permission_denied) = run [] (failed permission_denied)
  get_run key (err internal) = run [] (failed internal)

  -- The loop over the records of a scan or a query.
  unfoldable pub record_lines : List RecordMessage → List Line
  record_lines [] = []
  record_lines (rec ∷ records) =
      out (codes "key: " ++ rec.key)
      ∷ out (codes "val: " ++ shown rec.value)
      ∷ out []
      ∷ record_lines records

  -- The count and the records, or that there are none.
  unfoldable pub list_run : Text → Text → List RecordMessage → Run
  unfolding record_lines
  list_run nothing heading records =
      if is_empty records
      then run (out nothing ∷ []) success
      else run (out (f.number (length records) ++ heading) ∷ record_lines records) success

module _ (p : Platform) (f : Formats p.json) where
  -- One command, at the server's time `now`.
  unfoldable pub execute : ℕ → Commands → KindServer p → Option (KindServer p × Run)
  unfolding shown list_run
  execute now (put key value ttl) s = do
    (s', reply) ← put_request p now (record { key = key; value = f.as_bytes value; ttl_ms = ttl }) s
    some (s', put_run key reply)
  execute now (get key) s = do (s', reply) ← get_request p now key s; some (s', get_run f key reply)
  execute now (del key) s = do (s', reply) ← delete_request p key s; some (s', del_run key reply)
  execute now (scan lo hi) s = some (
    s,
    list_run f (codes "no records found in range " ++ range_text lo (codes " ..= ") hi)
        (codes " record(s) in [" ++ (range_text lo (codes " ..= ") hi ++ codes "]:\n"))
        (range_scan p now lo hi [] s),
  )
  execute now (query_by schema_type field value limit offset) s = some (
    s,
    list_run f (codes "no records found where " ++ condition schema_type field value)
        (codes " record(s) where " ++ (condition schema_type field value ++ codes ":\n"))
        (query p now
          (record {
            schema_type = schema_type;
            field = field;
            value = value;
            limit = some limit;
            offset = some offset;
          })
          s),
  )
  execute now (cas key expected new_value ttl) s = do
    (s', reply) ←
        cas_request p now
          (record {
            key = key;
            expected_value = f.as_bytes expected;
            new_value = f.as_bytes new_value;
            ttl_ms = ttl;
          })
          s
    some (s', cas_run key reply)

  -- `main`: the connection first.
  unfoldable pub main :
      Connection → Text → ℕ → Commands → KindServer p → Option (KindServer p × Run)
  unfolding execute
  main connected host now command s = execute now command s
  main (refused reason) host now command s = some (
    s,
    run
        (note (codes "Could not connect to Kind DB at '" ++ (host ++ (codes "': " ++ reason)))
          ∷ note (
              codes
                "Is the server running? Try: docker run -d -p 50051:50051 nks01x/kind-db:latest")
          ∷ [])
        no_connection,
  )
