-- ===== src/Server/State.antt =====
-- src/server.rs, lines 63-111: the server's state, and what it calls.
use kind.Prelude.{
  ◌≡◌, contains, nat_eq, ℕ, Bool, true, false, List, [], ◌∷◌, Option, none, some, Text, text_eq,
  text_beq, codes, if◌then◌else◌,
}
use kind.Cache.{Cache}
use kind.Json.{Json}
use kind.SkipMap.{SkipMap}
use kind.Schema.Lexer.{CharClass}
use kind.Schema.Registry.{SchemaRegistry}
use kind.Wal.{Bytes, WalCommand, WalCodec, is_blank}
use kind.Server.Record.{DbRecord}

-- `serde_json` on `SnapshotRecord`, with the same properties as on the log's lines.
pub record SnapshotCodec (u : CharClass) : Type 0 where
  pub record_text : Text → DbRecord → Text
  pub record_of : Text → Option (Text × DbRecord)
  pub record_of-record_text :
      (key : Text) (rec : DbRecord) → record_of (record_text key rec) ≡ some (key, rec)
  pub no_newline : (key : Text) (rec : DbRecord) → contains (record_text key rec) b'\n' ≡ false
  pub no_return : (key : Text) (rec : DbRecord) → contains (record_text key rec) b'\r' ≡ false
  pub not_blank : (key : Text) (rec : DbRecord) → is_blank u (record_text key rec) ≡ false

-- What the server is built from: two of its own parts behind their interfaces, and the libraries.
pub record Platform : Type 1 where
  pub chars : CharClass
  pub json : Json
  pub codec : WalCodec chars
  pub snapshots : SnapshotCodec chars
  pub records : SkipMap DbRecord
  pub key_sets : SkipMap (Unit {0})
  pub index_maps : SkipMap (SkipMap.Store key_sets)
  pub caches : Cache Text Bytes

-- `operation_type` is "PUT" or "DELETE".
pub data Operation : Type 0 where
  put_event delete_event : Operation

pub record WatchEvent : Type 0 where
  pub key : Text
  pub new_value : Option Bytes
  pub operation_type : Operation

-- `KindServerImpl`. A file is its text, `none` where the server has no path for it. A broadcast
-- channel is the list of what was sent, oldest first.
pub record KindServer (p : Platform) : Type 0 where
  pub tree : p.records.Store
  pub indexes : p.index_maps.Store
  pub cache : p.caches.State
  pub snapshot : Option Text
  pub schema_registry : SchemaRegistry
  pub wal : Option Text
  pub global_version : ℕ
  pub watch_tx : List WatchEvent
  pub sync_tx : List (ℕ × WalCommand)
  pub is_replica : Bool

pub record ScanFilter : Type 0 where
  pub field : Text
  pub value : Text

module _ (j : Json) where
  abbrev pub bool_text : Bool → Text
  bool_text true = codes "true"
  bool_text false = codes "false"

  abbrev pub matches_number : Text → j.Number → Bool
  matches_number wanted n = if text_beq (j.number_text n) wanted then true else j.is_close n wanted

  -- The `match` on a member: text, number, Boolean, or another kind.
  unfoldable pub matches_value : Text → j.Value → Bool
  matches_value wanted v = elim (j.as_str v) [
    | some s ↦ text_beq s wanted
    | none ↦ elim (j.as_number v) [
      | some n ↦ matches_number wanted n
      | none ↦ elim (j.as_bool v) [ some b ↦ text_beq (bool_text b) wanted | none ↦ false ]
    ]
  ]

  abbrev pub matches_member : Text → Option j.Value → Bool
  matches_member wanted none = false
  matches_member wanted (some v) = matches_value wanted v

  -- The loop over the filters.
  unfoldable pub matches_all : (Text → Option j.Value) → List ScanFilter → Bool
  unfolding matches_value
  matches_all obj [] = true
  matches_all obj (f ∷ filters) =
      let rest = matches_all obj filters in
      if matches_member f.value (obj f.field) then rest else false

  unfoldable pub matches_filters : Bytes → List ScanFilter → Bool
  unfolding matches_all
  matches_filters val [] = true
  matches_filters val (f ∷ filters) = elim (j.from_slice val) [
    | none ↦ false
    | some v ↦ elim (j.as_object v) [ none ↦ false | some obj ↦ matches_all obj (f ∷ filters) ]
  ]
