-- ===== src/Tests/Samples.antt =====
-- A small server on the concrete libraries, and the states that a few requests leave.
use kind.Prelude.{
  ◌≡◌, refl, sym, subst, ◌∙◌, true, false, [], ◌∷◌, none, some, arith, Text, text_eq, codes,
  some_pair-fst, filter, contains, text_beq, text_le, starts_with,
}
use kind.Prelude.Result.{ok}
use kind.Prelude.Map
use kind.Cache.Lru
use kind.Cache.Lru.{LruInner}
use kind.Cache.Lru.Contract
use kind.Cache.Lru.Contract.{empty-Represents}
use kind.Cache.Lru.Strategy.{lru, peek}
use kind.Schema.Ast.{TypeDefinition, FieldDefinition, string}
use kind.Schema.Registry.{SchemaRegistry, indexed_fields_for_prefix}
use kind.Wal.{Bytes, append}
use kind.Server.Record.{DbRecord, is_expired}
use kind.Server.State.{Platform, KindServer, matches_value, matches_all, matches_filters}
use kind.Server.Index.{
  type_prefix, value_text, field_keys, object_keys, object_of, extract_index_keys, add_to_index,
  remove_from_index, add_all, remove_all, index_record, remove_record_from_index,
}
use kind.Server.Effects.{
  Reply, tree_insert, tree_remove, cache_invalidate, cache_put, bump_version, wal_append, send_sync,
  send_watch, unindex_old,
}
use kind.Server.Sound.{IsSound, IsCoherent}
use kind.Server.Reads.{get_stored, get_request}
use kind.Server.Writes.{
  PutRequest, publish_put, put_record, put_request, delete_record, delete_request, cas_write,
  cas_absent, cas_present, cas_request,
}
use kind.Server.Writes.Put.{put_request-Writes}
use kind.Server.Coherence.{CachedPut-IsCoherent}
use kind.Server.Transaction.{has_conflict, apply_write, apply_writes, log_commit, commit, pending}
use kind.Tests.Sorted.{sorted, insert_sorted}
use kind.Tests.Codec.{
  ascii, wal_codec, snapshot_codec, framed, unframed, optional, read_optional, raised, lowered,
  envelope_words, envelope_text, record_text,
}
use kind.Tests.Tree.{trees}

abbrev pub platform : Platform
platform = record {
  chars = ascii;
  json = trees;
  codec = wal_codec;
  snapshots = snapshot_codec;
  records = sorted DbRecord;
  key_sets = sorted (Unit {0});
  index_maps = sorted (sorted (Unit {0})).Store;
  caches = lru;
}

abbrev city : FieldDefinition
city = record { name = codes "city"; data_type = string; is_indexed = true }

abbrev user : TypeDefinition
user = record { name = codes "User"; fields = city ∷ []; prefix = some (codes "user") }

abbrev pub registry : SchemaRegistry
registry = record {
  types = (codes "User", user) ∷ [];
  enums = [];
  prefix_map = (codes "user", codes "User") ∷ [];
}

abbrev pub empty_cache : LruInner Text Bytes
empty_cache = Contract.empty 2

-- A leader with a log, an empty tree and one indexed field.
abbrev pub empty_server : KindServer platform
empty_server = record {
  tree = ([], tt);
  indexes = ([], tt);
  cache = empty_cache;
  snapshot = some [];
  schema_registry = registry;
  wal = some [];
  global_version = 0;
  watch_tx = [];
  sync_tx = [];
  is_replica = false;
}

-- Everything that a run of the program computes with.
unfoldable pub program : Unit {0}
unfolding Map.get Map.insert Map.remove filter contains text_beq text_le starts_with Lru.new
    Lru.update_node Lru.relink_prev Lru.relink_next Lru.remove_node Lru.link_old_head
    Lru.attach_front Lru.move_to_front Lru.allocate Lru.get Lru.evict_tail Lru.make_room Lru.put
    Lru.invalidate peek indexed_fields_for_prefix append is_expired matches_value matches_all
    matches_filters type_prefix value_text field_keys object_keys object_of extract_index_keys
    add_to_index remove_from_index add_all remove_all index_record remove_record_from_index
    tree_insert tree_remove cache_invalidate cache_put bump_version wal_append send_sync send_watch
    unindex_old get_stored get_request publish_put put_record put_request delete_record
    delete_request cas_write cas_absent cas_present cas_request insert_sorted framed unframed
    optional read_optional raised lowered envelope_words envelope_text record_text has_conflict
    apply_write apply_writes log_commit commit pending
program = tt

pub empty_server-IsSound : IsSound platform empty_server
unfolding program
empty_server-IsSound = record {
  cache = ([], empty-Represents 2 (omega arith));
  exact = λ i k. refl;
}

pub empty_server-IsCoherent : IsCoherent platform empty_server
unfolding program
empty_server-IsCoherent = λ k. tt

-- The state that a request leaves.
abbrev pub after : {A : Type 0} → KindServer platform → Reply platform A → KindServer platform
after s none = s
after s (some (s', _)) = s'

abbrev pub put_berlin : PutRequest
put_berlin = record { key = codes "user:1"; value = codes "Berlin"; ttl_ms = none }

-- One user, stored, indexed and cached.
abbrev pub one_user : KindServer platform
one_user = after empty_server (put_request platform 5 put_berlin empty_server)

pub put_berlin-returns : put_request platform 5 put_berlin empty_server ≡ some (one_user, ok true)
unfolding program
put_berlin-returns = refl

pub one_user-IsSound : IsSound platform one_user
one_user-IsSound =
    let (s', puts, sound, _, _) =
      put_request-Writes platform 5 put_berlin empty_server empty_server-IsSound refl in
    subst (IsSound platform) (some_pair-fst (sym puts ∙ put_berlin-returns)) sound

pub one_user-IsCoherent : IsCoherent platform one_user
one_user-IsCoherent =
    let (s', puts, sound, w, cached) =
      put_request-Writes platform 5 put_berlin empty_server empty_server-IsSound refl in
    subst (IsCoherent platform) (some_pair-fst (sym puts ∙ put_berlin-returns)) (
      CachedPut-IsCoherent platform empty_server s' (codes "user:1") (codes "Berlin") w cached
        empty_server-IsCoherent)

pub one_user_leads : one_user.is_replica ≡ false
unfolding program
one_user_leads = refl
