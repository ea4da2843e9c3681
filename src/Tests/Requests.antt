-- ===== src/Tests/Requests.antt =====
-- The requests on a server with one user.
use kind.Prelude.{◌≡◌, refl, Bool, true, none, some, Text, text_eq, codes}
use kind.Prelude.Result.{Result, ok, err}
use kind.Server.Record.{DbRecord}
use kind.Server.State.{KindServer}
use kind.Server.Effects.{Status, lookup, not_found, permission_denied}
use kind.Server.Sound.{IsSound}
use kind.Server.Reads.{get_request}
use kind.Server.Reads.Get.{answer, Gets, get_request-Gets}
use kind.Server.Writes.{PutRequest, CasRequest, put_request, cas_request, delete_request}
use kind.Server.Writes.Put.{new_record, Writes, CachedPut, put_request-Writes}
use kind.Server.Writes.Delete.{DeleteOutcome, delete_request-DeleteOutcome}
use kind.Server.Writes.Cas.{CasOutcome, cas_request-CasOutcome, cas_request-IsSound}
use kind.Server.Coherence.{ttl_put_leaves_stale_value}
use kind.Tests.Samples.{
  platform, program, one_user, one_user-IsSound, one_user-IsCoherent, after, one_user_leads,
}

abbrev key : Text
key = codes "user:1"

abbrev berlin : DbRecord
berlin = record { value = codes "Berlin"; expires_at = none; version = 1 }

-- The put overwrites a user who is indexed and cached, with a time to live.
abbrev put_paris : PutRequest
put_paris = record { key = key; value = codes "Paris"; ttl_ms = some 10 }

abbrev paris : DbRecord
paris = record { value = codes "Paris"; expires_at = some 17; version = 2 }

put_request-Writes_example :
    (s' : KindServer platform) × (put_request platform 7 put_paris one_user ≡ some (s', ok true))
    × IsSound platform s'
    × Writes platform one_user s' key (new_record platform one_user (codes "Paris") (some 17))
    × CachedPut platform key (codes "Paris") (some 17) one_user.cache s'.cache
put_request-Writes_example =
    put_request-Writes platform 7 put_paris one_user one_user-IsSound one_user_leads

get_request-Gets_example :
    (s' : KindServer platform) × (get_request platform 9 key one_user
      ≡ some (s', answer 9 key (lookup platform key one_user)))
    × Gets platform 9 key one_user s'
get_request-Gets_example =
    get_request-Gets platform 9 key one_user one_user-IsSound one_user-IsCoherent

delete_request-DeleteOutcome_example :
    (s' : KindServer platform) × (r : Result Status Bool) × (delete_request platform key one_user
      ≡ some (s', r))
    × IsSound platform s'
    × DeleteOutcome platform one_user key s' r
delete_request-DeleteOutcome_example =
    delete_request-DeleteOutcome platform key one_user one_user-IsSound

abbrev swap_rome : CasRequest
swap_rome = record {
  key = key;
  expected_value = codes "Berlin";
  new_value = codes "Rome";
  ttl_ms = none;
}

cas_request-CasOutcome_example :
    (s' : KindServer platform) × (b : Bool) × (cas_request platform 9 swap_rome one_user
      ≡ some (s', ok b))
    × platform.caches.IsValid s'.cache
    × CasOutcome platform 9 swap_rome one_user s' b
cas_request-CasOutcome_example =
    cas_request-CasOutcome platform 9 swap_rome one_user one_user-IsSound.cache one_user_leads

abbrev rome : KindServer platform
rome = after one_user (cas_request platform 9 swap_rome one_user)

cas_request-IsSound_example : IsSound platform rome
unfolding program
cas_request-IsSound_example =
    cas_request-IsSound platform 9 swap_rome one_user rome (ok true) one_user-IsSound refl refl

ttl_put_leaves_stale_value_example :
    (s' : KindServer platform) × (s'' : KindServer platform) × (put_request platform 7 put_paris
        one_user
      ≡ some (s', ok true))
    × (get_request platform 5000 key s'
        ≡ some (s'', ok (record { key = key; value = codes "Berlin"; expires_at = none })))
unfolding program
ttl_put_leaves_stale_value_example =
    ttl_put_leaves_stale_value platform 7 5000 put_paris one_user (codes "Berlin") 10
      one_user-IsSound refl refl refl

-- A get of the key that was put, of one that was not, and a put on a replica.
stored : lookup platform key one_user ≡ some berlin
unfolding program
stored = refl

absent : get_request platform 9 (codes "user:2") one_user ≡ some (one_user, err not_found)
unfolding program
absent = refl

on_replica :
    put_request platform 7 put_paris (record one_user { is_replica = true })
    ≡ some (record one_user { is_replica = true }, err permission_denied)
unfolding program
on_replica = refl
