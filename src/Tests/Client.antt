-- ===== src/Tests/Client.antt =====
-- The command-line client, the start of a process and the scans on a small server.
use kind.Prelude.{
  length, ap, ◌↔◌, ◌≡◌, ◌≢◌, refl, false, List, [], ◌∷◌, Option, none, some, Text, text_eq, codes,
  text_beq, arith,
}
use kind.Server.State.{KindServer, ScanFilter}
use kind.Server.Reads.{RecordMessage, range_scan, collect}
use kind.Server.Reads.Range.{find_message, Found, range_scan_lem}
use kind.Kindctl.{Formats, note, exit_one, put, get, cas, out, success, Run, run, execute}
use kind.Kindctl.Session.{Displays, put_then_get, swap_wins_once}
use kind.Process.{configure, replica_flag}
use kind.Tests.Tree.{trees}
use kind.Tests.Samples.{
  platform, program, one_user, one_user-IsSound, one_user-IsCoherent, one_user_leads,
}

-- ASCII texts are their bytes; every JSON value prints the same.
abbrev formats : Formats trees
formats = record {
  as_bytes = λ t. t;
  from_utf8_lossy = λ b. b;
  to_string_pretty = λ v. codes "{}";
  number = λ n. n ∷ [];
  from_utf8_lossy-as_bytes = λ t. refl;
}

abbrev server_of : Option (KindServer platform × Run) → KindServer platform
server_of none = one_user
server_of (some (s, _)) = s

put_then_get_example :
    (s1 : KindServer platform) × (s2 : KindServer platform) × (t : Text) × (execute platform formats
        7
        (put (codes "user:2") (codes "Oslo") none)
        one_user
      ≡ some (s1, run (out (codes "stored \"user:2\"") ∷ []) success))
    × (execute platform formats 8 (get (codes "user:2")) s1 ≡ some (s2, run (out t ∷ []) success))
    × Displays platform formats (codes "Oslo") t
put_then_get_example =
    put_then_get platform formats 7 8 (codes "user:2") (codes "Oslo") one_user one_user-IsSound
      one_user-IsCoherent one_user_leads

abbrev to_paris : Option (KindServer platform × Run)
to_paris =
    execute platform formats 7 (cas (codes "user:1") (codes "Berlin") (codes "Paris") none) one_user

unfoldable client_program : Unit {0}
unfolding program execute
client_program = tt

to_paris-wins :
    to_paris
    ≡ some (server_of to_paris, run (out (codes "cas succeeded: \"user:1\" updated") ∷ []) success)
unfolding client_program
to_paris-wins = refl

Paris-ne-Berlin : codes "Paris" ≢ codes "Berlin"
Paris-ne-Berlin h = absurd (omega (arith, ap length h))

swap_wins_once_example :
    execute platform formats 8
      (cas (codes "user:1") (codes "Berlin") (codes "Rome") none)
      (server_of to_paris)
    ≡ some (
      server_of to_paris,
      run
          (note (codes "cas failed: current value of \"user:1\" did not match expected")
            ∷ note (codes "hint: run `kindctl get user:1` to see the current value")
            ∷ [])
          exit_one,
    )
swap_wins_once_example =
    swap_wins_once platform formats 7 8 (codes "user:1") (codes "Berlin") (codes "Paris")
      (codes "Rome") none one_user (server_of to_paris)
      (out (codes "cas succeeded: \"user:1\" updated") ∷ []) one_user-IsSound.cache one_user_leads
      Paris-ne-Berlin to_paris-wins

abbrev berlin : RecordMessage
berlin = record { key = codes "user:1"; value = codes "Berlin"; expires_at = none }

abbrev in_berlin : List ScanFilter
in_berlin = record { field = codes "city"; value = codes "Berlin" } ∷ []

range_scan_lem_example :
    (find_message
        (codes "user:1")
        (range_scan platform 6 (codes "user:") (codes "user:9") in_berlin one_user)
      ≡ some berlin)
    ↔ Found platform 6 in_berlin (codes "user:") (codes "user:9") (codes "user:1") one_user berlin
range_scan_lem_example =
    range_scan_lem platform 6 in_berlin (codes "user:") (codes "user:9") (codes "user:1") one_user
      berlin

-- The record is found with a filter on its city, and not with one on another city.
berlin_found :
    (find_message
        (codes "user:1")
        (range_scan platform 6 (codes "user:") (codes "user:9") in_berlin one_user)
      ≡ some berlin)
    × (range_scan platform 6
          (codes "user:")
          (codes "user:9")
          (record { field = codes "city"; value = codes "Oslo" } ∷ [])
          one_user
        ≡ [])
unfolding program find_message range_scan collect
berlin_found = (refl, refl)

-- The last flag counts, and takes the argument behind it.
flags :
    (configure
      (λ name. none)
      (codes "x" ∷ replica_flag ∷ codes "a" ∷ replica_flag ∷ codes "b" ∷ [])).leader
    ≡ some (codes "b")
unfolding configure text_beq
flags = refl

no_flag : (configure (λ name. none) (codes "x" ∷ [])).is_replica ≡ false
unfolding configure text_beq
no_flag = refl
