-- ===== src/Sessions/Examples.antt =====
-- The theorems on sessions at one run that Carol drives.
use kab23_motorsport_telemet.Prelude.{◌≡◌, refl, [], ◌∷◌, none, some, ok}
use kab23_motorsport_telemet.Repository.InMemory.{in_memory}
use kab23_motorsport_telemet.Cars.Examples.{garage, fleet, user_named}
use kab23_motorsport_telemet.Ingest.Sessions.{live}
use kab23_motorsport_telemet.Sessions.{
  Session, Paddock, Runs, session_key, same_run, require_writable_session, require_session,
  admit_to, write_end, close,
}
use kab23_motorsport_telemet.Sessions.Access.{row_of}
use kab23_motorsport_telemet.Sessions.Closing.{ended, close_across, close_again, closed_at_once}

abbrev pub run_one : Session
run_one = record {
  id = "s1";
  car_id = "c1";
  driver_id = "carol";
  track = "Kab";
  started_at = 10;
  ended_at = none;
  status = live;
  device_session_id = none;
  analyzed_at = none;
  sector_scheme = none;
}

abbrev pub paddock : Paddock
paddock = record { garage = garage; sessions = in_memory session_key same_run }

abbrev pub runs : Runs paddock
runs = record { fleet = fleet; sessions = run_one ∷ [] }

-- A session that Mona drives: Carol is of the car's team and may not manage.
abbrev of_mona : Runs paddock
of_mona = record { fleet = fleet; sessions = record run_one { driver_id = "mona" } ∷ [] }

close_again_example :
    let s' = (close paddock 20 (user_named "carol") "s1" runs).1 in
    (close paddock 30 (user_named "mona") "s1" s').1 ≡ s'
unfolding close require_writable_session require_session admit_to write_end
close_again_example =
    close_again paddock runs 20 30 (user_named "carol") (user_named "mona") "s1" (ended 20 run_one)
      refl

closed_at_once_example :
    let first = close paddock 20 (user_named "mona") "s1" runs in
    let second =
      close_across paddock
        (λ d. (close paddock 20 (user_named "mona") "s1" d).1)
        30
        (user_named "carol")
        "s1"
        runs in
    (first.0 ≡ ok (ended 20 run_one))
    × (row_of paddock first.1 "s1" ≡ some (ended 20 run_one))
    × (second.0 ≡ ok (ended 30 run_one))
    × (row_of paddock second.1 "s1" ≡ some (ended 30 run_one))
closed_at_once_example =
    closed_at_once paddock runs "s1" run_one refl refl 20 30 (user_named "carol")
      (user_named "mona") refl refl
