-- ===== src/Analysis/Service/Examples.antt =====
-- The theorems on the analysis service and the ring, with whole numbers that have a sign.
use kab23_motorsport_telemet.Prelude.{
  ℕ, ◌≤◌, ◌≡◌, refl, Bool, true, false, ◌&&◌, List, [], ◌∷◌, map, none, some, select, reject, count,
  find, length, arith,
}
use kab23_motorsport_telemet.Prelude.Int.{ℤ, pos, negsuc}
use kab23_motorsport_telemet.Repository.InMemory.{in_memory}
use kab23_motorsport_telemet.Ingest.Sessions.{completed}
use kab23_motorsport_telemet.Sessions.{Session, gates}
use kab23_motorsport_telemet.Sessions.Examples.{paddock, runs, run_one}
use kab23_motorsport_telemet.Tracks.{Track, track_key, same_slug, set_derived_sector_gates}
use kab23_motorsport_telemet.Analysis.Points.{AnalysisSample, DerivedLap, located}
use kab23_motorsport_telemet.Analysis.Crossing.{back}
use kab23_motorsport_telemet.Analysis.Placing.{Place}
use kab23_motorsport_telemet.Analysis.SectorGates.{reference_lap, known_sector_gates}
use kab23_motorsport_telemet.Analysis.SectorGates.Valid.{Divides}
use kab23_motorsport_telemet.Analysis.Laps.{Lap, LapsTable, of_session, is_numbered, insert_new}
use kab23_motorsport_telemet.Analysis.Service.{derive, derive_sector_gates_for, apply_sector_gates}
use kab23_motorsport_telemet.Analysis.Office.{
  Office, Desk, NoCrossingsMemo, remember_no_crossings, no_crossings_memo_size, fastest_lap,
  fastest_from, regated, optimal_input,
}
use kab23_motorsport_telemet.Analysis.Service.Memo.{
  RemembersTruly, forgetful, derive-SameAnswer, remember_no_crossings_lem,
}
use kab23_motorsport_telemet.Analysis.Service.Deriving.{Outcome, derive-Outcome}
use kab23_motorsport_telemet.Analysis.Service.Gating.{apply_sector_gates-derived}
use kab23_motorsport_telemet.Analysis.Service.Traces.{optimal_trace_for}
use kab23_motorsport_telemet.Analysis.Service.Answering.{AnswersPlan, optimal_trace_for-Answers}
use kab23_motorsport_telemet.Analysis.Optimal.{build_optimal_lap}
use kab23_motorsport_telemet.Analysis.Ring.{build_directed_ring}
use kab23_motorsport_telemet.Analysis.Ring.Walk.{Circles, places, build_directed_ring-Circles}
use kab23_motorsport_telemet.Analysis.Segmenter.{
  segment_laps, push_all, push, advance, cross, append,
}
use kab23_motorsport_telemet.Prelude.Assoc.{lookup}
use kab23_motorsport_telemet.Analysis.SectorGates.Examples.{
  derived_two, eastward, meridian, point, signed_numbers, two_gates,
}

count-select :
    (p q : Lap ℤ → Bool) (ls : List (Lap ℤ)) → count p (select q ls) ≡ count (λ l. q l && p l) ls
count-select p q [] = refl
count-select p q (l ∷ ls) = ground (arith, count-select p q ls)

inserted : (ls t t' : List (Lap ℤ)) → some (insert_new ls t) ≡ some t' → t' ≡ insert_new ls t
inserted ls t t' e = ground arith

abbrev laps_in_memory : LapsTable ℤ
laps_in_memory = record {
  Table = List (Lap ℤ);
  rows = λ t. t;
  find_by_session = λ id t. select (of_session id) t;
  find_one_by_number = λ id number t. find (is_numbered id number) t;
  insert_or_ignore = λ ls t. some (insert_new ls t);
  delete = λ id t. reject (of_session id) t;
  find_by_session_lem = λ id p t. count-select p (of_session id) t;
  find_one_by_number_lem = λ id number t. refl;
  insert_or_ignore_lem = inserted;
  delete_lem = λ id t. refl;
}

abbrev kab : Track ℤ
kab = record {
  id = "t1";
  slug = "kab";
  name = "Kab";
  country = "BG";
  centre_lat = pos 0;
  centre_lon = pos 6;
  sf_lat1 = pos 1;
  sf_lon1 = pos 0;
  sf_lat2 = negsuc 0;
  sf_lon2 = pos 0;
  device_track_ids = "Kab" ∷ [];
  sector_gates = none;
  derived_sector_gates = none;
  updated_at = none;
}

abbrev sample : ℤ → ℤ → AnalysisSample ℤ
sample ms lon = record {
  time_ms = ms;
  lat = some (pos 0);
  lon = some lon;
  speed_kmh = none;
  rpm = none;
  coolant_c = none;
  oil_c = none;
  g_lat = none;
  g_lon = none;
}

-- The samples of the only session.
abbrev office : List (AnalysisSample ℤ) → Office ℤ
office samples = record {
  paddock = paddock;
  tracks = in_memory track_key same_slug;
  laps = laps_in_memory;
  samples = record {
    count_range = λ id from to. length samples;
    find_range = λ id from to. samples;
    find_lap_window = λ id from to. samples;
    count_range_lem = λ id from to. refl;
  };
  spelling = record { trim = λ s. s; lower = λ s. s };
  ready_circuit = λ t. none;
}

-- The line is crossed to the east at 0 and at 30 seconds.
abbrev one_lap : List (AnalysisSample ℤ)
one_lap =
    sample (pos 0) (negsuc 0)
    ∷ sample (pos 400) (pos 1)
    ∷ sample (pos 30000) (negsuc 0)
    ∷ sample (pos 30400) (pos 1)
    ∷ []

abbrev over_session : Session
over_session = record run_one { status = completed; ended_at = some 40000 }

abbrev held : Lap ℤ
held = record {
  session_id = "s1";
  lap_number = 7;
  started_at = pos 0;
  ended_at = pos 100;
  lap_ms = pos 100;
  distance_m = pos 900;
  max_speed_kmh = none;
  min_speed_kmh = none;
  sector_ms = pos 30 ∷ pos 30 ∷ pos 40 ∷ [];
  braking_points = [];
  is_best = true;
}

abbrev desk : (samples : List (AnalysisSample ℤ)) → List (Lap ℤ) → Desk (office samples)
desk samples laps = record {
  runs = runs;
  tracks = kab ∷ [];
  laps = laps;
  memo = ("s1", record { sample_count = 1; track_updated_ms = 0 }) ∷ [];
}

derive-Outcome_example :
    let done = derive (office one_lap) 50000 true over_session (desk one_lap (held ∷ [])) in
    Outcome (office one_lap) 50000 true "s1" (desk one_lap (held ∷ [])) done.0 done.1
derive-Outcome_example =
    derive-Outcome (office one_lap) 50000 true over_session (desk one_lap (held ∷ []))

-- One sample, as when the memo was written.
abbrev lone : List (AnalysisSample ℤ)
lone = sample (pos 0) (pos 1) ∷ []

lone-RemembersTruly : RemembersTruly (office lone) 50000 over_session (desk lone [])
unfolding segment_laps push_all push advance cross append located signed_numbers
lone-RemembersTruly track found m there count updated = refl

derive-SameAnswer_example :
    (derive (office lone) 50000 true over_session (desk lone [])).0
    ≡ (derive (office lone) 50000 true over_session (forgetful (office lone) "s1" (desk lone []))).0
derive-SameAnswer_example =
    derive-SameAnswer (office lone) 50000 true over_session (desk lone []) lone-RemembersTruly

abbrev seen_of : ℕ → NoCrossingsMemo
seen_of n = record { sample_count = n; track_updated_ms = 0 }

remember_no_crossings_example :
    (length (remember_no_crossings "s2" (seen_of 2) (("s1", seen_of 1) ∷ []))
      ≤ no_crossings_memo_size)
    × (lookup "s1" (remember_no_crossings "s2" (seen_of 2) (("s1", seen_of 1) ∷ []))
        ≡ some (seen_of 1))
unfolding lookup
remember_no_crossings_example =
    remember_no_crossings_lem "s2" "s1" (seen_of 2) (("s1", seen_of 1) ∷ []) (omega arith)

abbrev derived_lap_one : DerivedLap ℤ
derived_lap_one = record {
  lap_number = 1;
  started_at = pos 0;
  ended_at = pos 4800;
  lap_ms = pos 4800;
  distance_m = pos 12000;
  max_speed_kmh = none;
  min_speed_kmh = none;
  sector_ms = [];
  braking_points = [];
  points = record { opening = point 0 none; after = eastward };
}

derived_for_kab :
    derive_sector_gates_for (office lone) kab (meridian 0) derived_lap_one [] ≡ some two_gates
unfolding derive_sector_gates_for fastest_lap fastest_from
derived_for_kab = derived_two

apply_sector_gates-derived_example :
    Divides
      (fastest_lap derived_lap_one []).1.points.opening
      (fastest_lap derived_lap_one []).1.points.after
      two_gates.gates
      3
    × (apply_sector_gates (office lone) 50000 kab (meridian 0) derived_lap_one [] (kab ∷ []) ≡ (
      (regated two_gates.gates derived_lap_one, []),
      gates,
      set_derived_sector_gates
          (in_memory track_key same_slug)
          "t1"
          (record {
            derived = record { gates = two_gates.gates; source = reference_lap };
            derived_at = 50000;
          })
          (kab ∷ []),
    ))
unfolding known_sector_gates
apply_sector_gates-derived_example =
    apply_sector_gates-derived (office lone) 50000 kab derived_lap_one [] (kab ∷ []) two_gates refl
      derived_for_kab

abbrev two_held : List (Lap ℤ)
two_held = held ∷ record held { lap_number = 8; is_best = false } ∷ []

optimal_trace_for-Answers_example :
    AnswersPlan
      (office one_lap)
      two_held
      (build_optimal_lap (map optimal_input two_held))
      (desk one_lap two_held)
      (optimal_trace_for (office one_lap) over_session 100 (desk one_lap two_held))
optimal_trace_for-Answers_example =
    optimal_trace_for-Answers (office one_lap) over_session 100 (desk one_lap two_held)

abbrev place : ℕ → Place ℤ
place i = record { lat = pos 0; lon = pos i }

build_directed_ring-Circles_example :
    Circles
      (place 1)
      (place 2 ∷ place 3 ∷ [])
      1
      (places (build_directed_ring (place 1) (place 2 ∷ place 3 ∷ []) 1 back))
build_directed_ring-Circles_example =
    build_directed_ring-Circles (place 1) (place 2 ∷ place 3 ∷ []) 1 back (omega arith)
