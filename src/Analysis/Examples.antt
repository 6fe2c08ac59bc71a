-- ===== src/Analysis/Examples.antt =====
-- The theorems on the analysis with numbers that are whole and have no sign: subtraction stops at 0.
use native.Mathlib.Nat.{mul-le-mul_left, le-div_iff_mul-le, mod-add-div'}
use kab23_motorsport_telemet.Prelude.{
  ℕ, suc, ◌≤◌, ◌+◌, ◌-◌, ◌*◌, ◌/◌, ◌%◌, ◌≡◌, refl, true, List, [], ◌∷◌, none, some, length, ltb,
  leb, ◌=ⁿ◌, if◌then◌else◌, inl, inr, ◌↔◌, arith,
}
use kab23_motorsport_telemet.Analysis.Numbers.{Numbers, IsOrdered, IsScaled, ◌≤?◌}
use kab23_motorsport_telemet.Analysis.Points.{
  AnalysisSample, LapPoint, Fix, Gate, last_of, meters_per_deg_lon, round_to,
}
use kab23_motorsport_telemet.Analysis.Trace.{TracePoint}
use kab23_motorsport_telemet.Analysis.Delta.{compare_laps}
use kab23_motorsport_telemet.Analysis.Delta.Resuming.{compared_from, compare_laps-compared_from}
use kab23_motorsport_telemet.Analysis.Crossing.{project_gate, find_gate_crossing, accept, intersect}
use kab23_motorsport_telemet.Analysis.Sectors.{
  LapGateCrossing, cross_gates, cross_each, cross_once, scan_gate, hop, in_order,
}
use kab23_motorsport_telemet.Analysis.Sectors.Gates.{cross_gates_lem, TimedBy}
use kab23_motorsport_telemet.Analysis.Braking.{
  no_zones, find_zones, all_zones, zones_step, brake, begin_zone, reach, deceleration_g,
}
use kab23_motorsport_telemet.Analysis.Segmenter.{Options, fresh, push, push_all}
use kab23_motorsport_telemet.Analysis.Segmenter.Laps.{IsSound}
use kab23_motorsport_telemet.Analysis.Segmenter.Latch.{Kept, Counts, push_all-Segments}
use kab23_motorsport_telemet.Analysis.Best.{
  SectoredLap, OptimalLapCore, is_eligible, pick_best_sectors, combine, best_sectors, best_of,
  is_better, every_timed, total_ms, total_distance, all_from, split_at,
}
use kab23_motorsport_telemet.Analysis.Best.Winning.{Wins, pick_best_sectors-Wins}
use kab23_motorsport_telemet.Analysis.Best.Minimal.{sum_ms, pick_best_sectors-at_most}

abbrev greater : ℕ → ℕ → ℕ
greater a b = if ltb a b then b else a

abbrev smaller : ℕ → ℕ → ℕ
smaller a b = if ltb a b then a else b

instance whole_numbers : Numbers ℕ
whole_numbers = record {
  literal = λ m k. m;
  pi = 3;
  negate = λ a. a;
  plus = λ a b. a + b;
  minus = λ a b. a - b;
  times = λ a b. a * b;
  over = λ a b. a / b;
  less = ltb;
  at_most = leb;
  same = λ a b. a =ⁿ b;
  is_finite = λ a. true;
  abs = λ a. a;
  cos = λ a. 1;
  hypot = λ a b. a + b;
  max = greater;
  min = smaller;
  nearest = λ a. a;
  floor = λ a. a;
  infinity = 1000000;
  rem = λ a b. a % b;
}

whole_numbers-IsOrdered : IsOrdered ℕ
unfolding whole_numbers
whole_numbers-IsOrdered = record {
  lt_irrefl = λ x. ground arith;
  lt_trans = λ x y z. ground arith;
  lt-eq = λ x y z. ground arith;
  eq-lt = λ x y z. ground arith;
  eq_sym = λ x y. ground arith;
  eq_trans = λ x y z. ground arith;
  le_refl = λ x. ground arith;
  not_lt = λ x y. ground arith;
  finite_eq = λ x. ground arith;
  zero_le = refl;
  lt_le = λ x y. ground arith;
  sum_le = λ a b c d. ground arith;
  sum_positive = λ a b. ground arith;
}

abbrev lap : ℕ → ℕ → List ℕ → SectoredLap ℕ
lap number ms sectors = record {
  lap_number = number;
  lap_ms = ms;
  distance_m = 1000;
  sector_ms = sectors;
}

abbrev three_laps : List (SectoredLap ℕ)
three_laps = lap 1 90 (40 ∷ 50 ∷ []) ∷ lap 2 70 (70 ∷ []) ∷ lap 3 80 (45 ∷ 35 ∷ []) ∷ []

abbrev best_core : OptimalLapCore ℕ
best_core = record {
  lap_ms = 75;
  distance_m = 1000;
  sectors =
      record { sector = 0; lap_number = 1; sector_ms = 40 }
      ∷ record { sector = 1; lap_number = 3; sector_ms = 35 }
      ∷ [];
  matches_lap_number = none;
}

pick_three : pick_best_sectors three_laps 2 ≡ some best_core
unfolding pick_best_sectors combine best_sectors best_of is_better is_eligible every_timed split_at
    total_ms total_distance all_from whole_numbers
pick_three = refl

pick_best_sectors-Wins_example :
    Wins whole_numbers-IsOrdered 2 three_laps 0 best_core.sectors × (length best_core.sectors ≡ 2)
pick_best_sectors-Wins_example =
    pick_best_sectors-Wins whole_numbers-IsOrdered three_laps 2 best_core pick_three

pick_best_sectors-at_most_example : (75 ≤? sum_ms whole_numbers-IsOrdered 0 (45 ∷ 35 ∷ [])) ≡ true
unfolding is_eligible every_timed whole_numbers
pick_best_sectors-at_most_example =
    pick_best_sectors-at_most whole_numbers-IsOrdered three_laps 2 best_core
      (lap 3 80 (45 ∷ 35 ∷ [])) pick_three (inr (inl refl))

-- A gate that is crossed from the west, by a car that goes in steps of a tenth of a second.
abbrev line : Gate ℕ
line = record { lat1 = 0; lon1 = 10; lat2 = 10; lon2 = 10 }

abbrev sample_at : ℕ → ℕ → AnalysisSample ℕ
sample_at ms lon = record {
  time_ms = ms;
  lat = some 6;
  lon = some lon;
  speed_kmh = some 90;
  rpm = none;
  coolant_c = none;
  oil_c = none;
  g_lat = none;
  g_lon = none;
}

abbrev two_crossings : List (AnalysisSample ℕ)
two_crossings =
    sample_at 0 5
    ∷ sample_at 100 10
    ∷ sample_at 200 12
    ∷ sample_at 300 4
    ∷ sample_at 4100 10
    ∷ sample_at 4200 12
    ∷ []

abbrev track : Options ℕ
track = record { gate = project_gate line; sector_count = 3; sector_gates = none }

-- The last sample drives over the line in the latched direction.
push_all-Segments_example :
    let s = push_all track two_crossings fresh in
    let s' = push track (sample_at 8200 12) s in
    IsSound track s × Kept s.dir_sign s'.dir_sign × Counts track (sample_at 8200 12) s s'
push_all-Segments_example = push_all-Segments track two_crossings (sample_at 8200 12)

abbrev point_at : ℕ → ℕ → ℕ → LapPoint ℕ
point_at ms lon g = record {
  time_ms = ms;
  lat = 6;
  lon = lon;
  dist_m = ms / 10;
  speed_kmh = some 90;
  g_lon = some g;
}

-- The line is crossed once.
abbrev past_line : List (LapPoint ℕ)
past_line = point_at 200 12 0 ∷ point_at 800 14 0 ∷ []

abbrev at_line : LapGateCrossing ℕ
at_line = record { cross_ms = 100; dist_m = 10 }

crossed_line :
    cross_gates (point_at 0 5 0 ∷ point_at 100 10 0 ∷ past_line) (line ∷ []) ≡ some (at_line ∷ [])
unfolding cross_gates cross_each cross_once scan_gate hop in_order find_gate_crossing accept
    intersect project_gate meters_per_deg_lon whole_numbers last_of
crossed_line = refl

cross_gates_example :
    (cross_gates (point_at 0 5 0 ∷ point_at 100 10 0 ∷ past_line) (line ∷ []) ≡ some (at_line ∷ []))
    ↔ TimedBy (point_at 0 5 0) (point_at 100 10 0 ∷ past_line) (line ∷ []) (at_line ∷ [])
cross_gates_example =
    cross_gates_lem (point_at 0 5 0) (point_at 100 10 0) past_line line [] (at_line ∷ [])

-- Two zones, the first of which is opened again.
abbrev braking_twice : List (LapPoint ℕ)
braking_twice =
    point_at 100 10 5
    ∷ point_at 200 12 5
    ∷ point_at 1000 14 1
    ∷ point_at 1100 16 20
    ∷ point_at 1200 18 5
    ∷ []

two_zones : length (all_zones (find_zones (point_at 0 5 0) braking_twice no_zones)) ≡ 2
unfolding all_zones find_zones zones_step brake begin_zone reach deceleration_g whole_numbers
two_zones = refl

abbrev fix_at : ℕ → ℕ → Fix ℕ
fix_at ms lon = record { time_ms = ms; lat = 6; lon = lon; speed_kmh = none; g_lon = none }

div_mono : (x y n : ℕ) → x ≤ y → x / suc n ≤ y / suc n
div_mono x y n le =
    (le-div_iff_mul-le {k = suc n} {x = x / suc n} {y = y} (omega arith)).1
      (omega (arith, mod-add-div' x (suc n)))

leb_le : (m n : ℕ) → m ≤ n → leb m n ≡ true
leb_le m n le = ground arith

whole_numbers-IsScaled : IsScaled ℕ
unfolding whole_numbers
whole_numbers-IsScaled = record {
  lt-le = λ x y z. ground arith;
  times_mono =
      λ d i finite positive few. leb_le (d * i) (d * suc i) (mul-le-mul_left d (omega arith));
  over_mono = λ x y n few le. leb_le (x / suc n) (y / suc n) (div_mono x y n (ground arith));
}

abbrev trace_at : ℕ → ℕ → TracePoint ℕ
trace_at dist_m elapsed_ms = record {
  dist_m = dist_m;
  elapsed_ms = elapsed_ms;
  lat = 0;
  lon = dist_m;
  speed_kmh = none;
  rpm = none;
  coolant_c = none;
  oil_c = none;
  g_lat = none;
  g_lon = none;
}

compare_laps_example :
    compare_laps (trace_at 0 0 ∷ trace_at 50 400 ∷ []) (trace_at 0 0 ∷ trace_at 40 500 ∷ []) 5 ≡ (
      round_to 10 40,
      compared_from 40 5
          (trace_at 0 0, trace_at 50 400 ∷ [])
          (trace_at 0 0, trace_at 40 500 ∷ [])
          0
          5,
    )
unfolding whole_numbers
compare_laps_example =
    compare_laps-compared_from whole_numbers-IsScaled (trace_at 0 0) (trace_at 50 400) []
      (trace_at 0 0) (trace_at 40 500) [] 5 refl refl
