-- ===== src/Analysis/SectorGates/Examples.antt =====
-- The theorem on derived sector gates, with whole numbers that have a sign.
use kab23_motorsport_telemet.Prelude.{
  ℕ, ◌+◌, ◌*◌, ◌/◌, ◌≡◌, refl, Bool, true, List, [], ◌∷◌, Option, none, some, ltb, leb, ◌=ⁿ◌,
  if◌then◌else◌,
}
use kab23_motorsport_telemet.Prelude.Int.{ℤ, pos, negsuc, pos_part, neg_part, sub_ℕ}
use kab23_motorsport_telemet.Analysis.Numbers.{Numbers}
use kab23_motorsport_telemet.Analysis.Points.{
  LapPoint, Gate, last_of, distance_m, meters_per_deg_lon,
}
use kab23_motorsport_telemet.Analysis.Crossing.{project_gate, find_gate_crossing, accept, intersect}
use kab23_motorsport_telemet.Analysis.Sectors.{
  cross_gates, cross_each, cross_once, scan_gate, hop, in_order,
}
use kab23_motorsport_telemet.Analysis.Placing.{
  perpendicular_gate_at, find_hop, point_at_distance, interior_gates_from, build_interior_gates,
  to_local, to_geo,
}
use kab23_motorsport_telemet.Analysis.SectorGates.{
  DeriveSectorGatesInput, SectorGatesResolution, reference_lap, derive_sector_gates, derive_along,
  from_centreline, derive_from_lap, is_valid_candidate, all_near,
}
use kab23_motorsport_telemet.Analysis.SectorGates.Valid.{Derived, derive_sector_gates-Divides}

abbrev pub plusℤ : ℤ → ℤ → ℤ
plusℤ a b = sub_ℕ (pos_part a + pos_part b) (neg_part a + neg_part b)

abbrev pub negateℤ : ℤ → ℤ
negateℤ a = sub_ℕ (neg_part a) (pos_part a)

abbrev pub timesℤ : ℤ → ℤ → ℤ
timesℤ a b =
    sub_ℕ (pos_part a * pos_part b + neg_part a * neg_part b)
      (pos_part a * neg_part b + neg_part a * pos_part b)

-- Towards zero.
abbrev pub overℤ : ℤ → ℤ → ℤ
overℤ a b =
    sub_ℕ (pos_part a / pos_part b + neg_part a / neg_part b)
      (pos_part a / neg_part b + neg_part a / pos_part b)

abbrev pub lessℤ : ℤ → ℤ → Bool
lessℤ a b = ltb (pos_part a + neg_part b) (pos_part b + neg_part a)

abbrev pub at_mostℤ : ℤ → ℤ → Bool
at_mostℤ a b = leb (pos_part a + neg_part b) (pos_part b + neg_part a)

abbrev pub absℤ : ℤ → ℤ
absℤ a = pos (pos_part a + neg_part a)

instance unfoldable pub signed_numbers : Numbers ℤ
signed_numbers = record {
  literal = λ m k. pos m;
  pi = pos 3;
  negate = negateℤ;
  plus = plusℤ;
  minus = λ a b. plusℤ a (negateℤ b);
  times = timesℤ;
  over = overℤ;
  less = lessℤ;
  at_most = at_mostℤ;
  same = λ a b. (pos_part a + neg_part b) =ⁿ (pos_part b + neg_part a);
  is_finite = λ a. true;
  abs = absℤ;
  cos = λ a. pos 1;
  hypot = λ a b. plusℤ (absℤ a) (absℤ b);
  max = λ a b. if lessℤ a b then b else a;
  min = λ a b. if lessℤ a b then a else b;
  nearest = λ a. a;
  floor = λ a. a;
  infinity = pos 1000000000;
  rem = λ a b. plusℤ a (negateℤ (timesℤ b (overℤ a b)));
}

-- A lap to the east along the equator. The car stands at the points after the two gates.
abbrev pub point : ℕ → Option ℤ → LapPoint ℤ
point i speed = record {
  time_ms = pos (i * 400);
  lat = pos 0;
  lon = pos i;
  dist_m = pos (i * 1000);
  speed_kmh = speed;
  g_lon = none;
}

abbrev pub eastward : List (LapPoint ℤ)
eastward =
    point 1 none
    ∷ point 2 none
    ∷ point 3 none
    ∷ point 4 none
    ∷ point 5 (some (pos 0))
    ∷ point 6 none
    ∷ point 7 none
    ∷ point 8 none
    ∷ point 9 (some (pos 0))
    ∷ point 10 none
    ∷ point 11 none
    ∷ point 12 none
    ∷ []

abbrev pub meridian : ℕ → Gate ℤ
meridian i = record { lat1 = pos 1; lon1 = pos i; lat2 = negsuc 0; lon2 = pos i }

abbrev pub lap_input : DeriveSectorGatesInput ℤ
lap_input = record {
  sf_gate = meridian 0;
  ring = none;
  centreline_length_m = none;
  reference_lap = some (point 0 none ∷ eastward);
  sector_count = none;
}

abbrev pub two_gates : SectorGatesResolution ℤ
two_gates = record {
  gates = meridian 4 ∷ meridian 8 ∷ [];
  source = reference_lap;
  newly_derived = some (record { gates = meridian 4 ∷ meridian 8 ∷ []; source = reference_lap });
}

pub derived_two : derive_sector_gates lap_input ≡ some two_gates
unfolding derive_sector_gates derive_along from_centreline derive_from_lap is_valid_candidate
    all_near cross_gates cross_each cross_once scan_gate hop in_order find_gate_crossing accept
    intersect project_gate meters_per_deg_lon signed_numbers last_of distance_m
    perpendicular_gate_at find_hop point_at_distance interior_gates_from build_interior_gates
    to_local to_geo
derived_two = refl

derive_sector_gates-Divides_example : Derived (point 0 none) eastward two_gates 3
derive_sector_gates-Divides_example =
    derive_sector_gates-Divides lap_input (point 0 none) eastward two_gates refl derived_two
