-- ===== src/Analysis/Segmenter.antt =====
-- lap-segmenter.ts: the laps of a session. The laps are in the order in which they were closed.
pub mod Laps
pub mod Latch
pub mod Axis
use kab23_motorsport_telemet.Prelude.{
  ℕ, zero, suc, ◌≡◌, Bool, true, false, List, [], ◌∷◌, ◌++◌, Option, none, some, if◌then◌else◌,
}
use kab23_motorsport_telemet.Analysis.Numbers.{Numbers, ◌⊖◌, ◌≤?◌, whole}
use kab23_motorsport_telemet.Analysis.Points.{
  AnalysisSample, LapPoint, Fix, Gate, LapPath, DerivedLap, at_distance, points_of, last_point,
  located, lerp_channel,
}
use kab23_motorsport_telemet.Analysis.Crossing.{
  CrossingFix, Direction, GateCrossing, ProjectedGate, find_gate_crossing, project_gate,
}
use kab23_motorsport_telemet.Analysis.Distance.{step_from}
use kab23_motorsport_telemet.Analysis.Sectors.{sector_times, sector_times_from_gates}
use kab23_motorsport_telemet.Analysis.Braking.{detect_braking_points}

-- What the constructor is given; the gate is projected.
pub record Options (F : Type 0) : Type 0 where
  pub gate : ProjectedGate F
  pub sector_count : ℕ
  pub sector_gates : Option (List (Gate F))

pub record LapSegmenter (F : Type 0) : Type 0 where
  pub laps : List (DerivedLap F)
  pub prev : Option (Fix F)
  pub dir_sign : Option Direction
  pub lap_number : ℕ
  pub points : Option (LapPath F)

abbrev pub fresh : {F : Type 0} → LapSegmenter F
fresh = record { laps = []; prev = none; dir_sign = none; lap_number = 0; points = none }

abbrev pub or_else : Option Direction → Direction → Option Direction
or_else none d = some d
or_else (some e) d = some e

module _ {F : Type 0} ⦃num : Numbers F⦄ where
  abbrev pub min_lap_ms : F
  min_lap_ms = whole 3000

  abbrev pub to_fix : Fix F → CrossingFix F
  to_fix f = record { time_ms = f.time_ms; lat = f.lat; lon = f.lon; speed_kmh = f.speed_kmh }

  -- One end of the range of speeds, by `Math.max` or `Math.min`.
  unfoldable pub fold_speed : (F → F → F) → List (LapPoint F) → Option F → Option F
  fold_speed pick [] so_far = so_far
  fold_speed pick (p ∷ ps) so_far = fold_speed pick ps (elim p.speed_kmh [
    | none ↦ so_far
    | some v ↦ elim so_far [ none ↦ some v | some w ↦ some (pick w v) ]
  ])

  unfoldable pub extend : Fix F → LapPath F → LapPath F
  extend f path = record path { after = path.after ++ step_from (last_point path) f ∷ [] }

  -- `append`: nothing before the first crossing.
  unfoldable pub append : Fix F → Option (LapPath F) → Option (LapPath F)
  unfolding extend
  append f none = none
  append f (some path) = some (extend f path)

  unfoldable pub accept_crossing : F → Option (LapPath F) → Bool
  accept_crossing cross_ms none = true
  accept_crossing cross_ms (some path) = min_lap_ms ≤? (cross_ms ⊖ path.opening.time_ms)

  module _ (options : Options F) where
    abbrev pub sector_times_of : List (LapPoint F) → List F
    sector_times_of points = elim options.sector_gates [
      | some gates ↦ sector_times_from_gates points gates
      | none ↦ sector_times points options.sector_count
    ]

    -- The lap of a path that is closed.
    unfoldable pub derived_lap : ℕ → LapPath F → DerivedLap F
    unfolding fold_speed
    derived_lap number path =
        let last = last_point path in
        let points = points_of path in
        record {
          lap_number = number;
          started_at = num.nearest path.opening.time_ms;
          ended_at = num.nearest last.time_ms;
          lap_ms = num.nearest (last.time_ms ⊖ path.opening.time_ms);
          distance_m = num.nearest last.dist_m;
          max_speed_kmh = fold_speed num.max points none;
          min_speed_kmh = fold_speed num.min points none;
          sector_ms = sector_times_of points;
          braking_points = detect_braking_points points;
          points = path;
        }

    unfoldable pub close_lap : Fix F → LapSegmenter F → Option (LapPath F) → LapSegmenter F
    unfolding derived_lap extend
    close_lap anchor s none = s
    close_lap anchor s (some path) = record s {
      laps = s.laps ++ derived_lap s.lap_number (extend anchor path) ∷ [];
      points = none;
    }

    unfoldable pub anchor_at : Fix F → Fix F → GateCrossing F → Fix F
    anchor_at prev f c = record {
      time_ms = c.cross_ms;
      lat = c.lat;
      lon = c.lon;
      speed_kmh = lerp_channel prev.speed_kmh f.speed_kmh c.t;
      g_lon = lerp_channel prev.g_lon f.g_lon c.t;
    }

    -- A crossing that counts: one lap closes at the anchor and the next opens there.
    unfoldable pub open_lap : Direction → Fix F → LapSegmenter F → LapSegmenter F
    unfolding close_lap
    open_lap d anchor s =
        let closed = close_lap anchor s s.points in
        record closed {
          dir_sign = or_else s.dir_sign d;
          lap_number = suc s.lap_number;
          points = some (record { opening = at_distance (whole 0) anchor; after = [] });
        }

    unfoldable pub on_crossing :
        Fix F → Fix F → Option (GateCrossing F) → LapSegmenter F → LapSegmenter F
    unfolding accept_crossing open_lap anchor_at
    on_crossing prev f none s = s
    on_crossing prev f (some c) s =
        if accept_crossing c.cross_ms s.points
        then open_lap c.dir_sign (anchor_at prev f c) s
        else s

    unfoldable pub cross : Fix F → Option (Fix F) → LapSegmenter F → LapSegmenter F
    unfolding on_crossing
    cross f none s = s
    cross f (some prev) s =
        on_crossing prev f (find_gate_crossing (to_fix prev) (to_fix f) options.gate s.dir_sign) s

    unfoldable pub advance : Fix F → LapSegmenter F → LapSegmenter F
    unfolding append cross
    advance f s =
        let crossed = cross f s.prev s in
        record crossed { prev = some f; points = append f crossed.points }

    -- A sample without a position is dropped.
    unfoldable pub push : AnalysisSample F → LapSegmenter F → LapSegmenter F
    unfolding advance
    push sample s = elim (located sample) [ none ↦ s | some f ↦ advance f s ]

    unfoldable pub push_all : List (AnalysisSample F) → LapSegmenter F → LapSegmenter F
    push_all [] s = s
    push_all (x ∷ xs) s = push_all xs (push x s)

module _ {F : Type 0} ⦃num : Numbers F⦄ where
  unfoldable pub segment_laps :
      List (AnalysisSample F) → Gate F → ℕ → Option (List (Gate F)) → List (DerivedLap F)
  unfolding push_all
  segment_laps samples gate count gates =
      (push_all (record { gate = project_gate gate; sector_count = count; sector_gates = gates })
        samples fresh).laps
