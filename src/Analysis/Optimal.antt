-- ===== src/Analysis/Optimal.antt =====
-- optimal-lap.ts: the optimal lap with its braking points, and its line stitched from traces.
pub mod Stitching
use kab23_motorsport_telemet.Prelude.{
  ℕ, zero, suc, ◌+◌, Bool, true, false, not, ◌&&◌, ◌||◌, List, [], ◌∷◌, ◌++◌, map, Option, none,
  some, select, length, leb, ◌=ⁿ◌, if◌then◌else◌,
}
use kab23_motorsport_telemet.Analysis.Numbers.{Numbers, ◌⊕◌, ◌⊖◌, ◌⊗◌, ◌⊘◌, ◌<?◌, ◌≤?◌, whole}
use kab23_motorsport_telemet.Analysis.Points.{BrakingPoint, round_to, distance_m}
use kab23_motorsport_telemet.Analysis.Best.{
  SectoredLap, BestSector, OptimalLapCore, pick_best_sectors,
}
use kab23_motorsport_telemet.Analysis.Placing.{or_one}
use kab23_motorsport_telemet.Analysis.Trace.{
  TracePoint, final, decimate_by_distance, distance_at_elapsed, interpolate_trace_point_at,
}

pub record OptimalLapInput (F : Type 0) : Type 0 where
  pub sectored : SectoredLap F
  pub braking_points : List (BrakingPoint F)

pub record Seam (F : Type 0) : Type 0 where
  pub dist_m : F
  pub gap_m : F

pub record OptimalLap (F : Type 0) : Type 0 where
  pub lap_ms : F
  pub distance_m : F
  pub sectors : List (BestSector F)
  pub braking_points : List (BrakingPoint F)
  pub matches_lap_number : Option ℕ
  pub seams : List (Seam F)

pub record ContributingLap (F : Type 0) : Type 0 where
  pub sector_ms : List F
  pub points : List (TracePoint F)

-- The variables of the loop over the sectors.
pub record Stitch (F : Type 0) : Type 0 where
  pub stitched : List (TracePoint F)
  pub seams : List (Seam F)
  pub dist_m : F
  pub elapsed_ms : F

module _ {F : Type 0} where
  -- `new Map(laps.map((lap) => [lap.lapNumber, lap])).get(number)`: the last of this number.
  unfoldable pub by_lap_number : ℕ → List (OptimalLapInput F) → Option (OptimalLapInput F)
  by_lap_number number [] = none
  by_lap_number number (lap ∷ laps) =
      let later = by_lap_number number laps in
      elim later [
        | none ↦ if lap.sectored.lap_number =ⁿ number then some lap else none
        | some l ↦ some l
      ]

  unfoldable pub every_usable : (ℕ → Option (ContributingLap F)) → List (BestSector F) → Bool
  every_usable contributing [] = true
  every_usable contributing (s ∷ ss) =
      elim (contributing s.lap_number) [ none ↦ false | some c ↦ leb 2 (length c.points) ]
      && every_usable contributing ss

  abbrev pub last_so_far : List (TracePoint F) → Option (TracePoint F)
  last_so_far [] = none
  last_so_far (p ∷ ps) = some (final p ps)

module _ {F : Type 0} ⦃num : Numbers F⦄ where
  abbrev pub in_range : Bool → F → F → BrakingPoint F → Bool
  in_range is_last from_m to_m bp =
      from_m ≤? bp.dist_m && (if is_last then bp.dist_m ≤? to_m else bp.dist_m <? to_m)

  abbrev pub rebased : F → F → BrakingPoint F → BrakingPoint F
  rebased cumulative_m from_m bp = record {
    dist_m = round_to (whole 10) (cumulative_m ⊕ (bp.dist_m ⊖ from_m));
    lat = bp.lat;
    lon = bp.lon;
    entry_speed_kmh = bp.entry_speed_kmh;
    peak_decel_g = bp.peak_decel_g;
  }

  -- The loop; the lap of a sector is one of the laps.
  unfoldable pub rebased_from :
      List (OptimalLapInput F) → ℕ → F → List (BestSector F) → List (BrakingPoint F)
  rebased_from laps sector_count cumulative_m [] = []
  rebased_from laps sector_count cumulative_m (s ∷ ss) = elim (by_lap_number s.lap_number laps) [
    | none ↦ rebased_from laps sector_count cumulative_m ss
    | some lap ↦
        let step = lap.sectored.distance_m ⊘ whole sector_count in
        let from_m = step ⊗ whole s.sector in
        let to_m = step ⊗ whole (suc s.sector) in
        let is_last = suc s.sector =ⁿ sector_count in
        map (rebased cumulative_m from_m) (select (in_range is_last from_m to_m) lap.braking_points)
        ++ rebased_from laps sector_count (cumulative_m ⊕ step) ss
  ]

  abbrev pub planned : List (OptimalLapInput F) → Option (OptimalLapCore F) → Option (OptimalLap F)
  planned laps none = none
  planned laps (some core) = some (record {
    lap_ms = core.lap_ms;
    distance_m = core.distance_m;
    sectors = core.sectors;
    braking_points = rebased_from laps (length core.sectors) (whole 0) core.sectors;
    matches_lap_number = core.matches_lap_number;
    seams = [];
  })

  unfoldable pub build_optimal_lap : List (OptimalLapInput F) → Option (OptimalLap F)
  unfolding rebased_from
  build_optimal_lap laps = planned laps (pick_best_sectors (map (λ l. l.sectored) laps) 3)

  -- `sectorMs.slice(0, k).reduce((sum, ms) => sum + ms, 0)`
  unfoldable pub sum_first : ℕ → F → List F → F
  sum_first zero sum times = sum
  sum_first (suc k) sum [] = sum
  sum_first (suc k) sum (ms ∷ times) = sum_first k (sum ⊕ ms) times

  boundary_m : TracePoint F → List (TracePoint F) → List F → ℕ → ℕ → F
  unfolding sum_first
  boundary_m p ps sector_ms sector_count k =
      if k =ⁿ 0
      then p.dist_m
      else if k =ⁿ sector_count
      then (final p ps).dist_m
      else distance_at_elapsed p ps (sum_first k (whole 0) sector_ms)

  unfoldable pub sector_bounds_m : TracePoint F → List (TracePoint F) → List F → ℕ → ℕ → F × F
  unfolding boundary_m
  sector_bounds_m p ps sector_ms i sector_count =
      let lap_distance_m = (final p ps).dist_m in
      if not (length sector_ms =ⁿ sector_count)
      then (
        (lap_distance_m ⊗ whole i) ⊘ whole sector_count,
        (lap_distance_m ⊗ whole (suc i)) ⊘ whole sector_count,
      )
      else (
        boundary_m p ps sector_ms sector_count i,
        boundary_m p ps sector_ms sector_count (suc i),
      )

  unfoldable pub record_seam :
      List (Seam F) → List (TracePoint F) → TracePoint F → F → List (Seam F)
  record_seam seams stitched_so_far start_point at_dist_m = elim (last_so_far stitched_so_far) [
    | none ↦ seams
    | some previous_end ↦
        let gap_m = distance_m previous_end.lat previous_end.lon start_point.lat start_point.lon in
        seams
        ++ record { dist_m = round_to (whole 10) at_dist_m; gap_m = round_to (whole 100) gap_m }
          ∷ []
  ]

  abbrev pub shifted : F → F → TracePoint F → Stitch F → TracePoint F → TracePoint F
  shifted from_m scale start_point so_far point = record {
    dist_m = round_to (whole 10) (so_far.dist_m ⊕ (point.dist_m ⊖ from_m));
    elapsed_ms =
        num.nearest (so_far.elapsed_ms ⊕ (point.elapsed_ms ⊖ start_point.elapsed_ms) ⊗ scale);
    lat = point.lat;
    lon = point.lon;
    speed_kmh = point.speed_kmh;
    rpm = point.rpm;
    coolant_c = point.coolant_c;
    oil_c = point.oil_c;
    g_lat = point.g_lat;
    g_lon = point.g_lon;
  }

  -- The body of the loop, with the bounds of the sector.
  unfoldable pub slice_sector :
      BestSector F → TracePoint F → List (TracePoint F) → F × F → Stitch F → Stitch F
  unfolding record_seam
  slice_sector sector p ps (from_m, to_m) so_far =
      let start_point = interpolate_trace_point_at p ps from_m in
      let end_point = interpolate_trace_point_at p ps to_m in
      let raw_span_ms = or_one (end_point.elapsed_ms ⊖ start_point.elapsed_ms) in
      let scale = sector.sector_ms ⊘ raw_span_ms in
      let interior =
        select (λ (q : TracePoint F). from_m <? q.dist_m && q.dist_m <? to_m) (p ∷ ps) in
      record {
        stitched =
            so_far.stitched
            ++ map (shifted from_m scale start_point so_far)
                (start_point ∷ interior ++ end_point ∷ []);
        seams = record_seam so_far.seams so_far.stitched start_point so_far.dist_m;
        dist_m = so_far.dist_m ⊕ (to_m ⊖ from_m);
        elapsed_ms = so_far.elapsed_ms ⊕ sector.sector_ms;
      }

  slice_lap : BestSector F → ℕ → ℕ → List F → List (TracePoint F) → Stitch F → Stitch F
  unfolding slice_sector sector_bounds_m
  slice_lap sector i sector_count sector_ms [] so_far = so_far
  slice_lap sector i sector_count sector_ms (p ∷ ps) so_far =
      slice_sector sector p ps (sector_bounds_m p ps sector_ms i sector_count) so_far

  -- The sectors from index `i` on; each has a lap with points.
  unfoldable pub stitch_from :
      (ℕ → Option (ContributingLap F)) → ℕ → ℕ → List (BestSector F) → Stitch F → Stitch F
  unfolding slice_lap
  stitch_from contributing sector_count i [] so_far = so_far
  stitch_from contributing sector_count i (s ∷ ss) so_far =
      stitch_from contributing sector_count (suc i) ss (elim (contributing s.lap_number) [
        | none ↦ so_far
        | some c ↦ slice_lap s i sector_count c.sector_ms c.points so_far
      ])

  -- The last point, pinned to the lap's own time.
  unfoldable pub pin_last : F → F → List (TracePoint F) → List (TracePoint F)
  pin_last dist_m lap_ms [] = []
  pin_last dist_m lap_ms (p ∷ []) =
      record {
        dist_m = round_to (whole 10) dist_m;
        elapsed_ms = lap_ms;
        lat = p.lat;
        lon = p.lon;
        speed_kmh = p.speed_kmh;
        rpm = p.rpm;
        coolant_c = p.coolant_c;
        oil_c = p.oil_c;
        g_lat = p.g_lat;
        g_lon = p.g_lon;
      }
      ∷ []
  pin_last dist_m lap_ms (p ∷ q ∷ qs) = p ∷ pin_last dist_m lap_ms (q ∷ qs)

  abbrev pub with_seams : OptimalLap F → List (Seam F) → OptimalLap F
  with_seams plan seams = record {
    lap_ms = plan.lap_ms;
    distance_m = plan.distance_m;
    sectors = plan.sectors;
    braking_points = plan.braking_points;
    matches_lap_number = plan.matches_lap_number;
    seams = seams;
  }

  abbrev pub before_first : OptimalLap F → Stitch F
  before_first plan = record {
    stitched = [];
    seams = plan.seams;
    dist_m = whole 0;
    elapsed_ms = whole 0;
  }

  -- The plan, whose seams are filled in, and the points.
  unfoldable pub stitch_optimal_trace :
      OptimalLap F → (ℕ → Option (ContributingLap F)) → ℕ → OptimalLap F × List (TracePoint F)
  unfolding every_usable stitch_from pin_last
  stitch_optimal_trace plan contributing max_points =
      let done =
        stitch_from contributing (length plan.sectors) 0 plan.sectors (before_first plan) in
      if every_usable contributing plan.sectors
      then (
        with_seams plan done.seams,
        decimate_by_distance (pin_last done.dist_m plan.lap_ms done.stitched) max_points,
      )
      else (plan, [])
