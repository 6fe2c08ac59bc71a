-- ===== src/Analysis/Service/Traces.antt =====
-- analysis.service.ts: the traces of laps and of the optimal lap, and their comparison. Of two
-- refusals the code answers the one that comes first in time, here the first in the list.
use kab23_motorsport_telemet.Prelude.{
  pure, throw, ◌>>=◌, ℕ, String, Bool, List, [], ◌∷◌, map, any, Option, none, some, ok, err, ◌=ⁿ◌,
  if◌then◌else◌,
}
use kab23_motorsport_telemet.Repository.Abstract.{not_found}
use kab23_motorsport_telemet.Teams.{User}
use kab23_motorsport_telemet.Cars.{CarsError, http}
use kab23_motorsport_telemet.Sessions.{Session, require_readable_session}
use kab23_motorsport_telemet.Analysis.Numbers.{Numbers}
use kab23_motorsport_telemet.Analysis.Best.{BestSector}
use kab23_motorsport_telemet.Analysis.Trace.{TracePoint, final, build_lap_trace}
use kab23_motorsport_telemet.Analysis.Delta.{DeltaPoint, compare_laps}
use kab23_motorsport_telemet.Analysis.Optimal.{
  OptimalLap, ContributingLap, build_optimal_lap, stitch_optimal_trace,
}
use kab23_motorsport_telemet.Analysis.Laps.{Lap}
use kab23_motorsport_telemet.Analysis.Service.{Action, on_runs}
use kab23_motorsport_telemet.Analysis.Office.{Office, optimal_input}

-- `number | 'optimal'`
pub data LapRef : Type 0 where
  numbered : ℕ → LapRef
  optimal : LapRef

pub record LapTrace (F : Type 0) : Type 0 where
  pub lap_number : LapRef
  pub lap_ms : F
  pub distance_m : F
  pub points : List (TracePoint F)

pub record LapCompare (F : Type 0) : Type 0 where
  pub lap_a : LapRef
  pub lap_b : LapRef
  pub distance_m : F
  pub points : List (DeltaPoint F)

abbrev pub max_safe_integer : ℕ
max_safe_integer = 9007199254740991

abbrev pub lap_not_found : CarsError
lap_not_found = http (not_found "Lap not found")

abbrev pub no_optimal_lap : CarsError
no_optimal_lap = http (not_found "Optimal lap not available")

module _ {F : Type 0} where
  -- `byLapNumber.get`: the last row of this number.
  unfoldable pub row_numbered : ℕ → List (Lap F) → Option (Lap F)
  row_numbered number [] = none
  row_numbered number (l ∷ ls) =
      let later = row_numbered number ls in
      elim later [
        | none ↦ if l.lap_number =ⁿ number then some l else none
        | some found ↦ some found
      ]

  abbrev pub wins : ℕ → BestSector F → Bool
  wins number s = s.lap_number =ⁿ number

module _ {F : Type 0} ⦃num : Numbers F⦄ (env : Office F) where
  unfoldable pub require_lap : Session → ℕ → Action env (Lap F)
  require_lap session number s = elim (env.laps.find_one_by_number session.id number s.laps) [
    | none ↦ (err lap_not_found, s)
    | some l ↦ (ok l, s)
  ]

  unfoldable pub trace_for : Lap F → ℕ → List (TracePoint F)
  trace_for l max_points =
      build_lap_trace (env.samples.find_lap_window l.session_id l.started_at l.ended_at) max_points
        (record { start_ms = l.started_at; end_ms = l.ended_at })

  -- `contributingByLap.get`: of the laps that win a sector.
  unfoldable pub contributing : List (BestSector F) → List (Lap F) → ℕ → Option (ContributingLap F)
  unfolding trace_for
  contributing sectors laps number =
      if any (wins number) sectors
      then elim (row_numbered number laps) [
        | none ↦ none
        | some l ↦ some (record { sector_ms = l.sector_ms; points = trace_for l max_safe_integer })
      ]
      else none

  unfoldable pub stitched_or_404 :
      OptimalLap F × List (TracePoint F)
      → Action env (OptimalLap F × TracePoint F × List (TracePoint F))
  stitched_or_404 (plan, []) = throw no_optimal_lap
  stitched_or_404 (plan, p ∷ ps) = pure (plan, p, ps)

  unfoldable pub trace_of_plan :
      List (Lap F)
      → ℕ
      → Option (OptimalLap F)
      → Action env (OptimalLap F × TracePoint F × List (TracePoint F))
  unfolding stitched_or_404 contributing
  trace_of_plan laps max_points none = throw no_optimal_lap
  trace_of_plan laps max_points (some plan) =
      stitched_or_404 (stitch_optimal_trace plan (contributing plan.sectors laps) max_points)

  -- The plan, with its seams, and the points: the first and the rest.
  unfoldable pub optimal_trace_for :
      Session → ℕ → Action env (OptimalLap F × TracePoint F × List (TracePoint F))
  unfolding trace_of_plan
  optimal_trace_for session max_points s =
      let laps = env.laps.find_by_session session.id s.laps in
      trace_of_plan laps max_points (build_optimal_lap (map optimal_input laps)) s

  unfoldable pub get_lap_trace : User → String → ℕ → ℕ → Action env (LapTrace F)
  unfolding require_lap trace_for
  get_lap_trace user session_id lap_number max_points = do
    session ← on_runs env (require_readable_session env.paddock user session_id)
    l ← require_lap session lap_number
    pure (record {
      lap_number = numbered l.lap_number;
      lap_ms = l.lap_ms;
      distance_m = l.distance_m;
      points = trace_for l max_points;
    })

  -- The plan's seams are answered too.
  unfoldable pub get_optimal_trace : User → String → ℕ → Action env (LapTrace F × OptimalLap F)
  unfolding optimal_trace_for
  get_optimal_trace user session_id max_points = do
    session ← on_runs env (require_readable_session env.paddock user session_id)
    found ← optimal_trace_for session max_points
    pure (
      record {
        lap_number = optimal;
        lap_ms = found.0.lap_ms;
        distance_m = (final found.1 found.2).dist_m;
        points = found.1 ∷ found.2;
      },
      found.0,
    )

  unfoldable pub trace_for_ref : Session → LapRef → Action env (List (TracePoint F))
  unfolding optimal_trace_for require_lap trace_for
  trace_for_ref session optimal = do
    found ← optimal_trace_for session max_safe_integer
    pure (found.1 ∷ found.2)
  trace_for_ref session (numbered n) = do
    l ← require_lap session n
    pure (trace_for l max_safe_integer)

  abbrev pub compared : LapRef → LapRef → F × List (DeltaPoint F) → LapCompare F
  compared lap_a lap_b (distance_m, points) = record {
    lap_a = lap_a;
    lap_b = lap_b;
    distance_m = distance_m;
    points = points;
  }

  unfoldable pub compare : User → String → LapRef → LapRef → ℕ → Action env (LapCompare F)
  unfolding trace_for_ref
  compare user session_id lap_a lap_b max_points = do
    session ← on_runs env (require_readable_session env.paddock user session_id)
    trace_a ← trace_for_ref session lap_a
    trace_b ← trace_for_ref session lap_b
    pure (compared lap_a lap_b (compare_laps trace_a trace_b max_points))
