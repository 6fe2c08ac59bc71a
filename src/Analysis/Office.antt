-- ===== src/Analysis/Office.antt =====
-- analysis.service.ts: the parts that a derivation works with, and what it makes of laps without
-- asking for anything.
use kab23_motorsport_telemet.Prelude.{
  ℕ, suc, ◌≡◌, String, Bool, false, ◌&&◌, List, [], ◌∷◌, map, Option, none, some, length, leb, ◌=ⁿ◌,
  if◌then◌else◌,
}
use kab23_motorsport_telemet.Prelude.Assoc.{insert, erase}
use kab23_motorsport_telemet.Repository.{Repository}
use kab23_motorsport_telemet.Sessions.{Session, SectorScheme, Paddock, Runs}
use kab23_motorsport_telemet.Tracks.{Track, ReadyCircuit, Spelling, track_key, same_slug}
use kab23_motorsport_telemet.Analysis.Numbers.{Numbers, ◌<?◌}
use kab23_motorsport_telemet.Analysis.Points.{AnalysisSample, Gate, DerivedLap, points_of}
use kab23_motorsport_telemet.Analysis.Sectors.{sector_times_from_gates}
use kab23_motorsport_telemet.Analysis.Optimal.{OptimalLap, OptimalLapInput, build_optimal_lap}
use kab23_motorsport_telemet.Analysis.Laps.{Lap, LapsTable}

abbrev pub max_analysis_samples : ℕ
max_analysis_samples = 300000

abbrev pub no_crossings_memo_size : ℕ
no_crossings_memo_size = 256

pub record NoCrossingsMemo : Type 0 where
  pub sample_count : ℕ
  pub track_updated_ms : ℕ

pub data AnalysisSkipReason : Type 0 where
  no_track_gate session_live no_samples too_many_samples no_crossings : AnalysisSkipReason

pub record LapsResponse (F : Type 0) : Type 0 where
  pub laps : List (Lap F)
  pub analyzed_at : Option ℕ
  pub optimal : Option (OptimalLap F)
  pub sector_scheme : Option SectorScheme
  pub reason : Option AnalysisSkipReason

-- The stored samples, which this service only reads: `count_range` counts what `find_range` reads.
pub record Samples (F : Type 0) : Type 0 where
  pub count_range : String → ℕ → ℕ → ℕ
  pub find_range : String → ℕ → ℕ → List (AnalysisSample F)
  pub find_lap_window : String → F → F → List (AnalysisSample F)
  pub count_range_lem :
      (session_id : String) (from to : ℕ)
      → length (find_range session_id from to) ≡ count_range session_id from to

pub record Office (F : Type 0) : Type 1 where
  pub paddock : Paddock
  pub tracks : Repository (Track F) track_key same_slug
  pub laps : LapsTable F
  pub samples : Samples F
  pub spelling : Spelling
  -- `readyCircuit` of the track's map
  pub ready_circuit : Track F → Option (ReadyCircuit F)

pub record Desk {F : Type 0} (env : Office F) : Type 0 where
  pub runs : Runs env.paddock
  pub tracks : env.tracks.Table
  pub laps : env.laps.Table
  -- The map `noCrossings`.
  pub memo : List (String × NoCrossingsMemo)

abbrev pub drop_first : List (String × NoCrossingsMemo) → List (String × NoCrossingsMemo)
drop_first [] = []
drop_first ((id, m) ∷ rest) = erase id ((id, m) ∷ rest)

unfoldable pub remember_no_crossings :
    String → NoCrossingsMemo → List (String × NoCrossingsMemo) → List (String × NoCrossingsMemo)
remember_no_crossings session_id m memo =
    insert session_id m (if leb no_crossings_memo_size (length memo) then drop_first memo else memo)

abbrev pub same_memo : ℕ → ℕ → Option NoCrossingsMemo → Bool
same_memo count updated_ms none = false
same_memo count updated_ms (some m) = m.sample_count =ⁿ count && m.track_updated_ms =ⁿ updated_ms

module _ {F : Type 0} where
  abbrev pub gate_of : Track F → Gate F
  gate_of t = record { lat1 = t.sf_lat1; lon1 = t.sf_lon1; lat2 = t.sf_lat2; lon2 = t.sf_lon2 }

  abbrev pub optimal_input : Lap F → OptimalLapInput F
  optimal_input l = record {
    sectored = record {
      lap_number = l.lap_number;
      lap_ms = l.lap_ms;
      distance_m = l.distance_m;
      sector_ms = l.sector_ms;
    };
    braking_points = l.braking_points;
  }

  abbrev pub row : String → DerivedLap F → Bool → Lap F
  row session_id l is_best = record {
    session_id = session_id;
    lap_number = l.lap_number;
    started_at = l.started_at;
    ended_at = l.ended_at;
    lap_ms = l.lap_ms;
    distance_m = l.distance_m;
    max_speed_kmh = l.max_speed_kmh;
    min_speed_kmh = l.min_speed_kmh;
    sector_ms = l.sector_ms;
    braking_points = l.braking_points;
    is_best = is_best;
  }

  -- The rows from index `i` on: the best lap is the object at this index.
  unfoldable pub rows_from : String → ℕ → ℕ → List (DerivedLap F) → List (Lap F)
  rows_from session_id best i [] = []
  rows_from session_id best i (l ∷ ls) =
      row session_id l (i =ⁿ best) ∷ rows_from session_id best (suc i) ls

module _ {F : Type 0} ⦃num : Numbers F⦄ where
  -- `reduce`, with the index of the lap, from index `i` on.
  unfoldable pub fastest_from : ℕ × DerivedLap F → ℕ → List (DerivedLap F) → ℕ × DerivedLap F
  fastest_from best i [] = best
  fastest_from best i (l ∷ ls) =
      fastest_from (if l.lap_ms <? best.1.lap_ms then (i, l) else best) (suc i) ls

  unfoldable pub fastest_lap : DerivedLap F → List (DerivedLap F) → ℕ × DerivedLap F
  unfolding fastest_from
  fastest_lap l ls = fastest_from (0, l) 1 ls

  unfoldable pub to_rows : String → DerivedLap F → List (DerivedLap F) → List (Lap F)
  unfolding fastest_lap rows_from
  to_rows session_id l ls = rows_from session_id (fastest_lap l ls).0 0 (l ∷ ls)

  abbrev pub regated : List (Gate F) → DerivedLap F → DerivedLap F
  regated set l = record l { sector_ms = sector_times_from_gates (points_of l.points) set }

  abbrev pub has_sectors : DerivedLap F → Bool
  has_sectors l = leb 1 (length l.sector_ms)

  unfoldable pub respond : Session → List (Lap F) → Option AnalysisSkipReason → LapsResponse F
  respond session laps reason = record {
    laps = laps;
    analyzed_at = session.analyzed_at;
    optimal = build_optimal_lap (map optimal_input laps);
    sector_scheme = session.sector_scheme;
    reason = reason;
  }
