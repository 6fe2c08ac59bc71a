-- ===== src/Analysis/Distance.antt =====
-- lap-distance.ts: the distance axis of a lap.
pub mod Axis
use kab23_motorsport_telemet.Prelude.{
  ◌≡◌, refl, List, [], ◌∷◌, ◌++◌, map, Option, none, some, if◌then◌else◌, ap, ◌∙◌,
}
use kab23_motorsport_telemet.Analysis.Numbers.{Numbers, ◌⊕◌, ◌⊖◌, ◌⊗◌, ◌⊘◌, ◌<?◌, whole}
use kab23_motorsport_telemet.Analysis.Points.{
  AnalysisSample, LapPoint, Fix, at_distance, fix_of, located, distance_m,
}

module _ {F : Type 0} ⦃num : Numbers F⦄ where
  travelled : Fix F → Fix F → Option F → Option F → F
  travelled a b (some v) (some w) =
      let dt_s = (b.time_ms ⊖ a.time_ms) ⊘ whole 1000 in
      if whole 0 <? dt_s
      then ((v ⊕ w) ⊘ whole 2 ⊗ whole 1000 ⊗ dt_s) ⊘ whole 3600
      else distance_m a.lat a.lon b.lat b.lon
  travelled a b _ _ = distance_m a.lat a.lon b.lat b.lon

  unfoldable pub step_m : Fix F → Fix F → F
  unfolding travelled
  step_m a b = travelled a b a.speed_kmh b.speed_kmh

  abbrev pub step_from : LapPoint F → Fix F → LapPoint F
  step_from last f = at_distance (last.dist_m ⊕ step_m (fix_of last) f) f

  -- The rest of the points, after a point that is there.
  unfoldable pub points_after : LapPoint F → List (Fix F) → List (LapPoint F)
  points_after last [] = []
  points_after last (f ∷ fs) = let p = step_from last f in p ∷ points_after p fs

  unfoldable pub all_located : List (AnalysisSample F) → List (Fix F)
  all_located [] = []
  all_located (s ∷ ss) = elim (located s) [ none ↦ all_located ss | some f ↦ f ∷ all_located ss ]

  unfoldable pub points_from : List (Fix F) → List (LapPoint F)
  unfolding points_after
  points_from [] = []
  points_from (f ∷ fs) = let p = at_distance (whole 0) f in p ∷ points_after p fs

  unfoldable pub to_lap_points : List (AnalysisSample F) → List (LapPoint F)
  unfolding points_from all_located
  to_lap_points samples = points_from (all_located samples)
