-- ===== src/Analysis/Distance/Axis.antt =====
-- The distance axis: what `toLapPoints` keeps of the samples, and the axis that grows step by step.
use kab23_motorsport_telemet.Prelude.{◌≡◌, refl, ap, List, [], ◌∷◌, map}
use kab23_motorsport_telemet.Analysis.Numbers.{Numbers, whole}
use kab23_motorsport_telemet.Analysis.Points.{LapPoint, Fix, at_distance, fix_of}
use kab23_motorsport_telemet.Analysis.Distance.{step_from, points_after, points_from}

module _ {F : Type 0} ⦃num : Numbers F⦄ where
  map-points_after : (p : LapPoint F) (fs : List (Fix F)) → map fix_of (points_after p fs) ≡ fs
  unfolding points_after
  map-points_after p [] = refl
  map-points_after p (f ∷ fs) = ap (◌∷◌ f) (map-points_after (step_from p f) fs)

  -- The points are the located samples, in their order.
  map-points_from : (fs : List (Fix F)) → map fix_of (points_from fs) ≡ fs
  unfolding points_from
  map-points_from [] = refl
  map-points_from (f ∷ fs) = ap (◌∷◌ f) (map-points_after (at_distance (whole 0) f) fs)
