-- ===== src/Analysis/Segmenter/Axis.antt =====
-- The axis of a lap that grows fix by fix, and the one that `toLapPoints` builds.
use mathlib.Core.List.{append_assoc, append-nil}
use kab23_motorsport_telemet.Prelude.{◌≡◌, sym, ap, ◌∙◌, List, [], ◌∷◌, ◌++◌}
use kab23_motorsport_telemet.Analysis.Numbers.{Numbers, whole}
use kab23_motorsport_telemet.Analysis.Points.{
  LapPoint, Fix, LapPath, at_distance, last_of, last_point, points_of,
}
use kab23_motorsport_telemet.Analysis.Distance.{step_from, points_after, points_from}
use kab23_motorsport_telemet.Analysis.Segmenter.{extend}
use kab23_motorsport_telemet.Analysis.Segmenter.Laps.{last_of-snoc}

module _ {F : Type 0} ⦃num : Numbers F⦄ where
  -- A lap's path over these fixes.
  unfoldable pub extend_all : List (Fix F) → LapPath F → LapPath F
  extend_all [] path = path
  extend_all (f ∷ fs) path = extend_all fs (extend f path)

  extend_all-after :
      (fs : List (Fix F)) (path : LapPath F)
      → points_of (extend_all fs path) ≡ points_of path ++ points_after (last_point path) fs
  unfolding extend_all points_after extend
  extend_all-after [] path = ap (◌∷◌ path.opening) (sym (append-nil path.after))
  extend_all-after (f ∷ fs) path =
      let next = step_from (last_point path) f in
      extend_all-after fs (extend f path)
      ∙ ap (λ (p : LapPoint F). points_of (extend f path) ++ points_after p fs)
          (last_of-snoc path.opening path.after next)
      ∙ ap (◌∷◌ path.opening) (append_assoc path.after (next ∷ []) (points_after next fs))

  -- The points of a lap that opens in one fix and then gets others one by one are those that
  -- toLapPoints builds of the same fixes at once.
  pub extend_all-points_from :
      (anchor : Fix F) (fs : List (Fix F))
      → points_of (extend_all fs (record { opening = at_distance (whole 0) anchor; after = [] }))
        ≡ points_from (anchor ∷ fs)
  unfolding points_from last_of
  extend_all-points_from anchor fs =
      extend_all-after fs (record { opening = at_distance (whole 0) anchor; after = [] })
