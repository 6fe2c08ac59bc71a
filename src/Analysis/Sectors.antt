-- ===== src/Analysis/Sectors.antt =====
-- sectors.ts: sector times by gates, and by fractions of the distance.
pub mod Gates
use kab23_motorsport_telemet.Prelude.{
  ℕ, zero, suc, ◌+◌, ◌≡◌, Bool, true, false, not, ◌&&◌, ◌||◌, List, [], ◌∷◌, ◌++◌, map, Option,
  none, some, length, ltb, ◌=ⁿ◌, if◌then◌else◌,
}
use kab23_motorsport_telemet.Analysis.Numbers.{Numbers, ◌⊕◌, ◌⊖◌, ◌⊗◌, ◌⊘◌, ◌<?◌, ◌≤?◌, whole}
use kab23_motorsport_telemet.Analysis.Points.{LapPoint, Gate, last_of}
use kab23_motorsport_telemet.Analysis.Crossing.{
  CrossingFix, GateCrossing, ProjectedGate, find_gate_crossing, project_gate,
}

pub record LapGateCrossing (F : Type 0) : Type 0 where
  pub cross_ms : F
  pub dist_m : F

module _ {F : Type 0} ⦃num : Numbers F⦄ where
  abbrev pub to_crossing_fix : LapPoint F → CrossingFix F
  to_crossing_fix p = record {
    time_ms = p.time_ms;
    lat = p.lat;
    lon = p.lon;
    speed_kmh = p.speed_kmh;
  }

  abbrev pub on_axis : LapPoint F → LapPoint F → GateCrossing F → LapGateCrossing F
  on_axis a b c = record { cross_ms = c.cross_ms; dist_m = a.dist_m ⊕ c.t ⊗ (b.dist_m ⊖ a.dist_m) }

  -- The crossing of one hop of a lap.
  unfoldable pub hop : ProjectedGate F → LapPoint F → LapPoint F → Option (LapGateCrossing F)
  hop gate a b = elim (find_gate_crossing (to_crossing_fix a) (to_crossing_fix b) gate none) [
    | none ↦ none
    | some c ↦ some (on_axis a b c)
  ]

  -- The inner loop: how many hops cross the gate, and the last crossing that was found.
  unfoldable pub scan_gate :
      ProjectedGate F
      → LapPoint F
      → List (LapPoint F)
      → ℕ × Option (LapGateCrossing F)
      → ℕ × Option (LapGateCrossing F)
  scan_gate gate a [] found = found
  scan_gate gate a (b ∷ bs) found =
      scan_gate gate b bs (elim (hop gate a b) [ none ↦ found | some c ↦ (suc found.0, some c) ])

  abbrev pub only_one : ℕ × Option (LapGateCrossing F) → Option (LapGateCrossing F)
  only_one (n, found) = if n =ⁿ 1 then found else none

  unfoldable pub cross_once : LapPoint F → List (LapPoint F) → Gate F → Option (LapGateCrossing F)
  unfolding scan_gate
  cross_once p ps gate = only_one (scan_gate (project_gate gate) p ps (0, none))

  unfoldable pub cross_each :
      LapPoint F → List (LapPoint F) → List (Gate F) → Option (List (LapGateCrossing F))
  cross_each p ps [] = some []
  cross_each p ps (g ∷ gs) =
      let rest = cross_each p ps gs in
      elim (cross_once p ps g) [
        | none ↦ none
        | some c ↦ elim rest [ none ↦ none | some cs ↦ some (c ∷ cs) ]
      ]

  -- Each crossing after the one before, and the last before the end of the lap.
  unfoldable pub in_order : F → List (LapGateCrossing F) → F → Bool
  in_order previous [] last = not (last ≤? previous)
  in_order previous (c ∷ cs) last =
      let rest = in_order c.cross_ms cs last in if c.cross_ms ≤? previous then false else rest

  abbrev pub if_ordered :
      F → F → Option (List (LapGateCrossing F)) → Option (List (LapGateCrossing F))
  if_ordered first last none = none
  if_ordered first last (some cs) = if in_order first cs last then some cs else none

  unfoldable pub cross_gates : List (LapPoint F) → List (Gate F) → Option (List (LapGateCrossing F))
  unfolding cross_each cross_once in_order
  cross_gates points [] = none
  cross_gates [] (g ∷ gs) = none
  cross_gates (p ∷ []) (g ∷ gs) = none
  cross_gates (p ∷ q ∷ qs) (g ∷ gs) =
      if_ordered p.time_ms (last_of q qs).time_ms (cross_each p (q ∷ qs) (g ∷ gs))

  -- `boundaries.slice(1).map((end, i) => Math.round(end - boundaries[i]))`
  unfoldable pub durations : F → List F → List F
  durations begin [] = []
  durations begin (end ∷ ends) = num.nearest (end ⊖ begin) ∷ durations end ends

  abbrev pub splits : LapPoint F → List (LapPoint F) → Option (List (LapGateCrossing F)) → List F
  splits p ps none = []
  splits p ps (some cs) =
      durations p.time_ms (map (λ c. c.cross_ms) cs ++ (last_of p ps).time_ms ∷ [])

  unfoldable pub sector_times_from_gates : List (LapPoint F) → List (Gate F) → List F
  unfolding durations cross_gates
  sector_times_from_gates [] gates = []
  sector_times_from_gates (p ∷ ps) gates = splits p ps (cross_gates (p ∷ ps) gates)

  unfoldable pub time_at_distance : LapPoint F → List (LapPoint F) → F → F
  time_at_distance a [] target_m = a.time_ms
  time_at_distance a (b ∷ bs) target_m =
      let rest = time_at_distance b bs target_m in
      let span = b.dist_m ⊖ a.dist_m in
      let t = if whole 0 <? span then (target_m ⊖ a.dist_m) ⊘ span else whole 0 in
      if b.dist_m <? target_m then rest else a.time_ms ⊕ t ⊗ (b.time_ms ⊖ a.time_ms)

  -- The boundaries at the fractions i / count, for `n` values of i from this one on.
  unfoldable pub fractions : LapPoint F → List (LapPoint F) → F → ℕ → ℕ → ℕ → List F
  unfolding time_at_distance
  fractions p ps total_m count i zero = []
  fractions p ps total_m count i (suc n) =
      time_at_distance p ps (p.dist_m ⊕ (total_m ⊗ whole i) ⊘ whole count)
      ∷ fractions p ps total_m count (suc i) n

  unfoldable pub sector_times : List (LapPoint F) → ℕ → List F
  unfolding durations fractions
  sector_times points zero = []
  sector_times [] (suc n) = []
  sector_times (p ∷ []) (suc n) = []
  sector_times (p ∷ q ∷ qs) (suc n) =
      let last = last_of q qs in
      let total_m = last.dist_m ⊖ p.dist_m in
      let total_ms = last.time_ms ⊖ p.time_ms in
      if total_m ≤? whole 0 || total_ms ≤? whole 0
      then []
      else durations p.time_ms (fractions p (q ∷ qs) total_m (suc n) 1 n ++ last.time_ms ∷ [])
