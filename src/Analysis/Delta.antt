-- ===== src/Analysis/Delta.antt =====
-- lap-trace.ts: one lap measured against another.
pub mod Resuming
use kab23_motorsport_telemet.Prelude.{
  ℕ, zero, suc, ◌-◌, Bool, true, false, ◌&&◌, ◌||◌, List, [], ◌∷◌, ◌++◌, map, Option, none, some,
  select, length, leb, ltb, if◌then◌else◌,
}
use kab23_motorsport_telemet.Analysis.Numbers.{Numbers, ◌⊕◌, ◌⊖◌, ◌⊗◌, ◌⊘◌, ◌<?◌, ◌≤?◌, ◌=?◌, whole}
use kab23_motorsport_telemet.Analysis.Points.{
  AnalysisSample, LapPoint, Fix, located, lerp_channel, round_to,
}
use kab23_motorsport_telemet.Analysis.Distance.{points_from}
use kab23_motorsport_telemet.Analysis.Trace.{TracePoint, final, lerp}

pub record DeltaPoint (F : Type 0) : Type 0 where
  pub dist_m : F
  pub elapsed_a_ms : F
  pub elapsed_b_ms : F
  pub delta_ms : F
  pub speed_a_kmh : Option F
  pub speed_b_kmh : Option F

abbrev pub min_count : ℕ → ℕ → ℕ
min_count a b = if leb a b then a else b

abbrev pub max_count : ℕ → ℕ → ℕ
max_count a b = if leb a b then b else a

abbrev pub step_count : ℕ → ℕ
step_count max_points = max_count (min_count max_points 5000) 2

module _ {F : Type 0} ⦃num : Numbers F⦄ where
  -- A cursor is the point at its index with the points after it. `advance` is the `while` loop.
  unfoldable pub advance :
      F → TracePoint F → List (TracePoint F) → TracePoint F × List (TracePoint F)
  advance dist_m from [] = (from, [])
  advance dist_m from (to ∷ rest) =
      let onward = advance dist_m to rest in
      if to.dist_m <? dist_m then onward else (from, to ∷ rest)

  abbrev pub or_self : TracePoint F → List (TracePoint F) → TracePoint F
  or_self from [] = from
  or_self from (to ∷ rest) = to

  abbrev pub speed_between : F → Option F → Option F → Option F
  speed_between t (some v) (some w) = some (round_to (whole 100) (lerp v w t))
  speed_between t (some v) none = some v
  speed_between t none w = w

  -- `sampleAtDistance` at its cursor: the elapsed time and the speed.
  unfoldable pub sample_at : F → TracePoint F × List (TracePoint F) → F × Option F
  sample_at dist_m (from, rest) =
      let to = or_self from rest in
      let span = to.dist_m ⊖ from.dist_m in
      let t =
        if whole 0 <? span
        then num.min (num.max ((dist_m ⊖ from.dist_m) ⊘ span) (whole 0)) (whole 1)
        else whole 0 in
      (lerp from.elapsed_ms to.elapsed_ms t, speed_between t from.speed_kmh to.speed_kmh)

  abbrev pub delta_point : F → F × Option F → F × Option F → DeltaPoint F
  delta_point dist_m (elapsed_a, speed_a) (elapsed_b, speed_b) = record {
    dist_m = round_to (whole 10) dist_m;
    elapsed_a_ms = num.nearest elapsed_a;
    elapsed_b_ms = num.nearest elapsed_b;
    delta_ms = num.nearest (elapsed_b ⊖ elapsed_a);
    speed_a_kmh = speed_a;
    speed_b_kmh = speed_b;
  }

  abbrev pub axis_at : F → ℕ → ℕ → F
  axis_at distance_m steps i = (distance_m ⊗ whole i) ⊘ whole (steps - 1)

  -- The steps from `i` on, `n` of them.
  unfoldable pub compare_steps :
      F
      → ℕ
      → ℕ
      → ℕ
      → TracePoint F × List (TracePoint F)
      → TracePoint F × List (TracePoint F)
      → List (DeltaPoint F)
  unfolding advance sample_at
  compare_steps distance_m steps i zero at_a at_b = []
  compare_steps distance_m steps i (suc n) (a, as_) (b, bs) =
      let dist_m = axis_at distance_m steps i in
      let at_a = advance dist_m a as_ in
      let at_b = advance dist_m b bs in
      delta_point dist_m (sample_at dist_m at_a) (sample_at dist_m at_b)
      ∷ compare_steps distance_m steps (suc i) n at_a at_b

  unfoldable pub compare_laps :
      List (TracePoint F) → List (TracePoint F) → ℕ → F × List (DeltaPoint F)
  unfolding compare_steps
  compare_laps (a ∷ a' ∷ as_) (b ∷ b' ∷ bs) max_points =
      let distance_m = num.min (final a' as_).dist_m (final b' bs).dist_m in
      let steps = step_count max_points in
      (
        round_to (whole 10) distance_m,
        compare_steps distance_m steps 0 steps (a, a' ∷ as_) (b, b' ∷ bs),
      )
  compare_laps _ _ max_points = (whole 0, [])
