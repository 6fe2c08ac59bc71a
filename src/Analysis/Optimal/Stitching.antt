-- ===== src/Analysis/Optimal/Stitching.antt =====
-- optimal-lap.ts: the stitched line is whole or empty.
use mathlib.Core.Path.{subst}
use kab23_motorsport_telemet.Prelude.{
  ℕ, suc, ◌+◌, ◌≤◌, ◌≡◌, refl, sym, ap, ◌∙◌, Bool, true, false, List, [], ◌∷◌, Option, some, length,
  length-append, leb, Bool-cases, Option-cases, inl, inr, arith,
}
use kab23_motorsport_telemet.Analysis.Numbers.{Numbers}
use kab23_motorsport_telemet.Analysis.Best.{BestSector}
use kab23_motorsport_telemet.Analysis.Trace.{
  TracePoint, final, decimate_by_distance, interpolate_trace_point_at,
}
use kab23_motorsport_telemet.Analysis.Trace.Thinning.{decimate_by_distance-KeepsEnds}
use kab23_motorsport_telemet.Analysis.Optimal.{
  OptimalLap, ContributingLap, Seam, Stitch, every_usable, record_seam, slice_sector, slice_lap,
  stitch_from, pin_last, before_first, stitch_optimal_trace, sector_bounds_m, with_seams,
}

module _ {F : Type 0} ⦃num : Numbers F⦄ where
  -- After `n` more sectors than the first, from this number of seams.
  abbrev Joined : ℕ → ℕ → Stitch F → Type 0
  Joined base n st = (1 ≤ length st.stitched) × (length st.seams ≡ base + n)

  length-record_seam :
      (seams : List (Seam F)) (stitched : List (TracePoint F)) (start : TracePoint F) (at_m : F)
      → 1 ≤ length stitched
      → length (record_seam seams stitched start at_m) ≡ suc (length seams)
  unfolding record_seam
  length-record_seam seams [] start at_m begun = absurd (omega arith)
  length-record_seam seams (p ∷ ps) start at_m begun = length-append seams _ ∙ omega arith

  some_slice :
      (sector : BestSector F) (p : TracePoint F) (ps : List (TracePoint F)) (from_m to_m : F)
      (st : Stitch F)
      → 1 ≤ length (slice_sector sector p ps (from_m, to_m) st).stitched
  unfolding slice_sector
  some_slice sector p ps from_m to_m st = omega (arith, length-append st.stitched _)

  slice_lap-Joined :
      (sector : BestSector F) (i count : ℕ) (times : List F) (ps : List (TracePoint F)) (base n : ℕ)
      (st : Stitch F)
      → leb 2 (length ps) ≡ true
      → Joined base n st
      → Joined base (suc n) (slice_lap sector i count times ps st)
  unfolding slice_lap slice_sector
  slice_lap-Joined sector i count times [] base n st long joined = absurd (ground arith)
  slice_lap-Joined sector i count times (p ∷ ps) base n st long (begun, seams) =
      let bounds = sector_bounds_m p ps times i count in
      (
        some_slice sector p ps bounds.0 bounds.1 st,
        length-record_seam st.seams st.stitched (interpolate_trace_point_at p ps bounds.0) st.dist_m
              begun
            ∙ omega arith,
      )

  slice_lap-first :
      (sector : BestSector F) (i count : ℕ) (times : List F) (ps : List (TracePoint F))
      (plan : OptimalLap F)
      → leb 2 (length ps) ≡ true
      → Joined (length plan.seams) 0 (slice_lap sector i count times ps (before_first plan))
  unfolding slice_lap slice_sector record_seam
  slice_lap-first sector i count times [] plan long = absurd (ground arith)
  slice_lap-first sector i count times (p ∷ ps) plan long =
      let bounds = sector_bounds_m p ps times i count in
      (some_slice sector p ps bounds.0 bounds.1 (before_first plan), omega arith)

  -- The lap of the first of some sectors that can be used.
  usable_first :
      (contributing : ℕ → Option (ContributingLap F)) (s : BestSector F) (ss : List (BestSector F))
      → every_usable contributing (s ∷ ss) ≡ true
      → (c : ContributingLap F) × (contributing s.lap_number ≡ some c)
        × (leb 2 (length c.points) ≡ true)
        × (every_usable contributing ss ≡ true)
  unfolding every_usable
  usable_first contributing s ss e = elim (Option-cases (contributing s.lap_number)) [
    | inl missing ↦ absurd (ground arith)
    | inr (c, there) ↦ (c, there, ground arith, ground arith)
  ]

  stitch_from-cons :
      (contributing : ℕ → Option (ContributingLap F)) (count i : ℕ) (s : BestSector F)
      (ss : List (BestSector F)) (st : Stitch F) (c : ContributingLap F)
      → contributing s.lap_number ≡ some c
      → stitch_from contributing count (suc i) ss (slice_lap s i count c.sector_ms c.points st)
        ≡ stitch_from contributing count i (s ∷ ss) st
  unfolding stitch_from
  stitch_from-cons contributing count i s ss st c there = rw there refl

  stitch_from-Joined :
      (contributing : ℕ → Option (ContributingLap F)) (count i : ℕ) (ss : List (BestSector F))
      (base n : ℕ) (st : Stitch F)
      → every_usable contributing ss ≡ true
      → Joined base n st
      → Joined base (n + length ss) (stitch_from contributing count i ss st)
  unfolding stitch_from
  stitch_from-Joined contributing count i [] base n st usable (begun, seams) = (begun, omega arith)
  stitch_from-Joined contributing count i (s ∷ ss) base n st usable joined =
      let (c, there, long, rest) = usable_first contributing s ss usable in
      let next = slice_lap-Joined s i count c.sector_ms c.points base n st long joined in
      let (begun, seams) =
        stitch_from-Joined contributing count (suc i) ss base (suc n) _ rest next in
      subst (Joined base (n + suc (length ss)))
        (stitch_from-cons contributing count i s ss st c there) (begun, seams ∙ omega arith)

  pin_last-final :
      (dist_m lap_ms : F) (p : TracePoint F) (ps : List (TracePoint F))
      → (q : TracePoint F) × (qs : List (TracePoint F)) × (pin_last dist_m lap_ms (p ∷ ps) ≡ q ∷ qs)
        × ((final q qs).elapsed_ms ≡ lap_ms)
  unfolding pin_last
  pin_last-final dist_m lap_ms p [] = (_, [], refl, refl)
  pin_last-final dist_m lap_ms p (q ∷ qs) =
      let (r, rs, same, time) = pin_last-final dist_m lap_ms q qs in
      (p, r ∷ rs, ap (λ xs. p ∷ xs) same, time)

  -- A line that is not empty and that ends at the time of the plan.
  abbrev pub EndsAt : F → List (TracePoint F) → Type 0
  EndsAt lap_ms points =
      (p : TracePoint F) × (ps : List (TracePoint F)) × (points ≡ p ∷ ps)
      × ((final p ps).elapsed_ms ≡ lap_ms)

  thinned-EndsAt :
      (dist_m lap_ms : F) (stitched : List (TracePoint F)) (max_points : ℕ)
      → 1 ≤ length stitched
      → EndsAt lap_ms (decimate_by_distance (pin_last dist_m lap_ms stitched) max_points)
  thinned-EndsAt dist_m lap_ms [] max_points begun = absurd (omega arith)
  thinned-EndsAt dist_m lap_ms (p ∷ ps) max_points begun =
      let (q, qs, same, time) = pin_last-final dist_m lap_ms p ps in
      let (ks, kept, thins, last) = decimate_by_distance-KeepsEnds q qs max_points in
      (
        q,
        ks,
        ap (λ xs. decimate_by_distance xs max_points) same ∙ kept,
        ap (λ (x : TracePoint F). x.elapsed_ms) last ∙ time,
      )

  -- What stitching a plan comes to, as all its laps can be used or not.
  abbrev pub Stitched : Bool → OptimalLap F → OptimalLap F → List (TracePoint F) → ℕ → Type 0
  Stitched false plan filled points joins = (filled ≡ plan) × (points ≡ [])
  Stitched true plan filled points joins =
      EndsAt plan.lap_ms points
      × (filled ≡ with_seams plan filled.seams)
      × (length filled.seams ≡ length plan.seams + joins)

  abbrev Whole : OptimalLap F → ℕ → ℕ → Stitch F → Type 0
  Whole plan max_points joins st =
      EndsAt plan.lap_ms
        (decimate_by_distance (pin_last st.dist_m plan.lap_ms st.stitched) max_points)
      × (length st.seams ≡ length plan.seams + joins)

  stitched_whole :
      (plan : OptimalLap F) (contributing : ℕ → Option (ContributingLap F)) (max_points : ℕ)
      (s : BestSector F) (ss : List (BestSector F))
      → every_usable contributing (s ∷ ss) ≡ true
      → let st = stitch_from contributing (suc (length ss)) 0 (s ∷ ss) (before_first plan) in
        EndsAt plan.lap_ms
          (decimate_by_distance (pin_last st.dist_m plan.lap_ms st.stitched) max_points)
        × (length st.seams ≡ length plan.seams + length ss)
  unfolding stitch_from
  stitched_whole plan contributing max_points s ss usable =
      let (c, there, long, rest) = usable_first contributing s ss usable in
      let first = slice_lap-first s 0 (suc (length ss)) c.sector_ms c.points plan long in
      let (begun, seams) =
        stitch_from-Joined contributing (suc (length ss)) 1 ss (length plan.seams) 0 _ rest first in
      subst (Whole plan max_points (length ss))
        (stitch_from-cons contributing (suc (length ss)) 0 s ss (before_first plan) c there)
        (thinned-EndsAt _ plan.lap_ms _ max_points begun, seams ∙ omega arith)

  pub stitch_optimal_trace-Stitched :
      (plan : OptimalLap F) (contributing : ℕ → Option (ContributingLap F)) (max_points : ℕ)
      (s : BestSector F) (ss : List (BestSector F))
      → plan.sectors ≡ s ∷ ss
      → let done = stitch_optimal_trace plan contributing max_points in
        Stitched (every_usable contributing plan.sectors) plan done.0 done.1 (length ss)
  unfolding stitch_optimal_trace
  stitch_optimal_trace-Stitched plan contributing max_points s ss shape =
      elim (Bool-cases (every_usable contributing plan.sectors)) [
        | inl usable ↦
            let (line, seams) =
              subst
                (λ xs.
                  Whole plan max_points (length ss)
                    (stitch_from contributing (length xs) 0 xs (before_first plan)))
                (sym shape)
                (stitched_whole plan contributing max_points s ss
                  (ap (every_usable contributing) (sym shape) ∙ usable)) in
            rw usable (line, refl, seams)
        | inr missing ↦ rw missing (refl, refl)
      ]
