-- ===== src/Analysis/Service/Answering.antt =====
-- analysis.service.ts: what the trace of the optimal lap answers.
use kab23_motorsport_telemet.Prelude.{
  ℕ, zero, suc, ◌+◌, ◌≡◌, refl, ap, sym, ◌∙◌, Bool, true, false, List, [], ◌∷◌, map, Option, none,
  some, Result, ok, err, length, arith,
}
use kab23_motorsport_telemet.Cars.{CarsError}
use kab23_motorsport_telemet.Sessions.{Session}
use kab23_motorsport_telemet.Analysis.Numbers.{Numbers}
use kab23_motorsport_telemet.Analysis.Best.{
  SectoredLap, BestSector, OptimalLapCore, best_sectors, combine, pick_best_sectors,
}
use kab23_motorsport_telemet.Analysis.Trace.{TracePoint, final}
use kab23_motorsport_telemet.Analysis.Optimal.{
  OptimalLap, OptimalLapInput, Seam, planned, build_optimal_lap, stitch_optimal_trace, every_usable,
  with_seams,
}
use kab23_motorsport_telemet.Analysis.Optimal.Stitching.{Stitched, stitch_optimal_trace-Stitched}
use kab23_motorsport_telemet.Analysis.Laps.{Lap}
use kab23_motorsport_telemet.Analysis.Office.{Office, Desk, optimal_input}
use kab23_motorsport_telemet.Analysis.Service.Traces.{
  contributing, no_optimal_lap, stitched_or_404, trace_of_plan, optimal_trace_for,
}

module _ {F : Type 0} ⦃num : Numbers F⦄ where
  length-best_sectors :
      (first : SectoredLap F) (laps : List (SectoredLap F)) (i n : ℕ)
      → length (best_sectors first laps i n) ≡ n
  unfolding best_sectors
  length-best_sectors first laps i zero = refl
  length-best_sectors first laps i (suc n) = ap suc (length-best_sectors first laps (suc i) n)

  length-combine :
      (count : ℕ) (laps : List (SectoredLap F)) (core : OptimalLapCore F)
      → combine count laps ≡ some core
      → length core.sectors ≡ count
  unfolding combine
  length-combine count [] core e = cc
  length-combine count (l ∷ []) core e = cc
  length-combine count (l ∷ m ∷ ls) core e =
      let same : best_sectors l (m ∷ ls) 0 count ≡ core.sectors = ground arith in
      ap length (sym same) ∙ length-best_sectors l (m ∷ ls) 0 count

  planned-shape :
      (laps : List (OptimalLapInput F)) (o : Option (OptimalLapCore F)) (plan : OptimalLap F)
      → ((core : OptimalLapCore F) → o ≡ some core → length core.sectors ≡ 3)
      → planned laps o ≡ some plan
      → (length plan.sectors ≡ 3) × (plan.seams ≡ [])
  planned-shape laps none plan three e = cc
  planned-shape laps (some core) plan three e =
      let same : core.sectors ≡ plan.sectors = ground arith in
      (ap length (sym same) ∙ three core refl, ground arith)

  build_optimal_lap-shape :
      (laps : List (OptimalLapInput F)) (plan : OptimalLap F)
      → build_optimal_lap laps ≡ some plan
      → (length plan.sectors ≡ 3) × (plan.seams ≡ [])
  unfolding build_optimal_lap pick_best_sectors
  build_optimal_lap-shape laps plan e =
      planned-shape laps _ plan (λ core. length-combine 3 _ core) e

  three_sectors :
      (ss : List (BestSector F))
      → length ss ≡ 3
      → (s : BestSector F) × (rest : List (BestSector F)) × (ss ≡ s ∷ rest) × (length rest ≡ 2)
  three_sectors [] e = absurd (omega arith)
  three_sectors (s ∷ rest) e = (s, rest, refl, omega arith)

module _ {F : Type 0} ⦃num : Numbers F⦄ (env : Office F) where
  abbrev pub Answer : Type 0
  Answer = Result CarsError (OptimalLap F × TracePoint F × List (TracePoint F)) × Desk env

  -- What a plan comes to, as the traces of its laps can be used or not.
  abbrev pub Answers : Bool → OptimalLap F → Desk env → Answer → Type 0
  Answers false plan s answer = answer ≡ (err no_optimal_lap, s)
  Answers true plan s answer =
      (seams : List (Seam F)) × (p : TracePoint F) × (ps : List (TracePoint F)) × (answer
        ≡ (ok (with_seams plan seams, p, ps), s))
      × ((final p ps).elapsed_ms ≡ plan.lap_ms)
      × (length seams ≡ 2)

  abbrev pub AnswersPlan : List (Lap F) → Option (OptimalLap F) → Desk env → Answer → Type 0
  AnswersPlan laps none s answer = answer ≡ (err no_optimal_lap, s)
  AnswersPlan laps (some plan) s answer =
      Answers (every_usable (contributing env plan.sectors laps) plan.sectors) plan s answer

  stitched_or_404-Answers :
      (usable : Bool) (plan filled : OptimalLap F) (points : List (TracePoint F)) (joins : ℕ)
      (s : Desk env)
      → plan.seams ≡ []
      → joins ≡ 2
      → Stitched usable plan filled points joins
      → Answers usable plan s (stitched_or_404 env (filled, points) s)
  unfolding stitched_or_404
  stitched_or_404-Answers false plan filled points joins s none_yet two (same, empty) =
      rw empty refl
  stitched_or_404-Answers true plan filled points joins s none_yet two
        ((p, ps, line, time), same, seams) =
      (
        filled.seams,
        p,
        ps,
        rw line (ap (λ x. (ok (x, p, ps), s)) same),
        time,
        seams ∙ ap (λ (held : List (Seam F)). length held + joins) none_yet ∙ omega arith,
      )

  trace_of_plan-Answers :
      (laps : List (Lap F)) (max_points : ℕ) (o : Option (OptimalLap F)) (s : Desk env)
      → ((plan : OptimalLap F) → o ≡ some plan → (length plan.sectors ≡ 3) × (plan.seams ≡ []))
      → AnswersPlan laps o s (trace_of_plan env laps max_points o s)
  unfolding trace_of_plan stitched_or_404
  trace_of_plan-Answers laps max_points none s shape = refl
  trace_of_plan-Answers laps max_points (some plan) s shape =
      let (size, no_seams) = shape plan refl in
      let (first, rest, sectors, two) = three_sectors plan.sectors size in
      let laps_of_plan = contributing env plan.sectors laps in
      let done = stitch_optimal_trace plan laps_of_plan max_points in
      stitched_or_404-Answers (every_usable laps_of_plan plan.sectors) plan done.0 done.1
        (length rest) s no_seams two
        (stitch_optimal_trace-Stitched plan laps_of_plan max_points first rest sectors)

  -- The trace of the optimal lap writes nothing. It is a 404 if there is no plan, or if a lap
  -- that wins a sector has fewer than two points; otherwise it has points, the last of which is
  -- at the time of the plan, and two seams.
  pub optimal_trace_for-Answers :
      (session : Session) (max_points : ℕ) (s : Desk env)
      → let laps = env.laps.find_by_session session.id s.laps in
        AnswersPlan laps
          (build_optimal_lap (map optimal_input laps))
          s
          (optimal_trace_for env session max_points s)
  unfolding optimal_trace_for
  optimal_trace_for-Answers session max_points s =
      let laps = env.laps.find_by_session session.id s.laps in
      trace_of_plan-Answers laps max_points (build_optimal_lap (map optimal_input laps)) s
        (build_optimal_lap-shape (map optimal_input laps))
