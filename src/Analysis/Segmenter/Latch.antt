-- ===== src/Analysis/Segmenter/Latch.antt =====
-- The direction that the first crossing fixes, and the crossings that count after it.
use kab23_motorsport_telemet.Prelude.{
  ◌≡◌, refl, Bool, true, false, List, Option, none, some, if◌then◌else◌, inl, inr, ◌⊎◌, arith,
}
use kab23_motorsport_telemet.Analysis.Numbers.{Numbers}
use kab23_motorsport_telemet.Analysis.Points.{AnalysisSample, Fix, located}
use kab23_motorsport_telemet.Analysis.Crossing.{
  Direction, ahead, back, GateCrossing, CrossingFix, ProjectedGate, is_refused, accept,
  find_gate_crossing,
}
use kab23_motorsport_telemet.Analysis.Segmenter.{
  Options, LapSegmenter, or_else, fresh, to_fix, accept_crossing, open_lap, on_crossing, cross,
  advance, push, push_all,
}
use kab23_motorsport_telemet.Analysis.Segmenter.Laps.{IsSound, push_all-fresh-IsSound}

-- A direction that is fixed stays.
abbrev pub Kept : Option Direction → Option Direction → Type 0
Kept none o = Unit {0}
Kept (some d) o = o ≡ some d

or_else-Kept : (o : Option Direction) (d : Direction) → Kept o (or_else o d)
or_else-Kept none d = tt
or_else-Kept (some e) d = refl

Kept-same : (o : Option Direction) → Kept o o
Kept-same none = tt
Kept-same (some d) = refl

-- What is not refused goes in the direction that is fixed by then.
or_else_same :
    (o : Option Direction) (d : Direction) → is_refused o d ≡ false → or_else o d ≡ some d
or_else_same none d free = refl
or_else_same (some ahead) ahead free = refl
or_else_same (some back) back free = refl
or_else_same (some ahead) back free = cc
or_else_same (some back) ahead free = cc

module _ {F : Type 0} ⦃num : Numbers F⦄ where
  -- A crossing in the direction that is asked for is a crossing.
  asked_for :
      (prev cur : CrossingFix F) (gate : ProjectedGate F) (o : Option Direction)
      (c : GateCrossing F)
      → find_gate_crossing prev cur gate o ≡ some c
      → (find_gate_crossing prev cur gate none ≡ some c) × (is_refused o c.dir_sign ≡ false)
  unfolding find_gate_crossing accept
  asked_for prev cur gate o c found = (ground arith, ground arith)

  module _ (options : Options F) where
    -- From `s` to `s'`: no lap is completed and none opens; or the car crosses the line on its way
    -- to `f`, in whatever direction, and this is the direction that is fixed from then on.
    abbrev Moves : Fix F → LapSegmenter F → LapSegmenter F → Type 0
    Moves f s s' =
        ((s'.laps ≡ s.laps) × (s'.lap_number ≡ s.lap_number))
        ⊎ ((prev : Fix F) × (c : GateCrossing F) × (s.prev ≡ some prev)
            × (find_gate_crossing (to_fix prev) (to_fix f) options.gate none ≡ some c)
            × (s'.dir_sign ≡ some c.dir_sign))

    abbrev Goes : Fix F → LapSegmenter F → LapSegmenter F → Type 0
    Goes f s s' = Kept s.dir_sign s'.dir_sign × Moves f s s'

    if-Goes :
        (f : Fix F) (s : LapSegmenter F) (b : Bool) (x : LapSegmenter F)
        → Goes f s x
        → Goes f s (if b then x else s)
    if-Goes f s true x goes = goes
    if-Goes f s false x goes = (Kept-same s.dir_sign, inl (refl, refl))

    on_crossing-Goes :
        (prev f : Fix F) (o : Option (GateCrossing F)) (s : LapSegmenter F)
        → s.prev ≡ some prev
        → find_gate_crossing (to_fix prev) (to_fix f) options.gate s.dir_sign ≡ o
        → Goes f s (on_crossing options prev f o s)
    unfolding on_crossing
    on_crossing-Goes prev f none s before apart = (Kept-same s.dir_sign, inl (refl, refl))
    on_crossing-Goes prev f (some c) s before found =
        let (any_way, free) = asked_for (to_fix prev) (to_fix f) options.gate s.dir_sign c found in
        if-Goes f s (accept_crossing c.cross_ms s.points) _ (
          unfold open_lap in
          (
            or_else-Kept s.dir_sign c.dir_sign,
            inr (prev, c, before, any_way, or_else_same s.dir_sign c.dir_sign free),
          ))

    cross-Goes :
        (f : Fix F) (o : Option (Fix F)) (s : LapSegmenter F)
        → s.prev ≡ o
        → Goes f s (cross options f o s)
    unfolding cross
    cross-Goes f none s first = (Kept-same s.dir_sign, inl (refl, refl))
    cross-Goes f (some prev) s before = on_crossing-Goes prev f _ s before refl

    -- The next sample completes no lap and opens none; or it has a position, and the car crosses the
    -- line on its way there, in the direction that is fixed from then on.
    abbrev pub Counts : AnalysisSample F → LapSegmenter F → LapSegmenter F → Type 0
    Counts x s s' =
        ((s'.laps ≡ s.laps) × (s'.lap_number ≡ s.lap_number))
        ⊎ ((prev : Fix F) × (f : Fix F) × (c : GateCrossing F) × (s.prev ≡ some prev)
            × (located x ≡ some f)
            × (find_gate_crossing (to_fix prev) (to_fix f) options.gate none ≡ some c)
            × (s'.dir_sign ≡ some c.dir_sign))

    Moves-Counts :
        (x : AnalysisSample F) (f : Fix F) (s s' : LapSegmenter F)
        → located x ≡ some f
        → Moves f s s'
        → Counts x s s'
    Moves-Counts x f s s' there (inl same) = inl same
    Moves-Counts x f s s' there (inr (prev, c, before, found, latch)) =
        inr (prev, f, c, before, there, found, latch)

    advance-Counts :
        (x : AnalysisSample F) (o : Option (Fix F)) (s : LapSegmenter F)
        → located x ≡ o
        → let s' : LapSegmenter F = elim o [ none ↦ s | some f ↦ advance options f s ] in
          Kept s.dir_sign s'.dir_sign × Counts x s s'
    unfolding advance
    advance-Counts x none s lost = (Kept-same s.dir_sign, inl (refl, refl))
    advance-Counts x (some f) s there =
        let (kept, moves) = cross-Goes f s.prev s refl in
        (kept, Moves-Counts x f s (advance options f s) there moves)

    -- Whatever samples a segmenter is given: before a first lap opens it has no laps, no
    -- direction and the lap number 0; from then on it has a direction, which no next sample
    -- changes, the laps and the running one are numbered from 1 on, each starts at distance 0
    -- and ends in the very fix in which the next begins, and a completed lap lasts at least the
    -- minimum. A next sample completes or opens a lap only if the car crosses the line on its
    -- way there in the direction that is fixed from then on.
    pub push_all-Segments :
        (samples : List (AnalysisSample F)) (x : AnalysisSample F)
        → let s = push_all options samples fresh in
          let s' = push options x s in
          IsSound options s × Kept s.dir_sign s'.dir_sign × Counts x s s'
    unfolding push
    push_all-Segments samples x =
        let (kept, counts) = advance-Counts x (located x) (push_all options samples fresh) refl in
        (push_all-fresh-IsSound options samples, kept, counts)
