-- ===== src/Analysis/Delta/Resuming.antt =====
-- lap-trace.ts: one lap measured against another, where each lookup starts at the first point.
use kab23_motorsport_telemet.Prelude.{
  Option, ℕ, zero, suc, ◌+◌, ◌≤◌, ◌-◌, ◌≡◌, refl, true, List, [], ◌∷◌, ap, ◌∙◌, Bool-cases, inl,
  inr, arith,
}
use kab23_motorsport_telemet.Analysis.Numbers.{Numbers, IsScaled, ◌≤?◌, ◌<?◌, whole}
use kab23_motorsport_telemet.Analysis.Points.{round_to}
use kab23_motorsport_telemet.Analysis.Trace.{TracePoint, final}
use kab23_motorsport_telemet.Analysis.Delta.{
  DeltaPoint, advance, sample_at, delta_point, axis_at, step_count, compare_steps, compare_laps,
}

module _ {F : Type 0} ⦃num : Numbers F⦄ where
  -- The elapsed time and the speed at a distance, looked up from the start of a trace.
  abbrev pub look_up : F → TracePoint F × List (TracePoint F) → F × Option F
  look_up dist_m (p, ps) = sample_at dist_m (advance dist_m p ps)

  -- The step `i` of a comparison, on its own.
  abbrev pub compared_at :
      F
      → ℕ
      → TracePoint F × List (TracePoint F)
      → TracePoint F × List (TracePoint F)
      → ℕ
      → DeltaPoint F
  compared_at distance_m steps a b i =
      let dist_m = axis_at distance_m steps i in
      delta_point dist_m (look_up dist_m a) (look_up dist_m b)

  -- The steps from `i` on, `n` of them, each on its own.
  unfoldable pub compared_from :
      F
      → ℕ
      → TracePoint F × List (TracePoint F)
      → TracePoint F × List (TracePoint F)
      → ℕ
      → ℕ
      → List (DeltaPoint F)
  compared_from distance_m steps a b i zero = []
  compared_from distance_m steps a b i (suc n) =
      compared_at distance_m steps a b i ∷ compared_from distance_m steps a b (suc i) n

module _ {F : Type 0} ⦃num : Numbers F⦄ (laws : IsScaled F) where
  abbrev Cursor : Type 0
  Cursor = TracePoint F × List (TracePoint F)

  -- A cursor that stands where an earlier lookup left it.
  abbrev Resumed : F → Cursor → Cursor → Type 0
  Resumed dist_m (p, ps) at = advance dist_m at.0 at.1 ≡ advance dist_m p ps

  advance-again :
      (d e : F) (p : TracePoint F) (ps : List (TracePoint F))
      → (d ≤? e) ≡ true
      → Resumed e (p, ps) (advance d p ps)
  unfolding advance
  advance-again d e p [] le = refl
  advance-again d e p (q ∷ qs) le = elim (Bool-cases (q.dist_m <? d)) [
    | inl behind ↦ rw (behind, laws.lt-le q.dist_m d e behind le) (advance-again d e q qs le)
    | inr ahead ↦ rw ahead refl
  ]

  resumes :
      (d e : F) (p : TracePoint F) (ps : List (TracePoint F)) (at : Cursor)
      → Resumed d (p, ps) at
      → (d ≤? e) ≡ true
      → Resumed e (p, ps) (advance d at.0 at.1)
  resumes d e p ps at here le =
      ap (λ (c : Cursor). advance e c.0 c.1) here ∙ advance-again d e p ps le

  axis-rises :
      (distance_m : F) (k i : ℕ)
      → num.is_finite distance_m ≡ true
      → (whole 0 ≤? distance_m) ≡ true
      → suc (suc k) ≤ 5000
      → suc i ≤ suc k
      → (axis_at distance_m (suc (suc k)) i ≤? axis_at distance_m (suc (suc k)) (suc i)) ≡ true
  axis-rises distance_m k i finite positive few inside =
      let before : suc (suc k) - 1 ≡ suc k = omega arith in
      rw before (
        laws.over_mono _ _ k (omega arith)
          (laws.times_mono distance_m i finite positive (omega arith)))

  compare_steps-compared_from :
      (distance_m : F) (k : ℕ) (a b : TracePoint F) (as_ bs : List (TracePoint F)) (i n : ℕ)
      (at_a at_b : Cursor)
      → num.is_finite distance_m ≡ true
      → (whole 0 ≤? distance_m) ≡ true
      → suc (suc k) ≤ 5000
      → i + n ≡ suc (suc k)
      → Resumed (axis_at distance_m (suc (suc k)) i) (a, as_) at_a
      → Resumed (axis_at distance_m (suc (suc k)) i) (b, bs) at_b
      → compare_steps distance_m (suc (suc k)) i n at_a at_b
        ≡ compared_from distance_m (suc (suc k)) (a, as_) (b, bs) i n
  unfolding compare_steps compared_from
  compare_steps-compared_from distance_m k a b as_ bs i zero at_a at_b finite positive few e ra rb =
      refl
  compare_steps-compared_from distance_m k a b as_ bs i (suc zero) at_a at_b finite positive few e
        ra rb =
      rw (ra, rb) refl
  compare_steps-compared_from distance_m k a b as_ bs i (suc (suc n)) at_a at_b finite positive few
        e ra rb =
      let d = axis_at distance_m (suc (suc k)) i in
      let d' = axis_at distance_m (suc (suc k)) (suc i) in
      let le = axis-rises distance_m k i finite positive few (omega arith) in
      let onward =
        compare_steps-compared_from distance_m k a b as_ bs (suc i) (suc n)
          (advance d at_a.0 at_a.1) (advance d at_b.0 at_b.1) finite positive few (omega arith)
          (resumes d d' a as_ at_a ra le) (resumes d d' b bs at_b rb le) in
      let ahead_a = advance d at_a.0 at_a.1 in
      let ahead_b = advance d at_b.0 at_b.1 in
      let rest = compare_steps distance_m (suc (suc k)) (suc i) (suc n) ahead_a ahead_b in
      ap (λ (c : Cursor). delta_point d (sample_at d c) (sample_at d ahead_b) ∷ rest) ra
      ∙ (ap (λ (c : Cursor). delta_point d (look_up d (a, as_)) (sample_at d c) ∷ rest) rb
          ∙ ap (λ ps. compared_at distance_m (suc (suc k)) (a, as_) (b, bs) i ∷ ps) onward)

  step_count-two : (m : ℕ) → (k : ℕ) × (step_count m ≡ suc (suc k)) × (suc (suc k) ≤ 5000)
  step_count-two m = (step_count m - 2, ground arith, ground arith)

  -- Where the steps of the axis rise as those of IEEE 754 do and the shorter of two traces has a
  -- finite length that is not negative, comparing them in one pass gives at each step what
  -- looking both up from their first points gives.
  pub compare_laps-compared_from :
      (a a' : TracePoint F) (as_ : List (TracePoint F)) (b b' : TracePoint F)
      (bs : List (TracePoint F)) (max_points : ℕ)
      → num.is_finite (num.min (final a' as_).dist_m (final b' bs).dist_m) ≡ true
      → (whole 0 ≤? num.min (final a' as_).dist_m (final b' bs).dist_m) ≡ true
      → compare_laps (a ∷ a' ∷ as_) (b ∷ b' ∷ bs) max_points ≡ (
        round_to (whole 10) (num.min (final a' as_).dist_m (final b' bs).dist_m),
        compared_from
            (num.min (final a' as_).dist_m (final b' bs).dist_m)
            (step_count max_points)
            (a, a' ∷ as_)
            (b, b' ∷ bs)
            0
            (step_count max_points),
      )
  unfolding compare_laps
  compare_laps-compared_from a a' as_ b b' bs max_points finite positive =
      let (k, size, few) = step_count-two max_points in
      let distance_m = num.min (final a' as_).dist_m (final b' bs).dist_m in
      rw size (
        ap (λ ps. (round_to (whole 10) distance_m, ps))
          (compare_steps-compared_from distance_m k a b (a' ∷ as_) (b' ∷ bs) 0 (suc (suc k))
            (a, a' ∷ as_) (b, b' ∷ bs) finite positive few (omega arith) refl refl))
