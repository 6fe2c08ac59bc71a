-- ===== src/Analysis/Sectors/Gates.antt =====
-- Sector times by gates against all crossings of a lap.
use mathlib.Core.Path.{subst}
use kab23_motorsport_telemet.Prelude.{
  ℕ, zero, suc, ◌+◌, ◌≡◌, refl, sym, ap, ◌∙◌, Bool, true, false, List, [], ◌∷◌, ◌++◌, map, Option,
  none, some, length, length-append, if◌then◌else◌, Option-cases, Bool-cases, inl, inr, ◌⊎◌, ◌↔◌,
  arith,
}
use kab23_motorsport_telemet.Analysis.Numbers.{Numbers, ◌≤?◌}
use kab23_motorsport_telemet.Analysis.Points.{LapPoint, Gate, last_of}
use kab23_motorsport_telemet.Analysis.Crossing.{ProjectedGate, project_gate}
use kab23_motorsport_telemet.Analysis.Sectors.{
  LapGateCrossing, if_ordered, splits, hop, only_one, scan_gate, cross_once, cross_each, in_order,
  cross_gates, durations, sector_times_from_gates, fractions, sector_times,
}

module _ {F : Type 0} ⦃num : Numbers F⦄ where
  -- All crossings of a gate, in the order of the lap.
  unfoldable pub crossings_of :
      ProjectedGate F → LapPoint F → List (LapPoint F) → List (LapGateCrossing F)
  crossings_of gate a [] = []
  crossings_of gate a (b ∷ bs) =
      let rest = crossings_of gate b bs in elim (hop gate a b) [ none ↦ rest | some c ↦ c ∷ rest ]

  abbrev pub latest :
      Option (LapGateCrossing F) → List (LapGateCrossing F) → Option (LapGateCrossing F)
  latest found [] = found
  latest found (c ∷ cs) = latest (some c) cs

  scan_gate-crossings_of :
      (gate : ProjectedGate F) (a : LapPoint F) (bs : List (LapPoint F)) (n : ℕ)
      (found : Option (LapGateCrossing F))
      → scan_gate gate a bs (n, found)
        ≡ (n + length (crossings_of gate a bs), latest found (crossings_of gate a bs))
  unfolding scan_gate crossings_of
  scan_gate-crossings_of gate a [] n found = ap (λ k. (k, found)) (omega arith)
  scan_gate-crossings_of gate a (b ∷ bs) n found = elim (Option-cases (hop gate a b)) [
    | inl missed ↦ rw (missed, crossings_of, scan_gate) (scan_gate-crossings_of gate b bs n found)
    | inr (c, crossed) ↦
        rw (crossed, crossings_of, scan_gate)
          (scan_gate-crossings_of gate b bs (suc n) (some c)
            ∙ ap (λ k. (k, latest (some c) (crossings_of gate b bs))) (omega arith))
  ]

  alone :
      {c : LapGateCrossing F} (cs : List (LapGateCrossing F))
      → only_one (0 + length cs, latest none cs) ≡ some c
      → cs ≡ c ∷ []
  alone [] e = ground arith
  alone (d ∷ []) e = ground arith
  alone (d ∷ d' ∷ ds) e = ground arith

  cross_once-only :
      (p : LapPoint F) (ps : List (LapPoint F)) (g : Gate F) (c : LapGateCrossing F)
      → cross_once p ps g ≡ some c
      → crossings_of (project_gate g) p ps ≡ c ∷ []
  unfolding cross_once
  cross_once-only p ps g c e =
      let scanned = scan_gate-crossings_of (project_gate g) p ps 0 none in
      alone (crossings_of (project_gate g) p ps) (ap only_one (sym scanned) ∙ e)

  -- Each gate with its crossing, which is the only one.
  abbrev pub EachOnce :
      LapPoint F → List (LapPoint F) → List (Gate F) → List (LapGateCrossing F) → Type 0
  EachOnce p ps [] [] = Unit {0}
  EachOnce p ps (g ∷ gs) (c ∷ cs) =
      (crossings_of (project_gate g) p ps ≡ c ∷ []) × EachOnce p ps gs cs
  EachOnce p ps _ _ = ⊥

  -- None of the times is at or before the one that precedes it.
  abbrev pub Rising : F → List (LapGateCrossing F) → F → Type 0
  Rising previous [] last = (last ≤? previous) ≡ false
  Rising previous (c ∷ cs) last = ((c.cross_ms ≤? previous) ≡ false) × Rising c.cross_ms cs last

  cross_each-EachOnce :
      (p : LapPoint F) (ps : List (LapPoint F)) (gs : List (Gate F)) (cs : List (LapGateCrossing F))
      → cross_each p ps gs ≡ some cs
      → EachOnce p ps gs cs
  unfolding cross_each
  cross_each-EachOnce p ps [] [] e = tt
  cross_each-EachOnce p ps [] (c ∷ cs) e = cc
  cross_each-EachOnce p ps (g ∷ gs) cs e = elim (Option-cases (cross_once p ps g)) [
    | inl missed ↦ absurd (ground arith)
    | inr (c, once) ↦ elim (Option-cases (cross_each p ps gs)) [
      | inl missed ↦ absurd (ground arith)
      | inr (ds, rest) ↦
          let shape : c ∷ ds ≡ cs = ground arith in
          subst (EachOnce p ps (g ∷ gs)) shape
            (cross_once-only p ps g c once, cross_each-EachOnce p ps gs ds rest)
    ]
  ]

  in_order-Rising :
      (previous last : F) (cs : List (LapGateCrossing F))
      → in_order previous cs last ≡ true
      → Rising previous cs last
  unfolding in_order
  in_order-Rising previous last [] e = ground arith
  in_order-Rising previous last (c ∷ cs) e = ground (arith, in_order-Rising c.cross_ms last cs)

  -- What the times of a lap by these gates are made of.
  abbrev pub TimedBy :
      LapPoint F → List (LapPoint F) → List (Gate F) → List (LapGateCrossing F) → Type 0
  TimedBy p ps gs cs = EachOnce p ps gs cs × Rising p.time_ms cs (last_of p ps).time_ms

  if_ordered-some :
      (first last : F) (o : Option (List (LapGateCrossing F))) (cs : List (LapGateCrossing F))
      → if_ordered first last o ≡ some cs
      → (o ≡ some cs) × (in_order first cs last ≡ true)
  if_ordered-some first last none cs e = cc
  if_ordered-some first last (some ds) cs e = elim (Bool-cases (in_order first ds last)) [
    | inl ordered ↦ ground arith
    | inr wrong ↦ absurd (ground arith)
  ]

  pub cross_gates-TimedBy :
      (p : LapPoint F) (ps : List (LapPoint F)) (gs : List (Gate F)) (cs : List (LapGateCrossing F))
      → cross_gates (p ∷ ps) gs ≡ some cs
      → TimedBy p ps gs cs
  unfolding cross_gates last_of
  cross_gates-TimedBy p [] [] cs e = cc
  cross_gates-TimedBy p [] (g ∷ gs) cs e = cc
  cross_gates-TimedBy p (q ∷ qs) [] cs e = cc
  cross_gates-TimedBy p (q ∷ qs) (g ∷ gs) cs e =
      let (each, ordered) =
        if_ordered-some p.time_ms (last_of q qs).time_ms (cross_each p (q ∷ qs) (g ∷ gs)) cs e in
      (
        cross_each-EachOnce p (q ∷ qs) (g ∷ gs) cs each,
        in_order-Rising p.time_ms (last_of q qs).time_ms cs ordered,
      )

  once-cross_once :
      (p : LapPoint F) (ps : List (LapPoint F)) (g : Gate F) (c : LapGateCrossing F)
      → crossings_of (project_gate g) p ps ≡ c ∷ []
      → cross_once p ps g ≡ some c
  unfolding cross_once
  once-cross_once p ps g c once =
      ap only_one (scan_gate-crossings_of (project_gate g) p ps 0 none)
      ∙ ap (λ l. only_one (0 + length l, latest none l)) once

  EachOnce-cross_each :
      (p : LapPoint F) (ps : List (LapPoint F)) (gs : List (Gate F)) (cs : List (LapGateCrossing F))
      → EachOnce p ps gs cs
      → cross_each p ps gs ≡ some cs
  unfolding cross_each
  EachOnce-cross_each p ps [] [] each = refl
  EachOnce-cross_each p ps [] (c ∷ cs) each = absurd each
  EachOnce-cross_each p ps (g ∷ gs) [] each = absurd each
  EachOnce-cross_each p ps (g ∷ gs) (c ∷ cs) (once, each) =
      let first = once-cross_once p ps g c once in
      let rest = EachOnce-cross_each p ps gs cs each in rw (first, rest, cross_each) refl

  Rising-in_order :
      (previous last : F) (cs : List (LapGateCrossing F))
      → Rising previous cs last
      → in_order previous cs last ≡ true
  unfolding in_order
  Rising-in_order previous last [] rising = ground arith
  Rising-in_order previous last (c ∷ cs) (later, rising) =
      ground (arith, Rising-in_order c.cross_ms last cs rising)

  TimedBy-cross_gates :
      (p q : LapPoint F) (qs : List (LapPoint F)) (g : Gate F) (gs : List (Gate F))
      (cs : List (LapGateCrossing F))
      → TimedBy p (q ∷ qs) (g ∷ gs) cs
      → cross_gates (p ∷ q ∷ qs) (g ∷ gs) ≡ some cs
  unfolding cross_gates last_of
  TimedBy-cross_gates p q qs g gs cs (each, rising) =
      let found = EachOnce-cross_each p (q ∷ qs) (g ∷ gs) cs each in
      let ordered = Rising-in_order p.time_ms (last_of q qs).time_ms cs rising in
      rw (found, ordered) refl

  -- On a lap of two points or more and one gate or more, the crossings are answered exactly if
  -- they are the only crossing of each gate among all hops of the lap, and their times rise from
  -- after the first point to before the last.
  pub cross_gates_lem :
      (p q : LapPoint F) (qs : List (LapPoint F)) (g : Gate F) (gs : List (Gate F))
      (cs : List (LapGateCrossing F))
      → (cross_gates (p ∷ q ∷ qs) (g ∷ gs) ≡ some cs) ↔ TimedBy p (q ∷ qs) (g ∷ gs) cs
  cross_gates_lem p q qs g gs cs =
      (cross_gates-TimedBy p (q ∷ qs) (g ∷ gs) cs, TimedBy-cross_gates p q qs g gs cs)

  length-EachOnce :
      (p : LapPoint F) (ps : List (LapPoint F)) (gs : List (Gate F)) (cs : List (LapGateCrossing F))
      → EachOnce p ps gs cs
      → length cs ≡ length gs
  length-EachOnce p ps [] [] each = refl
  length-EachOnce p ps [] (c ∷ cs) each = absurd each
  length-EachOnce p ps (g ∷ gs) [] each = absurd each
  length-EachOnce p ps (g ∷ gs) (c ∷ cs) (once, each) = ap suc (length-EachOnce p ps gs cs each)

  length-durations : (begin : F) (ends : List F) → length (durations begin ends) ≡ length ends
  unfolding durations
  length-durations begin [] = refl
  length-durations begin (end ∷ ends) = ap suc (length-durations end ends)

  length-boundaries :
      (cs : List (LapGateCrossing F)) (end : F)
      → length (map (λ c. c.cross_ms) cs ++ end ∷ []) ≡ suc (length cs)
  length-boundaries [] end = refl
  length-boundaries (c ∷ cs) end = ap suc (length-boundaries cs end)

  pub length-splits-some :
      (p : LapPoint F) (ps : List (LapPoint F)) (gs : List (Gate F)) (cs : List (LapGateCrossing F))
      → cross_gates (p ∷ ps) gs ≡ some cs
      → length (splits p ps (some cs)) ≡ suc (length gs)
  length-splits-some p ps gs cs e =
      length-durations p.time_ms _
      ∙ length-boundaries cs _
      ∙ ap suc (length-EachOnce p ps gs cs (cross_gates-TimedBy p ps gs cs e).0)

  length-splits :
      (p : LapPoint F) (ps : List (LapPoint F)) (gs : List (Gate F))
      (o : Option (List (LapGateCrossing F)))
      → cross_gates (p ∷ ps) gs ≡ o
      → (splits p ps o ≡ []) ⊎ (length (splits p ps o) ≡ suc (length gs))
  length-splits p ps gs none e = inl refl
  length-splits p ps gs (some cs) e = inr (length-splits-some p ps gs cs e)

  length-fractions :
      (p : LapPoint F) (ps : List (LapPoint F)) (total_m : F) (count i n : ℕ)
      → length (fractions p ps total_m count i n) ≡ n
  unfolding fractions
  length-fractions p ps total_m count i zero = refl
  length-fractions p ps total_m count i (suc n) =
      ap suc (length-fractions p ps total_m count (suc i) n)

  if-length :
      (b : Bool) (xs : List F) (n : ℕ)
      → length xs ≡ n
      → ((if b then [] else xs) ≡ []) ⊎ (length (if b then [] else xs) ≡ n)
  if-length true xs n e = inl refl
  if-length false xs n e = inr e

  length-by_distance :
      (p : LapPoint F) (ps : List (LapPoint F)) (count : ℕ)
      → (sector_times (p ∷ ps) count ≡ []) ⊎ (length (sector_times (p ∷ ps) count) ≡ count)
  unfolding sector_times
  length-by_distance p ps zero = inl refl
  length-by_distance p [] (suc n) = inl refl
  length-by_distance p (q ∷ qs) (suc n) = if-length _ _ (suc n) (
      length-durations p.time_ms _
      ∙ length-append (fractions p (q ∷ qs) _ (suc n) 1 n) _
      ∙ ap (λ k. k + 1) (length-fractions p (q ∷ qs) _ (suc n) 1 n)
      ∙ omega arith)

  -- On a lap that has a point, the sector times by gates are none or one more than the gates,
  -- and those by distance none or as many as were asked for.
  pub length-sector_times :
      (p : LapPoint F) (ps : List (LapPoint F)) (gs : List (Gate F)) (count : ℕ)
      → ((sector_times_from_gates (p ∷ ps) gs ≡ [])
          ⊎ (length (sector_times_from_gates (p ∷ ps) gs) ≡ suc (length gs)))
        × ((sector_times (p ∷ ps) count ≡ []) ⊎ (length (sector_times (p ∷ ps) count) ≡ count))
  unfolding sector_times_from_gates
  length-sector_times p ps gs count = (length-splits p ps gs _ refl, length-by_distance p ps count)
