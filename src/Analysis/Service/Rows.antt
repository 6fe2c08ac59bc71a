-- ===== src/Analysis/Service/Rows.antt =====
-- analysis.service.ts and laps.repository.ts: the rows that a derivation writes.
use mathlib.Core.Path.{subst}
use mathlib.Core.List.{append-nil, append_assoc}
use kab23_motorsport_telemet.Prelude.{
  ℕ, suc, ◌+◌, ◌≤◌, ◌<◌, ◌≡◌, refl, ap, sym, ◌∙◌, String, Bool, false, ◌&&◌, List, [], ◌∷◌, ◌++◌,
  map, any, count, count-append, count-weaken, count-any, reject, Option, none, some, length, leb,
  Bool-cases, inl, inr, arith, eq_iff,
}
use kab23_motorsport_telemet.Analysis.Numbers.{Numbers, ◌<?◌}
use kab23_motorsport_telemet.Analysis.Points.{AnalysisSample, DerivedLap, Gate, LapPath}
use kab23_motorsport_telemet.Analysis.Crossing.{project_gate}
use kab23_motorsport_telemet.Analysis.Segmenter.{
  LapSegmenter, Options, push_all, fresh, segment_laps,
}
use kab23_motorsport_telemet.Analysis.Segmenter.Laps.{Chain, Segments, push_all-fresh-IsSound}
use kab23_motorsport_telemet.Analysis.Laps.{
  Lap, LapsTable, of_session, same_lap, insert_new, insert_ignoring_duplicates, replace_session,
}
use kab23_motorsport_telemet.Analysis.Office.{
  rows_from, fastest_from, fastest_lap, to_rows, regated,
}

module _ {F : Type 0} where
  -- Rows of a session, numbered from this number on.
  abbrev pub Numbered : String → ℕ → List (Lap F) → Type 0
  Numbered session_id n [] = Unit {0}
  Numbered session_id n (l ∷ ls) =
      (l.session_id ≡ session_id) × (l.lap_number ≡ n) × Numbered session_id (suc n) ls

  abbrev at_or_after : String → ℕ → Lap F → Bool
  at_or_after session_id n l = of_session session_id l && leb n l.lap_number

  pub insert_new-fresh :
      (session_id : String) (n : ℕ) (ls rows : List (Lap F))
      → Numbered session_id n ls
      → count (at_or_after session_id n) rows ≡ 0
      → insert_new ls rows ≡ rows ++ ls
  unfolding insert_new
  insert_new-fresh session_id n [] rows numbered free = sym (append-nil rows)
  insert_new-fresh session_id n (l ∷ ls) rows (own, number, numbered) free =
      let no_clash : any (same_lap l) rows ≡ false = count-any (same_lap l) rows (
        count-weaken (same_lap l) (at_or_after session_id n) rows
          (λ r. ground (arith, eq_iff l.session_id r.session_id, eq_iff r.session_id session_id))
          free) in
      let free' : count (at_or_after session_id (suc n)) (rows ++ l ∷ []) ≡ 0 = ground (
        arith,
        count-append (at_or_after session_id (suc n)) rows (l ∷ []),
        count-weaken (at_or_after session_id (suc n)) (at_or_after session_id n) rows
            (λ r. ground arith),
      ) in
      rw no_clash (
        insert_new-fresh session_id (suc n) ls (rows ++ l ∷ []) numbered free'
        ∙ append_assoc rows (l ∷ []) ls)

  rejected :
      (session_id : String) (n : ℕ) (rows : List (Lap F))
      → count (at_or_after session_id n) (reject (of_session session_id) rows) ≡ 0
  rejected session_id n [] = refl
  rejected session_id n (r ∷ rs) = ground (arith, rejected session_id n rs)

  -- One table in which this session's laps have been exchanged for these.
  pub replace_session-rows :
      (table : LapsTable F) (session_id : String) (n : ℕ) (ls : List (Lap F)) (t t' : table.Table)
      → Numbered session_id n ls
      → replace_session table session_id ls t ≡ some t'
      → table.rows t' ≡ reject (of_session session_id) (table.rows t) ++ ls
  unfolding replace_session
  replace_session-rows table session_id n [] t t' numbered e =
      let same : table.delete session_id t ≡ t' = ground arith in
      ap table.rows (sym same)
      ∙ table.delete_lem session_id t
      ∙ sym (append-nil (reject (of_session session_id) (table.rows t)))
  replace_session-rows table session_id n (l ∷ ls) t t' numbered e =
      table.insert_or_ignore_lem (l ∷ ls) (table.delete session_id t) t' e
      ∙ ap (insert_new (l ∷ ls)) (table.delete_lem session_id t)
      ∙ insert_new-fresh session_id n (l ∷ ls) (reject (of_session session_id) (table.rows t))
          numbered (rejected session_id n (table.rows t))

  pub insert_ignoring_duplicates-rows :
      (table : LapsTable F) (ls : List (Lap F)) (t t' : table.Table)
      → insert_ignoring_duplicates table ls t ≡ some t'
      → table.rows t' ≡ insert_new ls (table.rows t)
  unfolding insert_ignoring_duplicates insert_new
  insert_ignoring_duplicates-rows table [] t t' e =
      let same : t ≡ t' = ground arith in ap table.rows (sym same)
  insert_ignoring_duplicates-rows table (l ∷ ls) t t' e = table.insert_or_ignore_lem (l ∷ ls) t t' e

  -- Laps that are numbered from this number on.
  abbrev pub Consecutive : ℕ → List (DerivedLap F) → Type 0
  Consecutive n [] = Unit {0}
  Consecutive n (l ∷ ls) = (l.lap_number ≡ n) × Consecutive (suc n) ls

  rows_from-Numbered :
      (session_id : String) (best i n : ℕ) (ls : List (DerivedLap F))
      → Consecutive n ls
      → Numbered session_id n (rows_from session_id best i ls)
  unfolding rows_from
  rows_from-Numbered session_id best i n [] numbers = tt
  rows_from-Numbered session_id best i n (l ∷ ls) (number, numbers) =
      (refl, number, rows_from-Numbered session_id best (suc i) (suc n) ls numbers)

  abbrev pub best_row : Lap F → Bool
  best_row l = l.is_best

  no_best :
      (session_id : String) (best i : ℕ) (ls : List (DerivedLap F))
      → best < i
      → count best_row (rows_from session_id best i ls) ≡ 0
  unfolding rows_from
  no_best session_id best i [] past = refl
  no_best session_id best i (l ∷ ls) past = ground (arith, no_best session_id best (suc i) ls)

  one_best :
      (session_id : String) (best i : ℕ) (ls : List (DerivedLap F))
      → i ≤ best
      → best < i + length ls
      → count best_row (rows_from session_id best i ls) ≡ 1
  unfolding rows_from
  one_best session_id best i [] ahead inside = absurd (omega arith)
  one_best session_id best i (l ∷ ls) ahead inside =
      ground (arith, no_best session_id best (suc i) ls, one_best session_id best (suc i) ls)

module _ {F : Type 0} ⦃num : Numbers F⦄ where
  fastest_from-inside :
      (best : ℕ × DerivedLap F) (i : ℕ) (ls : List (DerivedLap F))
      → best.0 < i
      → (fastest_from best i ls).0 < i + length ls
  unfolding fastest_from
  fastest_from-inside best i [] inside = omega arith
  fastest_from-inside best i (l ∷ ls) inside = elim (Bool-cases (l.lap_ms <? best.1.lap_ms)) [
    | inl faster ↦
        rw (faster, fastest_from)
          (omega (arith, fastest_from-inside (i, l) (suc i) ls (omega arith)))
    | inr slower ↦
        rw (slower, fastest_from) (omega (arith, fastest_from-inside best (suc i) ls (omega arith)))
  ]

  -- The rows of laps, one for each, of which one is the best.
  pub to_rows-one_best :
      (session_id : String) (l : DerivedLap F) (ls : List (DerivedLap F))
      → count best_row (to_rows session_id l ls) ≡ 1
  unfolding to_rows fastest_lap
  to_rows-one_best session_id l ls =
      one_best session_id (fastest_lap l ls).0 0 (l ∷ ls) (omega arith)
        (omega (arith, fastest_from-inside (0, l) 1 ls (omega arith)))

  pub to_rows-Numbered :
      (session_id : String) (l : DerivedLap F) (ls : List (DerivedLap F))
      → Consecutive 1 (l ∷ ls)
      → Numbered session_id 1 (to_rows session_id l ls)
  unfolding to_rows
  to_rows-Numbered session_id l ls numbers =
      rows_from-Numbered session_id (fastest_lap l ls).0 0 1 (l ∷ ls) numbers

  Chain-Consecutive :
      (n number : ℕ) (ls : List (DerivedLap F)) (path : LapPath F)
      → Chain n ls number path
      → Consecutive n ls
  Chain-Consecutive n number [] path chain = tt
  Chain-Consecutive n number (l ∷ ls) path (here, lap, meets, chain) =
      (here, Chain-Consecutive (suc n) number ls path chain)

  Segments-Consecutive :
      (s : LapSegmenter F) (o : Option (LapPath F)) → Segments s o → Consecutive 1 s.laps
  Segments-Consecutive s none (no_laps, number, latch) = subst (Consecutive 1) (sym no_laps) tt
  Segments-Consecutive s (some path) (latch, chain) =
      Chain-Consecutive 1 s.lap_number s.laps path chain

  pub segment_laps-Consecutive :
      (samples : List (AnalysisSample F)) (gate : Gate F) (sector_count : ℕ)
      (sector_gates : Option (List (Gate F)))
      → Consecutive 1 (segment_laps samples gate sector_count sector_gates)
  unfolding segment_laps
  segment_laps-Consecutive samples gate sector_count sector_gates =
      let options : Options F = record {
        gate = project_gate gate;
        sector_count = sector_count;
        sector_gates = sector_gates;
      } in
      let done = push_all options samples fresh in
      Segments-Consecutive done done.points (push_all-fresh-IsSound options samples)

  pub regated-Consecutive :
      (n : ℕ) (set : List (Gate F)) (ls : List (DerivedLap F))
      → Consecutive n ls
      → Consecutive n (map (regated set) ls)
  regated-Consecutive n set [] numbers = tt
  regated-Consecutive n set (l ∷ ls) (number, numbers) =
      (number, regated-Consecutive (suc n) set ls numbers)
