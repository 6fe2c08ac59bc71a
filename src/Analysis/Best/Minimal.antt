-- ===== src/Analysis/Best/Minimal.antt =====
-- The optimal lap against each lap that it is made of.
use mathlib.Core.Path.{subst}
use kab23_motorsport_telemet.Prelude.{
  ℕ, zero, suc, ◌+◌, ◌<◌, ◌≤◌, ◌≡◌, refl, sym, ap, ◌∙◌, true, false, List, [], ◌∷◌, some, select,
  length, Bool-cases, inl, inr, ◌⊎◌, arith, All,
}
use kab23_motorsport_telemet.Analysis.Numbers.{Numbers, IsOrdered, ◌⊕◌, ◌<?◌, ◌≤?◌, ◌=?◌, whole}
use kab23_motorsport_telemet.Analysis.Best.{
  SectoredLap, BestSector, OptimalLapCore, every_timed, is_eligible, split_at, split_of, is_better,
  best_of, best_sector, best_sectors, total_ms, combine, pick_best_sectors,
}
use kab23_motorsport_telemet.Analysis.Best.Order.{best_of-All, best_of-minimal}

module _ {F : Type 0} ⦃num : Numbers F⦄ (laws : IsOrdered F) where
  -- In the list of this lap's sector times the rest from `i` on is this.
  abbrev Suffix : ℕ → List F → List F → Type 0
  Suffix zero full rest = full ≡ rest
  Suffix (suc i) [] rest = ⊥
  Suffix (suc i) (x ∷ full) rest = Suffix i full rest

  Suffix-split_at :
      (i : ℕ) (full : List F) (x : F) (rest : List F)
      → Suffix i full (x ∷ rest)
      → (split_at i full ≡ x) × Suffix (suc i) full rest
  unfolding split_at
  Suffix-split_at zero [] x rest s = cc
  Suffix-split_at zero (y ∷ full) x rest s = (ground arith, ground arith)
  Suffix-split_at (suc i) [] x rest s = elim s [ ]
  Suffix-split_at (suc i) (y ∷ full) x rest s = Suffix-split_at i full x rest s

  -- An eligible lap's time of a sector that there is, is a number above zero.
  timed_split :
      (i : ℕ) (times : List F)
      → every_timed times ≡ true
      → i < length times
      → (num.is_finite (split_at i times) ≡ true) × ((whole 0 <? split_at i times) ≡ true)
  unfolding every_timed split_at
  timed_split i [] timed inside = absurd (omega arith)
  timed_split zero (x ∷ xs) timed inside = (ground arith, ground arith)
  timed_split (suc i) (x ∷ xs) timed inside = timed_split i xs (ground arith) (omega arith)

  -- What holds of an eligible lap.
  abbrev Timed : ℕ → SectoredLap F → Type 0
  Timed count lap = (length lap.sector_ms ≡ count) × (every_timed lap.sector_ms ≡ true)

  eligible-Timed :
      (count : ℕ) (lap : SectoredLap F) → is_eligible count lap ≡ true → Timed count lap
  unfolding is_eligible
  eligible-Timed count lap e = (ground arith, ground arith)

  select-All :
      (count : ℕ) (laps : List (SectoredLap F))
      → All (Timed count) (select (is_eligible count) laps)
  select-All count [] = tt
  select-All count (lap ∷ laps) = elim (Bool-cases (is_eligible count lap)) [
    | inl timed ↦ rw timed (eligible-Timed count lap timed, select-All count laps)
    | inr other ↦ rw other (select-All count laps)
  ]

  -- The best time of a sector is at most that of a lap which is not better.
  best-at_most :
      (i count : ℕ) (lap best : SectoredLap F)
      → i < count
      → Timed count lap
      → Timed count best
      → is_better i lap best ≡ false
      → (split_of i best ≤? split_of i lap) ≡ true
  unfolding is_better
  best-at_most i count lap best inside (size, timed) (size', timed') worse =
      let (finite, positive) = timed_split i lap.sector_ms timed (omega arith) in
      let (finite', positive') = timed_split i best.sector_ms timed' (omega arith) in
      laws.not_lt (split_of i lap) (split_of i best) (laws.finite_eq _ finite)
        (laws.finite_eq _ finite') (ground arith)

  -- The sum in the order of `reduce`.
  unfoldable pub sum_ms : F → List F → F
  sum_ms sum [] = sum
  sum_ms sum (x ∷ xs) = sum_ms (sum ⊕ x) xs

  at_most-total_ms :
      (first : SectoredLap F) (laps : List (SectoredLap F)) (count n i : ℕ) (rest : List F)
      (lap : SectoredLap F) (low high : F)
      → i + n ≡ count
      → Timed count first
      → All (Timed count) laps
      → Timed count lap
      → ((j : ℕ) → is_better j lap (best_of j first (first ∷ laps)) ≡ false)
      → Suffix i lap.sector_ms rest
      → length rest ≡ n
      → (whole 0 ≤? low) ≡ true
      → (low ≤? high) ≡ true
      → (total_ms low (best_sectors first laps i n) ≤? sum_ms high rest) ≡ true
  unfolding total_ms best_sectors sum_ms
  at_most-total_ms first laps count zero i [] lap low high e a b c least s size zl lh = lh
  at_most-total_ms first laps count zero i (x ∷ rest) lap low high e a b c least s size zl lh =
      absurd (omega arith)
  at_most-total_ms first laps count (suc n) i [] lap low high e a b c least s size zl lh =
      absurd (omega arith)
  at_most-total_ms first laps count (suc n) i (x ∷ rest) lap low high e a b c least s size zl lh =
      let best = best_of i first (first ∷ laps) in
      let best_timed = best_of-All laws (Timed count) i first (first ∷ laps) a (a, b) in
      let (here, further) = Suffix-split_at i lap.sector_ms x rest s in
      let below = best-at_most i count lap best (omega arith) c best_timed (least i) in
      let positive =
        laws.lt_le _ _
          (timed_split i best.sector_ms best_timed.1 (omega (arith, best_timed.0))).1 in
      at_most-total_ms first laps count n (suc i) rest lap (low ⊕ split_of i best) (high ⊕ x)
        (omega arith) a b c least further (omega arith)
        (laws.sum_positive low (split_of i best) zl positive)
        (laws.sum_le low high (split_of i best) x zl positive lh
          (ap (λ (t : F). split_of i best ≤? t) (sym here) ∙ below))

  abbrev pub Mem : SectoredLap F → List (SectoredLap F) → Type 0
  Mem l [] = ⊥
  Mem l (x ∷ xs) = (l ≡ x) ⊎ Mem l xs

  Mem-All :
      (P : SectoredLap F → Type 0) (l : SectoredLap F) (xs : List (SectoredLap F))
      → Mem l xs
      → All P xs
      → P l
  Mem-All P l [] there all = absurd there
  Mem-All P l (x ∷ xs) (inl same) (here, all) = subst P (sym same) here
  Mem-All P l (x ∷ xs) (inr there) (here, all) = Mem-All P l xs there all

  All-weaken :
      (x : SectoredLap F) (ys xs : List (SectoredLap F))
      → All (λ l. Mem l ys) xs
      → All (λ l. (l ≡ x) ⊎ Mem l ys) xs
  All-weaken x ys [] all = tt
  All-weaken x ys (z ∷ zs) (here, all) = (inr here, All-weaken x ys zs all)

  All-Mem : (xs : List (SectoredLap F)) → All (λ l. Mem l xs) xs
  All-Mem [] = tt
  All-Mem (x ∷ xs) = (inl refl, All-weaken x xs xs (All-Mem xs))

  -- No lap of the list is better in any sector than the best in it.
  never_better :
      (first : SectoredLap F) (laps : List (SectoredLap F)) (lap : SectoredLap F) (j : ℕ)
      → Mem lap (first ∷ laps)
      → is_better j lap (best_of j first (first ∷ laps)) ≡ false
  never_better first laps lap j there =
      Mem-All (λ l. is_better j l (best_of j first (first ∷ laps)) ≡ false) lap (first ∷ laps) there
        (best_of-minimal laws j first (first ∷ laps)).1

  -- In this sector the lap `l` has no smaller time than `w`, and no equal one with a smaller number.
  abbrev pub NoBetter : ℕ → SectoredLap F → SectoredLap F → Type 0
  NoBetter i w l =
      ((split_of i l <? split_of i w) ≡ false)
      × (((split_of i l =? split_of i w) ≡ false) ⊎ (w.lap_number ≤ l.lap_number))

  is_better-NoBetter : (i : ℕ) (w l : SectoredLap F) → is_better i l w ≡ false → NoBetter i w l
  unfolding is_better
  is_better-NoBetter i w l worse = (
    ground arith,
    elim (Bool-cases (split_of i l =? split_of i w)) [
      | inl same ↦ inr (ground (arith, same))
      | inr other ↦ inl other
    ],
  )

  All-NoBetter :
      (i : ℕ) (w : SectoredLap F) (laps : List (SectoredLap F))
      → All (λ l. is_better i l w ≡ false) laps
      → All (NoBetter i w) laps
  All-NoBetter i w [] worse = tt
  All-NoBetter i w (l ∷ ls) (here, worse) =
      (is_better-NoBetter i w l here, All-NoBetter i w ls worse)

  -- Each sector from `i` on: the time of a lap of the list that no lap of the list beats there.
  abbrev pub Winners : List (SectoredLap F) → ℕ → List (BestSector F) → Type 0
  Winners laps i [] = Unit {0}
  Winners laps i (s ∷ ss) =
      ((w : SectoredLap F) × (s ≡ best_sector i w) × Mem w laps × All (NoBetter i w) laps)
      × Winners laps (suc i) ss

  best_sectors-Winners :
      (first : SectoredLap F) (laps : List (SectoredLap F)) (i n : ℕ)
      → Winners (first ∷ laps) i (best_sectors first laps i n)
        × (length (best_sectors first laps i n) ≡ n)
  unfolding best_sectors
  best_sectors-Winners first laps i zero = (tt, refl)
  best_sectors-Winners first laps i (suc n) =
      let (rest, size) = best_sectors-Winners first laps (suc i) n in
      let (least, all, from) = best_of-minimal laws i first (first ∷ laps) in
      (
        (
          (
            best_of i first (first ∷ laps),
            refl,
            best_of-All laws (λ l. Mem l (first ∷ laps)) i first (first ∷ laps) (inl refl)
                (All-Mem (first ∷ laps)),
            All-NoBetter i (best_of i first (first ∷ laps)) (first ∷ laps) all,
          ),
          rest,
        ),
        ap suc size,
      )

  pub combine-Winners :
      (laps : List (SectoredLap F)) (count : ℕ) (core : OptimalLapCore F)
      → combine count laps ≡ some core
      → Winners laps 0 core.sectors × (length core.sectors ≡ count)
  unfolding combine
  combine-Winners [] count core e = cc
  combine-Winners (l ∷ []) count core e = cc
  combine-Winners (l ∷ m ∷ ls) count core e =
      subst (λ ss. Winners (l ∷ m ∷ ls) 0 ss × (length ss ≡ count)) (ground arith)
        (best_sectors-Winners l (m ∷ ls) 0 count)

  combine-at_most :
      (laps : List (SectoredLap F)) (count : ℕ) (core : OptimalLapCore F) (lap : SectoredLap F)
      → combine count laps ≡ some core
      → All (Timed count) laps
      → Mem lap laps
      → (core.lap_ms ≤? sum_ms (whole 0) lap.sector_ms) ≡ true
  unfolding combine
  combine-at_most [] count core lap e timed there = cc
  combine-at_most (l ∷ []) count core lap e timed there = cc
  combine-at_most (l ∷ m ∷ ls) count core lap e (first, timed) there =
      let (size, mine) = Mem-All (Timed count) lap (l ∷ m ∷ ls) there (first, timed) in
      let below =
        at_most-total_ms l (m ∷ ls) count count 0 lap.sector_ms lap (whole 0) (whole 0)
          (omega arith) first timed (size, mine) (λ j. never_better l (m ∷ ls) lap j there) refl
          size laws.zero_le laws.zero_le in
      subst (λ t. (t ≤? sum_ms (whole 0) lap.sector_ms) ≡ true) (ground arith) below

  -- Where comparison and addition have the laws of IEEE 754, the optimal lap takes at most as
  -- long as the sectors of any eligible lap together.
  pub pick_best_sectors-at_most :
      (laps : List (SectoredLap F)) (count : ℕ) (core : OptimalLapCore F) (lap : SectoredLap F)
      → pick_best_sectors laps count ≡ some core
      → Mem lap (select (is_eligible count) laps)
      → (core.lap_ms ≤? sum_ms (whole 0) lap.sector_ms) ≡ true
  unfolding pick_best_sectors
  pick_best_sectors-at_most laps count core lap e there =
      combine-at_most (select (is_eligible count) laps) count core lap e (select-All count laps)
        there
