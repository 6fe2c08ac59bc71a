-- ===== src/Analysis/Best.antt =====
-- optimal-lap-core.ts: the combination of the best sectors of the laps.
pub mod Order
pub mod Minimal
pub mod Winning
use kab23_motorsport_telemet.Prelude.{
  ℕ, zero, suc, ◌+◌, ◌≡◌, Bool, true, false, ◌&&◌, ◌||◌, List, [], ◌∷◌, Option, none, some, select,
  length, find, ltb, ◌=ⁿ◌, if◌then◌else◌,
}
use kab23_motorsport_telemet.Analysis.Numbers.{Numbers, ◌⊕◌, ◌⊘◌, ◌<?◌, ◌=?◌, whole}

pub record SectoredLap (F : Type 0) : Type 0 where
  pub lap_number : ℕ
  pub lap_ms : F
  pub distance_m : F
  pub sector_ms : List F

pub record BestSector (F : Type 0) : Type 0 where
  pub sector : ℕ
  pub lap_number : ℕ
  pub sector_ms : F

pub record OptimalLapCore (F : Type 0) : Type 0 where
  pub lap_ms : F
  pub distance_m : F
  pub sectors : List (BestSector F)
  pub matches_lap_number : Option ℕ

module _ {F : Type 0} ⦃num : Numbers F⦄ where
  unfoldable pub every_timed : List F → Bool
  every_timed [] = true
  every_timed (ms ∷ rest) = num.is_finite ms && whole 0 <? ms && every_timed rest

  -- The lap has a complete and valid set of splits.
  unfoldable pub is_eligible : ℕ → SectoredLap F → Bool
  unfolding every_timed
  is_eligible count lap = length lap.sector_ms =ⁿ count && every_timed lap.sector_ms

  -- `sectorMs[i]`; an eligible lap has one for each sector.
  unfoldable pub split_at : ℕ → List F → F
  split_at i [] = whole 0
  split_at zero (ms ∷ rest) = ms
  split_at (suc i) (ms ∷ rest) = split_at i rest

  abbrev pub split_of : ℕ → SectoredLap F → F
  split_of i lap = split_at i lap.sector_ms

  unfoldable pub is_better : ℕ → SectoredLap F → SectoredLap F → Bool
  is_better i lap winner =
      split_of i lap <? split_of i winner
      || split_of i lap =? split_of i winner && ltb lap.lap_number winner.lap_number

  unfoldable pub best_of : ℕ → SectoredLap F → List (SectoredLap F) → SectoredLap F
  unfolding is_better
  best_of i winner [] = winner
  best_of i winner (lap ∷ laps) = best_of i (if is_better i lap winner then lap else winner) laps

  abbrev pub best_sector : ℕ → SectoredLap F → BestSector F
  best_sector i winner = record {
    sector = i;
    lap_number = winner.lap_number;
    sector_ms = split_of i winner;
  }

  -- The best sectors for `n` values of i from this one on; the laps start with the first.
  unfoldable pub best_sectors : SectoredLap F → List (SectoredLap F) → ℕ → ℕ → List (BestSector F)
  unfolding best_of
  best_sectors first laps i zero = []
  best_sectors first laps i (suc n) =
      best_sector i (best_of i first (first ∷ laps)) ∷ best_sectors first laps (suc i) n

  unfoldable pub total_ms : F → List (BestSector F) → F
  total_ms sum [] = sum
  total_ms sum (s ∷ ss) = total_ms (sum ⊕ s.sector_ms) ss

  -- The lap of this number, which is there.
  abbrev pub distance_of : List (SectoredLap F) → ℕ → F
  distance_of laps number = elim (find (λ l. l.lap_number =ⁿ number) laps) [
    | none ↦ whole 0
    | some l ↦ l.distance_m
  ]

  unfoldable pub total_distance : List (SectoredLap F) → ℕ → F → List (BestSector F) → F
  total_distance laps count sum [] = sum
  total_distance laps count sum (s ∷ ss) =
      total_distance laps count (sum ⊕ distance_of laps s.lap_number ⊘ whole count) ss

  unfoldable pub all_from : ℕ → List (BestSector F) → Bool
  all_from number [] = true
  all_from number (s ∷ ss) = s.lap_number =ⁿ number && all_from number ss

  -- Of no sectors at all the code reads the first and throws; the count of sectors is 3.
  abbrev pub matching : List (BestSector F) → Option ℕ
  matching [] = none
  matching (s ∷ ss) = if all_from s.lap_number (s ∷ ss) then some s.lap_number else none

  unfoldable pub combine : ℕ → List (SectoredLap F) → Option (OptimalLapCore F)
  unfolding best_sectors total_ms total_distance all_from
  combine count [] = none
  combine count (lap ∷ []) = none
  combine count (first ∷ second ∷ laps) =
      let sectors = best_sectors first (second ∷ laps) 0 count in
      some (record {
        lap_ms = total_ms (whole 0) sectors;
        distance_m = total_distance (first ∷ second ∷ laps) count (whole 0) sectors;
        sectors = sectors;
        matches_lap_number = matching sectors;
      })

  unfoldable pub pick_best_sectors : List (SectoredLap F) → ℕ → Option (OptimalLapCore F)
  unfolding is_eligible combine
  pick_best_sectors laps count = combine count (select (is_eligible count) laps)
