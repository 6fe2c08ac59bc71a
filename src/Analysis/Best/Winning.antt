-- ===== src/Analysis/Best/Winning.antt =====
-- The laps that win the sectors, among all laps that were given.
use kab23_motorsport_telemet.Prelude.{
  ℕ, suc, ◌≡◌, refl, Bool, true, false, List, [], ◌∷◌, some, select, length, inl, inr, ap, ◌∙◌,
  if◌then◌else◌, ◌⊎◌, arith, All,
}
use kab23_motorsport_telemet.Analysis.Numbers.{Numbers, IsOrdered, ◌<?◌, whole}
use kab23_motorsport_telemet.Analysis.Best.{
  SectoredLap, BestSector, OptimalLapCore, every_timed, is_eligible, best_sector, pick_best_sectors,
}
use kab23_motorsport_telemet.Analysis.Best.Minimal.{Mem, NoBetter, Winners, combine-Winners}

module _ {F : Type 0} ⦃num : Numbers F⦄ where
  -- A finite time above zero.
  abbrev pub IsTime : F → Type 0
  IsTime ms = (num.is_finite ms ≡ true) × ((whole 0 <? ms) ≡ true)

  -- The lap has a valid time for each sector.
  abbrev pub Eligible : ℕ → SectoredLap F → Type 0
  Eligible count lap = (length lap.sector_ms ≡ count) × All IsTime lap.sector_ms

  every_timed-All : (times : List F) → every_timed times ≡ true → All IsTime times
  unfolding every_timed
  every_timed-All [] timed = tt
  every_timed-All (x ∷ xs) timed = ((ground arith, ground arith), every_timed-All xs (ground arith))

  All-every_timed : (times : List F) → All IsTime times → every_timed times ≡ true
  unfolding every_timed
  All-every_timed [] all = refl
  All-every_timed (x ∷ xs) ((finite, positive), all) =
      let rest = All-every_timed xs all in ground arith

  is_eligible-Eligible :
      (count : ℕ) (lap : SectoredLap F) → is_eligible count lap ≡ true → Eligible count lap
  unfolding is_eligible
  is_eligible-Eligible count lap e = (ground arith, every_timed-All lap.sector_ms (ground arith))

  not_Eligible :
      (count : ℕ) (lap : SectoredLap F) → is_eligible count lap ≡ false → ¬ Eligible count lap
  unfolding is_eligible
  not_Eligible count lap e (size, all) =
      let timed = All-every_timed lap.sector_ms all in ground arith

  module _ (laws : IsOrdered F) where
    Mem-select :
        (count : ℕ) (w : SectoredLap F) (laps : List (SectoredLap F))
        → Mem laws w (select (is_eligible count) laps)
        → Mem laws w laps × (is_eligible count w ≡ true)
    Mem-select count w [] there = absurd there
    Mem-select count w (l ∷ ls) there =
        pick (is_eligible count l) refl (λ rest. Mem-select count w ls rest) there
      where
        pick :
            (b : Bool)
            → is_eligible count l ≡ b
            → (Mem laws w (select (is_eligible count) ls)
                → Mem laws w ls × (is_eligible count w ≡ true))
            → Mem laws w
                (if b then l ∷ select (is_eligible count) ls else select (is_eligible count) ls)
            → Mem laws w (l ∷ ls) × (is_eligible count w ≡ true)
        pick true e on (inl same) = (inl same, ap (is_eligible count) same ∙ e)
        pick true e on (inr rest) = let (given, timed) = on rest in (inr given, timed)
        pick false e on rest = let (given, timed) = on rest in (inr given, timed)

    -- This lap is not to be compared, or is no better.
    abbrev pub IsBeaten : ℕ → ℕ → SectoredLap F → SectoredLap F → Type 0
    IsBeaten count i w l = (¬ Eligible count l) ⊎ NoBetter laws i w l

    All-select :
        (count i : ℕ) (w : SectoredLap F) (laps : List (SectoredLap F))
        → All (NoBetter laws i w) (select (is_eligible count) laps)
        → All (IsBeaten count i w) laps
    All-select count i w [] all = tt
    All-select count i w (l ∷ ls) all =
        pick (is_eligible count l) refl (λ rest. All-select count i w ls rest) all
      where
        pick :
            (b : Bool)
            → is_eligible count l ≡ b
            → (All (NoBetter laws i w) (select (is_eligible count) ls)
                → All (IsBeaten count i w) ls)
            → All
                (NoBetter laws i w)
                (if b then l ∷ select (is_eligible count) ls else select (is_eligible count) ls)
            → IsBeaten count i w l × All (IsBeaten count i w) ls
        pick true e on (here, rest) = (inr here, on rest)
        pick false e on rest = (inl (not_Eligible count l e), on rest)

    -- Each sector from `i` on: the time of an eligible lap that no eligible lap beats there.
    abbrev pub Wins : ℕ → List (SectoredLap F) → ℕ → List (BestSector F) → Type 0
    Wins count laps i [] = Unit {0}
    Wins count laps i (s ∷ ss) =
        ((w : SectoredLap F) × (s ≡ best_sector i w)
          × Mem laws w laps
          × Eligible count w
          × All (IsBeaten count i w) laps)
        × Wins count laps (suc i) ss

    Winners-Wins :
        (count : ℕ) (laps : List (SectoredLap F)) (i : ℕ) (ss : List (BestSector F))
        → Winners laws (select (is_eligible count) laps) i ss
        → Wins count laps i ss
    Winners-Wins count laps i [] winners = tt
    Winners-Wins count laps i (s ∷ ss) ((w, same, there, all), winners) =
        let (given, timed) = Mem-select count w laps there in
        (
          (w, same, given, is_eligible-Eligible count w timed, All-select count i w laps all),
          Winners-Wins count laps (suc i) ss winners,
        )

    -- Where comparison has the laws of IEEE 754, an optimal lap has one entry for each sector:
    -- the time of an eligible lap that no eligible lap beats there, with a smaller time or with
    -- an equal time and a smaller number. A lap is eligible if it has a finite time above zero
    -- for each sector and for no other.
    pub pick_best_sectors-Wins :
        (laps : List (SectoredLap F)) (count : ℕ) (core : OptimalLapCore F)
        → pick_best_sectors laps count ≡ some core
        → Wins count laps 0 core.sectors × (length core.sectors ≡ count)
    unfolding pick_best_sectors
    pick_best_sectors-Wins laps count core e =
        let (winners, size) = combine-Winners laws (select (is_eligible count) laps) count core e in
        (Winners-Wins count laps 0 core.sectors winners, size)
