-- ===== src/Analysis/Best/Order.antt =====
-- The order of the laps by their times in one sector, and the first of them in it.
use kab23_motorsport_telemet.Prelude.{
  ℕ, ◌≡◌, refl, ap, ◌∙◌, Bool, true, false, List, [], ◌∷◌, if◌then◌else◌, inl, inr, ◌⊎◌, arith, All,
}
use kab23_motorsport_telemet.Analysis.Numbers.{Numbers, IsOrdered}
use kab23_motorsport_telemet.Analysis.Best.{SectoredLap, split_of, is_better, best_of}

module _ {F : Type 0} ⦃num : Numbers F⦄ (laws : IsOrdered F) where
  is_better_trans :
      (i : ℕ) (a b c : SectoredLap F)
      → is_better i a b ≡ true
      → is_better i b c ≡ true
      → is_better i a c ≡ true
  unfolding is_better
  is_better_trans i a b c ab bc = ground (
    arith,
    laws.lt_trans (split_of i a) (split_of i b) (split_of i c),
    laws.lt-eq (split_of i a) (split_of i b) (split_of i c),
    laws.eq-lt (split_of i a) (split_of i b) (split_of i c),
    laws.eq_trans (split_of i a) (split_of i b) (split_of i c),
  )

  is_better_irrefl : (i : ℕ) (a : SectoredLap F) → is_better i a a ≡ false
  unfolding is_better
  is_better_irrefl i a = ground (arith, laws.lt_irrefl (split_of i a))

  -- What is no better than something better is no better.
  not_better :
      (i : ℕ) (a b c : SectoredLap F)
      → is_better i b a ≡ true
      → is_better i b c ≡ false
      → is_better i a c ≡ false
  not_better i a b c ba bc = ground (arith, is_better_trans i b a c)

  best_of-cons :
      (i : ℕ) (w lap : SectoredLap F) (laps : List (SectoredLap F))
      → best_of i w (lap ∷ laps) ≡ best_of i (if is_better i lap w then lap else w) laps
  unfolding best_of
  best_of-cons i w lap laps = refl

  -- Neither the start value nor any lap of the list is better than the best, which is the start value
  -- or better than it.
  abbrev Least : ℕ → SectoredLap F → List (SectoredLap F) → Type 0
  Least i w laps =
      (is_better i w (best_of i w laps) ≡ false)
      × All (λ lap. is_better i lap (best_of i w laps) ≡ false) laps
      × ((best_of i w laps ≡ w) ⊎ (is_better i (best_of i w laps) w ≡ true))

  still_worse :
      (i : ℕ) (w lap best : SectoredLap F)
      → is_better i lap w ≡ false
      → (best ≡ w) ⊎ (is_better i best w ≡ true)
      → is_better i lap best ≡ false
  still_worse i w lap best worse (inl same) = ap (is_better i lap) same ∙ worse
  still_worse i w lap best worse (inr better) = ground (arith, is_better_trans i lap best w)

  at_least :
      (i : ℕ) (w lap best : SectoredLap F)
      → is_better i lap w ≡ true
      → (best ≡ lap) ⊎ (is_better i best lap ≡ true)
      → is_better i best w ≡ true
  at_least i w lap best better (inl same) = ap (λ l. is_better i l w) same ∙ better
  at_least i w lap best better (inr more) = is_better_trans i best lap w more better

  Least-cons :
      (i : ℕ) (w lap : SectoredLap F) (laps : List (SectoredLap F)) (b : Bool)
      → is_better i lap w ≡ b
      → Least i lap laps
      → Least i w laps
      → let best = best_of i (if b then lap else w) laps in
        (is_better i w best ≡ false)
        × ((is_better i lap best ≡ false) × All (λ l. is_better i l best ≡ false) laps)
        × ((best ≡ w) ⊎ (is_better i best w ≡ true))
  Least-cons i w lap laps true better (least, rest, from) _ =
      (not_better i w lap _ better least, (least, rest), inr (at_least i w lap _ better from))
  Least-cons i w lap laps false worse _ (least, rest, from) =
      (least, (still_worse i w lap _ worse from, rest), from)

  pub best_of-minimal : (i : ℕ) (w : SectoredLap F) (laps : List (SectoredLap F)) → Least i w laps
  unfolding best_of
  best_of-minimal i w [] = (is_better_irrefl i w, tt, inl refl)
  best_of-minimal i w (lap ∷ laps) =
      Least-cons i w lap laps (is_better i lap w) refl (best_of-minimal i lap laps)
        (best_of-minimal i w laps)

  -- A property of the start value and of each lap is one of the best.
  pub best_of-All :
      (P : SectoredLap F → Type 0) (i : ℕ) (w : SectoredLap F) (laps : List (SectoredLap F))
      → P w
      → All P laps
      → P (best_of i w laps)
  unfolding best_of
  best_of-All P i w [] here all = here
  best_of-All P i w (lap ∷ laps) here (there, all) =
      best_of-All P i (if is_better i lap w then lap else w) laps (choose (is_better i lap w)) all
    where
      choose : (b : Bool) → P (if b then lap else w)
      choose true = there
      choose false = here
