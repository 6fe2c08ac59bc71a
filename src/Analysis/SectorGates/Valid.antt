-- ===== src/Analysis/SectorGates/Valid.antt =====
-- sector-gates.ts: what holds of a set of gates that was derived from a lap.
use mathlib.Core.Path.{subst}
use kab23_motorsport_telemet.Prelude.{
  ℕ, zero, suc, ◌-◌, ◌≤◌, ◌≡◌, refl, sym, ap, ◌∙◌, Bool, true, false, not, ◌||◌, List, [], ◌∷◌,
  Option, none, some, length, map, ltb, Bool-cases, inl, inr, arith,
}
use kab23_motorsport_telemet.Analysis.Numbers.{Numbers, ◌⊖◌, ◌⊗◌, ◌⊘◌, ◌≤?◌, whole}
use kab23_motorsport_telemet.Analysis.Points.{LapPoint, Gate, last_of}
use kab23_motorsport_telemet.Analysis.Sectors.{
  LapGateCrossing, cross_gates, splits, sector_times_from_gates,
}
use kab23_motorsport_telemet.Analysis.Sectors.Gates.{
  TimedBy, cross_gates-TimedBy, length-splits-some,
}
use kab23_motorsport_telemet.Analysis.Placing.{
  Place, OffsetPoint, interior_gates_from, build_interior_gates, offset_point, is_truthy,
}
use kab23_motorsport_telemet.Analysis.Ring.{build_directed_ring, ordered_from}
use kab23_motorsport_telemet.Analysis.SectorGates.{
  DeriveSectorGatesInput, SectorGatesResolution, all_near, near_ideal, is_valid_candidate, if_valid,
  interior_of, derive_from_centreline, derive_from_lap, from_centreline, first_derived,
  derive_along, derive_sector_gates, newly, centreline, reference_lap, or_default, sane_band_factor,
}

module _ {F : Type 0} ⦃num : Numbers F⦄ where
  -- Each crossing within a band around its multiple of the step, from the one after `i` on.
  abbrev pub Near : F → F → ℕ → List (LapGateCrossing F) → Type 0
  Near step band i [] = Unit {0}
  Near step band i (c ∷ cs) =
      ((num.abs (c.dist_m ⊖ step ⊗ whole (suc i)) ≤? band) ≡ true) × Near step band (suc i) cs

  all_near-Near :
      (step band : F) (i : ℕ) (cs : List (LapGateCrossing F))
      → all_near step band i cs ≡ true
      → Near step band i cs
  unfolding all_near
  all_near-Near step band i [] e = tt
  all_near-Near step band i (c ∷ cs) e =
      (ground arith, all_near-Near step band (suc i) cs (ground arith))

  -- Gates that cut a lap into this number of sectors, each near its share of the distance.
  abbrev pub Divides : LapPoint F → List (LapPoint F) → List (Gate F) → ℕ → Type 0
  Divides p ps gates sector_count =
      let step = (last_of p ps).dist_m ⊘ whole sector_count in
      (suc (length gates) ≡ sector_count)
      × (length (sector_times_from_gates (p ∷ ps) gates) ≡ sector_count)
      × ((cs : List (LapGateCrossing F)) × TimedBy p ps gates cs
          × Near step (step ⊗ sane_band_factor) 0 cs)

  length-interior_gates_from :
      (p : OffsetPoint F) (ps : List (OffsetPoint F)) (total_m half_width_m : F) (count k n : ℕ)
      → length (interior_gates_from p ps total_m half_width_m count k n) ≡ n
  unfolding interior_gates_from
  length-interior_gates_from p ps total_m half_width_m count k zero = refl
  length-interior_gates_from p ps total_m half_width_m count k (suc n) =
      ap suc (length-interior_gates_from p ps total_m half_width_m count (suc k) n)

  length-interior_of :
      (p : OffsetPoint F) (ps : List (OffsetPoint F)) (total_m half_width_m : F) (count : ℕ)
      → 2 ≤ count
      → suc (length (interior_of (p ∷ ps) total_m half_width_m count)) ≡ count
  unfolding build_interior_gates
  length-interior_of p ps total_m half_width_m count some_gates =
      omega (arith, length-interior_gates_from p ps total_m half_width_m count 1 (count - 1))

  if_valid-some :
      (valid : Bool) (candidate gates : List (Gate F))
      → if_valid valid candidate ≡ some gates
      → (valid ≡ true) × (candidate ≡ gates)
  if_valid-some true candidate gates e = (refl, ground arith)
  if_valid-some false candidate gates e = cc

  near_ideal-some :
      (lap_distance_m : F) (count : ℕ) (found : Option (List (LapGateCrossing F)))
      → near_ideal lap_distance_m count found ≡ true
      → let step = lap_distance_m ⊘ whole count in
        (cs : List (LapGateCrossing F)) × (found ≡ some cs)
        × Near step (step ⊗ sane_band_factor) 0 cs
  near_ideal-some lap_distance_m count none e = cc
  near_ideal-some lap_distance_m count (some cs) e = (cs, refl, all_near-Near _ _ 0 cs e)

  valid-Divides :
      (p : LapPoint F) (ps : List (LapPoint F)) (candidate gates : List (Gate F)) (count : ℕ)
      → suc (length candidate) ≡ count
      → if_valid (is_valid_candidate (p ∷ ps) candidate (last_of p ps).dist_m count) candidate
        ≡ some gates
      → Divides p ps gates count
  unfolding is_valid_candidate sector_times_from_gates
  valid-Divides p ps candidate gates count size e =
      let (valid, same) = if_valid-some _ candidate gates e in
      let (cs, crossed, near) =
        near_ideal-some (last_of p ps).dist_m count (cross_gates (p ∷ ps) candidate) valid in
      subst (λ gs. Divides p ps gs count) same
        (
          size,
          ap (λ o. length (splits p ps o)) crossed
              ∙ length-splits-some p ps candidate cs crossed
              ∙ size,
          (cs, cross_gates-TimedBy p ps candidate cs crossed, near),
        )

  from_lap-Divides :
      (p : LapPoint F) (ps : List (LapPoint F)) (sf_gate : Gate F) (count : ℕ)
      (gates : List (Gate F))
      → 2 ≤ count
      → derive_from_lap p ps sf_gate count ≡ some gates
      → Divides p ps gates count
  unfolding derive_from_lap
  from_lap-Divides p ps sf_gate count gates enough e =
      elim (Bool-cases ((last_of p ps).dist_m ≤? whole 0)) [
        | inl still ↦ absurd (ground arith)
        | inr moved ↦
            valid-Divides p ps _ gates count
              (length-interior_of (offset_point p) (map offset_point ps) _ _ count enough)
              (rw moved at e)
      ]

  from_ring-Divides :
      (r : Place F) (rs : List (Place F)) (length_m : F) (p : LapPoint F) (ps : List (LapPoint F))
      (sf_gate : Gate F) (count : ℕ) (gates : List (Gate F))
      → 2 ≤ count
      → derive_from_centreline r rs length_m sf_gate p ps count ≡ some gates
      → Divides p ps gates count
  unfolding derive_from_centreline build_directed_ring ordered_from
  from_ring-Divides r rs length_m p ps sf_gate count gates enough e =
      valid-Divides p ps _ gates count (length-interior_of _ _ _ _ count enough) e

  from_centreline-Divides :
      (ring : Option (List (Place F))) (length_m : Option F) (p : LapPoint F)
      (ps : List (LapPoint F)) (sf_gate : Gate F) (count : ℕ) (gates : List (Gate F))
      → 2 ≤ count
      → from_centreline ring length_m sf_gate p ps count ≡ some gates
      → Divides p ps gates count
  unfolding from_centreline
  from_centreline-Divides none length_m p ps sf_gate count gates enough e = cc
  from_centreline-Divides (some []) length_m p ps sf_gate count gates enough e = cc
  from_centreline-Divides (some (r ∷ rs)) none p ps sf_gate count gates enough e = cc
  from_centreline-Divides (some (r ∷ rs)) (some m) p ps sf_gate count gates enough e =
      elim (Bool-cases (ltb (length (r ∷ rs)) 3 || not (is_truthy m))) [
        | inl unusable ↦ absurd (ground arith)
        | inr usable ↦ from_ring-Divides r rs m p ps sf_gate count gates enough (rw usable at e)
      ]

  -- What is answered of gates that were derived.
  abbrev pub Derived : LapPoint F → List (LapPoint F) → SectorGatesResolution F → ℕ → Type 0
  Derived p ps r count =
      Divides p ps r.gates count
      × (r.newly_derived ≡ some (record { gates = r.gates; source = r.source }))

  first_derived-Derived :
      (p : LapPoint F) (ps : List (LapPoint F)) (count : ℕ)
      (from_ring from_lap : Option (List (Gate F))) (r : SectorGatesResolution F)
      → ((gates : List (Gate F)) → from_ring ≡ some gates → Divides p ps gates count)
      → ((gates : List (Gate F)) → from_lap ≡ some gates → Divides p ps gates count)
      → first_derived from_ring from_lap ≡ some r
      → Derived p ps r count
  first_derived-Derived p ps count none none r ring lap e = cc
  first_derived-Derived p ps count none (some gates) r ring lap e =
      let same : newly reference_lap gates ≡ r = ground arith in
      subst (λ x. Derived p ps x count) same (lap gates refl, refl)
  first_derived-Derived p ps count (some gates) from_lap r ring lap e =
      let same : newly centreline gates ≡ r = ground arith in
      subst (λ x. Derived p ps x count) same (ring gates refl, refl)

  derive_along-Derived :
      (input : DeriveSectorGatesInput F) (count : ℕ) (p : LapPoint F) (ps : List (LapPoint F))
      (r : SectorGatesResolution F)
      → derive_along input count (some (p ∷ ps)) ≡ some r
      → Derived p ps r count
  unfolding derive_along
  derive_along-Derived input count p ps r e =
      elim (Bool-cases (ltb (length (p ∷ ps)) 3 || ltb count 2)) [
        | inl unusable ↦ absurd (ground arith)
        | inr usable ↦
            first_derived-Derived p ps count
              (from_centreline input.ring input.centreline_length_m input.sf_gate p ps count)
              (derive_from_lap p ps input.sf_gate count) r
              (λ gates.
                from_centreline-Divides input.ring input.centreline_length_m p ps input.sf_gate
                  count gates (ground arith))
              (λ gates. from_lap-Divides p ps input.sf_gate count gates (ground arith))
              (rw usable at e)
      ]

  -- A set of gates that is derived for a reference lap is one less than the sectors; the lap
  -- crosses each gate exactly once and in order, near its share of the distance, and gets a time
  -- for each sector; and the set is answered to be stored.
  pub derive_sector_gates-Divides :
      (input : DeriveSectorGatesInput F) (p : LapPoint F) (ps : List (LapPoint F))
      (r : SectorGatesResolution F)
      → input.reference_lap ≡ some (p ∷ ps)
      → derive_sector_gates input ≡ some r
      → Derived p ps r (or_default input.sector_count)
  unfolding derive_sector_gates
  derive_sector_gates-Divides input p ps r lap e =
      let count = or_default input.sector_count in
      derive_along-Derived input count p ps r (ap (derive_along input count) (sym lap) ∙ e)
