-- ===== src/Analysis/SectorGates.antt =====
-- sector-gates.ts: where a session's sector gates come from.
pub mod Valid
pub mod Examples
use kab23_motorsport_telemet.Prelude.{
  ℕ, zero, suc, ◌+◌, Bool, true, false, not, ◌&&◌, ◌||◌, List, [], ◌∷◌, map, Option, none, some,
  length, leb, ltb, if◌then◌else◌,
}
use kab23_motorsport_telemet.Analysis.Numbers.{Numbers, ◌⊕◌, ◌⊖◌, ◌⊗◌, ◌⊘◌, ◌<?◌, ◌≤?◌, ◌=?◌, whole}
use kab23_motorsport_telemet.Analysis.Points.{LapPoint, Gate, last_of}
use kab23_motorsport_telemet.Analysis.Sectors.{LapGateCrossing, cross_gates}
use kab23_motorsport_telemet.Analysis.Placing.{
  Place, OffsetPoint, offset_point, is_truthy, build_interior_gates, gate_half_width_m, midpoint,
}
use kab23_motorsport_telemet.Analysis.Ring.{nearest_index, detect_direction, build_directed_ring}

pub data SectorGatesSource : Type 0 where
  surveyed centreline reference_lap : SectorGatesSource

-- Also what is persisted of a track; its source is not the first.
pub record DerivedSectorGates (F : Type 0) : Type 0 where
  pub gates : List (Gate F)
  pub source : SectorGatesSource

pub record SectorGatesResolution (F : Type 0) : Type 0 where
  pub gates : List (Gate F)
  pub source : SectorGatesSource
  pub newly_derived : Option (DerivedSectorGates F)

pub record KnownSectorGatesInput (F : Type 0) : Type 0 where
  pub surveyed_gates : Option (List (Gate F))
  pub persisted_derived_gates : Option (DerivedSectorGates F)

pub record DeriveSectorGatesInput (F : Type 0) : Type 0 where
  pub sf_gate : Gate F
  pub ring : Option (List (Place F))
  pub centreline_length_m : Option F
  -- The points of the reference lap.
  pub reference_lap : Option (List (LapPoint F))
  pub sector_count : Option ℕ

abbrev pub default_sector_count : ℕ
default_sector_count = 3

abbrev pub or_default : Option ℕ → ℕ
or_default none = default_sector_count
or_default (some n) = n

module _ {F : Type 0} where
  abbrev pub persisted_gates : Option (DerivedSectorGates F) → Option (SectorGatesResolution F)
  persisted_gates none = none
  persisted_gates (some d) = elim d.gates [
    | [] ↦ none
    | g ∷ gs ↦ some (record { gates = g ∷ gs; source = d.source; newly_derived = none })
  ]

  unfoldable pub known_gates :
      Option (List (Gate F)) → Option (DerivedSectorGates F) → Option (SectorGatesResolution F)
  known_gates (some (g ∷ gs)) persisted =
      some (record { gates = g ∷ gs; source = surveyed; newly_derived = none })
  known_gates (some []) persisted = persisted_gates persisted
  known_gates none persisted = persisted_gates persisted

  unfoldable pub known_sector_gates : KnownSectorGatesInput F → Option (SectorGatesResolution F)
  unfolding known_gates
  known_sector_gates input = known_gates input.surveyed_gates input.persisted_derived_gates

  abbrev pub newly : SectorGatesSource → List (Gate F) → SectorGatesResolution F
  newly source gates = record {
    gates = gates;
    source = source;
    newly_derived = some (record { gates = gates; source = source });
  }

module _ {F : Type 0} ⦃num : Numbers F⦄ where
  abbrev pub sane_band_factor : F
  sane_band_factor = num.literal 4 1

  -- The `every` of the crossings, from index `i` on.
  unfoldable pub all_near : F → F → ℕ → List (LapGateCrossing F) → Bool
  all_near ideal_step band i [] = true
  all_near ideal_step band i (c ∷ cs) =
      num.abs (c.dist_m ⊖ ideal_step ⊗ whole (suc i)) ≤? band && all_near ideal_step band (suc i) cs

  abbrev pub near_ideal : F → ℕ → Option (List (LapGateCrossing F)) → Bool
  near_ideal lap_distance_m sector_count none = false
  near_ideal lap_distance_m sector_count (some cs) =
      let ideal_step = lap_distance_m ⊘ whole sector_count in
      all_near ideal_step (ideal_step ⊗ sane_band_factor) 0 cs

  unfoldable pub is_valid_candidate : List (LapPoint F) → List (Gate F) → F → ℕ → Bool
  unfolding all_near
  is_valid_candidate points gates lap_distance_m sector_count =
      near_ideal lap_distance_m sector_count (cross_gates points gates)

  abbrev pub if_valid : Bool → List (Gate F) → Option (List (Gate F))
  if_valid valid candidate = if valid then some candidate else none

  abbrev pub interior_of : List (OffsetPoint F) → F → F → ℕ → List (Gate F)
  interior_of [] total_m half_width_m sector_count = []
  interior_of (p ∷ ps) total_m half_width_m sector_count =
      build_interior_gates p ps total_m half_width_m sector_count

  unfoldable pub derive_from_centreline :
      Place F
      → List (Place F)
      → F
      → Gate F
      → LapPoint F
      → List (LapPoint F)
      → ℕ
      → Option (List (Gate F))
  unfolding is_valid_candidate
  derive_from_centreline r rs centreline_length_m sf_gate p ps sector_count =
      let sf_index = nearest_index (r ∷ rs) (midpoint sf_gate) in
      let direction = detect_direction (r ∷ rs) sf_index p ps in
      let directed_ring = build_directed_ring r rs sf_index direction in
      let candidate =
        interior_of directed_ring centreline_length_m (gate_half_width_m sf_gate) sector_count in
      if_valid (is_valid_candidate (p ∷ ps) candidate (last_of p ps).dist_m sector_count) candidate

  unfoldable pub derive_from_lap :
      LapPoint F → List (LapPoint F) → Gate F → ℕ → Option (List (Gate F))
  unfolding is_valid_candidate
  derive_from_lap p ps sf_gate sector_count =
      let lap_distance_m = (last_of p ps).dist_m in
      let candidate =
        interior_of (map offset_point (p ∷ ps)) lap_distance_m (gate_half_width_m sf_gate)
          sector_count in
      let checked =
        if_valid (is_valid_candidate (p ∷ ps) candidate lap_distance_m sector_count) candidate in
      if lap_distance_m ≤? whole 0 then none else checked

  -- The first step, where there is a ring of three points and a length.
  unfoldable pub from_centreline :
      Option (List (Place F))
      → Option F
      → Gate F
      → LapPoint F
      → List (LapPoint F)
      → ℕ
      → Option (List (Gate F))
  unfolding derive_from_centreline
  from_centreline (some (r ∷ rs)) (some length_m) sf_gate p ps sector_count =
      if ltb (length (r ∷ rs)) 3 || not (is_truthy length_m)
      then none
      else derive_from_centreline r rs length_m sf_gate p ps sector_count
  from_centreline _ _ sf_gate p ps sector_count = none

  abbrev pub first_derived :
      Option (List (Gate F)) → Option (List (Gate F)) → Option (SectorGatesResolution F)
  first_derived (some gates) from_lap = some (newly centreline gates)
  first_derived none (some gates) = some (newly reference_lap gates)
  first_derived none none = none

  unfoldable pub derive_along :
      DeriveSectorGatesInput F → ℕ → Option (List (LapPoint F)) → Option (SectorGatesResolution F)
  unfolding from_centreline derive_from_lap
  derive_along input sector_count none = none
  derive_along input sector_count (some []) = none
  derive_along input sector_count (some (p ∷ ps)) =
      if ltb (length (p ∷ ps)) 3 || ltb sector_count 2
      then none
      else first_derived
          (from_centreline input.ring input.centreline_length_m input.sf_gate p ps sector_count)
          (derive_from_lap p ps input.sf_gate sector_count)

  unfoldable pub derive_sector_gates : DeriveSectorGatesInput F → Option (SectorGatesResolution F)
  unfolding derive_along
  derive_sector_gates input = derive_along input (or_default input.sector_count) input.reference_lap

  abbrev pub or_derived :
      Option (SectorGatesResolution F) → DeriveSectorGatesInput F → Option (SectorGatesResolution F)
  or_derived (some r) input = some r
  or_derived none input = derive_sector_gates input

  unfoldable pub resolve_sector_gates :
      KnownSectorGatesInput F → DeriveSectorGatesInput F → Option (SectorGatesResolution F)
  resolve_sector_gates known input = or_derived (known_sector_gates known) input
