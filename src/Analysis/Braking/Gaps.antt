-- ===== src/Analysis/Braking/Gaps.antt =====
-- How far the braking zones of a lap are apart.
use kab23_motorsport_telemet.Prelude.{
  ◌≡◌, refl, ap, ◌∙◌, Bool, true, false, List, [], ◌∷◌, Option, none, some, Bool-cases,
  Option-cases, inl, inr,
}
use kab23_motorsport_telemet.Analysis.Numbers.{Numbers, ◌⊖◌, ◌<?◌, ◌≤?◌}
use kab23_motorsport_telemet.Analysis.Points.{LapPoint}
use kab23_motorsport_telemet.Analysis.Braking.{
  OpenZone, Zones, braking_merge_ms, braking_enter_g, braking_exit_g, deceleration_g, put_zone,
  reach, new_zone, begin_zone, brake, zones_step, find_zones, all_zones,
}

module _ {F : Type 0} ⦃num : Numbers F⦄ where
  -- The newest first: no zone starts within the time in which it would have been merged with the one
  -- before.
  abbrev pub Apart : List (OpenZone F) → Type 0
  Apart [] = Unit {0}
  Apart (z ∷ []) = Unit {0}
  Apart (z ∷ y ∷ zs) =
      (((z.start.time_ms ⊖ y.end.time_ms) ≤? braking_merge_ms) ≡ false) × Apart (y ∷ zs)

  -- The same zone with another end and peak keeps its distance.
  Apart-head :
      (z w : OpenZone F) (zs : List (OpenZone F))
      → w.start ≡ z.start
      → Apart (z ∷ zs)
      → Apart (w ∷ zs)
  Apart-head z w [] same apart = tt
  Apart-head z w (y ∷ zs) same (far, rest) =
      (ap (λ (s : LapPoint F). (s.time_ms ⊖ y.end.time_ms) ≤? braking_merge_ms) same ∙ far, rest)

  put_zone-Apart :
      (eased : Bool) (closed : List (OpenZone F)) (z : OpenZone F)
      → Apart (z ∷ closed)
      → Apart (all_zones (put_zone eased closed z))
  unfolding all_zones
  put_zone-Apart true closed z apart = apart
  put_zone-Apart false closed z apart = apart

  reach-Apart :
      (b : LapPoint F) (decel_g : F) (closed : List (OpenZone F)) (z : OpenZone F)
      → Apart (z ∷ closed)
      → Apart (all_zones (reach b decel_g closed z))
  unfolding reach
  reach-Apart b decel_g closed z apart =
      let zone' : OpenZone F = record z {
        end = b;
        peak_decel_g = num.max z.peak_decel_g decel_g;
      } in
      put_zone-Apart (decel_g <? braking_exit_g) closed zone' (Apart-head z zone' closed refl apart)

  begin_zone-Apart :
      (a b : LapPoint F) (decel_g : F) (closed : List (OpenZone F))
      → Apart closed
      → Apart (all_zones (begin_zone a b decel_g closed))
  unfolding begin_zone
  begin_zone-Apart a b decel_g [] apart = reach-Apart b decel_g [] (new_zone a b) tt
  begin_zone-Apart a b decel_g (z ∷ zs) apart =
      elim (Bool-cases ((a.time_ms ⊖ z.end.time_ms) ≤? braking_merge_ms)) [
        | inl soon ↦ rw soon (reach-Apart b decel_g zs z apart)
        | inr far ↦ rw far (reach-Apart b decel_g (z ∷ zs) (new_zone a b) (far, apart))
      ]

  opened-Apart :
      (a b : LapPoint F) (decel_g : F) (closed : List (OpenZone F)) (opened : Option (OpenZone F))
      → Apart (all_zones (record { closed = closed; opened = opened }))
      → Apart (all_zones (brake a b decel_g (record { closed = closed; opened = opened })))
  unfolding brake all_zones
  opened-Apart a b decel_g closed (some z) apart = reach-Apart b decel_g closed z apart
  opened-Apart a b decel_g closed none apart = elim (Bool-cases (decel_g <? braking_enter_g)) [
    | inl coasting ↦ rw coasting apart
    | inr braking ↦ rw braking (begin_zone-Apart a b decel_g closed apart)
  ]

  zones_step-Apart :
      (a b : LapPoint F) (zones : Zones F)
      → Apart (all_zones zones)
      → Apart (all_zones (zones_step a b zones))
  unfolding zones_step
  zones_step-Apart a b zones apart = elim (Option-cases (deceleration_g a b)) [
    | inl unknown ↦ rw (unknown, zones_step) apart
    | inr (decel_g, known) ↦
        rw (known, zones_step) (opened-Apart a b decel_g zones.closed zones.opened apart)
  ]

  -- If the zones found so far are apart, so are those found after any further points: each
  -- starts later than the time within which it would have been merged with the one before.
  pub find_zones-Apart :
      (a : LapPoint F) (bs : List (LapPoint F)) (zones : Zones F)
      → Apart (all_zones zones)
      → Apart (all_zones (find_zones a bs zones))
  unfolding find_zones
  find_zones-Apart a [] zones apart = apart
  find_zones-Apart a (b ∷ bs) zones apart =
      find_zones-Apart b bs (zones_step a b zones) (zones_step-Apart a b zones apart)
