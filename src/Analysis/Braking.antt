-- ===== src/Analysis/Braking.antt =====
-- braking-points.ts: zones of sustained deceleration. The closed zones are a stack, the newest first,
-- which is turned round at the end.
pub mod Gaps
use kab23_motorsport_telemet.Prelude.{
  ◌≡◌, Bool, true, false, ◌&&◌, List, [], ◌∷◌, ◌++◌, map, Option, none, some, select, get_or,
  if◌then◌else◌,
}
use kab23_motorsport_telemet.Analysis.Numbers.{Numbers, ◌⊖◌, ◌⊗◌, ◌⊘◌, ◌<?◌, ◌≤?◌, whole}
use kab23_motorsport_telemet.Analysis.Points.{LapPoint, BrakingPoint, round_to}

pub record OpenZone (F : Type 0) : Type 0 where
  pub start : LapPoint F
  pub end : LapPoint F
  pub peak_decel_g : F

pub record Zones (F : Type 0) : Type 0 where
  pub closed : List (OpenZone F)
  pub opened : Option (OpenZone F)

abbrev pub no_zones : {F : Type 0} → Zones F
no_zones = record { closed = []; opened = none }

unfoldable pub reversed {ℓ} : {A : Type ℓ} → List A → List A → List A
reversed [] ys = ys
reversed (x ∷ xs) ys = reversed xs (x ∷ ys)

module _ {F : Type 0} ⦃num : Numbers F⦄ where
  abbrev pub gravity : F
  gravity = num.literal 980665 5

  abbrev pub braking_enter_g : F
  braking_enter_g = num.literal 3 1

  abbrev pub braking_exit_g : F
  braking_exit_g = num.literal 15 2

  abbrev pub min_braking_ms : F
  min_braking_ms = whole 250

  abbrev pub braking_merge_ms : F
  braking_merge_ms = whole 400

  slowing : F → F → Option F → Option F → Option F
  slowing from to (some v) (some w) =
      let dt_s = (to ⊖ from) ⊘ whole 1000 in
      if dt_s ≤? whole 0
      then none
      else some (num.negate ((w ⊖ v) ⊗ whole 1000 ⊘ whole 3600) ⊘ dt_s ⊘ gravity)
  slowing from to _ _ = none

  unfoldable pub deceleration_g : LapPoint F → LapPoint F → Option F
  unfolding slowing
  deceleration_g a b = elim b.g_lon [
    | some g ↦ some (num.negate g)
    | none ↦ slowing a.time_ms b.time_ms a.speed_kmh b.speed_kmh
  ]

  abbrev pub put_zone : Bool → List (OpenZone F) → OpenZone F → Zones F
  put_zone true closed zone = record { closed = zone ∷ closed; opened = none }
  put_zone false closed zone = record { closed = closed; opened = some zone }

  -- A zone reaches this point, and closes there if the deceleration has eased off.
  unfoldable pub reach : LapPoint F → F → List (OpenZone F) → OpenZone F → Zones F
  reach b decel_g closed zone =
      put_zone (decel_g <? braking_exit_g) closed
        (record zone { end = b; peak_decel_g = num.max zone.peak_decel_g decel_g })

  abbrev pub new_zone : LapPoint F → LapPoint F → OpenZone F
  new_zone a b = record { start = a; end = b; peak_decel_g = whole 0 }

  -- Braking begins: the newest zone is opened again if it ended a moment ago.
  unfoldable pub begin_zone : LapPoint F → LapPoint F → F → List (OpenZone F) → Zones F
  unfolding reach
  begin_zone a b decel_g [] = reach b decel_g [] (new_zone a b)
  begin_zone a b decel_g (z ∷ zs) =
      if (a.time_ms ⊖ z.end.time_ms) ≤? braking_merge_ms
      then reach b decel_g zs z
      else reach b decel_g (z ∷ zs) (new_zone a b)

  unfoldable pub brake : LapPoint F → LapPoint F → F → Zones F → Zones F
  unfolding begin_zone
  brake a b decel_g zones = elim zones.opened [
    | some zone ↦ reach b decel_g zones.closed zone
    | none ↦ if decel_g <? braking_enter_g then zones else begin_zone a b decel_g zones.closed
  ]

  unfoldable pub zones_step : LapPoint F → LapPoint F → Zones F → Zones F
  unfolding brake
  zones_step a b zones = elim (deceleration_g a b) [
    | none ↦ zones
    | some decel_g ↦ brake a b decel_g zones
  ]

  unfoldable pub find_zones : LapPoint F → List (LapPoint F) → Zones F → Zones F
  find_zones a [] zones = zones
  find_zones a (b ∷ bs) zones = find_zones b bs (zones_step a b zones)

  -- A zone that is open at the end of the lap is closed there.
  unfoldable pub all_zones : Zones F → List (OpenZone F)
  all_zones zones = elim zones.opened [ none ↦ zones.closed | some z ↦ z ∷ zones.closed ]

  abbrev pub is_sustained : OpenZone F → Bool
  is_sustained z = min_braking_ms ≤? (z.end.time_ms ⊖ z.start.time_ms)

  unfoldable pub to_braking_point : OpenZone F → BrakingPoint F
  to_braking_point z = record {
    dist_m = round_to (whole 10) z.start.dist_m;
    lat = z.start.lat;
    lon = z.start.lon;
    entry_speed_kmh = round_to (whole 10) (get_or z.start.speed_kmh (whole 0));
    peak_decel_g = round_to (whole 1000) z.peak_decel_g;
  }

  unfoldable pub detect_braking_points : List (LapPoint F) → List (BrakingPoint F)
  unfolding find_zones all_zones reversed
  detect_braking_points [] = []
  detect_braking_points (p ∷ ps) =
      map to_braking_point
        (select is_sustained (reversed (all_zones (find_zones p ps no_zones)) []))
