-- ===== src/Analysis/Placing.antt =====
-- geo.ts (the local frame) and sector-gates.ts: gates at given distances along a path.
use kab23_motorsport_telemet.Prelude.{ℕ, zero, suc, ◌-◌, Bool, List, [], ◌∷◌, if◌then◌else◌}
use kab23_motorsport_telemet.Analysis.Numbers.{
  Numbers, ◌⊕◌, ◌⊖◌, ◌⊗◌, ◌⊘◌, ◌%?◌, ◌<?◌, ◌≤?◌, ◌=?◌, whole,
}
use kab23_motorsport_telemet.Analysis.Points.{
  LapPoint, Gate, meters_per_deg_lat, meters_per_deg_lon, distance_m,
}

pub record Place (F : Type 0) : Type 0 where
  pub lat : F
  pub lon : F

-- In metres, in a local frame.
pub record Local (F : Type 0) : Type 0 where
  pub x : F
  pub y : F

pub record OffsetPoint (F : Type 0) : Type 0 where
  pub at : Place F
  pub dist_m : F

-- What `pointAtDistance` finds: the point, and the ends of the hop that it is on.
pub record OnPath (F : Type 0) : Type 0 where
  pub center : Place F
  pub a : OffsetPoint F
  pub b : OffsetPoint F

module _ {F : Type 0} where
  abbrev pub offset_point : LapPoint F → OffsetPoint F
  offset_point p = record { at = record { lat = p.lat; lon = p.lon }; dist_m = p.dist_m }

module _ {F : Type 0} ⦃num : Numbers F⦄ where
  -- `localFrame(originLat, originLon)`
  unfoldable pub to_local : Place F → Place F → Local F
  to_local origin p = record {
    x = (p.lon ⊖ origin.lon) ⊗ meters_per_deg_lon origin.lat;
    y = (p.lat ⊖ origin.lat) ⊗ meters_per_deg_lat;
  }

  unfoldable pub to_geo : Place F → Local F → Place F
  to_geo origin p = record {
    lat = origin.lat ⊕ p.y ⊘ meters_per_deg_lat;
    lon = origin.lon ⊕ p.x ⊘ meters_per_deg_lon origin.lat;
  }

  -- `x || 1`: zero and NaN are falsy.
  abbrev pub is_truthy : F → Bool
  is_truthy x = if x =? whole 0 then Bool.false else x =? x

  abbrev pub or_one : F → F
  or_one x = if is_truthy x then x else whole 1

  unfoldable pub perpendicular_gate_at : Place F → Place F → Place F → F → Gate F
  unfolding to_local to_geo
  perpendicular_gate_at a b center half_width_m =
      let from = to_local center a in
      let to = to_local center b in
      let dx = to.x ⊖ from.x in
      let dy = to.y ⊖ from.y in
      let len = or_one (num.hypot dx dy) in
      let ux = num.negate dy ⊘ len in
      let uy = dx ⊘ len in
      let p1 = to_geo center (record { x = ux ⊗ half_width_m; y = uy ⊗ half_width_m }) in
      let p2 =
        to_geo center
          (record { x = num.negate ux ⊗ half_width_m; y = num.negate uy ⊗ half_width_m }) in
      record { lat1 = p1.lat; lon1 = p1.lon; lat2 = p2.lat; lon2 = p2.lon }

  abbrev pub on_hop : F → OffsetPoint F → OffsetPoint F → OnPath F
  on_hop t a b =
      let span = b.dist_m ⊖ a.dist_m in
      let frac = if whole 0 <? span then (t ⊖ a.dist_m) ⊘ span else whole 0 in
      record {
        center = record {
          lat = a.at.lat ⊕ frac ⊗ (b.at.lat ⊖ a.at.lat);
          lon = a.at.lon ⊕ frac ⊗ (b.at.lon ⊖ a.at.lon);
        };
        a = a;
        b = b;
      }

  -- The loop, from the hop that ends at the first point of the list; `before` is the point
  -- before `a`, or `a` itself where there is none.
  unfoldable pub find_hop : F → OffsetPoint F → OffsetPoint F → List (OffsetPoint F) → OnPath F
  find_hop t before a [] = record { center = a.at; a = before; b = a }
  find_hop t before a (b ∷ bs) =
      let rest = find_hop t a b bs in if t ≤? b.dist_m then on_hop t a b else rest

  unfoldable pub point_at_distance : OffsetPoint F → List (OffsetPoint F) → F → F → OnPath F
  unfolding find_hop
  point_at_distance p ps target_m total_m =
      let t = if whole 0 <? total_m then (target_m %? total_m ⊕ total_m) %? total_m else whole 0 in
      find_hop t p p ps

  abbrev pub gate_on : F → OnPath F → Gate F
  gate_on half_width_m found = perpendicular_gate_at found.a.at found.b.at found.center half_width_m

  -- The gates for `n` values of `k` from this one on.
  unfoldable pub interior_gates_from :
      OffsetPoint F → List (OffsetPoint F) → F → F → ℕ → ℕ → ℕ → List (Gate F)
  unfolding point_at_distance
  interior_gates_from p ps total_m half_width_m sector_count k zero = []
  interior_gates_from p ps total_m half_width_m sector_count k (suc n) =
      gate_on half_width_m
        (point_at_distance p ps ((total_m ⊗ whole k) ⊘ whole sector_count) total_m)
      ∷ interior_gates_from p ps total_m half_width_m sector_count (suc k) n

  unfoldable pub build_interior_gates :
      OffsetPoint F → List (OffsetPoint F) → F → F → ℕ → List (Gate F)
  unfolding interior_gates_from
  build_interior_gates p ps total_m half_width_m sector_count =
      interior_gates_from p ps total_m half_width_m sector_count 1 (sector_count - 1)

  abbrev pub gate_half_width_m : Gate F → F
  gate_half_width_m gate = distance_m gate.lat1 gate.lon1 gate.lat2 gate.lon2 ⊘ whole 2

  abbrev pub midpoint : Gate F → Place F
  midpoint gate = record {
    lat = (gate.lat1 ⊕ gate.lat2) ⊘ whole 2;
    lon = (gate.lon1 ⊕ gate.lon2) ⊘ whole 2;
  }
