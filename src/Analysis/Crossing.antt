-- ===== src/Analysis/Crossing.antt =====
-- gate-crossing.ts: whether two consecutive fixes cross a gate, and where.
use kab23_motorsport_telemet.Prelude.{
  Bool, true, false, not, ◌&&◌, ◌||◌, Option, none, some, if◌then◌else◌,
}
use kab23_motorsport_telemet.Analysis.Numbers.{Numbers, ◌⊕◌, ◌⊖◌, ◌⊗◌, ◌⊘◌, ◌<?◌, ◌≤?◌, whole}
use kab23_motorsport_telemet.Analysis.Points.{Gate, meters_per_deg_lat, meters_per_deg_lon}

pub record CrossingFix (F : Type 0) : Type 0 where
  pub time_ms : F
  pub lat : F
  pub lon : F
  pub speed_kmh : Option F

-- `1` and `-1`
pub data Direction : Type 0 where
  ahead back : Direction

abbrev pub same_direction : Direction → Direction → Bool
same_direction ahead ahead = true
same_direction back back = true
same_direction _ _ = false

pub record GateCrossing (F : Type 0) : Type 0 where
  pub cross_ms : F
  pub lat : F
  pub lon : F
  pub dir_sign : Direction
  pub t : F

pub record ProjectedGate (F : Type 0) : Type 0 where
  pub mid_lat : F
  pub mid_lon : F
  pub m_lon : F
  pub ax : F
  pub ay : F
  pub bx : F
  pub by : F

-- Whether a direction is asked for and this is another.
abbrev pub is_refused : Option Direction → Direction → Bool
is_refused none d = false
is_refused (some wanted) d = not (same_direction d wanted)

-- The two segments' intersection: `denom`, and the fractions along the path and the gate.
pub record Intersection (F : Type 0) : Type 0 where
  pub denom : F
  pub t : F
  pub u : F

module _ {F : Type 0} ⦃num : Numbers F⦄ where
  abbrev pub stationary_speed_kmh : F
  stationary_speed_kmh = whole 3

  abbrev pub max_fix_gap_ms : F
  max_fix_gap_ms = whole 500

  unfoldable pub project_gate : Gate F → ProjectedGate F
  project_gate gate =
      let mid_lat = (gate.lat1 ⊕ gate.lat2) ⊘ whole 2 in
      let mid_lon = (gate.lon1 ⊕ gate.lon2) ⊘ whole 2 in
      let m_lon = meters_per_deg_lon mid_lat in
      record {
        mid_lat = mid_lat;
        mid_lon = mid_lon;
        m_lon = m_lon;
        ax = (gate.lon1 ⊖ mid_lon) ⊗ m_lon;
        ay = (gate.lat1 ⊖ mid_lat) ⊗ meters_per_deg_lat;
        bx = (gate.lon2 ⊖ mid_lon) ⊗ m_lon;
        by = (gate.lat2 ⊖ mid_lat) ⊗ meters_per_deg_lat;
      }

  -- A speed that is not there cannot tell that the car stands.
  abbrev pub is_stationary : Option F → Bool
  is_stationary none = false
  is_stationary (some v) = v ≤? stationary_speed_kmh

  unfoldable pub intersect : CrossingFix F → CrossingFix F → ProjectedGate F → Intersection F
  intersect prev cur gate =
      let p0x = (prev.lon ⊖ gate.mid_lon) ⊗ gate.m_lon in
      let p0y = (prev.lat ⊖ gate.mid_lat) ⊗ meters_per_deg_lat in
      let p1x = (cur.lon ⊖ gate.mid_lon) ⊗ gate.m_lon in
      let p1y = (cur.lat ⊖ gate.mid_lat) ⊗ meters_per_deg_lat in
      let rx = p1x ⊖ p0x in
      let ry = p1y ⊖ p0y in
      let sx = gate.bx ⊖ gate.ax in
      let sy = gate.by ⊖ gate.ay in
      let denom = rx ⊗ sy ⊖ ry ⊗ sx in
      record {
        denom = denom;
        t = ((gate.ax ⊖ p0x) ⊗ sy ⊖ (gate.ay ⊖ p0y) ⊗ sx) ⊘ denom;
        u = ((gate.ax ⊖ p0x) ⊗ ry ⊖ (gate.ay ⊖ p0y) ⊗ rx) ⊘ denom;
      }

  -- From the intersection on.
  unfoldable pub accept :
      Option Direction → CrossingFix F → CrossingFix F → Intersection F → Option (GateCrossing F)
  accept required prev cur at =
      let dir_sign = if whole 0 <? at.denom then ahead else back in
      if num.abs at.denom <? num.literal 1 9
      then none
      else if at.t <? whole 0 || whole 1 <? at.t || at.u <? whole 0 || whole 1 <? at.u
      then none
      else if is_refused required dir_sign
      then none
      else some (record {
        cross_ms = prev.time_ms ⊕ at.t ⊗ (cur.time_ms ⊖ prev.time_ms);
        lat = prev.lat ⊕ at.t ⊗ (cur.lat ⊖ prev.lat);
        lon = prev.lon ⊕ at.t ⊗ (cur.lon ⊖ prev.lon);
        dir_sign = dir_sign;
        t = at.t;
      })

  abbrev pub is_positioned : CrossingFix F → Bool
  is_positioned f = num.is_finite f.lat && num.is_finite f.lon

  unfoldable pub find_gate_crossing :
      CrossingFix F → CrossingFix F → ProjectedGate F → Option Direction → Option (GateCrossing F)
  find_gate_crossing prev cur gate required =
      let dt_ms = cur.time_ms ⊖ prev.time_ms in
      if not (is_positioned prev) || not (is_positioned cur)
      then none
      else if is_stationary cur.speed_kmh
      then none
      else if dt_ms ≤? whole 0 || max_fix_gap_ms <? dt_ms
      then none
      else accept required prev cur (intersect prev cur gate)
