-- ===== src/Analysis/Points.antt =====
-- analysis.types.ts, sample-math.ts and geo.ts: samples, the points of a lap, and the projection.
use kab23_motorsport_telemet.Prelude.{ℕ, ◌&&◌, List, [], ◌∷◌, Option, none, some, if◌then◌else◌}
use kab23_motorsport_telemet.Analysis.Numbers.{Numbers, ◌⊕◌, ◌⊖◌, ◌⊗◌, ◌⊘◌, whole}

pub record AnalysisSample (F : Type 0) : Type 0 where
  pub time_ms : F
  pub lat : Option F
  pub lon : Option F
  pub speed_kmh : Option F
  pub rpm : Option F
  pub coolant_c : Option F
  pub oil_c : Option F
  pub g_lat : Option F
  pub g_lon : Option F

pub record LapPoint (F : Type 0) : Type 0 where
  pub time_ms : F
  pub lat : F
  pub lon : F
  pub dist_m : F
  pub speed_kmh : Option F
  pub g_lon : Option F

-- `Omit<LapPoint, 'distM'>`, and a sample that has a usable position.
pub record Fix (F : Type 0) : Type 0 where
  pub time_ms : F
  pub lat : F
  pub lon : F
  pub speed_kmh : Option F
  pub g_lon : Option F

pub record Gate (F : Type 0) : Type 0 where
  pub lat1 : F
  pub lon1 : F
  pub lat2 : F
  pub lon2 : F

pub record BrakingPoint (F : Type 0) : Type 0 where
  pub dist_m : F
  pub lat : F
  pub lon : F
  pub entry_speed_kmh : F
  pub peak_decel_g : F

-- The points of a lap: an array that is made with its first point.
pub record LapPath (F : Type 0) : Type 0 where
  pub opening : LapPoint F
  pub after : List (LapPoint F)

pub record DerivedLap (F : Type 0) : Type 0 where
  pub lap_number : ℕ
  pub started_at : F
  pub ended_at : F
  pub lap_ms : F
  pub distance_m : F
  pub max_speed_kmh : Option F
  pub min_speed_kmh : Option F
  pub sector_ms : List F
  pub braking_points : List (BrakingPoint F)
  pub points : LapPath F

module _ {F : Type 0} where
  abbrev pub at_distance : F → Fix F → LapPoint F
  at_distance d f = record {
    time_ms = f.time_ms;
    lat = f.lat;
    lon = f.lon;
    dist_m = d;
    speed_kmh = f.speed_kmh;
    g_lon = f.g_lon;
  }

  abbrev pub fix_of : LapPoint F → Fix F
  fix_of p = record {
    time_ms = p.time_ms;
    lat = p.lat;
    lon = p.lon;
    speed_kmh = p.speed_kmh;
    g_lon = p.g_lon;
  }

  abbrev pub points_of : LapPath F → List (LapPoint F)
  points_of p = p.opening ∷ p.after

  -- The last of an array that starts with this point.
  unfoldable pub last_of : LapPoint F → List (LapPoint F) → LapPoint F
  last_of p [] = p
  last_of p (q ∷ qs) = last_of q qs

  abbrev pub last_point : LapPath F → LapPoint F
  last_point p = last_of p.opening p.after

module _ {F : Type 0} ⦃num : Numbers F⦄ where
  located_at : AnalysisSample F → Option F → Option F → Option (Fix F)
  located_at s (some lat) (some lon) =
      if num.is_finite lat && num.is_finite lon
      then some (record {
        time_ms = s.time_ms;
        lat = lat;
        lon = lon;
        speed_kmh = s.speed_kmh;
        g_lon = s.g_lon;
      })
      else none
  located_at s _ _ = none

  -- The sample with its position, where `isPositioned` holds of it.
  unfoldable pub located : AnalysisSample F → Option (Fix F)
  unfolding located_at
  located s = located_at s s.lat s.lon

  unfoldable pub lerp_channel : Option F → Option F → F → Option F
  lerp_channel (some a) (some b) t = some (a ⊕ t ⊗ (b ⊖ a))
  lerp_channel _ _ t = none

  -- `round(value, places)`, with its scale `10 ** places`.
  unfoldable pub round_to : F → F → F
  round_to scale value = num.nearest (value ⊗ scale) ⊘ scale

  abbrev pub meters_per_deg_lat : F
  meters_per_deg_lat = whole 111132

  unfoldable pub meters_per_deg_lon : F → F
  meters_per_deg_lon lat_deg = whole 111320 ⊗ num.cos (lat_deg ⊗ num.pi ⊘ whole 180)

  unfoldable pub distance_m : F → F → F → F → F
  unfolding meters_per_deg_lon
  distance_m lat1 lon1 lat2 lon2 =
      let m_lon = meters_per_deg_lon ((lat1 ⊕ lat2) ⊘ whole 2) in
      num.hypot ((lon2 ⊖ lon1) ⊗ m_lon) ((lat2 ⊖ lat1) ⊗ meters_per_deg_lat)
