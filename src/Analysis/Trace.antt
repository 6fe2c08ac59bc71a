-- ===== src/Analysis/Trace.antt =====
-- lap-trace.ts: the racing line of a lap on a distance axis.
-- An array with a point in it is its first point and the rest.
pub mod Thinning
use kab23_motorsport_telemet.Prelude.{
  ℕ, zero, suc, ◌-◌, Bool, true, false, ◌&&◌, ◌||◌, List, [], ◌∷◌, ◌++◌, map, Option, none, some,
  select, length, leb, ltb, if◌then◌else◌,
}
use kab23_motorsport_telemet.Analysis.Numbers.{Numbers, ◌⊕◌, ◌⊖◌, ◌⊗◌, ◌⊘◌, ◌<?◌, ◌≤?◌, ◌=?◌, whole}
use kab23_motorsport_telemet.Analysis.Points.{
  AnalysisSample, LapPoint, Fix, located, lerp_channel, round_to,
}
use kab23_motorsport_telemet.Analysis.Distance.{points_from}

pub record LapBounds (F : Type 0) : Type 0 where
  pub start_ms : F
  pub end_ms : F

-- A sample with its position.
pub record Located (F : Type 0) : Type 0 where
  pub fix : Fix F
  pub rpm : Option F
  pub coolant_c : Option F
  pub oil_c : Option F
  pub g_lat : Option F

pub record TracePoint (F : Type 0) : Type 0 where
  pub dist_m : F
  pub elapsed_ms : F
  pub lat : F
  pub lon : F
  pub speed_kmh : Option F
  pub rpm : Option F
  pub coolant_c : Option F
  pub oil_c : Option F
  pub g_lat : Option F
  pub g_lon : Option F

-- What `bracketBy` finds; `exact` tells whether both ends are the same point.
pub record Bracket (F : Type 0) : Type 0 where
  pub from : TracePoint F
  pub to : TracePoint F
  pub t : F
  pub exact : Bool

-- The last of an array that starts with this.
abbrev pub final {ℓ} : {A : Type ℓ} → A → List A → A
final a [] = a
final a (b ∷ bs) = final b bs

module _ {F : Type 0} ⦃num : Numbers F⦄ where
  with_channels : AnalysisSample F → Option (Fix F) → Option (Located F)
  with_channels s none = none
  with_channels s (some f) =
      some
        (record { fix = f; rpm = s.rpm; coolant_c = s.coolant_c; oil_c = s.oil_c; g_lat = s.g_lat })

  -- `samples.filter(isPositioned)`
  unfoldable pub positioned : List (AnalysisSample F) → List (Located F)
  unfolding with_channels
  positioned [] = []
  positioned (s ∷ ss) =
      let rest = positioned ss in
      elim (with_channels s (located s)) [ none ↦ rest | some l ↦ l ∷ rest ]

  abbrev pub lerp : F → F → F → F
  lerp a b t = a ⊕ t ⊗ (b ⊖ a)

  abbrev pub between : Located F → Located F → F → Located F
  between a b at_ms =
      let t = (at_ms ⊖ a.fix.time_ms) ⊘ (b.fix.time_ms ⊖ a.fix.time_ms) in
      record {
        fix = record {
          time_ms = at_ms;
          lat = lerp a.fix.lat b.fix.lat t;
          lon = lerp a.fix.lon b.fix.lon t;
          speed_kmh = lerp_channel a.fix.speed_kmh b.fix.speed_kmh t;
          g_lon = lerp_channel a.fix.g_lon b.fix.g_lon t;
        };
        rpm = lerp_channel a.rpm b.rpm t;
        coolant_c = lerp_channel a.coolant_c b.coolant_c t;
        oil_c = lerp_channel a.oil_c b.oil_c t;
        g_lat = lerp_channel a.g_lat b.g_lat t;
      }

  interpolate_from : Located F → List (Located F) → F → Option (Located F)
  interpolate_from a [] at_ms = none
  interpolate_from a (b ∷ bs) at_ms =
      let rest = interpolate_from b bs at_ms in
      if a.fix.time_ms =? at_ms || b.fix.time_ms =? at_ms
      then none
      else if at_ms <? a.fix.time_ms || b.fix.time_ms <? at_ms
      then rest
      else some (between a b at_ms)

  unfoldable pub interpolate_at : List (Located F) → F → Option (Located F)
  unfolding interpolate_from
  interpolate_at [] at_ms = none
  interpolate_at (a ∷ as_) at_ms = interpolate_from a as_ at_ms

  abbrev pub to_list : Option (Located F) → List (Located F)
  to_list none = []
  to_list (some l) = l ∷ []

  unfoldable pub anchor_to_lap : List (Located F) → LapBounds F → List (Located F)
  unfolding interpolate_at
  anchor_to_lap ls bounds =
      let inside =
        select (λ l. bounds.start_ms ≤? l.fix.time_ms && l.fix.time_ms ≤? bounds.end_ms) ls in
      to_list (interpolate_at ls bounds.start_ms)
      ++ (inside ++ to_list (interpolate_at ls bounds.end_ms))

  abbrev pub on_trace : F → Located F → F → TracePoint F
  on_trace origin_ms l dist_m = record {
    dist_m = dist_m;
    elapsed_ms = l.fix.time_ms ⊖ origin_ms;
    lat = l.fix.lat;
    lon = l.fix.lon;
    speed_kmh = l.fix.speed_kmh;
    rpm = l.rpm;
    coolant_c = l.coolant_c;
    oil_c = l.oil_c;
    g_lat = l.g_lat;
    g_lon = l.fix.g_lon;
  }

  -- The axis has a point for each sample: an interpolated position is a number too.
  unfoldable pub along : F → List (Located F) → List (LapPoint F) → List (TracePoint F)
  along origin_ms [] ps = []
  along origin_ms (l ∷ ls) [] = []
  along origin_ms (l ∷ ls) (p ∷ ps) = on_trace origin_ms l p.dist_m ∷ along origin_ms ls ps

  -- From the second point on.
  unfoldable pub thin : F → F → TracePoint F → List (TracePoint F) → List (TracePoint F)
  thin spacing next_m p [] = p ∷ []
  thin spacing next_m p (q ∷ qs) =
      let kept = p ∷ thin spacing ((num.floor (p.dist_m ⊘ spacing) ⊕ whole 1) ⊗ spacing) q qs in
      let rest = thin spacing next_m q qs in if next_m ≤? p.dist_m then kept else rest

  unfoldable pub decimate_by_distance : List (TracePoint F) → ℕ → List (TracePoint F)
  unfolding thin
  decimate_by_distance [] max_points = []
  decimate_by_distance (p ∷ []) max_points = p ∷ []
  decimate_by_distance (p ∷ q ∷ qs) max_points =
      let spacing = (final q qs).dist_m ⊘ whole (max_points - 1) in
      let thinned = p ∷ thin spacing spacing q qs in
      if leb (length (p ∷ q ∷ qs)) max_points || ltb max_points 2 then p ∷ q ∷ qs else thinned

  trace_of : List (Located F) → List (TracePoint F)
  unfolding along
  trace_of [] = []
  trace_of (l ∷ ls) =
      along l.fix.time_ms (l ∷ ls) (points_from (map (λ (x : Located F). x.fix) (l ∷ ls)))

  unfoldable pub build_lap_trace : List (AnalysisSample F) → ℕ → LapBounds F → List (TracePoint F)
  unfolding trace_of anchor_to_lap decimate_by_distance
  build_lap_trace samples max_points bounds =
      decimate_by_distance (trace_of (anchor_to_lap (positioned samples) bounds)) max_points

  abbrev pub clamped : TracePoint F → Bracket F
  clamped p = record { from = p; to = p; t = whole 0; exact = true }

  unfoldable pub bracket_scan :
      (TracePoint F → F) → F → TracePoint F → List (TracePoint F) → Bracket F
  bracket_scan key target a [] = clamped a
  bracket_scan key target a (b ∷ bs) =
      let rest = bracket_scan key target b bs in
      let span = key b ⊖ key a in
      if key b <? target then rest else record {
        from = a;
        to = b;
        t = if whole 0 <? span then (target ⊖ key a) ⊘ span else whole 0;
        exact = false;
      }

  unfoldable pub bracket_by :
      (TracePoint F → F) → F → TracePoint F → List (TracePoint F) → Bracket F
  unfolding bracket_scan
  bracket_by key target p [] = clamped p
  bracket_by key target p (q ∷ qs) =
      if target ≤? key p
      then clamped p
      else if key (final q qs) ≤? target
      then clamped (final q qs)
      else bracket_scan key target p (q ∷ qs)

  unfoldable pub interpolate_trace_point_at : TracePoint F → List (TracePoint F) → F → TracePoint F
  unfolding bracket_by
  interpolate_trace_point_at p ps dist_m =
      let found = bracket_by (λ x. x.dist_m) dist_m p ps in
      let a = found.from in
      let b = found.to in
      if found.exact then a else record {
        dist_m = dist_m;
        elapsed_ms = lerp a.elapsed_ms b.elapsed_ms found.t;
        lat = lerp a.lat b.lat found.t;
        lon = lerp a.lon b.lon found.t;
        speed_kmh = lerp_channel a.speed_kmh b.speed_kmh found.t;
        rpm = lerp_channel a.rpm b.rpm found.t;
        coolant_c = lerp_channel a.coolant_c b.coolant_c found.t;
        oil_c = lerp_channel a.oil_c b.oil_c found.t;
        g_lat = lerp_channel a.g_lat b.g_lat found.t;
        g_lon = lerp_channel a.g_lon b.g_lon found.t;
      }

  unfoldable pub distance_at_elapsed : TracePoint F → List (TracePoint F) → F → F
  unfolding bracket_by
  distance_at_elapsed p ps elapsed_ms =
      let found = bracket_by (λ x. x.elapsed_ms) elapsed_ms p ps in
      lerp found.from.dist_m found.to.dist_m found.t
