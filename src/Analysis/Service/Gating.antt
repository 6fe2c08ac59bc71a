-- ===== src/Analysis/Service/Gating.antt =====
-- analysis.service.ts: a set of gates that was derived from a session's own fastest lap is used.
use kab23_motorsport_telemet.Prelude.{
  ℕ, suc, ◌≡◌, refl, ap, Bool, true, ◌||◌, List, [], ◌∷◌, map, any, none, some, leb, Bool-cases,
  inl, inr, arith,
}
use kab23_motorsport_telemet.Sessions.{gates}
use kab23_motorsport_telemet.Tracks.{Track, set_derived_sector_gates}
use kab23_motorsport_telemet.Analysis.Numbers.{Numbers, ◌<?◌}
use kab23_motorsport_telemet.Analysis.Points.{Gate, DerivedLap}
use kab23_motorsport_telemet.Analysis.SectorGates.{SectorGatesResolution, default_sector_count}
use kab23_motorsport_telemet.Analysis.SectorGates.Valid.{Divides, derive_sector_gates-Divides}
use kab23_motorsport_telemet.Analysis.Service.{
  known_of, apply_gates, apply_sector_gates, derive_sector_gates_for,
}
use kab23_motorsport_telemet.Analysis.Office.{
  Office, fastest_from, fastest_lap, regated, has_sectors, gate_of,
}

module _ {F : Type 0} ⦃num : Numbers F⦄ where
  -- The laps with their times by these gates.
  abbrev with_times : List (Gate F) → DerivedLap F → Bool
  with_times set l = has_sectors (regated set l)

  any-fastest_from :
      (set : List (Gate F)) (best : ℕ × DerivedLap F) (i : ℕ) (ls : List (DerivedLap F))
      → with_times set (fastest_from best i ls).1 ≡ true
      → (with_times set best.1 || any has_sectors (map (regated set) ls)) ≡ true
  unfolding fastest_from
  any-fastest_from set best i [] timed = ground arith
  any-fastest_from set best i (l ∷ ls) timed = elim (Bool-cases (l.lap_ms <? best.1.lap_ms)) [
    | inl faster ↦
        let rest = any-fastest_from set (i, l) (suc i) ls (rw (faster, fastest_from) at timed) in
        ground (arith, rest)
    | inr slower ↦
        let rest = any-fastest_from set best (suc i) ls (rw (slower, fastest_from) at timed) in
        ground (arith, rest)
  ]

  module _ (env : Office F) where
    -- If a track has no sector gates and a set is derived from the fastest of the laps, then the
    -- set divides that lap into three sectors, every lap is timed by it, the split is by gates,
    -- and the set is stored with the track: it is never turned down.
    pub apply_sector_gates-derived :
        (now : ℕ) (track : Track F) (l : DerivedLap F) (ls : List (DerivedLap F))
        (t : env.tracks.Table) (r : SectorGatesResolution F)
        → known_of env track ≡ none
        → derive_sector_gates_for env track (gate_of track) l ls ≡ some r
        → (Divides
            (fastest_lap l ls).1.points.opening
            (fastest_lap l ls).1.points.after
            r.gates
            default_sector_count)
          × (apply_sector_gates env now track (gate_of track) l ls t ≡ (
            (regated r.gates l, map (regated r.gates) ls),
            gates,
            set_derived_sector_gates env.tracks track.id
                (record {
                  derived = record { gates = r.gates; source = r.source };
                  derived_at = now;
                })
                t,
          ))
    unfolding derive_sector_gates_for apply_sector_gates apply_gates fastest_lap
    apply_sector_gates-derived now track l ls t r unknown derived =
        let best = (fastest_lap l ls).1 in
        let valid =
          derive_sector_gates-Divides _ best.points.opening best.points.after r refl derived in
        let timed : with_times r.gates best ≡ true = ap (leb 1) valid.0.1 in
        let some_lap = any-fastest_from r.gates (0, l) 1 ls timed in
        (valid.0, rw (unknown, derived) (rw (some_lap, valid.1) refl))
