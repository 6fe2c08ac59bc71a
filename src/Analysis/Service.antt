-- ===== src/Analysis/Service.antt =====
-- analysis.service.ts: the laps of a session, derived when they are read first. A derivation runs
-- alone, and the clock stands still while it does.
pub mod Memo
pub mod Rows
pub mod Deriving
pub mod Gating
pub mod Traces
pub mod Answering
mod Examples
use kab23_motorsport_telemet.Prelude.{
  ℕ, zero, suc, ◌≡◌, String, Bool, true, false, ◌&&◌, List, [], ◌∷◌, map, any, Option, none, some,
  Result, ok, err, Exec, ◌>>=◌, get_or, length, leb, ltb, ◌=ⁿ◌, if◌then◌else◌,
}
use kab23_motorsport_telemet.Prelude.Assoc.{lookup, insert, erase}
use kab23_motorsport_telemet.Repository.{Repository}
use kab23_motorsport_telemet.Repository.Abstract.{failed_query}
use kab23_motorsport_telemet.Teams.{User}
use kab23_motorsport_telemet.Cars.{CarsError, http}
use kab23_motorsport_telemet.Ingest.Sessions.{SessionStatus, live, is_live}
use kab23_motorsport_telemet.Sessions.{
  Session, SectorScheme, gates, distance, Paddock, Runs, require_readable_session, set_analyzed_at,
}
use kab23_motorsport_telemet.Tracks.{
  Track, StoredGates, ReadyCircuit, Spelling, track_key, same_slug, resolve,
  set_derived_sector_gates,
}
use kab23_motorsport_telemet.Analysis.Numbers.{Numbers, ◌<?◌}
use kab23_motorsport_telemet.Analysis.Points.{AnalysisSample, Gate, DerivedLap, points_of}
use kab23_motorsport_telemet.Analysis.Sectors.{sector_times_from_gates}
use kab23_motorsport_telemet.Analysis.SectorGates.{
  DerivedSectorGates, SectorGatesResolution, KnownSectorGatesInput, default_sector_count,
  known_sector_gates, derive_sector_gates,
}
use kab23_motorsport_telemet.Analysis.Segmenter.{segment_laps}
use kab23_motorsport_telemet.Analysis.Optimal.{OptimalLap, OptimalLapInput, build_optimal_lap}
use kab23_motorsport_telemet.Analysis.Laps.{
  Lap, LapsTable, insert_ignoring_duplicates, replace_session,
}
use kab23_motorsport_telemet.Analysis.Office.{
  AnalysisSkipReason, Desk, LapsResponse, NoCrossingsMemo, Office, fastest_lap, gate_of,
  has_sectors, max_analysis_samples, no_crossings, no_samples, no_track_gate, regated,
  remember_no_crossings, respond, same_memo, session_live, to_rows, too_many_samples,
}

module _ {F : Type 0} ⦃num : Numbers F⦄ (env : Office F) where
  abbrev pub Action : Type 0 → Type 0
  Action A = Exec CarsError (Desk env) A

  abbrev pub on_runs : {A : Type 0} → Exec CarsError (Runs env.paddock) A → Action A
  on_runs q s = ((q s.runs).0, record s { runs = (q s.runs).1 })

  unfoldable pub derive_sector_gates_for :
      Track F → Gate F → DerivedLap F → List (DerivedLap F) → Option (SectorGatesResolution F)
  unfolding fastest_lap
  derive_sector_gates_for track sf_gate l ls =
      let circuit = env.ready_circuit track in
      derive_sector_gates (record {
        sf_gate = sf_gate;
        ring = elim circuit [ none ↦ none | some c ↦ some c.ring ];
        centreline_length_m = elim circuit [ none ↦ none | some c ↦ c.centreline_length_m ];
        reference_lap = some (points_of (fastest_lap l ls).1.points);
        sector_count = none;
      })

  abbrev pub known_of : Track F → Option (SectorGatesResolution F)
  known_of track = known_sector_gates (record {
    surveyed_gates = track.sector_gates;
    persisted_derived_gates = elim track.derived_sector_gates [
      | none ↦ none
      | some g ↦ some g.derived
    ];
  })

  abbrev pub or_derived_for :
      Option (SectorGatesResolution F)
      → Track F
      → Gate F
      → DerivedLap F
      → List (DerivedLap F)
      → Option (SectorGatesResolution F)
  or_derived_for (some r) track sf_gate l ls = some r
  or_derived_for none track sf_gate l ls = derive_sector_gates_for track sf_gate l ls

  abbrev pub persist :
      ℕ → Track F → Option (DerivedSectorGates F) → env.tracks.Table → env.tracks.Table
  persist now track none t = t
  persist now track (some d) t =
      set_derived_sector_gates env.tracks track.id (record { derived = d; derived_at = now }) t

  -- The laps of a session, with how they were split and the tracks after that.
  abbrev pub Gated : Type 0
  Gated = (DerivedLap F × List (DerivedLap F)) × SectorScheme × env.tracks.Table

  unfoldable pub apply_gates :
      ℕ
      → Track F
      → DerivedLap F
      → List (DerivedLap F)
      → Option (SectorGatesResolution F)
      → env.tracks.Table
      → Gated
  apply_gates now track l ls none t = ((l, ls), distance, t)
  apply_gates now track l ls (some r) t =
      if any has_sectors (map (regated r.gates) (l ∷ ls))
      then (
        (regated r.gates l, map (regated r.gates) ls),
        gates,
        persist now track r.newly_derived t,
      )
      else ((l, ls), distance, t)

  unfoldable pub apply_sector_gates :
      ℕ → Track F → Gate F → DerivedLap F → List (DerivedLap F) → env.tracks.Table → Gated
  unfolding apply_gates
  apply_sector_gates now track sf_gate l ls t =
      apply_gates now track l ls (or_derived_for (known_of track) track sf_gate l ls) t

  unfoldable pub skip : Session → AnalysisSkipReason → Bool → Action (LapsResponse F)
  unfolding respond
  skip session reason replace s =
      let held = env.laps.find_by_session session.id s.laps in
      (ok (respond session (if replace then held else []) (some reason)), s)

  -- After the stamp: what is read back.
  unfoldable pub read_back : ℕ → Session → SectorScheme → Action (LapsResponse F)
  unfolding respond
  read_back now session scheme s = (
    ok (
        respond (record session { analyzed_at = some now; sector_scheme = some scheme })
          (env.laps.find_by_session session.id s.laps) none),
    record s { memo = erase session.id s.memo },
  )

  -- After the rows are committed.
  unfoldable pub stamp : ℕ → Session → SectorScheme → Action (LapsResponse F)
  unfolding set_analyzed_at read_back
  stamp now session scheme = do
    written ← on_runs (set_analyzed_at env.paddock session.id now scheme)
    read_back now session scheme

  unfoldable pub write_laps : Bool → String → List (Lap F) → env.laps.Table → Option env.laps.Table
  unfolding insert_ignoring_duplicates replace_session
  write_laps replace session_id laps t =
      if replace
      then replace_session env.laps session_id laps t
      else insert_ignoring_duplicates env.laps laps t

  unfoldable pub commit :
      ℕ → Session → SectorScheme → Option env.laps.Table → Action (LapsResponse F)
  unfolding stamp
  commit now session scheme none s = (err (http failed_query), s)
  commit now session scheme (some t) s = stamp now session scheme (record s { laps = t })

  unfoldable pub store : ℕ → Bool → Session → Gated → Action (LapsResponse F)
  unfolding commit write_laps to_rows
  store now replace session ((l, ls), scheme, tracks) s =
      let laps = to_rows session.id l ls in
      commit now session scheme (write_laps replace session.id laps s.laps)
        (record s { tracks = tracks })

  unfoldable pub on_laps :
      ℕ → Bool → Session → Track F → NoCrossingsMemo → List (DerivedLap F) → Action (LapsResponse F)
  unfolding skip store apply_sector_gates
  on_laps now replace session track seen [] s =
      skip session no_crossings replace
        (record s { memo = remember_no_crossings session.id seen s.memo })
  on_laps now replace session track seen (l ∷ ls) s =
      store now replace session (apply_sector_gates now track (gate_of track) l ls s.tracks) s

  abbrev pub seen_now : ℕ → Session → Track F → NoCrossingsMemo
  seen_now now session track = record {
    sample_count =
        env.samples.count_range session.id session.started_at (get_or session.ended_at now);
    track_updated_ms = get_or track.updated_at 0;
  }

  abbrev pub segmented : ℕ → Session → Track F → List (DerivedLap F)
  segmented now session track =
      segment_laps
        (env.samples.find_range session.id session.started_at (get_or session.ended_at now))
        (gate_of track) default_sector_count none

  -- From the number of samples on.
  unfoldable pub on_track : ℕ → Bool → Session → Track F → Action (LapsResponse F)
  unfolding skip on_laps
  on_track now replace session track s =
      let seen = seen_now now session track in
      if seen.sample_count =ⁿ 0
      then skip session no_samples replace s
      else if ltb max_analysis_samples seen.sample_count
      then skip session too_many_samples replace s
      else if same_memo seen.sample_count seen.track_updated_ms (lookup session.id s.memo)
      then skip session no_crossings replace s
      else on_laps now replace session track seen (segmented now session track) s

  unfoldable pub on_resolved : ℕ → Bool → Session → Option (Track F) → Action (LapsResponse F)
  unfolding skip on_track
  on_resolved now replace session none = skip session no_track_gate replace
  on_resolved now replace session (some track) = on_track now replace session track

  unfoldable pub derive : ℕ → Bool → Session → Action (LapsResponse F)
  unfolding skip on_resolved
  derive now replace session s =
      if is_live session.status
      then skip session session_live replace s
      else on_resolved now replace session (resolve env.spelling env.tracks session.track s.tracks)
          s

  -- The rows of an analysed session are read; any other is derived.
  unfoldable pub laps_of : ℕ → Session → Option ℕ → Action (LapsResponse F)
  unfolding respond derive
  laps_of now session none = derive now false session
  laps_of now session (some at) =
      λ s. (ok (respond session (env.laps.find_by_session session.id s.laps) none), s)

  unfoldable pub get_laps : ℕ → User → String → Action (LapsResponse F)
  unfolding laps_of
  get_laps now user session_id = do
    session ← on_runs (require_readable_session env.paddock user session_id)
    laps_of now session session.analyzed_at

  -- `noCrossings.delete`
  abbrev pub forget_memo : String → Action (Unit {0})
  forget_memo session_id s = (ok tt, record s { memo = erase session_id s.memo })

  unfoldable pub recompute : ℕ → User → String → Action (LapsResponse F)
  unfolding derive
  recompute now user session_id = do
    session ← on_runs (require_readable_session env.paddock user session_id)
    forgotten ← forget_memo session_id
    derive now true session
