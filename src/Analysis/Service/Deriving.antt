-- ===== src/Analysis/Service/Deriving.antt =====
-- analysis.service.ts: what a derivation answers and what it leaves, on every branch.
use kab23_motorsport_telemet.Prelude.{
  continue, ℕ, ◌≡◌, refl, String, Bool, true, List, [], ◌∷◌, ◌++◌, map, any, count, reject, rewrite,
  Option, none, some, is_some, Result, ok, err, ltb, ◌=ⁿ◌, if◌then◌else◌, Bool-cases, inl, inr, ◌⊎◌,
}
use kab23_motorsport_telemet.Prelude.Assoc.{lookup}
use kab23_motorsport_telemet.Repository.Effects.{rows-update}
use kab23_motorsport_telemet.Cars.{CarsError}
use kab23_motorsport_telemet.Ingest.Sessions.{is_live}
use kab23_motorsport_telemet.Sessions.{Session, SectorScheme, set_analyzed_at, by_id}
use kab23_motorsport_telemet.Tracks.{Track, resolve}
use kab23_motorsport_telemet.Analysis.Numbers.{Numbers}
use kab23_motorsport_telemet.Analysis.Points.{DerivedLap}
use kab23_motorsport_telemet.Analysis.SectorGates.{SectorGatesResolution, default_sector_count}
use kab23_motorsport_telemet.Analysis.Laps.{Lap, of_session, insert_new}
use kab23_motorsport_telemet.Analysis.Service.{
  skip, commit, stamp, read_back, store, on_laps, on_track, on_resolved, derive, seen_now,
  segmented, write_laps, apply_gates, apply_sector_gates, known_of, or_derived_for,
}
use kab23_motorsport_telemet.Analysis.Office.{
  NoCrossingsMemo, AnalysisSkipReason, no_samples, too_many_samples, no_crossings, no_track_gate,
  session_live, same_memo, Office, Desk, LapsResponse, max_analysis_samples, to_rows, regated,
  has_sectors, respond, gate_of,
}
use kab23_motorsport_telemet.Analysis.Service.Rows.{
  Numbered, Consecutive, best_row, replace_session-rows, insert_ignoring_duplicates-rows,
  to_rows-one_best, to_rows-Numbered, segment_laps-Consecutive, regated-Consecutive,
}

module _ {F : Type 0} ⦃num : Numbers F⦄ (env : Office F) where
  abbrev pub lap_rows : Desk env → List (Lap F)
  lap_rows s = env.laps.rows s.laps

  abbrev pub session_rows : Desk env → List Session
  session_rows s = env.paddock.sessions.rows s.runs.sessions

  -- Nothing was derived: no table has changed, and the answer has the reason and, where laps were
  -- to be replaced, those that are held.
  pub record Kept (replace : Bool) (id : String) (r : LapsResponse F) (s s' : Desk env)
      : Type 0 where
    pub same_laps : s'.laps ≡ s.laps
    pub same_runs : s'.runs ≡ s.runs
    pub same_tracks : s'.tracks ≡ s.tracks
    pub reason : is_some r.reason ≡ true
    pub held : r.laps ≡ (if replace then env.laps.find_by_session id s.laps else [])

  -- The rows after `new` laps were written for a session.
  abbrev pub written : Bool → String → List (Lap F) → List (Lap F) → List (Lap F)
  written replace id new rows =
      if replace then reject (of_session id) rows ++ new else insert_new new rows

  -- Laps of this session, numbered from 1 on, of which exactly one is the best, are written.
  abbrev pub Written : Bool → String → List (Lap F) → List (Lap F) → Type 0
  Written replace id before after =
      (new : List (Lap F)) × Numbered id 1 new
      × (count best_row new ≡ 1)
      × (after ≡ written replace id new before)

  abbrev pub stamped : ℕ → SectorScheme → Session → Session
  stamped now scheme session = record session {
    analyzed_at = some now;
    sector_scheme = some scheme;
  }

  pub record Stored (now : ℕ) (replace : Bool) (id : String) (r : LapsResponse F) (s s' : Desk env)
      : Type 0 where
    pub rows : Written replace id (lap_rows s) (lap_rows s')
    pub scheme : SectorScheme
    pub sessions :
        session_rows s' ≡ rewrite (by_id env.paddock id) (stamped now scheme) (session_rows s)
    pub no_reason : r.reason ≡ none
    pub read : r.laps ≡ env.laps.find_by_session id s'.laps
    pub answered : (r.analyzed_at ≡ some now) × (r.sector_scheme ≡ some scheme)

  -- A throw comes before any lap is written, or after all are.
  abbrev pub Outcome :
      ℕ → Bool → String → Desk env → Result CarsError (LapsResponse F) → Desk env → Type 0
  Outcome now replace id s (ok r) s' = Kept replace id r s s' ⊎ Stored now replace id r s s'
  Outcome now replace id s (err e) s' =
      ((s'.laps ≡ s.laps) × (s'.runs ≡ s.runs)) ⊎ Written replace id (lap_rows s) (lap_rows s')

  read_back-Outcome :
      (now : ℕ) (replace : Bool) (session : Session) (scheme : SectorScheme) (s s₁ : Desk env)
      (r : Result CarsError Session)
      → Written replace session.id (lap_rows s) (lap_rows s₁)
      → session_rows s₁
        ≡ rewrite (by_id env.paddock session.id) (stamped now scheme) (session_rows s)
      → let done = continue r (λ row. read_back env now session scheme) s₁ in
        Outcome now replace session.id s done.0 done.1
  unfolding read_back respond
  read_back-Outcome now replace session scheme s s₁ (err e) rows sessions = inr rows
  read_back-Outcome now replace session scheme s s₁ (ok row) rows sessions = inr (record {
    rows = rows;
    scheme = scheme;
    sessions = sessions;
    no_reason = refl;
    read = refl;
    answered = (refl, refl);
  })

  commit-Outcome :
      (now : ℕ) (replace : Bool) (session : Session) (scheme : SectorScheme)
      (tracks : env.tracks.Table) (o : Option env.laps.Table) (s : Desk env)
      → ((t : env.laps.Table)
          → o ≡ some t
          → Written replace session.id (lap_rows s) (env.laps.rows t))
      → let done = commit env now session scheme o (record s { tracks = tracks }) in
        Outcome now replace session.id s done.0 done.1
  unfolding commit stamp
  commit-Outcome now replace session scheme tracks none s rows = inl (refl, refl)
  commit-Outcome now replace session scheme tracks (some t) s rows =
      let stamping = set_analyzed_at env.paddock session.id now scheme s.runs in
      read_back-Outcome now replace session scheme s
        (record s { runs = stamping.1; tracks = tracks; laps = t }) stamping.0 (rows t refl)
        (unfold set_analyzed_at in
          rows-update env.paddock.sessions s.runs.sessions (by_id env.paddock session.id)
            (stamped now scheme))

  write_laps-Written :
      (replace : Bool) (id : String) (l : DerivedLap F) (ls : List (DerivedLap F))
      (t t' : env.laps.Table)
      → Consecutive 1 (l ∷ ls)
      → write_laps env replace id (to_rows id l ls) t ≡ some t'
      → Written replace id (env.laps.rows t) (env.laps.rows t')
  unfolding write_laps
  write_laps-Written replace id l ls t t' numbers e = (
    to_rows id l ls,
    to_rows-Numbered id l ls numbers,
    to_rows-one_best id l ls,
    elim (Bool-cases replace) [
      | inl swaps ↦ rw swaps (
          replace_session-rows env.laps id 1 (to_rows id l ls) t t'
            (to_rows-Numbered id l ls numbers) (rw swaps at e))
      | inr adds ↦
          rw adds (insert_ignoring_duplicates-rows env.laps (to_rows id l ls) t t' (rw adds at e))
    ],
  )

  apply_gates-Consecutive :
      (now : ℕ) (track : Track F) (l : DerivedLap F) (ls : List (DerivedLap F))
      (o : Option (SectorGatesResolution F)) (t : env.tracks.Table)
      → Consecutive 1 (l ∷ ls)
      → let laps = (apply_gates env now track l ls o t).0 in Consecutive 1 (laps.0 ∷ laps.1)
  unfolding apply_gates
  apply_gates-Consecutive now track l ls none t numbers = numbers
  apply_gates-Consecutive now track l ls (some r) t numbers =
      elim (Bool-cases (any has_sectors (map (regated r.gates) (l ∷ ls)))) [
        | inl useful ↦ rw useful (regated-Consecutive 1 r.gates (l ∷ ls) numbers)
        | inr useless ↦ rw useless numbers
      ]

  on_laps-Outcome :
      (now : ℕ) (replace : Bool) (session : Session) (track : Track F) (seen : NoCrossingsMemo)
      (laps : List (DerivedLap F)) (s : Desk env)
      → Consecutive 1 laps
      → let done = on_laps env now replace session track seen laps s in
        Outcome now replace session.id s done.0 done.1
  unfolding on_laps store skip respond
  on_laps-Outcome now replace session track seen [] s numbers = inl (record {
    same_laps = refl;
    same_runs = refl;
    same_tracks = refl;
    reason = refl;
    held = refl;
  })
  on_laps-Outcome now replace session track seen (l ∷ ls) s numbers =
      let (laps, scheme, tracks) = apply_sector_gates env now track (gate_of track) l ls s.tracks in
      commit-Outcome now replace session scheme tracks _ s (λ t.
        write_laps-Written replace session.id laps.0 laps.1 s.laps t (
          unfold apply_sector_gates in
          apply_gates-Consecutive now track l ls
            (or_derived_for env (known_of env track) track (gate_of track) l ls) s.tracks numbers))

  skip-Outcome :
      (now : ℕ) (replace : Bool) (session : Session) (why : AnalysisSkipReason) (s : Desk env)
      → let done = skip env session why replace s in Outcome now replace session.id s done.0 done.1
  unfolding skip respond
  skip-Outcome now replace session why s = inl (record {
    same_laps = refl;
    same_runs = refl;
    same_tracks = refl;
    reason = refl;
    held = refl;
  })

  on_track-Outcome :
      (now : ℕ) (replace : Bool) (session : Session) (track : Track F) (s : Desk env)
      → let done = on_track env now replace session track s in
        Outcome now replace session.id s done.0 done.1
  unfolding on_track
  on_track-Outcome now replace session track s =
      let seen = seen_now env now session track in
      let skips = λ (why : AnalysisSkipReason). skip-Outcome now replace session why s in
      elim (Bool-cases (seen.sample_count =ⁿ 0)) [
        | inl empty ↦ rw empty (skips no_samples)
        | inr some_samples ↦ elim (Bool-cases (ltb max_analysis_samples seen.sample_count)) [
          | inl many ↦ rw (some_samples, many) (skips too_many_samples)
          | inr enough ↦
              elim (Bool-cases
                (same_memo seen.sample_count seen.track_updated_ms (lookup session.id s.memo))) [
                  | inl hit ↦ rw (some_samples, enough, hit) (skips no_crossings)
                  | inr other ↦
                      rw (some_samples, enough, other)
                        (on_laps-Outcome now replace session track seen
                          (segmented env now session track) s
                          (segment_laps-Consecutive _ (gate_of track) default_sector_count none))
                ]
        ]
      ]

  on_resolved-Outcome :
      (now : ℕ) (replace : Bool) (session : Session) (found : Option (Track F)) (s : Desk env)
      → let done = on_resolved env now replace session found s in
        Outcome now replace session.id s done.0 done.1
  unfolding on_resolved
  on_resolved-Outcome now replace session none s = skip-Outcome now replace session no_track_gate s
  on_resolved-Outcome now replace session (some track) s =
      on_track-Outcome now replace session track s

  -- A derivation, first or forced, on every branch. Without new laps no table changes, and the
  -- answer has a reason and, if forced, the laps that are held. Otherwise laps of the session,
  -- numbered from 1 on and of which exactly one is the best, are inserted, or if forced take the
  -- place of its old ones, its row is stamped, and the stored laps are answered. A throw comes
  -- before any lap and session is written, or after the laps are.
  pub derive-Outcome :
      (now : ℕ) (replace : Bool) (session : Session) (s : Desk env)
      → let done = derive env now replace session s in
        Outcome now replace session.id s done.0 done.1
  unfolding derive
  derive-Outcome now replace session s = elim (Bool-cases (is_live session.status)) [
    | inl running ↦ rw running (skip-Outcome now replace session session_live s)
    | inr over ↦ rw over (
        on_resolved-Outcome now replace session
          (resolve env.spelling env.tracks session.track s.tracks) s)
  ]
