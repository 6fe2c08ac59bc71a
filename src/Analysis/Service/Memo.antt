-- ===== src/Analysis/Service/Memo.antt =====
-- analysis.service.ts: the map `noCrossings`, what it holds and that it changes no answer.
use kab23_motorsport_telemet.Prelude.{
  Exec, continue, ℕ, ◌+◌, ◌≤◌, ◌≡◌, refl, ap, ◌∙◌, String, Bool, true, false, ◌&&◌, List, [], ◌∷◌,
  Option, none, some, get_or, Result, ok, err, length, leb, ltb, ◌==◌, ◌=ⁿ◌, if◌then◌else◌,
  Bool-cases, inl, inr, arith, eq_refl,
}
use kab23_motorsport_telemet.Prelude.Assoc.{
  lookup, erase, lookup-insert, lookup-erase, length-insert-le, length-erase_first,
}
use kab23_motorsport_telemet.Cars.{CarsError}
use kab23_motorsport_telemet.Ingest.Sessions.{is_live}
use kab23_motorsport_telemet.Sessions.{Session, SectorScheme, set_analyzed_at}
use kab23_motorsport_telemet.Tracks.{Track, resolve}
use kab23_motorsport_telemet.Analysis.Numbers.{Numbers}
use kab23_motorsport_telemet.Analysis.Points.{DerivedLap}
use kab23_motorsport_telemet.Analysis.Service.{
  skip, commit, stamp, read_back, store, on_laps, on_track, on_resolved, derive, seen_now,
  segmented, write_laps, apply_sector_gates,
}
use kab23_motorsport_telemet.Analysis.Office.{
  NoCrossingsMemo, no_crossings_memo_size, remember_no_crossings, drop_first, same_memo, Office,
  Desk, LapsResponse, max_analysis_samples, to_rows, gate_of,
}

abbrev pub Memo : Type 0
Memo = List (String × NoCrossingsMemo)

-- Whether this is the session whose entry gives way.
abbrev pub gives_way : String → Memo → Bool
gives_way asked [] = false
gives_way asked ((id, m) ∷ rest) =
    leb no_crossings_memo_size (length ((id, m) ∷ rest)) && id == asked

length-drop_first : (memo : Memo) → 1 ≤ length memo → 1 + length (drop_first memo) ≤ length memo
length-drop_first [] held = absurd (omega arith)
length-drop_first ((id, m) ∷ rest) held = omega (arith, length-erase_first id m rest)

lookup-drop_first :
    (asked : String) (memo : Memo)
    → leb no_crossings_memo_size (length memo) ≡ true
    → lookup asked (drop_first memo) ≡ (if gives_way asked memo then none else lookup asked memo)
lookup-drop_first asked [] full = cc
lookup-drop_first asked ((id, m) ∷ rest) full = rw full (lookup-erase id asked ((id, m) ∷ rest))

room :
    (asked : String) (memo : Memo)
    → leb no_crossings_memo_size (length memo) ≡ false
    → gives_way asked memo ≡ false
room asked [] free = refl
room asked ((id, m) ∷ rest) free = rw free refl

-- From a memo of at most 256 entries, remembering a session leaves one of at most 256, in which
-- this session has the new entry and every other the entry it had, but for the first of a full
-- memo, which is gone.
pub remember_no_crossings_lem :
    (session_id asked : String) (m : NoCrossingsMemo) (memo : Memo)
    → length memo ≤ no_crossings_memo_size
    → (length (remember_no_crossings session_id m memo) ≤ no_crossings_memo_size)
      × (lookup asked (remember_no_crossings session_id m memo) ≡ (
          if session_id == asked
          then some m
          else if gives_way asked memo
          then none
          else lookup asked memo))
unfolding remember_no_crossings
remember_no_crossings_lem session_id asked m memo bounded =
    elim (Bool-cases (leb no_crossings_memo_size (length memo))) [
      | inl full ↦
          let kept = lookup-insert session_id asked m (drop_first memo) in
          let fewer = length-drop_first memo (ground arith) in
          let size = length-insert-le session_id m (drop_first memo) in
          rw full (
            omega arith,
            kept
                ∙ ap (λ found. if session_id == asked then some m else found)
                    (lookup-drop_first asked memo full),
          )
      | inr free ↦
          let kept = lookup-insert session_id asked m memo in
          let size = length-insert-le session_id m memo in
          let no_one = room asked memo free in rw (free, no_one) (ground arith, kept)
    ]

module _ {F : Type 0} ⦃num : Numbers F⦄ (env : Office F) where
  -- The service without what it remembers of this session.
  abbrev pub forgetful : String → Desk env → Desk env
  forgetful session_id s = record s { memo = erase session_id s.memo }

  -- An entry with the count of the samples and the time of the track as of now was made for samples in which there is no lap.
  abbrev pub RemembersTruly : ℕ → Session → Desk env → Type 0
  RemembersTruly now session s =
      (track : Track F)
      → resolve env.spelling env.tracks session.track s.tracks ≡ some track
      → (m : NoCrossingsMemo) → lookup session.id s.memo ≡ some m
      → m.sample_count
        ≡ env.samples.count_range session.id session.started_at (get_or session.ended_at now)
      → m.track_updated_ms ≡ get_or track.updated_at 0
      → segmented env now session track ≡ []

  -- So the test for such an entry is passed only where there is no lap.
  truly_hit :
      (now : ℕ) (session : Session) (track : Track F) (found : Option NoCrossingsMemo)
      → ((m : NoCrossingsMemo)
          → found ≡ some m
          → m.sample_count
            ≡ env.samples.count_range session.id session.started_at (get_or session.ended_at now)
          → m.track_updated_ms ≡ get_or track.updated_at 0
          → segmented env now session track ≡ [])
      → let seen = seen_now env now session track in
        same_memo seen.sample_count seen.track_updated_ms found ≡ true
        → segmented env now session track ≡ []
  truly_hit now session track none truly hit = cc
  truly_hit now session track (some m) truly hit = truly m refl (ground arith) (ground arith)

  -- The answer does not depend on the memo.
  abbrev SameAnswer : Desk env → Desk env → Exec CarsError (Desk env) (LapsResponse F) → Type 0
  SameAnswer s s' q = (q s).0 ≡ (q s').0

  same_continue :
      {A B : Type 0} (r : Result CarsError A) (f : A → Exec CarsError (Desk env) B)
      (s s' : Desk env)
      → ((a : A) → (f a s).0 ≡ (f a s').0)
      → (continue r f s).0 ≡ (continue r f s').0
  same_continue (ok a) f s s' same = same a
  same_continue (err e) f s s' same = refl

  stamp-SameAnswer :
      (now : ℕ) (session : Session) (scheme : SectorScheme) (s : Desk env) (memo : Memo)
      → SameAnswer s (record s { memo = memo }) (stamp env now session scheme)
  unfolding stamp read_back
  stamp-SameAnswer now session scheme s memo =
      same_continue (set_analyzed_at env.paddock session.id now scheme s.runs).0 _ _ _
        (λ written. refl)

  commit-SameAnswer :
      (now : ℕ) (session : Session) (scheme : SectorScheme) (laps : Option env.laps.Table)
      (s : Desk env) (memo : Memo)
      → SameAnswer s (record s { memo = memo }) (commit env now session scheme laps)
  unfolding commit
  commit-SameAnswer now session scheme none s memo = refl
  commit-SameAnswer now session scheme (some t) s memo =
      stamp-SameAnswer now session scheme (record s { laps = t }) memo

  on_laps-SameAnswer :
      (now : ℕ) (replace : Bool) (session : Session) (track : Track F) (seen : NoCrossingsMemo)
      (laps : List (DerivedLap F)) (s : Desk env) (memo : Memo)
      → SameAnswer s (record s { memo = memo }) (on_laps env now replace session track seen laps)
  unfolding on_laps store skip
  on_laps-SameAnswer now replace session track seen [] s memo = refl
  on_laps-SameAnswer now replace session track seen (l ∷ ls) s memo =
      let (laps, scheme, tracks) = apply_sector_gates env now track (gate_of track) l ls s.tracks in
      commit-SameAnswer now session scheme
        (write_laps env replace session.id (to_rows session.id laps.0 laps.1) s.laps)
        (record s { tracks = tracks }) memo

  missed :
      (count updated_ms : ℕ) (id : String) (memo : Memo)
      → same_memo count updated_ms (lookup id (erase id memo)) ≡ false
  missed count updated_ms id memo =
      let gone : lookup id (erase id memo) ≡ none =
        lookup-erase id id memo ∙ ap (λ b. if b then none else lookup id memo) (eq_refl id) in
      ap (same_memo count updated_ms) gone

  on_track-SameAnswer :
      (now : ℕ) (replace : Bool) (session : Session) (track : Track F) (s : Desk env)
      → (let seen = seen_now env now session track in
          same_memo seen.sample_count seen.track_updated_ms (lookup session.id s.memo) ≡ true
          → segmented env now session track ≡ [])
      → SameAnswer s (forgetful session.id s) (on_track env now replace session track)
  unfolding on_track
  on_track-SameAnswer now replace session track s truly =
      let seen = seen_now env now session track in
      let miss = missed seen.sample_count seen.track_updated_ms session.id s.memo in
      elim (Bool-cases (seen.sample_count =ⁿ 0)) [
        | inl empty ↦ rw empty (unfold skip in refl)
        | inr some_samples ↦ elim (Bool-cases (ltb max_analysis_samples seen.sample_count)) [
          | inl many ↦ rw (some_samples, many) (unfold skip in refl)
          | inr enough ↦
              elim (Bool-cases
                (same_memo seen.sample_count seen.track_updated_ms (lookup session.id s.memo))) [
                  | inl hit ↦
                      rw (some_samples, enough, hit, miss, truly hit) (unfold skip on_laps in refl)
                  | inr other ↦
                      rw (some_samples, enough, other, miss)
                        (on_laps-SameAnswer now replace session track seen
                          (segmented env now session track) s (erase session.id s.memo))
                ]
        ]
      ]

  on_resolved-SameAnswer :
      (now : ℕ) (replace : Bool) (session : Session) (found : Option (Track F)) (s : Desk env)
      → ((track : Track F)
          → found ≡ some track
          → let seen = seen_now env now session track in
            same_memo seen.sample_count seen.track_updated_ms (lookup session.id s.memo) ≡ true
            → segmented env now session track ≡ [])
      → SameAnswer s (forgetful session.id s) (on_resolved env now replace session found)
  unfolding on_resolved skip
  on_resolved-SameAnswer now replace session none s truly = refl
  on_resolved-SameAnswer now replace session (some track) s truly =
      on_track-SameAnswer now replace session track s (truly track refl)

  -- If an entry of the memo with the number of the samples and the time of the track's last
  -- change as of now was made for samples in which there is no lap, a derivation answers what it
  -- would answer without the entry.
  pub derive-SameAnswer :
      (now : ℕ) (replace : Bool) (session : Session) (s : Desk env)
      → RemembersTruly now session s
      → SameAnswer s (forgetful session.id s) (derive env now replace session)
  unfolding derive skip
  derive-SameAnswer now replace session s truly = elim (Bool-cases (is_live session.status)) [
    | inl running ↦ rw running refl
    | inr over ↦ rw over (
        on_resolved-SameAnswer now replace session
          (resolve env.spelling env.tracks session.track s.tracks) s
          (λ track found.
            truly_hit now session track (lookup session.id s.memo) (truly track found)))
  ]
