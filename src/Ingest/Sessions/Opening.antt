-- ===== src/Ingest/Sessions/Opening.antt =====
-- `openSession`, with what other handlers do to the table between its queries.
use kab23_motorsport_telemet.Prelude.{
  ℕ, String, ◌≡◌, ◌≢◌, refl, sym, Bool-cases, any-find, Option, none, some, Result, ok, err, arith,
  inl, inr, ◌⊎◌, ◌==◌, eq_iff, eq_refl, find, find-append,
}
use kab23_motorsport_telemet.Repository.{Repository, Saved, saved, unique_violation, query_failed}
use kab23_motorsport_telemet.Repository.Effects.{save-saved}
use kab23_motorsport_telemet.Ingest.Sessions.{
  SessionRef, CarRef, session_key, has_sid, same_sid, if_own, opened, open_session, open_from,
  after_insert, find_by_device_session_id, DbFault,
}

module _ (sessions : Repository SessionRef session_key same_sid) where
  -- A session that is handed out is this car's, and it is the row of this run; where none is, the
  -- run's row belongs to another car, or is gone again.
  abbrev pub Opens : CarRef → String → Result DbFault (Option SessionRef) × sessions.Table → Type 0
  Opens car sid (ok (some s), after) =
      (s.car_id ≡ car.id) × (find (has_sid sid) (sessions.rows after) ≡ some s)
  Opens car sid (ok none, after) =
      (find (has_sid sid) (sessions.rows after) ≡ none)
      ⊎ ((s : SessionRef) × (find (has_sid sid) (sessions.rows after) ≡ some s)
          × (s.car_id ≢ car.id))
  Opens car sid (err e, after) = Unit {0}

  owner-Opens :
      (car : CarRef) (sid : String) (t : sessions.Table) (o : Option SessionRef)
      → find (has_sid sid) (sessions.rows t) ≡ o
      → Opens car sid (ok (if_own car o), t)
  owner-Opens car sid t none e = inl e
  owner-Opens car sid t (some s) e = elim (Bool-cases (s.car_id == car.id)) [
    | inl own ↦ rw own ((eq_iff s.car_id car.id).0 own, e)
    | inr other ↦ rw other (inr (s, e, λ same. ground (arith, eq_iff s.car_id car.id)))
  ]

  after_insert-Opens :
      (now : ℕ) (car : CarRef) (sid : String) (mono_ms : ℕ) (track : Option String)
      (later : sessions.Table → sessions.Table) (t : sessions.Table)
      (s : Saved SessionRef sessions.Table)
      → s ≡ sessions.save (opened now car sid mono_ms track) t
      → Opens car sid (after_insert sessions car sid later s t)
  unfolding after_insert find_by_device_session_id
  after_insert-Opens now car sid mono_ms track later t (saved row t') e =
      let entity = opened now car sid mono_ms track in
      let (free, same, added) = save-saved sessions t entity row t' (sym e) in
      (
        rw same refl,
        rw (added, same)
            (find-append (has_sid sid) (sessions.rows t) (entity (sessions.fresh t))
              (any-find (has_sid sid) (sessions.rows t) free) (eq_refl sid)),
      )
  after_insert-Opens now car sid mono_ms track later t unique_violation e =
      rw (sessions.find_one_lem (has_sid sid) (later t)) (owner-Opens car sid (later t) _ refl)
  after_insert-Opens now car sid mono_ms track later t query_failed e = tt

  open_from-Opens :
      (now : ℕ) (meanwhile later : sessions.Table → sessions.Table) (car : CarRef) (sid : String)
      (mono_ms : ℕ) (track : Option String) (t : sessions.Table) (o : Option SessionRef)
      → find (has_sid sid) (sessions.rows t) ≡ o
      → Opens car sid (open_from sessions now meanwhile later car sid mono_ms track o t)
  unfolding open_from
  open_from-Opens now meanwhile later car sid mono_ms track t none e =
      after_insert-Opens now car sid mono_ms track later (meanwhile t) _ refl
  open_from-Opens now meanwhile later car sid mono_ms track t (some s) e =
      owner-Opens car sid t (some s) e

  -- Whatever other writers do to the table between the queries of openSession, a session that is
  -- handed out is the publishing car's and is the row of this run; where none is, the run's row
  -- belongs to another car or is not there.
  pub open_session-Opens :
      (now : ℕ) (meanwhile later : sessions.Table → sessions.Table) (car : CarRef) (sid : String)
      (mono_ms : ℕ) (track : Option String) (t : sessions.Table)
      → Opens car sid (open_session sessions now meanwhile later car sid mono_ms track t)
  unfolding open_session find_by_device_session_id
  open_session-Opens now meanwhile later car sid mono_ms track t =
      rw (Opens, sessions.find_one_lem (has_sid sid) t)
        (open_from-Opens now meanwhile later car sid mono_ms track t _ refl)

  -- Opening a run whose row is there and is the car's own gives this row and writes nothing, at
  -- any time and with any device clock.
  pub open_session_again :
      (car : CarRef) (sid : String) (s : SessionRef) (t : sessions.Table)
      → Opens car sid (ok (some s), t)
      → (now : ℕ) (meanwhile later : sessions.Table → sessions.Table) (mono_ms : ℕ)
        (track : Option String)
      → open_session sessions now meanwhile later car sid mono_ms track t ≡ (ok (some s), t)
  unfolding open_session open_from find_by_device_session_id
  open_session_again car sid s t (own, there) now meanwhile later mono_ms track =
      rw (sessions.find_one_lem (has_sid sid) t, there) (ground (arith, eq_iff s.car_id car.id))
