-- ===== src/Ingest/Sessions/Closing.antt =====
-- `closeSession`: which rows it writes and what it answers.
use kab23_motorsport_telemet.Prelude.{
  ℕ, ◌≤◌, String, ◌≡◌, ◌≢◌, refl, ◌∙◌, true, false, ◌&&◌, none, some, arith, ◌==◌, eq_iff,
  if◌then◌else◌, find, count, rewrite, find-rewrite, count_within_unique, rewrite_none, find-holds,
  Option-cases, inl, inr, find-rewrite_apart, ◌=ⁿ◌,
}
use kab23_motorsport_telemet.Repository.{Repository}
use kab23_motorsport_telemet.Ingest.Sessions.{
  SessionRef, session_key, has_sid, same_sid, is_live, closes, closed_row, close_session,
  find_by_device_session_id,
}

module _ (sessions : Repository SessionRef session_key same_sid) (now : ℕ) (car_id sid : String)
    (t : sessions.Table) where
  rows-close :
      sessions.rows (close_session sessions now car_id sid t).1
      ≡ rewrite (closes car_id sid) (closed_row now) (sessions.rows t)
  unfolding close_session
  rows-close = ground (arith, sessions.update_rows (closes car_id sid) (closed_row now) t)

  answer-close : (close_session sessions now car_id sid t).0 ≡ (
      if count (closes car_id sid) (sessions.rows t) =ⁿ 0
      then none
      else find (has_sid sid) (sessions.rows (close_session sessions now car_id sid t).1))
  unfolding close_session find_by_device_session_id
  answer-close = ground (
    arith,
    sessions.update_count (closes car_id sid) (closed_row now) t,
    sessions.find_one_lem (has_sid sid) (sessions.update (closes car_id sid) (closed_row now) t).1,
  )

  module _ (s : SessionRef) (there : find (has_sid sid) (sessions.rows t) ≡ some s)
      (one : count (has_sid sid) (sessions.rows t) ≤ 1) where
    closed_rows :
        count (closes car_id sid) (sessions.rows t) ≡ (if closes car_id sid s then 1 else 0)
    closed_rows =
        count_within_unique (has_sid sid) (closes car_id sid) (sessions.rows t) s there one
          (λ b h. ground arith)

    -- If the run has one row, a stop answers with the closed row exactly if the run is the
    -- publishing car's and still live, and with nothing otherwise.
    pub close_session-answer :
        (close_session sessions now car_id sid t).0
        ≡ (if s.car_id == car_id && is_live s.status then some (closed_row now s) else none)
    close_session-answer = ground (
      arith,
      answer-close,
      closed_rows,
      rows-close,
      find-rewrite (has_sid sid) (closes car_id sid) (closed_row now) (sessions.rows t) s there,
      find-holds (has_sid sid) (sessions.rows t) s there,
    )

    -- If the run has one row, a stop by another car, or one for a run that is no longer live,
    -- leaves every row as it was.
    pub close_session_idle :
        (s.car_id == car_id && is_live s.status) ≡ false
        → sessions.rows (close_session sessions now car_id sid t).1 ≡ sessions.rows t
    close_session_idle idle =
        rows-close
        ∙ rewrite_none (closes car_id sid) (closed_row now) (sessions.rows t)
            (ground (arith, closed_rows))

  closes_apart :
      (x : String) → x ≢ sid → (b : SessionRef) → closes car_id sid b ≡ true → has_sid x b ≡ false
  closes_apart x other b h = elim (Option-cases b.device_session_id) [
    | inl unnamed ↦ ground arith
    | inr (y, named) ↦ ground (arith, eq_iff y sid, eq_iff y x)
  ]

  -- A stop of one run leaves the row that is found for every other run.
  pub close_session_apart :
      (x : String)
      → x ≢ sid
      → find (has_sid x) (sessions.rows (close_session sessions now car_id sid t).1)
        ≡ find (has_sid x) (sessions.rows t)
  close_session_apart x other = rw rows-close (
      find-rewrite_apart (has_sid x) (closes car_id sid) (closed_row now) (sessions.rows t)
        (closes_apart x other) (λ b. refl))
