-- ===== src/Sessions/Closing.antt =====
-- The end of a session, by one request after another and by two at once.
use kab23_motorsport_telemet.Prelude.{
  ℕ, String, ◌≡◌, refl, ap, ◌∙◌, true, false, not, ◌||◌, ◌>>=◌, ◌>>◌, Option, none, some, throw,
  Result, ok, err, find, ◌==◌, Bool-cases, Option-cases, inl, inr, ◌⊎◌, arith, if◌then◌else◌,
  find-rewrite, find-holds,
}
use kab23_motorsport_telemet.Repository.Effects.{rows-update, result-update}
use kab23_motorsport_telemet.Repository.Abstract.{not_found, forbidden, conflict}
use kab23_motorsport_telemet.Teams.{is_admin, User}
use kab23_motorsport_telemet.Cars.{Car, CarsError, http}
use kab23_motorsport_telemet.Cars.Service.{lift_error}
use kab23_motorsport_telemet.Cars.Service.Access.{can_read, can_write, seated_in}
use kab23_motorsport_telemet.Ingest.Sessions.{completed, is_live}
use kab23_motorsport_telemet.Sessions.{
  Session, Paddock, Runs, Action, by_id, require_writable_session, write_end, close,
}
use kab23_motorsport_telemet.Sessions.Access.{
  row_of, car_verdict, session_verdict, require_writable_session_lem,
}

abbrev pub ended : ℕ → Session → Session
ended now r = record r { status = completed; ended_at = some now }

module _ (env : Paddock) where
  car_or_error :
      (s : Runs env) (user : User) (session : Session) (o : Option Car)
      → (car_verdict env s user session o ≡ ok session)
        ⊎ ((e : CarsError) × (car_verdict env s user session o ≡ err e))
  car_or_error s user session none = inr (http (not_found "Session not found"), refl)
  car_or_error s user session (some car) =
      let seated = seated_in env.garage s.fleet user car.team_id in
      elim (Bool-cases (can_write user car seated)) [
        | inl writes ↦ inl (rw writes refl)
        | inr refused ↦ inr (
          if can_read user car seated
              then http (forbidden "Insufficient permissions for this session")
              else http (not_found "Session not found"),
          ground arith,
        )
      ]

  -- A verdict on a row is the row or an error.
  row_or_error :
      (s : Runs env) (user : User) (session : Session)
      → (session_verdict env s user (some session) ≡ ok session)
        ⊎ ((e : CarsError) × (session_verdict env s user (some session) ≡ err e))
  row_or_error s user session =
      elim (Bool-cases (is_admin user.role || session.driver_id == user.id)) [
        | inl own ↦ rw own (inl refl)
        | inr other ↦ rw other (car_or_error s user session _)
      ]

  -- A session that is not live is left alone.
  ended_no_change :
      (s : Runs env) (now : ℕ) (user : User) (session_id : String) (session : Session)
      → row_of env s session_id ≡ some session
      → is_live session.status ≡ false
      → (close env now user session_id s).1 ≡ s
  unfolding close
  ended_no_change s now user session_id session found over =
      let answer = require_writable_session_lem env s user session_id in
      elim (row_or_error s user session) [
        | inl passed ↦ rw (answer, found, passed, over) refl
        | inr (e, refused) ↦ rw (answer, found, refused) refl
      ]

  -- A close that succeeds is the write of the end of a row that is there.
  close-write_end :
      (s : Runs env) (now : ℕ) (user : User) (session_id : String) (r : Session)
      → (close env now user session_id s).0 ≡ ok r
      → (session : Session) × (row_of env s session_id ≡ some session)
        × (close env now user session_id s ≡ write_end env now session_id s)
  unfolding close
  close-write_end s now user session_id r done =
      let answer = require_writable_session_lem env s user session_id in
      elim (Option-cases (row_of env s session_id)) [
        | inl missing ↦
            let failed : (close env now user session_id s).0
                ≡ err (http (not_found "Entity not found")) =
              rw (answer, missing) refl in
            cc
        | inr (session, found) ↦ elim (row_or_error s user session) [
          | inl passed ↦ elim (Bool-cases (is_live session.status)) [
            | inl running ↦ (session, found, rw (answer, found, passed, running) refl)
            | inr over ↦
                let failed : (close env now user session_id s).0
                    ≡ err (http (conflict "Session is not live")) =
                  rw (answer, found, passed, over) refl in
                cc
          ]
          | inr (e, refused) ↦
              let failed : (close env now user session_id s).0 ≡ err e =
                rw (answer, found, refused) refl in
              cc
        ]
      ]

  write_end-row_of :
      (s : Runs env) (now : ℕ) (session_id : String) (session : Session)
      → row_of env s session_id ≡ some session
      → row_of env (write_end env now session_id s).1 session_id ≡ some (ended now session)
  unfolding write_end
  write_end-row_of s now session_id session found =
      ap (find (by_id env session_id))
        (rows-update env.sessions s.sessions (by_id env session_id) (ended now))
      ∙ find-rewrite (by_id env session_id) (by_id env session_id) (ended now)
          (env.sessions.rows s.sessions) session found
          (find-holds (by_id env session_id) (env.sessions.rows s.sessions) session found)
          (λ b. refl)

  -- After a close that succeeds, a further close of the same session changes nothing, whoever
  -- asks for it and whenever.
  pub close_again :
      (s : Runs env) (now later : ℕ) (user other : User) (session_id : String) (r : Session)
      → (close env now user session_id s).0 ≡ ok r
      → let s' = (close env now user session_id s).1 in (close env later other session_id s').1 ≡ s'
  close_again s now later user other session_id r done =
      let (session, found, same) = close-write_end s now user session_id r done in
      ended_no_change (close env now user session_id s).1 later other session_id (ended now session)
        (ap (λ (x : Result CarsError Session × Runs env). row_of env x.1 session_id) same
          ∙ write_end-row_of s now session_id session found)
        refl

  -- `close`, with what other requests do between the check and the write.
  unfoldable pub close_across : (Runs env → Runs env) → ℕ → User → String → Action env Session
  close_across meanwhile now user session_id = do
    session ← require_writable_session env user session_id
    (λ s. (ok tt, meanwhile s))
    if not (is_live session.status)
        then throw (http (conflict "Session is not live"))
        else write_end env now session_id

  -- Alone it is `close`.
  close_alone :
      (s : Runs env) (now : ℕ) (user : User) (session_id : String)
      → close_across (λ d. d) now user session_id s ≡ close env now user session_id s
  unfolding close_across close
  close_alone s now user session_id = refl

  -- The write answers with the row that it leaves.
  write_end-answer :
      (s : Runs env) (now : ℕ) (session_id : String) (session : Session)
      → row_of env s session_id ≡ some session
      → (write_end env now session_id s).0 ≡ ok (ended now session)
  unfolding write_end
  write_end-answer s now session_id session found = ap (lift_error http) (
      result-update env.sessions s.sessions (by_id env session_id) (ended now) session found
        (λ b. refl))

  module _ (s : Runs env) (session_id : String) (session : Session)
      (found : row_of env s session_id ≡ some session)
      (running : is_live session.status ≡ true) where
    closes_now :
        (now : ℕ) (user : User)
        → session_verdict env s user (some session) ≡ ok session
        → close env now user session_id s ≡ write_end env now session_id s
    unfolding close
    closes_now now user may =
        rw (require_writable_session_lem env s user session_id, found, may, running) refl

    closes_across :
        (meanwhile : Runs env → Runs env) (now : ℕ) (user : User)
        → session_verdict env s user (some session) ≡ ok session
        → close_across meanwhile now user session_id s ≡ write_end env now session_id (meanwhile s)
    unfolding close_across
    closes_across meanwhile now user may =
        rw (require_writable_session_lem env s user session_id, found, may, running) refl

    -- If two users may change a live session, and the close of one runs between the check and
    -- the write of the other's, then both closes succeed, and the end that the first has written
    -- is moved to the time of the second.
    pub closed_at_once :
        (now later : ℕ) (user other : User)
        → session_verdict env s user (some session) ≡ ok session
        → session_verdict env s other (some session) ≡ ok session
        → let first = close env now other session_id s in
          let second =
            close_across (λ d. (close env now other session_id d).1) later user session_id s in
          (first.0 ≡ ok (ended now session))
          × (row_of env first.1 session_id ≡ some (ended now session))
          × (second.0 ≡ ok (ended later session))
          × (row_of env second.1 session_id ≡ some (ended later session))
    closed_at_once now later user other may may_too =
        let there = write_end-row_of s now session_id session found in
        rw
          (
            closes_across (λ d. (close env now other session_id d).1) later user may,
            closes_now now other may_too,
          )
          (
            write_end-answer s now session_id session found,
            there,
            write_end-answer _ later session_id (ended now session) there,
            write_end-row_of _ later session_id (ended now session) there,
          )
