-- ===== src/Sessions/Access.antt =====
-- Who may see and who may change a session.
use kab23_motorsport_telemet.Prelude.{
  String, ◌≡◌, refl, ◌||◌, Option, none, some, Result, ok, err, find, ◌==◌, if◌then◌else◌,
  Bool-cases, Option-cases, inl, inr,
}
use kab23_motorsport_telemet.Repository.Abstract.{not_found, forbidden, find_one}
use kab23_motorsport_telemet.Teams.{is_admin, User}
use kab23_motorsport_telemet.Cars.{Car, CarsError, http}
use kab23_motorsport_telemet.Cars.Service.{require_writable_car}
use kab23_motorsport_telemet.Cars.Service.Access.{
  can_read, can_write, write_verdict, by_rows, car_rows, seated_in, require_writable_car_lem,
}
use kab23_motorsport_telemet.Sessions.{
  Session, Paddock, Runs, restate, by_id, admit_to, require_session, require_writable_session,
}

module _ (env : Paddock) (s : Runs env) where
  abbrev pub row_of : String → Option Session
  row_of session_id = find (by_id env session_id) (env.sessions.rows s.sessions)

  -- What the row of the car says of a session that is another's: a member of the car's team who
  -- may not manage gets a 403, and an outsider a 404, as if there were no such session.
  abbrev pub car_verdict : User → Session → Option Car → Result CarsError Session
  car_verdict user session none = err (http (not_found "Session not found"))
  car_verdict user session (some car) =
      let seated = seated_in env.garage s.fleet user car.team_id in
      if can_write user car seated
      then ok session
      else if can_read user car seated
      then err (http (forbidden "Insufficient permissions for this session"))
      else err (http (not_found "Session not found"))

  -- The driver and an administrator pass; anyone else as the car's row says.
  abbrev pub session_verdict : User → Option Session → Result CarsError Session
  session_verdict user none = err (http (not_found "Entity not found"))
  session_verdict user (some session) =
      if is_admin user.role || session.driver_id == user.id
      then ok session
      else car_verdict user session
          (find (λ c. c.id == session.car_id) (car_rows env.garage s.fleet))

  restate_lem :
      (user : User) (session : Session) (o : Option Car)
      → restate env session (by_rows env.garage s.fleet user write_verdict o, s)
        ≡ (car_verdict user session o, s)
  unfolding restate
  restate_lem user session none = refl
  restate_lem user session (some car) =
      let seated = seated_in env.garage s.fleet user car.team_id in
      elim (Bool-cases (can_write user car seated)) [
        | inl writes ↦ rw writes refl
        | inr refused ↦ elim (Bool-cases (can_read user car seated)) [
          | inl reads ↦ rw (refused, reads) refl
          | inr outside ↦ rw (refused, outside) refl
        ]
      ]

  admit_to_lem :
      (user : User) (session : Session)
      → admit_to env user (require_writable_car env.garage user session.car_id) session s
        ≡ (session_verdict user (some session), s)
  unfolding admit_to
  admit_to_lem user session =
      elim (Bool-cases (is_admin user.role || session.driver_id == user.id)) [
        | inl own ↦ rw own refl
        | inr other ↦
            rw (other, require_writable_car_lem env.garage s.fleet user session.car_id)
              (restate_lem user session _)
      ]

  pub require_writable_session_lem :
      (user : User) (session_id : String)
      → require_writable_session env user session_id s
        ≡ (session_verdict user (row_of session_id), s)
  unfolding require_writable_session require_session find_one
  require_writable_session_lem user session_id =
      let row = env.sessions.find_one_lem (by_id env session_id) s.sessions in
      elim (Option-cases (row_of session_id)) [
        | inl missing ↦ rw (row, missing) refl
        | inr (session, found) ↦ rw (row, found) (admit_to_lem user session)
      ]
