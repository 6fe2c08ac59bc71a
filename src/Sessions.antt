-- ===== src/Sessions.antt =====
-- apps/api/src/sessions: session.entity.ts and sessions.service.ts, on top of the cars.
pub mod Access
pub mod Closing
pub mod Examples
use kab23_motorsport_telemet.Prelude.{
  ℕ, String, Bool, true, false, not, ◌||◌, Option, none, some, Result, ok, err, Exec, pure, throw,
  ◌>>=◌, ◌>>◌, get_or, ◌==◌, if◌then◌else◌,
}
use kab23_motorsport_telemet.Repository.{Repository}
use kab23_motorsport_telemet.Repository.Abstract.{
  HttpError, not_found, forbidden, conflict, create, find_one, find_one_and_update,
  find_one_and_delete,
}
use kab23_motorsport_telemet.Teams.{managing_team_roles, is_admin, User, TeamMember}
use kab23_motorsport_telemet.Teams.Service.{require_team_role, find_membership}
use kab23_motorsport_telemet.Cars.{Car, Garage, Fleet, CarsError, http, dynsec}
use kab23_motorsport_telemet.Cars.Service.{
  lift_error, on_platform, require_readable_car, require_writable_car,
}
use kab23_motorsport_telemet.Ingest.Sessions.{SessionStatus, live, completed, is_live}

pub data SectorScheme : Type 0 where
  gates distance : SectorScheme

pub record Session : Type 0 where
  pub id : String
  pub car_id : String
  pub driver_id : String
  pub track : String
  pub started_at : ℕ
  pub ended_at : Option ℕ
  pub status : SessionStatus
  pub device_session_id : Option String
  pub analyzed_at : Option ℕ
  pub sector_scheme : Option SectorScheme

pub record CreateSessionDto : Type 0 where
  pub car_id : String
  pub track : String
  pub started_at : Option ℕ
  pub driver_id : Option String

abbrev pub session_key : Session → String
session_key s = s.id

-- The unique index is on the device's id of the run, which the API never sets.
abbrev pub same_run : Session → Session → Bool
same_run a b = elim a.device_session_id [
  | none ↦ false
  | some x ↦ elim b.device_session_id [ none ↦ false | some y ↦ x == y ]
]

pub record Paddock : Type 1 where
  pub garage : Garage
  pub sessions : Repository Session session_key same_run

pub record Runs (env : Paddock) : Type 0 where
  pub fleet : Fleet env.garage
  pub sessions : env.sessions.Table

-- The two refusals of the car are restated for the session.
abbrev pub restated : CarsError → CarsError
restated (http (not_found m)) = http (not_found "Session not found")
restated (http (forbidden m)) = http (forbidden "Insufficient permissions for this session")
restated e = e

module _ (env : Paddock) where
  abbrev pub Action : Type 0 → Type 0
  Action A = Exec CarsError (Runs env) A

  abbrev pub on_fleet : {A : Type 0} → Exec CarsError (Fleet env.garage) A → Action A
  on_fleet q s = ((q s.fleet).0, record s { fleet = (q s.fleet).1 })

  abbrev pub on_sessions : {A : Type 0} → Exec HttpError env.sessions.Table A → Action A
  on_sessions q s = (lift_error http (q s.sessions).0, record s { sessions = (q s.sessions).1 })

  abbrev pub by_id : String → Session → Bool
  by_id session_id r = r.id == session_id

  unfoldable pub restate :
      {A B : Type 0} → B → Result CarsError A × Runs env → Result CarsError B × Runs env
  restate session (ok car, s) = (ok session, s)
  restate session (err e, s) = (err (restated e), s)

  -- The end of `requireSession`, with the row.
  unfoldable pub admit_to : User → Exec CarsError (Fleet env.garage) Car → Session → Action Session
  unfolding restate
  admit_to user authorize_car session s =
      if is_admin user.role || session.driver_id == user.id
      then (ok session, s)
      else restate session (on_fleet authorize_car s)

  unfoldable pub require_session :
      User → String → (String → Exec CarsError (Fleet env.garage) Car) → Action Session
  unfolding admit_to find_one
  require_session user session_id authorize_car = do
    session ← on_sessions (find_one env.sessions (by_id session_id))
    admit_to user (authorize_car session.car_id) session

  unfoldable pub require_readable_session : User → String → Action Session
  unfolding require_session require_readable_car
  require_readable_session user session_id =
      require_session user session_id (require_readable_car env.garage user)

  unfoldable pub require_writable_session : User → String → Action Session
  unfolding require_session require_writable_car
  require_writable_session user session_id =
      require_session user session_id (require_writable_car env.garage user)

  unfoldable pub set_analyzed_at : String → ℕ → SectorScheme → Action Session
  unfolding find_one_and_update
  set_analyzed_at session_id at scheme = on_sessions (
      find_one_and_update env.sessions (by_id session_id)
        (λ r. record r { analyzed_at = some at; sector_scheme = some scheme }))

  in_team : String → Option TeamMember → Action String
  in_team driver none = throw (http (forbidden "Driver is not a member of the car team"))
  in_team driver (some m) = pure driver

  -- Both lookups run whatever the other answers, and neither writes.
  nominate : User → String → Option String → Action String
  unfolding in_team require_team_role find_membership
  nominate user driver none = throw (http (forbidden "Cannot assign a session to another driver"))
  nominate user driver (some team) = do
    on_fleet (
        on_platform env.garage
          (require_team_role env.garage.platform user team managing_team_roles))
    membership ← on_fleet (on_platform env.garage (find_membership env.garage.platform driver team))
    in_team driver membership

  unfoldable pub resolve_driver : User → Option String → Option String → Action String
  unfolding nominate
  resolve_driver user team none = pure user.id
  resolve_driver user team (some driver) =
      if driver == "" || driver == user.id then pure user.id else nominate user driver team

  unfoldable pub create_session : ℕ → User → CreateSessionDto → Action Session
  unfolding require_readable_car resolve_driver create
  create_session now user dto = do
    car ← on_fleet (require_readable_car env.garage user dto.car_id)
    driver ← resolve_driver user car.team_id dto.driver_id
    on_sessions (
        create env.sessions (λ i. record {
          id = i;
          car_id = dto.car_id;
          driver_id = driver;
          track = dto.track;
          started_at = get_or dto.started_at now;
          ended_at = none;
          status = live;
          device_session_id = none;
          analyzed_at = none;
          sector_scheme = none;
        }))

  unfoldable pub update_session : User → String → Option String → Action Session
  unfolding require_writable_session find_one_and_update
  update_session user session_id track = do
    require_writable_session user session_id
    on_sessions (
        find_one_and_update env.sessions (by_id session_id)
          (λ r. record r { track = get_or track r.track }))

  -- What `close` writes once the session was seen live.
  unfoldable pub write_end : ℕ → String → Action Session
  unfolding find_one_and_update
  write_end now session_id = on_sessions (
      find_one_and_update env.sessions (by_id session_id)
        (λ r. record r { status = completed; ended_at = some now }))

  unfoldable pub close : ℕ → User → String → Action Session
  unfolding require_writable_session write_end
  close now user session_id = do
    session ← require_writable_session user session_id
    if not (is_live session.status)
        then throw (http (conflict "Session is not live"))
        else write_end now session_id

  unfoldable pub remove_session : User → String → Action (Unit {0})
  unfolding require_writable_session find_one_and_delete
  remove_session user session_id = do
    require_writable_session user session_id
    on_sessions (find_one_and_delete env.sessions (by_id session_id))
