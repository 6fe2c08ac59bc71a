-- ===== src/Cars/Service.antt =====
-- cars.service.ts with the repository that it calls.
pub mod Access
pub mod Refusing
pub mod Visible
use kab23_motorsport_telemet.Prelude.{
  ℕ, zero, suc, String, Bool, true, false, not, ◌&&◌, ◌||◌, List, [], ◌∷◌, Option, none, some,
  Result, ok, err, Exec, pure, throw, gets, ◌>>=◌, ◌>>◌, map, any, is_some, get_or, ◌==◌,
  if◌then◌else◌,
}
use kab23_motorsport_telemet.Repository.Abstract.{
  HttpError, not_found, forbidden, conflict, failed_query, create_or_conflict, find_one,
  find_all_by, find_one_and_delete,
}
use kab23_motorsport_telemet.Teams.{TeamRole, managing_team_roles, is_admin, User, TeamMember, Db}
use kab23_motorsport_telemet.Teams.Service.{
  on_members, includes, find_membership, require_team_role,
}
use kab23_motorsport_telemet.Cars.{
  Car, CreateCarDto, UpdateCarDto, Updated, updated, collided, not_updated, Garage, Fleet,
  CarsError, http, dynsec,
}
use kab23_motorsport_telemet.Cars.Plumbing.{DynsecError}
use kab23_motorsport_telemet.Cars.Admin.{ensure_car, issue_password, remove_car}

abbrev pub device_conflict : String
device_conflict = "Car could not be saved"

abbrev pub lift_error : {E A : Type 0} → (E → CarsError) → Result E A → Result CarsError A
lift_error f (ok a) = ok a
lift_error f (err e) = err (f e)

-- `updateCarDto.teamId !== car.teamId`
abbrev pub same_team : Option String → Option String → Bool
same_team none none = true
same_team (some a) (some b) = a == b
same_team _ _ = false

-- The fields of the request over those of the row.
abbrev pub patch : UpdateCarDto → Car → Car
patch dto car = record {
  id = car.id;
  name = get_or dto.name car.name;
  make = elim dto.make [ none ↦ car.make | some m ↦ some m ];
  model = elim dto.model [ none ↦ car.model | some m ↦ some m ];
  device_id = get_or dto.device_id car.device_id;
  mqtt_provisioned_at = car.mqtt_provisioned_at;
  owner_id = car.owner_id;
  team_id = get_or dto.team_id car.team_id;
}

abbrev pub may_manage : Option TeamMember → Bool
may_manage none = false
may_manage (some m) = includes managing_team_roles m.role

-- The scope of a query: the owner, if one is asked for, or one of the teams.
abbrev pub in_scope : Option String → List String → Car → Bool
in_scope owner_id team_ids c =
    elim owner_id [ none ↦ false | some o ↦ c.owner_id == o ]
    || elim c.team_id [ none ↦ false | some team ↦ any (λ t. t == team) team_ids ]

-- A scope that selects nothing at all.
abbrev pub is_void : Option String → List String → Bool
is_void none [] = true
is_void _ _ = false

module _ (env : Garage) where
  abbrev pub Action : Type 0 → Type 0
  Action A = Exec CarsError (Fleet env) A

  abbrev pub on_platform : {A : Type 0} → Exec HttpError (Db env.platform) A → Action A
  on_platform q s = (lift_error http (q s.db).0, record s { db = (q s.db).1 })

  abbrev pub on_cars : {A : Type 0} → Exec HttpError env.cars.Table A → Action A
  on_cars q s = (lift_error http (q s.cars).0, record s { cars = (q s.cars).1 })

  abbrev pub on_broker : {A : Type 0} → Exec DynsecError env.broker.World A → Action A
  on_broker q s = (lift_error dynsec (q s.world).0, record s { world = (q s.world).1 })

  -- The catch of an error that is only logged.
  abbrev pub attempt : {A : Type 0} → Action A → Action (Unit {0})
  attempt body s = (ok tt, (body s).1)

  unfoldable pub after_update :
      (Car → Bool) → Updated env.cars.Table → Exec HttpError env.cars.Table Car
  unfolding find_one
  after_update p (updated zero t') t = (err (not_found "Entity not found"), t')
  after_update p (updated (suc n) t') t = find_one env.cars p t'
  after_update p collided t = (err (conflict device_conflict), t)
  after_update p not_updated t = (err failed_query, t)

  unfoldable pub update_car : String → (Car → Car) → Exec HttpError env.cars.Table Car
  unfolding after_update
  update_car car_id f t =
      after_update (λ c. c.id == car_id) (env.try_update (λ c. c.id == car_id) f t) t

  -- The caller's seat in the team of the car.
  unfoldable pub seat_of : User → Car → Option String → Action (Option TeamMember)
  unfolding find_membership
  seat_of user car none = pure none
  seat_of user car (some team) = on_platform (find_membership env.platform user.id team)

  unfoldable pub resolve_access : User → String → Action (Car × Option TeamMember)
  unfolding seat_of find_one
  resolve_access user car_id = do
    car ← on_cars (find_one env.cars (λ c. c.id == car_id))
    membership ← seat_of user car car.team_id
    pure (car, membership)

  unfoldable pub assert_readable : User → Car → Option TeamMember → Action Car
  assert_readable user car membership =
      if is_admin user.role || car.owner_id == user.id || is_some membership
      then pure car
      else throw (http (not_found "Car not found"))

  unfoldable pub assert_writable : User → Car → Option TeamMember → Action Car
  assert_writable user car membership =
      if is_admin user.role || car.owner_id == user.id || may_manage membership
      then pure car
      else throw (http (forbidden "Insufficient permissions for this car"))

  unfoldable pub require_readable_car : User → String → Action Car
  unfolding resolve_access assert_readable
  require_readable_car user car_id = do
    access ← resolve_access user car_id
    assert_readable user access.0 access.1

  unfoldable pub require_writable_car : User → String → Action Car
  unfolding resolve_access assert_readable assert_writable
  require_writable_car user car_id = do
    access ← resolve_access user car_id
    assert_readable user access.0 access.1
    assert_writable user access.0 access.1

  unfoldable pub join_team : User → Option String → Action (Unit {0})
  unfolding require_team_role
  join_team user none = pure tt
  join_team user (some team) = do
    on_platform (require_team_role env.platform user team managing_team_roles)
    pure tt

  unfoldable pub create_car : User → CreateCarDto → Action Car
  unfolding join_team ensure_car create_or_conflict
  create_car user dto = do
    join_team user dto.team_id
    car ← on_cars (
        create_or_conflict env.cars
          (λ i. record {
            id = i;
            name = dto.name;
            make = dto.make;
            model = dto.model;
            device_id = dto.device_id;
            mqtt_provisioned_at = none;
            owner_id = user.id;
            team_id = dto.team_id;
          })
          device_conflict)
    attempt (on_broker (ensure_car env.broker car.device_id))
    pure car

  -- Whether the car may go to the team of the request, if there is one in it.
  unfoldable pub check_team : User → Car → Option (Option String) → Action (Unit {0})
  unfolding join_team
  check_team user car none = pure tt
  check_team user car (some team) =
      if same_team team car.team_id
      then pure tt
      else if is_some car.team_id && not (car.owner_id == user.id) && not (is_admin user.role)
      then throw (http (forbidden "Only the car owner may move it between teams"))
      else join_team user team

  unfoldable pub mark_unprovisioned : String → Action (Unit {0})
  unfolding update_car
  mark_unprovisioned car_id =
      attempt (on_cars (update_car car_id (λ c. record c { mqtt_provisioned_at = none })))

  -- The catch of `update`.
  unfoldable pub rescued :
      String → Result CarsError Car × Fleet env → Result CarsError Car × Fleet env
  unfolding mark_unprovisioned
  rescued car_id (ok car, s) = (ok car, s)
  rescued car_id (err e, s) = (err e, (mark_unprovisioned car_id s).1)

  unfoldable pub rename_car : String → Car → String → UpdateCarDto → Action Car
  unfolding rescued update_car remove_car ensure_car
  rename_car car_id car device_id dto = do
    on_broker (remove_car env.broker car.device_id)
    (λ s. rescued car_id (
        (do
          on_broker (ensure_car env.broker device_id)
          on_cars (update_car car_id (λ c. record (patch dto c) { mqtt_provisioned_at = none })))
          s))

  -- From the test of `renamed` on.
  unfoldable pub store : String → Car → UpdateCarDto → Option String → Action Car
  unfolding rename_car update_car
  store car_id car dto none = on_cars (update_car car_id (patch dto))
  store car_id car dto (some device_id) =
      if device_id == car.device_id
      then on_cars (update_car car_id (patch dto))
      else rename_car car_id car device_id dto

  unfoldable pub update : User → String → UpdateCarDto → Action Car
  unfolding check_team store require_writable_car
  update user car_id dto = do
    car ← require_writable_car user car_id
    check_team user car dto.team_id
    store car_id car dto dto.device_id

  unfoldable pub remove : User → String → Action (Unit {0})
  unfolding remove_car find_one_and_delete require_writable_car
  remove user car_id = do
    car ← require_writable_car user car_id
    on_broker (remove_car env.broker car.device_id)
    on_cars (find_one_and_delete env.cars (λ c. c.id == car_id))

  unfoldable pub issue_mqtt_credentials : ℕ → User → String → Action (String × String × ℕ)
  unfolding issue_password update_car require_writable_car
  issue_mqtt_credentials now user car_id = do
    car ← require_writable_car user car_id
    password ← on_broker (issue_password env.broker car.device_id)
    on_cars (update_car car_id (λ c. record c { mqtt_provisioned_at = some now }))
    pure (car.device_id, password, now)

  -- `findAllIds`
  unfoldable pub find_all_ids : Exec HttpError env.cars.Table (List String)
  find_all_ids = gets (λ t. map (λ c. c.id) (env.cars.find_by (λ _. true) t))

  unfoldable pub find_visible_ids :
      Option String → List String → Exec HttpError env.cars.Table (List String)
  find_visible_ids owner_id team_ids =
      if is_void owner_id team_ids
      then pure []
      else gets (λ t. map (λ c. c.id) (env.cars.find_by (in_scope owner_id team_ids) t))

  unfoldable pub get_user_team_ids : String → Exec HttpError (Db env.platform) (List String)
  unfolding find_all_by
  get_user_team_ids user_id = do
    memberships ←
        on_members env.platform (find_all_by env.platform.members (λ m. m.user_id == user_id))
    pure (map (λ m. m.team_id) memberships)

  unfoldable pub get_visible_car_ids : User → Option String → Action (List String)
  unfolding find_all_ids find_visible_ids get_user_team_ids
  get_visible_car_ids user (some team) = on_cars (find_visible_ids none (team ∷ []))
  get_visible_car_ids user none = if is_admin user.role then on_cars find_all_ids else do
    team_ids ← on_platform (get_user_team_ids user.id)
    on_cars (find_visible_ids (some user.id) team_ids)
