-- ===== src/Cars/Service/Access.antt =====
-- Who may see a car and who may change it.
use kab23_motorsport_telemet.Prelude.{
  String, ◌≡◌, refl, Bool, ◌||◌, List, Option, none, some, Result, ok, err, find, is_some, ◌==◌,
  if◌then◌else◌, Option-cases, ◌>>◌, inl, inr, arith,
}
use kab23_motorsport_telemet.Repository.Abstract.{not_found, forbidden, find_one}
use kab23_motorsport_telemet.Teams.{is_admin, User, TeamMember, member_rows}
use kab23_motorsport_telemet.Teams.Service.{find_membership}
use kab23_motorsport_telemet.Teams.Authorization.{seat}
use kab23_motorsport_telemet.Cars.{Car, Garage, Fleet, CarsError, http}
use kab23_motorsport_telemet.Cars.Service.{
  may_manage, seat_of, resolve_access, assert_readable, assert_writable, require_readable_car,
  require_writable_car,
}

abbrev pub can_read : User → Car → Option TeamMember → Bool
can_read user car seated = is_admin user.role || car.owner_id == user.id || is_some seated

abbrev pub can_write : User → Car → Option TeamMember → Bool
can_write user car seated = is_admin user.role || car.owner_id == user.id || may_manage seated

abbrev pub read_verdict : User → Car → Option TeamMember → Result CarsError Car
read_verdict user car seated =
    if can_read user car seated then ok car else err (http (not_found "Car not found"))

-- An outsider gets a 404, a member who may not manage a 403.
abbrev pub write_verdict : User → Car → Option TeamMember → Result CarsError Car
write_verdict user car seated =
    if can_write user car seated
    then ok car
    else if can_read user car seated
    then err (http (forbidden "Insufficient permissions for this car"))
    else err (http (not_found "Car not found"))

module _ (env : Garage) (s : Fleet env) where
  abbrev pub car_rows : List Car
  car_rows = env.cars.rows s.cars

  abbrev pub seated_in : User → Option String → Option TeamMember
  seated_in user none = none
  seated_in user (some team) = find (seat user.id team) (member_rows env.platform s.db)

  -- What the rows say of a car that may not be there.
  abbrev pub by_rows :
      User
      → (User → Car → Option TeamMember → Result CarsError Car)
      → Option Car
      → Result CarsError Car
  by_rows user verdict none = err (http (not_found "Entity not found"))
  by_rows user verdict (some car) = verdict user car (seated_in user car.team_id)

  seat_of_lem :
      (user : User) (car : Car) (team : Option String)
      → seat_of env user car team s ≡ (ok (seated_in user team), s)
  unfolding seat_of find_membership
  seat_of_lem user car none = refl
  seat_of_lem user car (some team) =
      ground (arith, env.platform.members.find_one_lem (seat user.id team) s.db.members)

  abbrev access_by : User → Option Car → Result CarsError (Car × Option TeamMember)
  access_by user none = err (http (not_found "Entity not found"))
  access_by user (some car) = ok (car, seated_in user car.team_id)

  resolve_access_lem :
      (user : User) (car_id : String)
      → resolve_access env user car_id s ≡ (access_by user (find (λ c. c.id == car_id) car_rows), s)
  unfolding resolve_access find_one
  resolve_access_lem user car_id =
      let row = env.cars.find_one_lem (λ c. c.id == car_id) s.cars in
      elim (Option-cases (find (λ c. c.id == car_id) car_rows)) [
        | inl missing ↦ rw (row, missing) refl
        | inr (car, found) ↦ rw (row, found, seat_of_lem user car car.team_id) refl
      ]

  read_answer :
      (user : User) (car : Car) (seated : Option TeamMember)
      → assert_readable env user car seated s ≡ (read_verdict user car seated, s)
  unfolding assert_readable
  read_answer user car seated = ground arith

  -- Reading a car writes nothing and answers as the rows say.
  pub require_readable_car_lem :
      (user : User) (car_id : String)
      → require_readable_car env user car_id s
        ≡ (by_rows user read_verdict (find (λ c. c.id == car_id) car_rows), s)
  unfolding require_readable_car
  require_readable_car_lem user car_id =
      rw (resolve_access_lem user car_id)
        (elim (Option-cases (find (λ c. c.id == car_id) car_rows)) [
          | inl missing ↦ rw missing refl
          | inr (car, found) ↦ rw found (read_answer user car (seated_in user car.team_id))
        ])

  write_answer :
      (user : User) (car : Car) (seated : Option TeamMember)
      → (assert_readable env user car seated >> assert_writable env user car seated) s
        ≡ (write_verdict user car seated, s)
  unfolding assert_readable assert_writable
  write_answer user car none = ground arith
  write_answer user car (some m) = ground arith

  -- The check on a change of a car writes nothing and answers as the rows say: a 404 where there
  -- is no such car; the car for an administrator, its owner and a manager of its team; a 403 for
  -- another member of the team; and for anyone else a 404.
  pub require_writable_car_lem :
      (user : User) (car_id : String)
      → require_writable_car env user car_id s
        ≡ (by_rows user write_verdict (find (λ c. c.id == car_id) car_rows), s)
  unfolding require_writable_car
  require_writable_car_lem user car_id =
      rw (resolve_access_lem user car_id)
        (elim (Option-cases (find (λ c. c.id == car_id) car_rows)) [
          | inl missing ↦ rw missing refl
          | inr (car, found) ↦ rw found (write_answer user car (seated_in user car.team_id))
        ])
