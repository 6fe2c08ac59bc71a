-- ===== src/Cars/Service/Refusing.antt =====
-- What the checks on a car refuse, and what a removal leaves at the broker.
use kab23_motorsport_telemet.Prelude.{
  ℕ, String, ◌≡◌, refl, ap, ◌∙◌, true, false, List, Option, none, some, Result, ok, err, find, ◌==◌,
  Bool-cases, inl, inr, ◌⊎◌, arith, ◌>>◌,
}
use kab23_motorsport_telemet.Repository.Abstract.{not_found, forbidden, find_one_and_delete}
use kab23_motorsport_telemet.Teams.{is_admin, User, TeamMember}
use kab23_motorsport_telemet.Cars.{Car, UpdateCarDto, Garage, Fleet, CarsError, http}
use kab23_motorsport_telemet.Cars.Plumbing.{
  Command, delete_client, delete_role, DynsecError, DynsecResponse, service_unavailable,
  broker_error,
}
use kab23_motorsport_telemet.Cars.Admin.{
  Broker, answered, request, send, remove_car, not_present, tolerated, car_role_name,
}
use kab23_motorsport_telemet.Cars.Service.{
  on_broker, on_cars, same_team, check_team, update, remove, issue_mqtt_credentials,
}
use kab23_motorsport_telemet.Cars.Service.Access.{
  can_read, can_write, write_verdict, car_rows, seated_in, by_rows, require_writable_car_lem,
}

write_refused :
    (user : User) (car : Car) (seated : Option TeamMember)
    → can_write user car seated ≡ false
    → (e : CarsError) × (write_verdict user car seated ≡ err e)
write_refused user car seated refused = elim (Bool-cases (can_read user car seated)) [
  | inl reads ↦ (http (forbidden "Insufficient permissions for this car"), rw (refused, reads) refl)
  | inr outside ↦ (http (not_found "Car not found"), rw (refused, outside) refl)
]

module _ (env : Garage) (s : Fleet env) where
  -- If the rows refuse a user the change of a car with some error, then updating the car,
  -- removing it and issuing its credential end with this error, and leave the tables and the
  -- broker as they were.
  pub refused_no_change :
      (user : User) (car_id : String) (e : CarsError) (dto : UpdateCarDto) (now : ℕ)
      → by_rows env s user write_verdict (find (λ c. c.id == car_id) (car_rows env s)) ≡ err e
      → (update env user car_id dto s ≡ (err e, s))
        × (remove env user car_id s ≡ (err e, s))
        × (issue_mqtt_credentials env now user car_id s ≡ (err e, s))
  unfolding update remove issue_mqtt_credentials
  refused_no_change user car_id e dto now refusal =
      let answer = require_writable_car_lem env s user car_id in
      (rw (answer, refusal) refl, rw (answer, refusal) refl, rw (answer, refusal) refl)

  -- A user who is neither an administrator nor the owner of a car that runs under a team changes
  -- nothing by an update that names another team or none.
  pub move_refused :
      (user : User) (car_id : String) (car : Car) (old : String) (wanted : Option String)
      (dto : UpdateCarDto)
      → find (λ c. c.id == car_id) (car_rows env s) ≡ some car
      → car.team_id ≡ some old
      → same_team wanted car.team_id ≡ false
      → dto.team_id ≡ some wanted
      → is_admin user.role ≡ false
      → (car.owner_id == user.id) ≡ false
      → (update env user car_id dto s).1 ≡ s
  unfolding update check_team
  move_refused user car_id car old wanted dto found team other asked plain stranger =
      elim (Bool-cases (can_write user car (seated_in env s user car.team_id))) [
        | inl writes ↦
            rw
              (
                require_writable_car_lem env s user car_id,
                found,
                writes,
                asked,
                other,
                team,
                stranger,
                plain,
              )
              refl
        | inr refused ↦
            let (e, why) = write_refused user car (seated_in env s user car.team_id) refused in
            let verdict = ap (by_rows env s user write_verdict) found ∙ why in
            ap (λ (r : Result CarsError Car × Fleet env). r.1)
              (refused_no_change user car_id e dto 0 verdict).0
      ]

module _ (broker : Broker) where
  -- The account is gone, and nothing of the command is left with the broker.
  abbrev Gone : String → broker.World → Type 0
  Gone u w = (broker.has_account u w ≡ false) × (broker.caught_up w ≡ true)

  deleted :
      (u : String) (w : broker.World) (r : Result DynsecError DynsecResponse)
      (o : Option DynsecResponse)
      → broker.caught_up w ≡ true
      → (broker.ask (delete_client u) w).0 ≡ r
      → (answered broker not_present (r, (broker.ask (delete_client u) w).1)).0 ≡ ok o
      → Gone u (broker.ask (delete_client u) w).1
  unfolding answered
  deleted u w (ok r) o quiet e done =
      (broker.delete_client_lem u w r quiet e, broker.answer_lem (delete_client u) w r quiet e)
  deleted u w (err (service_unavailable m)) o quiet e done =
      ground (arith, broker.unavailable_lem (delete_client u) w m e)
  deleted u w (err (broker_error m)) o quiet e done =
      elim (Bool-cases (tolerated broker not_present (broker_error m))) [
        | inl fine ↦ (
          broker.no_client_lem u w m quiet e fine,
          broker.error_lem (delete_client u) w m quiet e,
        )
        | inr other ↦ ground (arith, other)
      ]

  answered-world :
      (tolerate : List String) (a : Result DynsecError DynsecResponse × broker.World)
      → (answered broker tolerate a).1 ≡ a.1
  unfolding answered
  answered-world tolerate (ok r, w) = refl
  answered-world tolerate (err e, w) = refl

  dropped-world :
      (w : broker.World) (a : Result DynsecError (Option DynsecResponse) × broker.World)
      → (((λ _. a) >> (λ w'. (ok tt, w'))) w).1 ≡ a.1
  dropped-world w (ok o, w') = refl
  dropped-world w (err e, w') = refl

  send-world :
      (c : Command) (tolerate : List String) (w : broker.World)
      → (send broker c tolerate w).1 ≡ (broker.ask c w).1
  unfolding send request
  send-world c tolerate w =
      dropped-world w (answered broker tolerate (broker.ask c w))
      ∙ answered-world tolerate (broker.ask c w)

  then_role :
      (u rolename : String) (a : Result DynsecError (Option DynsecResponse) × broker.World)
      → ((o : Option DynsecResponse) → a.0 ≡ ok o → Gone u a.1)
      → (((λ _. a) >> (λ w. (ok tt, w)) >> send broker (delete_role rolename) not_present) a.1).0
        ≡ ok tt
      → broker.has_account u
          (((λ _. a) >> (λ w. (ok tt, w)) >> send broker (delete_role rolename) not_present) a.1).1
        ≡ false
  unfolding send request
  then_role u rolename (ok o, w) gone done =
      ap (broker.has_account u) (send-world (delete_role rolename) not_present w)
      ∙ broker.delete_role_lem rolename u w (gone o refl).1
      ∙ (gone o refl).0
  then_role u rolename (err e, w) gone done = cc

  -- After a removal that succeeds, where nothing that timed out was left with the broker, the car
  -- has no account there.
  remove_car-revokes :
      (u : String) (w : broker.World)
      → broker.caught_up w ≡ true
      → (remove_car broker u w).0 ≡ ok tt
      → broker.has_account u (remove_car broker u w).1 ≡ false
  unfolding remove_car send request
  remove_car-revokes u w quiet done =
      then_role u (car_role_name broker u) (request broker (delete_client u) not_present w)
        (λ o e.
          rw (answered-world not_present (broker.ask (delete_client u) w))
            (deleted u w (broker.ask (delete_client u) w).0 o quiet refl e))
        done

module _ (env : Garage) (s : Fleet env) where
  abbrev pub Revoked : Car → Fleet env → Type 0
  Revoked car s' = env.broker.has_account car.device_id s'.world ≡ false

  remove_car-Revoked :
      (car : Car) (car_id : String) (r : Result DynsecError (Unit {0}))
      → env.broker.caught_up s.world ≡ true
      → (remove_car env.broker car.device_id s.world).0 ≡ r
      → let after =
          (on_broker env (remove_car env.broker car.device_id)
              >> on_cars env (find_one_and_delete env.cars (λ c. c.id == car_id)))
            s in
        (after.1.cars ≡ s.cars) ⊎ Revoked car after.1
  remove_car-Revoked car car_id (ok tt) quiet e =
      rw e (inr (remove_car-revokes env.broker car.device_id s.world quiet e))
  remove_car-Revoked car car_id (err x) quiet e = rw e (inl refl)

  -- If no command that timed out is still with the broker, a removal of a car that is there
  -- leaves the table of cars as it was, or the broker without an account of the car.
  pub remove-Revokes :
      (user : User) (car_id : String) (car : Car)
      → env.broker.caught_up s.world ≡ true
      → find (λ c. c.id == car_id) (car_rows env s) ≡ some car
      → ((remove env user car_id s).1.cars ≡ s.cars) ⊎ Revoked car (remove env user car_id s).1
  unfolding remove
  remove-Revokes user car_id car quiet found =
      elim (Bool-cases (can_write user car (seated_in env s user car.team_id))) [
        | inl writes ↦
            rw (require_writable_car_lem env s user car_id, found, writes)
              (remove_car-Revoked car car_id _ quiet refl)
        | inr refused ↦
            let (e, why) = write_refused user car (seated_in env s user car.team_id) refused in
            let verdict = ap (by_rows env s user write_verdict) found ∙ why in
            inl (
              ap (λ (r : Result CarsError (Unit {0}) × Fleet env). r.1.cars)
                (refused_no_change env s user car_id e
                  (record {
                    name = none;
                    make = none;
                    model = none;
                    device_id = none;
                    team_id = none;
                  })
                  0 verdict).1)
      ]
