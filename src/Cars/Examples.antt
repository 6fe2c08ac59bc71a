-- ===== src/Cars/Examples.antt =====
-- The theorems on the cars at one car of a team, with a broker that does what it is asked, and those
-- on the plumbing at two commands.
use kab23_motorsport_telemet.Prelude.{
  String, ◌≡◌, refl, true, false, List, [], ◌∷◌, ◌++◌, Option, none, some, ok, err, Exec, any,
  reject, count, rewrite, ◌==◌, arith, ◌⊎◌,
}
use kab23_motorsport_telemet.Repository.Abstract.{forbidden}
use kab23_motorsport_telemet.Repository.InMemory.{in_memory}
use kab23_motorsport_telemet.Teams.{
  TeamRole, driver, manager, driver', User, TeamMember, team_key, member_key, invite_key, no_clash,
  same_seat, same_address,
}
use kab23_motorsport_telemet.Cars.{
  Car, UpdateCarDto, Garage, Fleet, http, car_key, same_device, updated,
}
use kab23_motorsport_telemet.Cars.Plumbing.{
  Command, create_role, add_role_acl, create_client, delete_client, DynsecError, DynsecResponse,
  service_unavailable, rejected, resolved, Event, asked, connect_changed, responded, publish_failed,
  on_publish_error, promise_of, run, start, step, request, settle, settle_at, on_response, answer,
  drain, send_now,
}
use kab23_motorsport_telemet.Cars.Plumbing.Queue.{IsSerial, tickets_of, up_to, run-start-IsSerial}
use kab23_motorsport_telemet.Cars.Plumbing.Late.{
  expire_all, expire_all-run, second_after_timeout, late_response_settles_next,
}
use kab23_motorsport_telemet.Cars.Admin.{Broker}
use kab23_motorsport_telemet.Cars.Service.{update, remove, issue_mqtt_credentials}
use kab23_motorsport_telemet.Cars.Service.{get_visible_car_ids}
use kab23_motorsport_telemet.Cars.Service.Visible.{get_visible_car_ids_lem}
use kab23_motorsport_telemet.Cars.Service.Refusing.{refused_no_change, Revoked, remove-Revokes}

-- The broker's accounts, by name.
abbrev pub obey : Command → Exec DynsecError (List String) DynsecResponse
obey (create_client u p) w =
    (ok (record { command = "createClient"; error = none; roles = none }), u ∷ w)
obey (delete_client u) w =
    (ok (record { command = "deleteClient"; error = none; roles = none }), reject (λ x. x == u) w)
obey c w = (ok (record { command = "getClient"; error = none; roles = none }), w)

pub none_left : (u : String) (w : List String) → any (λ x. x == u) (reject (λ x. x == u) w) ≡ false
none_left u [] = refl
none_left u (x ∷ xs) = ground (arith, none_left u xs)

abbrev pub obedient : Broker
obedient = record {
  World = List String;
  ask = obey;
  random_secret = λ w. ("secret", w);
  mentions = λ m f. false;
  has_account = λ u w. any (λ x. x == u) w;
  unavailable_lem = λ c w m e. refl;
  caught_up = λ w. true;
  answer_lem = λ c w r quiet e. refl;
  error_lem = λ c w m quiet e. refl;
  delete_client_lem = λ u w r quiet e. none_left u w;
  no_client_lem = λ u w m quiet e gone. none_left u w;
  delete_role_lem = λ r u w quiet. refl;
}

abbrev pub garage : Garage
garage = record {
  platform = record {
    teams = in_memory team_key no_clash;
    members = in_memory member_key same_seat;
    invites = in_memory invite_key same_address;
    to_lower = λ s. s;
  };
  cars = in_memory car_key same_device;
  try_update = λ p f t. updated (count p t) (rewrite p f t);
  broker = obedient;
}

-- Alice owns the car, which runs under a team in which Carol drives and Mona manages.
abbrev pub car : Car
car = record {
  id = "c1";
  name = "E46";
  make = none;
  model = none;
  device_id = "dev";
  mqtt_provisioned_at = some 5;
  owner_id = "alice";
  team_id = some "t";
}

abbrev pub user_named : String → User
user_named name = record { id = name; email = name; role = driver' }

abbrev pub seat_named : String → TeamRole → TeamMember
seat_named name role = record { id = name; team_id = "t"; user_id = name; role = role }

abbrev pub fleet : Fleet garage
fleet = record {
  db = record {
    teams = record { id = "t"; name = "Kab" } ∷ [];
    members = seat_named "carol" driver ∷ seat_named "mona" manager ∷ [];
    invites = [];
  };
  cars = car ∷ [];
  world = "dev" ∷ [];
}

get_visible_car_ids_example :
    get_visible_car_ids garage (user_named "carol") none fleet ≡ (ok ("c1" ∷ []), fleet)
get_visible_car_ids_example = get_visible_car_ids_lem garage fleet (user_named "carol")

abbrev detach : UpdateCarDto
detach = record { name = none; make = none; model = none; device_id = none; team_id = some none }

refused_no_change_example :
    let e = http (forbidden "Insufficient permissions for this car") in
    (update garage (user_named "carol") "c1" detach fleet ≡ (err e, fleet))
    × (remove garage (user_named "carol") "c1" fleet ≡ (err e, fleet))
    × (issue_mqtt_credentials garage 7 (user_named "carol") "c1" fleet ≡ (err e, fleet))
refused_no_change_example =
    refused_no_change garage fleet (user_named "carol") "c1"
      (http (forbidden "Insufficient permissions for this car")) detach 7 refl

remove-Revokes_example :
    ((remove garage (user_named "mona") "c1" fleet).1.cars ≡ fleet.cars)
    ⊎ Revoked garage fleet car (remove garage (user_named "mona") "c1" fleet).1
remove-Revokes_example = remove-Revokes garage fleet (user_named "mona") "c1" car refl refl

-- The broker's text is the name of the command that it answers.
abbrev reads : String → Option DynsecResponse
reads name = some (record { command = name; error = none; roles = none })

-- The last is the callback of the first attempt, which comes while the second is in flight.
abbrev busy : List Event
busy =
    connect_changed true
    ∷ asked (create_role "car-dev")
    ∷ asked (delete_client "dev")
    ∷ responded "createRole"
    ∷ asked (delete_client "dev")
    ∷ publish_failed 1
    ∷ []

run-start-IsSerial_example : IsSerial (run reads busy start)
run-start-IsSerial_example = run-start-IsSerial reads busy

expire_all-run_example :
    (tickets_of (expire_all 2 (run reads busy start)).settled ≡ up_to 3)
    × ((expire_all 2 (run reads busy start)).in_flight ≡ none)
unfolding run step request drain send_now on_response on_publish_error promise_of answer settle
    settle_at
expire_all-run_example = expire_all-run reads busy 2 (omega arith)

late_response_settles_next_example :
    let c = add_role_acl "car-dev" "cars/dev/telemetry" in
    let d = add_role_acl "car-dev" "cars/dev/session" in
    (run reads (second_after_timeout c d ++ responded "addRoleACL" ∷ []) start).settled
    ≡ (0, rejected (service_unavailable "MQTT broker did not respond"))
      ∷ (1, resolved (record { command = "addRoleACL"; error = none; roles = none }))
      ∷ []
late_response_settles_next_example =
    late_response_settles_next reads (add_role_acl "car-dev" "cars/dev/telemetry")
      (add_role_acl "car-dev" "cars/dev/session") "addRoleACL"
      (record { command = "addRoleACL"; error = none; roles = none }) refl refl refl
