-- ===== src/Cars/Admin.antt =====
-- mqtt-admin.service.ts: the car accounts at the broker. `ask` is one command through the plumbing
-- (Cars.Plumbing) and the answer that settles it. The answer is the command's own as long as no
-- command that timed out is still with the broker (see Cars.Plumbing.Late for one that is).
use kab23_motorsport_telemet.Prelude.{
  String, ◌≡◌, Bool, true, false, List, [], ◌∷◌, Option, none, some, Result, ok, err, Exec, pure,
  ◌>>=◌, ◌>>◌, any, ◌==◌, if◌then◌else◌,
}
use kab23_motorsport_telemet.Wire.Segments.{◌⧺◌}
use kab23_motorsport_telemet.Wire.Topics.{car_publish_topics}
use kab23_motorsport_telemet.Cars.Plumbing.{
  Command, create_role, add_role_acl, create_client, get_client, add_client_role,
  set_client_password, delete_client, delete_role, DynsecResponse, DynsecError, service_unavailable,
  broker_error,
}

abbrev pub already_present : List String
already_present = "already exists" ∷ "already in" ∷ []

abbrev pub not_present : List String
not_present = "not found" ∷ "does not exist" ∷ []

-- `(error as Error).message`
abbrev pub message_of : DynsecError → String
message_of (service_unavailable m) = m
message_of (broker_error m) = m

-- Mosquitto and Node's crypto, and `includes` of a text in lower case.
pub record Broker : Type 1 where
  pub World : Type 0
  pub ask : Command → Exec DynsecError World DynsecResponse
  pub random_secret : World → String × World
  pub mentions : String → String → Bool
  -- Whether a client of this name can log in.
  pub has_account : String → World → Bool
  -- None of the messages of a broker that does not answer has such a fragment in it.
  pub unavailable_lem :
      (c : Command) (w : World) (m : String)
      → (ask c w).0 ≡ err (service_unavailable m)
      → any (λ f. mentions m f) not_present ≡ false
  -- No command that timed out is still with the broker: what answers a command is its own.
  pub caught_up : World → Bool
  -- A command that is answered leaves nothing behind.
  pub answer_lem :
      (c : Command) (w : World) (r : DynsecResponse)
      → caught_up w ≡ true
      → (ask c w).0 ≡ ok r
      → caught_up (ask c w).1 ≡ true
  pub error_lem :
      (c : Command) (w : World) (m : String)
      → caught_up w ≡ true
      → (ask c w).0 ≡ err (broker_error m)
      → caught_up (ask c w).1 ≡ true
  -- The broker deletes the account, or says that there is none.
  pub delete_client_lem :
      (u : String) (w : World) (r : DynsecResponse)
      → caught_up w ≡ true
      → (ask (delete_client u) w).0 ≡ ok r
      → has_account u (ask (delete_client u) w).1 ≡ false
  pub no_client_lem :
      (u : String) (w : World) (m : String)
      → caught_up w ≡ true
      → (ask (delete_client u) w).0 ≡ err (broker_error m)
      → any (λ f. mentions m f) not_present ≡ true
      → has_account u (ask (delete_client u) w).1 ≡ false
  -- Roles are no accounts.
  pub delete_role_lem :
      (r u : String) (w : World)
      → caught_up w ≡ true
      → has_account u (ask (delete_role r) w).1 ≡ has_account u w

module _ (broker : Broker) where
  abbrev pub Dynsec : Type 0 → Type 0
  Dynsec A = Exec DynsecError broker.World A

  abbrev pub tolerated : List String → DynsecError → Bool
  tolerated tolerate e = any (λ f. broker.mentions (message_of e) f) tolerate

  unfoldable pub answered :
      List String
      → Result DynsecError DynsecResponse × broker.World
      → Result DynsecError (Option DynsecResponse) × broker.World
  answered tolerate (ok r, w) = (ok (some r), w)
  answered tolerate (err e, w) = (if tolerated tolerate e then ok none else err e, w)

  unfoldable pub request : Command → List String → Dynsec (Option DynsecResponse)
  unfolding answered
  request c tolerate w = answered tolerate (broker.ask c w)

  unfoldable pub send : Command → List String → Dynsec (Unit {0})
  unfolding request
  send c tolerate = do request c tolerate; pure tt

  unfoldable pub add_acls : String → List String → Dynsec (Unit {0})
  unfolding send
  add_acls rolename [] = pure tt
  add_acls rolename (topic ∷ topics) = do
    send (add_role_acl rolename topic) already_present
    add_acls rolename topics

  abbrev pub car_role_name : String → String
  car_role_name device_id = "car-" ⧺ device_id

  abbrev pub holds : String → Option DynsecResponse → Bool
  holds rolename none = false
  holds rolename (some r) = elim r.roles [ none ↦ false | some rs ↦ any (λ x. x == rolename) rs ]

  unfoldable pub client_has_role : String → String → Dynsec Bool
  unfolding request
  client_has_role device_id rolename = do
    response ← request (get_client device_id) not_present
    pure (holds rolename response)

  abbrev pub generate_secret : Dynsec String
  generate_secret w = (ok (broker.random_secret w).0, (broker.random_secret w).1)

  unfoldable pub ensure_car : String → Dynsec (Unit {0})
  unfolding send add_acls client_has_role
  ensure_car device_id = do
    let rolename = car_role_name device_id
    send (create_role rolename) already_present
    add_acls rolename (car_publish_topics device_id)
    secret ← generate_secret
    send (create_client device_id secret) already_present
    granted ← client_has_role device_id rolename
    if granted then pure tt else send (add_client_role device_id rolename) []

  unfoldable pub issue_password : String → Dynsec String
  unfolding ensure_car send
  issue_password device_id = do
    ensure_car device_id
    password ← generate_secret
    send (set_client_password device_id password) []
    pure password

  unfoldable pub remove_car : String → Dynsec (Unit {0})
  unfolding send
  remove_car device_id = do
    send (delete_client device_id) not_present
    send (delete_role (car_role_name device_id)) not_present
