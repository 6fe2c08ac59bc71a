-- ===== src/Cars/Plumbing.antt =====
-- mqtt-admin.service.ts: the commands of `MqttAdminService` and the plumbing that sends one at a time
-- and matches the broker's responses with them. A request's promise is its ticket.
pub mod Queue
pub mod Late
use kab23_motorsport_telemet.Prelude.{
  ℕ, suc, String, ◌≡◌, Bool, true, false, List, [], ◌∷◌, ◌++◌, Option, none, some, ◌==◌, ◌=ⁿ◌,
  if◌then◌else◌,
}

-- The fields that vary; a role's ACLs all allow `publishClientSend`.
pub data Command : Type 0 where
  create_role : (rolename : String) → Command
  add_role_acl : (rolename topic : String) → Command
  create_client : (username password : String) → Command
  get_client : (username : String) → Command
  add_client_role : (username rolename : String) → Command
  set_client_password : (username password : String) → Command
  delete_client : (username : String) → Command
  delete_role : (rolename : String) → Command

-- `command.command`
abbrev pub name_of : Command → String
name_of (create_role r) = "createRole"
name_of (add_role_acl r t) = "addRoleACL"
name_of (create_client u p) = "createClient"
name_of (get_client u) = "getClient"
name_of (add_client_role u r) = "addClientRole"
name_of (set_client_password u p) = "setClientPassword"
name_of (delete_client u) = "deleteClient"
name_of (delete_role r) = "deleteRole"

pub record DynsecResponse : Type 0 where
  pub command : String
  pub error : Option String
  -- the names of the roles of `data.client`
  pub roles : Option (List String)

-- What a promise is rejected with.
pub data DynsecError : Type 0 where
  service_unavailable broker_error : String → DynsecError

pub data Outcome : Type 0 where
  resolved : DynsecResponse → Outcome
  rejected : DynsecError → Outcome

pub record InFlight : Type 0 where
  pub token : ℕ
  pub ticket : ℕ
  pub command : Command

pub record Plumbing : Type 0 where
  pub connected : Bool
  pub in_flight : Option InFlight
  -- the request whose promise the chain of `queue` waits for
  pub running : Option ℕ
  pub next_token : ℕ
  -- the promise whose `resolve` and `reject` the callbacks of an attempt hold, by its token
  pub promises : List (ℕ × ℕ)
  -- the requests so far, and those of them in `queue` that were not sent yet
  pub next_ticket : ℕ
  pub waiting : List (ℕ × Command)
  -- the calls of `resolve` and `reject`; of a promise's calls the first counts
  pub settled : List (ℕ × Outcome)
  pub published : List Command

-- `resolve` or `reject` of the promise of this ticket.
abbrev pub finish : ℕ → Outcome → Plumbing → Plumbing
finish ticket o s = record s { settled = s.settled ++ (ticket, o) ∷ [] }

-- `sendNow`, where the client is connected.
unfoldable pub send_now : ℕ → Command → Plumbing → Plumbing
send_now ticket c s = record s {
  in_flight = some (record { token = suc s.next_token; ticket = ticket; command = c });
  running = some ticket;
  next_token = suc s.next_token;
  promises = (suc s.next_token, ticket) ∷ s.promises;
  published = s.published ++ c ∷ [];
}

-- The chain of `queue`: a command that is rejected at once lets the next one run.
unfoldable pub drain : List (ℕ × Command) → Plumbing → Plumbing
unfolding send_now
drain [] s = record s { waiting = [] }
drain ((ticket, c) ∷ ws) s =
    let rest =
      drain ws (finish ticket (rejected (service_unavailable "MQTT broker unavailable")) s) in
    if s.connected then send_now ticket c (record s { waiting = ws }) else rest

abbrev pub run_queue : Option ℕ → Plumbing → Plumbing
run_queue (some ticket) s = s
run_queue none s = drain s.waiting s

unfoldable pub request : Command → Plumbing → Plumbing
unfolding drain
request c s =
    let s' = record s {
      next_ticket = suc s.next_ticket;
      waiting = s.waiting ++ (s.next_ticket, c) ∷ [];
    } in
    run_queue s'.running s'

-- The chain goes on when the promise that it waits for has settled.
abbrev pub go_on : ℕ → Option ℕ → Plumbing → Plumbing
go_on ticket none s = s
go_on ticket (some awaited) s =
    let next = drain s.waiting (record s { running = none }) in
    if awaited =ⁿ ticket then next else s

abbrev pub complete : ℕ → Outcome → Plumbing → Plumbing
complete ticket o s = go_on ticket s.running (finish ticket o (record s { in_flight = none }))

-- `settle(token, finish)`, where `finish` is that of the promise of this ticket.
unfoldable pub settle_at : ℕ → ℕ → Outcome → Option InFlight → Plumbing → Plumbing
unfolding drain
settle_at token ticket o none s = s
settle_at token ticket o (some f) s = if f.token =ⁿ token then complete ticket o s else s

unfoldable pub settle : ℕ → ℕ → Outcome → Plumbing → Plumbing
unfolding settle_at
settle token ticket o s = settle_at token ticket o s.in_flight s

-- The promise that the callbacks of an attempt hold.
unfoldable pub promise_of : ℕ → List (ℕ × ℕ) → Option ℕ
promise_of token [] = none
promise_of token ((t, ticket) ∷ ps) =
    let rest = promise_of token ps in if t =ⁿ token then some ticket else rest

-- A callback of an attempt; of one that never was there is none.
abbrev pub called_back : ℕ → Outcome → Option ℕ → Plumbing → Plumbing
called_back token o none s = s
called_back token o (some ticket) s = settle token ticket o s

unfoldable pub on_timeout : ℕ → Plumbing → Plumbing
unfolding settle promise_of
on_timeout token s =
    called_back token (rejected (service_unavailable "MQTT broker did not respond"))
      (promise_of token s.promises) s

unfoldable pub on_publish_error : ℕ → Plumbing → Plumbing
unfolding settle promise_of
on_publish_error token s =
    called_back token (rejected (service_unavailable "Could not reach the MQTT broker"))
      (promise_of token s.promises) s

-- An empty error is none.
abbrev pub outcome_of : DynsecResponse → Option String → Outcome
outcome_of r none = resolved r
outcome_of r (some e) = if e == "" then resolved r else rejected (broker_error e)

unfoldable pub answer : Option DynsecResponse → Option InFlight → Plumbing → Plumbing
unfolding settle
answer r none s = s
answer none (some f) s = s
answer (some r) (some f) s =
    if r.command == name_of f.command then settle f.token f.ticket (outcome_of r r.error) s else s

-- `parse` is `JSON.parse` and the first of the responses: `none` where it throws or there is none.
unfoldable pub on_response : (String → Option DynsecResponse) → String → Plumbing → Plumbing
unfolding answer
on_response parse payload s = answer (parse payload) s.in_flight s

pub data Event : Type 0 where
  connect_changed : Bool → Event
  asked : Command → Event
  timed_out publish_failed : ℕ → Event
  responded : String → Event

module _ (parse : String → Option DynsecResponse) where
  unfoldable pub step : Event → Plumbing → Plumbing
  unfolding request on_timeout on_publish_error on_response
  step (connect_changed b) s = record s { connected = b }
  step (asked c) s = request c s
  step (timed_out token) s = on_timeout token s
  step (publish_failed token) s = on_publish_error token s
  step (responded payload) s = on_response parse payload s

  unfoldable pub run : List Event → Plumbing → Plumbing
  run [] s = s
  run (e ∷ es) s = run es (step e s)

abbrev pub start : Plumbing
start = record {
  connected = false;
  in_flight = none;
  running = none;
  next_token = 0;
  promises = [];
  next_ticket = 0;
  waiting = [];
  settled = [];
  published = [];
}
