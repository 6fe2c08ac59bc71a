-- ===== src/Live/Gateway.antt =====
-- apps/api/src/live-telemetry/live-telemetry.gateway.ts: one socket and the bus. A handler that waits
-- is a task; other handlers of the socket may run until it goes on.
pub mod Leaving
pub mod Boundary
use kab23_motorsport_telemet.Prelude.{
  ℕ, zero, suc, ◌+◌, String, Bool, true, false, not, ◌&&◌, ◌||◌, List, [], ◌∷◌, ◌++◌, Option, none,
  some, any, reject, find, ltb, ◌=ⁿ◌, ◌==◌, if◌then◌else◌,
}
use kab23_motorsport_telemet.Live.{
  Bus, add_viewer, subscribe_failed, remove_viewer, parse_live_message,
}

-- What the socket is sent: an error by its message, or a frame.
pub data Emitted (A : Type 0) : Type 0 where
  failure : String → Emitted A
  seeded : A → Emitted A

-- Where a `subscribe` waits: for the check of the access, or for this subscribe of the bus.
pub data Phase : Type 0 where
  authorizing : Phase
  joining : ℕ → Phase

pub record Task : Type 0 where
  pub number : ℕ
  pub car_id : String
  pub phase : Phase

-- `cars` are the claims of the socket.
pub record Viewer (A : Type 0) : Type 0 where
  pub logged_in : Bool
  pub cars : List String
  pub rooms : List String
  pub tasks : List Task
  pub next_task : ℕ
  pub emitted : List (Emitted A)
  pub bus : Bus

abbrev pub holds : String → List String → Bool
holds car_id cars = any (λ c. c == car_id) cars

abbrev pub without : String → List String → List String
without car_id cars = reject (λ c. c == car_id) cars

abbrev pub lkv_max_seed_age_ms : ℕ
lkv_max_seed_age_ms = 15000

unfoldable pub release_all : List String → Bus → Bus
release_all [] b = b
release_all (c ∷ cs) b = release_all cs (remove_viewer c b)

module _ {A : Type 0} where
  abbrev pub emit : Emitted A → Viewer A → Viewer A
  emit e s = record s { emitted = s.emitted ++ e ∷ [] }

  -- `subscribe` up to its first await.
  unfoldable pub subscribe : Option String → Viewer A → Viewer A
  subscribe none s = emit (failure "Invalid subscribe request") s
  subscribe (some car_id) s =
      if not s.logged_in || car_id == ""
      then emit (failure "Invalid subscribe request") s
      else if holds car_id s.cars
      then s
      else record s {
        cars = car_id ∷ s.cars;
        tasks =
            s.tasks ++ record { number = s.next_task; car_id = car_id; phase = authorizing } ∷ [];
        next_task = suc s.next_task;
      }

  abbrev pub end_task : ℕ → Viewer A → Viewer A
  end_task n s = record s { tasks = reject (λ t. t.number =ⁿ n) s.tasks }

  -- A claim is given up with an error.
  abbrev pub give_up : ℕ → String → String → Viewer A → Viewer A
  give_up n car_id message s =
      emit (failure message) (record (end_task n s) { cars = without car_id s.cars })

  -- After `requireReadableCar`.
  unfoldable pub authorize : ℕ → Bool → String → Viewer A → Viewer A
  authorize n false car_id s = give_up n car_id "Car not found" s
  authorize n true car_id s =
      let (number, bus) = add_viewer car_id s.bus in
      record s {
        tasks =
            reject (λ t. t.number =ⁿ n) s.tasks
            ++ record { number = n; car_id = car_id; phase = joining number } ∷ [];
        bus = bus;
      }

  abbrev pub emit_seed : Option A → Viewer A → Viewer A
  emit_seed none s = s
  emit_seed (some frame) s = emit (seeded frame) s

  -- After `addViewer`, with the seed.
  unfoldable pub joined : ℕ → Bool → ℕ → String → Option A → Viewer A → Viewer A
  joined n false number car_id frame s =
      give_up n car_id "Live feed unavailable"
        (record s { bus = subscribe_failed car_id number s.bus })
  joined n true number car_id frame s =
      let ended = end_task n s in
      emit_seed frame (record ended { rooms = car_id ∷ without car_id s.rooms })

  unfoldable pub proceed : Bool → Option A → Option Task → Viewer A → Viewer A
  proceed good frame none s = s
  proceed good frame (some t) s = elim t.phase [
    | authorizing ↦ authorize t.number good t.car_id s
    | joining number ↦ joined t.number good number t.car_id frame s
  ]

  -- What this task waits for comes to an end, well or not.
  unfoldable pub resume : ℕ → Bool → Option A → Viewer A → Viewer A
  unfolding proceed authorize joined
  resume n good frame s = proceed good frame (find (λ t. t.number =ⁿ n) s.tasks) s

  unfoldable pub unsubscribe : Option String → Viewer A → Viewer A
  unsubscribe none s = s
  unsubscribe (some car_id) s = if car_id == "" || not (holds car_id s.cars) then s else record s {
    cars = without car_id s.cars;
    rooms = without car_id s.rooms;
    bus = remove_viewer car_id s.bus;
  }

  -- `handleDisconnect`; the server takes the socket out of its rooms.
  unfoldable pub handle_disconnect : Viewer A → Viewer A
  unfolding release_all
  handle_disconnect s = record s { cars = []; rooms = []; bus = release_all s.cars s.bus }

  -- The frame that `seed` emits: `cached` is the last-known value, `pt` its time of publishing.
  fresh_enough : (A → ℕ) → ℕ → Option A → Option A
  fresh_enough pt now none = none
  fresh_enough pt now (some frame) =
      if ltb (pt frame + lkv_max_seed_age_ms) now then none else some frame

  unfoldable pub seed :
      (String → Option A) → (A → Option ℕ) → (A → ℕ) → ℕ → Option String → Option A
  unfolding fresh_enough
  seed decode version pt now none = none
  seed decode version pt now (some cached) =
      fresh_enough pt now (parse_live_message decode version cached)
