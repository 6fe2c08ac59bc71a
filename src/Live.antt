-- ===== src/Live.antt =====
-- apps/api/src/live-telemetry/live-telemetry-bus.service.ts: which cars this instance subscribes to,
-- and which messages it hands on; and parseLiveMessage of
-- libs/common/src/live-telemetry/live-telemetry-frame.ts. A subscribe is known by its number, which
-- tells the entry that it established from a newer one.
pub mod Viewers
pub mod Delivery
pub mod Gateway
mod Examples
use kab23_motorsport_telemet.Prelude.{
  ℕ, zero, suc, ◌-◌, String, Bool, true, false, List, [], ◌∷◌, ◌++◌, Option, none, some, leb, ◌=ⁿ◌,
  if◌then◌else◌,
}
use kab23_motorsport_telemet.Prelude.Assoc.{lookup, insert, erase}
use kab23_motorsport_telemet.Wire.Channels.{
  LiveChannelKind, ParsedLiveChannel, live_car_channel, live_car_events_channel, parse_live_channel,
}
use kab23_motorsport_telemet.Ingest.Messages.{live_frame_schema_version}

pub record Viewed : Type 0 where
  pub count : ℕ
  pub subscribing : ℕ

-- What is sent to Redis: the channels of one car each time.
pub data BusCommand : Type 0 where
  subscribe unsubscribe : String → String → BusCommand

pub record Bus : Type 0 where
  pub cars : List (String × Viewed)
  -- The number of the next subscribe.
  pub subscribes : ℕ
  pub sent : List BusCommand

abbrev pub no_viewers : Bus
no_viewers = record { cars = []; subscribes = 0; sent = [] }

abbrev pub subscribe_to : String → BusCommand
subscribe_to car_id = subscribe (live_car_channel car_id) (live_car_events_channel car_id)

abbrev pub unsubscribe_from : String → BusCommand
unsubscribe_from car_id = unsubscribe (live_car_channel car_id) (live_car_events_channel car_id)

unfoldable pub view : String → Option Viewed → Bus → ℕ × Bus
view car_id none b = (
  b.subscribes,
  record {
    cars = insert car_id (record { count = 1; subscribing = b.subscribes }) b.cars;
    subscribes = suc b.subscribes;
    sent = b.sent ++ subscribe_to car_id ∷ [];
  },
)
view car_id (some e) b =
    (e.subscribing, record b { cars = insert car_id (record e { count = suc e.count }) b.cars })

-- `addViewer` up to its await: the subscribe that the viewer waits for.
unfoldable pub add_viewer : String → Bus → ℕ × Bus
unfolding view
add_viewer car_id b = view car_id (lookup car_id b.cars) b

unfoldable pub discard : String → ℕ → Option Viewed → Bus → Bus
discard car_id n none b = b
discard car_id n (some e) b =
    if e.subscribing =ⁿ n then record b { cars = erase car_id b.cars } else b

-- The `catch` of one viewer who waited for the subscribe of this number.
unfoldable pub subscribe_failed : String → ℕ → Bus → Bus
unfolding discard
subscribe_failed car_id n b = discard car_id n (lookup car_id b.cars) b

-- `release`: whether this was the last viewer.
unfoldable pub release_from : String → Option Viewed → Bus → Bool × Bus
release_from car_id none b = (false, b)
release_from car_id (some e) b =
    if leb e.count 1
    then (true, record b { cars = erase car_id b.cars })
    else (false, record b { cars = insert car_id (record e { count = e.count - 1 }) b.cars })

unfoldable pub unsubscribed : String → Bool × Bus → Bus
unsubscribed car_id (true, b) = record b { sent = b.sent ++ unsubscribe_from car_id ∷ [] }
unsubscribed car_id (false, b) = b

-- A failed unsubscribe is logged and changes nothing here.
unfoldable pub remove_viewer : String → Bus → Bus
unfolding release_from unsubscribed
remove_viewer car_id b = unsubscribed car_id (release_from car_id (lookup car_id b.cars) b)

-- `A` is what a body decodes to, `version` its `v`, and `decode` is `JSON.parse`.
module _ {A : Type 0} (decode : String → Option A) (version : A → Option ℕ) where
  unfoldable pub known_version : A → Option ℕ → Option A
  known_version payload none = none
  known_version payload (some v) = if v =ⁿ live_frame_schema_version then some payload else none

  unfoldable pub parse_live_message : String → Option A
  unfolding known_version
  parse_live_message raw = elim (decode raw) [
    | none ↦ none
    | some payload ↦ known_version payload (version payload)
  ]

  pub record BusMessage : Type 0 where
    pub car_id : String
    pub kind : LiveChannelKind
    pub payload : A

  unfoldable pub deliver : ParsedLiveChannel → Option A → Option BusMessage
  deliver parsed none = none
  deliver parsed (some payload) =
      some (record { car_id = parsed.car_id; kind = parsed.kind; payload = payload })

  -- What the handler is called with; `installed` tells whether there is one.
  unfoldable pub dispatch_message : Bool → String → String → Option BusMessage
  unfolding deliver
  dispatch_message installed channel raw = elim (parse_live_channel channel) [
    | none ↦ none
    | some parsed ↦ if installed then deliver parsed (parse_live_message raw) else none
  ]
