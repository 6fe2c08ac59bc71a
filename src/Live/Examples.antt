-- ===== src/Live/Examples.antt =====
-- The theorems on the live bus at one car.
use kab23_motorsport_telemet.Prelude.{
  ℕ, ◌≡◌, refl, Bool, true, List, ◌==◌, [], ◌∷◌, none, some, Option, String,
}
use kab23_motorsport_telemet.Prelude.Assoc.{lookup}
use kab23_motorsport_telemet.Wire.Channels.{frame, parse_live_channel}
use kab23_motorsport_telemet.Live.{
  Viewed, Bus, add_viewer, view, BusMessage, no_viewers, dispatch_message, parse_live_message,
  subscribe_to,
}
use kab23_motorsport_telemet.Live.Gateway.{
  subscribe, resume, proceed, authorize, joined, handle_disconnect,
}
use kab23_motorsport_telemet.Live.Gateway.Boundary.{
  Event, subscribing, resuming, step, run, IsAdmitted, run-connected-IsAdmitted,
}
use kab23_motorsport_telemet.Live.Gateway.Leaving.{connected, disconnect_while_authorizing}
use kab23_motorsport_telemet.Live.Viewers.{Has}

abbrev watched : Bus
watched = record {
  cars = ("c1", record { count = 2; subscribing = 0 }) ∷ [];
  subscribes = 1;
  sent = subscribe_to "c1" ∷ [];
}

abbrev two_viewers : Viewed
two_viewers = record { count = 2; subscribing = 0 }

abbrev decode : String → Option ℕ
decode raw = some 7

abbrev version : ℕ → Option ℕ
version payload = some 1

abbrev handed_on : BusMessage decode version
handed_on = record { car_id = "c1"; kind = frame; payload = 7 }

handed : dispatch_message decode version true "live:car:c1" "body" ≡ some handed_on
unfolding dispatch_message parse_live_channel parse_live_message
handed = refl

-- One car is readable.
abbrev reads_c1 : String → Bool
reads_c1 car_id = car_id == "c1"

abbrev two_cars : List (Event ℕ)
two_cars =
    subscribing (some "c1")
    ∷ subscribing (some "c2")
    ∷ resuming 1 true none
    ∷ resuming 0 true none
    ∷ resuming 0 true (some 7)
    ∷ []

in_one_room : (run reads_c1 two_cars (connected no_viewers)).rooms ≡ "c1" ∷ []
unfolding run step subscribe proceed authorize joined add_viewer view lookup
in_one_room = refl

run-connected-IsAdmitted_example :
    IsAdmitted reads_c1 (run reads_c1 two_cars (connected no_viewers))
run-connected-IsAdmitted_example = run-connected-IsAdmitted reads_c1 two_cars no_viewers

disconnect_while_authorizing_example :
    let s = handle_disconnect (subscribe {A = ℕ} (some "c1") (connected no_viewers)) in
    let s' = resume 0 true none (resume 0 true none s) in (s'.cars ≡ []) × Has "c1" 1 0 s'.bus
unfolding lookup
disconnect_while_authorizing_example = disconnect_while_authorizing "c1" none no_viewers refl refl
