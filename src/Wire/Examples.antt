-- ===== src/Wire/Examples.antt =====
-- The theorems on names at concrete names.
use kab23_motorsport_telemet.Prelude.{◌≡◌, some, arith, eq_iff, All}
use kab23_motorsport_telemet.Wire.Topics.{
  car_publish_topics, device_id_from_topic, device_id-car_publish_topics,
}
use kab23_motorsport_telemet.Wire.Channels.{event, ParsedLiveChannel}

device_id-car_publish_topics_example :
    All (λ topic. device_id_from_topic topic ≡ some "pi4") (car_publish_topics "pi4")
device_id-car_publish_topics_example =
    device_id-car_publish_topics "pi4" (ground (arith, eq_iff "pi4" "")) (omega arith)

abbrev car_events : ParsedLiveChannel
car_events = record { car_id = "c1"; kind = event }
