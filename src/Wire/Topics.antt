-- ===== src/Wire/Topics.antt =====
-- libs/common/src/constants/mqtt-topics.ts: the topics that a car publishes to, and the device id
-- that the ingest service reads back from a topic.
use kab23_motorsport_telemet.Prelude.{
  String, ◌≡◌, ◌≢◌, sym, ap, ◌∙◌, not, ◌&&◌, List, [], ◌∷◌, Option, none, some, arith, ◌==◌, eq_iff,
  if◌then◌else◌, All,
}
use kab23_motorsport_telemet.Wire.Segments.{
  ◌⧺◌, split, Without, join, split-Without, split-append, join-split, literal_sep,
}

pub car_telemetry_topic : String → String
car_telemetry_topic device_id = "cars/" ⧺ (device_id ⧺ "/telemetry")

pub car_session_topic : String → String
car_session_topic device_id = "cars/" ⧺ (device_id ⧺ "/session")

pub car_backfill_topic : String → String
car_backfill_topic device_id = "cars/" ⧺ (device_id ⧺ "/backfill")

pub car_publish_topics : String → List String
car_publish_topics device_id =
    car_telemetry_topic device_id ∷ car_session_topic device_id ∷ car_backfill_topic device_id ∷ []

-- The test on the segments; an empty device id is no device id.
device_segment : List String → Option String
device_segment (a ∷ b ∷ c ∷ []) = if a == "cars" && not (b == "") then some b else none
device_segment _ = none

unfoldable pub device_id_from_topic : String → Option String
unfolding device_segment split
device_id_from_topic topic = device_segment (split b'/' topic)

-- A topic of the scheme, cut at its slashes.
split-topic :
    (device_id kind : String)
    → Without b'/' device_id
    → Without b'/' kind
    → split b'/' ("cars/" ⧺ (device_id ⧺ String.◌∷◌ "/" kind)) ≡ "cars" ∷ device_id ∷ kind ∷ []
split-topic device_id kind plain_id plain_kind =
    ap (split b'/') (literal_sep "/" "cars" (device_id ⧺ String.◌∷◌ "/" kind))
    ∙ split-append "/" "cars" (device_id ⧺ String.◌∷◌ "/" kind) (omega arith)
    ∙ ap (◌∷◌ "cars") (
        split-append "/" device_id kind plain_id
        ∙ ap (◌∷◌ device_id) (split-Without b'/' kind plain_kind))

read_back :
    (device_id kind : String)
    → device_id ≢ ""
    → Without b'/' device_id
    → Without b'/' kind
    → device_id_from_topic ("cars/" ⧺ (device_id ⧺ String.◌∷◌ "/" kind)) ≡ some device_id
unfolding device_id_from_topic device_segment
read_back device_id kind named plain_id plain_kind =
    rw (split-topic device_id kind plain_id plain_kind) (ground (arith, eq_iff device_id ""))

-- The device id is read back from each topic that a car may publish to, if it is not empty and
-- has no slash in it.
pub device_id-car_publish_topics :
    (device_id : String)
    → device_id ≢ ""
    → Without b'/' device_id
    → All (λ topic. device_id_from_topic topic ≡ some device_id) (car_publish_topics device_id)
unfolding car_publish_topics car_telemetry_topic car_session_topic car_backfill_topic
device_id-car_publish_topics device_id named plain = (
  read_back device_id "telemetry" named plain (omega arith),
  (
    read_back device_id "session" named plain (omega arith),
    (read_back device_id "backfill" named plain (omega arith), tt),
  ),
)

segment_shape :
    (ss : List String) (device_id : String)
    → device_segment ss ≡ some device_id
    → (kind : String) × (ss ≡ "cars" ∷ device_id ∷ kind ∷ []) × (device_id ≢ "")
unfolding device_segment
segment_shape (a ∷ b ∷ c ∷ []) device_id e =
    (c, ground (arith, eq_iff a "cars", eq_iff b ""), ground (arith, eq_iff a "cars", eq_iff b ""))
segment_shape _ device_id e = cc

-- A topic that yields a device id is cars/<device id>/<one segment>, with a device id that is
-- not empty.
pub device_id_from_topic_shape :
    (topic device_id : String)
    → device_id_from_topic topic ≡ some device_id
    → (kind : String) × (topic ≡ join "/" ("cars" ∷ device_id ∷ kind ∷ [])) × (device_id ≢ "")
unfolding device_id_from_topic
device_id_from_topic_shape topic device_id e =
    let (kind, shape, named) = segment_shape (split b'/' topic) device_id e in
    (kind, sym (join-split "/" topic) ∙ ap (join "/") shape, named)
