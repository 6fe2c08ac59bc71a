-- ===== src/Ingest/Publisher.antt =====
-- apps/telemetry-ingest/src/telemetry/live-publisher.service.ts: what is put on the live bus, and what
-- a failure of Redis costs.
use kab23_motorsport_telemet.Prelude.{ℕ, String, Bool, List, [], ◌∷◌, ◌++◌, any, if◌then◌else◌}
use kab23_motorsport_telemet.Wire.Channels.{
  live_car_channel, live_car_events_channel, lkv_car_key, lkv_ttl_seconds,
}
use kab23_motorsport_telemet.Ingest.Counter.{Failures, no_failures, count_failure}
use kab23_motorsport_telemet.Ingest.Messages.{
  SessionEventName, start, stop, TelemetrySample, LiveFrame, LiveSessionEvent, to_live_frame,
  live_frame_schema_version,
}

-- What `JSON.stringify` is given.
pub data LiveMessage (Num Json : Type 0) : Type 0 where
  frame_message : LiveFrame Num Json → LiveMessage Num Json
  event_message : LiveSessionEvent → LiveMessage Num Json

pub data Command : Type 0 where
  publish : String → String → Command
  -- `SET key value EX seconds`
  set : String → String → ℕ → Command
  del : String → Command

-- How a pipeline ends: it throws when it is built, `exec` rejects, or there is a result for each
-- command, `true` for an error.
pub data Answer : Type 0 where
  throws rejects : Answer
  results : List Bool → Answer

-- The Redis client: its answer to a pipeline, after those that it was given before.
abbrev pub Redis : Type 0
Redis = List (List Command) → List Command → Answer

pub record Publisher : Type 0 where
  pub failures : Failures
  -- The pipelines that were given to Redis.
  pub pipelines : List (List Command)

abbrev pub fresh_publisher : Publisher
fresh_publisher = record { failures = no_failures; pipelines = [] }

unfoldable pub answered : ℕ → Answer → List Command → Publisher → Publisher
answered now throws commands p = record p { failures = count_failure now p.failures }
answered now rejects commands p = record {
  failures = count_failure now p.failures;
  pipelines = p.pipelines ++ commands ∷ [];
}
answered now (results errors) commands p = record {
  failures = if any (λ e. e) errors then count_failure now p.failures else p.failures;
  pipelines = p.pipelines ++ commands ∷ [];
}

module _ {Num Json : Type 0} (redis : Redis) (stringify : LiveMessage Num Json → String) where
  unfoldable pub run_pipeline : ℕ → List Command → Publisher → Publisher
  unfolding answered
  run_pipeline now commands p = answered now (redis p.pipelines commands) commands p

  abbrev pub frame_commands : ℕ → TelemetrySample Num Json → List Command
  frame_commands now sample =
      let payload = stringify (frame_message (to_live_frame now sample)) in
      publish (live_car_channel sample.car_id) payload
      ∷ set (lkv_car_key sample.car_id) payload lkv_ttl_seconds
      ∷ []

  unfoldable pub publish_frame : ℕ → TelemetrySample Num Json → Publisher → Publisher
  unfolding run_pipeline
  publish_frame now sample p = run_pipeline now (frame_commands now sample) p

  abbrev pub event_commands : ℕ → String → String → SessionEventName → List Command
  event_commands now car_id session_id event =
      let payload = stringify (
        event_message (record {
          v = live_frame_schema_version;
          car_id = car_id;
          session_id = session_id;
          event = event;
          t = now;
        })) in
      publish (live_car_events_channel car_id) payload
      ∷ elim event [ start ↦ [] | stop ↦ del (lkv_car_key car_id) ∷ [] ]

  unfoldable pub publish_event : ℕ → String → String → SessionEventName → Publisher → Publisher
  unfolding run_pipeline
  publish_event now car_id session_id event p =
      run_pipeline now (event_commands now car_id session_id event) p
