-- ===== src/Ingest/Messages.antt =====
-- What travels through ingest: the messages of a car (apps/telemetry-ingest/src/telemetry/dto), the
-- row of the hypertable (entities/telemetry-sample.entity.ts) and the live bus's messages
-- (libs/common/src/live-telemetry/live-telemetry-frame.ts). `Num` is a JavaScript number and `Json`
-- an object: neither is looked into.
use kab23_motorsport_telemet.Prelude.{ℕ, String, List, Option}
use kab23_motorsport_telemet.Prelude.Int.{ℤ}
use kab23_motorsport_telemet.Ingest.Registry.{SessionContext, sample_time}

abbrev pub telemetry_schema_version : ℕ
telemetry_schema_version = 1

abbrev pub live_frame_schema_version : ℕ
live_frame_schema_version = 1

pub data SessionEventName : Type 0 where
  start stop : SessionEventName

module _ (Num Json : Type 0) where
  pub record TelemetryFrameDto : Type 0 where
    pub v : ℕ
    pub sid : String
    pub seq : ℕ
    pub ts : Option ℤ
    pub mono : ℕ
    pub rpm : Option ℕ
    pub coolant : Option Num
    pub oil : Option Num
    pub speed : Option Num
    pub lat : Option Num
    pub lon : Option Num
    pub gx : Option Num
    pub gy : Option Num
    pub gz : Option Num
    pub lap : Option ℕ
    pub lap_ms : Option ℕ
    pub fix : Option ℤ
    pub sats : Option ℤ
    pub ext : Option Json

  pub record BackfillBatchDto : Type 0 where
    pub v : ℕ
    pub sid : String
    pub frames : List TelemetryFrameDto

  pub record SessionEventDto : Type 0 where
    pub v : ℕ
    pub sid : String
    pub event : SessionEventName
    pub at : Option ℤ
    pub mono : ℕ
    pub track : Option String
    pub track_name : Option String
    pub laps : Option (List Num)
    pub top_speed_kmh : Option Num

  pub record TelemetrySample : Type 0 where
    pub time : ℤ
    pub session_id : String
    pub seq : ℕ
    pub car_id : String
    pub rpm : Option ℕ
    pub coolant_c : Option Num
    pub oil_c : Option Num
    pub speed_kmh : Option Num
    pub lat : Option Num
    pub lon : Option Num
    pub g_lat : Option Num
    pub g_lon : Option Num
    pub g_vert : Option Num
    pub lap_number : Option ℕ
    pub lap_ms : Option ℕ
    pub ext : Option Json

  pub record LiveFrame : Type 0 where
    pub v : ℕ
    pub session_id : String
    pub car_id : String
    pub t : ℤ
    pub pt : ℕ
    pub seq : ℕ
    pub rpm : Option ℕ
    pub coolant : Option Num
    pub oil : Option Num
    pub speed : Option Num
    pub lat : Option Num
    pub lon : Option Num
    pub gx : Option Num
    pub gy : Option Num
    pub gz : Option Num
    pub lap : Option ℕ
    pub lap_ms : Option ℕ
    pub ext : Option Json

pub record LiveSessionEvent : Type 0 where
  pub v : ℕ
  pub car_id : String
  pub session_id : String
  pub event : SessionEventName
  pub t : ℕ

module _ {Num Json : Type 0} where
  unfoldable pub to_sample : SessionContext → TelemetryFrameDto Num Json → TelemetrySample Num Json
  to_sample context frame = record {
    time = sample_time context frame.mono;
    session_id = context.session_id;
    seq = frame.seq;
    car_id = context.car_id;
    rpm = frame.rpm;
    coolant_c = frame.coolant;
    oil_c = frame.oil;
    speed_kmh = frame.speed;
    lat = frame.lat;
    lon = frame.lon;
    g_lat = frame.gx;
    g_lon = frame.gy;
    g_vert = frame.gz;
    lap_number = frame.lap;
    lap_ms = frame.lap_ms;
    ext = frame.ext;
  }

  unfoldable pub to_live_frame : ℕ → TelemetrySample Num Json → LiveFrame Num Json
  to_live_frame now sample = record {
    v = live_frame_schema_version;
    session_id = sample.session_id;
    car_id = sample.car_id;
    t = sample.time;
    pt = now;
    seq = sample.seq;
    rpm = sample.rpm;
    coolant = sample.coolant_c;
    oil = sample.oil_c;
    speed = sample.speed_kmh;
    lat = sample.lat;
    lon = sample.lon;
    gx = sample.g_lat;
    gy = sample.g_lon;
    gz = sample.g_vert;
    lap = sample.lap_number;
    lap_ms = sample.lap_ms;
    ext = sample.ext;
  }
