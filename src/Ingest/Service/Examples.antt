-- ===== src/Ingest/Service/Examples.antt =====
-- The theorems on the handlers at one car, whose frames, batches and events decode.
use kab23_motorsport_telemet.Prelude.{
  ℕ, String, ◌≡◌, ◌≢◌, Bool, List, [], ◌∷◌, Option, none, some, ok, arith, ◌==◌, ◌=ⁿ◌, ◌&&◌,
}
use kab23_motorsport_telemet.Repository.InMemory.{in_memory}
use kab23_motorsport_telemet.Ingest.Sessions.{
  CarRef, SessionRef, car_key, session_key, same_device, same_sid,
}
use kab23_motorsport_telemet.Ingest.Counter.{no_drops}
use kab23_motorsport_telemet.Ingest.Messages.{
  TelemetryFrameDto, BackfillBatchDto, SessionEventDto, TelemetrySample, stop,
}
use kab23_motorsport_telemet.Ingest.Publisher.{fresh_publisher, results}
use kab23_motorsport_telemet.Ingest.Registry.{empty}
use kab23_motorsport_telemet.Ingest.Writer.{absorb, idle}
use kab23_motorsport_telemet.Ingest.Service.{Platform, Moment, State}

abbrev Sample : Type 0
Sample = TelemetrySample ℕ ℕ

abbrev same_sample : Sample → Sample → Bool
same_sample a b = a.session_id == b.session_id && a.seq =ⁿ b.seq

inserted :
    (b t t' : List Sample) → some (absorb same_sample b t) ≡ some t' → t' ≡ absorb same_sample b t
inserted b t t' e = ground arith

abbrev a_frame : TelemetryFrameDto ℕ ℕ
a_frame = record {
  v = 1;
  sid = "run-1";
  seq = 7;
  ts = none;
  mono = 500;
  rpm = some 6200;
  coolant = some 88;
  oil = none;
  speed = some 131;
  lat = none;
  lon = none;
  gx = none;
  gy = none;
  gz = none;
  lap = some 2;
  lap_ms = none;
  fix = none;
  sats = none;
  ext = none;
}

abbrev a_batch : BackfillBatchDto ℕ ℕ
a_batch = record { v = 1; sid = "run-1"; frames = a_frame ∷ a_frame ∷ [] }

abbrev a_stop : SessionEventDto ℕ ℕ
a_stop = record {
  v = 1;
  sid = "run-1";
  event = stop;
  at = none;
  mono = 900;
  track = none;
  track_name = none;
  laps = none;
  top_speed_kmh = none;
}

abbrev env : Platform
env = record {
  cars = in_memory car_key same_device;
  sessions = in_memory session_key same_sid;
  Raw = String;
  Num = ℕ;
  Json = ℕ;
  same_key = same_sample;
  db = record {
    Table = List Sample;
    rows = λ t. t;
    insert_or_ignore = λ b t. some (absorb same_sample b t);
    insert_or_ignore_rows = inserted;
  };
  redis = λ before commands. results [];
  stringify = λ message. "message";
  decode = record {
    frame = λ raw. some a_frame;
    batch = λ raw. some a_batch;
    event = λ raw. some a_stop;
  };
}

abbrev car : CarRef
car = record { id = "c1"; device_id = "pi4"; owner_id = "alice"; team_id = none }

abbrev st : State env
st = record {
  fleet = car ∷ [];
  runs = [];
  registry = empty;
  loaded = λ n. ok none;
  samples = record { writer = idle; table = []; sent = [] };
  live = fresh_publisher;
  drops = no_drops;
  unrecognised = 0;
}

abbrev moment : Moment (List SessionRef)
moment = record { now = 2000; meanwhile = λ t. t; later = λ t. t }

newer : ◌≢◌ {A = Option ℕ} (some 2) (some 1)
newer = ground arith
