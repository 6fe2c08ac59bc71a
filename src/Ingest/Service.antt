-- ===== src/Ingest/Service.antt =====
-- apps/telemetry-ingest/src/telemetry: telemetry.service.ts, which turns messages into rows, and the
-- dispatch of telemetry.controller.ts. A handler runs to its end here, but for the queries of
-- `openSession`, between which other writers may change the table.
pub mod Handling
pub mod Refusing
mod Examples
use kab23_motorsport_telemet.Prelude.{
  ℕ, suc, String, Bool, true, false, List, [], ◌∷◌, ◌++◌, map, Option, none, some, Result, ok, err,
  ltb, select, ◌=ⁿ◌, ◌==◌, if◌then◌else◌,
}
use kab23_motorsport_telemet.Repository.{Repository}
use kab23_motorsport_telemet.Wire.Topics.{device_id_from_topic}
use kab23_motorsport_telemet.Ingest.Sessions.{
  CarRef, SessionRef, car_key, session_key, same_device, same_sid, DbFault, find_car_by_device_id,
  close_session,
}
use kab23_motorsport_telemet.Ingest.Counter.{
  Drops, DropReason, count_drop, unknown_device, malformed_frame, unsupported_version,
}
use kab23_motorsport_telemet.Ingest.Messages.{
  SessionEventName, start, stop, TelemetryFrameDto, BackfillBatchDto, SessionEventDto,
  TelemetrySample, to_sample, telemetry_schema_version,
}
use kab23_motorsport_telemet.Ingest.Publisher.{
  LiveMessage, Redis, Publisher, publish_frame, publish_event,
}
use kab23_motorsport_telemet.Ingest.Registry.{
  SessionContext, Registry, resolve, settle, forget, load,
}
use kab23_motorsport_telemet.Ingest.Writer.{
  Hypertable, Pipeline, enqueue, enqueue_all, flush, write_next,
}

-- A payload off the broker: no object (or `null`), or an object with its `v`, where this is a number.
pub data Payload (Raw : Type 0) : Type 0 where
  no_object : Payload Raw
  object : Option ℕ → Raw → Payload Raw

-- `plainToInstance` followed by `validateSync`: the instance, or `none` where a rule is broken.
pub record Decoders (Raw Num Json : Type 0) : Type 0 where
  pub frame : Raw → Option (TelemetryFrameDto Num Json)
  pub batch : Raw → Option (BackfillBatchDto Num Json)
  pub event : Raw → Option (SessionEventDto Num Json)

-- What a message meets: the server's time, and what other writers do to the sessions' table before
-- the insert of `openSession` and before its second read.
pub record Moment (Table : Type 0) : Type 0 where
  pub now : ℕ
  pub meanwhile : Table → Table
  pub later : Table → Table

-- What the service stands on: the tables, the hypertable, Redis, `JSON.stringify` and the decoders.
pub record Platform : Type 1 where
  pub cars : Repository CarRef car_key same_device
  pub sessions : Repository SessionRef session_key same_sid
  pub Raw : Type 0
  pub Num : Type 0
  pub Json : Type 0
  pub same_key : TelemetrySample Num Json → TelemetrySample Num Json → Bool
  pub db : Hypertable (TelemetrySample Num Json) same_key
  pub redis : Redis
  pub stringify : LiveMessage Num Json → String
  pub decode : Decoders Raw Num Json

module _ (env : Platform) where
  pub record State : Type 0 where
    pub fleet : env.cars.Table
    pub runs : env.sessions.Table
    pub registry : Registry
    -- What the load of each number gave.
    pub loaded : ℕ → Result DbFault (Option SessionContext)
    pub samples : Pipeline env.db
    pub live : Publisher
    pub drops : Drops
    -- Messages on topics of another shape.
    pub unrecognised : ℕ

  unfoldable pub drop : ℕ → DropReason → State → State
  drop now reason st = record st { drops = count_drop now reason st.drops }

  unfoldable pub validated : {A : Type 0} → ℕ → Option A → State → Option A × State
  validated now none st = (none, drop now malformed_frame st)
  validated now (some a) st = (some a, st)

  -- `parse`, with the decoder of the message's class.
  unfoldable pub parse :
      {A : Type 0} → (env.Raw → Option A) → ℕ → Payload env.Raw → State → Option A × State
  unfolding validated
  parse decoder now no_object st = (none, drop now malformed_frame st)
  parse decoder now (object none raw) st = (none, drop now unsupported_version st)
  parse decoder now (object (some v) raw) st =
      if v =ⁿ telemetry_schema_version
      then validated now (decoder raw) st
      else (none, drop now unsupported_version st)

  -- The end of a load: its result is kept under its number, and the entry goes where it failed.
  unfoldable pub loads_now :
      String
      → String
      → ℕ × Registry
      → Result DbFault (Option SessionContext) × env.sessions.Table
      → State
      → Result DbFault (Option SessionContext) × State
  loads_now device_id sid (n, r) (res, runs) st = (
    res,
    record st {
      runs = runs;
      registry = settle device_id sid res r;
      loaded = λ k. if ltb k n then st.loaded k else res;
    },
  )

  -- `await this.registry.resolve(…)`: the promise of an earlier load, or the load that it starts.
  unfoldable pub await_registry :
      Moment env.sessions.Table
      → String
      → String
      → ℕ
      → Option String
      → State
      → Result DbFault (Option SessionContext) × State
  unfolding loads_now
  await_registry m device_id sid mono_ms track st =
      let (n, r) = resolve m.now device_id sid st.registry in
      if ltb n st.registry.loads
      then (st.loaded n, record st { registry = r })
      else loads_now device_id sid (n, r)
          (load env.cars env.sessions m.now m.meanwhile m.later st.fleet device_id sid mono_ms track
            st.runs)
          st

  unfoldable pub or_drop :
      ℕ → Result DbFault (Option SessionContext) × State → Option SessionContext × State
  unfolding drop
  or_drop now (ok (some c), st) = (some c, st)
  or_drop now (ok none, st) = (none, drop now unknown_device st)
  or_drop now (err e, st) = (none, st)

  -- `resolve` of the service
  unfoldable pub resolve_context :
      Moment env.sessions.Table
      → String
      → String
      → ℕ
      → Option String
      → State
      → Option SessionContext × State
  unfolding or_drop
  resolve_context m device_id sid mono_ms track st =
      or_drop m.now (await_registry m device_id sid mono_ms track st)

  unfoldable pub take_frame :
      ℕ → TelemetryFrameDto env.Num env.Json → Option SessionContext × State → State
  take_frame now frame (none, st) = st
  take_frame now frame (some context, st) =
      let sample = to_sample context frame in
      record st {
        live = publish_frame env.redis env.stringify now sample st.live;
        samples = record st.samples { writer = enqueue sample st.samples.writer };
      }

  unfoldable pub on_frame :
      Moment env.sessions.Table
      → String
      → Option (TelemetryFrameDto env.Num env.Json) × State
      → State
  unfolding take_frame
  on_frame m device_id (none, st) = st
  on_frame m device_id (some frame, st) =
      take_frame m.now frame (resolve_context m device_id frame.sid frame.mono none st)

  unfoldable pub handle_frame : Moment env.sessions.Table → String → Payload env.Raw → State → State
  unfolding on_frame
  handle_frame m device_id payload st =
      on_frame m device_id (parse env.decode.frame m.now payload st)

  -- The samples of a batch: its frames of the batch's own run.
  abbrev pub batch_samples :
      SessionContext → BackfillBatchDto env.Num env.Json → List (TelemetrySample env.Num env.Json)
  batch_samples context batch =
      map (to_sample context) (select (λ f. f.sid == batch.sid) batch.frames)

  unfoldable pub batched : BackfillBatchDto env.Num env.Json → Option SessionContext × State → State
  batched batch (none, st) = st
  batched batch (some context, st) = record st {
    samples = record st.samples {
      writer = enqueue_all (batch_samples context batch) st.samples.writer;
    };
  }

  -- An empty batch is let go before it could anchor a run.
  unfoldable pub anchor_batch :
      Moment env.sessions.Table
      → String
      → BackfillBatchDto env.Num env.Json
      → List (TelemetryFrameDto env.Num env.Json)
      → State
      → State
  unfolding batched
  anchor_batch m device_id batch [] st = st
  anchor_batch m device_id batch (first ∷ rest) st =
      batched batch (resolve_context m device_id batch.sid first.mono none st)

  unfoldable pub on_batch :
      Moment env.sessions.Table
      → String
      → Option (BackfillBatchDto env.Num env.Json) × State
      → State
  unfolding anchor_batch
  on_batch m device_id (none, st) = st
  on_batch m device_id (some batch, st) = anchor_batch m device_id batch batch.frames st

  unfoldable pub handle_backfill :
      Moment env.sessions.Table → String → Payload env.Raw → State → State
  unfolding on_batch
  handle_backfill m device_id payload st =
      on_batch m device_id (parse env.decode.batch m.now payload st)

  unfoldable pub announce : ℕ → String → String → SessionEventName → State → State
  announce now car_id session_id event st = record st {
    live = publish_event env.redis env.stringify now car_id session_id event st.live;
  }

  unfoldable pub started : ℕ → Option SessionContext × State → State
  unfolding announce
  started now (none, st) = st
  started now (some context, st) = announce now context.car_id context.session_id start st

  -- The promise chain of the writer runs to its end.
  unfoldable pub drain :
      List (List (TelemetrySample env.Num env.Json)) → Pipeline env.db → Pipeline env.db
  drain [] p = p
  drain (batch ∷ rest) p = drain rest (write_next env.db (batch ∷ rest) p)

  -- `await this.writer.flush()`
  unfoldable pub await_flush : Pipeline env.db → Pipeline env.db
  unfolding drain
  await_flush p = let w = flush p.writer in drain w.flushing (record p { writer = w })

  unfoldable pub stopped : ℕ → String → Option SessionRef → State → State
  unfolding announce
  stopped now car_id none st = st
  stopped now car_id (some s) st = announce now car_id s.id stop st

  unfoldable pub stop_run :
      Moment env.sessions.Table → String → String → Option CarRef → State → State
  unfolding drop await_flush stopped
  stop_run m device_id sid none st = drop m.now unknown_device st
  stop_run m device_id sid (some car) st =
      let (session, runs) = close_session env.sessions m.now car.id sid st.runs in
      let flushed = record st { runs = runs; samples = await_flush st.samples } in
      let told = stopped m.now car.id session flushed in
      record told { registry = forget device_id sid told.registry }

  unfoldable pub on_event :
      Moment env.sessions.Table
      → String
      → SessionEventDto env.Num env.Json
      → SessionEventName
      → State
      → State
  unfolding started stop_run
  on_event m device_id event start st =
      started m.now (resolve_context m device_id event.sid event.mono event.track st)
  on_event m device_id event stop st =
      stop_run m device_id event.sid (find_car_by_device_id env.cars device_id st.fleet) st

  unfoldable pub on_session :
      Moment env.sessions.Table → String → Option (SessionEventDto env.Num env.Json) × State → State
  unfolding on_event
  on_session m device_id (none, st) = st
  on_session m device_id (some event, st) = on_event m device_id event event.event st

  unfoldable pub handle_session_event :
      Moment env.sessions.Table → String → Payload env.Raw → State → State
  unfolding on_session
  handle_session_event m device_id payload st =
      on_session m device_id (parse env.decode.event m.now payload st)

  -- The patterns that the controller's handlers subscribe to.
  pub data Subscription : Type 0 where
    telemetry session backfill : Subscription

  unfoldable pub handler :
      Subscription → Moment env.sessions.Table → String → Payload env.Raw → State → State
  unfolding handle_frame handle_session_event handle_backfill
  handler telemetry = handle_frame
  handler session = handle_session_event
  handler backfill = handle_backfill

  unfoldable pub dispatch_to :
      Option String → Subscription → Moment env.sessions.Table → Payload env.Raw → State → State
  unfolding handler
  dispatch_to none sub m payload st = record st { unrecognised = suc st.unrecognised }
  dispatch_to (some device_id) sub m payload st = handler sub m device_id payload st

  -- `dispatch`
  unfoldable pub dispatch :
      Subscription → Moment env.sessions.Table → String → Payload env.Raw → State → State
  unfolding dispatch_to
  dispatch sub m topic payload st = dispatch_to (device_id_from_topic topic) sub m payload st
