-- ===== src/Ingest/Service/Refusing.antt =====
-- The messages that the handlers refuse, and the end of a run.
use kab23_motorsport_telemet.Prelude.{
  ℕ, String, ◌≡◌, ◌≢◌, refl, ap, ◌∙◌, List, [], ◌∷◌, Option, none, some, arith, ◌==◌, eq_refl, find,
  ◌=ⁿ◌, Bool-cases, inl, inr,
}
use kab23_motorsport_telemet.Prelude.Assoc.{lookup, lookup-erase}
use kab23_motorsport_telemet.Ingest.Sessions.{
  CarRef, SessionRef, find_car_by_device_id, close_session,
}
use kab23_motorsport_telemet.Ingest.Counter.{unknown_device, unsupported_version}
use kab23_motorsport_telemet.Ingest.Messages.{
  SessionEventDto, TelemetrySample, stop, telemetry_schema_version,
}
use kab23_motorsport_telemet.Ingest.Registry.{key, forget}
use kab23_motorsport_telemet.Ingest.Writer.{
  Pipeline, Writer, flush, cancel_timer, take_batch, write_next,
}
use kab23_motorsport_telemet.Ingest.Service.{
  Platform, object, Moment, State, drop, parse, validated, handle_frame, on_frame,
  handle_session_event, on_session, on_event, handle_backfill, on_batch, stop_run, stopped,
  announce, drain, await_flush, Subscription, telemetry, session, backfill, handler,
}

module _ (env : Platform) where
  parse_version :
      {A : Type 0} (decoder : env.Raw → Option A) (now : ℕ) (v : Option ℕ) (raw : env.Raw)
      (st : State env)
      → v ≢ some telemetry_schema_version
      → parse env decoder now (object v raw) st ≡ (none, drop env now unsupported_version st)
  unfolding parse
  parse_version decoder now none raw st other = refl
  parse_version decoder now (some v) raw st other = elim (Bool-cases (v =ⁿ 1)) [
    | inl same ↦ absurd (other (ap some (ground arith)))
    | inr differs ↦ rw differs refl
  ]

  -- An object with another schema version, or with none, only counts a drop, whatever else it
  -- has and on each of the three topics.
  pub handler-version :
      (sub : Subscription env) (m : Moment env.sessions.Table) (device_id : String) (v : Option ℕ)
      (raw : env.Raw) (st : State env)
      → v ≢ some telemetry_schema_version
      → handler env sub m device_id (object v raw) st ≡ drop env m.now unsupported_version st
  unfolding handler handle_frame handle_session_event handle_backfill on_frame on_session on_batch
      parse
  handler-version telemetry m device_id v raw st other =
      rw (parse_version env.decode.frame m.now v raw st other) refl
  handler-version session m device_id v raw st other =
      rw (parse_version env.decode.event m.now v raw st other) refl
  handler-version backfill m device_id v raw st other =
      rw (parse_version env.decode.batch m.now v raw st other) refl

  drain-flushing :
      (batches : List (List (TelemetrySample env.Num env.Json))) (p : Pipeline env.db)
      → p.writer.flushing ≡ batches
      → ((drain env batches p).writer.flushing ≡ [])
        × ((drain env batches p).writer.buffer ≡ p.writer.buffer)
  unfolding drain write_next
  drain-flushing [] p e = (e, refl)
  drain-flushing (b ∷ bs) p e = drain-flushing bs (write_next env.db (b ∷ bs) p) refl

  flush-buffer :
      (w : Writer (TelemetrySample env.Num env.Json)) (b : List (TelemetrySample env.Num env.Json))
      → w.buffer ≡ b
      → (take_batch b w).buffer ≡ []
  unfolding take_batch
  flush-buffer w [] e = e
  flush-buffer w (x ∷ xs) e = refl

  stopped-rest :
      (now : ℕ) (car_id : String) (o : Option SessionRef) (st : State env)
      → ((stopped env now car_id o st).samples ≡ st.samples)
        × ((stopped env now car_id o st).registry ≡ st.registry)
  unfolding stopped announce
  stopped-rest now car_id none st = (refl, refl)
  stopped-rest now car_id (some s) st = (refl, refl)

  await_flush_lem :
      (p : Pipeline env.db)
      → ((await_flush env p).writer.buffer ≡ []) × ((await_flush env p).writer.flushing ≡ [])
  unfolding await_flush flush cancel_timer
  await_flush_lem p =
      let w = cancel_timer p.writer in
      let (chain, buffer) = drain-flushing _ (record p { writer = flush p.writer }) refl in
      (buffer ∙ flush-buffer w w.buffer refl, chain)

  stop_run_lem :
      (m : Moment env.sessions.Table) (device_id sid : String) (car : CarRef) (st : State env)
      → let after = stop_run env m device_id sid (some car) st in
        (after.samples.writer.buffer ≡ [])
        × (after.samples.writer.flushing ≡ [])
        × (lookup (key device_id sid) after.registry.contexts ≡ none)
  unfolding stop_run forget
  stop_run_lem m device_id sid car st =
      let (closed, runs) = close_session env.sessions m.now car.id sid st.runs in
      let flushed = record st { runs = runs; samples = await_flush env st.samples } in
      let (samples, rest) = stopped-rest m.now car.id closed flushed in
      let (buffer, chain) = await_flush_lem st.samples in
      (
        ap (λ (p : Pipeline env.db). p.writer.buffer) samples ∙ buffer,
        ap (λ (p : Pipeline env.db). p.writer.flushing) samples ∙ chain,
        lookup-erase (key device_id sid) (key device_id sid) _ ∙ rw eq_refl refl,
      )

  -- After a decoded stop of a registered car the buffer and the chain of writes are empty and
  -- the run's context is out of the cache.
  pub handle_stop_lem :
      (m : Moment env.sessions.Table) (device_id : String) (raw : env.Raw) (st : State env)
      (e : SessionEventDto env.Num env.Json) (car : CarRef)
      → env.decode.event raw ≡ some e
      → e.event ≡ stop
      → find (λ c. c.device_id == device_id) (env.cars.rows st.fleet) ≡ some car
      → let after = handle_session_event env m device_id (object (some 1) raw) st in
        (after.samples.writer.buffer ≡ [])
        × (after.samples.writer.flushing ≡ [])
        × (lookup (key device_id e.sid) after.registry.contexts ≡ none)
  unfolding handle_session_event on_session on_event parse validated find_car_by_device_id
  handle_stop_lem m device_id raw st e car decoded stops known =
      rw (decoded, stops, env.cars.find_one_lem (λ c. c.device_id == device_id) st.fleet, known)
        (stop_run_lem m device_id e.sid car st)

  -- A decoded stop from a device that no car is registered for only counts a drop.
  pub handle_stop_unknown :
      (m : Moment env.sessions.Table) (device_id : String) (raw : env.Raw) (st : State env)
      (e : SessionEventDto env.Num env.Json)
      → env.decode.event raw ≡ some e
      → e.event ≡ stop
      → find (λ c. c.device_id == device_id) (env.cars.rows st.fleet) ≡ none
      → handle_session_event env m device_id (object (some 1) raw) st
        ≡ drop env m.now unknown_device st
  unfolding handle_session_event on_session on_event stop_run parse validated find_car_by_device_id
  handle_stop_unknown m device_id raw st e decoded stops unknown =
      rw (decoded, stops, env.cars.find_one_lem (λ c. c.device_id == device_id) st.fleet, unknown)
        refl
