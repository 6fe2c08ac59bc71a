-- ===== src/Ingest/Service/Handling.antt =====
-- What the handlers of ingest put into the buffer and on the live bus.
use kab23_motorsport_telemet.Prelude.{ℕ, String, ◌≡◌, Option, none, some, ◌⊎◌}
use kab23_motorsport_telemet.Ingest.Messages.{TelemetryFrameDto, BackfillBatchDto, to_sample}
use kab23_motorsport_telemet.Ingest.Publisher.{publish_frame}
use kab23_motorsport_telemet.Ingest.Registry.{SessionContext}
use kab23_motorsport_telemet.Ingest.Writer.{enqueue, enqueue_all}
use kab23_motorsport_telemet.Ingest.Service.{
  Platform, Moment, State, resolve_context, batch_samples,
}

module _ (env : Platform) where
  -- Neither the buffer nor the live bus was touched.
  abbrev pub IsQuiet : State env → State env → Type 0
  IsQuiet before after = (after.live ≡ before.live) × (after.samples ≡ before.samples)

  -- What is taken of a frame in this context: its sample, on the live bus and in the buffer.
  abbrev pub SampleTaken :
      ℕ → SessionContext → TelemetryFrameDto env.Num env.Json → State env → State env → Type 0
  SampleTaken now context frame before after =
      (after.live ≡ publish_frame env.redis env.stringify now (to_sample context frame) before.live)
      × (after.samples ≡ record before.samples {
        writer = enqueue (to_sample context frame) before.samples.writer;
      })

  -- The two ways of a message on the telemetry topic, after `parse`: nothing, or the sample of the
  -- frame that was parsed, in the context that its run resolves to.
  abbrev pub TakesFrame :
      Moment env.sessions.Table
      → String
      → Option (TelemetryFrameDto env.Num env.Json) × State env
      → State env
      → State env
      → Type 0
  TakesFrame m device_id parsed before after =
      IsQuiet before after
      ⊎ ((frame : TelemetryFrameDto env.Num env.Json) × (context : SessionContext) × (parsed.0
            ≡ some frame)
          × ((resolve_context env m device_id frame.sid frame.mono none parsed.1).0 ≡ some context)
          × SampleTaken m.now context frame before after)

  -- What is taken of a batch in this context: its samples, in the buffer.
  abbrev pub BatchTaken :
      SessionContext → BackfillBatchDto env.Num env.Json → State env → State env → Type 0
  BatchTaken context batch before after = after.samples ≡ record before.samples {
    writer = enqueue_all (batch_samples env context batch) before.samples.writer;
  }

  -- The two ways of a batch that was parsed: nothing, or its samples in the buffer. The live bus is
  -- untouched in both.
  abbrev pub TakesBatch :
      Option (BackfillBatchDto env.Num env.Json) → State env → State env → Type 0
  TakesBatch parsed before after =
      (after.live ≡ before.live)
      × ((after.samples ≡ before.samples)
          ⊎ ((batch : BackfillBatchDto env.Num env.Json) × (context : SessionContext) × (parsed
                ≡ some batch)
              × BatchTaken context batch before after))
