-- ===== src/Ingest/Writer/Bounds.antt =====
-- The length of the buffer and its timer.
use kab23_motorsport_telemet.Prelude.{
  ◌<◌, ◌≡◌, ◌⊎◌, refl, ap, Bool, true, false, List, [], ◌∷◌, arith, inl, length,
}
use kab23_motorsport_telemet.Ingest.Writer.{
  Hypertable, Writer, Pipeline, Event, frame, batch, flushes, written, step, run, start, flush,
  schedule_flush, enqueue, enqueue_all, take_batch, write_next,
}

-- Fewer rows than the threshold, and a timer running wherever there is a row.
pub record IsScheduled {Sample : Type 0} (w : Writer Sample) : Type 0 where
  pub short : length w.buffer < 100
  pub due : (length w.buffer ≡ 0) ⊎ (w.timer ≡ true)

module _ {Sample : Type 0} where
  take_batch-IsScheduled :
      (xs : List Sample) (w : Writer Sample) → w.buffer ≡ xs → IsScheduled (take_batch xs w)
  unfolding take_batch
  take_batch-IsScheduled [] w e = record {
    short = omega (arith, ap length e);
    due = inl (ap length e);
  }
  take_batch-IsScheduled (x ∷ xs) w e = record { short = omega arith; due = inl refl }

  flush-IsScheduled : (w : Writer Sample) → IsScheduled (flush w)
  unfolding flush
  flush-IsScheduled w = take_batch-IsScheduled w.buffer (record w { timer = false }) refl

  schedule_flush-IsScheduled : (w : Writer Sample) → IsScheduled (schedule_flush w)
  unfolding schedule_flush
  schedule_flush-IsScheduled w = ground (arith, flush-IsScheduled w)

module _ {Sample : Type 0} {same_key : Sample → Sample → Bool}
    (db : Hypertable Sample same_key) where
  write_next-IsScheduled :
      (batches : List (List Sample)) (p : Pipeline db)
      → IsScheduled p.writer
      → IsScheduled (write_next db batches p).writer
  unfolding write_next
  write_next-IsScheduled [] p v = v
  write_next-IsScheduled (b ∷ bs) p v = record { short = v.short; due = v.due }

  step-IsScheduled :
      (e : Event db) (p : Pipeline db) → IsScheduled p.writer → IsScheduled (step db e p).writer
  unfolding step enqueue enqueue_all
  step-IsScheduled (frame s) p v = schedule_flush-IsScheduled _
  step-IsScheduled (batch ss) p v = schedule_flush-IsScheduled _
  step-IsScheduled flushes p v = flush-IsScheduled p.writer
  step-IsScheduled written p v = write_next-IsScheduled p.writer.flushing p v

  run-IsScheduled :
      (es : List (Event db)) (p : Pipeline db)
      → IsScheduled p.writer
      → IsScheduled (run db es p).writer
  unfolding run
  run-IsScheduled [] p v = v
  run-IsScheduled (e ∷ es) p v = run-IsScheduled es (step db e p) (step-IsScheduled e p v)

  -- After any events from the start there are fewer than 100 samples in the buffer, and it is
  -- empty or its timer is running.
  pub run-start-IsScheduled :
      (es : List (Event db)) (t : db.Table) → IsScheduled (run db es (start db t)).writer
  run-start-IsScheduled es t =
      run-IsScheduled es (start db t) (record { short = omega arith; due = inl refl })
