-- ===== src/Ingest/Writer.antt =====
-- apps/telemetry-ingest/src/telemetry/telemetry-writer.service.ts: the buffer of samples, its flushes
-- and the chain of writes. The hypertable is a parameter.
pub mod Conservation
pub mod Bounds
pub mod Dedup
use kab23_motorsport_telemet.Prelude.{
  ℕ, ◌≡◌, Bool, true, false, List, [], ◌∷◌, ◌++◌, Option, none, some, any, length, leb,
  if◌then◌else◌,
}

abbrev pub max_buffered_rows : ℕ
max_buffered_rows = 100

-- `INSERT … ON CONFLICT DO NOTHING`, row by row: a row whose key is there is left out.
pub absorb {ℓ} : {A : Type ℓ} → (A → A → Bool) → List A → List A → List A
absorb same_key [] rows = rows
absorb same_key (x ∷ xs) rows =
    absorb same_key xs (if any (same_key x) rows then rows else rows ++ x ∷ [])

-- The table of samples, under its unique index; `none` is a query that failed.
pub record Hypertable (Sample : Type 0) (same_key : Sample → Sample → Bool) : Type 1 where
  pub Table : Type 0
  pub rows : Table → List Sample
  pub insert_or_ignore : List Sample → Table → Option Table
  pub insert_or_ignore_rows :
      (batch : List Sample) (t t' : Table)
      → insert_or_ignore batch t ≡ some t'
      → rows t' ≡ absorb same_key batch (rows t)

-- `flushing` holds the batches on the promise chain, the oldest first.
pub record Writer (Sample : Type 0) : Type 0 where
  pub buffer : List Sample
  pub timer : Bool
  pub flushing : List (List Sample)

module _ {Sample : Type 0} where
  abbrev pub idle : Writer Sample
  idle = record { buffer = []; timer = false; flushing = [] }

  unfoldable pub cancel_timer : Writer Sample → Writer Sample
  cancel_timer w = record w { timer = false }

  unfoldable pub take_batch : List Sample → Writer Sample → Writer Sample
  take_batch [] w = w
  take_batch (x ∷ xs) w = record w { buffer = []; flushing = w.flushing ++ (x ∷ xs) ∷ [] }

  unfoldable pub flush : Writer Sample → Writer Sample
  unfolding cancel_timer take_batch
  flush w = take_batch w.buffer (cancel_timer w)

  unfoldable pub schedule_flush : Writer Sample → Writer Sample
  unfolding flush
  schedule_flush w =
      if leb max_buffered_rows (length w.buffer)
      then flush w
      else if w.timer
      then w
      else record w { timer = true }

  unfoldable pub enqueue : Sample → Writer Sample → Writer Sample
  enqueue sample w = schedule_flush (record w { buffer = w.buffer ++ sample ∷ [] })

  unfoldable pub enqueue_all : List Sample → Writer Sample → Writer Sample
  enqueue_all samples w = schedule_flush (record w { buffer = w.buffer ++ samples })

module _ {Sample : Type 0} {same_key : Sample → Sample → Bool}
    (db : Hypertable Sample same_key) where
  -- A failed batch is dropped and logged; the chain goes on.
  unfoldable pub write : List Sample → db.Table → db.Table
  write batch t = elim (db.insert_or_ignore batch t) [ none ↦ t | some t' ↦ t' ]

  -- The writer with its table, and the batches that were handed to the database so far.
  pub record Pipeline : Type 0 where
    pub writer : Writer Sample
    pub table : db.Table
    pub sent : List (List Sample)

  -- The head of the chain runs.
  unfoldable pub write_next : List (List Sample) → Pipeline → Pipeline
  unfolding write
  write_next [] p = p
  write_next (batch ∷ rest) p = record p {
    writer = record p.writer { flushing = rest };
    table = write batch p.table;
    sent = p.sent ++ batch ∷ [];
  }

  -- What can happen to the writer: a frame, a replayed batch, a flush (the timer's, or that of a
  -- `stop` or a shutdown), and the end of a write.
  pub data Event : Type 0 where
    frame : Sample → Event
    batch : List Sample → Event
    flushes written : Event

  unfoldable pub step : Event → Pipeline → Pipeline
  unfolding write_next
  step (frame s) p = record p { writer = enqueue s p.writer }
  step (batch ss) p = record p { writer = enqueue_all ss p.writer }
  step flushes p = record p { writer = flush p.writer }
  step written p = write_next p.writer.flushing p

  unfoldable pub run : List Event → Pipeline → Pipeline
  unfolding step
  run [] p = p
  run (e ∷ es) p = run es (step e p)

  abbrev pub start : db.Table → Pipeline
  start t = record { writer = idle; table = t; sent = [] }

  -- The samples that the events bring, in their order.
  unfoldable pub arrivals : List Event → List Sample
  arrivals [] = []
  arrivals (frame s ∷ es) = s ∷ arrivals es
  arrivals (batch ss ∷ es) = ss ++ arrivals es
  arrivals (flushes ∷ es) = arrivals es
  arrivals (written ∷ es) = arrivals es
