-- ===== src/Ingest/Writer/Conservation.antt =====
-- The samples between `enqueue` and the database.
use mathlib.Core.List.{flatten, append_assoc, append-nil}
use kab23_motorsport_telemet.Prelude.{◌≡◌, refl, sym, ap, ◌∙◌, Bool, List, [], ◌∷◌, ◌++◌, arith}
use kab23_motorsport_telemet.Ingest.Writer.{
  Hypertable, Writer, Pipeline, Event, frame, batch, flushes, written, step, run, start, arrivals,
  flush, schedule_flush, enqueue, enqueue_all, take_batch, write_next,
}

flatten-append {ℓ} :
    {A : Type ℓ} (xs ys : List (List A)) → flatten (xs ++ ys) ≡ flatten xs ++ flatten ys
unfolding flatten
flatten-append [] ys = refl
flatten-append (x ∷ xs) ys =
    rw (flatten-append xs ys) (sym (append_assoc x (flatten xs) (flatten ys)))

pub flatten-concat {ℓ} :
    {A : Type ℓ} (xs : List (List A)) (x : List A) → flatten (xs ++ x ∷ []) ≡ flatten xs ++ x
unfolding flatten
flatten-concat xs x = flatten-append xs (x ∷ []) ∙ ap (◌++◌ (flatten xs)) (append-nil x)

-- What the writer still holds, the oldest first.
unfoldable pub held : {Sample : Type 0} → Writer Sample → List Sample
held w = flatten w.flushing ++ w.buffer

module _ {Sample : Type 0} where
  held-take_batch :
      (xs : List Sample) (w : Writer Sample) → w.buffer ≡ xs → held (take_batch xs w) ≡ held w
  unfolding held take_batch
  held-take_batch [] w e = refl
  held-take_batch (x ∷ xs) w e =
      append-nil _ ∙ flatten-concat w.flushing (x ∷ xs) ∙ ap (◌++◌ (flatten w.flushing)) (sym e)

  held-flush : (w : Writer Sample) → held (flush w) ≡ held w
  unfolding flush held
  held-flush w = held-take_batch w.buffer (record w { timer = Bool.false }) refl

  held-schedule_flush : (w : Writer Sample) → held (schedule_flush w) ≡ held w
  unfolding schedule_flush held
  held-schedule_flush w = ground (arith, held-flush w)

  held-enqueue_all : (xs : List Sample) (w : Writer Sample) → held (enqueue_all xs w) ≡ held w ++ xs
  unfolding enqueue_all
  held-enqueue_all xs w =
      held-schedule_flush (record w { buffer = w.buffer ++ xs })
      ∙ (unfold held in sym (append_assoc (flatten w.flushing) w.buffer xs))

  held-enqueue : (x : Sample) (w : Writer Sample) → held (enqueue x w) ≡ held w ++ x ∷ []
  unfolding enqueue
  held-enqueue x w =
      held-schedule_flush (record w { buffer = w.buffer ++ x ∷ [] })
      ∙ (unfold held in sym (append_assoc (flatten w.flushing) w.buffer (x ∷ [])))

module _ {Sample : Type 0} {same_key : Sample → Sample → Bool}
    (db : Hypertable Sample same_key) where
  -- Everything that has passed through: what the database was given, and what is held.
  passed : Pipeline db → List Sample
  passed p = flatten p.sent ++ held p.writer

  passed-write_next :
      (batches : List (List Sample)) (p : Pipeline db)
      → p.writer.flushing ≡ batches
      → passed (write_next db batches p) ≡ passed p
  unfolding passed held write_next flatten
  passed-write_next [] p e = refl
  passed-write_next (b ∷ bs) p e = rw (flatten-concat p.sent b) (
      append_assoc (flatten p.sent) b (flatten bs ++ p.writer.buffer)
      ∙ ap (◌++◌ (flatten p.sent)) (
          sym (append_assoc b (flatten bs) p.writer.buffer)
          ∙ ap (λ (l : List (List Sample)). flatten l ++ p.writer.buffer) (sym e)))

  passed-step :
      (e : Event db) (p : Pipeline db) → passed (step db e p) ≡ passed p ++ arrivals db (e ∷ [])
  unfolding step arrivals passed
  passed-step (frame s) p =
      ap (◌++◌ (flatten p.sent)) (held-enqueue s p.writer)
      ∙ sym (append_assoc (flatten p.sent) (held p.writer) (s ∷ []))
  passed-step (batch ss) p =
      ap (◌++◌ (flatten p.sent)) (held-enqueue_all ss p.writer)
      ∙ sym (append_assoc (flatten p.sent) (held p.writer) ss)
      ∙ ap (◌++◌ (passed p)) (sym (append-nil ss))
  passed-step flushes p =
      ap (◌++◌ (flatten p.sent)) (held-flush p.writer) ∙ sym (append-nil (passed p))
  passed-step written p = passed-write_next p.writer.flushing p refl ∙ sym (append-nil (passed p))

  arrivals-cons :
      (e : Event db) (es : List (Event db))
      → arrivals db (e ∷ es) ≡ arrivals db (e ∷ []) ++ arrivals db es
  unfolding arrivals
  arrivals-cons (frame s) es = refl
  arrivals-cons (batch ss) es = ap (λ l. l ++ arrivals db es) (sym (append-nil ss))
  arrivals-cons flushes es = refl
  arrivals-cons written es = refl

  passed-run :
      (es : List (Event db)) (p : Pipeline db) → passed (run db es p) ≡ passed p ++ arrivals db es
  unfolding run
  passed-run [] p = unfold arrivals in sym (append-nil (passed p))
  passed-run (e ∷ es) p =
      passed-run es (step db e p)
      ∙ ap (λ l. l ++ arrivals db es) (passed-step e p)
      ∙ append_assoc (passed p) (arrivals db (e ∷ [])) (arrivals db es)
      ∙ ap (◌++◌ (passed p)) (sym (arrivals-cons e es))

  -- After any events, the batches that the database was given, those on the chain and the buffer
  -- together are the samples that arrived, each once and in their order.
  pub run_conserves :
      (es : List (Event db)) (t : db.Table)
      → flatten (run db es (start db t)).sent ++ held (run db es (start db t)).writer
        ≡ arrivals db es
  unfolding passed
  run_conserves es t = passed-run es (start db t) ∙ (unfold held flatten in refl)
