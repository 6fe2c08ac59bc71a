-- ===== src/Ingest/Writer/Dedup.antt =====
-- What the dedup index makes of batches that are sent again.
use mathlib.Core.List.{flatten, append-nil}
use kab23_motorsport_telemet.Prelude.{
  ◌≡◌, refl, sym, ap, ◌∙◌, Bool, true, ◌||◌, List, [], ◌∷◌, ◌++◌, some, arith, any, All,
  if◌then◌else◌,
}
use kab23_motorsport_telemet.Ingest.Writer.{
  absorb, Hypertable, Pipeline, Event, frame, batch, flushes, written, step, run, start, arrivals,
  write, write_next,
}
use kab23_motorsport_telemet.Ingest.Writer.Conservation.{held, run_conserves, flatten-concat}

module _ {ℓ} {A : Type ℓ} (same : A → A → Bool) where
  absorb-append :
      (xs ys rows : List A) → absorb same (xs ++ ys) rows ≡ absorb same ys (absorb same xs rows)
  unfolding absorb
  absorb-append [] ys rows = refl
  absorb-append (x ∷ xs) ys rows =
      absorb-append xs ys (if any (same x) rows then rows else rows ++ x ∷ [])

  any-append : (p : A → Bool) (xs ys : List A) → any p (xs ++ ys) ≡ (any p xs || any p ys)
  any-append p [] ys = refl
  any-append p (x ∷ xs) ys = ground (arith, any-append p xs ys)

  -- A key that is there stays there.
  absorb-keeps :
      (p : A → Bool) (xs rows : List A) → any p rows ≡ true → any p (absorb same xs rows) ≡ true
  unfolding absorb
  absorb-keeps p [] rows h = h
  absorb-keeps p (x ∷ xs) rows h =
      absorb-keeps p xs (if any (same x) rows then rows else rows ++ x ∷ [])
        (ground (arith, any-append p rows (x ∷ [])))

  -- Rows whose keys are all there are left out.
  absorb_known :
      (xs rows : List A) → All (λ x. any (same x) rows ≡ true) xs → absorb same xs rows ≡ rows
  unfolding absorb
  absorb_known [] rows h = refl
  absorb_known (x ∷ xs) rows (here, later) = rw here (absorb_known xs rows later)

  module _ (own : (x : A) → same x x ≡ true) where
    absorb_each : (xs rows : List A) → All (λ x. any (same x) (absorb same xs rows) ≡ true) xs
    unfolding absorb
    absorb_each [] rows = tt
    absorb_each (x ∷ xs) rows = (
      absorb-keeps (same x) xs (if any (same x) rows then rows else rows ++ x ∷ [])
          (ground (arith, any-append (same x) rows (x ∷ []), own x)),
      absorb_each xs (if any (same x) rows then rows else rows ++ x ∷ []),
    )

    pub absorb_twice :
        (xs rows : List A) → absorb same xs (absorb same xs rows) ≡ absorb same xs rows
    absorb_twice xs rows = absorb_known xs (absorb same xs rows) (absorb_each xs rows)

module _ {Sample : Type 0} {same_key : Sample → Sample → Bool} (db : Hypertable Sample same_key)
    (own : (x : Sample) → same_key x x ≡ true)
    (works : (b : List Sample) (t : db.Table)
      → (t' : db.Table) × (db.insert_or_ignore b t ≡ some t')) where
  rows-write :
      (b : List Sample) (t : db.Table) → db.rows (write db b t) ≡ absorb same_key b (db.rows t)
  unfolding write
  rows-write b t = let (t', e) = works b t in ground (arith, e, db.insert_or_ignore_rows b t t' e)

  pub writes : List (List Sample) → db.Table → db.Table
  writes [] t = t
  writes (b ∷ bs) t = writes bs (write db b t)

  known-writes_one :
      (x : Sample) (bs : List (List Sample)) (t : db.Table)
      → any (same_key x) (db.rows t) ≡ true
      → any (same_key x) (db.rows (writes bs t)) ≡ true
  unfolding writes
  known-writes_one x [] t h = h
  known-writes_one x (b ∷ bs) t h =
      known-writes_one x bs (write db b t)
        (rw (rows-write b t) (absorb-keeps same_key (same_key x) b (db.rows t) h))

  known-writes :
      (xs : List Sample) (bs : List (List Sample)) (t : db.Table)
      → All (λ x. any (same_key x) (db.rows t) ≡ true) xs
      → All (λ x. any (same_key x) (db.rows (writes bs t)) ≡ true) xs
  known-writes [] bs t h = tt
  known-writes (x ∷ xs) bs t (here, later) =
      (known-writes_one x bs t here, known-writes xs bs t later)

  -- If no query fails and a row has the key of itself, a batch that was written before, with any
  -- batches between, changes no row when it is written again.
  pub write_again :
      (b : List Sample) (between : List (List Sample)) (t : db.Table)
      → db.rows (write db b (writes between (write db b t)))
        ≡ db.rows (writes between (write db b t))
  write_again b between t =
      rows-write b (writes between (write db b t))
      ∙ absorb_known same_key b (db.rows (writes between (write db b t))) (
          known-writes b between (write db b t)
            (rw (rows-write b t) (absorb_each same_key own b (db.rows t))))

  stored-write_next :
      (bs : List (List Sample)) (t : List Sample) (p : Pipeline db)
      → db.rows p.table ≡ absorb same_key (flatten p.sent) t
      → db.rows (write_next db bs p).table ≡ absorb same_key (flatten (write_next db bs p).sent) t
  unfolding write_next
  stored-write_next [] t p h = h
  stored-write_next (b ∷ bs) t p h =
      rows-write b p.table
      ∙ ap (absorb same_key b) h
      ∙ sym (absorb-append same_key (flatten p.sent) b t)
      ∙ ap (λ l. absorb same_key l t) (sym (flatten-concat p.sent b))

  stored-run :
      (es : List (Event db)) (t : List Sample) (p : Pipeline db)
      → db.rows p.table ≡ absorb same_key (flatten p.sent) t
      → db.rows (run db es p).table ≡ absorb same_key (flatten (run db es p).sent) t
  unfolding run step
  stored-run [] t p h = h
  stored-run (frame s ∷ es) t p h = stored-run es t (step db (frame s) p) h
  stored-run (batch ss ∷ es) t p h = stored-run es t (step db (batch ss) p) h
  stored-run (flushes ∷ es) t p h = stored-run es t (step db flushes p) h
  stored-run (written ∷ es) t p h =
      stored-run es t (step db written p) (stored-write_next p.writer.flushing t p h)

  -- If no query fails, a row has the key of itself, and the writer holds nothing more, the table
  -- is what inserting the samples one by one in the order of their arrival makes of it.
  pub run-drained :
      (es : List (Event db)) (t : db.Table)
      → held (run db es (start db t)).writer ≡ []
      → db.rows (run db es (start db t)).table ≡ absorb same_key (arrivals db es) (db.rows t)
  run-drained es t empty =
      stored-run es (db.rows t) (start db t) (unfold absorb flatten in refl)
      ∙ ap (λ l. absorb same_key l (db.rows t))
          (sym (append-nil _)
            ∙ ap (◌++◌ (flatten (run db es (start db t)).sent)) (sym empty)
            ∙ run_conserves db es t)
