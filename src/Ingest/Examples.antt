-- ===== src/Ingest/Examples.antt =====
-- The theorems on runs, the cache and the writer at one car.
use mathlib.Core.List.{flatten}
use kab23_motorsport_telemet.Prelude.{
  ℕ, suc, ◌+◌, ◌≡◌, refl, Bool, true, List, [], ◌∷◌, ◌++◌, none, some, ok, err, arith, ◌==◌, ◌=ⁿ◌,
  if◌then◌else◌, ◌&&◌,
}
use kab23_motorsport_telemet.Prelude.Assoc.{lookup, insert, prune}
use kab23_motorsport_telemet.Repository.{Repository}
use kab23_motorsport_telemet.Repository.InMemory.{in_memory}
use kab23_motorsport_telemet.Ingest.Sessions.{
  CarRef, SessionRef, live, car_key, session_key, same_device, same_sid, open_session,
  close_session, closed_row, is_live, failed,
}
use kab23_motorsport_telemet.Ingest.Sessions.Opening.{Opens, open_session-Opens}
use kab23_motorsport_telemet.Ingest.Sessions.Closing.{close_session-answer}
use kab23_motorsport_telemet.Ingest.Registry.{
  SessionContext, Registry, CacheEntry, empty, key, context_ttl_ms, hit, resolve, settle, forget,
  sweep, load,
}
use kab23_motorsport_telemet.Ingest.Registry.Cache.{resolve_after_failure}
use kab23_motorsport_telemet.Ingest.Registry.Timeline.{Attributed, load-Attributed, load_again}
use kab23_motorsport_telemet.Ingest.Writer.{
  Hypertable, Event, frame, batch, flushes, written, run, start, flush, enqueue, schedule_flush,
  enqueue_all, absorb, arrivals,
}
use kab23_motorsport_telemet.Ingest.Writer.Conservation.{run_conserves, held}
use kab23_motorsport_telemet.Ingest.Writer.Dedup.{run-drained}

abbrev cars : Repository CarRef car_key same_device
cars = in_memory car_key same_device

abbrev sessions : Repository SessionRef session_key same_sid
sessions = in_memory session_key same_sid

abbrev car : CarRef
car = record { id = "c1"; device_id = "pi4"; owner_id = "alice"; team_id = none }

abbrev other_car : CarRef
other_car = record { id = "c2"; device_id = "pi5"; owner_id = "bob"; team_id = none }

abbrev fleet : List CarRef
fleet = car ∷ other_car ∷ []

-- A run of the first car that is in progress.
abbrev running : SessionRef
running = record {
  id = "s1";
  car_id = "c1";
  driver_id = "alice";
  track = "spa";
  started_at = 1000;
  ended_at = none;
  status = live;
  device_session_id = some "run-1";
  device_mono_start_ms = some 50;
}

abbrev rows : List SessionRef
rows = running ∷ []

abbrev unchanged : List SessionRef → List SessionRef
unchanged t = t

open_session-Opens_example :
    Opens sessions other_car "run-1"
      (open_session sessions 2000 (λ t. running ∷ t) unchanged other_car "run-1" 70 none [])
open_session-Opens_example =
    open_session-Opens sessions 2000 (λ t. running ∷ t) unchanged other_car "run-1" 70 none []

load-Attributed_example :
    Attributed cars sessions "pi5" "run-1" fleet
      (load cars sessions 2000 unchanged unchanged fleet "pi5" "run-1" 70 none rows)
load-Attributed_example =
    load-Attributed cars sessions 2000 unchanged unchanged fleet "pi5" "run-1" 70 none rows

abbrev context : SessionContext
context = record { session_id = "s1"; car_id = "c1"; anchor_ms = 1000; mono_start_ms = 50 }

load_again_example :
    load cars sessions 9000 unchanged unchanged fleet "pi4" "run-1" 4000 none rows
    ≡ (ok (some context), rows)
load_again_example =
    load_again cars sessions fleet "pi4" "run-1" car running 50 rows refl refl refl refl 9000
      unchanged unchanged 4000 none

close_session-answer_example : (close_session sessions 3000 "c1" "run-1" rows).0 ≡ (
    if running.car_id == "c1" && is_live running.status
    then some (closed_row 3000 running)
    else none)
close_session-answer_example =
    close_session-answer sessions 3000 "c1" "run-1" rows running refl (omega arith)

abbrev cached : Registry
cached = (resolve 10 "pi4" "run-1" empty).1

abbrev first_entry : CacheEntry
first_entry = record { resolving = 0; expires_at = 10 + context_ttl_ms }

found : lookup (key "pi4" "run-1") (sweep 20 cached).contexts ≡ some first_entry
unfolding lookup resolve hit sweep insert prune key
found = refl

resolve_after_failure_example :
    let absent = settle "pi4" "run-1" (ok none) cached in
    let broken = settle "pi4" "run-1" (err failed) cached in
    let stopped = forget "pi4" "run-1" cached in
    ((resolve 20 "pi4" "run-1" absent).0 ≡ cached.loads)
    × ((resolve 20 "pi4" "run-1" absent).1.loads ≡ suc cached.loads)
    × ((resolve 20 "pi4" "run-1" broken).0 ≡ cached.loads)
    × ((resolve 20 "pi4" "run-1" broken).1.loads ≡ suc cached.loads)
    × ((resolve 20 "pi4" "run-1" stopped).0 ≡ cached.loads)
    × ((resolve 20 "pi4" "run-1" stopped).1.loads ≡ suc cached.loads)
resolve_after_failure_example = resolve_after_failure "pi4" "run-1" cached 20 failed

-- Rows that are their own key, in a table whose queries do not fail.
abbrev same_number : ℕ → ℕ → Bool
same_number a b = a =ⁿ b

inserted : (b t t' : List ℕ) → some (absorb same_number b t) ≡ some t' → t' ≡ absorb same_number b t
inserted b t t' e = ground arith

abbrev table : Hypertable ℕ same_number
table = record {
  Table = List ℕ;
  rows = λ t. t;
  insert_or_ignore = λ b t. some (absorb same_number b t);
  insert_or_ignore_rows = inserted;
}

own : (x : ℕ) → same_number x x ≡ true
own x = ground arith

works : (b t : List ℕ) → (t' : List ℕ) × (table.insert_or_ignore b t ≡ some t')
works b t = (absorb same_number b t, refl)

abbrev history : List (Event table)
history = frame 1 ∷ batch (2 ∷ 3 ∷ []) ∷ flushes ∷ frame 4 ∷ written ∷ flushes ∷ written ∷ []

run_conserves_example :
    flatten (run table history (start table [])).sent
      ++ held (run table history (start table [])).writer
    ≡ arrivals table history
run_conserves_example = run_conserves table history []

run-drained_example :
    table.rows (run table history (start table [])).table
    ≡ absorb same_number (arrivals table history) []
unfolding flatten flush enqueue schedule_flush enqueue_all run held
run-drained_example = run-drained table own works history [] refl
