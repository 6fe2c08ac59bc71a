-- ===== src/Ingest/Registry/Timeline.antt =====
-- The clock of a run (`sampleTime`) and the contexts that `load` builds.
use kab23_motorsport_telemet.Prelude.{
  ℕ, ◌+◌, ◌≤◌, String, ◌≡◌, refl, Option, none, some, Result, ok, err, find, arith, ◌==◌,
}
use kab23_motorsport_telemet.Prelude.Int.{pos, pos_part, neg_part, ◌≤ℤ◌}
use kab23_motorsport_telemet.Repository.{Repository}
use kab23_motorsport_telemet.Ingest.Sessions.{
  CarRef, SessionRef, car_key, session_key, same_device, same_sid, has_sid, DbFault,
  find_car_by_device_id,
}
use kab23_motorsport_telemet.Ingest.Sessions.Opening.{Opens, open_session-Opens, open_session_again}
use kab23_motorsport_telemet.Ingest.Registry.{
  SessionContext, sample_time, load, load_car, load_session,
}

-- If one reading of the device's counter is not after another, the same holds of the samples'
-- times on the server's clock, which lie as far apart as the readings; the reading that opened
-- the run lies at the session's start.
pub sample_time_order :
    (c : SessionContext) (a b : ℕ)
    → a ≤ b
    → (sample_time c c.mono_start_ms ≡ pos c.anchor_ms)
      × (sample_time c a ≤ℤ sample_time c b)
      × (pos_part (sample_time c b) + neg_part (sample_time c a) + a
          ≡ pos_part (sample_time c a) + neg_part (sample_time c b) + b)
unfolding sample_time
sample_time_order c a b le = ground arith

module _ (cars : Repository CarRef car_key same_device)
    (sessions : Repository SessionRef session_key same_sid) where
  -- Of a context that a load hands out: the car is the one that is registered under the device id,
  -- and the session is that car's row of this run.
  abbrev pub Attributed :
      String
      → String
      → cars.Table
      → Result DbFault (Option SessionContext) × sessions.Table
      → Type 0
  Attributed device_id sid fleet (ok (some c), after) =
      (car : CarRef) × (s : SessionRef) × (find (λ r. r.device_id == device_id) (cars.rows fleet)
        ≡ some car)
      × (find (has_sid sid) (sessions.rows after) ≡ some s)
      × (s.car_id ≡ car.id)
      × (c.car_id ≡ car.id)
      × (c.session_id ≡ s.id)
  Attributed device_id sid fleet _ = Unit {0}

  session-Attributed :
      (device_id sid : String) (fleet : cars.Table) (mono_ms : ℕ) (car : CarRef)
      (res : Result DbFault (Option SessionRef) × sessions.Table)
      → find (λ r. r.device_id == device_id) (cars.rows fleet) ≡ some car
      → Opens sessions car sid res
      → Attributed device_id sid fleet (load_session cars sessions mono_ms res)
  unfolding load_session
  session-Attributed device_id sid fleet mono_ms car (ok (some s), after) known (own, there) =
      (car, s, known, there, own, own, refl)
  session-Attributed device_id sid fleet mono_ms car (ok none, after) known o = tt
  session-Attributed device_id sid fleet mono_ms car (err e, after) known o = tt

  car-Attributed :
      (now : ℕ) (meanwhile later : sessions.Table → sessions.Table) (fleet : cars.Table)
      (device_id sid : String) (mono_ms : ℕ) (track : Option String) (t : sessions.Table)
      (o : Option CarRef)
      → find (λ r. r.device_id == device_id) (cars.rows fleet) ≡ o
      → Attributed device_id sid fleet
          (load_car cars sessions now meanwhile later o sid mono_ms track t)
  unfolding load_car
  car-Attributed now meanwhile later fleet device_id sid mono_ms track t none e = tt
  car-Attributed now meanwhile later fleet device_id sid mono_ms track t (some car) e =
      session-Attributed device_id sid fleet mono_ms car _ e
        (open_session-Opens sessions now meanwhile later car sid mono_ms track t)

  -- A context that a load hands out belongs to the car that is registered under the device id of
  -- the topic and to that car's row of the run, whatever other writers do meanwhile.
  pub load-Attributed :
      (now : ℕ) (meanwhile later : sessions.Table → sessions.Table) (fleet : cars.Table)
      (device_id sid : String) (mono_ms : ℕ) (track : Option String) (t : sessions.Table)
      → Attributed device_id sid fleet
          (load cars sessions now meanwhile later fleet device_id sid mono_ms track t)
  unfolding load find_car_by_device_id
  load-Attributed now meanwhile later fleet device_id sid mono_ms track t =
      rw (Attributed, cars.find_one_lem (λ r. r.device_id == device_id) fleet)
        (car-Attributed now meanwhile later fleet device_id sid mono_ms track t _ refl)

  -- Loading a run that is there with its device clock gives the same context and writes nothing,
  -- whatever the server's time and the counter of the frame that asks.
  pub load_again :
      (fleet : cars.Table) (device_id sid : String) (car : CarRef) (s : SessionRef) (m : ℕ)
      (t : sessions.Table)
      → find (λ r. r.device_id == device_id) (cars.rows fleet) ≡ some car
      → find (has_sid sid) (sessions.rows t) ≡ some s
      → s.car_id ≡ car.id
      → s.device_mono_start_ms ≡ some m
      → (now : ℕ) (meanwhile later : sessions.Table → sessions.Table) (mono_ms : ℕ)
        (track : Option String)
      → load cars sessions now meanwhile later fleet device_id sid mono_ms track t ≡ (
        ok (
            some (record {
              session_id = s.id;
              car_id = car.id;
              anchor_ms = s.started_at;
              mono_start_ms = m;
            })),
        t,
      )
  unfolding load load_car load_session find_car_by_device_id
  load_again fleet device_id sid car s m t known there own anchored now meanwhile later mono_ms
        track =
      ground (
        arith,
        cars.find_one_lem (λ r. r.device_id == device_id) fleet,
        open_session_again sessions car sid s t (own, there) now meanwhile later mono_ms track,
      )
