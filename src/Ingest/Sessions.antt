-- ===== src/Ingest/Sessions.antt =====
-- apps/telemetry-ingest/src/sessions: the rows that ingest reads and writes, and
-- ingest-sessions.service.ts.
pub mod Opening
pub mod Closing
use kab23_motorsport_telemet.Prelude.{
  ℕ, zero, suc, String, Bool, true, false, ◌&&◌, ◌||◌, List, Option, none, some, Result, ok, err,
  is_some, ◌==◌, if◌then◌else◌,
}
use kab23_motorsport_telemet.Repository.{Repository, Saved, saved, unique_violation, query_failed}

pub data SessionStatus : Type 0 where
  live completed aborted : SessionStatus

abbrev pub is_live : SessionStatus → Bool
is_live live = true
is_live _ = false

pub record CarRef : Type 0 where
  pub id : String
  pub device_id : String
  pub owner_id : String
  pub team_id : Option String

-- Dates are milliseconds since the epoch.
pub record SessionRef : Type 0 where
  pub id : String
  pub car_id : String
  pub driver_id : String
  pub track : String
  pub started_at : ℕ
  pub ended_at : Option ℕ
  pub status : SessionStatus
  pub device_session_id : Option String
  pub device_mono_start_ms : Option ℕ

abbrev pub car_key : CarRef → String
car_key c = c.id

abbrev pub session_key : SessionRef → String
session_key s = s.id

abbrev pub has_sid : String → SessionRef → Bool
has_sid sid s = elim s.device_session_id [ none ↦ false | some x ↦ x == sid ]

abbrev pub same_device : CarRef → CarRef → Bool
same_device a b = a.device_id == b.device_id

-- `unique: true` on a nullable column keeps only rows with a value apart.
abbrev pub same_sid : SessionRef → SessionRef → Bool
same_sid a b = elim a.device_session_id [ none ↦ false | some sid ↦ has_sid sid b ]

pub data DbFault : Type 0 where
  failed : DbFault

module _ (cars : Repository CarRef car_key same_device) where
  unfoldable pub find_car_by_device_id : String → cars.Table → Option CarRef
  find_car_by_device_id device_id t = cars.find_one (λ c. c.device_id == device_id) t

-- A row is handed out only to the car that it belongs to.
abbrev pub if_own : CarRef → Option SessionRef → Option SessionRef
if_own car none = none
if_own car (some s) = if s.car_id == car.id then some s else none

-- `track || 'unknown'`
abbrev pub track_name : Option String → String
track_name none = "unknown"
track_name (some t) = if t == "" then "unknown" else t

abbrev pub opened : ℕ → CarRef → String → ℕ → Option String → String → SessionRef
opened now car sid mono_ms track id = record {
  id = id;
  car_id = car.id;
  driver_id = car.owner_id;
  track = track_name track;
  started_at = now;
  ended_at = none;
  status = live;
  device_session_id = some sid;
  device_mono_start_ms = some mono_ms;
}

abbrev pub closes : String → String → SessionRef → Bool
closes car_id sid s = has_sid sid s && s.car_id == car_id && is_live s.status

abbrev pub closed_row : ℕ → SessionRef → SessionRef
closed_row now s = record s { status = completed; ended_at = some now }

module _ (sessions : Repository SessionRef session_key same_sid) where
  unfoldable pub find_by_device_session_id : String → sessions.Table → Option SessionRef
  find_by_device_session_id sid t = sessions.find_one (has_sid sid) t

  -- The end of `openSession`, from the answer to the insert. `later` is what other handlers do to
  -- the table before the row that won the race is read.
  unfoldable pub after_insert :
      CarRef
      → String
      → (sessions.Table → sessions.Table)
      → Saved SessionRef sessions.Table
      → sessions.Table
      → Result DbFault (Option SessionRef) × sessions.Table
  after_insert car sid later (saved row t') t = (ok (some row), t')
  after_insert car sid later unique_violation t =
      (ok (if_own car (find_by_device_session_id sid (later t))), later t)
  after_insert car sid later query_failed t = (err failed, t)

  -- `openSession` from the answer to its first query. `meanwhile` is what other handlers do between
  -- that query and the insert.
  unfoldable pub open_from :
      ℕ
      → (sessions.Table → sessions.Table)
      → (sessions.Table → sessions.Table)
      → CarRef
      → String
      → ℕ
      → Option String
      → Option SessionRef
      → sessions.Table
      → Result DbFault (Option SessionRef) × sessions.Table
  unfolding after_insert
  open_from now meanwhile later car sid mono_ms track (some existing) t =
      (ok (if_own car (some existing)), t)
  open_from now meanwhile later car sid mono_ms track none t =
      after_insert car sid later (sessions.save (opened now car sid mono_ms track) (meanwhile t))
        (meanwhile t)

  unfoldable pub open_session :
      ℕ
      → (sessions.Table → sessions.Table)
      → (sessions.Table → sessions.Table)
      → CarRef
      → String
      → ℕ
      → Option String
      → sessions.Table
      → Result DbFault (Option SessionRef) × sessions.Table
  unfolding open_from
  open_session now meanwhile later car sid mono_ms track t =
      open_from now meanwhile later car sid mono_ms track (find_by_device_session_id sid t) t

  answer_close : String → ℕ × sessions.Table → Option SessionRef × sessions.Table
  answer_close sid (zero, t) = (none, t)
  answer_close sid (suc n, t) = (find_by_device_session_id sid t, t)

  unfoldable pub close_session :
      ℕ → String → String → sessions.Table → Option SessionRef × sessions.Table
  unfolding answer_close
  close_session now car_id sid t =
      answer_close sid (sessions.update (closes car_id sid) (closed_row now) t)
