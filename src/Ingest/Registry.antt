-- ===== src/Ingest/Registry.antt =====
-- apps/telemetry-ingest/src/telemetry/device-registry.service.ts: the cache of session contexts and
-- the clock of a run. A promise is known by the number of the load that it stands for.
pub mod Cache
pub mod Timeline
use kab23_motorsport_telemet.Prelude.{
  ℕ, suc, ◌+◌, ◌*◌, String, Bool, true, false, List, [], Option, none, some, Result, ok, err,
  get_or, leb, if◌then◌else◌,
}
use kab23_motorsport_telemet.Prelude.Int.{ℤ, sub_ℕ}
use kab23_motorsport_telemet.Prelude.Assoc.{lookup, insert, erase, prune}
use kab23_motorsport_telemet.Wire.Segments.{◌⧺◌}
use kab23_motorsport_telemet.Repository.{Repository}
use kab23_motorsport_telemet.Ingest.Sessions.{
  CarRef, SessionRef, car_key, session_key, same_device, same_sid, DbFault, find_car_by_device_id,
  open_session,
}

abbrev pub context_ttl_ms : ℕ
context_ttl_ms = 60 * 60 * 1000

pub record SessionContext : Type 0 where
  pub session_id : String
  pub car_id : String
  -- The server's time at `mono_start_ms`.
  pub anchor_ms : ℕ
  pub mono_start_ms : ℕ

-- The sample's time on the server's clock; a frame from before the run's first is earlier.
unfoldable pub sample_time : SessionContext → ℕ → ℤ
sample_time c mono_ms = sub_ℕ (c.anchor_ms + mono_ms) c.mono_start_ms

unfoldable pub key : String → String → String
key device_id sid = device_id ⧺ ("\0" ⧺ sid)

pub record CacheEntry : Type 0 where
  pub resolving : ℕ
  pub expires_at : ℕ

pub record Registry : Type 0 where
  pub contexts : List (String × CacheEntry)
  -- How many loads were started; the number of the next one.
  pub loads : ℕ

abbrev pub empty : Registry
empty = record { contexts = []; loads = 0 }

-- A hit hands the stored promise back and moves its expiry.
unfoldable pub hit : ℕ → String → Registry → Option CacheEntry → ℕ × Registry
hit now k r (some cached) = (
  cached.resolving,
  record r { contexts = insert k (record cached { expires_at = now + context_ttl_ms }) r.contexts },
)
hit now k r none = (
  r.loads,
  record {
    contexts =
        insert k (record { resolving = r.loads; expires_at = now + context_ttl_ms }) r.contexts;
    loads = suc r.loads;
  },
)

-- The number of the promise that the caller waits for.
unfoldable pub resolve : ℕ → String → String → Registry → ℕ × Registry
unfolding hit
resolve now device_id sid r = let k = key device_id sid in hit now k r (lookup k r.contexts)

-- The load for this key ends: without a context, by `null` or by an error, its entry goes.
unfoldable pub settle :
    String → String → Result DbFault (Option SessionContext) → Registry → Registry
settle device_id sid (ok (some c)) r = r
settle device_id sid (ok none) r = record r { contexts = erase (key device_id sid) r.contexts }
settle device_id sid (err e) r = record r { contexts = erase (key device_id sid) r.contexts }

unfoldable pub forget : String → String → Registry → Registry
forget device_id sid r = record r { contexts = erase (key device_id sid) r.contexts }

unfoldable pub sweep : ℕ → Registry → Registry
sweep now r = record r { contexts = prune (λ e. leb e.expires_at now) r.contexts }

-- `load`
module _ (cars : Repository CarRef car_key same_device)
    (sessions : Repository SessionRef session_key same_sid) where
  abbrev pub context_of : ℕ → SessionRef → SessionContext
  context_of mono_ms s = record {
    session_id = s.id;
    car_id = s.car_id;
    anchor_ms = s.started_at;
    mono_start_ms = get_or s.device_mono_start_ms mono_ms;
  }

  unfoldable pub load_session :
      ℕ
      → Result DbFault (Option SessionRef) × sessions.Table
      → Result DbFault (Option SessionContext) × sessions.Table
  load_session mono_ms (ok (some s), t) = (ok (some (context_of mono_ms s)), t)
  load_session mono_ms (ok none, t) = (ok none, t)
  load_session mono_ms (err e, t) = (err e, t)

  unfoldable pub load_car :
      ℕ
      → (sessions.Table → sessions.Table)
      → (sessions.Table → sessions.Table)
      → Option CarRef
      → String
      → ℕ
      → Option String
      → sessions.Table
      → Result DbFault (Option SessionContext) × sessions.Table
  unfolding load_session
  load_car now meanwhile later none sid mono_ms track t = (ok none, t)
  load_car now meanwhile later (some car) sid mono_ms track t =
      load_session mono_ms (open_session sessions now meanwhile later car sid mono_ms track t)

  unfoldable pub load :
      ℕ
      → (sessions.Table → sessions.Table)
      → (sessions.Table → sessions.Table)
      → cars.Table
      → String
      → String
      → ℕ
      → Option String
      → sessions.Table
      → Result DbFault (Option SessionContext) × sessions.Table
  unfolding load_car
  load now meanwhile later fleet device_id sid mono_ms track t =
      load_car now meanwhile later (find_car_by_device_id cars device_id fleet) sid mono_ms track t
