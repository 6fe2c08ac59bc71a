-- ===== src/Ingest/Counter.antt =====
-- The two counters of ingest that are summarised in the log at most once a minute: `countDrop` of
-- telemetry.service.ts and `countFailure` of live-publisher.service.ts. The lines of the log stand
-- with the newest first, as the counts that the code formats.
pub mod Summaries
use kab23_motorsport_telemet.Prelude.{
  ℕ, zero, suc, ◌+◌, String, List, [], ◌∷◌, Option, none, some, ltb, get_or, if◌then◌else◌,
}
use kab23_motorsport_telemet.Prelude.Assoc.{lookup, insert}

-- `FAILURE_LOG_INTERVAL_MS`, and `DROP_LOG_INTERVAL_MS`
abbrev pub log_interval_ms : ℕ
log_interval_ms = 60000

pub record Failures : Type 0 where
  pub failures : ℕ
  pub last_failure_log_ms : ℕ
  -- The time and the count of each summary.
  pub warned : List (ℕ × ℕ)

abbrev pub no_failures : Failures
no_failures = record { failures = 0; last_failure_log_ms = 0; warned = [] }

unfoldable pub count_failure : ℕ → Failures → Failures
count_failure now f =
    if ltb now (f.last_failure_log_ms + log_interval_ms)
    then record f { failures = suc f.failures }
    else record {
      failures = 0;
      last_failure_log_ms = now;
      warned = (now, suc f.failures) ∷ f.warned;
    }

pub data DropReason : Type 0 where
  unknown_device malformed_frame unsupported_version : DropReason

-- The text of the reason, which is the key of the map.
abbrev pub name : DropReason → String
name unknown_device = "unknown device"
name malformed_frame = "malformed frame"
name unsupported_version = "unsupported schema version"

pub record Drops : Type 0 where
  pub drops : List (String × ℕ)
  pub last_drop_log_ms : ℕ
  -- The time and the counts of each summary.
  pub warned : List (ℕ × List (String × ℕ))

abbrev pub no_drops : Drops
no_drops = record { drops = []; last_drop_log_ms = 0; warned = [] }

unfoldable pub count_drop : ℕ → DropReason → Drops → Drops
count_drop now reason d =
    let drops = insert (name reason) (suc (get_or (lookup (name reason) d.drops) 0)) d.drops in
    if ltb now (d.last_drop_log_ms + log_interval_ms)
    then record d { drops = drops }
    else record { drops = []; last_drop_log_ms = now; warned = (now, drops) ∷ d.warned }
