-- ===== src/Ingest/Counter/Summaries.antt =====
-- What is counted, what is in the summaries, and how far these are apart.
use kab23_motorsport_telemet.Prelude.{
  ℕ, suc, ◌+◌, ◌≤◌, String, ◌≡◌, refl, List, [], ◌∷◌, ltb, get_or, length, arith, Bool-cases, inl,
  inr, eq_iff,
}
use kab23_motorsport_telemet.Prelude.Assoc.{lookup, insert}
use kab23_motorsport_telemet.Ingest.Counter.{
  Failures, no_failures, count_failure, Drops, DropReason, no_drops, count_drop, name,
  log_interval_ms,
}

-- The sum of the counts of a map, and of all summaries.
unfoldable pub total : List (String × ℕ) → ℕ
total [] = 0
total ((k, n) ∷ rest) = n + total rest

unfoldable pub summed : List (ℕ × List (String × ℕ)) → ℕ
unfolding total
summed [] = 0
summed ((at, m) ∷ rest) = total m + summed rest

-- The times of the summaries, the newest first, each an interval after the one before, the newest
-- an interval before `bound`.
abbrev pub IsSpaced {ℓ} : {A : Type ℓ} → ℕ → List (ℕ × A) → Type 0
IsSpaced bound [] = Unit {0}
IsSpaced bound ((at, x) ∷ rest) = (at + log_interval_ms ≤ bound) × IsSpaced at rest

IsSpaced-later {ℓ} :
    {A : Type ℓ} (low high : ℕ) (log : List (ℕ × A))
    → low ≤ high
    → IsSpaced low log
    → IsSpaced high log
IsSpaced-later low high [] le s = tt
IsSpaced-later low high ((at, x) ∷ rest) le (here, s) = (omega arith, s)

total-insert :
    (k : String) (m : List (String × ℕ))
    → total (insert k (suc (get_or (lookup k m) 0)) m) ≡ suc (total m)
unfolding total insert lookup
total-insert k [] = refl
total-insert k ((j, n) ∷ m) = ground (arith, eq_iff j k, total-insert k m)

-- The drops that arrive at the given times for the given reasons.
unfoldable pub count_drops : List (ℕ × DropReason) → Drops → Drops
count_drops [] d = d
count_drops ((now, reason) ∷ rest) d = count_drops rest (count_drop now reason d)

count_drop_lem :
    (now : ℕ) (reason : DropReason) (d : Drops)
    → IsSpaced (d.last_drop_log_ms + log_interval_ms) d.warned
    → let d' = count_drop now reason d in
      (total d'.drops + summed d'.warned ≡ suc (total d.drops + summed d.warned))
      × IsSpaced (d'.last_drop_log_ms + log_interval_ms) d'.warned
unfolding count_drop summed total
count_drop_lem now reason d s =
    let drops = insert (name reason) (suc (get_or (lookup (name reason) d.drops) 0)) d.drops in
    elim (Bool-cases (ltb now (d.last_drop_log_ms + log_interval_ms))) [
      | inl soon ↦ rw soon (omega (arith, total-insert (name reason) d.drops), s)
      | inr due ↦ rw due (
        omega (arith, total-insert (name reason) d.drops),
        (omega arith, IsSpaced-later _ now d.warned (ground arith) s),
      )
    ]

count_drops-sum :
    (events : List (ℕ × DropReason)) (d : Drops)
    → IsSpaced (d.last_drop_log_ms + log_interval_ms) d.warned
    → let d' = count_drops events d in
      (total d'.drops + summed d'.warned ≡ total d.drops + summed d.warned + length events)
      × IsSpaced (d'.last_drop_log_ms + log_interval_ms) d'.warned
unfolding count_drops
count_drops-sum [] d s = (omega arith, s)
count_drops-sum ((now, reason) ∷ rest) d s =
    let (more, s') = count_drop_lem now reason d s in
    let (sum, spaced) = count_drops-sum rest (count_drop now reason d) s' in (omega arith, spaced)

-- From the start, every drop that was counted is in one summary of the log or still counted, and
-- the summaries are at least a minute apart.
pub count_drops_lem :
    (events : List (ℕ × DropReason))
    → let d = count_drops events no_drops in
      (total d.drops + summed d.warned ≡ length events)
      × IsSpaced (d.last_drop_log_ms + log_interval_ms) d.warned
unfolding total summed
count_drops_lem events =
    let (sum, spaced) = count_drops-sum events no_drops tt in (omega arith, spaced)

unfoldable pub reported : List (ℕ × ℕ) → ℕ
reported [] = 0
reported ((at, n) ∷ rest) = n + reported rest

-- The failures at the given times.
unfoldable pub count_failures : List ℕ → Failures → Failures
count_failures [] f = f
count_failures (now ∷ rest) f = count_failures rest (count_failure now f)

count_failure_lem :
    (now : ℕ) (f : Failures)
    → IsSpaced (f.last_failure_log_ms + log_interval_ms) f.warned
    → let f' = count_failure now f in
      (f'.failures + reported f'.warned ≡ suc (f.failures + reported f.warned))
      × IsSpaced (f'.last_failure_log_ms + log_interval_ms) f'.warned
unfolding count_failure reported
count_failure_lem now f s = elim (Bool-cases (ltb now (f.last_failure_log_ms + log_interval_ms))) [
  | inl soon ↦ rw soon (omega arith, s)
  | inr due ↦ rw due (omega arith, (omega arith, IsSpaced-later _ now f.warned (ground arith) s))
]

count_failures-sum :
    (times : List ℕ) (f : Failures)
    → IsSpaced (f.last_failure_log_ms + log_interval_ms) f.warned
    → let f' = count_failures times f in
      (f'.failures + reported f'.warned ≡ f.failures + reported f.warned + length times)
      × IsSpaced (f'.last_failure_log_ms + log_interval_ms) f'.warned
unfolding count_failures
count_failures-sum [] f s = (omega arith, s)
count_failures-sum (now ∷ rest) f s =
    let (more, s') = count_failure_lem now f s in
    let (sum, spaced) = count_failures-sum rest (count_failure now f) s' in (omega arith, spaced)

-- From the start, every failure to publish is in one summary of the log or still counted, and
-- the summaries are at least a minute apart.
pub count_failures_lem :
    (times : List ℕ)
    → let f = count_failures times no_failures in
      (f.failures + reported f.warned ≡ length times)
      × IsSpaced (f.last_failure_log_ms + log_interval_ms) f.warned
unfolding reported
count_failures_lem times =
    let (sum, spaced) = count_failures-sum times no_failures tt in (omega arith, spaced)
