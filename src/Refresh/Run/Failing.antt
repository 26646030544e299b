-- ===== src/Refresh/Run/Failing.antt =====
-- src/scheduled_refresh.py: what failures do to a job, its backoff and when it is disabled.
use native.Mathlib.Numerals.{unary_clauses}
use native.Mathlib.Nat.{mul-le-mul_left}
use plaidify.Base.{
  ℕ, zero, suc, ◌+◌, ◌*◌, ◌^◌, ◌≡◌, ◌≤◌, ◌<◌, refl, ◌∙◌, min, Bool, true, false, ◌&&◌, List, [],
  ◌∷◌, length, arith, leb, ltb, nat_eq, filterb, All, Option, none, some, Bool-cases, inl, inr,
}
use plaidify.Base.Text.{Text}
use plaidify.Refresh.{RefreshJob, Stamp}
use plaidify.Refresh.Run.{
  max_failures, effective_interval, is_due, due_jobs, fetch_error, after_run, failed, and_due,
}

-- The job after runs that all fail, each with its time and its error.
unfoldable pub failing : List (ℕ × Text) → RefreshJob → RefreshJob
unfolding after_run
failing [] job = job
failing ((now, error) ∷ runs) job = failing runs (after_run now (fetch_error error) job)

counts :
    (runs : List (ℕ × Text)) (job : RefreshJob)
    → RefreshJob.consecutive_failures (failing runs job)
      ≡ RefreshJob.consecutive_failures job + length runs
unfolding failing after_run
counts [] job = omega arith
counts ((now, error) ∷ runs) job = omega (arith, counts runs (failed now error job))

stays_disabled :
    (runs : List (ℕ × Text)) (job : RefreshJob)
    → RefreshJob.enabled job ≡ false
    → RefreshJob.enabled (failing runs job) ≡ false
unfolding failing after_run
stays_disabled [] job h = h
stays_disabled ((now, error) ∷ runs) job h =
    stays_disabled runs (failed now error job) (ground arith)

enabled_below :
    (runs : List (ℕ × Text)) (job : RefreshJob)
    → RefreshJob.consecutive_failures job < max_failures
    → RefreshJob.enabled (failing runs job) ≡ (
        RefreshJob.enabled job
        && ltb (RefreshJob.consecutive_failures job + length runs) max_failures)
unfolding failing after_run
enabled_below [] job h = ground arith
enabled_below ((now, error) ∷ runs) job h =
    elim (Bool-cases (leb max_failures (RefreshJob.consecutive_failures job + 1))) [
      | inl e ↦ stays_disabled runs (failed now error job) (rw e refl) ∙ ground arith
      | inr e ↦
          let rest = enabled_below runs (failed now error job) (ground arith) in
          ground (arith, rest)
    ]

-- A job that has failed fewer than ten times in a row counts every further failure, and it stays
-- enabled, if it was, exactly as long as the count is below ten.
pub failing-count :
    (runs : List (ℕ × Text)) (job : RefreshJob)
    → RefreshJob.consecutive_failures job < max_failures
    → let after = failing runs job in
      (RefreshJob.consecutive_failures after ≡ RefreshJob.consecutive_failures job + length runs)
      × (RefreshJob.enabled after ≡ (
          RefreshJob.enabled job
          && ltb (RefreshJob.consecutive_failures job + length runs) max_failures))
failing-count runs job h = (counts runs job, enabled_below runs job h)

two_powers : (n : ℕ) → 2 ≤ 2 ^ suc n
two_powers zero = omega arith
two_powers (suc n) = simp unary_clauses (omega (arith, two_powers n))

doubled : (i n : ℕ) → 0 < n → i * 2 ≤ i * 2 ^ n
doubled i zero h = absurd (omega arith)
doubled i (suc n) h = mul-le-mul_left i (two_powers n)

-- A job that has failed waits at least twice its interval, or as long as the backoff allows, and
-- never longer than the backoff allows.
pub effective_interval-bounds :
    (max_backoff : ℕ) (job : RefreshJob)
    → 0 < RefreshJob.consecutive_failures job
    → (min (RefreshJob.interval_seconds job * 2) max_backoff ≤ effective_interval max_backoff job)
      × (effective_interval max_backoff job ≤ max_backoff)
unfolding effective_interval
effective_interval-bounds max_backoff job h =
    ground
      (arith, doubled (RefreshJob.interval_seconds job) (RefreshJob.consecutive_failures job) h)

-- Times that carry a time zone.
abbrev pub Aware : RefreshJob → Type 0
Aware job = zoned (RefreshJob.last_refreshed job)
  where
    zoned : Option Stamp → Type 0
    zoned none = Unit
    zoned (some last) = Stamp.aware last ≡ true

-- A decided answer, and `false` for an error.
abbrev pub is_yes : Option Bool → Bool
is_yes (some b) = b
is_yes none = false

and_due-Aware :
    (max_backoff now : ℕ) (job : RefreshJob)
    → Aware job
    → and_due max_backoff now job ≡ some (is_yes (and_due max_backoff now job))
unfolding is_due
and_due-Aware max_backoff now job h = ground arith

-- In a registry whose times all carry a time zone the due jobs are found: those that are enabled and
-- for which `_is_due` says so, in their order.
pub due_jobs-Aware :
    (max_backoff now : ℕ) (jobs : List RefreshJob)
    → All Aware jobs
    → due_jobs max_backoff now jobs
      ≡ some (filterb (λ job. is_yes (and_due max_backoff now job)) jobs)
unfolding due_jobs is_due
due_jobs-Aware max_backoff now [] h = refl
due_jobs-Aware max_backoff now (job ∷ jobs) h =
    rw (and_due-Aware max_backoff now job h.0, due_jobs-Aware max_backoff now jobs h.1) refl
