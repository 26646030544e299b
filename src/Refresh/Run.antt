-- ===== src/Refresh/Run.antt =====
-- src/scheduled_refresh.py: one tick of `_run_loop`. The fetch and webhook callbacks are parameters:
-- what they answer for a job. The jobs of a tick change only their own entries, so they are
-- run one after the other.
pub mod Failing
use plaidify.Base.{
  ℕ, ◌+◌, ◌-◌, ◌*◌, ◌^◌, ◌≡◌, min, Bool, true, false, ◌&&◌, List, [], ◌∷◌, ◌++◌, leb, Option, none,
  some, ◌==◌, nat_eq, if◌then◌else◌,
}
use plaidify.Base.Compare.{list_eq}
use plaidify.Base.Dict.{Dict, lookup, insert, values}
use plaidify.Base.Text.{Text}
use plaidify.Refresh.{RefreshJob, Scheduler, Stamp, persist_job}

-- `_MAX_CONSECUTIVE_FAILURES`
abbrev pub max_failures : ℕ
max_failures = 10

unfoldable pub effective_interval : ℕ → RefreshJob → ℕ
effective_interval max_backoff job =
    if RefreshJob.consecutive_failures job == 0
    then RefreshJob.interval_seconds job
    else min (RefreshJob.interval_seconds job * 2 ^ RefreshJob.consecutive_failures job) max_backoff

-- `_is_due`; `none` is the `TypeError` of subtracting a time without a time zone from one with. A
-- last refresh that lies in the future counts as one just now.
unfoldable pub is_due : ℕ → ℕ → RefreshJob → Option Bool
is_due max_backoff now job = since (RefreshJob.last_refreshed job)
  where
    since : Option Stamp → Option Bool
    since none = some true
    since (some last) =
        if Stamp.aware last
        then some (leb (1000 * effective_interval max_backoff job) (now - Stamp.millis last))
        else none

abbrev pub keep : Bool → RefreshJob → Option (List RefreshJob) → Option (List RefreshJob)
keep due job none = none
keep due job (some jobs) = some (if due then job ∷ jobs else jobs)

abbrev pub and_due : ℕ → ℕ → RefreshJob → Option Bool
and_due max_backoff now job =
    if RefreshJob.enabled job then is_due max_backoff now job else some false

-- `[job for job in self._jobs.values() if job.enabled and self._is_due(job, now)]`
unfoldable pub due_jobs : ℕ → ℕ → List RefreshJob → Option (List RefreshJob)
due_jobs max_backoff now [] = some []
due_jobs max_backoff now (job ∷ jobs) =
    decided (and_due max_backoff now job) (due_jobs max_backoff now jobs)
  where
    decided : Option Bool → Option (List RefreshJob) → Option (List RefreshJob)
    decided none rest = none
    decided (some due) rest = keep due job rest

-- What the fetch callback answers: data, with whether it is empty, or an error with its text.
pub data Fetched : Type 0 where
  data_fetched : Bool → Fetched
  fetch_error : Text → Fetched

-- What the webhook callback is called with.
pub data Hook : Type 0 where
  refreshed : Text → ℕ → Hook
  refresh_failed : Text → ℕ → Text → ℕ → Hook

abbrev pub stamped : ℕ → RefreshJob → RefreshJob
stamped now job = record job { last_refreshed = some (record { aware = true; millis = now }) }

abbrev pub succeeded : ℕ → RefreshJob → RefreshJob
succeeded now job = record (stamped now job) { last_error = none; consecutive_failures = 0 }

abbrev pub failed : ℕ → Text → RefreshJob → RefreshJob
failed now error job =
    let count = RefreshJob.consecutive_failures job + 1 in
    record (stamped now job) {
      last_error = some error;
      consecutive_failures = count;
      enabled = if leb max_failures count then false else RefreshJob.enabled job;
    }

-- The job after its run at a time.
unfoldable pub after_run : ℕ → Fetched → RefreshJob → RefreshJob
after_run now (data_fetched _) job = succeeded now job
after_run now (fetch_error error) job = failed now error job

-- The calls of the webhook callback, if there is one; what it raises is only logged.
unfoldable pub hooks : Bool → Fetched → RefreshJob → List Hook
hooks false answer job = []
hooks true (data_fetched empty) job =
    if empty then [] else refreshed (RefreshJob.access_token job) (RefreshJob.user_id job) ∷ []
hooks true (fetch_error error) job =
    let count = RefreshJob.consecutive_failures job + 1 in
    if leb max_failures count
    then refresh_failed (RefreshJob.access_token job) (RefreshJob.user_id job) error count ∷ []
    else []

-- The fields of a job are changed in the registry, if it is still there.
abbrev pub change_job : RefreshJob → Dict Text RefreshJob → Dict Text RefreshJob
change_job job jobs = there (lookup (RefreshJob.access_token job) jobs)
  where
    there : Option RefreshJob → Dict Text RefreshJob
    there none = jobs
    there (some _) = insert (RefreshJob.access_token job) job jobs

-- `_execute_job` from the answer of the fetch callback on; `writes` is as for `persist_job`.
unfoldable pub finish_run : Bool → ℕ → Fetched → RefreshJob → Scheduler → Scheduler
unfolding after_run
finish_run writes now answer job s =
    let job' = after_run now answer job in
    persist_job writes job' (record s { jobs = change_job job' (Scheduler.jobs s) })

module _ (max_backoff : ℕ) (has_webhook writes : Bool) (fetch : ℕ → RefreshJob → Fetched) where
  unfoldable pub execute_job : ℕ → RefreshJob → Scheduler → Scheduler × List Hook
  unfolding finish_run hooks
  execute_job now job s =
      let answer = fetch now job in
      (finish_run writes now answer job s, hooks has_webhook answer job)

  abbrev pub execute_all : ℕ → List RefreshJob → Scheduler → Scheduler × List Hook
  execute_all now [] s = (s, [])
  execute_all now (job ∷ jobs) s =
      let (s', called) = execute_job now job s in
      let (s'', more) = execute_all now jobs s' in (s'', called ++ more)

  -- One round of the loop: an exception in it is logged, and nothing is run.
  unfoldable pub tick : ℕ → Scheduler → Scheduler × List Hook
  unfolding execute_job
  tick now s = run (due_jobs max_backoff now (values (Scheduler.jobs s)))
    where
      run : Option (List RefreshJob) → Scheduler × List Hook
      run none = (s, [])
      run (some jobs) = execute_all now jobs s
