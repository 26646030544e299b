-- ===== src/Refresh.antt =====
-- src/scheduled_refresh.py: `resolve_schedule`, `RefreshJob` and `RefreshScheduler`. Times count
-- milliseconds and intervals seconds.
pub mod Schedule
pub mod Run
pub mod Restart
pub mod Unscheduled
mod Tests
use plaidify.Base.{
  ℕ, zero, suc, ◌+◌, Bool, true, false, List, [], ◌∷◌, Option, none, some, ◌==◌, nat_eq,
  if◌then◌else◌, filterb,
}
use plaidify.Base.Compare.{list_eq}
use plaidify.Base.Dict.{Dict, lookup, insert, erase, values}
use plaidify.Base.Text.{Text, lit}

pub data Format : Type 0 where
  interval hourly daily weekly : Format

-- `SCHEDULE_FORMATS`: `none` is an unknown format. The text is in lower case.
abbrev pub parse_format : Text → Option Format
parse_format t =
    if t == lit "interval"
    then some interval
    else if t == lit "hourly"
    then some hourly
    else if t == lit "daily"
    then some daily
    else if t == lit "weekly"
    then some weekly
    else none

-- The text of a format.
abbrev pub format_text : Format → Text
format_text interval = lit "interval"
format_text hourly = lit "hourly"
format_text daily = lit "daily"
format_text weekly = lit "weekly"

-- `_PRESET_INTERVAL_SECONDS`
abbrev pub preset : Format → Option ℕ
preset interval = none
preset hourly = some 3600
preset daily = some 86400
preset weekly = some 604800

-- `a or b` for a number that may be missing.
abbrev pub number_or : Option ℕ → ℕ → ℕ
number_or (some (suc n)) d = suc n
number_or _ d = d

-- `str.lower` is a parameter of the model.
module _ (lower : Text → Text) where
  -- `(schedule_format or "interval").lower()`
  abbrev pub format_or_interval : Option Text → Text
  format_or_interval (some (c ∷ t)) = lower (c ∷ t)
  format_or_interval _ = lower (lit "interval")

  -- `none` is a `ValueError`.
  unfoldable pub resolve_schedule : Option Text → Option ℕ → Option (Format × ℕ)
  resolve_schedule schedule_format interval_seconds =
      known (parse_format (format_or_interval schedule_format))
    where
      given : Option ℕ → Option (Format × ℕ)
      given none = none
      given (some seconds) = some (interval, seconds)

      timed : Format → Option ℕ → Option (Format × ℕ)
      timed f (some seconds) = some (f, seconds)
      timed f none = given interval_seconds

      known : Option Format → Option (Format × ℕ)
      known none = none
      known (some f) = timed f (preset f)

-- A `datetime`, with or without a time zone.
pub record Stamp : Type 0 where
  pub aware : Bool
  pub millis : ℕ

pub record RefreshJob : Type 0 where
  pub access_token : Text
  pub user_id : ℕ
  pub interval_seconds : ℕ
  pub schedule_format : Format
  pub last_refreshed : Option Stamp
  pub last_error : Option Text
  pub consecutive_failures : ℕ
  pub enabled : Bool

-- The scheduler's registry, and the table of persisted jobs by access token.
pub record Scheduler : Type 0 where
  pub jobs : Dict Text RefreshJob
  pub rows : Dict Text RefreshJob

-- `_persist_job`, where the database accepts the write: the owner of a row is never changed.
abbrev pub row_of : Option RefreshJob → RefreshJob → RefreshJob
row_of none job = job
row_of (some row) job = record job { user_id = RefreshJob.user_id row }

-- `writes` tells whether the database accepts the write; an error is only logged.
unfoldable pub persist_job : Bool → RefreshJob → Scheduler → Scheduler
persist_job writes job s =
    if writes
    then record s {
      rows =
          insert (RefreshJob.access_token job)
            (row_of (lookup (RefreshJob.access_token job) (Scheduler.rows s)) job)
            (Scheduler.rows s);
    }
    else s

unfoldable pub delete_persisted_job : Bool → Text → Scheduler → Scheduler
delete_persisted_job writes token s =
    if writes then record s { rows = erase token (Scheduler.rows s) } else s

-- A job that is new in the registry.
abbrev pub new_job : Text → ℕ → Format × ℕ → RefreshJob
new_job token user (f, seconds) = record {
  access_token = token;
  user_id = user;
  interval_seconds = seconds;
  schedule_format = f;
  last_refreshed = none;
  last_error = none;
  consecutive_failures = 0;
  enabled = true;
}

-- What `schedule` makes of the job that is there.
abbrev pub scheduled : Option RefreshJob → Text → ℕ → Format × ℕ → RefreshJob
scheduled none token user resolved = new_job token user resolved
scheduled (some job) token user (f, seconds) = record job {
  interval_seconds = seconds;
  schedule_format = f;
  enabled = true;
  consecutive_failures = 0;
}

abbrev pub put : Bool → Text → RefreshJob → Scheduler → Scheduler
put writes token job s =
    persist_job writes job (record s { jobs = insert token job (Scheduler.jobs s) })

module _ (lower : Text → Text) (default_interval : ℕ) (writes : Bool) where
  unfoldable pub schedule :
      Text → ℕ → Option ℕ → Option Text → Scheduler → Option (RefreshJob × Scheduler)
  schedule token user seconds fmt s =
      resolved (resolve_schedule lower fmt (some (number_or seconds default_interval)))
    where
      resolved : Option (Format × ℕ) → Option (RefreshJob × Scheduler)
      resolved none = none
      resolved (some r) =
          let job = scheduled (lookup token (Scheduler.jobs s)) token user r in
          some (job, put writes token job s)

  abbrev with_enabled : Option Bool → RefreshJob → RefreshJob
  with_enabled none job = job
  with_enabled (some true) job = record job { enabled = true; consecutive_failures = 0 }
  with_enabled (some false) job = record job { enabled = false }

  -- `schedule_format or job.schedule_format`
  abbrev format_or : Option Text → Format → Text
  format_or (some (c ∷ t)) f = c ∷ t
  format_or _ f = format_text f

  abbrev rescheduled : Option ℕ → Option Text → RefreshJob → Option RefreshJob
  rescheduled none none job = some job
  rescheduled seconds fmt job = set (
      resolve_schedule lower (some (format_or fmt (RefreshJob.schedule_format job)))
        (some (number_or seconds (RefreshJob.interval_seconds job))))
    where
      set : Option (Format × ℕ) → Option RefreshJob
      set none = none
      set (some (f, n)) = some (record job { schedule_format = f; interval_seconds = n })

  -- `none` is a `ValueError`; then nothing has changed.
  unfoldable pub update :
      Text
      → Option ℕ
      → Option Text
      → Option Bool
      → Scheduler
      → Option (Option RefreshJob × Scheduler)
  update token seconds fmt on s = there (lookup token (Scheduler.jobs s))
    where
      changed : Option RefreshJob → Option (Option RefreshJob × Scheduler)
      changed none = none
      changed (some job) =
          let job' = with_enabled on job in some (some job', put writes token job' s)

      there : Option RefreshJob → Option (Option RefreshJob × Scheduler)
      there none = some (none, s)
      there (some job) = changed (rescheduled seconds fmt job)

  unfoldable pub unschedule : Text → Scheduler → Bool × Scheduler
  unschedule token s = there (lookup token (Scheduler.jobs s))
    where
      there : Option RefreshJob → Bool × Scheduler
      there none = (false, s)
      there (some job) = (
        true,
        delete_persisted_job writes token (record s { jobs = erase token (Scheduler.jobs s) }),
      )

unfoldable pub jobs_for_user : ℕ → Scheduler → List RefreshJob
jobs_for_user user s = filterb (λ job. RefreshJob.user_id job == user) (values (Scheduler.jobs s))
