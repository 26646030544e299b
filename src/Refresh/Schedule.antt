-- ===== src/Refresh/Schedule.antt =====
-- src/scheduled_refresh.py: registering jobs and taking them out.
use plaidify.Base.{ℕ, ◌≡◌, refl, Bool, true, false, Option, none, some, ◌==◌, nat_eq, if◌then◌else◌}
use plaidify.Base.Compare.{list_eq}
use plaidify.Base.Dict.{lookup, insert, lookup-insert, lookup-erase}
use plaidify.Base.Text.{Text}
use plaidify.Refresh.{
  Format, RefreshJob, Scheduler, resolve_schedule, scheduled, schedule, unschedule, persist_job,
  delete_persisted_job, number_or, put,
}

scheduled-fields :
    (there : Option RefreshJob) (token : Text) (user : ℕ) (f : Format) (n : ℕ)
    → let job = scheduled there token user (f, n) in
      (RefreshJob.enabled job ≡ true)
      × (RefreshJob.consecutive_failures job ≡ 0)
      × (RefreshJob.interval_seconds job ≡ n)
      × (RefreshJob.schedule_format job ≡ f)
scheduled-fields none token user f n = (refl, refl, refl, refl)
scheduled-fields (some job) token user f n = (refl, refl, refl, refl)

persist-jobs :
    (writes : Bool) (job : RefreshJob) (s : Scheduler)
    → Scheduler.jobs (persist_job writes job s) ≡ Scheduler.jobs s
unfolding persist_job
persist-jobs true job s = refl
persist-jobs false job s = refl

-- If the format and the interval resolve, the job that is scheduled has them, is enabled and has no
-- failures, whatever job was there; it is found under its token in the registry, and the jobs of
-- other tokens are left alone.
pub lookup-schedule :
    (lower : Text → Text) (default : ℕ) (writes : Bool) (token other : Text) (user : ℕ)
    (seconds : Option ℕ) (fmt : Option Text) (s : Scheduler) (f : Format) (n : ℕ)
    → resolve_schedule lower fmt (some (number_or seconds default)) ≡ some (f, n)
    → (job : RefreshJob) × (s' : Scheduler) × (schedule lower default writes token user seconds fmt
          s
        ≡ some (job, s'))
      × ((lookup other (Scheduler.jobs s')
            ≡ (if token == other then some job else lookup other (Scheduler.jobs s)))
          × ((RefreshJob.enabled job ≡ true)
              × (RefreshJob.consecutive_failures job ≡ 0)
              × (RefreshJob.interval_seconds job ≡ n)
              × (RefreshJob.schedule_format job ≡ f)))
unfolding schedule
lookup-schedule lower default writes token other user seconds fmt s f n h =
    let job = scheduled (lookup token (Scheduler.jobs s)) token user (f, n) in
    (
      job,
      put writes token job s,
      rw h refl,
      (
        rw (persist-jobs writes job (record s { jobs = insert token job (Scheduler.jobs s) }))
            (lookup-insert token other job (Scheduler.jobs s)),
        scheduled-fields (lookup token (Scheduler.jobs s)) token user f n,
      ),
    )

-- A job that is taken out is in the registry no more, nor in the table, where the database accepts
-- the write; the other tokens keep theirs.
pub lookup-unschedule :
    (default : ℕ) (token other : Text) (job : RefreshJob) (s : Scheduler)
    → lookup token (Scheduler.jobs s) ≡ some job
    → let (found, s') = unschedule (λ t. t) default true token s in
      (found ≡ true)
      × (lookup other (Scheduler.jobs s')
          ≡ (if token == other then none else lookup other (Scheduler.jobs s)))
      × (lookup other (Scheduler.rows s')
          ≡ (if token == other then none else lookup other (Scheduler.rows s)))
unfolding unschedule delete_persisted_job
lookup-unschedule default token other job s h =
    rw h (
      refl,
      lookup-erase token other (Scheduler.jobs s),
      lookup-erase token other (Scheduler.rows s),
    )
