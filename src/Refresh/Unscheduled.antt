-- ===== src/Refresh/Unscheduled.antt =====
-- src/scheduled_refresh.py: a job that is taken out while its run waits for the fetch callback.
use plaidify.Base.{ℕ, ◌≡◌, refl, true, none, some, ==_refl, nat_eq}
use plaidify.Base.Compare.{list_eq}
use plaidify.Base.Dict.{Dict, lookup, insert, erase, lookup-insert, lookup-erase}
use plaidify.Base.Text.{Text}
use plaidify.Refresh.{RefreshJob, Scheduler, unschedule, delete_persisted_job, persist_job}
use plaidify.Refresh.Run.{Fetched, data_fetched, fetch_error, after_run, finish_run}

erased : (k : Text) (d : Dict Text RefreshJob) → lookup k (erase k d) ≡ none
erased k d = rw (lookup-erase k k d, ==_refl k) refl

written :
    (k : Text) (job : RefreshJob) (d : Dict Text RefreshJob) → lookup k (insert k job d) ≡ some job
written k job d = rw (lookup-insert k k job d, ==_refl k) refl

-- If a job is taken out while its run waits for the fetch callback, and the database accepts the
-- writes, it is in neither the registry nor the table then; but whatever the callback answers, the end
-- of the run writes the job into the table again, and the registry stays without it.
pub finish_run-unschedule :
    (default now : ℕ) (answer : Fetched) (job : RefreshJob) (s : Scheduler)
    → lookup (RefreshJob.access_token job) (Scheduler.jobs s) ≡ some job
    → let token = RefreshJob.access_token job in
      let s' = (unschedule (λ t. t) default true token s).1 in
      let s'' = finish_run true now answer job s' in
      (lookup token (Scheduler.jobs s') ≡ none)
      × (lookup token (Scheduler.rows s') ≡ none)
      × (lookup token (Scheduler.jobs s'') ≡ none)
      × (lookup token (Scheduler.rows s'') ≡ some (after_run now answer job))
unfolding unschedule delete_persisted_job finish_run persist_job after_run
finish_run-unschedule default now (data_fetched empty) job s h =
    let k = RefreshJob.access_token job in
    rw (h, erased k (Scheduler.jobs s), erased k (Scheduler.rows s))
      (refl, refl, erased k (Scheduler.jobs s), written k _ (erase k (Scheduler.rows s)))
finish_run-unschedule default now (fetch_error error) job s h =
    let k = RefreshJob.access_token job in
    rw (h, erased k (Scheduler.jobs s), erased k (Scheduler.rows s))
      (refl, refl, erased k (Scheduler.jobs s), written k _ (erase k (Scheduler.rows s)))
