-- ===== src/Refresh/Tests.antt =====
-- Runs of src/scheduled_refresh.py at concrete inputs.
use plaidify.Base.{
  ◌≡◌, ◌+◌, ◌&&◌, ltb, refl, true, false, none, some, [], ◌∷◌, arith, nat_eq, List, any, ℕ,
}
use plaidify.Base.Compare.{list_eq}
use plaidify.Base.Dict.{lookup, insert, values}
use plaidify.Base.Text.{Text, lit}
use plaidify.Refresh.{hourly, Stamp, RefreshJob, Scheduler, unschedule, resolve_schedule, new_job}
use plaidify.Refresh.Run.{finish_run, after_run, data_fetched, tick, max_failures}
use plaidify.Refresh.Run.Failing.{failing, failing-count}
use plaidify.Refresh.Unscheduled.{finish_run-unschedule}
use plaidify.Refresh.Restart.{load_from_db, restart, restart_stalls, was_run}

abbrev token : Text
token = lit "acc-1"

abbrev other : Text
other = lit "acc-2"

abbrev job : RefreshJob
job = record (new_job token 7 (hourly, 3600)) {
  last_refreshed = some (record { aware = true; millis = 1000 });
  consecutive_failures = 8;
}

abbrev with_job : Scheduler
with_job = record { jobs = (token, job) ∷ []; rows = (token, job) ∷ [] }

abbrev two_errors : List (ℕ × Text)
two_errors = (2000, lit "down") ∷ (3000, lit "down") ∷ []

failing-count_example :
    let after = failing two_errors job in
    (RefreshJob.consecutive_failures after ≡ 8 + 2)
    × (RefreshJob.enabled after ≡ (true && ltb (8 + 2) max_failures))
failing-count_example = failing-count two_errors job (omega arith)

abbrev zoneless : Stamp → Stamp
zoneless t = record t { aware = false }

was_loaded :
    any was_run (values (Scheduler.jobs (load_from_db zoneless true (restart with_job)).1)) ≡ true
unfolding load_from_db insert
was_loaded = refl

restart_stalls_example :
    tick 86400 true true
      (λ t j. data_fetched false)
      90000000
      (load_from_db zoneless true (restart with_job)).1
    ≡ ((load_from_db zoneless true (restart with_job)).1, [])
restart_stalls_example =
    restart_stalls zoneless (λ t. refl) 86400 90000000 true true (λ t j. data_fetched false)
      with_job was_loaded

resolved : resolve_schedule (λ t. t) (some (lit "hourly")) (some 3600) ≡ some (hourly, 3600)
unfolding resolve_schedule
resolved = refl

finish_run-unschedule_example :
    let s' = (unschedule (λ t. t) 3600 true token with_job).1 in
    let s'' = finish_run true 5000 (data_fetched false) job s' in
    (lookup token (Scheduler.jobs s') ≡ none)
    × (lookup token (Scheduler.rows s') ≡ none)
    × (lookup token (Scheduler.jobs s'') ≡ none)
    × (lookup token (Scheduler.rows s'') ≡ some (after_run 5000 (data_fetched false) job))
unfolding lookup
finish_run-unschedule_example =
    finish_run-unschedule 3600 5000 (data_fetched false) job with_job refl
