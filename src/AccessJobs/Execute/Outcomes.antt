-- ===== src/AccessJobs/Execute/Outcomes.antt =====
-- src/access_jobs.py `_execute_existing_job`: what is stored of a job when every commit succeeds.
use plaidify.Base.{ℕ, ◌≡◌, refl, Option, none, some, List, [], ◌∷◌, ==_refl, nat_eq}
use plaidify.Base.Compare.{list_eq}
use plaidify.Base.Dict.{Dict, lookup, insert, lookup-insert}
use plaidify.Base.Text.{Text}
use plaidify.Json.{Codec, Value}
use plaidify.AccessJobs.Scope.{scope_site}
use plaidify.AccessJobs.Locking.{Locking, obtained, refused, interrupted}
use plaidify.AccessJobs.Job.{
  AccessJob, JobStatus, running, completed, mfa_required, blocked, failed, cancelled,
  apply_job_state, merge_metadata, result_metadata,
}
use plaidify.AccessJobs.Execute.{
  World, Outcome, finished, cancelled_error, mfa_error, plaidify_error, other_error, Execution,
  Commit, committed, cancellation, Raised, plaidify_raised, concurrent_access, raise, PolicyEvent,
  persist_job, commit, audited, finish_audited, record_policy_audit_if_needed, handle, complete,
  completing, completed_state, leave, with_events, after_execution, execution_kwargs, execute_held,
  execute_blocked, execute_existing_job, remove_session, release_lock, running_state, blocked_state,
  cancelled_state, mfa_state, failed_state,
}
use plaidify.AccessJobs.Execute.Cleanup.{with_lock_held, with_lock_blocked, with_lock_interrupted}

-- The status in which each way to end leaves the job. A result whose metadata cannot be computed
-- leaves it running.
abbrev pub status_of_metadata : Option (Dict Text Value) → JobStatus
status_of_metadata none = running
status_of_metadata (some _) = completed

abbrev pub final_status : Outcome → JobStatus
final_status (finished result) = status_of_metadata (result_metadata result)
final_status cancelled_error = cancelled
final_status (mfa_error _ _ _) = mfa_required
final_status (plaidify_error _ _) = failed
final_status (other_error _) = failed

module _ (C : Codec) (L : Locking) where
  -- The row of a job has a status.
  abbrev pub Stored : World C L → Text → JobStatus → Type 0
  Stored w id status = (row : AccessJob C) × (lookup id w.rows ≡ some row) × (row.status ≡ status)

  pub persist_clean :
      (w : World C L) (job : AccessJob C)
      → w.commits ≡ []
      → persist_job C L w job ≡ (committed, job, record w { rows = insert job.id job w.rows })
  unfolding persist_job
  persist_clean w job clean = split w.commits clean
    where
      split :
          (cs : List Commit)
          → cs ≡ []
          → commit C L cs w job ≡ (committed, job, record w { rows = insert job.id job w.rows })
      split [] e = refl
      split (b ∷ cs) e = cc

  pub persist-Stored :
      (w : World C L) (job : AccessJob C)
      → w.commits ≡ []
      → Stored (persist_job C L w job).2 job.id job.status
  persist-Stored w job clean =
      rw (persist_clean w job clean)
        (job, rw (lookup-insert job.id job.id job w.rows, ==_refl job.id), refl)

  pub inserted-Stored :
      (w : World C L) (job : AccessJob C)
      → Stored (record w { rows = insert job.id job w.rows }) job.id job.status
  inserted-Stored w job = (job, rw (lookup-insert job.id job.id job w.rows, ==_refl job.id), refl)

  pub remove-commits :
      (s : Option Text) (w : World C L) → w.commits ≡ [] → (remove_session C L s w).commits ≡ []
  remove-commits none w e = e
  remove-commits (some s) w e = e

  audited-Stored :
      (events : Option (List PolicyEvent)) (w : World C L) (exc : Raised) (id : Text)
      (status : JobStatus)
      → Stored w id status
      → Stored (audited C L events w exc).0 id status
  audited-Stored none w exc id status st = st
  audited-Stored (some events) w exc id status st = st

  removed-Stored :
      (s : Option Text) (w : World C L) (id : Text) (status : JobStatus)
      → Stored w id status
      → Stored (remove_session C L s w) id status
  removed-Stored none w id status st = st
  removed-Stored (some s) w id status st = st

  finished-Stored :
      (events : Option (List PolicyEvent)) (w : World C L) (job : AccessJob C)
      (result : Dict Text Value) (id : Text) (status : JobStatus)
      → Stored w id status
      → Stored (finish_audited C L events w job result).1 id status
  finished-Stored none w job result id status st = st
  finished-Stored (some events) w job result id status st =
      removed-Stored job.session_id (with_events C L events w) id status st

  completing-Stored :
      (extra : Option (Dict Text Value)) (w : World C L) (job : AccessJob C)
      (result : Dict Text Value) (m : Option (Dict Text Value)) (now : ℕ)
      → w.commits ≡ []
      → Stored w job.id running
      → Stored (completing C L extra w job result m now).1 job.id (status_of_metadata extra)
  unfolding apply_job_state
  completing-Stored none w job result m now clean st = st
  completing-Stored (some extra) w job result m now clean st =
      let merged = merge_metadata m (some extra) in
      let job' = completed_state C L job merged result now in
      rw (persist_clean w job' clean) (
        finished-Stored (record_policy_audit_if_needed C L job' merged completed)
          (record w { rows = insert job.id job' w.rows }) job' result job.id completed
          (inserted-Stored w job'))

  left-Stored :
      (h : L.Handle) (job : AccessJob C) (m : Option (Dict Text Value)) (now : ℕ)
      (events : Option (List PolicyEvent)) (w : World C L) (exc : Raised) (id : Text)
      (status : JobStatus)
      → Stored w id status
      → Stored (leave C L h job m now (audited C L events w exc)).1 id status
  left-Stored h job m now none w exc id status st = st
  left-Stored h job m now (some events) w exc id status st = st

  -- The `try` statement and what follows it, in a world in which the job is stored as running.
  leave-Stored :
      (h : L.Handle) (job : AccessJob C) (w : World C L) (o : Outcome)
      (m : Option (Dict Text Value)) (now : ℕ)
      → w.commits ≡ []
      → Stored w job.id running
      → Stored (leave C L h job m now (handle C L w job o m now)).1 job.id (final_status o)
  unfolding handle complete apply_job_state
  leave-Stored h job w (finished result) m now clean st =
      completing-Stored (result_metadata result) (release_lock C L h w) job result m now clean st
  leave-Stored h job w cancelled_error m now clean st =
      persist-Stored (remove_session C L job.session_id w) (cancelled_state C L job now)
        (remove-commits job.session_id w clean)
  leave-Stored h job w (mfa_error a b c) m now clean st =
      persist-Stored w (mfa_state C L job a b c m now) clean
  leave-Stored h job w (plaidify_error a b) m now clean st =
      let merged = merge_metadata m b in
      let job' = failed_state C L job a merged now in
      let w' = remove_session C L job.session_id w in
      rw (persist_clean w' job' (remove-commits job.session_id w clean)) (
        left-Stored h job m now (record_policy_audit_if_needed C L job' merged failed)
          (record w' { rows = insert job.id job' w'.rows }) (plaidify_raised a) job.id failed
          (inserted-Stored w' job'))
  leave-Stored h job w (other_error a) m now clean st =
      persist-Stored (remove_session C L job.session_id w) (failed_state C L job a none now)
        (remove-commits job.session_id w clean)

  held-Stored :
      (w : World C L) (job : AccessJob C) (h : L.Handle)
      (executor : Dict Text Value → Execution C L) (kwargs : Dict Text Value)
      (m : Option (Dict Text Value)) (start finish : ℕ)
      → w.commits ≡ []
      → Stored (execute_held C L w job h executor kwargs m start finish).1 job.id (
          final_status
            (executor (execution_kwargs C L (running_state C L job start) kwargs)).outcome)
  unfolding execute_held apply_job_state
  held-Stored w job h executor kwargs m start finish clean =
      let job' = running_state C L job start in
      let w' = record w { rows = insert job.id job' w.rows } in
      let x = executor (execution_kwargs C L job' kwargs) in
      rw (persist_clean w job' clean) (
        leave-Stored h job' (after_execution C L x w') x.outcome m finish clean
          (job', rw (lookup-insert job.id job.id job' w.rows, ==_refl job.id), refl))

  blocked-Stored :
      (w : World C L) (job : AccessJob C) (now : ℕ)
      → w.commits ≡ []
      → Stored (execute_blocked C L w job now).1 job.id blocked
  unfolding execute_blocked apply_job_state
  blocked-Stored w job now clean = persist-Stored w (blocked_state C L job now) clean

  blocked-raise :
      (w : World C L) (job : AccessJob C) (now : ℕ)
      → w.commits ≡ []
      → (execute_blocked C L w job now).0 ≡ raise (concurrent_access (scope_site job.lock_scope))
  unfolding execute_blocked
  blocked-raise w job now clean = rw (persist_clean w (blocked_state C L job now) clean) refl

  -- A cancellation that comes in while the lock is waited for leaves everything but the locks as it was.
  pub execute-interrupted :
      (w : World C L) (job : AccessJob C) (executor : Dict Text Value → Execution C L)
      (kwargs : Dict Text Value) (m : Option (Dict Text Value)) (start finish : ℕ)
      → (L.acquire w.locks job.lock_scope).0 ≡ interrupted
      → execute_existing_job C L w job executor kwargs m start finish
        ≡ (raise cancellation, record w { locks = (L.acquire w.locks job.lock_scope).1 })
  unfolding execute_existing_job
  execute-interrupted w job executor kwargs m start finish e =
      with_lock_interrupted C L (L.acquire w.locks job.lock_scope) w job executor kwargs m start
        finish e

  -- When every commit succeeds, the row of the job ends in the status that belongs to the way in
  -- which the executor ended: completed, cancelled, awaiting MFA or failed, or still running if the
  -- metadata of the result cannot be computed. If the lock is refused the row is blocked, the error
  -- names the site of the scope, and the executor is not called.
  pub execute-Stored :
      (w : World C L) (job : AccessJob C) (executor : Dict Text Value → Execution C L)
      (kwargs : Dict Text Value) (m : Option (Dict Text Value)) (start finish : ℕ)
      → w.commits ≡ []
      → let after = execute_existing_job C L w job executor kwargs m start finish in
        let taken = (L.acquire w.locks job.lock_scope).0 in
        ((h : L.Handle)
          → taken ≡ obtained h
          → Stored after.1 job.id (
              final_status
                (executor (execution_kwargs C L (running_state C L job start) kwargs)).outcome))
        × (taken ≡ refused
            → Stored after.1 job.id blocked
              × (after.0 ≡ raise (concurrent_access (scope_site job.lock_scope)))
              × ((executor' : Dict Text Value → Execution C L)
                  → execute_existing_job C L w job executor' kwargs m start finish ≡ after))
  unfolding execute_existing_job
  execute-Stored w job executor kwargs m start finish clean = (
    λ h e.
        rw
          (with_lock_held C L (L.acquire w.locks job.lock_scope) h w job executor kwargs m start
            finish e)
          (held-Stored (record w { locks = (L.acquire w.locks job.lock_scope).1 }) job h executor
            kwargs m start finish clean),
    λ e.
        let blocked_by = λ (ex : Dict Text Value → Execution C L).
          with_lock_blocked C L (L.acquire w.locks job.lock_scope) w job ex kwargs m start finish
            e in
        rw (blocked_by executor) (
          blocked-Stored (record w { locks = (L.acquire w.locks job.lock_scope).1 }) job finish
              clean,
          blocked-raise (record w { locks = (L.acquire w.locks job.lock_scope).1 }) job finish
              clean,
          blocked_by,
        ),
  )
