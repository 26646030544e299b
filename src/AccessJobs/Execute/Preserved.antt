-- ===== src/AccessJobs/Execute/Preserved.antt =====
-- src/access_jobs.py `_execute_existing_job`: what every commit preserves, and what the locks, the MFA
-- sessions and the audit events have no part in, is preserved by the whole.
use plaidify.Base.{ℕ, ◌≡◌, refl, Option, none, some, List, nat_eq}
use plaidify.Base.Compare.{list_eq}
use plaidify.Base.Dict.{Dict}
use plaidify.Base.Text.{Text}
use plaidify.Json.{Value, Codec}
use plaidify.AccessJobs.Locking.{Locking, Acquire, obtained, refused, interrupted}
use plaidify.AccessJobs.Job.{AccessJob, completed, failed, merge_metadata, result_metadata}
use plaidify.AccessJobs.Execute.{
  World, Outcome, finished, cancelled_error, mfa_error, plaidify_error, other_error, Execution,
  Commit, committed, unrefreshed, undone, broken, audited_after, finish_after, run_held, Raised,
  plaidify_raised, Left, PolicyEvent, persist_job, audited, finish_audited,
  record_policy_audit_if_needed, handle, complete, completing, completed_state, leave, with_events,
  after_execution, execution_kwargs, execute_held, execute_blocked, with_lock, execute_existing_job,
  remove_session, release_lock, running_state, blocked_state, cancelled_state, mfa_state,
  failed_state,
}

module _ (C : Codec) (L : Locking) (Kept : World C L → Type 0)
    (same-Kept : (w w' : World C L) → w'.rows ≡ w.rows → w'.commits ≡ w.commits → Kept w → Kept w')
    (persist-Kept : (w : World C L) (job : AccessJob C)
      → Kept w
      → Kept (persist_job C L w job).2) where
  audited-Kept :
      (events : Option (List PolicyEvent)) (w : World C L) (exc : Raised)
      → Kept w
      → Kept (audited C L events w exc).0
  audited-Kept none w exc h = h
  audited-Kept (some events) w exc h = same-Kept w (with_events C L events w) refl refl h

  audited_after-Kept :
      (c : Commit) (events : Option (List PolicyEvent)) (w : World C L) (exc : Raised)
      → Kept w
      → Kept (audited_after C L c events w exc).0
  audited_after-Kept committed events w exc h = audited-Kept events w exc h
  audited_after-Kept unrefreshed events w exc h = audited-Kept events w exc h
  audited_after-Kept undone events w exc h = audited-Kept events w exc h
  audited_after-Kept broken events w exc h = h

  remove-Kept : (s : Option Text) (w : World C L) → Kept w → Kept (remove_session C L s w)
  remove-Kept none w h = h
  remove-Kept (some s) w h = same-Kept w (remove_session C L (some s) w) refl refl h

  finished-Kept :
      (events : Option (List PolicyEvent)) (w : World C L) (job : AccessJob C)
      (result : Dict Text Value)
      → Kept w
      → Kept (finish_audited C L events w job result).1
  finished-Kept none w job result h = h
  finished-Kept (some events) w job result h =
      remove-Kept job.session_id (with_events C L events w)
        (same-Kept w (with_events C L events w) refl refl h)

  handle-Kept :
      (w : World C L) (job : AccessJob C) (o : Outcome) (m : Option (Dict Text Value)) (now : ℕ)
      → Kept w
      → Kept (handle C L w job o m now).0
  unfolding handle
  handle-Kept w job (finished result) m now h = h
  handle-Kept w job cancelled_error m now h =
      persist-Kept (remove_session C L job.session_id w) (cancelled_state C L job now)
        (remove-Kept job.session_id w h)
  handle-Kept w job (mfa_error a b c) m now h = persist-Kept w (mfa_state C L job a b c m now) h
  handle-Kept w job (plaidify_error a b) m now h =
      let q =
        persist_job C L (remove_session C L job.session_id w)
          (failed_state C L job a (merge_metadata m b) now) in
      audited_after-Kept q.0 (record_policy_audit_if_needed C L q.1 (merge_metadata m b) failed) q.2
        (plaidify_raised a)
        (persist-Kept (remove_session C L job.session_id w)
          (failed_state C L job a (merge_metadata m b) now) (remove-Kept job.session_id w h))
  handle-Kept w job (other_error a) m now h =
      persist-Kept (remove_session C L job.session_id w) (failed_state C L job a none now)
        (remove-Kept job.session_id w h)

  finish_after-Kept :
      (c : Commit) (events : Option (List PolicyEvent)) (w : World C L) (job : AccessJob C)
      (result : Dict Text Value)
      → Kept w
      → Kept (finish_after C L c events w job result).1
  finish_after-Kept committed events w job result h = finished-Kept events w job result h
  finish_after-Kept unrefreshed events w job result h = finished-Kept events w job result h
  finish_after-Kept undone events w job result h = finished-Kept events w job result h
  finish_after-Kept broken events w job result h = h

  completing-Kept :
      (extra : Option (Dict Text Value)) (w : World C L) (job : AccessJob C)
      (result : Dict Text Value) (m : Option (Dict Text Value)) (now : ℕ)
      → Kept w
      → Kept (completing C L extra w job result m now).1
  completing-Kept none w job result m now h = h
  completing-Kept (some extra) w job result m now h =
      let merged = merge_metadata m (some extra) in
      let q = persist_job C L w (completed_state C L job merged result now) in
      finish_after-Kept q.0 (record_policy_audit_if_needed C L q.1 merged completed) q.2 q.1 result
        (persist-Kept w (completed_state C L job merged result now) h)

  released-Kept : (h : L.Handle) (w : World C L) → Kept w → Kept (release_lock C L h w)
  released-Kept h w e = same-Kept w (release_lock C L h w) refl refl e

  leave-Kept :
      (h : L.Handle) (job : AccessJob C) (m : Option (Dict Text Value)) (now : ℕ)
      (r : World C L × Left)
      → Kept r.0
      → Kept (leave C L h job m now r).1
  unfolding complete
  leave-Kept h job m now (w, Left.returned result) e =
      completing-Kept (result_metadata result) (release_lock C L h w) job result m now
        (released-Kept h w e)
  leave-Kept h job m now (w, Left.raising exc) e = released-Kept h w e

  after-Kept : (x : Execution C L) (w : World C L) → Kept w → Kept (after_execution C L x w)
  after-Kept x w e = same-Kept w (after_execution C L x w) refl refl e

  run_held-Kept :
      (c : Commit) (job : AccessJob C) (w : World C L) (h : L.Handle)
      (executor : Dict Text Value → Execution C L) (kwargs : Dict Text Value)
      (m : Option (Dict Text Value)) (finish : ℕ)
      → Kept w
      → Kept (run_held C L c job w h executor kwargs m finish).1
  run_held-Kept c job w h executor kwargs m finish e = by_commit c
    where
      tried : Kept (run_held C L committed job w h executor kwargs m finish).1
      tried =
          let x = executor (execution_kwargs C L job kwargs) in
          leave-Kept h job m finish (handle C L (after_execution C L x w) job x.outcome m finish)
            (handle-Kept (after_execution C L x w) job x.outcome m finish (after-Kept x w e))

      by_commit : (c : Commit) → Kept (run_held C L c job w h executor kwargs m finish).1
      by_commit committed = tried
      by_commit unrefreshed = tried
      by_commit undone = tried
      by_commit broken = e

  held-Kept :
      (w : World C L) (job : AccessJob C) (h : L.Handle)
      (executor : Dict Text Value → Execution C L) (kwargs : Dict Text Value)
      (m : Option (Dict Text Value)) (start finish : ℕ)
      → Kept w
      → Kept (execute_held C L w job h executor kwargs m start finish).1
  unfolding execute_held
  held-Kept w job h executor kwargs m start finish e =
      let q = persist_job C L w (running_state C L job start) in
      run_held-Kept q.0 q.1 q.2 h executor kwargs m finish
        (persist-Kept w (running_state C L job start) e)

  blocked-Kept :
      (w : World C L) (job : AccessJob C) (now : ℕ)
      → Kept w
      → Kept (execute_blocked C L w job now).1
  unfolding execute_blocked
  blocked-Kept w job now e = persist-Kept w (blocked_state C L job now) e

  with-Kept :
      (p : Acquire L.Handle × L.State) (w : World C L) (job : AccessJob C)
      (executor : Dict Text Value → Execution C L) (kwargs : Dict Text Value)
      (m : Option (Dict Text Value)) (start finish : ℕ)
      → Kept w
      → Kept (with_lock C L p w job executor kwargs m start finish).1
  with-Kept (refused, l) w job executor kwargs m start finish e =
      blocked-Kept (record w { locks = l }) job finish
        (same-Kept w (record w { locks = l }) refl refl e)
  with-Kept (obtained h, l) w job executor kwargs m start finish e =
      held-Kept (record w { locks = l }) job h executor kwargs m start finish
        (same-Kept w (record w { locks = l }) refl refl e)
  with-Kept (interrupted, l) w job executor kwargs m start finish e =
      same-Kept w (record w { locks = l }) refl refl e

  pub execute-Kept :
      (w : World C L) (job : AccessJob C) (executor : Dict Text Value → Execution C L)
      (kwargs : Dict Text Value) (m : Option (Dict Text Value)) (start finish : ℕ)
      → Kept w
      → Kept (execute_existing_job C L w job executor kwargs m start finish).1
  unfolding execute_existing_job
  execute-Kept w job executor kwargs m start finish e =
      with-Kept (L.acquire w.locks job.lock_scope) w job executor kwargs m start finish e
