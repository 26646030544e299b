-- ===== src/AccessJobs/Execute/Cleanup.antt =====
-- src/access_jobs.py `_execute_existing_job`: when the lock is given back.
use plaidify.Base.{ℕ, ◌≡◌, ◌≢◌, refl, ap, ◌∙◌, Option, none, some, List, [], ◌∷◌}
use plaidify.Base.Dict.{Dict}
use plaidify.Base.Text.{Text}
use plaidify.Json.{Value, Codec}
use plaidify.AccessJobs.Locking.{Locking, Acquire, obtained, refused, interrupted}
use plaidify.AccessJobs.Job.{AccessJob, result_metadata, completed, merge_metadata}
use plaidify.AccessJobs.Execute.{
  World, Outcome, finished, cancelled_error, mfa_error, plaidify_error, other_error, Execution,
  Commit, committed, unrefreshed, undone, broken, raise, database_error, cancellation,
  audited_after, finish_after, run_held, Left, returned, raising, Raised, plaidify_raised,
  PolicyEvent, audited, finish_audited, commit, with_events, with_lock, after_execution,
  execution_kwargs, persist_job, record_policy_audit_if_needed, handle, complete, execute_held,
  execute_blocked, execute_existing_job, completing, running_state, completed_state, remove_session,
  leave, release_lock,
}

module _ (C : Codec) (L : Locking) where
  persist-locks : (w : World C L) (job : AccessJob C) → (persist_job C L w job).2.locks ≡ w.locks
  unfolding persist_job
  persist-locks w job = split w.commits
    where
      split : (cs : List Commit) → (commit C L cs w job).2.locks ≡ w.locks
      split [] = refl
      split (committed ∷ cs) = refl
      split (unrefreshed ∷ cs) = refl
      split (undone ∷ cs) = refl
      split (broken ∷ cs) = refl

  remove-locks : (s : Option Text) (w : World C L) → (remove_session C L s w).locks ≡ w.locks
  remove-locks none w = refl
  remove-locks (some s) w = refl

  audited-locks :
      (events : Option (List PolicyEvent)) (w : World C L) (exc : Raised)
      → (audited C L events w exc).0.locks ≡ w.locks
  audited-locks none w exc = refl
  audited-locks (some events) w exc = refl

  audited_after-locks :
      (c : Commit) (events : Option (List PolicyEvent)) (w : World C L) (exc : Raised)
      → (audited_after C L c events w exc).0.locks ≡ w.locks
  audited_after-locks committed events w exc = audited-locks events w exc
  audited_after-locks unrefreshed events w exc = audited-locks events w exc
  audited_after-locks undone events w exc = audited-locks events w exc
  audited_after-locks broken events w exc = refl

  handle-locks :
      (w : World C L) (job : AccessJob C) (o : Outcome) (m : Option (Dict Text Value)) (now : ℕ)
      → (handle C L w job o m now).0.locks ≡ w.locks
  unfolding handle
  handle-locks w job (finished result) m now = refl
  handle-locks w job cancelled_error m now = persist-locks _ _ ∙ remove-locks job.session_id w
  handle-locks w job (mfa_error a b c) m now = persist-locks _ _
  handle-locks w job (plaidify_error a b) m now =
      audited_after-locks _ _ _ (plaidify_raised a)
      ∙ persist-locks _ _
      ∙ remove-locks job.session_id w
  handle-locks w job (other_error a) m now = persist-locks _ _ ∙ remove-locks job.session_id w

  finished-locks :
      (events : Option (List PolicyEvent)) (w : World C L) (job : AccessJob C)
      (result : Dict Text Value)
      → (finish_audited C L events w job result).1.locks ≡ w.locks
  finished-locks none w job result = refl
  finished-locks (some events) w job result = remove-locks job.session_id (with_events C L events w)

  finish_after-locks :
      (c : Commit) (events : Option (List PolicyEvent)) (w : World C L) (job : AccessJob C)
      (result : Dict Text Value)
      → (finish_after C L c events w job result).1.locks ≡ w.locks
  finish_after-locks committed events w job result = finished-locks events w job result
  finish_after-locks unrefreshed events w job result = finished-locks events w job result
  finish_after-locks undone events w job result = finished-locks events w job result
  finish_after-locks broken events w job result = refl

  completing-locks :
      (extra : Option (Dict Text Value)) (w : World C L) (job : AccessJob C)
      (result : Dict Text Value) (m : Option (Dict Text Value)) (now : ℕ)
      → (completing C L extra w job result m now).1.locks ≡ w.locks
  completing-locks none w job result m now = refl
  completing-locks (some extra) w job result m now =
      let merged = merge_metadata m (some extra) in
      let q = persist_job C L w (completed_state C L job merged result now) in
      finish_after-locks q.0 (record_policy_audit_if_needed C L q.1 merged completed) q.2 q.1 result
      ∙ persist-locks w (completed_state C L job merged result now)

  complete-locks :
      (w : World C L) (job : AccessJob C) (result : Dict Text Value) (m : Option (Dict Text Value))
      (now : ℕ)
      → (complete C L w job result m now).1.locks ≡ w.locks
  unfolding complete
  complete-locks w job result m now = completing-locks (result_metadata result) w job result m now

  leave-locks :
      (h : L.Handle) (job : AccessJob C) (m : Option (Dict Text Value)) (now : ℕ) (w : World C L)
      (left : Left)
      → (leave C L h job m now (w, left)).1.locks ≡ L.release h w.locks
  leave-locks h job m now w (returned result) =
      complete-locks (release_lock C L h w) job result m now
  leave-locks h job m now w (raising exc) = refl

  -- The ways through `_execute_existing_job`.
  pub with_lock_held :
      (p : Acquire L.Handle × L.State) (h : L.Handle) (w : World C L) (job : AccessJob C)
      (executor : Dict Text Value → Execution C L) (kwargs : Dict Text Value)
      (m : Option (Dict Text Value)) (start finish : ℕ)
      → p.0 ≡ obtained h
      → with_lock C L p w job executor kwargs m start finish
        ≡ execute_held C L (record w { locks = p.1 }) job h executor kwargs m start finish
  with_lock_held (refused, l) h w job executor kwargs m start finish e = absurd cc
  with_lock_held (interrupted, l) h w job executor kwargs m start finish e = absurd cc
  with_lock_held (obtained g, l) h w job executor kwargs m start finish e =
      let same : g ≡ h = cc in
      ap (λ k. execute_held C L (record w { locks = l }) job k executor kwargs m start finish) same

  pub with_lock_blocked :
      (p : Acquire L.Handle × L.State) (w : World C L) (job : AccessJob C)
      (executor : Dict Text Value → Execution C L) (kwargs : Dict Text Value)
      (m : Option (Dict Text Value)) (start finish : ℕ)
      → p.0 ≡ refused
      → with_lock C L p w job executor kwargs m start finish
        ≡ execute_blocked C L (record w { locks = p.1 }) job finish
  with_lock_blocked (refused, l) w job executor kwargs m start finish e = refl
  with_lock_blocked (interrupted, l) w job executor kwargs m start finish e = absurd cc
  with_lock_blocked (obtained g, l) w job executor kwargs m start finish e = absurd cc

  pub with_lock_interrupted :
      (p : Acquire L.Handle × L.State) (w : World C L) (job : AccessJob C)
      (executor : Dict Text Value → Execution C L) (kwargs : Dict Text Value)
      (m : Option (Dict Text Value)) (start finish : ℕ)
      → p.0 ≡ interrupted
      → with_lock C L p w job executor kwargs m start finish
        ≡ (raise cancellation, record w { locks = p.1 })
  with_lock_interrupted (interrupted, l) w job executor kwargs m start finish e = refl
  with_lock_interrupted (refused, l) w job executor kwargs m start finish e = absurd cc
  with_lock_interrupted (obtained g, l) w job executor kwargs m start finish e = absurd cc

  -- The lock is given back, once and with its handle, after all that is done to the locks meanwhile.
  abbrev pub GivenBack : L.Handle → (Dict Text Value → Execution C L) → L.State → L.State → Type 0
  GivenBack h executor before after =
      (k : Dict Text Value) × (after ≡ L.release h ((executor k).locks before))

  run_held-locks :
      (c : Commit) (job : AccessJob C) (w : World C L) (h : L.Handle)
      (executor : Dict Text Value → Execution C L) (kwargs : Dict Text Value)
      (m : Option (Dict Text Value)) (finish : ℕ)
      → let after = run_held C L c job w h executor kwargs m finish in
        (c ≢ broken → GivenBack h executor w.locks after.1.locks)
        × (c ≡ broken → (after.0 ≡ raise database_error) × (after.1 ≡ w))
  run_held-locks c job w h executor kwargs m finish = by_commit c
    where
      ran :
          (r : World C L × Left)
          → r.0.locks ≡ (executor (execution_kwargs C L job kwargs)).locks w.locks
          → GivenBack h executor w.locks (leave C L h job m finish r).1.locks
      ran r e =
          (execution_kwargs C L job kwargs, leave-locks h job m finish r.0 r.1 ∙ ap (L.release h) e)

      tried :
          GivenBack h executor w.locks
            (run_held C L committed job w h executor kwargs m finish).1.locks
      tried =
          let x = executor (execution_kwargs C L job kwargs) in
          ran (handle C L (after_execution C L x w) job x.outcome m finish)
            (handle-locks (after_execution C L x w) job x.outcome m finish)

      by_commit :
          (c : Commit)
          → let after = run_held C L c job w h executor kwargs m finish in
            (c ≢ broken → GivenBack h executor w.locks after.1.locks)
            × (c ≡ broken → (after.0 ≡ raise database_error) × (after.1 ≡ w))
      by_commit committed = (λ n. tried, λ e. absurd cc)
      by_commit unrefreshed = (λ n. tried, λ e. absurd cc)
      by_commit undone = (λ n. tried, λ e. absurd cc)
      by_commit broken = (λ n. absurd (n refl), λ e. (refl, refl))

  held-locks :
      (w : World C L) (job : AccessJob C) (h : L.Handle)
      (executor : Dict Text Value → Execution C L) (kwargs : Dict Text Value)
      (m : Option (Dict Text Value)) (start finish : ℕ)
      → let first = (persist_job C L w (running_state C L job start)).0 in
        let after = execute_held C L w job h executor kwargs m start finish in
        (first ≢ broken → GivenBack h executor w.locks after.1.locks)
        × (first ≡ broken → (after.0 ≡ raise database_error) × (after.1.locks ≡ w.locks))
  unfolding execute_held
  held-locks w job h executor kwargs m start finish =
      let q = persist_job C L w (running_state C L job start) in
      let kept = persist-locks w (running_state C L job start) in
      let ran = run_held-locks q.0 q.1 q.2 h executor kwargs m finish in
      (
        λ n. let (k, e) = ran.0 n in (k, e ∙ ap (λ l. L.release h ((executor k).locks l)) kept),
        λ b. let (r, e) = ran.1 b in (r, ap (λ (v : World C L). v.locks) e ∙ kept),
      )

  blocked-locks :
      (w : World C L) (job : AccessJob C) (now : ℕ)
      → (execute_blocked C L w job now).1.locks ≡ w.locks
  unfolding execute_blocked
  blocked-locks w job now = persist-locks w _

  -- A lock that was obtained is given back on every path but one: whatever the executor does, however
  -- it ends and whichever later writes fail or raise, the last thing that is done to the locks is one
  -- release with the handle that was obtained, on the locks as the executor's run left them. The path
  -- left out is that the write of the running job raises: that error goes on, and the locks stay as the
  -- acquisition left them. A lock that was refused, or whose acquisition was cancelled, is not released
  -- either.
  pub execute-locks :
      (w : World C L) (job : AccessJob C) (executor : Dict Text Value → Execution C L)
      (kwargs : Dict Text Value) (m : Option (Dict Text Value)) (start finish : ℕ)
      → let result = execute_existing_job C L w job executor kwargs m start finish in
        let taken = L.acquire w.locks job.lock_scope in
        let first =
          (persist_job C L (record w { locks = taken.1 }) (running_state C L job start)).0 in
        ((h : L.Handle)
          → taken.0 ≡ obtained h
          → (first ≢ broken → GivenBack h executor taken.1 result.1.locks)
            × (first ≡ broken → (result.0 ≡ raise database_error) × (result.1.locks ≡ taken.1)))
        × (taken.0 ≡ refused → result.1.locks ≡ taken.1)
        × (taken.0 ≡ interrupted → result.1.locks ≡ taken.1)
  unfolding execute_existing_job
  execute-locks w job executor kwargs m start finish =
      let taken = L.acquire w.locks job.lock_scope in
      let w' = record w { locks = taken.1 } in
      (
        λ h e.
            rw (with_lock_held taken h w job executor kwargs m start finish e)
              (held-locks w' job h executor kwargs m start finish),
        λ e.
            rw (with_lock_blocked taken w job executor kwargs m start finish e)
              (blocked-locks w' job finish),
        λ e. rw (with_lock_interrupted taken w job executor kwargs m start finish e) refl,
      )
