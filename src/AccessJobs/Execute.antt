-- ===== src/AccessJobs/Execute.antt =====
-- src/access_jobs.py: `_persist_job`, `_record_policy_audit_if_needed` and `_execute_existing_job`.
-- The executor is any function from the keyword arguments to what it does and how it ends.
pub mod Outcomes
pub mod Cleanup
pub mod Preserved
use plaidify.Base.{
  ℕ, ◌≡◌, Bool, true, false, not, Option, none, some, List, [], ◌∷◌, ◌++◌, filterb, if◌then◌else◌,
  ◌==◌, nat_eq,
}
use plaidify.Base.Compare.{list_eq}
use plaidify.Base.Dict.{Dict, lookup, insert}
use plaidify.Base.Text.{Text, lit}
use plaidify.Json.{Value, null, text, obj, to_dict, truthy, Codec}
use plaidify.AccessJobs.Scope.{scope_site}
use plaidify.AccessJobs.Locking.{Locking, Acquire, obtained, refused, interrupted}
use plaidify.AccessJobs.Job.{
  AccessJob, JobStatus, pending, running, completed, mfa_required, blocked, failed, cancelled,
  Change, no_change, apply_job_state, merge_metadata, result_metadata, blocked_count,
  blocked_actions,
}

-- The audit event that `_record_policy_audit_if_needed` records.
pub record PolicyEvent : Type 0 where
  pub user_id : Option ℕ
  pub agent_id : Option Value
  pub resource : Text
  pub site : Text
  pub job_type : Text
  pub status : JobStatus
  pub blocked_action_count : Value
  pub blocked_actions : Value

-- How the executor ends: with a result, cancelled, or with one of the exceptions that are told apart.
pub data Outcome : Type 0 where
  finished : Dict Text Value → Outcome
  cancelled_error : Outcome
  mfa_error : Text → Text → Text → Outcome  -- `mfa_type`, `session_id`, `message`
  plaidify_error : Text → Option (Dict Text Value) → Outcome  -- `message`, `metadata`
  other_error : Text → Outcome

-- How a write of `_persist_job` ends: all went well; the row was written and reading it again failed;
-- the write failed and was undone; or the rollback, or what is logged of it, raises too.
pub data Commit : Type 0 where
  committed unrefreshed undone broken : Commit

-- What `_execute_existing_job` raises.
pub data Raised : Type 0 where
  concurrent_access : Text → Raised
  cancellation : Raised
  mfa_required_for : Text → Raised  -- the `job_id` set on the exception
  plaidify_raised : Text → Raised
  unexpected : Text → Raised
  type_error : Raised
  database_error : Raised

-- How the `try` statement is left: with the executor's result, or with an exception.
pub data Left : Type 0 where
  returned : Dict Text Value → Left
  raising : Raised → Left

abbrev pub conflict_message : Text → Text
conflict_message site =
    lit "Another access job is already in progress for site: "
    ++ (site ++ lit ". Retry after the current session completes.")

abbrev pub cancel_message : Text
cancel_message = lit "Access job cancelled before completion."

abbrev pub text_or : Text → Option Text → Option Text
text_or [] old = old
text_or (c ∷ t) old = some (c ∷ t)

module _ (C : Codec) (L : Locking) where
  -- The table of jobs, how each coming write ends (all that are not listed end well), the locks,
  -- the MFA sessions and the audit events.
  pub record World : Type 0 where
    pub rows : Dict Text (AccessJob C)
    pub commits : List Commit
    pub locks : L.State
    pub sessions : List Text
    pub audit : List PolicyEvent

  -- After a rollback the attributes of the object are read from the row again.
  abbrev pub reloaded : Option (AccessJob C) → AccessJob C → AccessJob C
  reloaded none job = job
  reloaded (some row) job = row

  abbrev pub commit : List Commit → World → AccessJob C → Commit × AccessJob C × World
  commit [] w job = (committed, job, record w { rows = insert job.id job w.rows })
  commit (committed ∷ later) w job =
      (committed, job, record w { rows = insert job.id job w.rows; commits = later })
  commit (unrefreshed ∷ later) w job =
      (unrefreshed, job, record w { rows = insert job.id job w.rows; commits = later })
  commit (undone ∷ later) w job =
      (undone, reloaded (lookup job.id w.rows) job, record w { commits = later })
  commit (broken ∷ later) w job = (broken, job, record w { commits = later })

  -- `_persist_job`: how it ends, the object and the world. With `strict` all but `committed` is raised,
  -- without it `broken` alone.
  unfoldable pub persist_job : World → AccessJob C → Commit × AccessJob C × World
  unfolding insert lookup
  persist_job w job = commit w.commits w job

  -- `get_mfa_manager().remove_session(session_id)`
  abbrev pub remove_session : Option Text → World → World
  remove_session none w = w
  remove_session (some s) w = record w { sessions = filterb (λ t. not (t == s)) w.sessions }

  -- `_record_policy_audit_if_needed`: the events that it records; `none` is a `TypeError`.
  abbrev pub policy_audit :
      AccessJob C → Option Value → JobStatus → Option Value → Option (List PolicyEvent)
  policy_audit job agent status (some (obj fs)) = elim (blocked_count (to_dict fs)) [
    | none ↦ none
    | some count ↦
        if truthy count
        then some (
            record {
              user_id = job.user_id;
              agent_id = agent;
              resource = job.id;
              site = job.site;
              job_type = job.job_type;
              status = status;
              blocked_action_count = count;
              blocked_actions = blocked_actions (to_dict fs);
            }
            ∷ [])
        else some []
  ]
  policy_audit job agent status _ = some []

  unfoldable pub record_policy_audit_if_needed :
      AccessJob C → Option (Dict Text Value) → JobStatus → Option (List PolicyEvent)
  unfolding blocked_count lookup
  record_policy_audit_if_needed job none status = some []
  record_policy_audit_if_needed job (some m) status =
      policy_audit job (lookup (lit "agent_id") m) status (lookup (lit "read_only_policy") m)

  abbrev pub with_events : List PolicyEvent → World → World
  with_events events w = record w { audit = events ++ w.audit }

  -- What the executor does beside its outcome: to the MFA sessions, and what other tasks do to the
  -- locks while it runs.
  pub record Execution : Type 0 where
    pub outcome : Outcome
    pub sessions : List Text → List Text
    pub locks : L.State → L.State

  abbrev pub ended : ℕ → Text → Change C
  ended now message = record (no_change C) { completed_at = some now; error_message = some message }

  abbrev pub audited : Option (List PolicyEvent) → World → Raised → World × Left
  audited none w exc = (w, raising type_error)
  audited (some events) w exc = (with_events events w, raising exc)

  -- What goes on after `_persist_job` in an `except` clause: its own exception, or the clause's.
  abbrev pub after_persist : Commit → Raised → Raised
  after_persist broken exc = database_error
  after_persist _ exc = exc

  abbrev pub audited_after : Commit → Option (List PolicyEvent) → World → Raised → World × Left
  audited_after broken events w exc = (w, raising database_error)
  audited_after _ events w exc = audited events w exc

  -- The job as each branch stores it.
  abbrev pub running_state : AccessJob C → ℕ → AccessJob C
  running_state job now =
      apply_job_state C job running (record (no_change C) { started_at = some now })

  abbrev pub blocked_state : AccessJob C → ℕ → AccessJob C
  blocked_state job now =
      apply_job_state C job blocked (ended now (conflict_message (scope_site job.lock_scope)))

  abbrev pub cancelled_state : AccessJob C → ℕ → AccessJob C
  cancelled_state job now = apply_job_state C job cancelled (ended now cancel_message)

  abbrev pub mfa_state :
      AccessJob C → Text → Text → Text → Option (Dict Text Value) → ℕ → AccessJob C
  mfa_state job mfa_type session_id message metadata now =
      apply_job_state C job mfa_required (record (ended now message) {
        session_id = text_or session_id job.session_id;
        metadata = merge_metadata metadata (some ((lit "mfa_type", text mfa_type) ∷ []));
      })

  abbrev pub failed_state : AccessJob C → Text → Option (Dict Text Value) → ℕ → AccessJob C
  failed_state job message metadata now =
      apply_job_state C job failed (record (ended now message) { metadata = metadata })

  -- The `except` clauses, up to the `finally`.
  unfoldable pub handle :
      World → AccessJob C → Outcome → Option (Dict Text Value) → ℕ → World × Left
  unfolding persist_job apply_job_state record_policy_audit_if_needed
  handle w job (finished result) metadata now = (w, returned result)
  handle w job cancelled_error metadata now =
      let (c, _, w') = persist_job (remove_session job.session_id w) (cancelled_state job now) in
      (w', raising (after_persist c cancellation))
  handle w job (mfa_error mfa_type session_id message) metadata now =
      let (c, _, w') = persist_job w (mfa_state job mfa_type session_id message metadata now) in
      (w', raising (after_persist c (mfa_required_for job.id)))
  handle w job (plaidify_error message error_metadata) metadata now =
      let merged = merge_metadata metadata error_metadata in
      let (c, job', w') =
        persist_job (remove_session job.session_id w) (failed_state job message merged now) in
      audited_after c (record_policy_audit_if_needed job' merged failed) w'
        (plaidify_raised message)
  handle w job (other_error message) metadata now =
      let (c, _, w') =
        persist_job (remove_session job.session_id w) (failed_state job message none now) in
      (w', raising (after_persist c (unexpected message)))

  pub data ExecResult : Type 0 where
    done : AccessJob C → Dict Text Value → ExecResult
    raise : Raised → ExecResult

  abbrev pub finish_audited :
      Option (List PolicyEvent) → World → AccessJob C → Dict Text Value → ExecResult × World
  finish_audited none w job result = (raise type_error, w)
  finish_audited (some events) w job result =
      (done job result, remove_session job.session_id (with_events events w))

  abbrev pub finish_after :
      Commit
      → Option (List PolicyEvent)
      → World
      → AccessJob C
      → Dict Text Value
      → ExecResult × World
  finish_after broken events w job result = (raise database_error, w)
  finish_after _ events w job result = finish_audited events w job result

  abbrev pub completed_state :
      AccessJob C → Option (Dict Text Value) → Dict Text Value → ℕ → AccessJob C
  completed_state job merged result now =
      apply_job_state C job completed
        (record (no_change C) { completed_at = some now; metadata = merged; result = some result })

  abbrev pub completing :
      Option (Dict Text Value)
      → World
      → AccessJob C
      → Dict Text Value
      → Option (Dict Text Value)
      → ℕ
      → ExecResult × World
  completing none w job result metadata now = (raise type_error, w)
  completing (some extra) w job result metadata now =
      let merged = merge_metadata metadata (some extra) in
      let (c, job', w') = persist_job w (completed_state job merged result now) in
      finish_after c (record_policy_audit_if_needed job' merged completed) w' job' result

  -- Behind the `finally`: the result is stored.
  unfoldable pub complete :
      World → AccessJob C → Dict Text Value → Option (Dict Text Value) → ℕ → ExecResult × World
  unfolding persist_job apply_job_state record_policy_audit_if_needed
  complete w job result metadata now = completing (result_metadata result) w job result metadata now

  abbrev pub release_lock : L.Handle → World → World
  release_lock h w = record w { locks = L.release h w.locks }

  abbrev pub leave :
      L.Handle → AccessJob C → Option (Dict Text Value) → ℕ → World × Left → ExecResult × World
  leave h job metadata now (w, returned result) =
      complete (release_lock h w) job result metadata now
  leave h job metadata now (w, raising exc) = (raise exc, release_lock h w)

  -- `execution_kwargs.setdefault("session_id", job.session_id)`
  abbrev pub session_value : Option Text → Value
  session_value none = null
  session_value (some s) = text s

  abbrev pub setdefault : Option Value → Text → Value → Dict Text Value → Dict Text Value
  setdefault (some v) k default d = d
  setdefault none k default d = insert k default d

  unfoldable pub execution_kwargs : AccessJob C → Dict Text Value → Dict Text Value
  unfolding insert lookup
  execution_kwargs job kwargs =
      setdefault (lookup (lit "session_id") kwargs) (lit "session_id")
        (session_value job.session_id) kwargs

  -- What the executor does to the world while it runs.
  abbrev pub after_execution : Execution → World → World
  after_execution x w = record w { sessions = x.sessions w.sessions; locks = x.locks w.locks }

  -- The `try` statement and what follows it, unless the write before it raises: then nothing gives the
  -- lock back.
  abbrev pub run_held :
      Commit
      → AccessJob C
      → World
      → L.Handle
      → (Dict Text Value → Execution)
      → Dict Text Value
      → Option (Dict Text Value)
      → ℕ
      → ExecResult × World
  run_held broken job w h executor kwargs metadata finish = (raise database_error, w)
  run_held _ job w h executor kwargs metadata finish =
      let x = executor (execution_kwargs job kwargs) in
      leave h job metadata finish (handle (after_execution x w) job x.outcome metadata finish)

  -- From the held lock on.
  unfoldable pub execute_held :
      World
      → AccessJob C
      → L.Handle
      → (Dict Text Value → Execution)
      → Dict Text Value
      → Option (Dict Text Value)
      → ℕ
      → ℕ
      → ExecResult × World
  unfolding persist_job apply_job_state handle complete execution_kwargs
  execute_held w job h executor kwargs metadata start finish =
      let (c, job', w') = persist_job w (running_state job start) in
      run_held c job' w' h executor kwargs metadata finish

  unfoldable pub execute_blocked : World → AccessJob C → ℕ → ExecResult × World
  unfolding persist_job apply_job_state scope_site
  execute_blocked w job now =
      let (c, _, w') = persist_job w (blocked_state job now) in
      (raise (after_persist c (concurrent_access (scope_site job.lock_scope))), w')

  abbrev pub with_lock :
      Acquire L.Handle × L.State
      → World
      → AccessJob C
      → (Dict Text Value → Execution)
      → Dict Text Value
      → Option (Dict Text Value)
      → ℕ
      → ℕ
      → ExecResult × World
  with_lock (refused, locks) w job executor kwargs metadata start finish =
      execute_blocked (record w { locks = locks }) job finish
  with_lock (obtained h, locks) w job executor kwargs metadata start finish =
      execute_held (record w { locks = locks }) job h executor kwargs metadata start finish
  with_lock (interrupted, locks) w job executor kwargs metadata start finish =
      (raise cancellation, record w { locks = locks })

  -- `_execute_existing_job`; `start` and `finish` are the times that it reads.
  unfoldable pub execute_existing_job :
      World
      → AccessJob C
      → (Dict Text Value → Execution)
      → Dict Text Value
      → Option (Dict Text Value)
      → ℕ
      → ℕ
      → ExecResult × World
  unfolding execute_held execute_blocked
  execute_existing_job w job executor kwargs metadata start finish =
      with_lock (L.acquire w.locks job.lock_scope) w job executor kwargs metadata start finish
