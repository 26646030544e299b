-- ===== src/AccessJobs/Create.antt =====
-- src/access_jobs.py: how a job is made and run at once, and what a caller is shown of it. The ids are
-- arguments, since `uuid4` draws them.
use plaidify.Base.{ℕ, ◌≡◌, refl, Option, none, some, [], ◌∷◌, nat_eq}
use plaidify.Base.Compare.{list_eq}
use plaidify.Base.Dict.{Dict, lookup, insert}
use plaidify.Base.Text.{Text, lit}
use plaidify.Json.{Value, null, text, Codec}
use plaidify.AccessJobs.Locking.{Locking, obtained, refused}
use plaidify.AccessJobs.Scope.{Platform, build_lock_scope, scope_site}
use plaidify.AccessJobs.Job.{
  AccessJob, JobStatus, pending, running, mfa_required, blocked, serialize_metadata,
  deserialize_metadata, update,
}
use plaidify.AccessJobs.Execute.{
  World, Commit, committed, Execution, ExecResult, raise, concurrent_access, persist_job,
  execute_existing_job, execution_kwargs, running_state,
}
use plaidify.AccessJobs.Execute.Outcomes.{Stored, final_status, execute-Stored, persist_clean}

-- The arguments of `_create_access_job`.
pub record Request : Type 0 where
  pub site : Text
  pub job_type : Text
  pub user_id : Option ℕ
  pub principal_hint : Option Text
  pub session_id : Option Text
  pub metadata : Option (Dict Text Value)

-- `session_id or _session_id()`
abbrev pub or_fresh : Text → Option Text → Text
or_fresh fresh (some (c ∷ t)) = c ∷ t
or_fresh fresh _ = fresh

module _ (C : Codec) (L : Locking) (p : Platform) where
  -- The job that `_create_access_job` makes, with the ids that it draws.
  unfoldable pub new_job : Text → Text → ℕ → Request → AccessJob C
  unfolding build_lock_scope serialize_metadata
  new_job fresh_id fresh_session now r = record {
    id = fresh_id;
    user_id = r.user_id;
    site = r.site;
    job_type = r.job_type;
    status = pending;
    lock_scope = build_lock_scope p r.site r.user_id r.principal_hint;
    session_id = some (or_fresh fresh_session r.session_id);
    metadata_json = serialize_metadata C r.metadata;
    result_json = none;
    error_message = none;
    created_at = now;
    started_at = none;
    completed_at = none;
  }

  abbrev strictly : Commit × AccessJob C × World C L → Option (AccessJob C) × World C L
  strictly (committed, job, w) = (some job, w)
  strictly (_, job, w) = (none, w)

  -- `_create_access_job`; `none` is the error of the database that it raises.
  unfoldable pub create_access_job :
      Text → Text → ℕ → Request → World C L → Option (AccessJob C) × World C L
  unfolding new_job persist_job
  create_access_job fresh_id fresh_session now r w =
      strictly (persist_job C L w (new_job fresh_id fresh_session now r))

  pub data RunResult : Type 0 where
    database_error : RunResult
    executed : ExecResult C L → RunResult

  -- `run_access_job`
  unfoldable pub run_access_job :
      Text
      → Text
      → ℕ
      → ℕ
      → ℕ
      → Request
      → (Dict Text Value → Execution C L)
      → Dict Text Value
      → World C L
      → RunResult × World C L
  unfolding create_access_job
  run_access_job fresh_id fresh_session now start finish r executor kwargs w =
      created (create_access_job fresh_id fresh_session now r w)
    where
      ran : ExecResult C L × World C L → RunResult × World C L
      ran (e, w') = (executed e, w')

      created : Option (AccessJob C) × World C L → RunResult × World C L
      created (none, w') = (database_error, w')
      created (some job, w') =
          ran (execute_existing_job C L w' job executor kwargs r.metadata start finish)

  -- When every commit succeeds, `run_access_job` leaves a row under the id it drew. If the lock of the
  -- site and the owner is free, the row has the status of how the executor ended, with the given
  -- arguments and the job's session; if it is held, the row is blocked, the executor is not run, and a
  -- `ConcurrentAccessError` that names the site is raised.
  pub run_access_job-Stored :
      (fresh_id fresh_session : Text) (now start finish : ℕ) (r : Request)
      (executor : Dict Text Value → Execution C L) (kwargs : Dict Text Value) (w : World C L)
      → w.commits ≡ []
      → let after = run_access_job fresh_id fresh_session now start finish r executor kwargs w in
        let scope = build_lock_scope p r.site r.user_id r.principal_hint in
        let job = new_job fresh_id fresh_session now r in
        ((h : L.Handle)
          → (L.acquire w.locks scope).0 ≡ obtained h
          → Stored C L after.1 fresh_id (
              final_status
                (executor (execution_kwargs C L (running_state C L job start) kwargs)).outcome))
        × ((L.acquire w.locks scope).0 ≡ refused
            → Stored C L after.1 fresh_id blocked
              × (after.0 ≡ executed (raise (concurrent_access (scope_site scope)))))
  unfolding run_access_job create_access_job new_job
  run_access_job-Stored fresh_id fresh_session now start finish r executor kwargs w clean =
      let job = new_job fresh_id fresh_session now r in
      let w' = record w { rows = insert fresh_id job w.rows } in
      let ends = execute-Stored C L w' job executor kwargs r.metadata start finish clean in
      rw (persist_clean C L w job clean)
        (ends.0, λ taken. let b = ends.1 taken in (b.0, rw b.1 refl))

-- What a job's caller is shown: `serialize_access_job`.
pub record JobView : Type 0 where
  pub job_id : Text
  pub site : Text
  pub job_type : Text
  pub status : JobStatus
  pub session_id : Option Text
  pub mfa_type : Value
  pub error_message : Option Text
  pub metadata : Option (Dict Text Value)
  pub result : Option (Dict Text Value)
  pub created_at : ℕ
  pub started_at : Option ℕ
  pub completed_at : Option ℕ

abbrev or_null : Option Value → Value
or_null none = null
or_null (some v) = v

abbrev mfa_type_of : Option (Dict Text Value) → Value
unfolding lookup
mfa_type_of none = null
mfa_type_of (some d) = or_null (lookup (lit "mfa_type") d)

-- The session of the MFA manager that is shown with a running job.
pub record LiveSession : Type 0 where
  pub mfa_type : Text
  pub metadata : Dict Text Value

abbrev entries : Option (Dict Text Value) → Dict Text Value
entries none = []
entries (some d) = d

abbrev or_none : Dict Text Value → Option (Dict Text Value)
or_none [] = none
or_none (kv ∷ d) = some (kv ∷ d)

module _ (C : Codec) where
  unfoldable pub serialize_access_job : AccessJob C → JobView
  unfolding deserialize_metadata lookup
  serialize_access_job job = record {
    job_id = job.id;
    site = job.site;
    job_type = job.job_type;
    status = job.status;
    session_id = job.session_id;
    mfa_type = mfa_type_of (deserialize_metadata C job.metadata_json);
    error_message = job.error_message;
    metadata = deserialize_metadata C job.metadata_json;
    result = deserialize_metadata C job.result_json;
    created_at = job.created_at;
    started_at = job.started_at;
    completed_at = job.completed_at;
  }

  -- `serialize_access_job_runtime`, with what `get_session` answers.
  unfoldable pub serialize_access_job_runtime : (Text → Option LiveSession) → AccessJob C → JobView
  unfolding serialize_access_job update
  serialize_access_job_runtime get_session job = overlay job.status job.session_id
    where
      payload : JobView
      payload = serialize_access_job job

      with_session : Option LiveSession → JobView
      with_session none = payload
      with_session (some s) = record payload {
        status = mfa_required;
        mfa_type = text s.mfa_type;
        metadata = or_none (update (update [] (entries payload.metadata)) s.metadata);
      }

      overlay : JobStatus → Option Text → JobView
      overlay running (some (c ∷ t)) = with_session (get_session (c ∷ t))
      overlay _ _ = payload
