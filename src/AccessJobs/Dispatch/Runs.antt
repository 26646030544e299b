-- ===== src/AccessJobs/Dispatch/Runs.antt =====
-- src/access_jobs.py `process_dispatched_access_job`: the status that a worker leaves when it runs a job.
use plaidify.Base.{
  ℕ, ◌≡◌, subst, ap, ◌∙◌, true, false, some, [], if◌then◌else◌, nat_eq, Bool-cases, inl, inr,
}
use plaidify.Base.Compare.{list_eq}
use plaidify.Base.Dict.{Dict, lookup, insert}
use plaidify.Base.Text.{Text, lit}
use plaidify.Json.{Value, Codec}
use plaidify.Redis.{Redis}
use plaidify.AccessJobs.Locking.{Locking, obtained}
use plaidify.AccessJobs.Job.{AccessJob, JobStatus, failed, apply_job_state, deserialize_metadata}
use plaidify.AccessJobs.Execute.{
  World, ExecResult, done, raise, Raised, type_error, execute_existing_job, execution_kwargs,
  running_state, ended,
}
use plaidify.AccessJobs.Execute.Cleanup.{with_lock_held}
use plaidify.AccessJobs.Execute.Outcomes.{
  Stored, final_status, execute-Stored, persist_clean, inserted-Stored,
}
use plaidify.AccessJobs.Dispatch.{
  Message, Streams, loaded, is_open, job_id_of, Shop, Worker, Executor, mark_job, settle, ended_by,
  ended_with, execute_background_job, attempt, process_message, load_dispatch_payload,
  ack_dispatched_message, delete_dispatch_payload,
}
use plaidify.AccessJobs.Dispatch.Payload.{Cipher}
use plaidify.AccessJobs.Dispatch.Settled.{Sound, held_open, execute-Sound}
use plaidify.AccessJobs.Dispatch.Runnable.{Runnable}

-- The status that a worker leaves: a job which an error in its metadata left running is failed.
abbrev pub closed_status : JobStatus → JobStatus
closed_status st = if is_open st then failed else st

module _ (C : Codec) (L : Locking) (S : Streams) (R : Redis (Codec.Blob C)) (K : Cipher)
    (wk : Worker C L S R K) where
  abbrev pub run_status : AccessJob C → Executor C L S R K → Dict Text Value → JobStatus
  run_status job executor kwargs =
      final_status
        (executor (execution_kwargs C L (running_state C L job (Worker.start wk)) kwargs)).outcome

module _ (C : Codec) (L : Locking) (S : Streams) (R : Redis (Codec.Blob C)) (K : Cipher)
    (wk : Worker C L S R K) (marks : Worker.mark_raises wk ≡ false) where
  mark_open :
      (now : ℕ) (id message : Text) (w : World C L) (row : AccessJob C)
      → w.commits ≡ []
      → lookup id w.rows ≡ some row
      → row.id ≡ id
      → is_open row.status ≡ true
      → Stored C L (mark_job C L S R K failed (Worker.mark_raises wk) now id message w).1 id failed
  unfolding mark_job apply_job_state
  mark_open now id message w row clean there own e =
      let job = apply_job_state C row failed (ended C L now message) in
      rw (marks, there, e, persist_clean C L w job clean)
        (subst (λ i. Stored C L (record w { rows = insert job.id job w.rows }) i failed) own
          (inserted-Stored C L w job))

  mark_closed :
      (now : ℕ) (id message : Text) (w : World C L) (st : JobStatus)
      → Stored C L w id st
      → is_open st ≡ false
      → Stored C L (mark_job C L S R K failed (Worker.mark_raises wk) now id message w).1 id st
  unfolding mark_job
  mark_closed now id message w st (row, there, e) closed =
      rw (marks, there, ap is_open e ∙ closed) (row, there, e)

  settle_closed :
      (id : Text) (r : ExecResult C L × World C L) (st : JobStatus)
      → Stored C L r.1 id st
      → is_open st ≡ false
      → Stored C L (settle C L S R K wk id (ended_with C L S R K wk r)).1 id st
  settle_closed id (done job result, w) st h closed = h
  settle_closed id (raise exc, w) st h closed = by_error exc
    where
      by_error :
          (exc : Raised)
          → Stored C L (settle C L S R K wk id (ended_by C L S R K wk exc, w)).1 id st
      by_error (Raised.concurrent_access site) = mark_closed _ id _ w st h closed
      by_error Raised.cancellation = h
      by_error (Raised.mfa_required_for j) = h
      by_error (Raised.plaidify_raised m) = mark_closed _ id _ w st h closed
      by_error (Raised.unexpected m) = mark_closed _ id _ w st h closed
      by_error type_error = mark_closed _ id _ w st h closed
      by_error Raised.database_error = mark_closed _ id _ w st h closed

  settle_open :
      (id : Text) (r : ExecResult C L × World C L) (st : JobStatus)
      → r.0 ≡ raise type_error
      → Sound C L r.1
      → Stored C L r.1 id st
      → is_open st ≡ true
      → Stored C L (settle C L S R K wk id (ended_with C L S R K wk r)).1 id failed
  settle_open id (e, w) st h sound (row, there, at) open_st =
      rw h (mark_open _ id _ w row sound.0 there (sound.1 id row there) (ap is_open at ∙ open_st))

  background-Stored :
      (id : Text) (executor : Executor C L S R K) (kwargs : Dict Text Value) (w : World C L)
      (row : AccessJob C) (h : L.Handle)
      → Sound C L w
      → lookup id w.rows ≡ some row
      → (L.acquire w.locks row.lock_scope).0 ≡ obtained h
      → Stored C L
          (settle C L S R K wk id (execute_background_job C L S R K wk id executor kwargs w)).1
          id
          (closed_status (run_status C L S R K wk row executor kwargs))
  unfolding execute_background_job execute_existing_job
  background-Stored id executor kwargs w row h sound there free =
      let m = deserialize_metadata C row.metadata_json in
      let start = Worker.start wk in
      let finish = Worker.finish wk in
      let r = execute_existing_job C L w row executor kwargs m start finish in
      let st = run_status C L S R K wk row executor kwargs in
      let own = sound.1 id row there in
      let stored =
        subst (λ i. Stored C L r.1 i st) own
          ((execute-Stored C L w row executor kwargs m start finish sound.0).0 h free) in
      rw there (elim (Bool-cases (is_open st)) [
        | inl o ↦ rw o (
            settle_open id r st
              (rw
                (with_lock_held C L (L.acquire w.locks row.lock_scope) h w row executor kwargs m
                  start finish free)
                (held_open C L (record w { locks = (L.acquire w.locks row.lock_scope).1 }) row h
                  executor kwargs m start finish sound.0 o))
              (execute-Sound C L w row executor kwargs m start finish sound) stored o)
        | inr o ↦ rw o (settle_closed id r st stored o)
      ])

  -- When the lock of a job's site is free, a worker that claims the job's message and can read its
  -- payload runs the executor that the payload names, and leaves the row in the status of how it ended.
  pub process_message-runs :
      (m : Message) (s : Shop C L S R K) (id : Text) (row : AccessJob C) (payload : Dict Text Value)
      (x : Runnable C L S R K wk payload) (h : L.Handle)
      → Sound C L (Shop.world s)
      → job_id_of (lookup (lit "job_id") m.1) ≡ some id
      → lookup id (Shop.world s).rows ≡ some row
      → load_dispatch_payload C L S R K (Worker.now wk) id s ≡ loaded payload
      → (L.acquire (Shop.world s).locks row.lock_scope).0 ≡ obtained h
      → Stored C L
          (Shop.world (process_message C L S R K wk m s).1)
          id
          (closed_status (run_status C L S R K wk row x.executor x.kwargs))
  unfolding process_message attempt ack_dispatched_message delete_dispatch_payload
  process_message-runs (message_id, fields) s id row payload x h sound named there read free =
      rw (named, read, x.named, x.resolved, x.given, x.decrypted)
        (background-Stored id x.executor x.kwargs (Shop.world s) row h sound there free)
