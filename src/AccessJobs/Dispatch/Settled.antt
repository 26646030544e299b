-- ===== src/AccessJobs/Dispatch/Settled.antt =====
-- src/access_jobs.py: no job is left pending or running by the worker that processed its message.
use mathlib.Core.Option.{some-injective}
use plaidify.Base.{
  ℕ, ◌≡◌, ◌≢◌, refl, subst, sym, ap, ◌∙◌, Bool, true, false, ◌⊎◌, Option, none, some, [], ◌==◌,
  ==_iff, nat_eq, Option-cases, Bool-cases, inl, inr,
}
use plaidify.Base.Compare.{list_eq}
use plaidify.Base.Dict.{Dict, lookup, insert, lookup-insert}
use plaidify.Base.Text.{Text, lit}
use plaidify.Json.{Value, Codec}
use plaidify.Redis.{Redis}
use plaidify.AccessJobs.Locking.{Locking, Acquire, obtained, refused, interrupted}
use plaidify.AccessJobs.Job.{
  AccessJob, JobStatus, blocked, failed, apply_job_state, result_metadata, deserialize_metadata,
}
use plaidify.AccessJobs.Execute.{
  World, Outcome, finished, cancelled_error, mfa_error, plaidify_error, other_error, Execution,
  ExecResult, done, raise, Raised, type_error, persist_job, handle, complete, completing, leave,
  after_execution, execution_kwargs, execute_held, ended, execute_existing_job, release_lock,
  running_state,
}
use plaidify.AccessJobs.Execute.Cleanup.{with_lock_held}
use plaidify.AccessJobs.Execute.Preserved.{execute-Kept}
use plaidify.AccessJobs.Execute.Outcomes.{
  Stored, final_status, status_of_metadata, execute-Stored, inserted-Stored, persist_clean,
}
use plaidify.AccessJobs.Dispatch.{
  Loaded, missing, malformed, loaded, expired, expired_message, Message, Streams, is_open,
  job_id_of, Shop, Worker, mark_job, ended_by, ended_with, Executor, execute_background_job,
  attempt, settle, process_message, load_dispatch_payload, text_value, dict_value,
  resolve_dispatched_executor, ack_dispatched_message, delete_dispatch_payload,
}
use plaidify.AccessJobs.Dispatch.Payload.{Cipher, decrypt_dispatch_kwargs}

module _ (C : Codec) (L : Locking) where
  -- A result whose metadata cannot be computed ends in a `TypeError`; every other way to end settles
  -- the job.
  leave_open :
      (h : L.Handle) (job : AccessJob C) (w : World C L) (o : Outcome)
      (m : Option (Dict Text Value)) (now : ℕ)
      → is_open (final_status o) ≡ true
      → (leave C L h job m now (handle C L w job o m now)).0 ≡ raise type_error
  unfolding handle complete
  leave_open h job w (finished result) m now e = computed (result_metadata result) e
    where
      computed :
          (extra : Option (Dict Text Value))
          → is_open (status_of_metadata extra) ≡ true
          → (completing C L extra (release_lock C L h w) job result m now).0 ≡ raise type_error
      computed none e = refl
      computed (some extra) e = cc
  leave_open h job w cancelled_error m now e = cc
  leave_open h job w (mfa_error a b c) m now e = cc
  leave_open h job w (plaidify_error a b) m now e = cc
  leave_open h job w (other_error a) m now e = cc

  pub held_open :
      (w : World C L) (job : AccessJob C) (h : L.Handle)
      (executor : Dict Text Value → Execution C L) (kwargs : Dict Text Value)
      (m : Option (Dict Text Value)) (start finish : ℕ)
      → w.commits ≡ []
      → is_open (
          final_status
            (executor (execution_kwargs C L (running_state C L job start) kwargs)).outcome)
        ≡ true
      → (execute_held C L w job h executor kwargs m start finish).0 ≡ raise type_error
  unfolding execute_held
  held_open w job h executor kwargs m start finish clean e =
      let job' = running_state C L job start in
      let w' = record w { rows = insert job.id job' w.rows } in
      let x = executor (execution_kwargs C L job' kwargs) in
      rw (persist_clean C L w job' clean)
        (leave_open h job' (after_execution C L x w') x.outcome m finish e)

  -- The row of a job is there, and neither pending nor running.
  abbrev pub IsSettled : World C L → Text → Type 0
  IsSettled w id =
      (row : AccessJob C) × (lookup id w.rows ≡ some row) × (is_open row.status ≡ false)

  Stored-IsSettled :
      (w : World C L) (id : Text) (st : JobStatus)
      → Stored C L w id st
      → is_open st ≡ false
      → IsSettled w id
  Stored-IsSettled w id st (row, there, e) h = (row, there, rw e h)

  execute-IsSettled :
      (w : World C L) (job : AccessJob C) (executor : Dict Text Value → Execution C L)
      (kwargs : Dict Text Value) (m : Option (Dict Text Value)) (start finish : ℕ)
      → w.commits ≡ []
      → (L.acquire w.locks job.lock_scope).0 ≢ interrupted
      → let after = execute_existing_job C L w job executor kwargs m start finish in
        IsSettled after.1 job.id
        ⊎ ((st : JobStatus) × (Stored C L after.1 job.id st × (after.0 ≡ raise type_error)))
  unfolding execute_existing_job
  execute-IsSettled w job executor kwargs m start finish clean n =
      by_lock (L.acquire w.locks job.lock_scope).0 refl
    where
      held :
          (h : L.Handle)
          → (L.acquire w.locks job.lock_scope).0 ≡ obtained h
          → IsSettled (execute_existing_job C L w job executor kwargs m start finish).1 job.id
            ⊎ ((st : JobStatus) × (Stored C L
                    (execute_existing_job C L w job executor kwargs m start finish).1
                    job.id
                    st
                  × ((execute_existing_job C L w job executor kwargs m start finish).0
                      ≡ raise type_error)))
      held h e =
          let stored = execute-Stored C L w job executor kwargs m start finish clean in
          let st =
            final_status
              (executor (execution_kwargs C L (running_state C L job start) kwargs)).outcome in
          elim (Bool-cases (is_open st)) [
            | inl o ↦ inr (
              st,
              (
                stored.0 h e,
                rw
                    (with_lock_held C L (L.acquire w.locks job.lock_scope) h w job executor kwargs m
                      start finish e)
                    (held_open (record w { locks = (L.acquire w.locks job.lock_scope).1 }) job h
                      executor kwargs m start finish clean o),
              ),
            )
            | inr o ↦ inl (
                Stored-IsSettled (execute_existing_job C L w job executor kwargs m start finish).1
                  job.id st (stored.0 h e) o)
          ]

      by_lock :
          (a : Acquire L.Handle)
          → (L.acquire w.locks job.lock_scope).0 ≡ a
          → IsSettled (execute_existing_job C L w job executor kwargs m start finish).1 job.id
            ⊎ ((st : JobStatus) × (Stored C L
                    (execute_existing_job C L w job executor kwargs m start finish).1
                    job.id
                    st
                  × ((execute_existing_job C L w job executor kwargs m start finish).0
                      ≡ raise type_error)))
      by_lock (obtained h) e = held h e
      by_lock interrupted e = absurd (n e)
      by_lock refused e = inl (
          Stored-IsSettled (execute_existing_job C L w job executor kwargs m start finish).1 job.id
            blocked ((execute-Stored C L w job executor kwargs m start finish clean).1 e).0 refl)

  -- Every commit succeeds, and the rows stand under their ids.
  abbrev pub Sound : World C L → Type 0
  Sound w =
      (w.commits ≡ [])
      × ((id : Text) (row : AccessJob C) → lookup id w.rows ≡ some row → row.id ≡ id)

  pub keyed_insert :
      (job : AccessJob C) (rows : Dict Text (AccessJob C))
      → ((id : Text) (row : AccessJob C) → lookup id rows ≡ some row → row.id ≡ id)
      → (id : Text) (row : AccessJob C) → lookup id (insert job.id job rows) ≡ some row
      → row.id ≡ id
  keyed_insert job rows keyed id row h =
      let seen = sym (lookup-insert job.id id job rows) ∙ h in
      elim (Bool-cases (job.id == id)) [
        | inl e ↦
            ap (λ (r : AccessJob C). r.id) (sym (some-injective job row (rw e at seen)))
            ∙ (==_iff job.id id).0 e
        | inr e ↦ keyed id row (rw e at seen)
      ]

  pub persist-Sound :
      (w : World C L) (job : AccessJob C) → Sound w → Sound (persist_job C L w job).2
  persist-Sound w job (clean, keyed) =
      rw (persist_clean C L w job clean) (clean, λ id row h. keyed_insert job w.rows keyed id row h)

  pub execute-Sound :
      (w : World C L) (job : AccessJob C) (executor : Dict Text Value → Execution C L)
      (kwargs : Dict Text Value) (m : Option (Dict Text Value)) (start finish : ℕ)
      → Sound w
      → Sound (execute_existing_job C L w job executor kwargs m start finish).1
  execute-Sound =
      execute-Kept C L Sound
        (λ w w' rows commits s. (commits ∙ s.0, λ id row h. s.1 id row (rw rows at h)))
        persist-Sound

module _ (C : Codec) (L : Locking) (S : Streams) (R : Redis (Codec.Blob C)) (K : Cipher)
    (wk : Worker C L S R K) (marks : Worker.mark_raises wk ≡ false) where
  mark-closed :
      (now : ℕ) (id message : Text) (w : World C L)
      → IsSettled C L w id
      → IsSettled C L (mark_job C L S R K failed (Worker.mark_raises wk) now id message w).1 id
  unfolding mark_job
  mark-closed now id message w (row, there, closed) = elim (Bool-cases (Worker.mark_raises wk)) [
    | inl q ↦ rw q (row, there, closed)
    | inr q ↦ rw (q, there, closed) (row, there, closed)
  ]

  mark-IsSettled :
      (now : ℕ) (id message : Text) (w : World C L) (row : AccessJob C)
      → Sound C L w
      → lookup id w.rows ≡ some row
      → IsSettled C L (mark_job C L S R K failed (Worker.mark_raises wk) now id message w).1 id
  unfolding mark_job apply_job_state
  mark-IsSettled now id message w row sound there = elim (Bool-cases (is_open row.status)) [
    | inl e ↦
        let job = apply_job_state C row failed (ended C L now message) in
        let (row', there', e') = inserted-Stored C L w job in
        rw (marks, there, e, persist_clean C L w job sound.0)
          (subst (λ i. IsSettled C L (record w { rows = insert job.id job w.rows }) i)
            (sound.1 id row there) (row', there', rw e' refl))
    | inr e ↦ rw (marks, there, e) (row, there, e)
  ]

  ended-IsSettled :
      (id : Text) (r : ExecResult C L × World C L)
      → IsSettled C L r.1 id
      → IsSettled C L (settle C L S R K wk id (ended_with C L S R K wk r)).1 id
  ended-IsSettled id (done job result, w) h = h
  ended-IsSettled id (raise exc, w) h = by_error exc
    where
      by_error :
          (exc : Raised)
          → IsSettled C L (settle C L S R K wk id (ended_by C L S R K wk exc, w)).1 id
      by_error (Raised.concurrent_access site) = mark-closed _ id _ w h
      by_error Raised.cancellation = h
      by_error (Raised.mfa_required_for j) = h
      by_error (Raised.plaidify_raised m) = mark-closed _ id _ w h
      by_error (Raised.unexpected m) = mark-closed _ id _ w h
      by_error type_error = mark-closed _ id _ w h
      by_error Raised.database_error = mark-closed _ id _ w h

  type_error-IsSettled :
      (id : Text) (r : ExecResult C L × World C L) (row : AccessJob C)
      → r.0 ≡ raise type_error
      → Sound C L r.1
      → lookup id r.1.rows ≡ some row
      → IsSettled C L (settle C L S R K wk id (ended_with C L S R K wk r)).1 id
  type_error-IsSettled id (e, w) row h sound there = rw h (mark-IsSettled _ id _ w row sound there)

  background-IsSettled :
      (id : Text) (executor : Executor C L S R K) (kwargs : Dict Text Value) (w : World C L)
      (row : AccessJob C)
      → Sound C L w
      → lookup id w.rows ≡ some row
      → (L.acquire w.locks row.lock_scope).0 ≢ interrupted
      → IsSettled C L
          (settle C L S R K wk id (execute_background_job C L S R K wk id executor kwargs w)).1
          id
  unfolding execute_background_job
  background-IsSettled id executor kwargs w row sound there n =
      let m = deserialize_metadata C row.metadata_json in
      let r =
        execute_existing_job C L w row executor kwargs m (Worker.start wk) (Worker.finish wk) in
      let own = sound.1 id row there in
      rw there
        (elim (execute-IsSettled C L w row executor kwargs m (Worker.start wk) (Worker.finish wk)
          sound.0 n) [
            | inl h ↦ ended-IsSettled id r (subst (λ i. IsSettled C L r.1 i) own h)
            | inr (st, ((row', there', e'), h)) ↦
                type_error-IsSettled id r row' h
                  (execute-Sound C L w row executor kwargs m (Worker.start wk) (Worker.finish wk)
                    sound)
                  (subst (λ i. lookup i r.1.rows ≡ some row') own there')
          ])

  attempt-IsSettled :
      (id : Text) (payload : Dict Text Value) (w : World C L) (row : AccessJob C)
      → Sound C L w
      → lookup id w.rows ≡ some row
      → (L.acquire w.locks row.lock_scope).0 ≢ interrupted
      → IsSettled C L (settle C L S R K wk id (attempt C L S R K wk id payload w)).1 id
  unfolding attempt
  attempt-IsSettled id payload w row sound there n =
      elim (Option-cases (text_value (lookup (lit "executor") payload))) [
        | inl e ↦ rw e (mark-IsSettled _ id _ w row sound there)
        | inr (name, e) ↦ elim (Option-cases (resolve_dispatched_executor C L S R K wk name)) [
          | inl f ↦ rw (e, f) (mark-IsSettled _ id _ w row sound there)
          | inr (executor, f) ↦
              elim (Option-cases (dict_value (lookup (lit "executor_kwargs") payload))) [
                | inl g ↦ rw (e, f, g) (mark-IsSettled _ id _ w row sound there)
                | inr (kwargs, g) ↦ elim (Option-cases (decrypt_dispatch_kwargs K kwargs)) [
                  | inl h ↦ rw (e, f, g, h) (mark-IsSettled _ id _ w row sound there)
                  | inr (clear, h) ↦
                      rw (e, f, g, h) (background-IsSettled id executor clear w row sound there n)
                ]
              ]
        ]
      ]

  -- When every commit succeeds and the rows stand under their ids, and where the job can be marked as
  -- failed, the row of a job whose message is processed is neither pending nor running afterwards,
  -- whatever the executor, the contents of the payload and the status before, and whether the payload
  -- is there and the lock is free or not. Two things are left out: that what stands under the payload's
  -- key is no JSON, and that the worker is cancelled while it waits for the lock.
  pub process_message-IsSettled :
      (m : Message) (s : Shop C L S R K) (id : Text) (row : AccessJob C)
      → Sound C L (Shop.world s)
      → job_id_of (lookup (lit "job_id") m.1) ≡ some id
      → lookup id (Shop.world s).rows ≡ some row
      → load_dispatch_payload C L S R K (Worker.now wk) id s ≢ malformed
      → (L.acquire (Shop.world s).locks row.lock_scope).0 ≢ interrupted
      → IsSettled C L (Shop.world (process_message C L S R K wk m s).1) id
  unfolding process_message ack_dispatched_message delete_dispatch_payload
  process_message-IsSettled (message_id, fields) s id row sound named there json n =
      by_payload (load_dispatch_payload C L S R K (Worker.now wk) id s) refl
    where
      after_mark :
          (r : Bool × World C L)
          → IsSettled C L r.1 id
          → IsSettled C L (Shop.world (expired C L S R K message_id s r).1) id
      after_mark (true, w) h = h
      after_mark (false, w) h = h

      by_payload :
          (l : Loaded C L S R K)
          → load_dispatch_payload C L S R K (Worker.now wk) id s ≡ l
          → IsSettled C L (Shop.world (process_message C L S R K wk (message_id, fields) s).1) id
      by_payload malformed e = absurd (json e)
      by_payload missing e =
          rw (named, e)
            (after_mark
              (mark_job C L S R K failed (Worker.mark_raises wk) (Worker.now wk) id expired_message
                (Shop.world s))
              (mark-IsSettled _ id _ (Shop.world s) row sound there))
      by_payload (loaded payload) e =
          rw (named, e) (attempt-IsSettled id payload (Shop.world s) row sound there n)
