-- ===== src/AccessJobs/Dispatch/Start.antt =====
-- src/access_jobs.py: `start_access_job`, and the whole way of a job from the server to a worker.
use mathlib.Core.Option.{some-injective, none-ne-some}
use plaidify.Base.{
  sym, List, ◌++◌, ℕ, ◌*◌, ◌+◌, ◌≤◌, ◌<◌, ◌≡◌, refl, subst, ap, ◌∙◌, Bool, true, false, ◌||◌,
  Option, none, some, [], ◌∷◌, if◌then◌else◌, ◌==◌, ==_refl, nat_eq,
}
use plaidify.Base.Compare.{list_eq}
use plaidify.Base.Dict.{Dict, lookup, insert, lookup-insert}
use plaidify.Base.Text.{Text, lit}
use plaidify.Json.{Value, Codec}
use plaidify.Redis.{Redis}
use plaidify.AccessJobs.Locking.{Locking, obtained}
use plaidify.AccessJobs.Scope.{Platform, build_lock_scope}
use plaidify.AccessJobs.Job.{AccessJob, JobStatus}
use plaidify.AccessJobs.Execute.{Commit, World, execution_kwargs, session_value, setdefault}
use plaidify.AccessJobs.Execute.Outcomes.{Stored, persist_clean}
use plaidify.AccessJobs.Create.{Request, new_job, create_access_job}
use plaidify.AccessJobs.Dispatch.{
  load_dispatch_payload, process_dispatched_access_job, claim_dispatched_message, claimed_of,
  first_of, with_claimed, Message, Streams, job_id_of, text_value, Shop, Worker, Executor,
  process_message, resolve_dispatched_executor,
}
use plaidify.AccessJobs.Dispatch.Payload.{
  Cipher, username, password, username_encrypted, password_encrypted, is_given,
}
use plaidify.AccessJobs.Dispatch.Queue.{
  queue_dispatched_access_job, store_dispatch_payload, load-queue_dispatched_access_job,
}
use plaidify.AccessJobs.Dispatch.Settled.{Sound, persist-Sound}
use plaidify.AccessJobs.Dispatch.Runnable.{Runnable}
use plaidify.AccessJobs.Dispatch.Runs.{closed_status, run_status, process_message-runs}

module _ (C : Codec) (L : Locking) (S : Streams) (R : Redis (Codec.Blob C)) (K : Cipher)
    (p : Platform) where
  -- What the background task of `start_access_job` does: it waits for a worker's result, or runs the
  -- executor with these arguments.
  pub data Started : Type 0 where
    database_error : Started
    observing : AccessJob C → Started
    executing : AccessJob C → Dict Text Value → Started

  -- The job's session is the one in the arguments, where there is one.
  abbrev pub requested : Request → Dict Text Value → Request
  unfolding lookup
  requested r kwargs = record r { session_id = text_value (lookup (lit "session_id") kwargs) }

  -- `start_access_job`; `enabled` is `_access_job_dispatch_enabled()`, and `ttl` the life of payloads.
  unfoldable pub start_access_job :
      Bool
      → ℕ
      → Text
      → Text
      → ℕ
      → Request
      → Option Text
      → Dict Text Value
      → Shop C L S R K
      → Started × Shop C L S R K
  unfolding create_access_job queue_dispatched_access_job execution_kwargs
  start_access_job enabled ttl fresh_id fresh_session now r executor_name kwargs s =
      created
        (create_access_job C L p fresh_id fresh_session now (requested r kwargs) (Shop.world s))
    where
      launch : AccessJob C → Bool → Option Text → Shop C L S R K → Started × Shop C L S R K
      launch job true (some (c ∷ name)) s' = (
        observing job,
        queue_dispatched_access_job C L S R K ttl now job.id (c ∷ name)
            (execution_kwargs C L job kwargs) s',
      )
      launch job _ _ s' = (executing job (execution_kwargs C L job kwargs), s')

      created : Option (AccessJob C) × World C L → Started × Shop C L S R K
      created (none, w) = (database_error, record s { world = w })
      created (some job, w) = launch job enabled executor_name (record s { world = w })

  setdefault_other :
      (o : Option Value) (k j : Text) (v : Value) (d : Dict Text Value)
      → (k == j) ≡ false
      → lookup j (setdefault C L o k v d) ≡ lookup j d
  setdefault_other none k j v d n = rw (lookup-insert k j v d, n) refl
  setdefault_other (some u) k j v d n = refl

  lookup-execution_kwargs :
      (job : AccessJob C) (kwargs : Dict Text Value) (k : Text)
      → (lit "session_id" == k) ≡ false
      → lookup k (execution_kwargs C L job kwargs) ≡ lookup k kwargs
  unfolding execution_kwargs
  lookup-execution_kwargs job kwargs k n =
      setdefault_other (lookup (lit "session_id") kwargs) (lit "session_id") k
        (session_value C L job.session_id) kwargs n

  -- The shop once the job's row is there.
  abbrev with_row : Shop C L S R K → AccessJob C → Shop C L S R K
  with_row s job = record s {
    world = record (Shop.world s) { rows = insert job.id job (Shop.world s).rows };
  }

  queued :
      (ttl : ℕ) (fresh_id fresh_session : Text) (now : ℕ) (r : Request) (c : ℕ) (name : Text)
      (kwargs : Dict Text Value) (s : Shop C L S R K)
      → (Shop.world s).commits ≡ []
      → let job = new_job C L p fresh_id fresh_session now (requested r kwargs) in
        (start_access_job true ttl fresh_id fresh_session now r (some (c ∷ name)) kwargs s).1
        ≡ queue_dispatched_access_job C L S R K ttl now fresh_id
            (c ∷ name)
            (execution_kwargs C L job kwargs)
            (with_row s job)
  unfolding start_access_job create_access_job new_job
  queued ttl fresh_id fresh_session now r c name kwargs s clean =
      rw
        (persist_clean C L (Shop.world s)
          (new_job C L p fresh_id fresh_session now (requested r kwargs)) clean)
        refl

  row-Sound :
      (w : World C L) (job : AccessJob C)
      → Sound C L w
      → Sound C L (record w { rows = insert job.id job w.rows })
  row-Sound w job sound =
      subst (λ u. Sound C L u)
        (ap (λ (r : Commit × AccessJob C × World C L). r.2) (persist_clean C L w job sound.0))
        (persist-Sound C L w job sound)

  own_row :
      (job : AccessJob C) (w : World C L) → lookup job.id (insert job.id job w.rows) ≡ some job
  own_row job w = rw (lookup-insert job.id job.id job w.rows, ==_refl job.id) refl

  -- What a worker does with the message that it claimed.
  by_claimed :
      (wk : Worker C L S R K) (s : Shop C L S R K) (r : Option Message × Streams.State S)
      (m : Message)
      → r.0 ≡ some m
      → (id : Text) (st : JobStatus)
      → ((stream : Streams.State S)
          → Stored C L
              (Shop.world (process_message C L S R K wk m (record s { stream = stream })).1)
              id
              st)
      → Stored C L (Shop.world (with_claimed C L S R K wk s r).1) id st
  unfolding with_claimed process_message
  by_claimed wk s (none, stream) m e id st h = absurd (none-ne-some m e)
  by_claimed wk s (some m', stream) m e id st h =
      subst
        (λ n.
          Stored C L (Shop.world (process_message C L S R K wk n (record s { stream = stream })).1)
            id st)
        (sym (some-injective m' m e)) (h stream)

  -- A stream on which no message waits, once a message is added and the group is there: a worker claims
  -- that message.
  claims_added :
      (stream : Streams.State S) (fields : Dict Text Text)
      → Streams.stale S stream ≡ []
      → Streams.fresh S stream ≡ []
      → (id : Text) × ((claim_dispatched_message C L S R K
            (Streams.xadd S (Streams.ensure_group S stream) fields)).0
          ≡ some (id, fields))
  unfolding claim_dispatched_message
  claims_added stream fields old new =
      let grouped = Streams.ensure_group S stream in
      let added = Streams.xadd S grouped fields in
      let claimable = Streams.ensure_group S added in
      let none_stale : Streams.stale S claimable ≡ [] =
        Streams.stale-ensure_group S added
        ∙ (Streams.stale-xadd S grouped fields ∙ (Streams.stale-ensure_group S stream ∙ old)) in
      let (id, one) = Streams.fresh-xadd S grouped fields in
      let only : Streams.fresh S claimable ≡ (id, fields) ∷ [] =
        Streams.fresh-ensure_group S added
        ∙ (one ∙ ap (λ ms. ms ++ (id, fields) ∷ []) (Streams.fresh-ensure_group S stream ∙ new)) in
      let (nothing, same) = Streams.xautoclaim-none S claimable none_stale in
      (id, by_claim (Streams.xautoclaim S claimable) nothing (id, fields) (same ∙ only))
    where
      by_claim :
          (r : List Message × Streams.State S)
          → r.0 ≡ []
          → (m : Message) → Streams.fresh S r.1 ≡ m ∷ []
          → (claimed_of C L S R K r).0 ≡ some m
      by_claim ([], s') e m f =
          by_read (Streams.xreadgroup S s') m (Streams.xreadgroup-first S s' m [] f)
        where
          by_read :
              (r : List (List Message) × Streams.State S)
              → (m : Message) → r.0 ≡ (m ∷ []) ∷ []
              → (first_of C L S R K r).0 ≡ some m
          by_read (ms, s'') m e = rw e refl
      by_claim (m' ∷ ms, s') e m f = absurd cc

  -- A job that is started for the workers, on a stream on which no message waits, and with arguments
  -- that have no key of an encrypted credential, is on the stream: a worker that claims a message next,
  -- within the life of the payload and with the lock of the job's site free, gets this job's. It runs the
  -- executor of that name, with the same arguments and the job's session (`None` as a credential becomes
  -- a missing one), and the row has the status of how it ended. Every write succeeds, and the job can be
  -- marked as failed.
  pub start-process_message :
      (wk : Worker C L S R K) (ttl : ℕ) (fresh_id fresh_session : Text) (now : ℕ) (r : Request)
      (c : ℕ) (name : Text) (kwargs : Dict Text Value) (s : Shop C L S R K)
      (executor : Executor C L S R K) (h : L.Handle)
      → Sound C L (Shop.world s)
      → Worker.mark_raises wk ≡ false
      → Streams.stale S (Shop.stream s) ≡ []
      → Streams.fresh S (Shop.stream s) ≡ []
      → now ≤ Worker.now wk
      → Worker.now wk < now + 1000 * ttl
      → lookup username_encrypted kwargs ≡ none
      → lookup password_encrypted kwargs ≡ none
      → resolve_dispatched_executor C L S R K wk (c ∷ name) ≡ some executor
      → job_id_of (some fresh_id) ≡ some fresh_id
      → (L.acquire (Shop.world s).locks (build_lock_scope p r.site r.user_id r.principal_hint)).0
        ≡ obtained h
      → let job = new_job C L p fresh_id fresh_session now (requested r kwargs) in
        let given = execution_kwargs C L job kwargs in
        let started =
          start_access_job true ttl fresh_id fresh_session now r (some (c ∷ name)) kwargs s in
        (clear : Dict Text Value) × ((k : Text)
          → lookup k clear ≡ (
              if (username == k) || (password == k)
              then is_given (lookup k given)
              else lookup k given))
        × Stored C L
            (Shop.world (process_dispatched_access_job C L S R K wk started.1).1)
            fresh_id
            (closed_status (run_status C L S R K wk job executor clear))
  unfolding queue_dispatched_access_job store_dispatch_payload new_job requested
      process_dispatched_access_job load_dispatch_payload lookup
  start-process_message wk ttl fresh_id fresh_session now r c name kwargs s executor h sound marks
        old new after before nu np resolved named free =
      let job = new_job C L p fresh_id fresh_session now (requested r kwargs) in
      let given = execution_kwargs C L job kwargs in
      let stocked = with_row s job in
      let (payload, loaded, with_name, (encrypted, with_kwargs, (clear, decrypted, same))) =
        load-queue_dispatched_access_job C L S R K ttl now (Worker.now wk) fresh_id (c ∷ name) given
          stocked after before (lookup-execution_kwargs job kwargs username_encrypted refl ∙ nu)
          (lookup-execution_kwargs job kwargs password_encrypted refl ∙ np) in
      let x : Runnable C L S R K wk payload = record {
        name = c ∷ name;
        executor = executor;
        encrypted = encrypted;
        kwargs = clear;
        named = with_name;
        resolved = resolved;
        given = with_kwargs;
        decrypted = decrypted;
      } in
      let queued_shop =
        queue_dispatched_access_job C L S R K ttl now fresh_id (c ∷ name) given stocked in
      let (id, claimed) = claims_added (Shop.stream s) ((lit "job_id", fresh_id) ∷ []) old new in
      (
        clear,
        same,
        rw (queued ttl fresh_id fresh_session now r c name kwargs s sound.0) (
            by_claimed wk queued_shop (claim_dispatched_message C L S R K (Shop.stream queued_shop))
              (id, (lit "job_id", fresh_id) ∷ []) claimed fresh_id _
              (λ stream.
                process_message-runs C L S R K wk marks (id, (lit "job_id", fresh_id) ∷ [])
                  (record queued_shop { stream = stream }) fresh_id job payload x h
                  (row-Sound (Shop.world s) job sound) named (own_row job (Shop.world s)) loaded
                  free)),
      )
