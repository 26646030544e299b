-- ===== src/AccessJobs/Dispatch.antt =====
-- src/access_jobs.py: jobs that are dispatched to workers through a Redis stream. The stream and the
-- encryption of credentials are no part of the repository: records that state what is relied on.
pub mod Payload
pub mod Queue
pub mod Removed
pub mod Settled
pub mod Runnable
pub mod Waiting
pub mod Runs
pub mod Start
mod Tests
use plaidify.Base.{
  ℕ, ◌≡◌, Bool, true, false, Option, none, some, List, [], ◌∷◌, ◌++◌, if◌then◌else◌, ◌==◌, nat_eq,
}
use plaidify.Base.Compare.{list_eq}
use plaidify.Base.Dict.{Dict, lookup}
use plaidify.Base.Text.{Text, lit}
use plaidify.Json.{Value, num, text, obj, to_dict, Codec}
use plaidify.Redis.{Redis}
use plaidify.AccessJobs.Locking.{Locking}
use plaidify.AccessJobs.Job.{
  AccessJob, JobStatus, pending, running, completed, mfa_required, blocked, failed, cancelled,
  apply_job_state, deserialize_metadata,
}
use plaidify.AccessJobs.Execute.{
  World, Execution, Commit, broken, database_error, ExecResult, done, raise, Raised,
  concurrent_access, cancellation, mfa_required_for, plaidify_raised, unexpected, type_error,
  persist_job, ended, execute_existing_job, conflict_message,
}
use plaidify.AccessJobs.Dispatch.Payload.{Cipher, decrypt_dispatch_kwargs}

-- A message of the stream: its id and its fields.
abbrev pub Message : Type 0
Message = Text × Dict Text Text

-- The consumer group's view of a Redis stream.
pub record Streams : Type 1 where
  pub State : Type 0
  pub holds : State → Text → Bool
  -- `XGROUP CREATE` with `MKSTREAM`; that the group is there already is no error
  pub ensure_group : State → State
  -- `XAUTOCLAIM` and `XREADGROUP`, for one message
  pub xautoclaim : State → List Message × State
  pub xreadgroup : State → List (List Message) × State
  pub xadd : State → Dict Text Text → State
  pub xack : State → Text → State
  pub xdel : State → Text → State
  -- the entries that were delivered to a worker and are idle for long enough to be claimed again, and
  -- those that were never delivered
  pub stale : State → List Message
  pub fresh : State → List Message
  pub holds-xdel :
      (s : State) (id other : Text)
      → holds (xdel s id) other ≡ (if id == other then false else holds s other)
  pub stale-ensure_group : (s : State) → stale (ensure_group s) ≡ stale s
  pub fresh-ensure_group : (s : State) → fresh (ensure_group s) ≡ fresh s
  pub stale-xadd : (s : State) (fields : Dict Text Text) → stale (xadd s fields) ≡ stale s
  pub fresh-xadd :
      (s : State) (fields : Dict Text Text)
      → (id : Text) × (fresh (xadd s fields) ≡ fresh s ++ (id, fields) ∷ [])
  pub xautoclaim-none :
      (s : State) → stale s ≡ [] → ((xautoclaim s).0 ≡ []) × (fresh (xautoclaim s).1 ≡ fresh s)
  pub xreadgroup-first :
      (s : State) (m : Message) (ms : List Message)
      → fresh s ≡ m ∷ ms
      → (xreadgroup s).0 ≡ (m ∷ []) ∷ []

-- `_dispatch_payload_key`
abbrev pub dispatch_payload_key : Text → Text
dispatch_payload_key id = lit "plaidify:access_job_payload:" ++ id

abbrev pub expired_message : Text
expired_message = lit "Access job dispatch payload expired before execution."

-- `job.status in {"pending", "running"}`
abbrev pub is_open : JobStatus → Bool
is_open pending = true
is_open running = true
is_open _ = false

-- `fields.get("job_id")`, where an empty text counts as none
abbrev pub job_id_of : Option Text → Option Text
job_id_of (some (c ∷ t)) = some (c ∷ t)
job_id_of _ = none

abbrev pub text_value : Option Value → Option Text
text_value (some (text t)) = some t
text_value _ = none

abbrev pub dict_value : Option Value → Option (Dict Text Value)
dict_value (some (obj fs)) = some (to_dict fs)
dict_value _ = none

module _ (C : Codec) (L : Locking) (S : Streams) (R : Redis (Codec.Blob C)) (K : Cipher) where
  -- The workers' world, the dispatch payloads in Redis and the stream.
  pub record Shop : Type 0 where
    pub world : World C L
    pub payloads : Redis.State R
    pub stream : Streams.State S

  abbrev pub Executor : Type 0
  Executor = Dict Text Value → Execution C L

  -- What a worker knows: the executors that override the named one, `connect_to_site`, the texts of
  -- errors that come from elsewhere, and the times that it reads.
  pub record Worker : Type 0 where
    pub overrides : Dict Text Executor
    pub connect_to_site : Executor
    pub type_error_text : Text
    pub database_error_text : Text
    pub decrypt_error_text : Text
    -- whether the query of `_mark_job_failed` raises
    pub mark_raises : Bool
    pub now : ℕ
    pub start : ℕ
    pub finish : ℕ

  -- `_mark_job_failed` and `_mark_job_cancelled`: `false` is an exception, of the query or of the
  -- rollback of a failed write.
  unfoldable pub mark_job : JobStatus → Bool → ℕ → Text → Text → World C L → Bool × World C L
  mark_job status query_raises now id message w =
      if query_raises then (false, w) else marked (lookup id w.rows)
    where
      wrote : Commit × AccessJob C × World C L → Bool × World C L
      wrote (broken, job, w') = (false, w')
      wrote (_, job, w') = (true, w')

      marked : Option (AccessJob C) → Bool × World C L
      marked none = (true, w)
      marked (some row) =
          if is_open row.status
          then wrote (persist_job C L w (apply_job_state C row status (ended C L now message)))
          else (true, w)

  abbrev pub first_of : List (List Message) × Streams.State S → Option Message × Streams.State S
  first_of ((m ∷ ms) ∷ entries, s') = (some m, s')
  first_of (_, s') = (none, s')

  abbrev pub claimed_of : List Message × Streams.State S → Option Message × Streams.State S
  claimed_of (m ∷ ms, s') = (some m, s')
  claimed_of ([], s') = first_of (Streams.xreadgroup S s')

  unfoldable pub claim_dispatched_message : Streams.State S → Option Message × Streams.State S
  claim_dispatched_message s = claimed_of (Streams.xautoclaim S (Streams.ensure_group S s))

  unfoldable pub ack_dispatched_message : Text → Shop → Shop
  ack_dispatched_message id s = record s {
    stream = Streams.xdel S (Streams.xack S (Shop.stream s) id) id;
  }

  unfoldable pub delete_dispatch_payload : Text → Shop → Shop
  delete_dispatch_payload id s = record s {
    payloads = Redis.delete R (Shop.payloads s) (dispatch_payload_key id);
  }

  -- How `_load_dispatch_payload` ends: `None`, a payload, or the `ValueError` of `json.loads`.
  pub data Loaded : Type 0 where
    missing malformed : Loaded
    loaded : Dict Text Value → Loaded

  abbrev pub read_as : Option (Dict Text Value) → Loaded
  read_as none = malformed
  read_as (some payload) = loaded payload

  abbrev parsed : Option (Codec.Blob C) → Loaded
  parsed none = missing
  parsed (some raw) = if Codec.is_empty C raw then missing else read_as (Codec.loads C raw)

  -- `_load_dispatch_payload`; the program writes nothing but objects there.
  unfoldable pub load_dispatch_payload : ℕ → Text → Shop → Loaded
  load_dispatch_payload now id s =
      parsed (Redis.get R (Shop.payloads s) now (dispatch_payload_key id))

  unfoldable pub resolve_dispatched_executor : Worker → Text → Option Executor
  resolve_dispatched_executor wk name =
      or_named (lookup name (Worker.overrides wk)) (name == lit "connect_to_site")
    where
      or_named : Option Executor → Bool → Option Executor
      or_named (some e) known = some e
      or_named none true = some (Worker.connect_to_site wk)
      or_named none false = none

  -- How the `try` statement of `process_dispatched_access_job` ends. `died` is an exception with its
  -- text.
  pub data Ended : Type 0 where
    returned : Ended
    awaits_mfa : Ended
    was_cancelled : Ended
    died : Text → Ended

  -- `str(exc)`
  abbrev pub ended_by : Worker → Raised → Ended
  ended_by wk (concurrent_access site) = died (conflict_message site)
  ended_by wk cancellation = was_cancelled
  ended_by wk (mfa_required_for id) = awaits_mfa
  ended_by wk (plaidify_raised message) = died message
  ended_by wk (unexpected message) = died message
  ended_by wk type_error = died (Worker.type_error_text wk)
  ended_by wk database_error = died (Worker.database_error_text wk)

  abbrev pub ended_with : Worker → ExecResult C L × World C L → Ended × World C L
  ended_with wk (done job result, w) = (returned, w)
  ended_with wk (raise exc, w) = (ended_by wk exc, w)

  -- `_execute_background_job`, as it ends for the worker
  unfoldable pub execute_background_job :
      Worker → Text → Executor → Dict Text Value → World C L → Ended × World C L
  execute_background_job wk id executor kwargs w = found (lookup id w.rows)
    where
      found : Option (AccessJob C) → Ended × World C L
      found none = (died (lit "Access job not found: " ++ id), w)
      found (some job) = ended_with wk (
          execute_existing_job C L w job executor kwargs (deserialize_metadata C job.metadata_json)
            (Worker.start wk) (Worker.finish wk))

  -- The body of the `try` statement; the program writes a text and an object into the payload.
  unfoldable pub attempt : Worker → Text → Dict Text Value → World C L → Ended × World C L
  unfolding resolve_dispatched_executor execute_background_job decrypt_dispatch_kwargs
  attempt wk id payload w = with_name (text_value (lookup (lit "executor") payload))
    where
      with_kwargs : Executor → Option (Dict Text Value) → Ended × World C L
      with_kwargs executor none = (died (Worker.decrypt_error_text wk), w)
      with_kwargs executor (some kwargs) = execute_background_job wk id executor kwargs w

      decrypted : Executor → Option (Dict Text Value) → Ended × World C L
      decrypted executor none = (died (lit "'executor_kwargs'"), w)
      decrypted executor (some kwargs) = with_kwargs executor (decrypt_dispatch_kwargs K kwargs)

      with_executor : Text → Option Executor → Ended × World C L
      with_executor name none = (died (lit "Unsupported dispatched executor: " ++ name), w)
      with_executor name (some executor) =
          decrypted executor (dict_value (lookup (lit "executor_kwargs") payload))

      with_name : Option Text → Ended × World C L
      with_name none = (died (lit "'executor'"), w)
      with_name (some name) = with_executor name (resolve_dispatched_executor wk name)

  -- The `except` clauses; `false` is an exception of theirs.
  abbrev pub settle : Worker → Text → Ended × World C L → Bool × World C L
  settle wk id (died message, w) =
      mark_job failed (Worker.mark_raises wk) (Worker.finish wk) id message w
  settle wk id (_, w) = (true, w)

  -- How `process_dispatched_access_job` ends: it returned with a job processed or idle, the
  -- cancellation of the job goes on, or another exception does.
  pub data Processed : Type 0 where
    idle processed cancelled_on raised_on : Processed

  abbrev pub outcome : Ended → Bool → Processed
  outcome e false = raised_on
  outcome was_cancelled true = cancelled_on
  outcome _ true = processed

  abbrev pub clean_up : Text → Text → Shop → Shop
  unfolding delete_dispatch_payload ack_dispatched_message
  clean_up message_id id s = ack_dispatched_message message_id (delete_dispatch_payload id s)

  -- Without a payload: the message is acknowledged once the job is marked.
  abbrev pub expired : Text → Shop → Bool × World C L → Processed × Shop
  unfolding ack_dispatched_message
  expired message_id s (true, w) =
      (processed, ack_dispatched_message message_id (record s { world = w }))
  expired message_id s (false, w) = (raised_on, record s { world = w })

  -- The `finally` clause comes last, whether the `except` clauses raise or not.
  abbrev pub finally : Text → Text → Ended → Shop → Bool × World C L → Processed × Shop
  finally message_id id e s (ok, w) =
      (outcome e ok, clean_up message_id id (record s { world = w }))

  -- From the claimed message on.
  unfoldable pub process_message : Worker → Message → Shop → Processed × Shop
  unfolding ack_dispatched_message delete_dispatch_payload load_dispatch_payload mark_job attempt
  process_message wk (message_id, fields) s = with_id (job_id_of (lookup (lit "job_id") fields))
    where
      run : Text → Ended × World C L → Processed × Shop
      run id (e, w) = finally message_id id e s (settle wk id (e, w))

      with_payload : Text → Loaded → Processed × Shop
      with_payload id missing = expired message_id s (
          mark_job failed (Worker.mark_raises wk) (Worker.now wk) id expired_message (Shop.world s))
      with_payload id malformed = (raised_on, s)
      with_payload id (loaded payload) = run id (attempt wk id payload (Shop.world s))

      with_id : Option Text → Processed × Shop
      with_id none = (processed, ack_dispatched_message message_id s)
      with_id (some id) = with_payload id (load_dispatch_payload (Worker.now wk) id s)

  abbrev pub with_claimed : Worker → Shop → Option Message × Streams.State S → Processed × Shop
  unfolding process_message
  with_claimed wk s (none, stream) = (idle, record s { stream = stream })
  with_claimed wk s (some m, stream) = process_message wk m (record s { stream = stream })

  unfoldable pub process_dispatched_access_job : Worker → Shop → Processed × Shop
  unfolding claim_dispatched_message process_message
  process_dispatched_access_job wk s = with_claimed wk s (claim_dispatched_message (Shop.stream s))
