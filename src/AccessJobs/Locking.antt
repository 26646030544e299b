-- ===== src/AccessJobs/Locking.antt =====
-- src/access_jobs.py: what `_execute_existing_job` calls to take and to give back the lock of a scope,
-- and the locks of the program as such calls.
use plaidify.Base.{ℕ, Bool, Option, none, some}
use plaidify.Base.Text.{Text}
use plaidify.Redis.{Redis}
use plaidify.AccessJobs.Lock.{
  Locks, Surroundings, Acquired, held, conflict, out_of_fuel, acquire_scope_lock, release,
  LocalLocks, HeldScopeLock, acquire_local_lock, release_local_lock,
}

-- How `await acquire_scope_lock(...)` ends: with a lock, with a `ConcurrentAccessError`, or with the
-- cancellation of the task, which comes in at the `sleep` or the `wait_for` inside.
pub data Acquire (Handle : Type 0) : Type 0 where
  obtained : Handle → Acquire Handle
  refused interrupted : Acquire Handle

-- `acquire_scope_lock` and `_HeldScopeLock.release` on a state of the locks. Nothing is asked of them:
-- a release may fail, as one of Redis does when the server is away.
pub record Locking : Type 1 where
  pub State : Type 0
  pub Handle : Type 0
  pub acquire : State → Text → Acquire Handle × State
  pub release : Handle → State → State

abbrev pub answered : Option HeldScopeLock × LocalLocks → Acquire HeldScopeLock × LocalLocks
answered (none, locks) = (refused, locks)
answered (some h, locks) = (obtained h, locks)

-- A task that does not wait.
unfoldable pub acquire_local : LocalLocks → Text → Acquire HeldScopeLock × LocalLocks
unfolding acquire_local_lock
acquire_local locks scope = answered (acquire_local_lock (λ ls. ls) locks scope)

-- The locks of one process, with the answer that a task gets which does not wait.
abbrev pub local_locking : Locking
local_locking = record {
  State = LocalLocks;
  Handle = HeldScopeLock;
  acquire = acquire_local;
  release = λ h s. release_local_lock h.scope s;
}

-- The lock of the program as such calls: `has_client` is whether there is a client of Redis, `token`
-- the token that the lock draws, `now` and `later` the times of the two calls, `reachable` whether the
-- release script runs. The wait does not run out of fuel.
module _ (R : Redis Text) (has_client reachable : Bool) (env : Surroundings R) (token : Text)
    (now later : ℕ) where
  abbrev pub ended_as : Locks R → Acquired R → Acquire HeldScopeLock × Locks R
  ended_as w (held h w') = (obtained h, w')
  ended_as w (conflict w') = (refused, w')
  ended_as w out_of_fuel = (interrupted, w)

  unfoldable pub acquire_scope : Locks R → Text → Acquire HeldScopeLock × Locks R
  unfolding acquire_scope_lock
  acquire_scope w scope = ended_as w (acquire_scope_lock R has_client env token scope now w)

  abbrev pub scope_locking : Locking
  scope_locking = record {
    State = Locks R;
    Handle = HeldScopeLock;
    acquire = acquire_scope;
    release = λ h w. (release R h reachable later w).1;
  }
