-- ===== src/AccessJobs/Lock.antt =====
-- src/access_jobs.py: `_HeldScopeLock`, `_acquire_redis_lock`, `_acquire_local_lock` and
-- `acquire_scope_lock`. Times count milliseconds of one clock. What other workers do to the shared
-- state while this one waits is given by functions on that state.
pub mod Exclusive
pub mod Waiting
use plaidify.Base.{
  ℕ, zero, suc, ◌+◌, ◌-◌, ◌≡◌, min, Bool, true, false, ◌&&◌, not, Option, none, some, List, [], ◌∷◌,
  ◌++◌, leb, if◌then◌else◌, ◌==◌, nat_eq,
}
use plaidify.Base.Compare.{list_eq, option_eq}
use plaidify.Base.Dict.{Dict, lookup, insert}
use plaidify.Base.Text.{Text, lit}
use plaidify.Redis.{Redis}

abbrev pub lock_ttl : ℕ
lock_ttl = 360000

abbrev pub lock_wait : ℕ
lock_wait = 250

abbrev pub lock_poll_interval : ℕ
lock_poll_interval = 50

unfoldable pub lock_key : Text → Text
lock_key scope = lit "plaidify:access_lock:" ++ scope

-- `_LOCAL_LOCKS`: the scopes that have a lock object, and whether it is taken.
abbrev pub LocalLocks : Type 0
LocalLocks = Dict Text Bool

pub data Backend : Type 0 where
  redis local : Backend

-- `_HeldScopeLock`; a local lock has no token.
pub record HeldScopeLock : Type 0 where
  pub backend : Backend
  pub scope : Text
  pub token : Option Text
  pub released : Bool

abbrev pub taken : Option Bool → Bool
taken none = false
taken (some b) = b

-- `lock.locked()`; a scope without a lock object gets a new one, which is free.
abbrev pub is_locked : LocalLocks → Text → Bool
is_locked locks scope = taken (lookup scope locks)

-- `_acquire_local_lock`: `others` is what happens to the locks while this task waits for one that is
-- taken, until it is free or `_LOCK_WAIT_SECONDS` have passed.
unfoldable pub acquire_local_lock :
    (LocalLocks → LocalLocks) → LocalLocks → Text → Option HeldScopeLock × LocalLocks
acquire_local_lock others now_locks scope =
    let locks = if is_locked now_locks scope then others now_locks else now_locks in
    if is_locked locks scope then (none, locks) else (
      some (record { backend = local; scope = scope; token = none; released = false }),
      insert scope true locks,
    )

-- What `release` does with a local lock.
unfoldable pub release_local_lock : Text → LocalLocks → LocalLocks
release_local_lock scope locks = if is_locked locks scope then insert scope false locks else locks

module _ (R : Redis Text) where
  open R use {State, get, set, set_nx, delete}

  -- The shared state: Redis, and the locks of this process.
  pub record Locks : Type 0 where
    pub store : State
    pub local_locks : LocalLocks

  pub data Acquired : Type 0 where
    held : HeldScopeLock → Locks → Acquired
    conflict : Locks → Acquired
    out_of_fuel : Acquired

  abbrev pub local_result : Locks → Option HeldScopeLock × LocalLocks → Acquired
  local_result w (none, locks) = conflict (record w { local_locks = locks })
  local_result w (some h, locks) = held h (record w { local_locks = locks })

  -- A round's attempt: `redis_client.set(key, token, nx=True, ex=_LOCK_TTL_SECONDS)`.
  unfoldable pub try_lock : State → ℕ → Text → Text → State × Bool
  try_lock s now scope token = set_nx s now (lock_key scope) token lock_ttl

  -- What surrounds a wait: in round `i` the server answers or not, the task sleeps `drift i` ticks
  -- longer than it asked, and other workers act on Redis.
  pub record Surroundings : Type 0 where
    pub reachable : ℕ → Bool
    pub drift : ℕ → ℕ
    pub others : ℕ → State → State
    pub local_others : LocalLocks → LocalLocks

  -- The `while True` loop of `_acquire_redis_lock`, from round `i` at the time `now`.
  unfoldable pub acquire_redis_loop : ℕ → Surroundings → Text → Text → ℕ → ℕ → ℕ → Locks → Acquired
  unfolding acquire_local_lock try_lock
  acquire_redis_loop zero env token scope deadline i now w = out_of_fuel
  acquire_redis_loop (suc fuel) env token scope deadline i now w =
      let (store', acquired) = try_lock w.store now scope token in
      let remaining = deadline - now in
      let again =
        acquire_redis_loop fuel env token scope deadline (suc i)
          (now + min lock_poll_interval remaining + env.drift i)
          (record w { store = env.others i store' }) in
      if not (env.reachable i)
      then local_result w (acquire_local_lock env.local_others w.local_locks scope)
      else if acquired
      then held (record { backend = redis; scope = scope; token = some token; released = false })
          (record w { store = store' })
      else if leb deadline now
      then conflict (record w { store = store' })
      else again

  -- `_acquire_redis_lock` at the time `now` with a fresh token. Each round but the last sleeps at
  -- least one tick, so a round for each tick of the wait is enough fuel.
  unfoldable pub acquire_redis_lock : Surroundings → Text → Text → ℕ → Locks → Acquired
  unfolding acquire_redis_loop
  acquire_redis_lock env token scope now w =
      acquire_redis_loop (lock_wait + 1) env token scope (now + lock_wait) 0 now w

  -- `acquire_scope_lock`, given whether `session_store._redis()` has a client.
  unfoldable pub acquire_scope_lock : Bool → Surroundings → Text → Text → ℕ → Locks → Acquired
  unfolding acquire_redis_lock acquire_local_lock
  acquire_scope_lock true env token scope now w = acquire_redis_lock env token scope now w
  acquire_scope_lock false env token scope now w =
      local_result w (acquire_local_lock env.local_others w.local_locks scope)

  -- `_RELEASE_LOCK_SCRIPT`
  unfoldable pub release_script : State → ℕ → Text → Text → State
  release_script s now key token = if get s now key == some token then delete s key else s

  -- The part of `release` for a lock that is not yet released; `reachable` says whether the script
  -- ran. A failure is logged only.
  unfoldable pub release_held : HeldScopeLock → Backend → Option Text → Bool → ℕ → Locks → Locks
  unfolding release_script release_local_lock
  release_held h redis (some token) reachable now w =
      if reachable
      then record w { store = release_script w.store now (lock_key h.scope) token }
      else w
  release_held h redis none reachable now w = w
  release_held h local token reachable now w = record w {
    local_locks = release_local_lock h.scope w.local_locks;
  }

  unfoldable pub release : HeldScopeLock → Bool → ℕ → Locks → HeldScopeLock × Locks
  unfolding release_held
  release h reachable now w =
      if h.released
      then (h, w)
      else (record h { released = true }, release_held h h.backend h.token reachable now w)
