-- ===== src/AccessJobs/Lock/Waiting.antt =====
-- src/access_jobs.py `_acquire_redis_lock`: the wait for a lock ends.
use plaidify.Base.{ℕ, zero, suc, ◌+◌, ◌-◌, ◌<◌, ◌≢◌, min, arith}
use plaidify.Base.Text.{Text}
use plaidify.Redis.{Redis}
use plaidify.AccessJobs.Lock.{
  Locks, LocalLocks, out_of_fuel, Surroundings, acquire_local_lock, acquire_redis_loop,
  acquire_redis_lock, lock_wait, lock_poll_interval, local_result, lock_key, lock_ttl,
}

module _ (R : Redis Text) where
  open R use {set_nx}

  local_ends :
      (others : LocalLocks → LocalLocks) (w : Locks R) (scope : Text)
      → local_result R w (acquire_local_lock others w.local_locks scope) ≢ out_of_fuel
  unfolding acquire_local_lock
  local_ends others w scope = ground arith

  loop_ends :
      (fuel : ℕ) (env : Surroundings R) (token scope : Text) (deadline i now : ℕ) (w : Locks R)
      → deadline - now < fuel
      → acquire_redis_loop R fuel env token scope deadline i now w ≢ out_of_fuel
  unfolding acquire_redis_loop
  loop_ends zero env token scope deadline i now w h = absurd (omega arith)
  loop_ends (suc fuel) env token scope deadline i now w h = ground (
    arith,
    local_ends env.local_others w scope,
    loop_ends fuel env token scope deadline (suc i)
        (now + min lock_poll_interval (deadline - now) + env.drift i)
        (record w { store = env.others i (set_nx w.store now (lock_key scope) token lock_ttl).0 }),
  )

  -- However the server answers, whatever other workers do and however long each sleep overruns, the
  -- wait for a lock ends: it never uses up the fuel of a round for each tick of the wait.
  pub acquire_redis_lock_ends :
      (env : Surroundings R) (token scope : Text) (now : ℕ) (w : Locks R)
      → acquire_redis_lock R env token scope now w ≢ out_of_fuel
  unfolding acquire_redis_lock
  acquire_redis_lock_ends env token scope now w =
      loop_ends (lock_wait + 1) env token scope (now + lock_wait) 0 now w (omega arith)
