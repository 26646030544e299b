-- ===== src/Breaker/Invariant.antt =====
-- src/core/circuit_breaker.py: what holds of a breaker after any history.
use plaidify.Base.{ℕ, ◌≤◌, ◌<◌, List, [], ◌∷◌, arith}
use plaidify.Breaker.{
  CircuitBreaker, CircuitState, closed, opened, half_open, Event, entering, succeeding, failing,
  resetting, init, step, run,
}

-- The failure count tells the state: it is below the threshold exactly while the breaker is closed.
abbrev pub Counted : CircuitState → ℕ → ℕ → Type 0
Counted closed failures threshold = failures < threshold
Counted opened failures threshold = threshold ≤ failures
Counted half_open failures threshold = threshold ≤ failures

pub record IsValid (b : CircuitBreaker) : Type 0 where
  pub positive : 1 ≤ b.failure_threshold
  pub counted : Counted b.state b.failures b.failure_threshold

pub init-IsValid : (threshold timeout : ℕ) → IsValid (init threshold timeout)
unfolding init
init-IsValid threshold timeout = record { positive = omega arith; counted = omega arith }

pub step-IsValid : (b : CircuitBreaker) (e : Event) → IsValid b → IsValid (step b e)
unfolding step
step-IsValid b (entering now) v = ground arith
step-IsValid b succeeding v = ground arith
step-IsValid b (failing now) v = ground arith
step-IsValid b resetting v = ground arith

run-IsValid : (b : CircuitBreaker) (es : List Event) → IsValid b → IsValid (run b es)
unfolding run
run-IsValid b [] v = v
run-IsValid b (e ∷ es) v = run-IsValid (step b e) es (step-IsValid b e v)

-- After every history of a new breaker, under any interleaving of calls, the threshold is at least
-- 1, and the failure count is below it while the breaker is closed and has reached it otherwise.
pub run-init-IsValid :
    (threshold timeout : ℕ) (es : List Event) → IsValid (run (init threshold timeout) es)
run-init-IsValid threshold timeout es = run-IsValid _ es (init-IsValid threshold timeout)
