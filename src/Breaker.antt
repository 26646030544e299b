-- ===== src/Breaker.antt =====
-- src/core/circuit_breaker.py: `CircuitBreaker`.
-- Times are readings of `time.monotonic()` counted in ticks, so they never fall; the argument `now`
-- of an operation is the reading it takes. Each operation runs under the breaker's lock, so a
-- concurrent history is a list of events, in the order in which the lock was taken.
pub mod Invariant
pub mod Opening
pub mod Trial
mod Tests
use plaidify.Base.{ℕ, ◌+◌, ◌-◌, max, Bool, true, false, ◌||◌, List, [], ◌∷◌, leb, if◌then◌else◌}

pub data CircuitState : Type 0 where
  closed opened half_open : CircuitState

pub record CircuitBreaker : Type 0 where
  pub failure_threshold : ℕ
  pub reset_timeout : ℕ
  pub state : CircuitState
  pub failures : ℕ
  pub opened_at : ℕ

-- `CircuitBreakerOpenError` with its `retry_after`, or the breaker that the call may use.
pub data Admission : Type 0 where
  open_error : ℕ → Admission
  admitted : CircuitBreaker → Admission

-- `__init__`: a threshold below 1 counts as 1.
unfoldable pub init : ℕ → ℕ → CircuitBreaker
init failure_threshold reset_timeout = record {
  failure_threshold = max 1 failure_threshold;
  reset_timeout = max 0 reset_timeout;
  state = closed;
  failures = 0;
  opened_at = 0;
}

unfoldable pub reset : CircuitBreaker → CircuitBreaker
reset b = record b { state = closed; failures = 0; opened_at = 0 }

-- The test of `_before_call` in the state that it finds.
unfoldable pub admit : CircuitState → CircuitBreaker → ℕ → Admission
admit opened b now =
    let elapsed = now - b.opened_at in
    if leb b.reset_timeout elapsed
    then admitted (record b { state = half_open })
    else open_error (b.reset_timeout - elapsed)
admit closed b now = admitted b
admit half_open b now = admitted b

unfoldable pub before_call : CircuitBreaker → ℕ → Admission
unfolding admit
before_call b now = admit b.state b now

unfoldable pub on_success : CircuitBreaker → CircuitBreaker
on_success b = record b { failures = 0; state = closed }

abbrev is_half_open : CircuitState → Bool
is_half_open half_open = true
is_half_open _ = false

unfoldable pub on_failure : CircuitBreaker → ℕ → CircuitBreaker
on_failure b now =
    let counted = record b { failures = b.failures + 1 } in
    if is_half_open b.state || leb b.failure_threshold (b.failures + 1)
    then record counted { state = opened; opened_at = now }
    else counted

-- How the wrapped coroutine ends.
pub data Outcome {ℓ} (A : Type ℓ) : Type ℓ where
  returned : A → Outcome A
  raised : ℕ → Outcome A

pub data CallResult {ℓ} (A : Type ℓ) : Type ℓ where
  result : A → CallResult A
  reraised : ℕ → CallResult A
  rejected : ℕ → CallResult A

-- The rest of `call` once the coroutine ended, at the time `finish`.
abbrev settle {ℓ} : {A : Type ℓ} → CircuitBreaker → Outcome A → ℕ → CallResult A × CircuitBreaker
settle b (returned a) finish = (result a, on_success b)
settle b (raised exc) finish = (reraised exc, on_failure b finish)

-- `call`, with no other call between its start and its end. Between the two the coroutine runs.
unfoldable pub call {ℓ} :
    {A : Type ℓ} → CircuitBreaker → ℕ → Outcome A → ℕ → CallResult A × CircuitBreaker
unfolding before_call
call b start outcome finish = elim (before_call b start) [
  | open_error retry_after ↦ (rejected retry_after, b)
  | admitted b' ↦ settle b' outcome finish
]

-- What a concurrent history is made of.
pub data Event : Type 0 where
  entering : ℕ → Event
  succeeding : Event
  failing : ℕ → Event
  resetting : Event

-- A rejected call leaves the breaker as it was.
abbrev after : CircuitBreaker → Admission → CircuitBreaker
after b (open_error _) = b
after b (admitted b') = b'

unfoldable pub step : CircuitBreaker → Event → CircuitBreaker
unfolding before_call on_success on_failure reset
step b (entering now) = after b (before_call b now)
step b succeeding = on_success b
step b (failing now) = on_failure b now
step b resetting = reset b

unfoldable pub run : CircuitBreaker → List Event → CircuitBreaker
run b [] = b
run b (e ∷ es) = run (step b e) es
