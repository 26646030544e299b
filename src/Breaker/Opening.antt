-- ===== src/Breaker/Opening.antt =====
-- src/core/circuit_breaker.py: when the breaker opens, and whom it then turns away.
use plaidify.Base.{ℕ, ◌+◌, ◌-◌, ◌≤◌, ◌<◌, ◌≡◌, List, [], ◌∷◌, length, arith, dec_lt}
use plaidify.Breaker.{
  CircuitBreaker, closed, opened, Outcome, rejected, CallResult, result, reraised, returned, raised,
  on_success, on_failure, call,
}
use plaidify.Breaker.Invariant.{IsValid, Counted}

-- Failures at the given times, with no success between them.
pub fail_all : CircuitBreaker → List ℕ → CircuitBreaker
fail_all b [] = b
fail_all b (now ∷ times) = fail_all (on_failure b now) times

on_failure_closed :
    (b : CircuitBreaker) (now : ℕ)
    → b.state ≡ closed
    → b.failures + 1 < b.failure_threshold
    → on_failure b now ≡ record b { failures = b.failures + 1 }
unfolding on_failure
on_failure_closed b now c h = ground arith

on_failure_opens :
    (b : CircuitBreaker) (now : ℕ)
    → b.failure_threshold ≤ b.failures + 1
    → (on_failure b now).state ≡ opened
unfolding on_failure
on_failure_opens b now h = ground arith

on_failure_counts :
    (b : CircuitBreaker) (now : ℕ)
    → ((on_failure b now).failures ≡ b.failures + 1)
      × ((on_failure b now).failure_threshold ≡ b.failure_threshold)
unfolding on_failure
on_failure_counts b now = (ground arith, ground arith)

fail_all_open :
    (b : CircuitBreaker) (times : List ℕ)
    → b.failure_threshold ≤ b.failures
    → b.state ≡ opened
    → (fail_all b times).state ≡ opened
unfolding fail_all
fail_all_open b [] h o = o
fail_all_open b (now ∷ times) h o =
    fail_all_open (on_failure b now) times (omega (arith, on_failure_counts b now))
      (on_failure_opens b now (omega arith))

fail_all-state :
    (b : CircuitBreaker) (times : List ℕ)
    → b.state ≡ closed
    → b.failures < b.failure_threshold
    → (b.failures + length times < b.failure_threshold → (fail_all b times).state ≡ closed)
      × (b.failure_threshold ≤ b.failures + length times → (fail_all b times).state ≡ opened)
unfolding fail_all
fail_all-state b [] c below = (λ _. c, λ h. absurd (omega arith))
fail_all-state b (now ∷ times) c below = elim (dec_lt (b.failures + 1) b.failure_threshold) [
  | yes more ↦
      rw (on_failure_closed b now c more, fail_all)
        (let later = fail_all-state (record b { failures = b.failures + 1 }) times c more in
          (λ h. later.0 (omega arith), λ h. later.1 (omega arith)))
  | no enough ↦ (
    λ h. absurd (omega arith),
    λ _.
        fail_all_open (on_failure b now) times (omega (arith, on_failure_counts b now))
          (on_failure_opens b now (omega arith)),
  )
]

-- From a valid closed breaker, a row of failures with no success between them leaves the breaker
-- closed as long as the failures counted so far stay below the threshold, and open from then on.
pub opens_at_threshold :
    (b : CircuitBreaker) (times : List ℕ)
    → IsValid b
    → b.state ≡ closed
    → (b.failures + length times < b.failure_threshold → (fail_all b times).state ≡ closed)
      × (b.failure_threshold ≤ b.failures + length times → (fail_all b times).state ≡ opened)
opens_at_threshold b times v c = fail_all-state b times c (below b v.counted c)
  where
    below :
        (b : CircuitBreaker)
        → Counted b.state b.failures b.failure_threshold
        → b.state ≡ closed
        → b.failures < b.failure_threshold
    below b h e = rw e at h

-- The outcome of a trial call: what is returned, and the breaker that is left.
abbrev pub Settles :
    {A : Type 0} → CircuitBreaker → Outcome A → ℕ → CallResult A × CircuitBreaker → Type 0
Settles b (returned a) finish (r, b') = (r ≡ result a) × (b'.state ≡ closed) × (b'.failures ≡ 0)
Settles b (raised exc) finish (r, b') =
    (r ≡ reraised exc)
    × (b'.state ≡ opened)
    × (b'.opened_at ≡ finish)
    × (b'.failures ≡ b.failures + 1)

early :
    {A : Type 0} (b : CircuitBreaker) (start finish : ℕ) (o : Outcome A)
    → b.state ≡ opened
    → b.opened_at ≤ start
    → start < b.opened_at + b.reset_timeout
    → call b start o finish ≡ (rejected (b.opened_at + b.reset_timeout - start), b)
unfolding call
early b start finish o e le h = ground arith

late :
    {A : Type 0} (b : CircuitBreaker) (start finish : ℕ) (o : Outcome A)
    → b.state ≡ opened
    → b.opened_at ≤ start
    → b.opened_at + b.reset_timeout ≤ start
    → Settles b o finish (call b start o finish)
unfolding call on_success on_failure
late b start finish (returned a) e le h = ground arith
late b start finish (raised exc) e le h = ground arith

-- While a breaker is open and its timeout has not passed, `call` rejects whatever the coroutine
-- would do: the breaker is left as it was, and the wait that the error names ends exactly when the
-- timeout does. From that moment on `call` runs the coroutine: a success closes the breaker with no
-- failure counted, an exception opens it again from the time at which the coroutine ended.
pub call-opened :
    {A : Type 0} (b : CircuitBreaker) (start finish : ℕ) (o : Outcome A)
    → b.state ≡ opened
    → b.opened_at ≤ start
    → (start < b.opened_at + b.reset_timeout
        → (wait : ℕ) × (call b start o finish ≡ (rejected wait, b))
          × (start + wait ≡ b.opened_at + b.reset_timeout))
      × (b.opened_at + b.reset_timeout ≤ start → Settles b o finish (call b start o finish))
call-opened b start finish o e le = (
  λ h. (b.opened_at + b.reset_timeout - start, early b start finish o e le h, omega arith),
  late b start finish o e le,
)
