-- ===== src/Breaker/Trial.antt =====
-- src/core/circuit_breaker.py: the half-open state under concurrent calls.
use plaidify.Base.{ℕ, ◌+◌, ◌≤◌, ◌≡◌, refl, List, [], ◌∷◌, map, arith}
use plaidify.Breaker.{
  CircuitBreaker, closed, opened, half_open, entering, succeeding, failing, admitted, before_call,
  on_failure, step, run, on_success,
}
use plaidify.Breaker.Invariant.{IsValid, Counted}

half_open_admits :
    (b : CircuitBreaker) (now : ℕ) → b.state ≡ half_open → before_call b now ≡ admitted b
unfolding before_call
half_open_admits b now h = ground arith

entering_half_open :
    (b : CircuitBreaker) (now : ℕ) → b.state ≡ half_open → step b (entering now) ≡ b
unfolding step
entering_half_open b now h = rw (half_open_admits b now h)

reached :
    (b : CircuitBreaker)
    → Counted b.state b.failures b.failure_threshold
    → b.state ≡ opened
    → b.failure_threshold ≤ b.failures
reached b h e = rw e at h

-- While the breaker is half-open it admits every call that arrives before the trial has ended, not
-- a single one: any number of entries leaves it half-open, and the next call is admitted too.
pub half_open_admits_all :
    (b : CircuitBreaker) (times : List ℕ) (now : ℕ)
    → b.state ≡ half_open
    → (run b (map entering times) ≡ b) × (before_call (run b (map entering times)) now ≡ admitted b)
unfolding run
half_open_admits_all b [] now h = (refl, half_open_admits b now h)
half_open_admits_all b (t ∷ times) now h =
    rw (entering_half_open b t h, run) (half_open_admits_all b times now h)

-- A call that began while the breaker was closed and succeeds after the breaker opened closes it,
-- whatever the time; one that fails then starts the timeout anew and counts one failure more.
pub late_calls :
    (b : CircuitBreaker) (now : ℕ)
    → b.state ≡ opened
    → IsValid b
    → ((step b succeeding).state ≡ closed)
      × ((step b succeeding).failures ≡ 0)
      × ((step b (failing now)).state ≡ opened)
      × ((step b (failing now)).opened_at ≡ now)
      × ((step b (failing now)).failures ≡ b.failures + 1)
unfolding step on_success on_failure
late_calls b now o v =
    let h = reached b v.counted o in
    (ground arith, ground arith, ground arith, ground arith, ground arith)
