-- ===== src/Breaker/Tests.antt =====
-- src/core/circuit_breaker.py: runs of a breaker, and its theorems at concrete inputs.
use plaidify.Base.{ℕ, ◌≡◌, refl, [], ◌∷◌, arith}
use plaidify.Breaker.{
  CircuitBreaker, closed, opened, half_open, entering, succeeding, failing, returned, result, init,
  step, run, call, on_success,
}
use plaidify.Breaker.Invariant.{IsValid, run-init-IsValid}
use plaidify.Breaker.Opening.{call-opened}

abbrev fresh : CircuitBreaker
fresh = record {
  failure_threshold = 3;
  reset_timeout = 30;
  state = closed;
  failures = 0;
  opened_at = 0;
}

abbrev tripped : CircuitBreaker
tripped = record {
  failure_threshold = 3;
  reset_timeout = 30;
  state = opened;
  failures = 3;
  opened_at = 9;
}

abbrev trial : CircuitBreaker
trial = record {
  failure_threshold = 3;
  reset_timeout = 30;
  state = half_open;
  failures = 3;
  opened_at = 9;
}

run_test : run (init 3 30) (failing 5 ∷ failing 7 ∷ failing 9 ∷ []) ≡ tripped
unfolding run step init
run_test = refl

recovery_test : run tripped (entering 39 ∷ succeeding ∷ []) ≡ record fresh { opened_at = 9 }
unfolding run step
recovery_test = refl

run-init-IsValid_example : IsValid (run (init 3 30) (failing 5 ∷ succeeding ∷ failing 7 ∷ []))
run-init-IsValid_example = run-init-IsValid 3 30 (failing 5 ∷ succeeding ∷ failing 7 ∷ [])

recovered_call :
    call {A = ℕ} tripped 40 (returned 7) 41 ≡ (result 7, record fresh { opened_at = 9 })
unfolding call on_success
recovered_call = refl

call-opened_example : (call {A = ℕ} tripped 40 (returned 7) 41).0 ≡ result 7
call-opened_example =
    ((call-opened {A = ℕ} tripped 40 41 (returned 7) refl (omega arith)).1 (omega arith)).0
