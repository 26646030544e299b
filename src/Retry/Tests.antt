-- ===== src/Retry/Tests.antt =====
-- src/core/circuit_breaker.py `retry_with_backoff`: runs, and its theorems at concrete inputs.
use plaidify.Base.{
  ℕ, zero, suc, ◌≤◌, ◌≡◌, refl, true, none, some, List, [], ◌∷◌, All, length, arith,
}
use plaidify.Retry.{Options, Attempt, returns, transient, Final, value, retry_with_backoff}
use plaidify.Retry.Bounds.{retry_ends}
use plaidify.Retry.Attempts.{success, retry_decided}

abbrev defaults : Options
defaults = record {
  retries = 2;
  base_delay = 500;
  max_delay = 8000;
  jitter = true;
  delay_for = λ _. none;
}

-- Two failures, then a value.
flaky : ℕ → Attempt ℕ
flaky zero = transient 7
flaky (suc zero) = transient 8
flaky (suc (suc n)) = returns 42

no_draw : ℕ → ℕ
no_draw i = 0

flaky_test : retry_with_backoff defaults flaky no_draw ≡ some (value 42, 250 ∷ 500 ∷ [])
unfolding retry_with_backoff flaky no_draw
flaky_test = refl

retry_ends_example :
    (f : Final ℕ) × (sleeps : List ℕ) × (retry_with_backoff defaults flaky no_draw
      ≡ some (f, sleeps))
    × (length sleeps ≤ 2)
    × All (λ s. s ≤ 8000) sleeps
unfolding no_draw
retry_ends_example = retry_ends defaults flaky no_draw (λ i. omega arith)

early_failures : (i : ℕ) → i ≤ 1 → (exc : ℕ) × (flaky i ≡ transient exc)
unfolding flaky
early_failures zero h = (7, refl)
early_failures (suc zero) h = (8, refl)
early_failures (suc (suc i)) h = absurd (omega arith)

retry_decided_example :
    (sleeps : List ℕ) × (retry_with_backoff defaults flaky no_draw ≡ some (value 42, sleeps))
    × (length sleeps ≡ 2)
unfolding flaky
retry_decided_example =
    retry_decided defaults flaky no_draw 2 (value 42) (omega arith)
      (λ i h. early_failures i (omega arith)) (success 42)
