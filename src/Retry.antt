-- ===== src/Retry.antt =====
-- src/core/circuit_breaker.py: `retry_with_backoff`.
-- Delays are counted in ticks of a fixed fraction of a second. `random.random()` is a whole number
-- of 2^53 parts, which is the argument `draw`; a jittered delay is rounded down to a tick.
pub mod Bounds
pub mod Attempts
mod Tests
use plaidify.Base.{
  ℕ, zero, suc, ◌+◌, ◌*◌, ◌/◌, ◌^◌, min, max, Bool, true, false, Option, none, some, List, [], ◌∷◌,
  leb, if◌then◌else◌,
}

-- One attempt: a value, an exception of a type in `retry_on`, or another exception.
pub data Attempt {ℓ} (A : Type ℓ) : Type ℓ where
  returns : A → Attempt A
  transient : ℕ → Attempt A
  fatal : ℕ → Attempt A

-- What the caller sees in the end.
pub data Final {ℓ} (A : Type ℓ) : Type ℓ where
  value : A → Final A
  error : ℕ → Final A

-- The keyword arguments. `delay_for` answers with a delay for some exceptions; a negative one,
-- which the code clamps to 0, is given as 0.
pub record Options : Type 0 where
  pub retries : ℕ
  pub base_delay : ℕ
  pub max_delay : ℕ
  pub jitter : Bool
  pub delay_for : ℕ → Option ℕ

abbrev chosen : Option ℕ → ℕ → ℕ
chosen (some delay) backoff = delay
chosen none backoff = backoff

-- The sleep after the failed attempt number `attempt`.
unfoldable pub sleep_for : Options → ℕ → ℕ → ℕ → ℕ
sleep_for o exc attempt draw =
    let delay = min o.max_delay (max 0 (chosen (o.delay_for exc) (o.base_delay * 2 ^ attempt))) in
    if o.jitter then delay * (2 ^ 53 + draw) / 2 ^ 54 else delay

abbrev pub with_sleep {ℓ} : {A : Type ℓ} → ℕ → Option (Final A × List ℕ) → Option (Final A × List ℕ)
with_sleep s none = none
with_sleep s (some (r, sleeps)) = some (r, s ∷ sleeps)

-- The `while True` loop. `attempts i` is what the call of `fn` number `i` does and `draws i` the
-- random number after it. The result has the sleeps in order; without fuel it is `none`.
unfoldable pub retry_loop {ℓ} :
    {A : Type ℓ} → ℕ → Options → (ℕ → Attempt A) → (ℕ → ℕ) → ℕ → Option (Final A × List ℕ)
unfolding sleep_for
retry_loop zero o attempts draws attempt = none
retry_loop (suc fuel) o attempts draws attempt =
    let again = retry_loop fuel o attempts draws (attempt + 1) in
    elim (attempts attempt) [
      | returns a ↦ some (value a, [])
      | fatal exc ↦ some (error exc, [])
      | transient exc ↦
          if leb o.retries attempt
          then some (error exc, [])
          else with_sleep (sleep_for o exc attempt (draws attempt)) again
    ]

-- Each round that goes on raises `attempt`, which stops at `retries`.
unfoldable pub retry_with_backoff {ℓ} :
    {A : Type ℓ} → Options → (ℕ → Attempt A) → (ℕ → ℕ) → Option (Final A × List ℕ)
unfolding retry_loop
retry_with_backoff o attempts draws = retry_loop (suc o.retries) o attempts draws 0
