-- ===== src/Retry/Bounds.antt =====
-- src/core/circuit_breaker.py: how long `retry_with_backoff` sleeps, and how often.
use plaidify.Base.{
  ℕ, zero, suc, ◌+◌, ◌*◌, ◌/◌, ◌^◌, ◌≤◌, ◌<◌, min, max, ◌≡◌, refl, Bool, true, false, Option, some,
  List, [], ◌∷◌, All, length, arith, if◌then◌else◌,
}
use plaidify.Retry.Attempts.{loop_returns, loop_fatal, loop_exhausted, loop_again}
use plaidify.Retry.{
  value, error, Options, Attempt, returns, transient, fatal, Final, sleep_for, retry_loop,
  retry_with_backoff, chosen,
}

scaled : (delay draw bound : ℕ) → draw ≤ bound → delay * draw ≤ delay * bound
scaled delay draw bound h = grind arith

-- A jittered delay is at least half of the delay and at most the delay.
jittered :
    (delay draw : ℕ)
    → draw < 2 ^ 53
    → (delay * (2 ^ 53 + draw) / 2 ^ 54 ≤ delay) × (delay / 2 ≤ delay * (2 ^ 53 + draw) / 2 ^ 54)
jittered delay draw h =
    let p : delay * draw ≤ delay * 2 ^ 53 = scaled delay draw (2 ^ 53) (omega arith) in
    (omega arith, omega arith)

-- What the exponential schedule or `delay_for` asks for, within `max_delay`.
abbrev pub nominal : Options → ℕ → ℕ → ℕ
nominal o exc attempt =
    min o.max_delay (max 0 (chosen (o.delay_for exc) (o.base_delay * 2 ^ attempt)))

-- A sleep never exceeds what was asked for, clamped to `max_delay`, and jitter takes at most half
-- of it away.
pub sleep_bounds :
    (o : Options) (exc attempt draw : ℕ)
    → draw < 2 ^ 53
    → (sleep_for o exc attempt draw ≤ nominal o exc attempt)
      × (nominal o exc attempt / 2 ≤ sleep_for o exc attempt draw)
unfolding sleep_for
sleep_bounds o exc attempt draw h = go o.jitter
  where
    go :
        (j : Bool)
        → ((if j then nominal o exc attempt * (2 ^ 53 + draw) / 2 ^ 54 else nominal o exc attempt)
            ≤ nominal o exc attempt)
          × (nominal o exc attempt / 2 ≤ (
              if j
              then nominal o exc attempt * (2 ^ 53 + draw) / 2 ^ 54
              else nominal o exc attempt))
    go true = jittered _ draw h
    go false = (omega arith, omega arith)

-- The loop ends, with sleeps within `max_delay` and no more of them than the rounds that are left.
Ends : {A : Type 0} → Options → ℕ → Option (Final A × List ℕ) → Type 0
Ends {A} o left r =
    (f : Final A) × (sleeps : List ℕ) × (r ≡ some (f, sleeps))
    × (length sleeps ≤ left)
    × All (λ s. s ≤ o.max_delay) sleeps

sleep-le-max :
    (o : Options) (exc attempt draw : ℕ)
    → draw < 2 ^ 53
    → sleep_for o exc attempt draw ≤ o.max_delay
sleep-le-max o exc attempt draw h = omega (arith, sleep_bounds o exc attempt draw h)

module _ {A : Type 0} (o : Options) (attempts : ℕ → Attempt A) (draws : ℕ → ℕ)
    (drawn : (i : ℕ) → draws i < 2 ^ 53) where
  loop-Ends :
      (fuel attempt left : ℕ)
      → left < fuel
      → attempt + left ≡ o.retries
      → (seen : Attempt A) → attempts attempt ≡ seen
      → Ends o left (retry_loop fuel o attempts draws attempt)
  unfolding Ends
  loop-Ends (suc fuel) attempt left h e (returns a) p =
      (value a, [], loop_returns o attempts draws fuel attempt a p, omega arith, tt)
  loop-Ends (suc fuel) attempt left h e (fatal exc) p =
      (error exc, [], loop_fatal o attempts draws fuel attempt exc p, omega arith, tt)
  loop-Ends (suc fuel) attempt zero h e (transient exc) p = (
    error exc,
    [],
    loop_exhausted o attempts draws fuel attempt exc p (omega arith),
    omega arith,
    tt,
  )
  loop-Ends (suc fuel) attempt (suc left) h e (transient exc) p =
      let (f, sleeps, q, short, bounded) =
        loop-Ends fuel (attempt + 1) left (omega arith) (omega arith) _ refl in
      (
        f,
        sleep_for o exc attempt (draws attempt) ∷ sleeps,
        rw (loop_again o attempts draws fuel attempt exc p (omega arith), q),
        omega arith,
        (sleep-le-max o exc attempt _ (drawn attempt), bounded),
      )
  loop-Ends zero attempt left h e seen p = absurd (omega arith)

-- The loop always ends: there are at most `retries` sleeps, so at most `retries + 1` attempts, and
-- no sleep is longer than `max_delay`.
pub retry_ends :
    {A : Type 0} (o : Options) (attempts : ℕ → Attempt A) (draws : ℕ → ℕ)
    → ((i : ℕ) → draws i < 2 ^ 53)
    → (f : Final A) × (sleeps : List ℕ) × (retry_with_backoff o attempts draws ≡ some (f, sleeps))
      × (length sleeps ≤ o.retries)
      × All (λ s. s ≤ o.max_delay) sleeps
unfolding retry_with_backoff Ends
retry_ends o attempts draws drawn =
    loop-Ends o attempts draws drawn (suc o.retries) 0 o.retries (omega arith) (omega arith) _ refl
