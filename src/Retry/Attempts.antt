-- ===== src/Retry/Attempts.antt =====
-- src/core/circuit_breaker.py: which attempt decides the result of `retry_with_backoff`.
use native.Mathlib.Nat.{add-zero, zero-add}
use plaidify.Base.{
  ℕ, zero, suc, ◌+◌, ◌≤◌, ◌<◌, ◌≡◌, refl, some, List, [], ◌∷◌, length, arith, leb, true, false,
}
use plaidify.Retry.{
  Options, Attempt, returns, transient, fatal, Final, value, error, with_sleep, sleep_for,
  retry_loop, retry_with_backoff,
}

-- One round of the loop, for each way in which an attempt ends.
module _ {A : Type 0} (o : Options) (attempts : ℕ → Attempt A) (draws : ℕ → ℕ)
    (fuel attempt : ℕ) where
  pub loop_returns :
      (a : A)
      → attempts attempt ≡ returns a
      → retry_loop (suc fuel) o attempts draws attempt ≡ some (value a, [])
  unfolding retry_loop
  loop_returns a p = rw (p, retry_loop)

  pub loop_fatal :
      (exc : ℕ)
      → attempts attempt ≡ fatal exc
      → retry_loop (suc fuel) o attempts draws attempt ≡ some (error exc, [])
  unfolding retry_loop
  loop_fatal exc p = rw (p, retry_loop)

  pub loop_exhausted :
      (exc : ℕ)
      → attempts attempt ≡ transient exc
      → o.retries ≤ attempt
      → retry_loop (suc fuel) o attempts draws attempt ≡ some (error exc, [])
  unfolding retry_loop
  loop_exhausted exc p h =
      let q : leb o.retries attempt ≡ true = ground arith in rw (p, retry_loop) (rw q)

  pub loop_again :
      (exc : ℕ)
      → attempts attempt ≡ transient exc
      → attempt < o.retries
      → retry_loop (suc fuel) o attempts draws attempt
        ≡ with_sleep
            (sleep_for o exc attempt (draws attempt))
            (retry_loop fuel o attempts draws (attempt + 1))
  unfolding retry_loop
  loop_again exc p h =
      let q : leb o.retries attempt ≡ false = ground arith in rw (p, retry_loop) (rw q)

-- What an attempt that ends the loop makes of the result: a value is returned, an exception of
-- another type is raised at once, and one of a type in `retry_on` after the last retry.
pub data Decides {A : Type 0} (o : Options) (k : ℕ) : Attempt A → Final A → Type 0 where
  success : (a : A) → Decides o k (returns a) (value a)
  refused : (exc : ℕ) → Decides o k (fatal exc) (error exc)
  exhausted : (exc : ℕ) → k ≡ o.retries → Decides o k (transient exc) (error exc)

shift : (a i : ℕ) → (a + 1) + i ≡ a + suc i
shift a i = omega arith

module _ {A : Type 0} (o : Options) (attempts : ℕ → Attempt A) (draws : ℕ → ℕ) where
  loop_stops :
      (fuel attempt : ℕ) (seen : Attempt A) (f : Final A)
      → attempts attempt ≡ seen
      → Decides o attempt seen f
      → retry_loop (suc fuel) o attempts draws attempt ≡ some (f, [])
  loop_stops fuel attempt _ _ p (success a) = loop_returns o attempts draws fuel attempt a p
  loop_stops fuel attempt _ _ p (refused exc) = loop_fatal o attempts draws fuel attempt exc p
  loop_stops fuel attempt _ _ p (exhausted exc e) =
      loop_exhausted o attempts draws fuel attempt exc p (omega arith)

  loop_decided :
      (fuel attempt left : ℕ) (f : Final A)
      → left < fuel
      → attempt + left ≤ o.retries
      → ((i : ℕ) → i < left → (exc : ℕ) × (attempts (attempt + i) ≡ transient exc))
      → Decides o (attempt + left) (attempts (attempt + left)) f
      → (sleeps : List ℕ) × (retry_loop fuel o attempts draws attempt ≡ some (f, sleeps))
        × (length sleeps ≡ left)
  loop_decided zero attempt left f h le before d = absurd (omega arith)
  loop_decided (suc fuel) attempt zero f h le before d =
      ([], loop_stops fuel attempt _ f refl (rw add-zero at d), refl)
  loop_decided (suc fuel) attempt (suc left) f h le before d =
      let (exc, p) = before 0 (omega arith) in
      let (sleeps, q, n) =
        loop_decided fuel (attempt + 1) left f (omega arith) (omega arith)
          (λ i b. let (x, r) = before (suc i) (omega arith) in (x, rw (shift attempt i) r))
          (rw (shift attempt left) d) in
      (
        sleep_for o exc attempt (draws attempt) ∷ sleeps,
        rw (
          loop_again o attempts draws fuel attempt exc (rw (add-zero attempt) at p) (omega arith),
          q,
        ),
        omega arith,
      )

  -- Where every attempt before number `k` raised an exception that is retried, with `k` at most
  -- `retries`, and attempt number `k` ends the loop, the loop returns or raises what that attempt
  -- decides, after exactly `k` sleeps.
  pub retry_decided :
      (k : ℕ) (f : Final A)
      → k ≤ o.retries
      → ((i : ℕ) → i < k → (exc : ℕ) × (attempts i ≡ transient exc))
      → Decides o k (attempts k) f
      → (sleeps : List ℕ) × (retry_with_backoff o attempts draws ≡ some (f, sleeps))
        × (length sleeps ≡ k)
  unfolding retry_with_backoff
  retry_decided k f h before d =
      loop_decided (suc o.retries) 0 k f (omega arith) (omega arith)
        (λ i b. let (x, r) = before i b in (x, rw (zero-add i) r)) (rw (zero-add k) d)
