-- ===== src/AccessJobs/Dispatch/Waiting.antt =====
-- src/access_jobs.py: how a caller makes a job, runs it or waits for its end, and what it is shown of
-- the job. `rows` gives the table at each poll.
use plaidify.Base.{
  ℕ, zero, suc, ◌<◌, ◌≡◌, ◌≢◌, refl, true, false, Option, none, some, [], ◌∷◌, ◌++◌, nat_eq, arith,
}
use plaidify.Base.Compare.{list_eq}
use plaidify.Base.Dict.{Dict, lookup}
use plaidify.Base.Text.{Text, lit}
use plaidify.Json.{Value, text, Codec}
use plaidify.AccessJobs.Job.{
  AccessJob, JobStatus, pending, running, completed, mfa_required, blocked, failed, cancelled,
  deserialize_metadata,
}
use plaidify.AccessJobs.Dispatch.{is_open}

abbrev pub dict_or : Dict Text Value → Option (Dict Text Value) → Dict Text Value
dict_or default (some (kv ∷ d)) = kv ∷ d
dict_or default _ = default

abbrev pub text_or_default : Text → Option Text → Text
text_or_default default (some (c ∷ t)) = c ∷ t
text_or_default default _ = default

abbrev pub value_or : Value → Option Value → Value
value_or default none = default
value_or default (some v) = v

module _ (C : Codec) where
  -- How `_wait_for_terminal_job_result` ends. `awaiting` is that it has not within the polls counted.
  pub data Waited : Type 0 where
    awaiting : Waited
    job_not_found : Text → Waited
    has_result : AccessJob C → Dict Text Value → Waited
    needs_mfa : Text → Value → Text → Waited  -- `site`, `mfa_type`, `session_id`
    error_with : Text → ℕ → Waited  -- `message`, `status_code`

  -- One round of the loop, for a job that is there; `none` is another round.
  unfoldable pub verdict : AccessJob C → Option Waited
  unfolding deserialize_metadata lookup
  verdict job = by_status job.status
    where
      by_status : JobStatus → Option Waited
      by_status completed = some (
          has_result job (
            dict_or ((lit "status", text (lit "completed")) ∷ [])
              (deserialize_metadata C job.result_json)))
      by_status mfa_required = some (
          needs_mfa job.site
            (value_or (text (lit "unknown"))
              (lookup (lit "mfa_type") (dict_or [] (deserialize_metadata C job.metadata_json))))
            (text_or_default [] job.session_id))
      by_status blocked = some (
          error_with (text_or_default (lit "Access job blocked: " ++ job.id) job.error_message) 409)
      by_status failed =
          some (
            error_with (text_or_default (lit "Access job failed: " ++ job.id) job.error_message)
              500)
      by_status cancelled =
          some (
            error_with (text_or_default (lit "Access job failed: " ++ job.id) job.error_message)
              500)
      by_status pending = none
      by_status running = none

  -- `_wait_for_terminal_job_result`, for at most so many rounds.
  unfoldable pub wait_for_terminal_job_result : ℕ → (ℕ → Dict Text (AccessJob C)) → Text → Waited
  unfolding verdict
  wait_for_terminal_job_result zero rows id = awaiting
  wait_for_terminal_job_result (suc fuel) rows id =
      let rest = wait_for_terminal_job_result fuel (λ i. rows (suc i)) id in
      seen rest (lookup id (rows 0))
    where
      decided : Waited → Option Waited → Waited
      decided rest none = rest
      decided rest (some w) = w

      seen : Waited → Option (AccessJob C) → Waited
      seen rest none = job_not_found id
      seen rest (some job) = decided rest (verdict job)

  verdict_open : (job : AccessJob C) → is_open job.status ≡ true → verdict job ≡ none
  unfolding verdict
  verdict_open job h = split job.status h
    where
      split : (st : JobStatus) → is_open st ≡ true → verdict (record job { status = st }) ≡ none
      split pending h = refl
      split running h = refl
      split completed h = cc
      split mfa_required h = cc
      split blocked h = cc
      split failed h = cc
      split cancelled h = cc

  verdict_closed :
      (job : AccessJob C)
      → is_open job.status ≡ false
      → (w : Waited) × (verdict job ≡ some w) × (w ≢ awaiting)
  unfolding verdict
  verdict_closed job h = split job.status h
    where
      split :
          (st : JobStatus)
          → is_open st ≡ false
          → (w : Waited) × (verdict (record job { status = st }) ≡ some w) × (w ≢ awaiting)
      split pending h = absurd cc
      split running h = absurd cc
      split completed h = (_, refl, λ e. cc)
      split mfa_required h = (_, refl, λ e. cc)
      split blocked h = (_, refl, λ e. cc)
      split failed h = (_, refl, λ e. cc)
      split cancelled h = (_, refl, λ e. cc)

  -- A round at which the job is open.
  wait_on :
      (fuel : ℕ) (rows : ℕ → Dict Text (AccessJob C)) (id : Text) (job : AccessJob C)
      → lookup id (rows 0) ≡ some job
      → is_open job.status ≡ true
      → wait_for_terminal_job_result (suc fuel) rows id
        ≡ wait_for_terminal_job_result fuel (λ i. rows (suc i)) id
  unfolding wait_for_terminal_job_result
  wait_on fuel rows id job there e = rw (there, verdict_open job e) refl

  -- A round at which it is not.
  wait_end :
      (fuel : ℕ) (rows : ℕ → Dict Text (AccessJob C)) (id : Text) (job : AccessJob C)
      → lookup id (rows 0) ≡ some job
      → is_open job.status ≡ false
      → (wait_for_terminal_job_result (suc fuel) rows id ≢ awaiting)
        × (verdict job ≡ some (wait_for_terminal_job_result (suc fuel) rows id))
  unfolding wait_for_terminal_job_result
  wait_end fuel rows id job there closed =
      let (w, e, n) = verdict_closed job closed in rw (there, e) (n, refl)

  -- The table has the job pending or running.
  abbrev pub IsOpenIn : Dict Text (AccessJob C) → Text → Type 0
  IsOpenIn rows id = (job : AccessJob C) × (lookup id rows ≡ some job) × (is_open job.status ≡ true)

  -- A caller that waits for a job which is pending or running for `n` polls, and then is neither,
  -- stops at that poll, with the verdict on the row that it finds there.
  pub wait-verdict :
      (n fuel : ℕ) (rows : ℕ → Dict Text (AccessJob C)) (id : Text) (job : AccessJob C)
      → n < fuel
      → ((i : ℕ) → i < n → IsOpenIn (rows i) id)
      → lookup id (rows n) ≡ some job
      → is_open job.status ≡ false
      → (wait_for_terminal_job_result fuel rows id ≢ awaiting)
        × (verdict job ≡ some (wait_for_terminal_job_result fuel rows id))
  wait-verdict n zero rows id job h before there closed = absurd (omega arith)
  wait-verdict zero (suc fuel) rows id job h before there closed =
      wait_end fuel rows id job there closed
  wait-verdict (suc n) (suc fuel) rows id job h before there closed =
      let (first, at_first, e) = before 0 (omega arith) in
      rw (wait_on fuel rows id first at_first e) (
        wait-verdict n fuel (λ i. rows (suc i)) id job (omega arith)
          (λ i lt. before (suc i) (omega arith)) there closed)
