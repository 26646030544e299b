-- ===== src/ReadOnly.antt =====
-- src/core/read_only_policy.py: `ReadOnlyExecutionPolicy`. The case conversions of Python's strings
-- and the search for the click patterns, which are regular expressions, are parameters.
pub mod Allowed
mod Tests
use plaidify.Base.{
  ℕ, Bool, true, false, ◌&&◌, ◌||◌, not, List, [], ◌∷◌, ◌++◌, length, any, Option, none, some, ◌==◌,
  nat_eq, if◌then◌else◌,
}
use plaidify.Base.Compare.{list_eq}
use plaidify.Base.Text.{Text, lit, starts_with}

pub data ExecutionPhase : Type 0 where
  auth mfa read cleanup : ExecutionPhase

-- src/core/blueprint.py: `StepAction`
pub data StepAction : Type 0 where
  goto fill click wait screenshot extract conditional scroll select iframe : StepAction
  wait_for_navigation execute_js : StepAction

-- `FORM_POST_CONTENT_TYPES`
abbrev pub form_post_content_types : List Text
form_post_content_types =
    lit "application/x-www-form-urlencoded" ∷ lit "multipart/form-data" ∷ lit "text/plain" ∷ []

pub record BlockedAction : Type 0 where
  pub at_phase : ExecutionPhase
  pub action : Text
  pub reason : Text
  pub target : Option Text

pub record ReadOnlyExecutionPolicy : Type 0 where
  pub enabled : Bool
  pub phase : ExecutionPhase
  pub blocked_actions : List BlockedAction

unfoldable pub set_phase : ExecutionPhase → ReadOnlyExecutionPolicy → ReadOnlyExecutionPolicy
set_phase p policy = record policy { phase = p }

unfoldable pub record_blocked :
    Text → Text → Option Text → ReadOnlyExecutionPolicy → ReadOnlyExecutionPolicy
record_blocked action reason target policy = record policy {
  blocked_actions =
      ReadOnlyExecutionPolicy.blocked_actions policy
      ++ record {
        at_phase = ReadOnlyExecutionPolicy.phase policy;
        action = action;
        reason = reason;
        target = target;
      }
        ∷ [];
}

abbrev pub is_read : ExecutionPhase → Bool
is_read read = true
is_read _ = false

abbrev pub after_auth : ExecutionPhase → Bool
after_auth read = true
after_auth cleanup = true
after_auth _ = false

abbrev pub blocked : Text
blocked = lit " are blocked after authentication in strict read-only mode"

abbrev step_reason : StepAction → Option Text
step_reason fill = some (lit "fill steps" ++ blocked)
step_reason select = some (lit "select steps" ++ blocked)
step_reason execute_js = some (lit "execute_js steps" ++ blocked)
step_reason _ = none

unfoldable pub evaluate_step : ReadOnlyExecutionPolicy → StepAction → Option Text
evaluate_step policy action =
    if not (ReadOnlyExecutionPolicy.enabled policy)
    then none
    else if after_auth (ReadOnlyExecutionPolicy.phase policy)
    then step_reason action
    else none

-- What is read of a request. `is_navigation` is what `is_navigation_request` answers, or `false` if
-- it is not there or raises; a missing method is "GET", and a missing content type is empty.
pub record Request : Type 0 where
  pub method : Text
  pub is_navigation : Bool
  pub content_type : Text

module _ (upper lower : Text → Text) where
  abbrev pub is_form : Text → Bool
  is_form t = any (λ prefix. starts_with prefix (lower t)) form_post_content_types

  abbrev pub is_write : Text → Bool
  is_write m = (m == lit "PUT") || (m == lit "PATCH") || (m == lit "DELETE")

  unfoldable pub evaluate_request : ReadOnlyExecutionPolicy → Request → Option Text
  evaluate_request policy request =
      let m = upper (Request.method request) in
      if not (ReadOnlyExecutionPolicy.enabled policy)
        || not (is_read (ReadOnlyExecutionPolicy.phase policy))
      then none
      else if is_write m
      then some (m ++ lit " requests" ++ blocked)
      else if not (m == lit "POST")
      then none
      else if Request.is_navigation request
      then some (lit "navigation POST requests" ++ blocked)
      else if is_form (Request.content_type request)
      then some (lit "form submissions" ++ blocked)
      else none

-- A click pattern: its text, and whether it is found in a text.
pub record Pattern : Type 0 where
  pub source : Text
  pub search : Text → Bool

abbrev pub join_words : List Text → Text
join_words [] = []
join_words (w ∷ []) = w
join_words (w ∷ v ∷ ws) = w ++ lit " " ++ join_words (v ∷ ws)

-- `normalize` stands for `_normalize_descriptor`, and `risky` for `RISKY_CLICK_PATTERNS`.
module _ (normalize : Text → Text) (risky : List Pattern) where
  abbrev pub first_match : List Pattern → Text → Option Text
  first_match [] t = none
  first_match (p ∷ ps) t =
      if Pattern.search p t
      then some (
          lit "click target matched a risky action pattern after authentication: "
          ++ Pattern.source p)
      else first_match ps t

  -- `details` are the values of the metadata that are not falsy, as texts.
  unfoldable pub evaluate_click : ReadOnlyExecutionPolicy → Text → List Text → Option Text
  evaluate_click policy selector details =
      let descriptor = normalize (join_words (selector ∷ details)) in
      if not (ReadOnlyExecutionPolicy.enabled policy)
        || not (is_read (ReadOnlyExecutionPolicy.phase policy))
      then none
      else if descriptor == []
      then none
      else first_match risky descriptor
