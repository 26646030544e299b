-- ===== src/ReadOnly/Tests.antt =====
-- Runs of src/core/read_only_policy.py at concrete inputs.
use plaidify.Base.{◌≡◌, ◌↔◌, true, false, [], none}
use plaidify.Base.Text.{Text, lit, starts_with}
use plaidify.ReadOnly.{read, ReadOnlyExecutionPolicy, Request, Pattern, evaluate_request}
use plaidify.ReadOnly.Allowed.{IsForbidden, evaluate_request-allowed}

abbrev reading : ReadOnlyExecutionPolicy
reading = record { enabled = true; phase = read; blocked_actions = [] }

abbrev same : Text → Text
same t = t

abbrev form_post : Request
form_post = record {
  method = lit "POST";
  is_navigation = false;
  content_type = lit "text/plain; charset=utf-8";
}

abbrev transfer : Pattern
transfer = record { source = lit "transfer"; search = starts_with (lit "transfer") }

evaluate_request-allowed_example : (evaluate_request same same reading form_post ≡ none) ↔ (
    ¬ (
      (true ≡ true)
      × ((read ≡ read) × IsForbidden form_post (lit "POST") (lit "text/plain; charset=utf-8"))))
evaluate_request-allowed_example = evaluate_request-allowed same same reading form_post
