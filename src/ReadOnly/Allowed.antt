-- ===== src/ReadOnly/Allowed.antt =====
-- src/core/read_only_policy.py: what the policy lets through.
use mathlib.Core.Bool.{true≢false}
use plaidify.Base.{
  ◌≡◌, ◌↔◌, refl, sym, ◌∙◌, ==_iff, Bool-cases, inl, inr, Bool, true, false, ◌&&◌, ◌||◌, not, List,
  [], ◌∷◌, any, Option, none, some, ◌==◌, nat_eq, if◌then◌else◌, arith,
}
use plaidify.Base.Compare.{list_eq}
use plaidify.Base.Text.{Text, lit, starts_with}
use plaidify.ReadOnly.{
  ExecutionPhase, auth, mfa, cleanup, read, StepAction, fill, select, execute_js,
  ReadOnlyExecutionPolicy, Request, Pattern, evaluate_step, evaluate_request, evaluate_click,
  is_form, is_write, is_read, after_auth, join_words, first_match,
}

abbrev pub is_none {ℓ} : {A : Type ℓ} → Option A → Bool
is_none none = true
is_none (some a) = false

-- Steps that change the page.
abbrev pub changes_page : StepAction → Bool
changes_page fill = true
changes_page select = true
changes_page execute_js = true
changes_page _ = false

-- A step is let through exactly if it changes nothing on the page, or the policy is off, or
-- authentication has not ended.
pub evaluate_step-allowed :
    (policy : ReadOnlyExecutionPolicy) (action : StepAction)
    → is_none (evaluate_step policy action)
      ≡ not (
          ReadOnlyExecutionPolicy.enabled policy
          && (after_auth (ReadOnlyExecutionPolicy.phase policy) && changes_page action))
unfolding evaluate_step
evaluate_step-allowed policy action = ground arith

allowed_by :
    (on reading write post navigation form : Bool) (a b c : Text)
    → is_none (
        if not on || not reading
        then none
        else if write
        then some a
        else if not post
        then none
        else if navigation
        then some b
        else if form
        then some c
        else none)
      ≡ not ((on && reading) && (write || (post && (navigation || form))))
allowed_by on reading write post navigation form a b c = ground arith

-- What strict reading forbids, by method, body and navigation.
pub data IsForbidden (request : Request) (method kind : Text) : Type 0 where
  put : method ≡ lit "PUT" → IsForbidden request method kind
  patch : method ≡ lit "PATCH" → IsForbidden request method kind
  delete : method ≡ lit "DELETE" → IsForbidden request method kind
  navigation :
      method ≡ lit "POST" → Request.is_navigation request ≡ true → IsForbidden request method kind
  urlencoded_form :
      method ≡ lit "POST"
      → starts_with (lit "application/x-www-form-urlencoded") kind ≡ true
      → IsForbidden request method kind
  multipart_form :
      method ≡ lit "POST"
      → starts_with (lit "multipart/form-data") kind ≡ true
      → IsForbidden request method kind
  text_form :
      method ≡ lit "POST"
      → starts_with (lit "text/plain") kind ≡ true
      → IsForbidden request method kind

-- The tests of `evaluate_request`, put together.
abbrev is_stopped : (Text → Text) → Request → Text → Bool
is_stopped lower request m =
    is_write lower lower m
    || ((m == lit "POST")
        && (Request.is_navigation request || is_form lower lower (Request.content_type request)))

is_none-evaluate_request :
    (upper lower : Text → Text) (policy : ReadOnlyExecutionPolicy) (request : Request)
    → is_none (evaluate_request upper lower policy request)
      ≡ not (
          (ReadOnlyExecutionPolicy.enabled policy && is_read (ReadOnlyExecutionPolicy.phase policy))
          && is_stopped lower request (upper (Request.method request)))
unfolding evaluate_request
is_none-evaluate_request upper lower policy request =
    allowed_by (ReadOnlyExecutionPolicy.enabled policy)
      (is_read (ReadOnlyExecutionPolicy.phase policy))
      (is_write upper lower (upper (Request.method request)))
      (upper (Request.method request) == lit "POST") (Request.is_navigation request)
      (is_form upper lower (Request.content_type request)) _ _ _

or_true : (a : Bool) → (a || true) ≡ true
or_true true = refl
or_true false = refl

second : (a b : Bool) → (a || (if b then true else true)) ≡ true
second a true = or_true a
second a false = or_true a

third : (a b c : Bool) → (a || (if b then true else if c then true else true)) ≡ true
third a true c = or_true a
third a false true = or_true a
third a false false = or_true a

stopped :
    (lower : Text → Text) (request : Request) (m : Text)
    → IsForbidden request m (lower (Request.content_type request))
    → is_stopped lower request m ≡ true
stopped lower request m (put h) = rw h refl
stopped lower request m (patch h) = rw h refl
stopped lower request m (delete h) = rw h refl
stopped lower request m (navigation h n) = rw (h, n) refl
stopped lower request m (urlencoded_form h k) = rw (h, k) (or_true (Request.is_navigation request))
stopped lower request m (multipart_form h k) =
    let kind = lower (Request.content_type request) in
    rw (h, k)
      (second (Request.is_navigation request)
        (starts_with (lit "application/x-www-form-urlencoded") kind))
stopped lower request m (text_form h k) =
    let kind = lower (Request.content_type request) in
    rw (h, k)
      (third (Request.is_navigation request)
        (starts_with (lit "application/x-www-form-urlencoded") kind)
        (starts_with (lit "multipart/form-data") kind))

forbidden :
    (lower : Text → Text) (request : Request) (m : Text)
    → is_stopped lower request m ≡ true
    → IsForbidden request m (lower (Request.content_type request))
forbidden lower request m h = elim (Bool-cases (m == lit "PUT")) [
  | inl e ↦ put ((==_iff m (lit "PUT")).0 e)
  | inr a ↦ elim (Bool-cases (m == lit "PATCH")) [
    | inl e ↦ patch ((==_iff m (lit "PATCH")).0 e)
    | inr b ↦ elim (Bool-cases (m == lit "DELETE")) [
      | inl e ↦ delete ((==_iff m (lit "DELETE")).0 e)
      | inr c ↦ elim (Bool-cases (m == lit "POST")) [
        | inl p ↦ by_body ((==_iff m (lit "POST")).0 p) (rw (a, b, c, p) at h)
        | inr p ↦ absurd (true≢false (sym (rw (a, b, c, p) at h)))
      ]
    ]
  ]
]
  where
    kind : Text
    kind = lower (Request.content_type request)

    by_body :
        m ≡ lit "POST"
        → (Request.is_navigation request || is_form lower lower (Request.content_type request))
          ≡ true
        → IsForbidden request m (lower (Request.content_type request))
    by_body p h = elim (Bool-cases (Request.is_navigation request)) [
      | inl n ↦ navigation p n
      | inr n ↦ elim (Bool-cases (starts_with (lit "application/x-www-form-urlencoded") kind)) [
        | inl e ↦ urlencoded_form p e
        | inr u ↦ elim (Bool-cases (starts_with (lit "multipart/form-data") kind)) [
          | inl e ↦ multipart_form p e
          | inr v ↦ elim (Bool-cases (starts_with (lit "text/plain") kind)) [
            | inl e ↦ text_form p e
            | inr w ↦ absurd (true≢false (sym (rw (n, u, v, w) at h)))
          ]
        ]
      ]
    ]

none_of : {A : Type 0} (o : Option A) → is_none o ≡ true → o ≡ none
none_of none h = refl
none_of (some a) h = absurd (true≢false (sym h))

-- A request is let through exactly if the policy is off, or the phase is another than reading, or the
-- request is none of these, where the method is taken in upper case and the content type in lower
-- case: PUT, PATCH, DELETE, a POST that navigates, and a POST whose content type begins like a URL
-- encoded form, a multipart form or plain text.
pub evaluate_request-allowed :
    (upper lower : Text → Text) (policy : ReadOnlyExecutionPolicy) (request : Request)
    → (evaluate_request upper lower policy request ≡ none) ↔ (
        ¬ (
          (ReadOnlyExecutionPolicy.enabled policy ≡ true)
          × ((ReadOnlyExecutionPolicy.phase policy ≡ read)
              × IsForbidden request
                  (upper (Request.method request))
                  (lower (Request.content_type request)))))
evaluate_request-allowed upper lower policy request = (there, back)
  where
    m : Text
    m = upper (Request.method request)

    tested :
        is_none (evaluate_request upper lower policy request)
        ≡ not (
            (ReadOnlyExecutionPolicy.enabled policy
              && is_read (ReadOnlyExecutionPolicy.phase policy))
            && is_stopped lower request m)
    tested = is_none-evaluate_request upper lower policy request

    there :
        evaluate_request upper lower policy request ≡ none
        → ¬ (
            (ReadOnlyExecutionPolicy.enabled policy ≡ true)
            × ((ReadOnlyExecutionPolicy.phase policy ≡ read)
                × IsForbidden request m (lower (Request.content_type request))))
    there e (on, (reading, f)) =
        true≢false (rw (e, on, reading, stopped lower request m f) at tested)

    back :
        (¬ (
          (ReadOnlyExecutionPolicy.enabled policy ≡ true)
          × ((ReadOnlyExecutionPolicy.phase policy ≡ read)
              × IsForbidden request m (lower (Request.content_type request)))))
        → evaluate_request upper lower policy request ≡ none
    back n = none_of _ (tested ∙ free _ refl _ refl _ refl)
      where
        free :
            (on : Bool)
            → ReadOnlyExecutionPolicy.enabled policy ≡ on
            → (phase : ExecutionPhase) → ReadOnlyExecutionPolicy.phase policy ≡ phase
            → (b : Bool) → is_stopped lower request m ≡ b
            → not ((on && is_read phase) && b) ≡ true
        free false e phase f b g = refl
        free true e auth f b g = refl
        free true e mfa f b g = refl
        free true e cleanup f b g = refl
        free true e read f false g = refl
        free true e read f true g = absurd (n (e, (f, forbidden lower request m g)))

first_match-any :
    (normalize : Text → Text) (ps : List Pattern) (risky : List Pattern) (t : Text)
    → is_none (first_match normalize risky ps t) ≡ not (any (λ p. Pattern.search p t) ps)
first_match-any normalize [] risky t = refl
first_match-any normalize (p ∷ ps) risky t = ground (arith, first_match-any normalize ps risky t)

-- While reading with the policy on, a click is let through exactly if the words that describe it are
-- normalised to nothing or no risky pattern is found in them.
pub evaluate_click-allowed :
    (normalize : Text → Text) (risky : List Pattern) (policy : ReadOnlyExecutionPolicy)
    (selector : Text) (details : List Text)
    → ReadOnlyExecutionPolicy.enabled policy ≡ true
    → ReadOnlyExecutionPolicy.phase policy ≡ read
    → let descriptor = normalize (join_words (selector ∷ details)) in
      is_none (evaluate_click normalize risky policy selector details)
      ≡ ((descriptor == []) || not (any (λ p. Pattern.search p descriptor) risky))
unfolding evaluate_click
evaluate_click-allowed normalize risky policy selector details on reading =
    rw (on, reading)
      (ground (
        arith,
        first_match-any normalize risky risky (normalize (join_words (selector ∷ details))),
      ))
