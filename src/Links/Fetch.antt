-- ===== src/Links/Fetch.antt =====
-- src/routers/links.py `fetch_data`: the fields that a caller may see, the job that fetches them and the
-- answer. The audit entry at the end is left out.
use plaidify.Base.{
  ℕ, Bool, true, false, ◌&&◌, not, Option, none, some, List, [], ◌∷◌, ◌⊎◌, inl, inr, if◌then◌else◌,
  ltb, nat_eqb, ◌==◌, nat_eq, map, take, filterb,
}
use plaidify.Base.Compare.{list_eq}
use plaidify.Base.Dict.{Dict, lookup, insert}
use plaidify.Base.Text.{Text, lit}
use plaidify.Json.{Value, null, bool, text, arr, obj, of_list, of_dict, to_dict, Codec}
use plaidify.LinkSessions.Origin.{contains}
use plaidify.LinkSessions.Create.{Link, text_or_null}
use plaidify.AccessJobs.Locking.{Locking}
use plaidify.AccessJobs.Scope.{Platform}
use plaidify.AccessJobs.Job.{AccessJob, sorted}
use plaidify.AccessJobs.Execute.{World, Execution, done}
use plaidify.AccessJobs.Create.{Request, RunResult, executed, run_access_job}
use plaidify.Access.{
  AuthContext, HttpError, after_colon, combine_scope_sets, principal_scopes,
  ensure_site_allowed_for_request,
}
use plaidify.Links.{AccessToken, ConsentGrant, Tables, first, given, link_of, token_of}

-- `{k: v for k, v in data.items() if k in allowed_fields}`
unfoldable pub keep_fields : List Text → Dict Text Value → Dict Text Value
keep_fields allowed = filterb (λ kv. contains kv.0 allowed)

abbrev pub server_error : HttpError
server_error = (500, lit "Internal Server Error")

module _ (A : plaidify.Access.Platform) where
  -- The names of fields in a JSON list of scopes.
  unfoldable pub fields_of : Text → HttpError ⊎ Option (List Text)
  unfolding after_colon
  fields_of scopes = read (plaidify.Access.Platform.load_list A scopes)
    where
      read : Option (List Text) → HttpError ⊎ Option (List Text)
      read none = inl server_error
      read (some l) = inr (some (map after_colon l))

  -- The fields of a consent token; an empty one counts as none.
  unfoldable pub consent_fields :
      ℕ → ℕ → Text → Option Text → Tables → HttpError ⊎ Option (List Text)
  unfolding fields_of
  consent_fields now user access_token consent_token db = with_token (given consent_token)
    where
      with_grant : Option ConsentGrant → HttpError ⊎ Option (List Text)
      with_grant none = inl (401, lit "Invalid consent token.")
      with_grant (some g) =
          if ConsentGrant.revoked g
          then inl (403, lit "Consent has been revoked.")
          else if ltb (ConsentGrant.expires_at g) now
          then inl (403, lit "Consent token has expired.")
          else if not (ConsentGrant.access_token g == access_token)
          then inl (403, lit "Consent token does not match the access token.")
          else fields_of (ConsentGrant.scopes g)

      with_token : Option Text → HttpError ⊎ Option (List Text)
      with_token none = inr none
      with_token (some t) = with_grant (
          first (λ g. (ConsentGrant.token g == t) && nat_eqb (ConsentGrant.user_id g) user)
            (Tables.grants db))

  -- The fields of an access token.
  unfoldable pub token_fields : AccessToken → HttpError ⊎ Option (List Text)
  unfolding fields_of
  token_fields row = with_scopes (given (AccessToken.scopes row))
    where
      with_scopes : Option Text → HttpError ⊎ Option (List Text)
      with_scopes none = inr none
      with_scopes (some s) = fields_of s

  -- The most restrictive of the three.
  unfoldable pub allowed_fields :
      Option (List Text) → Option (List Text) → Option AuthContext → Option (List Text)
  unfolding combine_scope_sets
  allowed_fields consent token context =
      combine_scope_sets A (combine_scope_sets A consent token) (principal_scopes A context)

  -- `extract_fields`
  abbrev pub field_values : Option (List Text) → List Value
  unfolding sorted
  field_values none = []
  field_values (some fs) = map text (sorted fs)

  abbrev pub extract_fields : Option (List Text) → Value
  unfolding field_values
  extract_fields none = null
  extract_fields (some fs) = arr (of_list (field_values (some fs)))

  abbrev method_of : Option AuthContext → Value
  method_of none = text (lit "jwt")
  method_of (some c) = if AuthContext.is_api_key c then text (lit "api_key") else text (lit "jwt")

  abbrev agent_of : Option AuthContext → Value
  agent_of none = null
  agent_of (some c) = text_or_null (AuthContext.agent_id c)

  abbrev key_of : Option AuthContext → Value
  key_of none = null
  key_of (some c) = text_or_null (AuthContext.api_key_id c)

  abbrev is_some {ℓ} : {B : Type ℓ} → Option B → Bool
  is_some none = false
  is_some (some _) = true

  -- The request for the job.
  unfoldable pub job_request :
      ℕ → Text → AccessToken → Option AuthContext → Option Text → Option (List Text) → Request
  unfolding field_values
  job_request user site row context consent_token allowed = record {
    site = site;
    job_type = lit "fetch_data";
    user_id = some user;
    principal_hint = none;
    session_id = none;
    metadata = some (
        (lit "access_token_prefix", text (take 12 (AccessToken.token row)))
        ∷ (lit "auth_method", method_of context)
        ∷ (lit "agent_id", agent_of context)
        ∷ (lit "api_key_id", key_of context)
        ∷ (lit "consent_token_provided", bool (is_some consent_token))
        ∷ (lit "extract_fields", arr (of_list (field_values allowed)))
        ∷ (lit "instructions_present", bool (is_some (given (AccessToken.instructions row))))
        ∷ []);
  }

  pub data Fetched : Type 0 where
    refused : HttpError → Fetched
    failed_run : Fetched
    fetched : Dict Text Value → Fetched

  abbrev with_instructions : Option Text → Dict Text Value → Dict Text Value
  unfolding insert
  with_instructions none d = d
  with_instructions (some i) d = insert (lit "instructions_applied") (text i) d

  -- The answer from the job's result; data that are no object are an `AttributeError`.
  unfoldable pub filtered : Option (List Text) → Dict Text Value → Fetched
  unfolding keep_fields lookup insert sorted
  filtered none d = fetched d
  filtered (some allowed) d = with_data (lookup (lit "data") d)
    where
      with_data : Option Value → Fetched
      with_data none = fetched d
      with_data (some (obj fs)) = fetched (
          insert (lit "scopes_applied") (arr (of_list (map text (sorted allowed))))
            (insert (lit "data") (obj (of_dict (keep_fields allowed (to_dict fs)))) d))
      with_data (some v) = refused server_error

  unfoldable pub respond : Text → Option Text → Option (List Text) → Dict Text Value → Fetched
  unfolding insert filtered with_instructions
  respond job_id instructions allowed result =
      filtered allowed
        (with_instructions (given instructions) (insert (lit "job_id") (text job_id) result))

  module _ (C : Codec) (L : Locking) (p : Platform) where
    -- What becomes of the job; an error that it raises goes on.
    unfoldable pub answer_of : AccessToken → Option (List Text) → RunResult C L p → Fetched
    unfolding respond
    answer_of row allowed (executed (done job result)) =
        respond (AccessJob.id job) (AccessToken.instructions row) allowed result
    answer_of row allowed _ = failed_run

    -- `fetch_data`; `decrypt` reads the stored credentials of the user, `start` and
    -- `finish` are the times that the job reads.
    unfoldable pub fetch_data :
        (Text → Text)
        → Text
        → Text
        → ℕ
        → ℕ
        → ℕ
        → (Dict Text Value → Execution C L)
        → Option AuthContext
        → ℕ
        → Text
        → Option Text
        → Tables
        → World C L
        → Fetched × World C L
    unfolding consent_fields token_fields allowed_fields ensure_site_allowed_for_request answer_of
        job_request run_access_job extract_fields
    fetch_data decrypt fresh_id fresh_session now start finish connect_to_site context user
          access_token consent_token db w =
        with_row (first (token_of access_token user) (Tables.tokens db))
      where
        answer :
            AccessToken → Option (List Text) → RunResult C L p × World C L → Fetched × World C L
        answer row allowed (r, w') = (answer_of row allowed r, w')

        run : AccessToken → Text → Option (List Text) → Fetched × World C L
        run row site allowed = answer row allowed (
            run_access_job C L p fresh_id fresh_session now start finish
              (job_request user site row context consent_token allowed) connect_to_site
              ((lit "site", text site)
                ∷ (lit "username", text (decrypt (AccessToken.username_encrypted row)))
                ∷ (lit "password", text (decrypt (AccessToken.password_encrypted row)))
                ∷ (lit "extract_fields", extract_fields allowed)
                ∷ [])
              w)

        with_token :
            AccessToken
            → Text
            → Option (List Text)
            → HttpError ⊎ Option (List Text)
            → Fetched × World C L
        with_token row site consent (inl e) = (refused e, w)
        with_token row site consent (inr token) =
            run row site (allowed_fields consent token context)

        with_consent : AccessToken → Text → HttpError ⊎ Option (List Text) → Fetched × World C L
        with_consent row site (inl e) = (refused e, w)
        with_consent row site (inr consent) = with_token row site consent (token_fields row)

        with_site : AccessToken → Text → Option HttpError → Fetched × World C L
        with_site row site (some e) = (refused e, w)
        with_site row site none =
            with_consent row site (consent_fields now user access_token consent_token db)

        with_link : AccessToken → Option Link → Fetched × World C L
        with_link row none = (refused (401, lit "Linked data not found."), w)
        with_link row (some l) =
            with_site row (Link.site l) (ensure_site_allowed_for_request A context (Link.site l))

        with_row : Option AccessToken → Fetched × World C L
        with_row none = (refused (401, lit "Invalid access token."), w)
        with_row (some row) =
            with_link row (first (link_of (AccessToken.link_token row) user) (Tables.links db))
