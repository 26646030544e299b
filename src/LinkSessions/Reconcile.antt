-- ===== src/LinkSessions/Reconcile.antt =====
-- src/routers/link_sessions.py `reconcile_link_session`: the session follows the access job. What a
-- job's caller is shown of it is `AccessJobs/Create`'s.
use plaidify.Base.{
  ℕ, ◌+◌, Bool, true, false, ◌&&◌, Option, none, some, List, [], ◌∷◌, if◌then◌else◌, nat_eqb, ◌==◌,
  nat_eq,
}
use plaidify.Base.Compare.{list_eq}
use plaidify.Base.Dict.{Dict, lookup, insert}
use plaidify.Base.Text.{Text, lit}
use plaidify.Json.{Value, null, num, text, obj, of_dict, truthy, Codec}
use plaidify.SessionStore.Memory.{Session, update_link_session}
use plaidify.AccessJobs.Job.{
  AccessJob, JobStatus, pending, running, completed, mfa_required, blocked, failed, cancelled,
}
use plaidify.AccessJobs.Create.{JobView, LiveSession, serialize_access_job_runtime}
use plaidify.LinkSessions.Events.{Hub, updates_of, get_session, push_link_session_event, value_or}

-- A row of the table of public tokens.
pub record PublicToken : Type 0 where
  pub token : Text
  pub link_token : Text
  pub access_token : Text
  pub user_id : ℕ
  pub expires_at : ℕ

-- The jobs and the public tokens, the newest first.
module _ (C : Codec) where
  pub record Database : Type 0 where
    pub jobs : Dict Text (AccessJob C)
    pub public_tokens : List PublicToken

-- `_PUBLIC_TOKEN_TTL_MINUTES`, in milliseconds
abbrev pub public_token_ttl : ℕ
public_token_ttl = 600000

abbrev pub is_for : Text → Text → ℕ → PublicToken → Bool
is_for link_token access_token user_id row =
    (PublicToken.link_token row == link_token)
    && ((PublicToken.access_token row == access_token) && nat_eqb (PublicToken.user_id row) user_id)

unfoldable pub find_token : Text → Text → ℕ → List PublicToken → Option Text
find_token link_token access_token user_id [] = none
find_token link_token access_token user_id (row ∷ rows) =
    if is_for link_token access_token user_id row
    then some (PublicToken.token row)
    else find_token link_token access_token user_id rows

-- `_ensure_public_token`; `fresh` is the token that it would draw.
unfoldable pub ensure_public_token :
    ℕ → Text → Text → Text → ℕ → List PublicToken → Text × List PublicToken
unfolding find_token
ensure_public_token now fresh link_token access_token user_id rows =
    found (find_token link_token access_token user_id rows)
  where
    found : Option Text → Text × List PublicToken
    found (some token) = (token, rows)
    found none = (
      fresh,
      record {
        token = fresh;
        link_token = link_token;
        access_token = access_token;
        user_id = user_id;
        expires_at = now + public_token_ttl;
      }
          ∷ rows,
    )

abbrev pub text_value : Option Text → Value
text_value none = null
text_value (some t) = text t

-- `a or b` of texts
abbrev pub text_or : Text → Value → Value
text_or [] other = other
text_or (c ∷ t) other = text (c ∷ t)

unfoldable pub with_metadata : Option (Dict Text Value) → Dict Text Value → Dict Text Value
unfolding insert
with_metadata none us = us
with_metadata (some d) us = insert (lit "metadata") (obj (of_dict d)) us

-- The updates that every job brings.
unfoldable pub plain_updates : Text → JobView → Session → Dict Text Value
unfolding lookup
plain_updates job_id view s =
    (lit "current_job_id", text job_id)
    ∷ (lit "session_id", text_value (JobView.session_id view))
    ∷ (
      lit "site",
      text_or (JobView.site view) (value_or null (lookup (lit "site") (Session.fields s))),
    )
    ∷ []

-- The updates that do not depend on the job's status.
unfoldable pub base_updates : Text → JobView → Session → Dict Text Value
unfolding insert with_metadata plain_updates
base_updates job_id view s =
    let us = with_metadata (JobView.metadata view) (plain_updates job_id view s) in
    if truthy (JobView.mfa_type view)
    then insert (lit "mfa_type") (JobView.mfa_type view) us
    else us

-- `previous_status != status`
abbrev pub is_status : Option Value → Text → Bool
is_status (some (text t)) status = t == status
is_status _ status = false

-- An event is pushed if the status changes, else the session is only updated.
unfoldable pub push_or_update :
    ℕ → Text → Text → Bool → Text → Dict Text Value → Dict Text Value → Hub → Hub
unfolding push_link_session_event update_link_session
push_or_update now stamp token unchanged name details updates hub =
    if unchanged
    then record hub {
      sessions = (update_link_session token (updates_of updates) (Hub.sessions hub)).1;
    }
    else (push_link_session_event now stamp token (text name) (some details) updates hub).1

-- `metadata.get("message") if isinstance(metadata, dict) else None`
abbrev pub message_of : Option (Dict Text Value) → Value
unfolding lookup
message_of none = null
message_of (some d) = value_or null (lookup (lit "message") d)

abbrev pub error_of : Option Text → Value
error_of (some (c ∷ t)) = text (c ∷ t)
error_of _ = text (lit "The connection could not be completed.")

-- The public token of a completed session: the one that it has, or one for its access token and user.
unfoldable pub public_token_for :
    ℕ → Text → Text → Session → List PublicToken → Value × List PublicToken
unfolding ensure_public_token lookup
public_token_for now fresh token s rows = existing (lookup (lit "public_token") (Session.fields s))
  where
    issued : Text × List PublicToken → Value × List PublicToken
    issued (t, rows') = (text t, rows')

    make : Value → Option Value → Option Value → Value × List PublicToken
    make old (some (text (c ∷ access_token))) (some (num user_id)) =
        issued (ensure_public_token now fresh token (c ∷ access_token) user_id rows)
    make old _ _ = (old, rows)

    fresh_for : Value → Value × List PublicToken
    fresh_for old =
        make old (lookup (lit "access_token") (Session.fields s))
          (lookup (lit "user_id") (Session.fields s))

    existing : Option Value → Value × List PublicToken
    existing none = fresh_for null
    existing (some v) = if truthy v then (v, rows) else fresh_for v

-- What changes in a session by the status that its job is shown with.
unfoldable pub status_updates : JobStatus → JobView → Value → Dict Text Value → Dict Text Value
unfolding insert
status_updates pending view public_token us = insert (lit "status") (text (lit "connecting")) us
status_updates running view public_token us = insert (lit "status") (text (lit "connecting")) us
status_updates mfa_required view public_token us =
    insert (lit "status") (text (lit "mfa_required"))
      (insert (lit "message") (message_of (JobView.metadata view)) us)
status_updates completed view public_token us =
    let done = insert (lit "status") (text (lit "completed")) (
      insert (lit "result") (result_of (JobView.result view))
        (insert (lit "message") null (insert (lit "error_message") null us))) in
    if truthy public_token then insert (lit "public_token") public_token done else done
  where
    result_of : Option (Dict Text Value) → Value
    result_of none = null
    result_of (some d) = obj (of_dict d)
status_updates blocked view public_token us =
    insert (lit "status") (text (lit "error"))
      (insert (lit "error_message") (error_of (JobView.error_message view)) us)
status_updates cancelled view public_token us =
    insert (lit "status") (text (lit "error"))
      (insert (lit "error_message") (error_of (JobView.error_message view)) us)
status_updates failed view public_token us =
    insert (lit "status") (text (lit "error"))
      (insert (lit "error_message") (error_of (JobView.error_message view)) us)

abbrev pub job_text : Option Value → Option Text
job_text (some (text (c ∷ t))) = some (c ∷ t)
job_text _ = none

-- `job_id or session.get("current_job_id")`
unfoldable pub job_of : Option Text → Session → Option Text
unfolding lookup
job_of (some (c ∷ t)) s = some (c ∷ t)
job_of (some []) s = job_text (lookup (lit "current_job_id") (Session.fields s))
job_of none s = job_text (lookup (lit "current_job_id") (Session.fields s))

-- The status of the session, the event and its data, for each status of a job.
abbrev pub target : JobStatus → Text
target pending = lit "connecting"
target running = lit "connecting"
target mfa_required = lit "mfa_required"
target completed = lit "completed"
target blocked = lit "error"
target cancelled = lit "error"
target failed = lit "error"

abbrev pub event_for : JobStatus → Text
event_for mfa_required = lit "MFA_REQUIRED"
event_for completed = lit "CONNECTED"
event_for _ = lit "ERROR"

unfoldable pub details_for : JobStatus → Text → JobView → Value → Dict Text Value → Dict Text Value
unfolding lookup
details_for mfa_required job_id view public_token updates =
    (lit "mfa_type", JobView.mfa_type view)
    ∷ (lit "session_id", text_value (JobView.session_id view))
    ∷ (lit "site", value_or null (lookup (lit "site") updates))
    ∷ []
details_for completed job_id view public_token updates =
    (lit "job_id", text job_id)
    ∷ (lit "public_token", public_token)
    ∷ (lit "site", value_or null (lookup (lit "site") updates))
    ∷ []
details_for status job_id view public_token updates =
    (lit "error", value_or null (lookup (lit "error_message") updates))
    ∷ (lit "job_id", text job_id)
    ∷ (lit "site", value_or null (lookup (lit "site") updates))
    ∷ []

-- Whether a job of this status only updates the session.
abbrev pub is_silent : JobStatus → Bool
is_silent pending = true
is_silent running = true
is_silent _ = false

-- A session that follows a job: the part of `reconcile_link_session` from the payload on.
unfoldable pub follow : ℕ → Text → Text → Text → JobView → Value → Session → Hub → Hub
unfolding base_updates status_updates push_or_update details_for lookup
follow now stamp token job_id view public_token s hub =
    let updates =
      status_updates (JobView.status view) view public_token (base_updates job_id view s) in
    let same =
      is_status (lookup (lit "status") (Session.fields s)) (target (JobView.status view)) in
    push_or_update now stamp token (if is_silent (JobView.status view) then true else same)
      (event_for (JobView.status view))
      (details_for (JobView.status view) job_id view public_token updates) updates hub

abbrev pub is_completed_view : JobView → Bool
is_completed_view view = is_done (JobView.status view)
  where
    is_done : JobStatus → Bool
    is_done completed = true
    is_done _ = false

module _ (C : Codec) where
  -- `reconcile_link_session`; `fresh` is the public token that it would draw, `live` the MFA manager's
  -- sessions.
  unfoldable pub reconcile_link_session :
      ℕ
      → Text
      → Text
      → (Text → Option LiveSession)
      → Text
      → Option Text
      → Database C
      → Hub
      → Option Session × Database C × Hub
  unfolding get_session job_of follow public_token_for serialize_access_job_runtime lookup
  reconcile_link_session now stamp fresh live token job_id db hub =
      found (get_session now token hub)
    where
      reread : Database C → Hub → Option Session × Database C × Hub
      reread db' hub' = let (s, hub'') = get_session now token hub' in (s, db', hub'')

      with_token :
          Session
          → Text
          → JobView
          → Hub
          → Value × List PublicToken
          → Option Session × Database C × Hub
      with_token s id view hub' (public_token, rows) =
          reread (record db { public_tokens = rows })
            (follow now stamp token id view public_token s hub')

      with_view : Session → Text → Hub → JobView → Option Session × Database C × Hub
      with_view s id hub' view =
          if is_completed_view view
          then with_token s id view hub'
              (public_token_for now fresh token s (Database.public_tokens db))
          else reread db (follow now stamp token id view null s hub')

      with_row : Session → Text → Hub → Option (AccessJob C) → Option Session × Database C × Hub
      with_row s id hub' none = (some s, db, hub')
      with_row s id hub' (some job) = with_view s id hub' (serialize_access_job_runtime C live job)

      with_job : Session → Hub → Option Text → Option Session × Database C × Hub
      with_job s hub' none = (some s, db, hub')
      with_job s hub' (some id) = with_row s id hub' (lookup id (Database.jobs db))

      found : Option Session × Hub → Option Session × Database C × Hub
      found (none, hub') = (none, db, hub')
      found (some s, hub') =
          if is_status (lookup (lit "status") (Session.fields s)) (lit "expired")
          then (some s, db, hub')
          else with_job s hub' (job_of job_id s)
