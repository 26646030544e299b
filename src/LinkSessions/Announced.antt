-- ===== src/LinkSessions/Announced.antt =====
-- src/routers/link_sessions.py `reconcile_link_session`: a change of the job is announced once.
use plaidify.Base.{
  ℕ, ◌≡◌, refl, Bool, true, false, Option, some, [], ◌∷◌, ◌++◌, if◌then◌else◌, nat_eq,
}
use plaidify.Base.Compare.{list_eq}
use plaidify.Base.Dict.{Dict, lookup}
use plaidify.Base.Text.{Text, lit}
use plaidify.Json.{Value, text, Codec}
use plaidify.SessionStore.Memory.{Session}
use plaidify.AccessJobs.Job.{AccessJob, JobStatus, completed, mfa_required}
use plaidify.AccessJobs.Create.{JobView, LiveSession, serialize_access_job_runtime}
use plaidify.LinkSessions.Events.{Hub, deliveries, get_session, build_link_session_event}
use plaidify.LinkSessions.Reconcile.{Database, target, event_for, is_silent, is_status, job_of}

-- The same events published, and the same webhooks fired.
abbrev pub Quiet : Hub → Hub → Type 0
Quiet hub hub' = (Hub.published hub' ≡ Hub.published hub) × (Hub.fired hub' ≡ Hub.fired hub)

get-Quiet : (now : ℕ) (token : Text) (hub : Hub) → Quiet hub (get_session now token hub).1
unfolding get_session
get-Quiet now token hub = (refl, refl)

-- Whether a reconciliation announces nothing: the job is pending or running, or the session has the
-- job's status already.
abbrev pub is_quiet : JobView → Session → Bool
unfolding lookup
is_quiet view s =
    if is_silent (JobView.status view)
    then true
    else is_status (lookup (lit "status") (Session.fields s)) (target (JobView.status view))

module _ (C : Codec) (now : ℕ) (stamp fresh : Text) (live : Text → Option LiveSession)
    (token : Text) (given : Option Text) (db : Database C) (hub : Hub) where
  abbrev shown : AccessJob C → JobView
  shown job = serialize_access_job_runtime C live job

  -- A session that is found, and the job that it follows.
  pub record HasJob (s : Session) (id : Text) (job : AccessJob C) : Type 0 where
    pub found : (get_session now token hub).0 ≡ some s
    pub unexpired : is_status (lookup (lit "status") (Session.fields s)) (lit "expired") ≡ false
    pub named : job_of given s ≡ some id
    pub row : lookup id (Database.jobs db) ≡ some job

-- What the webhooks are told.
abbrev pub hook_for : JobStatus → Text
hook_for mfa_required = lit "MFA_REQUIRED"
hook_for completed = lit "LINK_COMPLETE"
hook_for _ = lit "LINK_ERROR"

-- One event published, and a delivery begun to each webhook that is registered for the link.
abbrev pub Announced : Text → Text → JobStatus → Hub → Hub → Type 0
Announced token stamp st hub hub' =
    ((details : Option (Dict Text Value)) × (Hub.published hub'
        ≡ Hub.published hub
          ++ (token, build_link_session_event stamp (text (event_for st)) details) ∷ []))
    × ((content : Value) × ((public_token : Option Value) × (Hub.fired hub'
            ≡ Hub.fired hub
              ++ deliveries token (hook_for st) content public_token (Hub.webhooks hub))))
