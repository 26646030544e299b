-- ===== src/LinkSessions/Status.antt =====
-- src/routers/link_sessions.py `get_link_session_status`: what a caller is told of a session.
use plaidify.Base.{
  ℕ, Bool, true, false, Option, none, some, List, [], ◌∷◌, ◌++◌, if◌then◌else◌, nat_eq,
}
use plaidify.Base.Compare.{list_eq}
use plaidify.Base.Dict.{Dict, lookup}
use plaidify.Base.Text.{Text, lit}
use plaidify.Json.{Value, null, text, arr, obj, of_list, to_dict, truthy, Codec}
use plaidify.SessionStore.Memory.{Session, or_default}
use plaidify.AccessJobs.Create.{LiveSession}
use plaidify.LinkSessions.Events.{Hub, value_or}
use plaidify.LinkSessions.Reconcile.{Database, is_status, reconcile_link_session}

abbrev get_field : Text → Session → Value
unfolding lookup
get_field k s = value_or null (lookup k (Session.fields s))

-- `[e["event"] for e in session["events"]]`
abbrev event_names : List Value → List Value
unfolding lookup
event_names [] = []
event_names (obj fs ∷ events) =
    value_or null (lookup (lit "event") (to_dict fs)) ∷ event_names events
event_names (event ∷ events) = null ∷ event_names events

abbrev shown_if : Bool → Text → Value → Dict Text Value
shown_if true k v = (k, v) ∷ []
shown_if false k v = []

unfoldable pub session_status : Text → Session → Dict Text Value
unfolding lookup get_field event_names
session_status token s =
    ((lit "link_token", text token)
      ∷ (lit "job_id", get_field (lit "current_job_id") s)
      ∷ (lit "metadata", get_field (lit "metadata") s)
      ∷ (lit "mfa_type", get_field (lit "mfa_type") s)
      ∷ (lit "session_id", get_field (lit "session_id") s)
      ∷ (lit "status", get_field (lit "status") s)
      ∷ (lit "site", get_field (lit "site") s)
      ∷ (lit "events", arr (of_list (event_names (or_default [] (Session.events s)))))
      ∷ [])
    ++ (shown_if (truthy (get_field (lit "error_message") s)) (lit "error_message")
          (get_field (lit "error_message") s)
        ++ (shown_if (truthy (get_field (lit "message") s)) (lit "message")
              (get_field (lit "message") s)
            ++ shown_if
                (if is_status (lookup (lit "status") (Session.fields s)) (lit "completed")
                  then truthy (get_field (lit "public_token") s)
                  else false)
                (lit "public_token") (get_field (lit "public_token") s)))

module _ (C : Codec) where
  -- `none` is the error with status 404.
  unfoldable pub get_link_session_status :
      ℕ
      → Text
      → Text
      → (Text → Option LiveSession)
      → Text
      → Database C
      → Hub
      → Option (Dict Text Value) × Database C × Hub
  unfolding session_status reconcile_link_session
  get_link_session_status now stamp fresh live token db hub =
      answered (reconcile_link_session C now stamp fresh live token none db hub)
    where
      answered : Option Session × Database C × Hub → Option (Dict Text Value) × Database C × Hub
      answered (none, db', hub') = (none, db', hub')
      answered (some s, db', hub') = (some (session_status token s), db', hub')
