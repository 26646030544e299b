-- ===== src/LinkSessions/Events.antt =====
-- src/routers/link_sessions.py: the events of a session, those that the hosted page posts included.
-- src/routers/webhooks.py: `fire_webhooks_for_session`, up to the delivery.
use plaidify.Base.{
  ℕ, Bool, true, false, Option, none, some, List, [], ◌∷◌, ◌++◌, if◌then◌else◌, ◌==◌, nat_eq,
}
use plaidify.Base.Compare.{list_eq}
use plaidify.Base.Dict.{Dict, lookup, erase}
use plaidify.Base.Text.{Text, lit}
use plaidify.Json.{Value, null, text, arr, obj, end, field, of_dict, to_dict, truthy}
use plaidify.SessionStore.Memory.{
  Session, get_link_session, append_link_session_event, update_link_session,
}
use plaidify.LinkSessions.Sanitize.{sanitize}

-- A row of the table of webhooks, its owner and time left out.
pub record Webhook : Type 0 where
  pub id : Text
  pub link_token : Text
  pub url : Text
  pub secret : Text

-- A task of `_deliver_webhook`: the webhook, whose secret is decrypted for it if that can be done, and
-- the payload but the time.
pub record Fired : Type 0 where
  pub webhook : Webhook
  pub link_token : Text
  pub event : Text
  pub content : Value
  pub public_token : Option Value

-- The sessions, the registered webhooks, the events published to subscribers and the deliveries begun.
pub record Hub : Type 0 where
  pub sessions : Dict Text Session
  pub webhooks : List Webhook
  pub published : List (Text × Value)
  pub fired : List Fired

-- `updates`, which have none of the keys that `Session` keeps apart.
abbrev pub updates_of : Dict Text Value → Session
updates_of d = record { created_at = none; events = none; subscribers = none; fields = d }

abbrev pub dict_or_empty : Option (Dict Text Value) → Dict Text Value
dict_or_empty none = []
dict_or_empty (some d) = d

-- `_build_link_session_event`, at a time
unfoldable pub build_link_session_event : Text → Value → Option (Dict Text Value) → Value
unfolding sanitize
build_link_session_event timestamp event_name details = obj (
    field (lit "event") event_name (
      field (lit "timestamp") (text timestamp)
        (field (lit "data") (sanitize (obj (of_dict (dict_or_empty details)))) end)))

-- `webhook_event_map`
unfoldable pub webhook_event : Text → Option Text
webhook_event name =
    if name == lit "OPEN"
    then some (lit "LINK_OPEN")
    else if name == lit "CONNECTED"
    then some (lit "LINK_COMPLETE")
    else if name == lit "ERROR"
    then some (lit "LINK_ERROR")
    else if name == lit "EXIT"
    then some (lit "LINK_EXIT")
    else if name == lit "MFA_REQUIRED"
    then some (lit "MFA_REQUIRED")
    else none

-- `_get_link_session`, which may mark the session
unfoldable pub get_session : ℕ → Text → Hub → Option Session × Hub
unfolding get_link_session
get_session now token hub = found (get_link_session now token (Hub.sessions hub))
  where
    found : Option Session × Dict Text Session → Option Session × Hub
    found (s, sessions) = (s, record hub { sessions = sessions })

abbrev pub when_truthy : Option Value → Option Value
when_truthy none = none
when_truthy (some v) = if truthy v then some v else none

-- The loop over the webhooks that are registered for the link.
unfoldable pub deliveries : Text → Text → Value → Option Value → List Webhook → List Fired
deliveries token event content public_token [] = []
deliveries token event content public_token (w ∷ ws) =
    let rest = deliveries token event content public_token ws in
    if Webhook.link_token w == token
    then record {
      webhook = w;
      link_token = token;
      event = event;
      content = content;
      public_token = public_token;
    }
      ∷ rest
    else rest

-- `fire_webhooks_for_session`
unfoldable pub fire_webhooks_for_session : ℕ → Text → Text → Option (Dict Text Value) → Hub → Hub
unfolding get_session lookup deliveries
fire_webhooks_for_session now token event details hub = fire (get_session now token hub)
  where
    public_token : Option Session → Option Value
    public_token none = none
    public_token (some s) =
        if event == lit "LINK_COMPLETE"
        then when_truthy (lookup (lit "public_token") (Session.fields s))
        else none

    fire : Option Session × Hub → Hub
    fire (s, hub') = record hub' {
      fired =
          Hub.fired hub'
          ++ deliveries token event (obj (of_dict (dict_or_empty details))) (public_token s)
              (Hub.webhooks hub');
    }

-- `if updates: update_link_session(...)`
unfoldable pub apply_updates : Text → Dict Text Value → Dict Text Session → Dict Text Session
unfolding update_link_session
apply_updates token [] sessions = sessions
apply_updates token (u ∷ us) sessions = (update_link_session token (updates_of (u ∷ us)) sessions).1

-- The session, the subscribers: `_push_link_session_event` but the webhooks.
unfoldable pub record_event :
    Text → Text → Value → Option (Dict Text Value) → Dict Text Value → Hub → Hub
unfolding build_link_session_event append_link_session_event apply_updates
record_event stamp token name details updates hub =
    let event = build_link_session_event stamp name details in
    record hub {
      sessions =
          apply_updates token updates (append_link_session_event token event (Hub.sessions hub)).1;
      published = Hub.published hub ++ (token, event) ∷ [];
    }

-- `_push_link_session_event`; `false` is the `TypeError` of a name that cannot be looked up.
unfoldable pub push_link_session_event :
    ℕ → Text → Text → Value → Option (Dict Text Value) → Dict Text Value → Hub → Bool × Hub
unfolding record_event webhook_event fire_webhooks_for_session
push_link_session_event now stamp token name details updates hub =
    hooked name (record_event stamp token name details updates hub)
  where
    fire : Option Text → Hub → Bool × Hub
    fire none hub' = (true, hub')
    fire (some event) hub' = (true, fire_webhooks_for_session now token event details hub')

    hooked : Value → Hub → Bool × Hub
    hooked (text t) hub' = fire (webhook_event t) hub'
    hooked (arr vs) hub' = (false, hub')
    hooked (obj fs) hub' = (false, hub')
    hooked _ hub' = (true, hub')

pub data Posted : Type 0 where
  not_found gone server_error ignored ok : Posted

abbrev pub value_or : Value → Option Value → Value
value_or default none = default
value_or default (some v) = v

-- `session.get("status") not in {"completed", "error", "expired"}`
unfoldable pub is_terminal : Option Value → Bool
is_terminal (some (text t)) =
    if t == lit "completed" then true else if t == lit "error" then true else t == lit "expired"
is_terminal _ = false

-- What an event from the page changes in the session.
unfoldable pub event_updates : Text → Dict Text Value → Dict Text Value → Dict Text Value
unfolding is_terminal lookup
event_updates name body fields =
    if name == lit "OPEN"
    then []
    else if name == lit "INSTITUTION_SELECTED"
    then (lit "status", text (lit "awaiting_credentials"))
      ∷ (
        lit "site",
        value_or (value_or null (lookup (lit "site") fields)) (lookup (lit "site") body),
      )
      ∷ []
    else if name == lit "CREDENTIALS_SUBMITTED"
    then (lit "status", text (lit "connecting")) ∷ []
    else if name == lit "MFA_REQUIRED"
    then (lit "status", text (lit "mfa_required")) ∷ []
    else if name == lit "MFA_SUBMITTED"
    then (lit "status", text (lit "verifying_mfa")) ∷ []
    else if name == lit "EXIT"
    then (if is_terminal (lookup (lit "status") fields)
        then []
        else (lit "status", text (lit "exited")) ∷ [])
    else if name == lit "ERROR"
    then (lit "status", text (lit "error"))
      ∷ (lit "error_message", value_or null (lookup (lit "error") body))
      ∷ []
    else []

unfoldable pub updates_by : Value → Dict Text Value → Dict Text Value → Dict Text Value
unfolding event_updates
updates_by (text name) body fields = event_updates name body fields
updates_by _ body fields = []

-- `event_name == "CONNECTED"`
abbrev pub is_connected : Value → Bool
is_connected (text name) = name == lit "CONNECTED"
is_connected _ = false

-- `_sanitize_hosted_event_data` of a dictionary
unfoldable pub sanitize_dict : Dict Text Value → Dict Text Value
unfolding sanitize
sanitize_dict d = fields_of (sanitize (obj (of_dict d)))
  where
    fields_of : Value → Dict Text Value
    fields_of (obj fs) = to_dict fs
    fields_of _ = []

-- `post_link_session_event`, with the object that the page sent.
unfoldable pub post_link_session_event : ℕ → Text → Text → Dict Text Value → Hub → Posted × Hub
unfolding get_session push_link_session_event updates_by erase lookup sanitize_dict
post_link_session_event now stamp token body hub = found (get_session now token hub)
  where
    name : Value
    name = value_or (text (lit "UNKNOWN")) (lookup (lit "event") body)

    answer : Bool → Posted
    answer true = ok
    answer false = server_error

    pushed : Bool × Hub → Posted × Hub
    pushed (b, hub') = (answer b, hub')

    with_status : Session → Hub → Option Value → Posted × Hub
    with_status s hub' none = (server_error, hub')
    with_status s hub' (some (text t)) =
        if t == lit "expired"
        then (gone, hub')
        else if is_connected name
        then (ignored, hub')
        else pushed (
            push_link_session_event now stamp token name
              (some (sanitize_dict (erase (lit "event") body)))
              (updates_by name body (Session.fields s)) hub')
    with_status s hub' (some v) = (server_error, hub')

    found : Option Session × Hub → Posted × Hub
    found (none, hub') = (not_found, hub')
    found (some s, hub') = with_status s hub' (lookup (lit "status") (Session.fields s))
