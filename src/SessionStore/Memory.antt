-- ===== src/SessionStore/Memory.antt =====
-- src/session_store.py: the stores as one process keeps them in memory, which are the branches without
-- Redis. Callers change a session through these operations only.
pub mod Once
pub mod Deliveries
use plaidify.Base.{
  ℕ, ◌+◌, ◌-◌, ◌*◌, ◌≡◌, Bool, true, false, List, [], ◌∷◌, ◌++◌, length, drop, max, ltb,
  if◌then◌else◌, nat_eq, ◌==◌, Option, none, some,
}
use plaidify.Base.Compare.{list_eq}
use plaidify.Base.Dict.{Dict, lookup, insert, erase, erase_all}
use plaidify.Base.Text.{Text, lit}
use plaidify.Json.{Value, text}
use plaidify.SessionStore.Evict.{evict_expired, evict_first}

-- `LINK_SESSION_TTL`, `_MAX_MEM_LINK_SESSIONS`, `_MAX_MEM_LINK_SCOPES`,
-- `_MAX_MEM_LINK_LAUNCH_BOOTSTRAPS`, `_MAX_MEM_WEBHOOK_DELIVERIES`, `WEBHOOK_DELIVERY_MAX`
abbrev pub session_ttl : ℕ
session_ttl = 600000

abbrev pub max_sessions : ℕ
max_sessions = 10000

abbrev pub max_scopes : ℕ
max_scopes = 10000

abbrev pub max_bootstraps : ℕ
max_bootstraps = 10000

abbrev pub max_webhooks : ℕ
max_webhooks = 5000

abbrev pub max_deliveries : ℕ
max_deliveries = 200

-- The dictionary of a link session: three of its keys, each possibly missing, and the others. The
-- subscribers are asyncio queues, by number.
pub record Session : Type 0 where
  pub created_at : Option ℕ
  pub events : Option (List Value)
  pub subscribers : Option (List ℕ)
  pub fields : Dict Text Value

abbrev pub or_default {ℓ} : {A : Type ℓ} → A → Option A → A
or_default d none = d
or_default d (some a) = a

abbrev pub or_else {ℓ} : {A : Type ℓ} → Option A → Option A → Option A
or_else none other = other
or_else (some a) other = some a

-- `if not session:`
abbrev pub is_empty : Session → Bool
is_empty s =
    nothing (Session.created_at s) (Session.events s) (Session.subscribers s) (Session.fields s)
  where
    nothing : Option ℕ → Option (List Value) → Option (List ℕ) → Dict Text Value → Bool
    nothing none none none [] = true
    nothing c e s d = false

-- `time.time() - session.get("created_at", 0) > LINK_SESSION_TTL`
abbrev pub is_expired : ℕ → Session → Bool
is_expired now s = ltb session_ttl (now - or_default 0 (Session.created_at s))

unfoldable pub create_link_session : ℕ → Text → Session → Dict Text Session → Dict Text Session
create_link_session now token given sessions =
    insert token
      (record given {
        created_at = some (or_default now (Session.created_at given));
        subscribers = some (or_default [] (Session.subscribers given));
      })
      (evict_expired (is_expired now) (λ s. or_default 0 (Session.created_at s)) max_sessions
        sessions)

-- `session["status"] = "expired"`
abbrev pub mark_expired : Session → Session
mark_expired s = record s {
  fields = insert (lit "status") (text (lit "expired")) (Session.fields s);
}

-- The session found, and the store after it: an expired session is marked in the store too.
unfoldable pub get_link_session : ℕ → Text → Dict Text Session → Option Session × Dict Text Session
get_link_session now token sessions = found (lookup token sessions)
  where
    found : Option Session → Option Session × Dict Text Session
    found none = (none, sessions)
    found (some s) =
        if is_empty s
        then (none, sessions)
        else if is_expired now s
        then (some (mark_expired s), insert token (mark_expired s) sessions)
        else (some s, sessions)

-- `d.update(updates)`
abbrev pub update_fields : Dict Text Value → Dict Text Value → Dict Text Value
update_fields d [] = d
update_fields d ((k, v) ∷ us) = update_fields (insert k v d) us

abbrev pub update_session : Session → Session → Session
update_session s u = record {
  created_at = or_else (Session.created_at u) (Session.created_at s);
  events = or_else (Session.events u) (Session.events s);
  subscribers = or_else (Session.subscribers u) (Session.subscribers s);
  fields = update_fields (Session.fields s) (Session.fields u);
}

-- What the operations that change a stored session share: `False` when there is none.
abbrev pub changing : (Session → Session) → Text → Dict Text Session → Bool × Dict Text Session
changing change token sessions = found (lookup token sessions)
  where
    found : Option Session → Bool × Dict Text Session
    found none = (false, sessions)
    found (some s) =
        if is_empty s then (false, sessions) else (true, insert token (change s) sessions)

unfoldable pub update_link_session : Text → Session → Dict Text Session → Bool × Dict Text Session
update_link_session token updates = changing (λ s. update_session s updates) token

unfoldable pub delete_link_session : Text → Dict Text Session → Dict Text Session
delete_link_session token sessions = erase token sessions

-- `session.setdefault("events", []).append(event)`
abbrev pub append_event : Value → Session → Session
append_event event s = record s { events = some (or_default [] (Session.events s) ++ event ∷ []) }

unfoldable pub append_link_session_event :
    Text → Value → Dict Text Session → Bool × Dict Text Session
append_link_session_event token event = changing (append_event event) token

unfoldable pub set_link_scopes : Text → Text → Dict Text Text → Dict Text Text
set_link_scopes token scopes d = insert token scopes (evict_first max_scopes d)

unfoldable pub pop_link_scopes : Text → Dict Text Text → Option Text × Dict Text Text
pop_link_scopes token d = (lookup token d, erase token d)

unfoldable pub set_link_refresh_schedule : Text → Text → Dict Text Text → Dict Text Text
set_link_refresh_schedule token schedule d = insert token schedule (evict_first max_scopes d)

unfoldable pub pop_link_refresh_schedule : Text → Dict Text Text → Option Text × Dict Text Text
pop_link_refresh_schedule token d = (lookup token d, erase token d)

-- A launch bootstrap: whether its status is "consumed" and no longer "issued", and its times.
pub record Bootstrap : Type 0 where
  pub consumed : Bool
  pub created : ℕ
  pub expires_in : ℕ

-- `now - created_at > expires_in`, with `expires_in` in seconds.
abbrev pub bootstrap_expired : ℕ → Bootstrap → Bool
bootstrap_expired now b = ltb (1000 * Bootstrap.expires_in b) (now - Bootstrap.created b)

unfoldable pub evict_bootstraps : ℕ → Dict Text Bootstrap → Dict Text Bootstrap
evict_bootstraps now = evict_expired (bootstrap_expired now) Bootstrap.created max_bootstraps

unfoldable pub store_link_launch_bootstrap :
    ℕ → Text → ℕ → Dict Text Bootstrap → Dict Text Bootstrap
store_link_launch_bootstrap now launch_id seconds d =
    insert launch_id (record { consumed = false; created = now; expires_in = max seconds 1 })
      (evict_bootstraps now d)

unfoldable pub consume_link_launch_bootstrap :
    ℕ → Text → Dict Text Bootstrap → Bool × Dict Text Bootstrap
consume_link_launch_bootstrap now launch_id d =
    let kept = evict_bootstraps now d in found kept (lookup launch_id kept)
  where
    found : Dict Text Bootstrap → Option Bootstrap → Bool × Dict Text Bootstrap
    found kept none = (false, kept)
    found kept (some b) =
        if Bootstrap.consumed b
        then (false, kept)
        else (true, insert launch_id (record b { consumed = true }) kept)

-- `del deliveries[: len(deliveries) - WEBHOOK_DELIVERY_MAX]` when there are more.
abbrev pub trim : List Value → List Value
trim vs = if ltb max_deliveries (length vs) then drop (length vs - max_deliveries) vs else vs

unfoldable pub add_webhook_delivery : Text → Value → Dict Text (List Value) → Dict Text (List Value)
add_webhook_delivery webhook_id delivery d =
    let kept = evict_first max_webhooks d in
    insert webhook_id (trim (or_default [] (lookup webhook_id kept) ++ delivery ∷ [])) kept

unfoldable pub get_webhook_deliveries : Text → Dict Text (List Value) → List Value
get_webhook_deliveries webhook_id d = or_default [] (lookup webhook_id d)

unfoldable pub delete_webhook_deliveries : Text → Dict Text (List Value) → Dict Text (List Value)
delete_webhook_deliveries webhook_id d = erase webhook_id d

-- The module's five dictionaries.
pub record Stores : Type 0 where
  pub link_sessions : Dict Text Session
  pub link_scopes : Dict Text Text
  pub link_refresh_schedules : Dict Text Text
  pub link_launch_bootstraps : Dict Text Bootstrap
  pub webhook_deliveries : Dict Text (List Value)

unfoldable pub clear_all : Stores → Stores
clear_all s = record s {
  link_sessions = [];
  link_scopes = [];
  link_launch_bootstraps = [];
  webhook_deliveries = [];
}
