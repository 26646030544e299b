-- ===== src/LinkSessions/Clean.antt =====
-- src/routers/link_sessions.py: what subscribers and webhooks are told of a page's event.
use plaidify.Base.{
  ℕ, ◌≡◌, refl, sym, subst, ap, Option, some, List, [], ◌∷◌, All, All-append, ◌==◌, nat_eq,
  Bool-cases, Option-cases, inl, inr,
}
use plaidify.Base.Compare.{list_eq}
use plaidify.Base.Dict.{Dict, lookup, erase}
use plaidify.Base.Text.{Text, lit}
use plaidify.Json.{Value, Fields, null, bool, num, text, arr, obj, end, field, of_dict, to_dict}
use plaidify.SessionStore.Memory.{Session, get_link_session}
use plaidify.LinkSessions.Sanitize.{sanitize, sanitize_fields, IsClean, sanitize-IsClean}
use plaidify.LinkSessions.Events.{
  Hub, Fired, Webhook, deliveries, get_session, build_link_session_event, webhook_event,
  fire_webhooks_for_session, record_event, push_link_session_event, updates_by,
  post_link_session_event, sanitize_dict, is_connected, value_or, dict_or_empty,
}

-- The data of an event.
unfoldable pub details_of : Value → Value
unfolding lookup
details_of (obj fs) = value_or null (lookup (lit "data") (to_dict fs))
details_of _ = null

-- The name of an event.
unfoldable pub name_of : Value → Value
unfolding lookup
name_of (obj fs) = value_or null (lookup (lit "event") (to_dict fs))
name_of _ = null

-- No forbidden key stands in the name and the data of what was published, nor in what was fired.
pub record IsCleanHub (hub : Hub) : Type 0 where
  pub published :
      All
        (λ (e : Text × Value). IsClean (name_of e.1) × IsClean (details_of e.1))
        (Hub.published hub)
  pub fired : All (λ (f : Fired). IsClean (Fired.content f)) (Hub.fired hub)

build-IsClean :
    (stamp : Text) (name : Value) (details : Option (Dict Text Value))
    → IsClean name
    → IsClean (name_of (build_link_session_event stamp name details))
      × IsClean (details_of (build_link_session_event stamp name details))
unfolding name_of details_of build_link_session_event lookup
build-IsClean stamp name details h =
    (h, (sanitize-IsClean (obj (of_dict (dict_or_empty details)))).0)

of_dict-to_dict : (fs : Fields) → of_dict (to_dict fs) ≡ fs
of_dict-to_dict end = refl
of_dict-to_dict (field k v fs) = ap (field k v) (of_dict-to_dict fs)

sanitize_dict-IsClean : (d : Dict Text Value) → IsClean (obj (of_dict (sanitize_dict d)))
unfolding sanitize_dict sanitize
sanitize_dict-IsClean d =
    subst (λ fs. IsClean (obj fs)) (sym (of_dict-to_dict (sanitize_fields (of_dict d))))
      (sanitize-IsClean (obj (of_dict d))).0

deliveries-IsClean :
    (token event : Text) (content : Value) (pt : Option Value) (ws : List Webhook)
    → IsClean content
    → All (λ (f : Fired). IsClean (Fired.content f)) (deliveries token event content pt ws)
unfolding deliveries
deliveries-IsClean token event content pt [] h = tt
deliveries-IsClean token event content pt (w ∷ ws) h =
    elim (Bool-cases (Webhook.link_token w == token)) [
      | inl e ↦ rw e (h, deliveries-IsClean token event content pt ws h)
      | inr e ↦ rw e (deliveries-IsClean token event content pt ws h)
    ]

fire-IsCleanHub :
    (now : ℕ) (token event : Text) (details : Option (Dict Text Value)) (hub : Hub)
    → IsClean (obj (of_dict (dict_or_empty details)))
    → IsCleanHub hub
    → IsCleanHub (fire_webhooks_for_session now token event details hub)
unfolding fire_webhooks_for_session get_session
fire-IsCleanHub now token event details hub clean h = record {
  published = IsCleanHub.published h;
  fired =
      All-append _ (Hub.fired hub) _ (IsCleanHub.fired h)
        (deliveries-IsClean token event (obj (of_dict (dict_or_empty details))) _ _ clean);
}

record-IsCleanHub :
    (stamp token : Text) (name : Value) (details : Option (Dict Text Value))
    (updates : Dict Text Value) (hub : Hub)
    → IsClean name
    → IsCleanHub hub
    → IsCleanHub (record_event stamp token name details updates hub)
unfolding record_event
record-IsCleanHub stamp token name details updates hub clean h = record {
  published =
      All-append _ (Hub.published hub) _ (IsCleanHub.published h)
        (build-IsClean stamp name details clean, tt);
  fired = IsCleanHub.fired h;
}

pub push-IsCleanHub :
    (now : ℕ) (stamp token : Text) (name : Value) (details : Option (Dict Text Value))
    (updates : Dict Text Value) (hub : Hub)
    → IsClean name
    → IsClean (obj (of_dict (dict_or_empty details)))
    → IsCleanHub hub
    → IsCleanHub (push_link_session_event now stamp token name details updates hub).1
unfolding push_link_session_event
push-IsCleanHub now stamp token name details updates hub named clean h = by_name name named
  where
    recorded : (n : Value) → IsClean n → IsCleanHub (record_event stamp token n details updates hub)
    recorded n clean_name = record-IsCleanHub stamp token n details updates hub clean_name h

    by_name :
        (n : Value)
        → IsClean n
        → IsCleanHub (push_link_session_event now stamp token n details updates hub).1
    by_name null k = recorded null k
    by_name (bool b) k = recorded (bool b) k
    by_name (num n) k = recorded (num n) k
    by_name (arr vs) k = recorded (arr vs) k
    by_name (obj fs) k = recorded (obj fs) k
    by_name (text t) k = elim (Option-cases (webhook_event t)) [
      | inl w ↦ rw w (recorded (text t) k)
      | inr (kind, w) ↦ rw w (
          fire-IsCleanHub now token kind details
            (record_event stamp token (text t) details updates hub) clean (recorded (text t) k))
    ]

-- If the name that the page gives its event has no forbidden key in it, as a text has none, then no
-- forbidden key reaches a subscriber or a webhook by the event, whatever else it holds and however
-- deep. The name itself is published as the page gives it.
pub post-IsCleanHub :
    (now : ℕ) (stamp token : Text) (body : Dict Text Value) (hub : Hub)
    → IsClean (value_or (text (lit "UNKNOWN")) (lookup (lit "event") body))
    → IsCleanHub hub
    → IsCleanHub (post_link_session_event now stamp token body hub).1
unfolding post_link_session_event get_session
post-IsCleanHub now stamp token body hub clean h =
    elim (Option-cases (get_link_session now token (Hub.sessions hub)).0) [
      | inl n ↦ rw n same
      | inr (s, f) ↦ elim (Option-cases (lookup (lit "status") (Session.fields s))) [
        | inl n ↦ rw (f, n) same
        | inr (st, g) ↦ by_status s f st g
      ]
    ]
  where
    seen : Hub
    seen = (get_session now token hub).1

    same : IsCleanHub seen
    same = record { published = IsCleanHub.published h; fired = IsCleanHub.fired h }

    name : Value
    name = value_or (text (lit "UNKNOWN")) (lookup (lit "event") body)

    by_status :
        (s : Session)
        → (get_link_session now token (Hub.sessions hub)).0 ≡ some s
        → (st : Value) → lookup (lit "status") (Session.fields s) ≡ some st
        → IsCleanHub (post_link_session_event now stamp token body hub).1
    by_status s f null g = rw (f, g) same
    by_status s f (bool b) g = rw (f, g) same
    by_status s f (num n) g = rw (f, g) same
    by_status s f (arr vs) g = rw (f, g) same
    by_status s f (obj fs) g = rw (f, g) same
    by_status s f (text t) g = elim (Bool-cases (t == lit "expired")) [
      | inl x ↦ rw (f, g, x) same
      | inr x ↦ elim (Bool-cases (is_connected name)) [
        | inl y ↦ rw (f, g, x, y) same
        | inr y ↦
            rw (f, g, x, y)
              (push-IsCleanHub now stamp token name
                (some (sanitize_dict (erase (lit "event") body)))
                (updates_by name body (Session.fields s)) seen clean
                (sanitize_dict-IsClean (erase (lit "event") body)) same)
      ]
    ]
