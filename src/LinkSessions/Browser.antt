-- ===== src/LinkSessions/Browser.antt =====
-- src/routers/link_sessions.py `post_link_session_event`: what the hosted page can bring about.
use plaidify.Base.{
  ℕ, ◌≡◌, refl, sym, ◌∙◌, Bool, true, false, ◌&&◌, Option, none, some, List, [], ◌∷◌, any,
  if◌then◌else◌, ◌==◌, ==_refl, nat_eq, Bool-cases, Option-cases, inl, inr,
}
use plaidify.Base.Compare.{list_eq}
use plaidify.Base.Dict.{Dict, lookup, insert, erase, lookup-insert}
use plaidify.Base.Text.{Text, lit}
use plaidify.Json.{Value, null, bool, num, text, arr, obj}
use plaidify.SessionStore.Memory.{
  Session, get_link_session, append_link_session_event, update_link_session, update_fields,
  mark_expired, is_empty, is_expired, append_event, update_session,
}
use plaidify.LinkSessions.Events.{
  Hub, updates_of, get_session, build_link_session_event, webhook_event, fire_webhooks_for_session,
  record_event, apply_updates, push_link_session_event, event_updates, updates_by,
  post_link_session_event, is_terminal, sanitize_dict, value_or, is_connected,
}

-- Whether a value is the status "completed", and whether updates set it.
abbrev is_completed : Option Value → Bool
is_completed (some (text t)) = t == lit "completed"
is_completed _ = false

abbrev completes : Text × Value → Bool
completes (k, v) = (k == lit "status") && is_completed (some v)

-- Whether the session of a token is completed.
unfoldable pub completed_in : Text → Dict Text Session → Bool
unfolding lookup
completed_in token sessions = status (lookup token sessions)
  where
    status : Option Session → Bool
    status none = false
    status (some s) = is_completed (lookup (lit "status") (Session.fields s))

either :
    (b : Bool) (xs ys : List (Text × Value))
    → any completes xs ≡ false
    → any completes ys ≡ false
    → any completes (if b then xs else ys) ≡ false
either true xs ys h g = h
either false xs ys h g = g

-- No event of the page sets the status "completed".
event_updates-completes :
    (name : Text) (body fields : Dict Text Value)
    → any completes (event_updates name body fields) ≡ false
unfolding event_updates
event_updates-completes name body fields = either (name == lit "OPEN") _ _ refl (
    either (name == lit "INSTITUTION_SELECTED") _ _ refl (
      either (name == lit "CREDENTIALS_SUBMITTED") _ _ refl (
        either (name == lit "MFA_REQUIRED") _ _ refl (
          either (name == lit "MFA_SUBMITTED") _ _ refl (
            either (name == lit "EXIT") _ _
              (either (is_terminal (lookup (lit "status") fields)) _ _ refl refl)
              (either (name == lit "ERROR") _ _ refl refl))))))

updates_by-completes :
    (name : Value) (body fields : Dict Text Value)
    → any completes (updates_by name body fields) ≡ false
unfolding updates_by
updates_by-completes null body fields = refl
updates_by-completes (bool b) body fields = refl
updates_by-completes (num n) body fields = refl
updates_by-completes (text t) body fields = event_updates-completes t body fields
updates_by-completes (arr vs) body fields = refl
updates_by-completes (obj fs) body fields = refl

-- Updates that do not set it complete no session.
update_fields-completed :
    (us d : Dict Text Value)
    → any completes us ≡ false
    → is_completed (lookup (lit "status") (update_fields d us)) ≡ true
    → is_completed (lookup (lit "status") d) ≡ true
update_fields-completed [] d h e = e
update_fields-completed ((k, v) ∷ us) d h e = elim (Bool-cases (completes (k, v))) [
  | inl c ↦ let h' = rw c at h in absurd cc
  | inr c ↦
      let before = update_fields-completed us (insert k v d) (rw c at h) e in
      elim (Bool-cases (k == lit "status")) [
        | inl f ↦
            let set = rw (lookup-insert k (lit "status") v d, f) at before in
            let unset = rw f at c in absurd cc
        | inr f ↦ rw (lookup-insert k (lit "status") v d, f) at before
      ]
]

completed-insert :
    (token : Text) (s : Session) (d : Dict Text Session)
    → completed_in token (insert token s d)
      ≡ is_completed (lookup (lit "status") (Session.fields s))
unfolding completed_in
completed-insert token s d = rw (lookup-insert token token s d, ==_refl token) refl

completed-at :
    (token : Text) (s : Session) (d : Dict Text Session)
    → lookup token d ≡ some s
    → completed_in token d ≡ is_completed (lookup (lit "status") (Session.fields s))
unfolding completed_in
completed-at token s d e = rw e refl

expired-uncompleted :
    (s : Session) → is_completed (lookup (lit "status") (Session.fields (mark_expired s))) ≡ false
expired-uncompleted s =
    rw (lookup-insert (lit "status") (lit "status") (text (lit "expired")) (Session.fields s)) refl

get-completed :
    (now : ℕ) (token : Text) (d : Dict Text Session)
    → completed_in token (get_link_session now token d).1 ≡ true
    → completed_in token d ≡ true
unfolding get_link_session
get-completed now token d e = elim (Option-cases (lookup token d)) [
  | inl n ↦ rw n at e
  | inr (s, f) ↦ elim (Bool-cases (is_empty s)) [
    | inl g ↦ rw (f, g) at e
    | inr g ↦ elim (Bool-cases (is_expired now s)) [
      | inl h ↦
          let after = rw (f, g, h) at e in
          let marked = completed-insert token (mark_expired s) d ∙ expired-uncompleted s in
          absurd cc
      | inr h ↦ rw (f, g, h) at e
    ]
  ]
]

append-completed :
    (token : Text) (event : Value) (d : Dict Text Session)
    → completed_in token (append_link_session_event token event d).1 ≡ completed_in token d
unfolding append_link_session_event
append-completed token event d = elim (Option-cases (lookup token d)) [
  | inl n ↦ rw n refl
  | inr (s, f) ↦ elim (Bool-cases (is_empty s)) [
    | inl g ↦ rw (f, g) refl
    | inr g ↦
        rw (f, g) (completed-insert token (append_event event s) d ∙ sym (completed-at token s d f))
  ]
]

update-completed :
    (token : Text) (us : Dict Text Value) (d : Dict Text Session)
    → any completes us ≡ false
    → completed_in token (update_link_session token (updates_of us) d).1 ≡ true
    → completed_in token d ≡ true
unfolding update_link_session
update-completed token us d h e = elim (Option-cases (lookup token d)) [
  | inl n ↦ rw n at e
  | inr (s, f) ↦ elim (Bool-cases (is_empty s)) [
    | inl g ↦ rw (f, g) at e
    | inr g ↦
        let after = rw (f, g) at e in
        let updated = sym (completed-insert token (update_session s (updates_of us)) d) ∙ after in
        completed-at token s d f ∙ update_fields-completed us (Session.fields s) h updated
  ]
]

apply-completed :
    (token : Text) (us : Dict Text Value) (d : Dict Text Session)
    → any completes us ≡ false
    → completed_in token (apply_updates token us d) ≡ true
    → completed_in token d ≡ true
unfolding apply_updates
apply-completed token [] d h e = e
apply-completed token (u ∷ us) d h e = update-completed token (u ∷ us) d h e

-- The session of a token after `_push_link_session_event`.
push-completed :
    (now : ℕ) (stamp token : Text) (name : Value) (details : Option (Dict Text Value))
    (us : Dict Text Value) (hub : Hub)
    → any completes us ≡ false
    → completed_in token
        (Hub.sessions (push_link_session_event now stamp token name details us hub).1)
      ≡ true
    → completed_in token (Hub.sessions hub) ≡ true
unfolding push_link_session_event record_event fire_webhooks_for_session get_session
push-completed now stamp token name details us hub h e = by_name name e
  where
    event : Value → Value
    event n = build_link_session_event stamp n details

    recorded :
        (n : Value)
        → completed_in token (Hub.sessions (record_event stamp token n details us hub)) ≡ true
        → completed_in token (Hub.sessions hub) ≡ true
    recorded n e' =
        sym (append-completed token (event n) (Hub.sessions hub))
        ∙ apply-completed token us (append_link_session_event token (event n) (Hub.sessions hub)).1
            h e'

    fired :
        (kind : Text) (hub' : Hub)
        → completed_in token (Hub.sessions (fire_webhooks_for_session now token kind details hub'))
          ≡ true
        → completed_in token (Hub.sessions hub') ≡ true
    fired kind hub' e' = get-completed now token (Hub.sessions hub') e'

    by_name :
        (n : Value)
        → completed_in token
            (Hub.sessions (push_link_session_event now stamp token n details us hub).1)
          ≡ true
        → completed_in token (Hub.sessions hub) ≡ true
    by_name null e' = recorded null e'
    by_name (bool b) e' = recorded (bool b) e'
    by_name (num n) e' = recorded (num n) e'
    by_name (arr vs) e' = recorded (arr vs) e'
    by_name (obj fs) e' = recorded (obj fs) e'
    by_name (text t) e' = elim (Option-cases (webhook_event t)) [
      | inl w ↦ recorded (text t) (rw w at e')
      | inr (kind, w) ↦
          recorded (text t)
            (fired kind (record_event stamp token (text t) details us hub) (rw w at e'))
    ]

-- The hosted page cannot complete a session: whatever it posts, a session that is completed afterwards
-- was completed before.
pub post-completed :
    (now : ℕ) (stamp token : Text) (body : Dict Text Value) (hub : Hub)
    → completed_in token (Hub.sessions (post_link_session_event now stamp token body hub).1) ≡ true
    → completed_in token (Hub.sessions hub) ≡ true
unfolding post_link_session_event get_session
post-completed now stamp token body hub e =
    elim (Option-cases (get_link_session now token (Hub.sessions hub)).0) [
      | inl n ↦ get-completed now token (Hub.sessions hub) (rw n at e)
      | inr (s, f) ↦ elim (Option-cases (lookup (lit "status") (Session.fields s))) [
        | inl n ↦ get-completed now token (Hub.sessions hub) (rw (f, n) at e)
        | inr (st, g) ↦ by_status s f st g
      ]
    ]
  where
    name : Value
    name = value_or (text (lit "UNKNOWN")) (lookup (lit "event") body)

    details : Option (Dict Text Value)
    details = some (sanitize_dict (erase (lit "event") body))

    seen : Hub
    seen = (get_session now token hub).1

    by_status :
        (s : Session)
        → (get_link_session now token (Hub.sessions hub)).0 ≡ some s
        → (st : Value) → lookup (lit "status") (Session.fields s) ≡ some st
        → completed_in token (Hub.sessions hub) ≡ true
    by_status s f null g = get-completed now token (Hub.sessions hub) (rw (f, g) at e)
    by_status s f (bool b) g = get-completed now token (Hub.sessions hub) (rw (f, g) at e)
    by_status s f (num n) g = get-completed now token (Hub.sessions hub) (rw (f, g) at e)
    by_status s f (arr vs) g = get-completed now token (Hub.sessions hub) (rw (f, g) at e)
    by_status s f (obj fs) g = get-completed now token (Hub.sessions hub) (rw (f, g) at e)
    by_status s f (text t) g = elim (Bool-cases (t == lit "expired")) [
      | inl x ↦ get-completed now token (Hub.sessions hub) (rw (f, g, x) at e)
      | inr x ↦ elim (Bool-cases (is_connected name)) [
        | inl y ↦ get-completed now token (Hub.sessions hub) (rw (f, g, x, y) at e)
        | inr y ↦ get-completed now token (Hub.sessions hub) (
            push-completed now stamp token name details (updates_by name body (Session.fields s))
              seen (updates_by-completes name body (Session.fields s)) (rw (f, g, x, y) at e))
      ]
    ]
