-- ===== src/LinkSessions/Following.antt =====
-- src/routers/link_sessions.py `reconcile_link_session`: the session that follows a job, once it is reconciled.
use mathlib.Core.Option.{some-injective, none-ne-some}
use plaidify.Base.{
  ℕ, ◌≡◌, refl, sym, subst, ◌∙◌, true, false, Option, none, some, List, [], ◌∷◌, if◌then◌else◌,
  ==_refl, nat_eq, Bool-cases, Option-cases, inl, inr,
}
use plaidify.Base.Compare.{list_eq}
use plaidify.Base.Dict.{Dict, lookup, lookup-insert}
use plaidify.Base.Text.{Text, lit}
use plaidify.Json.{Value, text}
use plaidify.SessionStore.Memory.{
  Session, get_link_session, update_link_session, append_link_session_event, append_event,
  update_session, mark_expired, is_empty, is_expired,
}
use plaidify.AccessJobs.Job.{JobStatus}
use plaidify.AccessJobs.Create.{JobView}
use plaidify.LinkSessions.Events.{
  Hub, updates_of, get_session, build_link_session_event, webhook_event, record_event,
  apply_updates, fire_webhooks_for_session, push_link_session_event,
}
use plaidify.LinkSessions.Reconcile.{
  base_updates, status_updates, target, event_for, is_silent, is_status, details_for,
  push_or_update, follow,
}
use plaidify.LinkSessions.Updates.{lookup-update_fields, base_updates-job, status_updates-status}

-- A session whose dictionary has a key is not empty.
filled :
    (s : Session) (k : Text) (v : Value) → lookup k (Session.fields s) ≡ some v → is_empty s ≡ false
unfolding lookup
filled s k v h =
    by_fields (Session.fields s) (Session.created_at s) (Session.events s) (Session.subscribers s) h
  where
    by_fields :
        (d : Dict Text Value) (c : Option ℕ) (e : Option (List Value)) (b : Option (List ℕ))
        → lookup k d ≡ some v
        → is_empty (record { created_at = c; events = e; subscribers = b; fields = d }) ≡ false
    by_fields [] c e b h = absurd (none-ne-some v h)
    by_fields (kv ∷ d) none none none h = refl
    by_fields (kv ∷ d) none none (some b) h = refl
    by_fields (kv ∷ d) none (some e) b h = refl
    by_fields (kv ∷ d) (some c) e b h = refl

module _ (now : ℕ) (token : Text) where
  -- The store has a session that is neither empty nor expired.
  pub record IsLive (s : Session) (d : Dict Text Session) : Type 0 where
    pub there : lookup token d ≡ some s
    pub filled : is_empty s ≡ false
    pub fresh : is_expired now s ≡ false

  pub get-IsLive :
      (s : Session) (d : Dict Text Session)
      → IsLive s d
      → get_link_session now token d ≡ (some s, d)
  unfolding get_link_session
  get-IsLive s d h = rw (IsLive.there h, IsLive.filled h, IsLive.fresh h) refl

  pub marked :
      (s : Session)
      → is_status (lookup (lit "status") (Session.fields (mark_expired s))) (lit "expired") ≡ true
  marked s =
      rw (lookup-insert (lit "status") (lit "status") (text (lit "expired")) (Session.fields s))
        refl

  -- A session that is found and not marked is live.
  pub found-IsLive :
      (s : Session) (d : Dict Text Session)
      → (get_link_session now token d).0 ≡ some s
      → is_status (lookup (lit "status") (Session.fields s)) (lit "expired") ≡ false
      → IsLive s d
  unfolding get_link_session
  found-IsLive s d e n = elim (Option-cases (lookup token d)) [
    | inl f ↦ absurd (none-ne-some s (rw f at e))
    | inr (s', f) ↦ elim (Bool-cases (is_empty s')) [
      | inl g ↦ absurd (none-ne-some s (rw (f, g) at e))
      | inr g ↦ elim (Bool-cases (is_expired now s')) [
        | inl x ↦
            let same = some-injective (mark_expired s') s (rw (f, g, x) at e) in
            let m =
              subst
                (λ t. is_status (lookup (lit "status") (Session.fields t)) (lit "expired") ≡ true)
                same (marked s') in
            absurd cc
        | inr x ↦
            let same = some-injective s' s (rw (f, g, x) at e) in
            subst (λ t. IsLive t d) same (record { there = f; filled = g; fresh = x })
      ]
    ]
  ]

  -- The session of the token follows a job: it is live, with the job's id and the job's status.
  pub record IsFollowing (id : Text) (st : JobStatus) (d : Dict Text Session) : Type 0 where
    pub session : Session
    pub live : IsLive session d
    pub status : lookup (lit "status") (Session.fields session) ≡ some (text (target st))
    pub job : lookup (lit "current_job_id") (Session.fields session) ≡ some (text id)

  -- The updates for a job make it so.
  update-IsFollowing :
      (id : Text) (view : JobView) (pt : Value) (s s' : Session) (d : Dict Text Session)
      → IsLive s' d
      → IsFollowing id
          (JobView.status view)
          (update_link_session token
            (updates_of (status_updates (JobView.status view) view pt (base_updates id view s)))
            d).1
  unfolding update_link_session
  update-IsFollowing id view pt s s' d h =
      let base = base_updates-job id view s in
      let us = status_updates (JobView.status view) view pt (base_updates id view s) in
      let by =
        status_updates-status (JobView.status view) view pt (base_updates id view s) base.0 in
      let new = update_session s' (updates_of us) in
      let with_status =
        lookup-update_fields (lit "status") us (Session.fields s') by.0 ∙ rw by.1 refl in
      let with_job =
        lookup-update_fields (lit "current_job_id") us (Session.fields s') by.0
        ∙ rw (by.2, base.1) refl in
      rw (IsLive.there h, IsLive.filled h)
        (record {
          session = new;
          live = record {
            there = rw (lookup-insert token token new d, ==_refl token) refl;
            filled = filled new (lit "status") _ with_status;
            fresh = IsLive.fresh h;
          };
          status = with_status;
          job = with_job;
        })

  apply-some :
      (us : Dict Text Value) (d : Dict Text Session) (k : Text) (v : Value)
      → lookup k us ≡ some v
      → apply_updates token us d ≡ (update_link_session token (updates_of us) d).1
  unfolding apply_updates lookup
  apply-some [] d k v h = absurd (none-ne-some v h)
  apply-some (u ∷ us) d k v h = refl

  append-IsLive :
      (event : Value) (s : Session) (d : Dict Text Session)
      → IsLive s d
      → IsLive (append_event event s) (append_link_session_event token event d).1
  unfolding append_link_session_event
  append-IsLive event s d h =
      rw (IsLive.there h, IsLive.filled h)
        (record {
          there = rw (lookup-insert token token (append_event event s) d, ==_refl token) refl;
          filled = with_event (Session.created_at s) (Session.subscribers s) (Session.fields s);
          fresh = IsLive.fresh h;
        })
    where
      with_event :
          (c : Option ℕ) (b : Option (List ℕ)) (fields : Dict Text Value)
          → is_empty
              (append_event event (record s { created_at = c; subscribers = b; fields = fields }))
            ≡ false
      with_event none b fields = refl
      with_event (some c) b fields = refl

  record-IsFollowing :
      (stamp : Text) (name : Value) (details : Option (Dict Text Value)) (id : Text)
      (view : JobView) (pt : Value) (s s' : Session) (hub : Hub)
      → IsLive s' (Hub.sessions hub)
      → IsFollowing id (JobView.status view) (
          Hub.sessions (
            record_event stamp token name details
              (status_updates (JobView.status view) view pt (base_updates id view s))
              hub))
  unfolding record_event
  record-IsFollowing stamp name details id view pt s s' hub h =
      let base = base_updates-job id view s in
      let us = status_updates (JobView.status view) view pt (base_updates id view s) in
      let by =
        status_updates-status (JobView.status view) view pt (base_updates id view s) base.0 in
      let event = build_link_session_event stamp name details in
      let d = (append_link_session_event token event (Hub.sessions hub)).1 in
      subst (λ e. IsFollowing id (JobView.status view) e)
        (sym (apply-some us d (lit "status") _ by.1))
        (update-IsFollowing id view pt s (append_event event s') d
          (append-IsLive event s' (Hub.sessions hub) h))

  fire-IsFollowing :
      (event : Text) (details : Option (Dict Text Value)) (id : Text) (st : JobStatus) (hub : Hub)
      → IsFollowing id st (Hub.sessions hub)
      → IsFollowing id st (Hub.sessions (fire_webhooks_for_session now token event details hub))
  unfolding fire_webhooks_for_session get_session
  fire-IsFollowing event details id st hub h =
      rw (get-IsLive (IsFollowing.session h) (Hub.sessions hub) (IsFollowing.live h)) h

  push-IsFollowing :
      (stamp name : Text) (details : Option (Dict Text Value)) (id : Text) (view : JobView)
      (pt : Value) (s s' : Session) (hub : Hub)
      → IsLive s' (Hub.sessions hub)
      → IsFollowing id (JobView.status view) (
          Hub.sessions
            (push_link_session_event now stamp token
              (text name)
              details
              (status_updates (JobView.status view) view pt (base_updates id view s))
              hub).1)
  unfolding push_link_session_event
  push-IsFollowing stamp name details id view pt s s' hub h =
      let recorded = record-IsFollowing stamp (text name) details id view pt s s' hub h in
      elim (Option-cases (webhook_event name)) [
        | inl w ↦ rw w recorded
        | inr (event, w) ↦ rw w (
            fire-IsFollowing event details id (JobView.status view)
              (record_event stamp token (text name) details
                (status_updates (JobView.status view) view pt (base_updates id view s)) hub)
              recorded)
      ]

  -- The session follows the job once it was reconciled with it.
  pub follow-IsFollowing :
      (stamp id : Text) (view : JobView) (pt : Value) (s : Session) (hub : Hub)
      → IsLive s (Hub.sessions hub)
      → IsFollowing id
          (JobView.status view)
          (Hub.sessions (follow now stamp token id view pt s hub))
  unfolding follow push_or_update
  follow-IsFollowing stamp id view pt s hub h =
      let same =
        is_status (lookup (lit "status") (Session.fields s)) (target (JobView.status view)) in
      elim (Bool-cases (if is_silent (JobView.status view) then true else same)) [
        | inl q ↦ rw q (update-IsFollowing id view pt s s (Hub.sessions hub) h)
        | inr q ↦ rw q (
            push-IsFollowing stamp (event_for (JobView.status view))
              (some (
                details_for (JobView.status view) id view pt
                  (status_updates (JobView.status view) view pt (base_updates id view s))))
              id view pt s s hub h)
      ]
