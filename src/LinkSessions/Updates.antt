-- ===== src/LinkSessions/Updates.antt =====
-- src/routers/link_sessions.py: what `reconcile_link_session` writes into the session.
use mathlib.Core.Bool.{true≢false}
use plaidify.Base.{
  ◌≡◌, refl, sym, subst, ◌∙◌, false, Option, none, some, [], ◌∷◌, ◌==◌, ==_refl, ==_iff, nat_eq,
  Bool-cases, inl, inr,
}
use plaidify.Base.Compare.{list_eq}
use plaidify.Base.Dict.{Dict, lookup, insert, lookup-insert}
use plaidify.Base.Text.{Text, lit}
use plaidify.Json.{Value, null, text, truthy}
use plaidify.SessionStore.Evict.Bound.{Uniq}
use plaidify.SessionStore.Memory.{Session, update_fields, or_else}
use plaidify.AccessJobs.Job.{
  JobStatus, pending, running, completed, mfa_required, blocked, failed, cancelled,
}
use plaidify.AccessJobs.Create.{JobView}
use plaidify.LinkSessions.Reconcile.{
  base_updates, plain_updates, with_metadata, status_updates, target,
}

unequal : (j k : Text) → (j == k) ≡ false → (k == j) ≡ false
unequal j k n = elim (Bool-cases (k == j)) [
  | inl e ↦
      absurd
        (true≢false (sym (==_refl k) ∙ (subst (λ t. (t == k) ≡ false) (sym ((==_iff k j).0 e)) n)))
  | inr e ↦ e
]

pub insert-Uniq : (k : Text) (v : Value) (d : Dict Text Value) → Uniq d → Uniq (insert k v d)
unfolding insert lookup
insert-Uniq k v [] u = (refl, tt)
insert-Uniq k v ((j, w) ∷ d) u = elim (Bool-cases (j == k)) [
  | inl e ↦ rw e u
  | inr e ↦ rw e (rw (lookup-insert k j v d, unequal j k e) u.0, insert-Uniq k v d u.1)
]

-- An update without double keys puts its values over the old ones.
pub lookup-update_fields :
    (k : Text) (us d : Dict Text Value)
    → Uniq us
    → lookup k (update_fields d us) ≡ or_else (lookup k us) (lookup k d)
unfolding lookup
lookup-update_fields k [] d u = refl
lookup-update_fields k ((j, v) ∷ us) d u =
    lookup-update_fields k us (insert j v d) u.1 ∙ elim (Bool-cases (j == k)) [
      | inl e ↦
          rw (lookup-insert j k v d, e, subst (λ t. lookup t us ≡ none) ((==_iff j k).0 e) u.0) refl
      | inr e ↦ rw (lookup-insert j k v d, e) refl
    ]

with_metadata-Uniq :
    (m : Option (Dict Text Value)) (us : Dict Text Value) → Uniq us → Uniq (with_metadata m us)
unfolding with_metadata
with_metadata-Uniq none us u = u
with_metadata-Uniq (some d) us u = insert-Uniq (lit "metadata") _ us u

with_metadata-job :
    (m : Option (Dict Text Value)) (us : Dict Text Value)
    → lookup (lit "current_job_id") (with_metadata m us) ≡ lookup (lit "current_job_id") us
unfolding with_metadata
with_metadata-job none us = refl
with_metadata-job (some d) us = lookup-insert (lit "metadata") (lit "current_job_id") _ us

plain-Uniq : (id : Text) (view : JobView) (s : Session) → Uniq (plain_updates id view s)
unfolding plain_updates lookup
plain-Uniq id view s = (refl, (refl, (refl, tt)))

plain-job :
    (id : Text) (view : JobView) (s : Session)
    → lookup (lit "current_job_id") (plain_updates id view s) ≡ some (text id)
unfolding plain_updates lookup
plain-job id view s = refl

-- What every job's updates have: no key twice, and the job's id.
pub base_updates-job :
    (id : Text) (view : JobView) (s : Session)
    → Uniq (base_updates id view s)
      × (lookup (lit "current_job_id") (base_updates id view s) ≡ some (text id))
unfolding base_updates
base_updates-job id view s =
    let m = JobView.metadata view in
    let plain = plain_updates id view s in
    let u = with_metadata-Uniq m plain (plain-Uniq id view s) in
    let job = with_metadata-job m plain ∙ plain-job id view s in
    let v = JobView.mfa_type view in
    let us = with_metadata m plain in
    elim (Bool-cases (truthy v)) [
      | inl e ↦ rw e (
        insert-Uniq (lit "mfa_type") v us u,
        lookup-insert (lit "mfa_type") (lit "current_job_id") v us ∙ job,
      )
      | inr e ↦ rw e (u, job)
    ]

-- One more key, which is not the job's id.
also :
    (k : Text) (v : Value) (us : Dict Text Value)
    → (k == lit "current_job_id") ≡ false
    → Uniq us
    → Uniq (insert k v us)
      × (lookup (lit "current_job_id") (insert k v us) ≡ lookup (lit "current_job_id") us)
also k v us n u = (insert-Uniq k v us u, rw (lookup-insert k (lit "current_job_id") v us, n) refl)

only :
    (st : Text) (us : Dict Text Value)
    → Uniq us
    → let us' = insert (lit "status") (text st) us in
      Uniq us'
      × (lookup (lit "status") us' ≡ some (text st))
      × (lookup (lit "current_job_id") us' ≡ lookup (lit "current_job_id") us)
only st us u =
    let more = also (lit "status") (text st) us refl u in
    (more.0, lookup-insert (lit "status") (lit "status") (text st) us, more.1)

-- The status with one key before it.
after_one :
    (k : Text) (v : Value) (st : Text) (us : Dict Text Value)
    → (k == lit "current_job_id") ≡ false
    → Uniq us
    → let us' = insert (lit "status") (text st) (insert k v us) in
      Uniq us'
      × (lookup (lit "status") us' ≡ some (text st))
      × (lookup (lit "current_job_id") us' ≡ lookup (lit "current_job_id") us)
after_one k v st us n u =
    let first = also k v us n u in
    let rest = only st (insert k v us) first.0 in (rest.0, rest.1, rest.2 ∙ first.1)

-- By status, they keep that, and set the status that belongs to the job's.
pub status_updates-status :
    (st : JobStatus) (view : JobView) (public_token : Value) (us : Dict Text Value)
    → Uniq us
    → Uniq (status_updates st view public_token us)
      × (lookup (lit "status") (status_updates st view public_token us) ≡ some (text (target st)))
      × (lookup (lit "current_job_id") (status_updates st view public_token us)
          ≡ lookup (lit "current_job_id") us)
unfolding status_updates
status_updates-status pending view pt us u = only (lit "connecting") us u
status_updates-status running view pt us u = only (lit "connecting") us u
status_updates-status mfa_required view pt us u =
    after_one (lit "message") _ (lit "mfa_required") us refl u
status_updates-status completed view pt us u =
    let one = also (lit "error_message") null us refl u in
    let two = also (lit "message") null _ refl one.0 in
    let three = after_one (lit "result") _ (lit "completed") _ refl two.0 in
    let same = three.2 ∙ (two.1 ∙ one.1) in
    elim (Bool-cases (truthy pt)) [
      | inl e ↦
          let four = also (lit "public_token") pt _ refl three.0 in
          rw e (
            four.0,
            lookup-insert (lit "public_token") (lit "status") pt _ ∙ three.1,
            four.1 ∙ same,
          )
      | inr e ↦ rw e (three.0, three.1, same)
    ]
status_updates-status blocked view pt us u =
    after_one (lit "error_message") _ (lit "error") us refl u
status_updates-status cancelled view pt us u =
    after_one (lit "error_message") _ (lit "error") us refl u
status_updates-status failed view pt us u =
    after_one (lit "error_message") _ (lit "error") us refl u
