-- ===== src/Access/Scopes.antt =====
-- src/dependencies.py `constrain_requested_scopes`: no request goes beyond the caller's permissions.
use mathlib.Core.Option.{some-injective}
use plaidify.Base.{
  ◌≡◌, sym, ap, ◌∙◌, subst, true, Option, none, some, List, ◌⊎◌, inl, inr, Bool-cases,
}
use plaidify.Base.Text.{Text}
use plaidify.LinkSessions.Origin.{contains}
use plaidify.AccessJobs.Job.{sorted}
use plaidify.Access.{
  Platform, AuthContext, HttpError, principal_scopes, normalize_scope_name, normalized_set,
  constrain_requested_scopes,
}
use plaidify.Access.Sets.{to_set, subset, contains-to_set, contains-sorted, subset-contains}

-- What a result that is no error lets through.
abbrev passed : HttpError ⊎ Option (List Text) → Option (List Text)
passed (inl e) = none
passed (inr scopes) = scopes

module _ (p : Platform) where
  -- If the caller's permissions are restricted, the scopes that a request is constrained to are there,
  -- each of them is permitted, and a request that names scopes gets exactly those, normalized.
  pub constrain_requested_scopes-allowed :
      (context : Option AuthContext) (allowed : List Text) (requested granted : Option (List Text))
      → principal_scopes p context ≡ some allowed
      → constrain_requested_scopes p context requested ≡ inr granted
      → (scopes : List Text) × (granted ≡ some scopes)
        × ((x : Text) → contains x scopes ≡ true → contains x allowed ≡ true)
        × ((asked : List Text)
            → requested ≡ some asked
            → (x : Text)
            → contains x scopes ≡ contains x (normalized_set p (normalize_scope_name p) asked))
  unfolding constrain_requested_scopes
  constrain_requested_scopes-allowed context allowed none granted a e =
      let e' = ap passed (rw a at e) in
      (sorted allowed, sym e', λ x h. sym (contains-sorted x allowed) ∙ h, λ asked n. absurd cc)
  constrain_requested_scopes-allowed context allowed (some scopes) granted a e =
      let wanted = to_set (normalized_set p (normalize_scope_name p) scopes) in
      elim (Bool-cases (subset wanted allowed)) [
        | inr s ↦ let e' = rw (a, s) at e in absurd cc
        | inl s ↦
            let e' = ap passed (rw (a, s) at e) in
            (
              sorted wanted,
              sym e',
              λ x h. subset-contains x wanted allowed s (sym (contains-sorted x wanted) ∙ h),
              λ asked n x.
                  subst
                    (λ l.
                      contains x (sorted wanted)
                      ≡ contains x (normalized_set p (normalize_scope_name p) l))
                    (some-injective scopes asked n)
                    (contains-sorted x wanted
                      ∙ contains-to_set x (normalized_set p (normalize_scope_name p) scopes)),
            )
      ]
