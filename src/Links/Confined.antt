-- ===== src/Links/Confined.antt =====
-- src/routers/links.py `fetch_data`: the answer holds no field that the caller may not see.
use mathlib.Core.Option.{some-injective, none-ne-some}
use plaidify.Base.{
  ℕ, ◌≡◌, refl, sym, subst, ap, ◌∙◌, Bool, true, false, ◌&&◌, Option, none, some, List, [], ◌∷◌,
  inl, inr, if◌then◌else◌, ◌==◌, ==_iff, nat_eq, map, Bool-cases,
}
use plaidify.Base.Compare.{list_eq}
use plaidify.Base.Dict.{Dict, lookup, insert, lookup-insert}
use plaidify.Base.Text.{Text, lit}
use plaidify.Json.{
  Value, Fields, null, bool, num, text, arr, obj, of_list, of_dict, to_dict, to_dict-of_dict, Codec,
}
use plaidify.LinkSessions.Origin.{contains}
use plaidify.LinkSessions.Create.{Link}
use plaidify.AccessJobs.Locking.{Locking}
use plaidify.AccessJobs.Job.{sorted}
use plaidify.AccessJobs.Scope.{Platform}
use plaidify.AccessJobs.Execute.{World, Execution}
use plaidify.AccessJobs.Execute.{done, raise}
use plaidify.AccessJobs.Create.{RunResult, database_error, executed, run_access_job}
use plaidify.Access.{
  AuthContext, HttpError, combine_scope_sets, principal_scopes, ensure_site_allowed_for_request,
}
use plaidify.Access.Sets.{intersection, contains-intersection}
use plaidify.Links.{AccessToken, Tables, first, link_of, token_of}
use plaidify.Links.Fetch.{
  keep_fields, consent_fields, token_fields, allowed_fields, Fetched, refused, failed_run, fetched,
  filtered, respond, answer_of, job_request, extract_fields, fetch_data,
}

-- A field is within a restriction, if there is one.
abbrev pub Within : Text → Option (List Text) → Type 0
Within k o = (l : List Text) → o ≡ some l → contains k l ≡ true

lookup-keep_fields :
    (l : List Text) (k : Text) (d : Dict Text Value)
    → lookup k (keep_fields l d) ≡ (if contains k l then lookup k d else none)
unfolding keep_fields lookup
lookup-keep_fields l k [] = elim (Bool-cases (contains k l)) [
  | inl e ↦ rw e refl
  | inr e ↦ rw e refl
]
lookup-keep_fields l k ((j, v) ∷ d) = elim (Bool-cases (contains j l)) [
  | inl e ↦ elim (Bool-cases (j == k)) [
    | inl f ↦ rw (e, f, subst (λ t. contains t l ≡ true) ((==_iff j k).0 f) e) refl
    | inr f ↦ rw (e, f) (lookup-keep_fields l k d)
  ]
  | inr e ↦ elim (Bool-cases (j == k)) [
    | inl f ↦
        let off = subst (λ t. contains t l ≡ false) ((==_iff j k).0 f) e in
        rw (e, f, off) (lookup-keep_fields l k d ∙ rw off refl)
    | inr f ↦ rw (e, f) (lookup-keep_fields l k d)
  ]
]

kept-allowed :
    (l : List Text) (k : Text) (v : Value) (d : Dict Text Value)
    → lookup k (keep_fields l d) ≡ some v
    → contains k l ≡ true
kept-allowed l k v d h = elim (Bool-cases (contains k l)) [
  | inl e ↦ e
  | inr e ↦
      let gone = sym (lookup-keep_fields l k d ∙ rw e refl) in absurd (none-ne-some v (gone ∙ h))
]

module _ (A : plaidify.Access.Platform) where
  combined-Within :
      (k : Text) (a b : Option (List Text))
      → Within k (combine_scope_sets A a b)
      → Within k a × Within k b
  unfolding combine_scope_sets
  combined-Within k none b h = (λ l e. absurd (none-ne-some l e), h)
  combined-Within k (some a) none h = (h, λ l e. absurd (none-ne-some l e))
  combined-Within k (some a) (some b) h =
      let both = sym (contains-intersection k a b) ∙ h (intersection a b) refl in
      (
        λ l e.
            subst (λ t. contains k t ≡ true) (some-injective a l e)
              (left (contains k a) (contains k b) both),
        λ l e.
            subst (λ t. contains k t ≡ true) (some-injective b l e)
              (right (contains k a) (contains k b) both),
      )
    where
      left : (x y : Bool) → (x && y) ≡ true → x ≡ true
      left true y e = refl
      left false y e = e

      right : (x y : Bool) → (x && y) ≡ true → y ≡ true
      right true y e = e
      right false y e = absurd cc

  -- The data of an answer.
  abbrev pub IsConfined : Option (List Text) → Fetched A → Type 0
  IsConfined allowed f =
      (d : Dict Text Value) (fs : Fields) (k : Text) (v : Value)
      → f ≡ fetched d
      → lookup (lit "data") d ≡ some (obj fs)
      → lookup k (to_dict fs) ≡ some v
      → Within k allowed

  of_fetched : (d e : Dict Text Value) → ◌≡◌ {A = Fetched A} (fetched d) (fetched e) → d ≡ e
  of_fetched d e h = ap from h
    where
      from : Fetched A → Dict Text Value
      from (refused r) = d
      from failed_run = d
      from (fetched x) = x

  of_obj : (a b : Fields) → ◌≡◌ {A = Option Value} (some (obj a)) (some (obj b)) → a ≡ b
  of_obj a b h = ap from h
    where
      from : Option Value → Fields
      from (some (obj fs)) = fs
      from _ = a

  filtered-IsConfined :
      (allowed : Option (List Text)) (d : Dict Text Value)
      → IsConfined allowed (filtered A allowed d)
  unfolding filtered
  filtered-IsConfined none d = λ d' fs k v e at there l none_is. absurd (none-ne-some l none_is)
  filtered-IsConfined (some l) d =
      λ d' fs k v e at there. by_data d' fs k v e at there (lookup (lit "data") d) refl
    where
      applied : Value
      applied = arr (of_list (map text (sorted l)))

      inner : Fields → Dict Text Value
      inner gs = insert (lit "data") (obj (of_dict (keep_fields l (to_dict gs)))) d

      by_data :
          (d' : Dict Text Value) (fs : Fields) (k : Text) (v : Value)
          → filtered A (some l) d ≡ fetched d'
          → lookup (lit "data") d' ≡ some (obj fs)
          → lookup k (to_dict fs) ≡ some v
          → (o : Option Value) → lookup (lit "data") d ≡ o
          → Within k (some l)
      by_data d' fs k v e at there none h =
          let same = of_fetched d d' (rw h at e) in
          absurd (none-ne-some (obj fs) (sym h ∙ (ap (λ x. lookup (lit "data") x) same ∙ at)))
      by_data d' fs k v e at there (some (obj gs)) h =
          let same = of_fetched (insert (lit "scopes_applied") applied (inner gs)) d' (rw h at e) in
          let stored =
            lookup-insert (lit "scopes_applied") (lit "data") applied (inner gs)
            ∙ lookup-insert (lit "data") (lit "data") (obj (of_dict (keep_fields l (to_dict gs))))
                d in
          let fields =
            of_obj (of_dict (keep_fields l (to_dict gs))) fs
              (sym stored ∙ (ap (λ x. lookup (lit "data") x) same ∙ at)) in
          let there' =
            subst (λ x. lookup k x ≡ some v)
              (sym (ap to_dict fields) ∙ to_dict-of_dict (keep_fields l (to_dict gs))) there in
          λ l' g.
            subst (λ t. contains k t ≡ true) (some-injective l l' g)
              (kept-allowed l k v (to_dict gs) there')
      by_data d' fs k v e at there (some null) h = let e' = rw h at e in absurd cc
      by_data d' fs k v e at there (some (bool b)) h = let e' = rw h at e in absurd cc
      by_data d' fs k v e at there (some (num n)) h = let e' = rw h at e in absurd cc
      by_data d' fs k v e at there (some (text t)) h = let e' = rw h at e in absurd cc
      by_data d' fs k v e at there (some (arr vs)) h = let e' = rw h at e in absurd cc

  answer-IsConfined :
      (C : Codec) (L : Locking) (p : Platform) (row : AccessToken) (allowed : Option (List Text))
      (r : RunResult C L p)
      → IsConfined allowed (answer_of A C L p row allowed r)
  unfolding answer_of respond
  answer-IsConfined C L p row allowed database_error = λ d fs k v e. absurd cc
  answer-IsConfined C L p row allowed (executed (raise exc)) = λ d fs k v e. absurd cc
  answer-IsConfined C L p row allowed (executed (done job result)) = filtered-IsConfined allowed _

  -- An answer of `fetch_data` to a caller whose access token, link, site and consent token are accepted
  -- has no data but those that the consent, the scopes of the access token and the caller's own
  -- permissions allow, each of them where there is one.
  pub fetch_data-IsConfined :
      (C : Codec) (L : Locking) (p : Platform) (decrypt : Text → Text)
      (fresh_id fresh_session : Text) (now start finish : ℕ)
      (connect_to_site : Dict Text Value → Execution C L) (context : Option AuthContext) (user : ℕ)
      (access_token : Text) (consent_token : Option Text) (db : Tables) (w : World C L)
      (row : AccessToken) (l : Link) (consent token : Option (List Text))
      → first (token_of access_token user) (Tables.tokens db) ≡ some row
      → first (link_of (AccessToken.link_token row) user) (Tables.links db) ≡ some l
      → ensure_site_allowed_for_request A context (Link.site l) ≡ none
      → consent_fields A now user access_token consent_token db ≡ inr consent
      → token_fields A row ≡ inr token
      → (d : Dict Text Value) (fs : Fields) (k : Text) (v : Value)
      → (fetch_data A C L p decrypt fresh_id fresh_session now start finish connect_to_site context
          user access_token consent_token db w).0
        ≡ fetched d
      → lookup (lit "data") d ≡ some (obj fs)
      → lookup k (to_dict fs) ≡ some v
      → Within k consent × Within k token × Within k (principal_scopes A context)
  unfolding fetch_data allowed_fields
  fetch_data-IsConfined C L p decrypt fresh_id fresh_session now start finish connect_to_site
        context user access_token consent_token db w row l consent token h1 h2 h3 h4 h5 d fs k v e
        at there =
      let r =
        run_access_job C L p fresh_id fresh_session now start finish
          (job_request A user (Link.site l) row context consent_token
            (allowed_fields A consent token context))
          connect_to_site
          ((lit "site", text (Link.site l))
            ∷ (lit "username", text (decrypt (AccessToken.username_encrypted row)))
            ∷ (lit "password", text (decrypt (AccessToken.password_encrypted row)))
            ∷ (lit "extract_fields", extract_fields A (allowed_fields A consent token context))
            ∷ [])
          w in
      let within =
        answer-IsConfined C L p row (allowed_fields A consent token context) r.0 d fs k v
          (rw (h1, h2, h3, h4, h5) at e) at there in
      let outer =
        combined-Within k (combine_scope_sets A consent token) (principal_scopes A context)
          within in
      let inner = combined-Within k consent token outer.0 in (inner.0, inner.1, outer.1)
