-- ===== src/LinkSessions/Origin.antt =====
-- src/routers/link_sessions.py: the origins that may use a session. `str.strip` and `urlparse` are
-- parameters.
use mathlib.Core.Bool.{true≢false}
use plaidify.Base.{
  ◌≡◌, refl, sym, subst, arith, ◌∙◌, Bool, true, false, ◌&&◌, ◌||◌, not, Option, none, some, List,
  [], ◌∷◌, ◌++◌, if◌then◌else◌, nat_eqb, ◌==◌, ==_refl, ==_iff, nat_eq, Bool-cases, Option-cases,
  inl, inr,
}
use plaidify.Base.Compare.{list_eq}
use plaidify.Base.Text.{Text, lit}

-- `t.rstrip("/")`
unfoldable pub rstrip_slash : Text → Text
rstrip_slash [] = []
rstrip_slash (c ∷ t) = kept (rstrip_slash t)
  where
    kept : Text → Text
    kept [] = if nat_eqb c b'/' then [] else c ∷ []
    kept (d ∷ rest) = c ∷ d ∷ rest

-- `normalized or None`
abbrev pub or_none : Text → Option Text
or_none [] = none
or_none (c ∷ t) = some (c ∷ t)

-- `x in xs`
unfoldable pub contains : Text → List Text → Bool
contains x [] = false
contains x (y ∷ ys) = (y == x) || contains x ys

-- The two headers that `_extract_request_origin` reads.
pub record Headers : Type 0 where
  pub origin : Option Text
  pub referer : Option Text

-- `_extract_request_origin`; `urlparse` gives the scheme and the network location, or an exception.
unfoldable pub extract_request_origin : (Text → Option (Text × Text)) → Headers → Option Text
unfolding rstrip_slash
extract_request_origin urlparse h = from_origin (Headers.origin h)
  where
    both : Option (Text × Text) → Option Text
    both (some (c ∷ scheme, d ∷ netloc)) = some ((c ∷ scheme) ++ (lit "://" ++ (d ∷ netloc)))
    both _ = none

    from_referer : Option Text → Option Text
    from_referer (some (c ∷ t)) = both (urlparse (c ∷ t))
    from_referer _ = none

    from_origin : Option Text → Option Text
    from_origin (some (c ∷ t)) = some (rstrip_slash (c ∷ t))
    from_origin _ = from_referer (Headers.referer h)

-- `t.split(",")`
unfoldable pub split_comma : Text → Text → List Text
split_comma part [] = part ∷ []
split_comma part (c ∷ t) =
    let cut = split_comma [] t in
    let on = split_comma (part ++ c ∷ []) t in if nat_eqb c b',' then part ∷ cut else on

module _ (strip : Text → Text) where
  -- `_configured_public_link_allowed_origins`: the entries of the setting that are not blank.
  abbrev pub configured : List Text → List Text
  unfolding rstrip_slash
  configured [] = []
  configured (origin ∷ rest) = let more = configured rest in from (strip origin) more
    where
      from : Text → List Text → List Text
      from [] more = more
      from (c ∷ t) more = rstrip_slash (c ∷ t) ∷ more

  unfoldable pub configured_public_link_allowed_origins : Text → List Text
  unfolding split_comma configured
  configured_public_link_allowed_origins setting = configured (split_comma [] setting)

  -- `_enforce_public_link_session_policy`: the detail of the error with status 403.
  unfoldable pub enforce_public_link_session_policy : Bool → Bool → Text → Option Text → Option Text
  unfolding configured_public_link_allowed_origins contains
  enforce_public_link_session_policy production enabled setting request_origin =
      if production && not enabled
      then some (lit "Anonymous public link sessions are disabled in production.")
      else restricted (configured_public_link_allowed_origins setting) request_origin
    where
      wrong_origin : Option Text
      wrong_origin =
          some (lit "This origin is not allowed to create anonymous public link sessions.")

      restricted : List Text → Option Text → Option Text
      restricted [] o = none
      restricted (a ∷ allowed) (some (c ∷ t)) =
          if contains (c ∷ t) (a ∷ allowed) then none else wrong_origin
      restricted (a ∷ allowed) _ = wrong_origin

  -- `_normalize_origin`
  unfoldable pub normalize_origin : Option Text → Option Text
  unfolding rstrip_slash
  normalize_origin none = none
  normalize_origin (some origin) = or_none (rstrip_slash (strip origin))

  -- The loop over `allowed_origins`, with the list and the set of what it has seen.
  unfoldable pub add_origins : List Text → List Text → List Text → List Text
  unfolding normalize_origin contains
  add_origins list seen [] = list
  add_origins list seen (entry ∷ entries) =
      let skipped = add_origins list seen entries in
      elim (normalize_origin (some entry)) [
        | none ↦ skipped
        | some origin ↦
            let added = add_origins (list ++ origin ∷ []) (origin ∷ seen) entries in
            if contains origin seen then skipped else added
      ]

  abbrev pub one : Option Text → List Text
  one none = []
  one (some t) = t ∷ []

  -- The list of origins of a session.
  unfoldable pub normalized_origins : Option Text → List Text → List Text
  unfolding add_origins normalize_origin
  normalized_origins allowed_origin allowed_origins =
      let primary = one (normalize_origin allowed_origin) in
      add_origins primary primary allowed_origins

  -- The same without the bookkeeping: what the entries are normalized to.
  unfoldable pub given_origins : List Text → List Text
  given_origins [] = []
  given_origins (entry ∷ entries) = one (normalize_origin (some entry)) ++ given_origins entries

  -- No text twice.
  unfoldable pub AreDistinct : List Text → Type 0
  AreDistinct [] = Unit
  AreDistinct (x ∷ xs) = (contains x xs ≡ false) × AreDistinct xs

  contains-append :
      (x : Text) (xs ys : List Text) → contains x (xs ++ ys) ≡ (contains x xs || contains x ys)
  unfolding contains
  contains-append x [] ys = refl
  contains-append x (z ∷ xs) ys = elim (Bool-cases (z == x)) [
    | inl e ↦ rw e refl
    | inr e ↦ rw e (contains-append x xs ys)
  ]

  swapped : (x y : Text) → (y == x) ≡ false → (x == y) ≡ false
  swapped x y n = elim (Bool-cases (x == y)) [
    | inl e ↦
        absurd (
          true≢false (sym (==_refl x) ∙ (subst (λ t. (t == x) ≡ false) (sym ((==_iff x y).0 e)) n)))
    | inr e ↦ e
  ]

  -- A new text at the end of a list of different texts.
  distinct-append :
      (xs : List Text) (x : Text)
      → AreDistinct xs
      → contains x xs ≡ false
      → AreDistinct (xs ++ x ∷ [])
  unfolding AreDistinct contains
  distinct-append [] x d n = (refl, tt)
  distinct-append (y ∷ xs) x d n = elim (Bool-cases (y == x)) [
    | inl e ↦ absurd (true≢false (rw e at n))
    | inr e ↦
        let other = swapped x y e in
        (rw (contains-append y xs (x ∷ []), d.0, other) refl, distinct-append xs x d.1 (rw e at n))
  ]

  or_assoc : (a b c : Bool) → ((a || b) || c) ≡ (a || (b || c))
  or_assoc true b c = refl
  or_assoc false b c = refl

  -- The set has what the list has.
  abbrev Agree : List Text → List Text → Type 0
  Agree list seen = (x : Text) → contains x seen ≡ contains x list

  added_to_both :
      (list seen : List Text) (origin : Text)
      → Agree list seen
      → Agree (list ++ origin ∷ []) (origin ∷ seen)
  unfolding contains
  added_to_both list seen origin h x =
      rw (contains-append x list (origin ∷ []), h x) (ground (arith))

  known :
      (list more : List Text) (origin x : Text)
      → contains origin list ≡ true
      → (contains x list || contains x more)
        ≡ (contains x list || ((origin == x) || contains x more))
  known list more origin x h = elim (Bool-cases (origin == x)) [
    | inl e ↦ rw (e, subst (λ t. contains t list ≡ true) ((==_iff origin x).0 e) h) refl
    | inr e ↦ rw e refl
  ]

  -- The three cases of a round of the loop.
  add_none :
      (list seen entries : List Text) (entry : Text)
      → normalize_origin (some entry) ≡ none
      → add_origins list seen (entry ∷ entries) ≡ add_origins list seen entries
  unfolding add_origins
  add_none list seen entries entry e = rw (e, add_origins) refl

  add_seen :
      (list seen entries : List Text) (entry origin : Text)
      → normalize_origin (some entry) ≡ some origin
      → contains origin seen ≡ true
      → add_origins list seen (entry ∷ entries) ≡ add_origins list seen entries
  unfolding add_origins
  add_seen list seen entries entry origin e f = rw (e, f, add_origins) refl

  add_new :
      (list seen entries : List Text) (entry origin : Text)
      → normalize_origin (some entry) ≡ some origin
      → contains origin seen ≡ false
      → add_origins list seen (entry ∷ entries)
        ≡ add_origins (list ++ origin ∷ []) (origin ∷ seen) entries
  unfolding add_origins
  add_new list seen entries entry origin e f = rw (e, f, add_origins) refl

  or_false : (b : Bool) → b ≡ (b || false)
  or_false true = refl
  or_false false = refl

  contains-add_origins :
      (list seen entries : List Text) (x : Text)
      → Agree list seen
      → contains x (add_origins list seen entries)
        ≡ (contains x list || contains x (given_origins entries))
  unfolding add_origins given_origins contains
  contains-add_origins list seen [] x h = or_false (contains x list)
  contains-add_origins list seen (entry ∷ entries) x h =
      elim (Option-cases (normalize_origin (some entry))) [
        | inl e ↦
            rw (add_none list seen entries entry e, e) (contains-add_origins list seen entries x h)
        | inr (origin, e) ↦ elim (Bool-cases (contains origin seen)) [
          | inl f ↦
              rw (add_seen list seen entries entry origin e f, e)
                (contains-add_origins list seen entries x h
                  ∙ known list (given_origins entries) origin x (sym (h origin) ∙ f))
          | inr f ↦
              rw (add_new list seen entries entry origin e f, e)
                (contains-add_origins (list ++ origin ∷ []) (origin ∷ seen) entries x
                    (added_to_both list seen origin h)
                  ∙ moved list origin x (contains x (given_origins entries)))
        ]
      ]
    where
      moved :
          (list : List Text) (origin x : Text) (b : Bool)
          → (contains x (list ++ origin ∷ []) || b) ≡ (contains x list || ((origin == x) || b))
      moved list origin x b =
          rw (contains-append x list (origin ∷ []), sym (or_false (origin == x)))
            (or_assoc (contains x list) (origin == x) b)

  distinct-add_origins :
      (list seen entries : List Text)
      → Agree list seen
      → AreDistinct list
      → AreDistinct (add_origins list seen entries)
  unfolding add_origins
  distinct-add_origins list seen [] h d = d
  distinct-add_origins list seen (entry ∷ entries) h d =
      elim (Option-cases (normalize_origin (some entry))) [
        | inl e ↦
            subst AreDistinct (sym (add_none list seen entries entry e))
              (distinct-add_origins list seen entries h d)
        | inr (origin, e) ↦ elim (Bool-cases (contains origin seen)) [
          | inl f ↦
              subst AreDistinct (sym (add_seen list seen entries entry origin e f))
                (distinct-add_origins list seen entries h d)
          | inr f ↦ subst AreDistinct (sym (add_new list seen entries entry origin e f)) (
              distinct-add_origins (list ++ origin ∷ []) (origin ∷ seen) entries
                (added_to_both list seen origin h)
                (distinct-append list origin d (sym (h origin) ∙ f)))
        ]
      ]

  one-AreDistinct : (o : Option Text) → AreDistinct (one o)
  unfolding AreDistinct contains
  one-AreDistinct none = tt
  one-AreDistinct (some t) = (refl, tt)

  -- The origins of a session are those that its origin and its list of origins are normalized to,
  -- blank ones left out, and each of them stands there once.
  pub normalized_origins-AreDistinct :
      (allowed_origin : Option Text) (allowed_origins : List Text)
      → AreDistinct (normalized_origins allowed_origin allowed_origins)
        × ((x : Text)
            → contains x (normalized_origins allowed_origin allowed_origins) ≡ (
                contains x (one (normalize_origin allowed_origin))
                || contains x (given_origins allowed_origins)))
  unfolding normalized_origins
  normalized_origins-AreDistinct allowed_origin allowed_origins =
      let primary = one (normalize_origin allowed_origin) in
      (
        distinct-add_origins primary primary allowed_origins (λ x. refl)
            (one-AreDistinct (normalize_origin allowed_origin)),
        λ x. contains-add_origins primary primary allowed_origins x (λ y. refl),
      )
