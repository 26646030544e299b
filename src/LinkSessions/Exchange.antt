-- ===== src/LinkSessions/Exchange.antt =====
-- src/routers/link_sessions.py `exchange_link_bootstrap`: a launch token is redeemed at most once.
use mathlib.Core.Bool.{true≢false}
use mathlib.Core.Option.{some-injective}
use plaidify.Base.{
  ℕ, ◌+◌, ◌≤◌, ◌≡◌, ◌≢◌, refl, sym, subst, ◌∙◌, Bool, true, false, Option, none, some, List, [],
  ◌∷◌, ◌||◌, ◌⊎◌, ◌==◌, ==_iff, arith, ==_refl, nat_eq, Bool-cases, Option-cases, inl, inr,
}
use plaidify.Base.Compare.{list_eq}
use plaidify.Base.Dict.{Dict, lookup}
use plaidify.Base.Text.{Text}
use plaidify.SessionStore.Memory.{Stores, Bootstrap, consume_link_launch_bootstrap}
use plaidify.SessionStore.Memory.Once.{left, left-consume}
use plaidify.LinkSessions.Origin.{Headers, extract_request_origin, rstrip_slash, contains}
use plaidify.LinkSessions.Create.{
  Platform, Server, Created, Claims, claims, redeemed, allowed_set, may_redeem,
  create_ephemeral_link_session, exchange_link_bootstrap, with_scopes, redeem, with_bootstraps,
}

-- The launch identifiers that a server keeps.
abbrev pub bootstraps : Server → Dict Text Bootstrap
bootstraps s = Stores.link_launch_bootstraps (Server.stores s)

left-le : (o : Option Bootstrap) → left o ≤ 1
left-le none = omega arith
left-le (some b) = elim (Bool-cases (Bootstrap.consumed b)) [
  | inl e ↦ rw e (omega arith)
  | inr e ↦ rw e (omega arith)
]

-- What is consumed cannot be consumed again.
spent :
    (now later : ℕ) (id : Text) (d : Dict Text Bootstrap)
    → (consume_link_launch_bootstrap now id d).0 ≡ true
    → (consume_link_launch_bootstrap later id (consume_link_launch_bootstrap now id d).1).0 ≡ false
spent now later id d ok =
    let d' = (consume_link_launch_bootstrap now id d).1 in
    elim (Bool-cases (consume_link_launch_bootstrap later id d').0) [
      | inl again ↦
          let first : 1 + left (lookup id d') ≤ left (lookup id d) =
            rw (ok, ==_refl id) at (left-consume id id now d) in
          let second : 1 + left (lookup id (consume_link_launch_bootstrap later id d').1)
              ≤ left (lookup id d') =
            rw (again, ==_refl id) at (left-consume id id later d') in
          absurd (omega (arith, first, second, left-le (lookup id d)))
      | inr refused ↦ refused
    ]

module _ (p : Platform) where
  create-bootstraps :
      (now : ℕ) (token : Text) (has_db : Bool) (site : Option Text) (user_id : Option ℕ)
      (scopes : Option (List Text)) (origin : Option Text) (origins : List Text) (s : Server)
      → bootstraps
          (create_ephemeral_link_session p now token has_db site user_id scopes origin origins s).1
        ≡ bootstraps s
  unfolding create_ephemeral_link_session with_scopes
  create-bootstraps now token has_db site user_id none origin origins s = refl
  create-bootstraps now token has_db site user_id (some scopes) origin origins s = refl

  redeem-bootstraps :
      (now : ℕ) (token : Text) (c : Claims p) (s : Server)
      → bootstraps (redeem p now token c s).1 ≡ bootstraps s
  unfolding redeem
  redeem-bootstraps now token c s = by_subject (Claims.sub c)
    where
      by_subject :
          (o : Option Text)
          → bootstraps (redeem p now token (record c { sub = o }) s).1 ≡ bootstraps s
      by_subject none =
          create-bootstraps now token true (Claims.site c) none (Claims.scopes c)
            (Claims.allowed_origin c) (Claims.allowed_origins c) s
      by_subject (some t) = elim (Option-cases (p.int_of t)) [
        | inl e ↦ rw e refl
        | inr (n, e) ↦ rw e (
            create-bootstraps now token true (Claims.site c) (some n) (Claims.scopes c)
              (Claims.allowed_origin c) (Claims.allowed_origins c) s)
      ]

  -- An origin that the claims name: an entry of the list that is not empty, or the single origin.
  abbrev pub IsNamed : Claims p → Text → Type 0
  IsNamed c e =
      (e ≢ [])
      × ((contains e (Claims.allowed_origins c) ≡ true) ⊎ (Claims.allowed_origin c ≡ some e))

  -- The request comes from an origin that the claims name, up to slashes at the end, or they name
  -- none.
  abbrev pub ComesFromNamed : Claims p → Headers → Type 0
  ComesFromNamed c headers =
      ((e : Text) → ¬ (IsNamed c e))
      ⊎ ((t : Text) × ((extract_request_origin p.urlparse headers ≡ some t)
            × ((e : Text) × (IsNamed c e × (rstrip_slash e ≡ rstrip_slash t)))))

  later :
      (y e : Text) (es : List Text) (o : Option Text)
      → (contains e es ≡ true) ⊎ (o ≡ some e)
      → (contains e (y ∷ es) ≡ true) ⊎ (o ≡ some e)
  unfolding contains
  later y e es o (inl h) = inl (rw h (or_true (y == e)))
    where
      or_true : (b : Bool) → (b || true) ≡ true
      or_true true = refl
      or_true false = refl
  later y e es o (inr h) = inr h

  set_named :
      (es : List Text) (o : Option Text) (x : Text)
      → contains x (allowed_set p es o) ≡ true
      → (e : Text) × ((e ≢ []) × (((contains e es ≡ true) ⊎ (o ≡ some e)) × (rstrip_slash e ≡ x)))
  unfolding allowed_set contains
  set_named [] none x h = absurd (true≢false (sym h))
  set_named [] (some []) x h = absurd (true≢false (sym h))
  set_named [] (some (c ∷ t)) x h = elim (Bool-cases (rstrip_slash (c ∷ t) == x)) [
    | inl e ↦ (c ∷ t, (λ n. cc, (inr refl, (==_iff (rstrip_slash (c ∷ t)) x).0 e)))
    | inr e ↦ absurd (true≢false (sym (rw e at h)))
  ]
  set_named ([] ∷ es) o x h =
      let (e, (full, (at, same))) = set_named es o x h in (e, (full, (later [] e es o at, same)))
  set_named ((c ∷ t) ∷ es) o x h = elim (Bool-cases (rstrip_slash (c ∷ t) == x)) [
    | inl e ↦
        (c ∷ t, (λ n. cc, (inl (rw (==_refl (c ∷ t)) refl), (==_iff (rstrip_slash (c ∷ t)) x).0 e)))
    | inr e ↦
        let (f, (full, (at, same))) = set_named es o x (rw e at h) in
        (f, (full, (later (c ∷ t) f es o at, same)))
  ]

  set_empty :
      (es : List Text) (o : Option Text) (e : Text)
      → allowed_set p es o ≡ []
      → e ≢ []
      → (contains e es ≡ true) ⊎ (o ≡ some e)
      → ⊥
  unfolding allowed_set contains
  set_empty [] none e h full (inl a) = cc
  set_empty [] none e h full (inr a) = cc
  set_empty [] (some []) e h full (inl a) = cc
  set_empty [] (some []) e h full (inr a) = full (sym (some-injective [] e a))
  set_empty [] (some (c ∷ t)) e h full a = cc
  set_empty ([] ∷ es) o e h full (inr a) = set_empty es o e h full (inr a)
  set_empty ([] ∷ es) o [] h full (inl a) = full refl
  set_empty ([] ∷ es) o (d ∷ e) h full (inl a) = set_empty es o (d ∷ e) h full (inl a)
  set_empty ((c ∷ t) ∷ es) o e h full a = cc

  named_by :
      (c : Claims p) (headers : Headers)
      → may_redeem p
          (allowed_set p (Claims.allowed_origins c) (Claims.allowed_origin c))
          (extract_request_origin p.urlparse headers)
        ≡ true
      → ComesFromNamed c headers
  unfolding may_redeem
  named_by c headers = by_set _ refl _ refl
    where
      by_set :
          (allowed : List Text)
          → allowed_set p (Claims.allowed_origins c) (Claims.allowed_origin c) ≡ allowed
          → (o : Option Text) → extract_request_origin p.urlparse headers ≡ o
          → may_redeem p allowed o ≡ true
          → ComesFromNamed c headers
      by_set [] e o f h = inl (λ t (full, at).
          set_empty (Claims.allowed_origins c) (Claims.allowed_origin c) t e full at)
      by_set (a ∷ allowed) e none f h = absurd (true≢false (sym h))
      by_set (a ∷ allowed) e (some t) f h =
          let (n, (full, (at, same))) =
            set_named (Claims.allowed_origins c) (Claims.allowed_origin c) (rstrip_slash t)
              (subst (λ l. contains (rstrip_slash t) l ≡ true) (sym e) h) in
          inr (t, (f, (n, ((full, at), same))))

  -- What a token is redeemed by: an allowed origin, and an identifier that is consumed.
  pub Spent : ℕ → Claims p → Headers → Server → Server → Type 0
  Spent now c headers s s' =
      (may_redeem p (allowed_set p (Claims.allowed_origins c) (Claims.allowed_origin c))
          (extract_request_origin p.urlparse headers)
        ≡ true)
      × ((h : ℕ) × ((t : Text) × (Claims.jti c ≡ some (h ∷ t))
            × ((consume_link_launch_bootstrap now (h ∷ t) (bootstraps s)).0 ≡ true)
            × (bootstraps s' ≡ (consume_link_launch_bootstrap now (h ∷ t) (bootstraps s)).1)))

  redeemed-Spent :
      (now : ℕ) (token : Text) (c : Claims p) (headers : Headers) (s : Server) (r : Created)
      → (exchange_link_bootstrap p now token (claims c) headers s).0 ≡ redeemed r
      → Spent now c headers s (exchange_link_bootstrap p now token (claims c) headers s).1
  unfolding exchange_link_bootstrap Spent
  redeemed-Spent now token c headers s r e =
      elim (Bool-cases (
        may_redeem p (allowed_set p (Claims.allowed_origins c) (Claims.allowed_origin c))
          (extract_request_origin p.urlparse headers))) [
            | inr m ↦ let e' = rw m at e in absurd cc
            | inl m ↦ by_jti m (Claims.jti c) refl
          ]
    where
      by_jti :
          may_redeem p
              (allowed_set p (Claims.allowed_origins c) (Claims.allowed_origin c))
              (extract_request_origin p.urlparse headers)
            ≡ true
          → (o : Option Text) → Claims.jti c ≡ o
          → Spent now c headers s (exchange_link_bootstrap p now token (claims c) headers s).1
      by_jti m none j = let e' = rw (m, j) at e in absurd cc
      by_jti m (some []) j = let e' = rw (m, j) at e in absurd cc
      by_jti m (some (h ∷ t)) j =
          elim (Bool-cases (consume_link_launch_bootstrap now (h ∷ t) (bootstraps s)).0) [
            | inr n ↦ let e' = rw (m, j, n) at e in absurd cc
            | inl ok ↦ (
              m,
              (
                h,
                (
                  t,
                  j,
                  ok,
                  rw (m, j, ok)
                      (redeem-bootstraps now token c (
                        with_bootstraps p
                          (consume_link_launch_bootstrap now (h ∷ t) (bootstraps s)).1 s)),
                ),
              ),
            )
          ]

  -- A launch token that is redeemed came from an origin that it names, or names none, where slashes at
  -- the end of an origin do not count; and in the state of the server's memory that this leaves, no
  -- token with its identifier is redeemed by a next exchange, whatever the origin, the claims and the
  -- time.
  pub exchange_once :
      (now : ℕ) (token : Text) (c : Claims p) (headers : Headers) (s : Server) (r : Created)
      → (exchange_link_bootstrap p now token (claims c) headers s).0 ≡ redeemed r
      → let s' = (exchange_link_bootstrap p now token (claims c) headers s).1 in
        ComesFromNamed c headers
        × ((later : ℕ) (token' : Text) (c' : Claims p) (headers' : Headers) (r' : Created)
            → Claims.jti c' ≡ Claims.jti c
            → (exchange_link_bootstrap p later token' (claims c') headers' s').0 ≢ redeemed r')
  unfolding Spent
  exchange_once now token c headers s r e =
      let (m, (h, (t, j, ok, after))) = redeemed-Spent now token c headers s r e in
      (
        named_by c headers m,
        λ later token' c' headers' r' same again.
            let s' = (exchange_link_bootstrap p now token (claims c) headers s).1 in
            let (m', (h', (t', j', ok', after'))) =
              redeemed-Spent later token' c' headers' s' r' again in
            let same_id = some-injective (h' ∷ t') (h ∷ t) (sym j' ∙ (same ∙ j)) in
            let d = (consume_link_launch_bootstrap now (h ∷ t) (bootstraps s)).1 in
            let granted =
              subst (λ i. (consume_link_launch_bootstrap later i d).0 ≡ true) same_id
                (subst (λ b. (consume_link_launch_bootstrap later (h' ∷ t') b).0 ≡ true) after
                  ok') in
            true≢false (sym granted ∙ spent now later (h ∷ t) (bootstraps s) ok),
      )
