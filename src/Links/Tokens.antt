-- ===== src/Links/Tokens.antt =====
-- src/routers/links.py: a public token is exchanged once, and what the access tokens of one link may
-- reach.
use mathlib.Core.Bool.{true≢false}
use mathlib.Core.Option.{some-injective}
use plaidify.Base.{
  ℕ, ◌≤◌, ◌≡◌, ◌≢◌, refl, sym, subst, ap, ◌∙◌, Bool, true, false, Option, none, some, List, [], ◌∷◌,
  ◌⊎◌, inl, inr, ltb, nat_eqb, nat_eqb_sound, ◌==◌, ==_refl, nat_eq, Bool-cases, Option-cases,
  arith,
}
use plaidify.Base.Compare.{list_eq}
use plaidify.Base.Dict.{lookup, erase, lookup-erase}
use plaidify.Base.Text.{Text}
use plaidify.SessionStore.Memory.{pop_link_scopes}
use plaidify.LinkSessions.Create.{Link}
use plaidify.Access.{HttpError}
use plaidify.Links.{
  AccessToken, PublicToken, Tables, first, given, link_of, mark_exchanged, exchange_public_token,
  resolve_credentials, submit_credentials,
}

abbrev pub has_token : Text → PublicToken → Bool
has_token t row = PublicToken.token row == t

-- A row that is found after its token is marked is marked.
first-mark_exchanged :
    (t : Text) (rows : List PublicToken) (row : PublicToken)
    → first (has_token t) (mark_exchanged t rows) ≡ some row
    → PublicToken.exchanged row ≡ true
first-mark_exchanged t [] row h = absurd cc
first-mark_exchanged t (r ∷ rows) row h = elim (Bool-cases (PublicToken.token r == t)) [
  | inl e ↦ sym (
      ap PublicToken.exchanged
        (some-injective (record r { exchanged = true }) row (rw (e, e) at h)))
  | inr e ↦ first-mark_exchanged t rows row (rw (e, e) at h)
]

-- What an exchange finds.
pub record Exchanges (now user : ℕ) (public_token : Option Text) (access : Text) (db db' : Tables)
    : Type 0 where
  pub token : Text
  pub row : PublicToken
  pub named : given public_token ≡ some token
  pub there : first (has_token token) (Tables.public_tokens db) ≡ some row
  pub owned : nat_eqb (PublicToken.user_id row) user ≡ true
  pub unused : PublicToken.exchanged row ≡ false
  pub unexpired : ltb (PublicToken.expires_at row) now ≡ false
  pub answer : PublicToken.access_token row ≡ access
  pub marked : Tables.public_tokens db' ≡ mark_exchanged token (Tables.public_tokens db)

of_inr : (a b : Text) → ◌≡◌ {A = HttpError ⊎ Text} (inr a) (inr b) → a ≡ b
of_inr a b h = ap from h
  where
    from : HttpError ⊎ Text → Text
    from (inl e) = a
    from (inr t) = t

exchange-Exchanges :
    (now user : ℕ) (public_token : Option Text) (db : Tables) (access : Text)
    → (exchange_public_token now user public_token db).0 ≡ inr access
    → Exchanges now user public_token access db (exchange_public_token now user public_token db).1
unfolding exchange_public_token
exchange-Exchanges now user public_token db access e = elim (Option-cases (given public_token)) [
  | inl g ↦ let e' = rw g at e in absurd cc
  | inr (t, g) ↦ elim (Option-cases (first (has_token t) (Tables.public_tokens db))) [
    | inl f ↦ let e' = rw (g, f) at e in absurd cc
    | inr (row, f) ↦ elim (Bool-cases (nat_eqb (PublicToken.user_id row) user)) [
      | inr o ↦ let e' = rw (g, f, o) at e in absurd cc
      | inl o ↦ elim (Bool-cases (PublicToken.exchanged row)) [
        | inl u ↦ let e' = rw (g, f, o, u) at e in absurd cc
        | inr u ↦ elim (Bool-cases (ltb (PublicToken.expires_at row) now)) [
          | inl x ↦ let e' = rw (g, f, o, u, x) at e in absurd cc
          | inr x ↦ record {
            token = t;
            row = row;
            named = g;
            there = f;
            owned = o;
            unused = u;
            unexpired = x;
            answer = of_inr (PublicToken.access_token row) access (rw (g, f, o, u, x) at e);
            marked = rw (g, f, o, u, x) refl;
          }
        ]
      ]
    ]
  ]
]

-- A public token is exchanged only by its user and only up to its expiry, and in the state that this
-- leaves nobody exchanges it again, at any time.
pub exchange_public_token-once :
    (now user : ℕ) (public_token : Option Text) (db : Tables) (access : Text)
    → (exchange_public_token now user public_token db).0 ≡ inr access
    → let db' = (exchange_public_token now user public_token db).1 in
      ((t : Text) × ((row : PublicToken) × (given public_token ≡ some t)
          × (first (has_token t) (Tables.public_tokens db) ≡ some row)
          × (PublicToken.user_id row ≡ user)
          × (now ≤ PublicToken.expires_at row)
          × (PublicToken.access_token row ≡ access)))
      × ((later other : ℕ) (access' : Text)
          → (exchange_public_token later other public_token db').0 ≢ inr access')
exchange_public_token-once now user public_token db access e =
    let x = exchange-Exchanges now user public_token db access e in
    (
      (
        x.token,
        (x.row, x.named, x.there, nat_eqb_sound x.owned, ground (arith, x.unexpired), x.answer),
      ),
      λ later other access' again.
          let db' = (exchange_public_token now user public_token db).1 in
          let y = exchange-Exchanges later other public_token db' access' again in
          let same = some-injective y.token x.token (sym y.named ∙ x.named) in
          let there =
            subst (λ t. first (has_token t) (Tables.public_tokens db') ≡ some y.row) same y.there in
          let marked = subst (λ rows. first (has_token x.token) rows ≡ some y.row) x.marked there in
          true≢false
            (sym (first-mark_exchanged x.token (Tables.public_tokens db) y.row marked) ∙ y.unused),
    )

-- What a submission that succeeds leaves.
record Submits (link_token : Text) (r : Text × Option Text) (db db' : Tables) : Type 0 where
  pub answer : r.1 ≡ given (lookup link_token (Tables.link_scopes db))
  pub scopes_left : Tables.link_scopes db' ≡ erase link_token (Tables.link_scopes db)
  pub row : AccessToken
  pub stored : Tables.tokens db' ≡ row ∷ Tables.tokens db
  pub row_scopes : AccessToken.scopes row ≡ lookup link_token (Tables.link_scopes db)

second_of :
    (a b : Text × Option Text)
    → ◌≡◌ {A = HttpError ⊎ (Text × Option Text)} (inr a) (inr b)
    → a.1 ≡ b.1
second_of a b h = ap from h
  where
    from : HttpError ⊎ (Text × Option Text) → Option Text
    from (inl e) = a.1
    from (inr t) = t.1

submit-Submits :
    (decrypt : Text → Text ⊎ Text) (encrypt : Text → Text) (fresh : Text) (user : ℕ)
    (link_token : Text) (username password enc_username enc_password : Option Text) (db : Tables)
    (r : Text × Option Text)
    → (submit_credentials decrypt encrypt fresh user link_token username password enc_username
        enc_password db).0
      ≡ inr r
    → Submits link_token r db
        (submit_credentials decrypt encrypt fresh user link_token username password enc_username
          enc_password db).1
unfolding submit_credentials pop_link_scopes
submit-Submits decrypt encrypt fresh user link_token username password enc_username enc_password db
      r e =
    elim (Option-cases (first (link_of link_token user) (Tables.links db))) [
      | inl f ↦ let e' = rw f at e in absurd cc
      | inr (l, f) ↦
          by_credentials l f
            (resolve_credentials decrypt username password enc_username enc_password) refl
    ]
  where
    by_credentials :
        (l : Link)
        → first (link_of link_token user) (Tables.links db) ≡ some l
        → (c : HttpError ⊎ (Text × Text))
        → resolve_credentials decrypt username password enc_username enc_password ≡ c
        → Submits link_token r db
            (submit_credentials decrypt encrypt fresh user link_token username password enc_username
              enc_password db).1
    by_credentials l f (inl error) g = let e' = rw (f, g) at e in absurd cc
    by_credentials l f (inr (u, w)) g =
        let e' = rw (f, g) at e in
        rw (f, g)
          (record {
            answer =
                sym (second_of (fresh, given (lookup link_token (Tables.link_scopes db))) r e');
            scopes_left = refl;
            row = _;
            stored = refl;
            row_scopes = refl;
          })

-- The scopes of a link go to the first access token that is made with it: a second one that is
-- submitted for the same link has none, and is not restricted.
pub submit_credentials-twice :
    (decrypt : Text → Text ⊎ Text) (encrypt : Text → Text) (fresh fresh' : Text) (user : ℕ)
    (link_token : Text) (username password username' password' : Option Text) (db : Tables)
    (r r' : Text × Option Text)
    → let (answer, db') =
        submit_credentials decrypt encrypt fresh user link_token username password none none db in
      let (answer', db'') =
        submit_credentials decrypt encrypt fresh' user link_token username' password' none none
          db' in
      answer ≡ inr r
      → answer' ≡ inr r'
      → (r.1 ≡ given (lookup link_token (Tables.link_scopes db)))
        × (r'.1 ≡ none)
        × ((row : AccessToken) × (Tables.tokens db'' ≡ row ∷ Tables.tokens db')
            × (AccessToken.scopes row ≡ none))
submit_credentials-twice decrypt encrypt fresh fresh' user link_token username password username'
      password' db r r' e e' =
    let db' =
      (submit_credentials decrypt encrypt fresh user link_token username password none none db).1 in
    let x =
      submit-Submits decrypt encrypt fresh user link_token username password none none db r e in
    let y =
      submit-Submits decrypt encrypt fresh' user link_token username' password' none none db' r'
        e' in
    let left : lookup link_token (Tables.link_scopes db') ≡ none =
      ap (λ d. lookup link_token d) x.scopes_left
      ∙ (lookup-erase link_token link_token (Tables.link_scopes db)
          ∙ rw (==_refl link_token) refl) in
    (x.answer, y.answer ∙ ap given left, (y.row, y.stored, y.row_scopes ∙ left))
