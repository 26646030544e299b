-- ===== src/Links.antt =====
-- src/routers/links.py: access tokens, public tokens and the data that they give access to. The ids and
-- the encryption of credentials are arguments.
pub mod Fetch
pub mod Confined
pub mod Tokens
mod Tests
use plaidify.Base.{
  ℕ, Bool, true, false, ◌&&◌, not, Option, none, some, List, [], ◌∷◌, ◌⊎◌, inl, inr, if◌then◌else◌,
  ltb, nat_eqb, ◌==◌, nat_eq, filterb,
}
use plaidify.Base.Compare.{list_eq}
use plaidify.Base.Dict.{Dict}
use plaidify.Base.Text.{Text, lit}
use plaidify.SessionStore.Memory.{pop_link_scopes}
use plaidify.LinkSessions.Create.{Link}
use plaidify.Access.{HttpError}

-- A row of the table of access tokens; `scopes` is JSON.
pub record AccessToken : Type 0 where
  pub token : Text
  pub link_token : Text
  pub username_encrypted : Text
  pub password_encrypted : Text
  pub scopes : Option Text
  pub user_id : ℕ
  pub instructions : Option Text

-- A row of the table of public tokens.
pub record PublicToken : Type 0 where
  pub token : Text
  pub link_token : Text
  pub access_token : Text
  pub user_id : ℕ
  pub expires_at : ℕ
  pub exchanged : Bool

-- A row of the table of consent grants; `scopes` is JSON.
pub record ConsentGrant : Type 0 where
  pub token : Text
  pub user_id : ℕ
  pub access_token : Text
  pub scopes : Text
  pub expires_at : ℕ
  pub revoked : Bool

pub record Tables : Type 0 where
  pub links : List Link
  pub tokens : List AccessToken
  pub public_tokens : List PublicToken
  pub grants : List ConsentGrant
  -- the scopes that wait for credentials, of src/session_store.py
  pub link_scopes : Dict Text Text

-- `.first()` of a query
abbrev pub first {ℓ} : {A : Type ℓ} → (A → Bool) → List A → Option A
first p [] = none
first p (a ∷ rest) = if p a then some a else first p rest

abbrev pub link_of : Text → ℕ → Link → Bool
link_of link_token user l = (Link.link_token l == link_token) && nat_eqb (Link.user_id l) user

abbrev pub token_of : Text → ℕ → AccessToken → Bool
token_of token user t = (AccessToken.token t == token) && nat_eqb (AccessToken.user_id t) user

abbrev pub given : Option Text → Option Text
given (some (c ∷ t)) = some (c ∷ t)
given _ = none

-- The credentials of `submit_credentials`; `decrypt` uses the link's session key, which is
-- destroyed afterwards, or gives the text of an error.
unfoldable pub resolve_credentials :
    (Text → Text ⊎ Text)
    → Option Text
    → Option Text
    → Option Text
    → Option Text
    → HttpError ⊎ (Text × Text)
resolve_credentials decrypt username password encrypted_username encrypted_password =
    encrypted (given encrypted_username) (given encrypted_password)
  where
    clear : Option Text → Option Text → HttpError ⊎ (Text × Text)
    clear (some u) (some w) = inr (u, w)
    clear _ _ = inl (
      422,
      lit "Provide either (username + password) or (encrypted_username + encrypted_password).",
    )

    decrypted : Text ⊎ Text → Text ⊎ Text → HttpError ⊎ (Text × Text)
    decrypted (inl detail) w = inl (400, detail)
    decrypted (inr u) (inl detail) = inl (400, detail)
    decrypted (inr u) (inr w) = inr (u, w)

    encrypted : Option Text → Option Text → HttpError ⊎ (Text × Text)
    encrypted (some u) (some w) = decrypted (decrypt u) (decrypt w)
    encrypted _ _ = clear (given username) (given password)

-- `submit_credentials`, but its audit entry and a deferred refresh schedule: the access token and its
-- scopes.
unfoldable pub submit_credentials :
    (Text → Text ⊎ Text)
    → (Text → Text)
    → Text
    → ℕ
    → Text
    → Option Text
    → Option Text
    → Option Text
    → Option Text
    → Tables
    → (HttpError ⊎ (Text × Option Text)) × Tables
unfolding resolve_credentials pop_link_scopes
submit_credentials decrypt encrypt fresh user link_token username password enc_username enc_password
      db =
    with_link (first (link_of link_token user) (Tables.links db))
  where
    stored :
        Text × Text → Option Text × Dict Text Text → (HttpError ⊎ (Text × Option Text)) × Tables
    stored (u, w) (scopes, link_scopes) = (
      inr (fresh, given scopes),
      record db {
        tokens =
            record {
              token = fresh;
              link_token = link_token;
              username_encrypted = encrypt u;
              password_encrypted = encrypt w;
              scopes = scopes;
              user_id = user;
              instructions = none;
            }
            ∷ Tables.tokens db;
        link_scopes = link_scopes;
      },
    )

    with_credentials : HttpError ⊎ (Text × Text) → (HttpError ⊎ (Text × Option Text)) × Tables
    with_credentials (inl e) = (inl e, db)
    with_credentials (inr c) = stored c (pop_link_scopes link_token (Tables.link_scopes db))

    with_link : Option Link → (HttpError ⊎ (Text × Option Text)) × Tables
    with_link none = (inl (404, lit "Invalid link token."), db)
    with_link (some l) =
        with_credentials (resolve_credentials decrypt username password enc_username enc_password)

-- `pt.exchanged = True` in the row of a token
abbrev pub mark_exchanged : Text → List PublicToken → List PublicToken
mark_exchanged token [] = []
mark_exchanged token (row ∷ rows) =
    let rest = mark_exchanged token rows in
    if PublicToken.token row == token then record row { exchanged = true } ∷ rest else row ∷ rest

-- `exchange_public_token`, with the token that the body has
unfoldable pub exchange_public_token : ℕ → ℕ → Option Text → Tables → (HttpError ⊎ Text) × Tables
exchange_public_token now user public_token db = with_token (given public_token)
  where
    with_row : Text → Option PublicToken → (HttpError ⊎ Text) × Tables
    with_row t none = (inl (404, lit "Invalid public_token."), db)
    with_row t (some row) =
        if not (nat_eqb (PublicToken.user_id row) user)
        then (inl (403, lit "Not authorized to exchange this token."), db)
        else if PublicToken.exchanged row
        then (inl (410, lit "public_token has already been exchanged."), db)
        else if ltb (PublicToken.expires_at row) now
        then (inl (410, lit "public_token has expired."), db)
        else (
          inr (PublicToken.access_token row),
          record db { public_tokens = mark_exchanged t (Tables.public_tokens db) },
        )

    with_token : Option Text → (HttpError ⊎ Text) × Tables
    with_token none = (inl (422, lit "public_token is required."), db)
    with_token (some t) =
        with_row t (first (λ row. PublicToken.token row == t) (Tables.public_tokens db))

-- `delete_link`: the link and its access tokens
unfoldable pub delete_link : ℕ → Text → Tables → Option HttpError × Tables
delete_link user link_token db = found (first (link_of link_token user) (Tables.links db))
  where
    found : Option Link → Option HttpError × Tables
    found none = (some (404, lit "Link not found."), db)
    found (some l) = (
      none,
      record db {
        links = filterb (λ l. not (link_of link_token user l)) (Tables.links db);
        tokens =
            filterb
              (λ t.
                not (
                  (AccessToken.link_token t == link_token) && nat_eqb (AccessToken.user_id t) user))
              (Tables.tokens db);
      },
    )

-- `delete_token`
unfoldable pub delete_token : ℕ → Text → Tables → Option HttpError × Tables
delete_token user token db = found (first (token_of token user) (Tables.tokens db))
  where
    found : Option AccessToken → Option HttpError × Tables
    found none = (some (404, lit "Token not found."), db)
    found (some t) =
        (none, record db { tokens = filterb (λ t. not (token_of token user t)) (Tables.tokens db) })
