-- ===== src/LinkSessions/Create.antt =====
-- src/routers/link_sessions.py: how sessions are made, and the exchange of a one-time launch token.
-- src/auth_utils.py: the claims of a launch token. The server's ids and keys are arguments; JSON Web
-- Tokens and `int` of a text are parameters.
use plaidify.Base.{
  ℕ, ◌+◌, ◌*◌, ◌/◌, ◌⊎◌, inl, inr, Bool, true, false, Option, none, some, List, [], ◌∷◌, ◌++◌, map,
  if◌then◌else◌, nat_eq,
}
use plaidify.Base.Compare.{list_eq}
use plaidify.Base.Dict.{Dict}
use plaidify.Base.Text.{Text, lit}
use plaidify.Json.{Value, null, num, text, arr, of_list}
use plaidify.SessionStore.Memory.{
  Session, Stores, Bootstrap, session_ttl, create_link_session, set_link_scopes,
  consume_link_launch_bootstrap,
}
use plaidify.LinkSessions.Origin.{
  Headers, extract_request_origin, rstrip_slash, contains, normalize_origin, normalized_origins,
  enforce_public_link_session_policy,
}

-- A row of the table of links.
pub record Link : Type 0 where
  pub link_token : Text
  pub site : Text
  pub user_id : ℕ

-- What a request may change: the stores of the process and the table of links.
pub record Server : Type 0 where
  pub stores : Stores
  pub links : List Link

-- What the response holds.
pub record Created : Type 0 where
  pub link_token : Text
  pub link_url : Text
  pub public_key : Text
  pub expires_in : ℕ
  pub scopes : Option (List Text)

abbrev pub text_or_null : Option Text → Value
text_or_null none = null
text_or_null (some t) = text t

abbrev pub number_or_null : Option ℕ → Value
number_or_null none = null
number_or_null (some n) = num n

-- The session as it is first stored.
unfoldable pub new_session :
    (Text → Text) → Option Text → Option ℕ → Option Text → List Text → Session
unfolding normalize_origin normalized_origins
new_session strip site user_id allowed_origin allowed_origins = record {
  created_at = none;
  events = some [];
  subscribers = none;
  fields =
      (lit "status", text (lit "awaiting_institution"))
      ∷ (lit "allowed_origin", text_or_null (normalize_origin strip allowed_origin))
      ∷ (
        lit "allowed_origins",
        arr (of_list (map text (normalized_origins strip allowed_origin allowed_origins))),
      )
      ∷ (lit "current_job_id", null)
      ∷ (lit "error_message", null)
      ∷ (lit "site", text_or_null site)
      ∷ (lit "user_id", number_or_null user_id)
      ∷ (lit "access_token", null)
      ∷ (lit "message", null)
      ∷ (lit "metadata", null)
      ∷ (lit "mfa_type", null)
      ∷ (lit "public_token", null)
      ∷ (lit "result", null)
      ∷ (lit "session_id", null)
      ∷ [];
}

-- What the code takes from outside: `str.strip`, `urlparse`, `json.dumps` of the scopes, `int` of a
-- text, and the keypairs by link token.
pub record Platform : Type 0 where
  pub strip : Text → Text
  pub urlparse : Text → Option (Text × Text)
  pub dumps : List Text → Text
  pub int_of : Text → Option ℕ
  pub generate_keypair : Text → Text

module _ (p : Platform) where
  -- The row for a session of a user at a site; an empty site counts as none.
  abbrev pub with_link : Text → Option Text → Option ℕ → List Link → List Link
  with_link link_token (some (c ∷ site)) (some user_id) links =
      links ++ record { link_token = link_token; site = c ∷ site; user_id = user_id } ∷ []
  with_link link_token site user_id links = links

  unfoldable pub with_scopes : Text → Option (List Text) → Stores → Stores
  unfolding set_link_scopes
  with_scopes link_token none s = s
  with_scopes link_token (some scopes) s = record s {
    link_scopes = set_link_scopes link_token (p.dumps scopes) (Stores.link_scopes s);
  }

  -- `_create_ephemeral_link_session`; `has_db` tells whether there is a database session.
  unfoldable pub create_ephemeral_link_session :
      ℕ
      → Text
      → Bool
      → Option Text
      → Option ℕ
      → Option (List Text)
      → Option Text
      → List Text
      → Server
      → Created × Server
  unfolding new_session create_link_session with_scopes
  create_ephemeral_link_session now link_token has_db site user_id scopes allowed_origin
        allowed_origins s =
      let links =
        if has_db then with_link link_token site user_id (Server.links s) else Server.links s in
      let scoped = with_scopes link_token scopes (Server.stores s) in
      let stored = record scoped {
        link_sessions =
            create_link_session now link_token
              (new_session p.strip site user_id allowed_origin allowed_origins)
              (Stores.link_sessions scoped);
      } in
      (
        record {
          link_token = link_token;
          link_url = lit "/link?token=" ++ link_token;
          public_key = p.generate_keypair link_token;
          expires_in = session_ttl / 1000;
          scopes = scopes;
        },
        record { stores = stored; links = links },
      )

  -- `create_public_link_session`; an error is its status and detail.
  unfoldable pub create_public_link_session :
      ℕ → Text → Bool → Bool → Text → Headers → Server → (ℕ × Text ⊎ Created) × Server
  unfolding create_ephemeral_link_session enforce_public_link_session_policy extract_request_origin
  create_public_link_session now link_token production enabled setting headers s = allowed (
      enforce_public_link_session_policy p.strip production enabled setting
        (extract_request_origin p.urlparse headers))
    where
      created : Created × Server → (ℕ × Text ⊎ Created) × Server
      created (c, s') = (inr c, s')

      allowed : Option Text → (ℕ × Text ⊎ Created) × Server
      allowed (some detail) = (inl (403, detail), s)
      allowed none = created (
          create_ephemeral_link_session now link_token false none none none
            (extract_request_origin p.urlparse headers) [] s)

  -- The claims of a launch token that the exchange reads.
  pub record Claims : Type 0 where
    pub sub : Option Text
    pub jti : Option Text
    pub site : Option Text
    pub allowed_origin : Option Text
    pub allowed_origins : List Text
    pub scopes : Option (List Text)
    pub expires : ℕ

  abbrev given : Option Text → Option Text
  given (some (c ∷ t)) = some (c ∷ t)
  given _ = none

  abbrev stripped : Option Text → Option Text
  unfolding rstrip_slash
  stripped none = none
  stripped (some t) = some (rstrip_slash t)

  -- The claims that `create_link_launch_token` signs; empty values are left out.
  unfoldable pub launch_claims :
      ℕ → Text → Text → Option Text → Option Text → List Text → Option (List Text) → ℕ → Claims
  unfolding rstrip_slash
  launch_claims now launch_id user site allowed_origin allowed_origins scopes seconds = record {
    sub = some user;
    jti = some launch_id;
    site = given site;
    allowed_origin = stripped (given allowed_origin);
    allowed_origins = map rstrip_slash allowed_origins;
    scopes = scopes;
    expires = now + 1000 * seconds;
  }

  -- What `decode_link_launch_token` answers.
  pub data Decoded : Type 0 where
    token_expired : Decoded
    token_invalid : Decoded
    claims : Claims → Decoded

  -- `{entry.rstrip("/") for entry in allowed_origins_payload if entry}` and the single origin.
  unfoldable pub allowed_set : List Text → Option Text → List Text
  unfolding rstrip_slash
  allowed_set [] (some (c ∷ t)) = rstrip_slash (c ∷ t) ∷ []
  allowed_set [] _ = []
  allowed_set ([] ∷ entries) o = allowed_set entries o
  allowed_set ((c ∷ t) ∷ entries) o = rstrip_slash (c ∷ t) ∷ allowed_set entries o

  -- `not allowed_set or (request_origin is not None and request_origin.rstrip("/") in allowed_set)`
  unfoldable pub may_redeem : List Text → Option Text → Bool
  unfolding contains rstrip_slash
  may_redeem [] o = true
  may_redeem (a ∷ allowed) none = false
  may_redeem (a ∷ allowed) (some t) = contains (rstrip_slash t) (a ∷ allowed)

  pub data Exchanged : Type 0 where
    error : ℕ → Text → Exchanged
    redeemed : Created → Exchanged

  -- The end of `exchange_link_bootstrap`, from the subject of the token on.
  unfoldable pub redeem : ℕ → Text → Claims → Server → Exchanged × Server
  unfolding create_ephemeral_link_session
  redeem now link_token c s = subject (Claims.sub c)
    where
      created : Created × Server → Exchanged × Server
      created (r, s') = (redeemed r, s')

      for_user : Option ℕ → Exchanged × Server
      for_user user_id = created (
          create_ephemeral_link_session now link_token true (Claims.site c) user_id
            (Claims.scopes c) (Claims.allowed_origin c) (Claims.allowed_origins c) s)

      numbered : Option ℕ → Exchanged × Server
      numbered none = (error 400 (lit "Invalid link bootstrap token subject."), s)
      numbered (some n) = for_user (some n)

      subject : Option Text → Exchanged × Server
      subject none = for_user none
      subject (some t) = numbered (p.int_of t)

  abbrev pub with_bootstraps : Dict Text Bootstrap → Server → Server
  with_bootstraps d s = record s {
    stores = record (Server.stores s) { link_launch_bootstraps = d };
  }

  -- `exchange_link_bootstrap`
  unfoldable pub exchange_link_bootstrap :
      ℕ → Text → Decoded → Headers → Server → Exchanged × Server
  unfolding allowed_set may_redeem extract_request_origin consume_link_launch_bootstrap redeem
  exchange_link_bootstrap now link_token token_expired headers s =
      (error 410 (lit "Link bootstrap token has expired."), s)
  exchange_link_bootstrap now link_token token_invalid headers s =
      (error 400 (lit "Invalid link bootstrap token."), s)
  exchange_link_bootstrap now link_token (claims c) headers s = checked (
      may_redeem (allowed_set (Claims.allowed_origins c) (Claims.allowed_origin c))
        (extract_request_origin p.urlparse headers))
    where
      used : Exchanged
      used = error 410 (lit "Link bootstrap token has expired or has already been used.")

      consumed : Bool × Dict Text Bootstrap → Exchanged × Server
      consumed (ok, d) =
          if ok then redeem now link_token c (with_bootstraps d s) else (used, with_bootstraps d s)

      launched : Option Text → Exchanged × Server
      launched (some (h ∷ t)) = consumed (
          consume_link_launch_bootstrap now (h ∷ t)
            (Stores.link_launch_bootstraps (Server.stores s)))
      launched _ = (used, s)

      checked : Bool → Exchanged × Server
      checked false = (
        error 403 (lit "This origin is not allowed to redeem the hosted-link bootstrap token."),
        s,
      )
      checked true = launched (Claims.jti c)
