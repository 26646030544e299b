-- ===== src/Access.antt =====
-- src/dependencies.py: who calls, and what the caller's API key or agent may reach. Sets are lists.
-- `str.strip`, `str.lower`, JSON, JSON Web Tokens and the digest are parameters.
pub mod Sets
pub mod Scopes
mod Tests
use plaidify.Base.{
  ℕ, Bool, true, false, ◌&&◌, not, Option, none, some, List, [], ◌∷◌, ◌⊎◌, inl, inr, if◌then◌else◌,
  ltb, nat_eqb, ◌==◌, nat_eq, drop,
}
use plaidify.Base.Compare.{list_eq}
use plaidify.Base.Text.{Text, lit, starts_with}
use plaidify.LinkSessions.Origin.{contains}
use plaidify.Access.Sets.{to_set, intersection, subset}
use plaidify.AccessJobs.Job.{sorted}

-- An error of the API: its status and detail.
abbrev pub HttpError : Type 0
HttpError = ℕ × Text

-- The platform's functions: `str.strip`, `str.lower`, `json.loads` of a list of texts (`none` if it is
-- no JSON or no list), the digest of an API key and the claims of a bearer token.
pub record Platform : Type 0 where
  pub strip : Text → Text
  pub lower : Text → Text
  pub load_list : Text → Option (List Text)
  pub sha256_hex : Text → Text
  pub user_of_token : ℕ → Text → HttpError ⊎ ℕ

pub record ApiKey : Type 0 where
  pub id : Text
  pub key_hash : Text
  pub is_active : Bool
  pub user_id : ℕ
  pub scopes : Option Text
  pub expires_at : Option ℕ
  pub last_used_at : Option ℕ

pub record Agent : Type 0 where
  pub id : Text
  pub api_key_id : Text
  pub is_active : Bool
  pub allowed_scopes : Option Text
  pub allowed_sites : Option Text
  pub last_active_at : Option ℕ

pub record Accounts : Type 0 where
  pub users : List ℕ
  pub api_keys : List ApiKey
  pub agents : List Agent

pub record AuthContext : Type 0 where
  pub user : ℕ
  pub is_api_key : Bool
  pub api_key_id : Option Text
  pub agent_id : Option Text
  pub allowed_scopes : Option (List Text)
  pub allowed_sites : Option (List Text)

-- `value.split(":", 1)[1]`, for a text with a colon, else the text itself
unfoldable pub after_colon : Text → Text
after_colon scope = from scope scope
  where
    from : Text → Text → Text
    from whole [] = whole
    from whole (c ∷ t) = let rest = from whole t in if nat_eqb c b':' then t else rest

module _ (p : Platform) where
  -- `_normalize_scope_name`
  unfoldable pub normalize_scope_name : Text → Text
  unfolding after_colon
  normalize_scope_name scope = p.strip (after_colon (p.strip scope))

  -- `{f(v) for v in values if f(v)}`
  unfoldable pub normalized_set : (Text → Text) → List Text → List Text
  normalized_set f [] = []
  normalized_set f (v ∷ vs) = kept (f v) (normalized_set f vs)
    where
      kept : Text → List Text → List Text
      kept [] rest = rest
      kept (c ∷ t) rest = (c ∷ t) ∷ rest

  -- `_load_scope_set` and `_load_site_set`: nothing stored, and what cannot be read, is no restriction.
  unfoldable pub load_set : (Text → Text) → Option Text → Option (List Text)
  unfolding normalized_set to_set
  load_set f (some (c ∷ t)) = read (p.load_list (c ∷ t))
    where
      read : Option (List Text) → Option (List Text)
      read none = none
      read (some values) = some (to_set (normalized_set f values))
  load_set f _ = none

  unfoldable pub load_scope_set : Option Text → Option (List Text)
  unfolding load_set normalize_scope_name
  load_scope_set = load_set normalize_scope_name

  unfoldable pub load_site_set : Option Text → Option (List Text)
  unfolding load_set
  load_site_set = load_set (λ t. p.lower (p.strip t))

  -- `_combine_scope_sets`
  unfoldable pub combine_scope_sets : Option (List Text) → Option (List Text) → Option (List Text)
  unfolding intersection
  combine_scope_sets none right = right
  combine_scope_sets (some l) none = some l
  combine_scope_sets (some l) (some r) = some (intersection l r)

  abbrev pub principal_scopes : Option AuthContext → Option (List Text)
  principal_scopes none = none
  principal_scopes (some c) = AuthContext.allowed_scopes c

  abbrev pub principal_sites : Option AuthContext → Option (List Text)
  principal_sites none = none
  principal_sites (some c) = AuthContext.allowed_sites c

  -- `ensure_site_allowed_for_request`: the error that it raises
  unfoldable pub ensure_site_allowed_for_request : Option AuthContext → Text → Option HttpError
  unfolding contains
  ensure_site_allowed_for_request context site = within (principal_sites context)
    where
      within : Option (List Text) → Option HttpError
      within none = none
      within (some sites) =
          if contains (p.lower (p.strip site)) sites
          then none
          else some (403, lit "This API key or agent is not allowed to access the requested site.")

  -- `constrain_requested_scopes`
  unfoldable pub constrain_requested_scopes :
      Option AuthContext → Option (List Text) → HttpError ⊎ Option (List Text)
  unfolding normalize_scope_name normalized_set to_set subset sorted
  constrain_requested_scopes context requested = within (principal_scopes context) requested
    where
      checked : List Text → List Text → HttpError ⊎ Option (List Text)
      checked requested_set allowed =
          if subset requested_set allowed
          then inr (some (sorted requested_set))
          else inl (403, lit "Requested scopes exceed API key or agent permissions.")

      within : Option (List Text) → Option (List Text) → HttpError ⊎ Option (List Text)
      within none requested = inr requested
      within (some allowed) none = inr (some (sorted allowed))
      within (some allowed) (some scopes) =
          checked (to_set (normalized_set normalize_scope_name scopes)) allowed

  unfoldable pub find_key : Text → List ApiKey → Option ApiKey
  find_key hash [] = none
  find_key hash (k ∷ ks) =
      if (ApiKey.key_hash k == hash) && ApiKey.is_active k then some k else find_key hash ks

  unfoldable pub find_agent : Text → List Agent → Option Agent
  find_agent key_id [] = none
  find_agent key_id (a ∷ rest) =
      if Agent.api_key_id a == key_id then some a else find_agent key_id rest

  abbrev pub has_user : ℕ → List ℕ → Bool
  has_user id [] = false
  has_user id (u ∷ us) = if nat_eqb u id then true else has_user id us

  abbrev pub is_past : ℕ → Option ℕ → Bool
  is_past now none = false
  is_past now (some t) = ltb t now

  abbrev pub agent_scopes : Option Agent → Option Text
  agent_scopes none = none
  agent_scopes (some a) = Agent.allowed_scopes a

  abbrev pub agent_sites : Option Agent → Option Text
  agent_sites none = none
  agent_sites (some a) = Agent.allowed_sites a

  abbrev agent_name : Option Agent → Option Text
  agent_name none = none
  agent_name (some a) = some (Agent.id a)

  -- The context of a caller with an API key.
  unfoldable pub key_context : ApiKey → Option Agent → AuthContext
  unfolding load_scope_set load_site_set combine_scope_sets
  key_context k agent = record {
    user = ApiKey.user_id k;
    is_api_key = true;
    api_key_id = some (ApiKey.id k);
    agent_id = agent_name agent;
    allowed_scopes =
        combine_scope_sets (load_scope_set (ApiKey.scopes k)) (load_scope_set (agent_scopes agent));
    allowed_sites = load_site_set (agent_sites agent);
  }

  abbrev pub unauthorized : Text → HttpError ⊎ AuthContext
  unauthorized detail = inl (401, detail)

  -- `get_current_user_or_api_key`: the error, or the context whose user it returns. The times of the
  -- last use are left out.
  unfoldable pub authenticate : ℕ → Option Text → Text → Accounts → HttpError ⊎ AuthContext
  unfolding find_key find_agent key_context
  authenticate now api_key authorization a = by_key api_key
    where
      with_owner : ApiKey → Option Agent → HttpError ⊎ AuthContext
      with_owner k agent =
          if has_user (ApiKey.user_id k) (Accounts.users a)
          then inr (key_context k agent)
          else unauthorized (lit "API key owner not found.")

      with_agent : ApiKey → Option Agent → HttpError ⊎ AuthContext
      with_agent k none = with_owner k none
      with_agent k (some agent) =
          if Agent.is_active agent
          then with_owner k (some agent)
          else unauthorized (lit "Agent is inactive.")

      with_key : Option ApiKey → HttpError ⊎ AuthContext
      with_key none = unauthorized (lit "Invalid API key.")
      with_key (some k) =
          if is_past now (ApiKey.expires_at k)
          then unauthorized (lit "API key has expired.")
          else with_agent k (find_agent (ApiKey.id k) (Accounts.agents a))

      as_user : HttpError ⊎ ℕ → HttpError ⊎ AuthContext
      as_user (inl e) = inl e
      as_user (inr user) =
          if has_user user (Accounts.users a)
          then inr (record {
            user = user;
            is_api_key = false;
            api_key_id = none;
            agent_id = none;
            allowed_scopes = none;
            allowed_sites = none;
          })
          else unauthorized (lit "User not found.")

      by_bearer : HttpError ⊎ AuthContext
      by_bearer =
          if starts_with (lit "Bearer ") authorization
          then as_user (p.user_of_token now (drop 7 authorization))
          else unauthorized (lit "Missing authentication.")

      by_key : Option Text → HttpError ⊎ AuthContext
      by_key (some (c ∷ t)) = with_key (find_key (p.sha256_hex (c ∷ t)) (Accounts.api_keys a))
      by_key _ = by_bearer
