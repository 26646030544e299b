-- ===== src/Mfa.antt =====
-- src/core/mfa_manager.py: `MFASession` and `MFAManager`. Times count milliseconds, lives seconds.
-- `configured` tells whether there is a Redis. Sessions are kept per process, payloads in Redis.
pub mod Fresh
pub mod Submitted
mod Tests
use plaidify.Base.{
  ℕ, ◌+◌, ◌-◌, ◌*◌, ◌/◌, max, Bool, true, false, ◌&&◌, not, List, [], ◌∷◌, ◌++◌, length, ltb,
  Option, none, some, ◌==◌, nat_eq, if◌then◌else◌, filterb,
}
use plaidify.Base.Compare.{list_eq}
use plaidify.Base.Dict.{Dict, lookup, insert, erase, erase_all, values}
use plaidify.Base.Text.{Text, lit}
use plaidify.Json.{Value, null, num, text, obj, to_dict, of_dict, Codec}
use plaidify.Redis.{Redis}
use plaidify.SessionStore.Evict.{selected}

-- `DEFAULT_MFA_TTL`
abbrev pub default_mfa_ttl : ℕ
default_mfa_ttl = 300

pub record MfaSession : Type 0 where
  pub session_id : Text
  pub site : Text
  pub mfa_type : Text
  pub created_at : ℕ
  pub ttl : ℕ
  -- whether `_event` is set
  pub is_set : Bool
  pub code : Option Text
  pub metadata : Dict Text Value
  -- whether there is a `_code_fetcher`
  pub fetches : Bool

-- `MFASession.expired`
abbrev pub expired : ℕ → MfaSession → Bool
expired now m = ltb (1000 * MfaSession.ttl m) (now - MfaSession.created_at m)

-- `MFASession.submit_code`
abbrev pub with_code : Text → MfaSession → MfaSession
with_code c m = record m { code = some c; is_set = true }

abbrev code_value : Option Text → Value
code_value none = null
code_value (some c) = text c

abbrev pub redis_key : Text → Text
redis_key id = lit "plaidify:mfa_session:" ++ id

-- `_session_payload`
abbrev pub session_payload : MfaSession → Dict Text Value
session_payload m =
    (lit "session_id", text (MfaSession.session_id m))
    ∷ (lit "site", text (MfaSession.site m))
    ∷ (lit "mfa_type", text (MfaSession.mfa_type m))
    ∷ (lit "metadata", obj (of_dict (MfaSession.metadata m)))
    ∷ (lit "ttl", num (MfaSession.ttl m))
    ∷ (lit "created_at", num (MfaSession.created_at m))
    ∷ (lit "code", code_value (MfaSession.code m))
    ∷ []

-- `payload.get(key, default)` as a number; the program writes nothing else there.
abbrev pub number_of : ℕ → Option Value → ℕ
number_of d (some (num n)) = n
number_of d _ = d

-- `payload.get(key)` as a text
abbrev pub text_of : Option Value → Option Text
text_of (some (text t)) = some t
text_of _ = none

abbrev pub dict_of : Option Value → Dict Text Value
dict_of (some (obj fs)) = to_dict fs
dict_of _ = []

abbrev pub or_empty : Option Text → Text
or_empty (some t) = t
or_empty none = []

abbrev pub created_of : Dict Text Value → ℕ
created_of p = number_of 0 (lookup (lit "created_at") p)

abbrev pub ttl_of : Dict Text Value → ℕ
ttl_of p = number_of default_mfa_ttl (lookup (lit "ttl") p)

unfoldable pub payload_expired : ℕ → Dict Text Value → Bool
payload_expired now p = ltb (1000 * ttl_of p) (now - created_of p)

unfoldable pub remaining_ttl : ℕ → Dict Text Value → ℕ
remaining_ttl now p = max 1 ((1000 * ttl_of p - (now - created_of p)) / 1000)

-- The session that `get_session` restores from a payload. The keys that it takes without a default
-- are in every payload that the program writes.
unfoldable pub restored : ℕ → Dict Text Value → MfaSession
restored now p = record {
  session_id = or_empty (text_of (lookup (lit "session_id") p));
  site = or_empty (text_of (lookup (lit "site") p));
  mfa_type = or_empty (text_of (lookup (lit "mfa_type") p));
  created_at = number_of now (lookup (lit "created_at") p);
  ttl = ttl_of p;
  is_set = false;
  code = text_of (lookup (lit "code") p);
  metadata = dict_of (lookup (lit "metadata") p);
  fetches = true;
}

abbrev pub update_metadata : Dict Text Value → Dict Text Value → Dict Text Value
update_metadata d [] = d
update_metadata d ((k, v) ∷ us) = update_metadata (insert k v d) us

module _ (codec : Codec) (redis : Redis (Codec.Blob codec)) (configured : Bool) where
  -- The sessions of this process, and Redis.
  pub record Manager : Type 0 where
    pub sessions : Dict Text MfaSession
    pub store : Redis.State redis

  abbrev parsed : Option (Codec.Blob codec) → Option (Dict Text Value)
  parsed none = none
  parsed (some raw) = if Codec.is_empty codec raw then none else Codec.loads codec raw

  -- `redis_client.get` and `json.loads`; what the program wrote can be read.
  abbrev pub read_payload : ℕ → Text → Redis.State redis → Option (Dict Text Value)
  read_payload now id store =
      if configured then parsed (Redis.get redis store now (redis_key id)) else none

  abbrev write_payload : ℕ → Text → Dict Text Value → ℕ → Redis.State redis → Redis.State redis
  write_payload now id p seconds store =
      if configured
      then Redis.set redis store now (redis_key id) (Codec.dumps codec p) (1000 * seconds)
      else store

  abbrev local_code : Option MfaSession → Option Text
  local_code none = none
  local_code (some m) = MfaSession.code m

  unfoldable pub remove_session : Text → Manager → Manager
  remove_session id s = record {
    sessions = erase id (Manager.sessions s);
    store =
        if configured then Redis.delete redis (Manager.store s) (redis_key id) else Manager.store s;
  }

  abbrev forget : Text → Manager → Manager
  forget id s = record s { store = Redis.delete redis (Manager.store s) (redis_key id) }

  unfoldable pub fetch_submitted_code : ℕ → Text → Manager → Option Text × Manager
  fetch_submitted_code now id s =
      if configured
      then found (read_payload now id (Manager.store s))
      else (local_code (lookup id (Manager.sessions s)), s)
    where
      found : Option (Dict Text Value) → Option Text × Manager
      found none = (none, s)
      found (some p) =
          if payload_expired now p
          then (none, forget id s)
          else (text_of (lookup (lit "code") p), s)

  unfoldable pub persist_session : ℕ → MfaSession → Manager → Manager
  persist_session now m s = record s {
    store =
        write_payload now (MfaSession.session_id m) (session_payload m) (MfaSession.ttl m)
          (Manager.store s);
  }

  -- What is in the memory of the process, where an expired session is dropped.
  unfoldable pub local_session : ℕ → Text → Manager → Option MfaSession × Manager
  local_session now id s = found (lookup id (Manager.sessions s))
    where
      found : Option MfaSession → Option MfaSession × Manager
      found none = (none, s)
      found (some m) =
          if expired now m
          then (none, record s { sessions = erase id (Manager.sessions s) })
          else (some m, s)

  unfoldable pub get_session : ℕ → Text → Manager → Option MfaSession × Manager
  unfolding local_session
  get_session now id s = either (local_session now id s)
    where
      found : Manager → Option (Dict Text Value) → Option MfaSession × Manager
      found s' none = (none, s')
      found s' (some p) =
          if payload_expired now p then (none, forget id s') else (some (restored now p), s')

      either : Option MfaSession × Manager → Option MfaSession × Manager
      either (some m, s') = (some m, s')
      either (none, s') = found s' (read_payload now id (Manager.store s'))

  unfoldable pub create_session :
      ℕ → Text → Text → Text → Dict Text Value → ℕ → Manager → MfaSession × Manager
  unfolding get_session persist_session
  create_session now id site kind metadata ttl s = over (get_session now id s)
    where
      kept : MfaSession → Manager → MfaSession × Manager
      kept m s' =
          (m, persist_session now m (record s' { sessions = insert id m (Manager.sessions s') }))

      over : Option MfaSession × Manager → MfaSession × Manager
      over (some m, s') =
          kept
            (record m {
              site = site;
              mfa_type = kind;
              metadata = update_metadata (MfaSession.metadata m) metadata;
              fetches = if configured then true else MfaSession.fetches m;
            })
            s'
      over (none, s') =
          kept
            (record {
              session_id = id;
              site = site;
              mfa_type = kind;
              created_at = now;
              ttl = ttl;
              is_set = false;
              code = none;
              metadata = metadata;
              fetches = configured;
            })
            s'

  -- `payload["code"] = code`, written back for the rest of the payload's life.
  abbrev write_code : ℕ → Text → Text → Dict Text Value → Manager → Manager
  write_code now id c p s = record s {
    store =
        write_payload now id (insert (lit "code") (text c) p)
          (remaining_ttl now (insert (lit "code") (text c) p)) (Manager.store s);
  }

  unfoldable pub submit_code : ℕ → Text → Text → Manager → Bool × Manager
  unfolding remove_session
  submit_code now id c s =
      both (lookup id (Manager.sessions s)) (read_payload now id (Manager.store s))
    where
      gone : Bool × Manager
      gone = (false, remove_session id s)

      wake : MfaSession → Manager → Manager
      wake m s' = record s' { sessions = insert id (with_code c m) (Manager.sessions s') }

      both : Option MfaSession → Option (Dict Text Value) → Bool × Manager
      both none none = (false, s)
      both none (some p) = if payload_expired now p then gone else (true, write_code now id c p s)
      both (some m) none = if expired now m then gone else (true, wake m s)
      both (some m) (some p) =
          if payload_expired now p
          then gone
          else if expired now m
          then gone
          else (true, wake m (write_code now id c p s))

  unfoldable pub active_count : ℕ → Manager → ℕ
  active_count now s = length (filterb (λ m. not (expired now m)) (values (Manager.sessions s)))

  unfoldable pub cleanup_expired : ℕ → Manager → Manager
  cleanup_expired now s = record s {
    sessions = erase_all (selected (expired now) (Manager.sessions s)) (Manager.sessions s);
  }
