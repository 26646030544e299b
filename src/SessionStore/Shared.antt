-- ===== src/SessionStore/Shared.antt =====
-- src/session_store.py: link sessions as they stand in Redis, which all workers share: the branches
-- with Redis. The remaining time to live of a key is a parameter; a negative answer counts as 0.
pub mod Once
use plaidify.Base.{
  ℕ, ◌+◌, ◌-◌, ◌*◌, ◌≡◌, ◌≢◌, ap, ◌≤◌, refl, ◌∙◌, Bool, true, false, [], ◌∷◌, ◌++◌, max, ltb,
  if◌then◌else◌, ◌==◌, ==_refl, nat_eq, Option, none, some, Bool-cases, Option-cases, inl, inr,
  filterb, not,
}
use plaidify.Base.Compare.{list_eq}
use plaidify.Base.Dict.{Dict, lookup, insert}
use plaidify.Base.Text.{Text, lit}
use plaidify.Json.{Value, num, text, arr, cons, nil, to_list, of_list, Codec}
use plaidify.Redis.{Redis}
use plaidify.SessionStore.Memory.{session_ttl, update_fields}

abbrev pub is_subscribers : Text × Value → Bool
is_subscribers (k, v) = k == lit "subscribers"

-- `{k: v for k, v in data.items() if k != "subscribers"}`
abbrev pub serializable : Dict Text Value → Dict Text Value
serializable d = filterb (λ e. not (is_subscribers e)) d

abbrev pub created_or : ℕ → Option Value → Value
created_or now (some v) = v
created_or now none = num now

-- `time.time() - session.get("created_at", 0) > LINK_SESSION_TTL`; the program stores numbers there.
abbrev pub older : ℕ → Option Value → Bool
older now (some (num t)) = ltb session_ttl (now - t)
older now (some _) = false
older now none = ltb session_ttl now

module _ (codec : Codec) (redis : Redis (Codec.Blob codec))
    (ttl : Redis.State redis → ℕ → Text → ℕ) where
  abbrev pub session_key : Text → Text
  session_key token = lit "plaidify:link_session:" ++ token

  unfoldable pub create_shared : ℕ → Text → Dict Text Value → Redis.State redis → Redis.State redis
  create_shared now token given s =
      Redis.set redis s now (session_key token)
        (Codec.dumps codec (
          serializable
            (insert (lit "created_at") (created_or now (lookup (lit "created_at") given)) given)))
        session_ttl

  -- `r.get(key)` and `json.loads`, where an empty text counts as missing; what is not JSON is an
  -- error of the caller's and counts as missing here too.
  abbrev pub read : ℕ → Text → Redis.State redis → Option (Dict Text Value)
  read now key s = parsed (Redis.get redis s now key)
    where
      parsed : Option (Codec.Blob codec) → Option (Dict Text Value)
      parsed none = none
      parsed (some raw) = if Codec.is_empty codec raw then none else Codec.loads codec raw

  unfoldable pub get_shared : ℕ → Text → Redis.State redis → Option (Dict Text Value)
  get_shared now token s = found (read now (session_key token) s)
    where
      found : Option (Dict Text Value) → Option (Dict Text Value)
      found none = none
      found (some d) =
          if older now (lookup (lit "created_at") d)
          then some (insert (lit "status") (text (lit "expired")) d)
          else some d

  -- `r.set(key, json.dumps(session), ex=max(ttl, 60))`
  abbrev write_back : ℕ → Text → Dict Text Value → Redis.State redis → Redis.State redis
  write_back now key d s =
      Redis.set redis s now key (Codec.dumps codec d) (max (ttl s now key) 60000)

  unfoldable pub update_shared :
      ℕ → Text → Dict Text Value → Redis.State redis → Bool × Redis.State redis
  update_shared now token updates s = found (read now (session_key token) s)
    where
      found : Option (Dict Text Value) → Bool × Redis.State redis
      found none = (false, s)
      found (some d) =
          (true, write_back now (session_key token) (update_fields d (serializable updates)) s)

  -- `session.setdefault("events", []).append(event)`; `none` is an `AttributeError`.
  abbrev pub with_event : Value → Dict Text Value → Option (Dict Text Value)
  with_event event d = entry (lookup (lit "events") d)
    where
      entry : Option Value → Option (Dict Text Value)
      entry none = some (insert (lit "events") (arr (cons event nil)) d)
      entry (some (arr vs)) =
          some (insert (lit "events") (arr (of_list (to_list vs ++ event ∷ []))) d)
      entry (some _) = none

  unfoldable pub append_shared :
      ℕ → Text → Value → Redis.State redis → Option (Bool × Redis.State redis)
  append_shared now token event s = found (read now (session_key token) s)
    where
      written : Option (Dict Text Value) → Option (Bool × Redis.State redis)
      written none = none
      written (some d) = some (true, write_back now (session_key token) d s)

      found : Option (Dict Text Value) → Option (Bool × Redis.State redis)
      found none = some (false, s)
      found (some d) = written (with_event event d)

  unfoldable pub delete_shared : Text → Redis.State redis → Redis.State redis
  delete_shared token s = Redis.delete redis s (session_key token)
