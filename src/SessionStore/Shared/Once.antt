-- ===== src/SessionStore/Shared/Once.antt =====
-- src/session_store.py: what Redis keeps for one use, scopes, refresh schedules and launch bootstraps.
-- The remaining time to live of a key is a parameter; a negative answer counts as 0.
use plaidify.Base.{
  ℕ, ◌+◌, ◌*◌, ◌≡◌, ◌≢◌, ap, ◌≤◌, refl, ◌∙◌, Bool, true, false, [], ◌∷◌, ◌++◌, max, ltb,
  if◌then◌else◌, ◌==◌, ==_refl, nat_eq, Option, none, some, Bool-cases, Option-cases, inl, inr,
}
use plaidify.Base.Compare.{list_eq}
use plaidify.Base.Text.{Text, lit}
use plaidify.Redis.{Redis}
use plaidify.SessionStore.Memory.{session_ttl}

false_ne_true : false ≢ true
false_ne_true e = cc

-- `set_link_scopes` and `set_link_refresh_schedule`: they differ in the prefix of the key.
module _ (redis : Redis Text) (prefix : Text) where
  unfoldable pub set_once : ℕ → Text → Text → Redis.State redis → Redis.State redis
  set_once now token value s = Redis.set redis s now (prefix ++ token) value session_ttl

  -- `pop_link_scopes` and `pop_link_refresh_schedule`: an empty value is not deleted.
  unfoldable pub pop_once : ℕ → Text → Redis.State redis → Option Text × Redis.State redis
  pop_once now token s = (found, rest found)
    where
      found : Option Text
      found = Redis.get redis s now (prefix ++ token)

      rest : Option Text → Redis.State redis
      rest (some (c ∷ cs)) = Redis.delete redis s (prefix ++ token)
      rest _ = s

  -- In Redis too a value that is not empty, popped before it expires, is popped once.
  pub pop-set_once :
      (t t' t'' c : ℕ) (token cs : Text) (s : Redis.State redis)
      → t ≤ t'
      → ltb t' (t + session_ttl) ≡ true
      → let (first, rest) = pop_once t' token (set_once t token (c ∷ cs) s) in
        (first ≡ some (c ∷ cs)) × ((pop_once t'' token rest).0 ≡ none)
  unfolding set_once pop_once
  pop-set_once t t' t'' c token cs s later alive =
      rw
        (
          Redis.get-set redis s t t' (prefix ++ token) (prefix ++ token) (c ∷ cs) session_ttl later,
          ==_refl (prefix ++ token),
          alive,
        )
        (
          refl,
          Redis.get-delete redis _ t'' (prefix ++ token) (prefix ++ token)
              ∙ rw (==_refl (prefix ++ token)) refl,
        )

module _ (redis : Redis Text) (ttl : Redis.State redis → ℕ → Text → ℕ) where
  abbrev pub bootstrap_key : Text → Text
  bootstrap_key launch_id = lit "plaidify:link_launch_bootstrap:" ++ launch_id

  unfoldable pub store_shared : ℕ → Text → ℕ → Redis.State redis → Redis.State redis
  store_shared now launch_id seconds s =
      Redis.set redis s now (bootstrap_key launch_id) (lit "issued") (1000 * max seconds 1)

  abbrev spend : Text → ℕ → ℕ → Redis.State redis → Bool × Redis.State redis
  spend key now left s = (true, Redis.set redis s now key (lit "consumed") left)

  -- The Lua script.
  unfoldable pub consume_script : ℕ → Text → Redis.State redis → Bool × Redis.State redis
  consume_script now key s = found (Redis.get redis s now key)
    where
      left : ℕ
      left = ttl s now key

      found : Option Text → Bool × Redis.State redis
      found none = (false, s)
      found (some value) =
          if value == lit "consumed"
          then (false, s)
          else spend key now (if ltb left 1000 then 60000 else left) s

  -- What is done when the script cannot be run: three commands, one after the other. `before_ttl` and
  -- `before_set` are what other workers do to Redis between them.
  unfoldable pub consume_fallback :
      (Redis.State redis → Redis.State redis)
      → (Redis.State redis → Redis.State redis)
      → ℕ
      → Text
      → Redis.State redis
      → Bool × Redis.State redis
  consume_fallback before_ttl before_set now key s = found (Redis.get redis s now key)
    where
      found : Option Text → Bool × Redis.State redis
      found none = (false, s)
      found (some []) = (false, s)
      found (some (c ∷ cs)) =
          if (c ∷ cs) == lit "consumed"
          then (false, s)
          else spend key now (max (ttl (before_ttl s) now key) 60000) (before_set (before_ttl s))

  -- Whether the script can be run, or what other workers do between the commands of the fallback.
  pub data Way : Type 0 where
    script : Way
    fallback :
        (Redis.State redis → Redis.State redis) → (Redis.State redis → Redis.State redis) → Way

  unfoldable pub consume_shared : Way → ℕ → Text → Redis.State redis → Bool × Redis.State redis
  unfolding consume_script consume_fallback
  consume_shared script now launch_id s = consume_script now (bootstrap_key launch_id) s
  consume_shared (fallback before_ttl before_set) now launch_id s =
      consume_fallback before_ttl before_set now (bootstrap_key launch_id) s

  -- What is left under a key that was consumed.
  spent :
      (runs : Way) (t t' left : ℕ) (id : Text) (s : Redis.State redis)
      → t ≤ t'
      → (consume_shared runs t' id (spend (bootstrap_key id) t left s).1).0 ≡ false
  unfolding consume_shared consume_script consume_fallback
  spent runs t t' left id s later =
      let key = bootstrap_key id in
      let seen = Redis.get-set redis s t t' key key (lit "consumed") left later in
      split runs (ltb t' (t + left)) (seen ∙ rw (==_refl key) refl)
    where
      key : Text
      key = bootstrap_key id

      after : Redis.State redis
      after = (spend (bootstrap_key id) t left s).1

      split :
          (runs : Way) (alive : Bool)
          → Redis.get redis after t' key ≡ (if alive then some (lit "consumed") else none)
          → (consume_shared runs t' id after).0 ≡ false
      split script true e = rw e refl
      split script false e = rw e refl
      split (fallback f g) true e = rw e refl
      split (fallback f g) false e = rw e refl

  -- Who consumes has found a value that is not "consumed", and leaves that in its place.
  spends :
      (runs : Way) (t : ℕ) (id : Text) (s : Redis.State redis)
      → (consume_shared runs t id s).0 ≡ true
      → (left : ℕ) × ((seen : Redis.State redis) × ((consume_shared runs t id s).1
            ≡ (spend (bootstrap_key id) t left seen).1))
  unfolding consume_shared consume_script consume_fallback
  spends script t id s ok = elim (Option-cases (Redis.get redis s t (bootstrap_key id))) [
    | inl e ↦ absurd (false_ne_true (rw e at ok))
    | inr (v, e) ↦ elim (Bool-cases (v == lit "consumed")) [
      | inl h ↦ absurd (false_ne_true (rw (e, h) at ok))
      | inr h ↦ rw (e, h) (_, (_, refl))
    ]
  ]
  spends (fallback f g) t id s ok = elim (Option-cases (Redis.get redis s t (bootstrap_key id))) [
    | inl e ↦ absurd (false_ne_true (rw e at ok))
    | inr ([], e) ↦ absurd (false_ne_true (rw e at ok))
    | inr (c ∷ cs, e) ↦ elim (Bool-cases ((c ∷ cs) == lit "consumed")) [
      | inl h ↦ absurd (false_ne_true (rw (e, h) at ok))
      | inr h ↦ rw (e, h) (_, (_, refl))
    ]
  ]

  -- In Redis, once a worker has consumed a launch identifier, a worker that asks later is refused,
  -- whichever of the two ways each of them takes and whatever others do between the commands of the
  -- fallback.
  pub consume_shared_once :
      (runs runs' : Way) (t t' : ℕ) (id : Text) (s : Redis.State redis)
      → t ≤ t'
      → (consume_shared runs t id s).0 ≡ true
      → (consume_shared runs' t' id (consume_shared runs t id s).1).0 ≡ false
  unfolding consume_shared consume_script consume_fallback
  consume_shared_once runs runs' t t' id s later ok =
      let (left, (seen, e)) = spends runs t id s ok in
      ap (λ after. (consume_shared runs' t' id after).0) e ∙ spent runs' t t' left id seen later
