-- ===== src/AccessJobs/Lock/Exclusive.antt =====
-- src/access_jobs.py: a Redis lock excludes the other workers until it is released or expires.
use mathlib.Core.Option.{some-injective}
use plaidify.Base.{
  ℕ, ◌+◌, ◌≤◌, ◌<◌, ◌≡◌, ◌≢◌, refl, sym, ap, ◌∙◌, true, false, none, some, List, [], ◌∷◌, arith,
  ◌==◌, ==_iff, ==_refl, nat_eq, Bool-cases, inl, inr, lt→ltb,
}
use plaidify.Base.Compare.{list_eq, option_eq}
use plaidify.Base.Text.{Text}
use plaidify.Redis.{Redis, is_none}
use plaidify.AccessJobs.Lock.{lock_key, lock_ttl, try_lock, release_script}

-- What workers do to Redis: an attempt to take a scope's lock with a token, which is a round of the loop
-- of `_acquire_redis_lock`, or a release.
pub data Act : Type 0 where
  try : Text → Text → Act
  drop_lock : Text → Text → Act

abbrev pub token_of : Act → Text
token_of (try scope token) = token
token_of (drop_lock scope token) = token

module _ (R : Redis Text) where
  open R use {State, get, set, set_nx, delete, get-set, get-delete, set_nx_lem}

  pub act : State → ℕ → Act → State
  act s now (try scope token) = (try_lock R s now scope token).0
  act s now (drop_lock scope token) = release_script R s now (lock_key scope) token

  pub run : State → List (ℕ × Act) → State
  run s [] = s
  run s ((now, a) ∷ acts) = run (act s now a) acts

  -- The acts of workers with other tokens, in the order of their times, within a span of time.
  abbrev pub Others : Text → ℕ → ℕ → List (ℕ × Act) → Type 0
  Others token start end [] = start ≤ end
  Others token start end ((now, a) ∷ acts) =
      (start ≤ now) × (now < end) × (token_of a ≢ token) × Others token now end acts

  -- The lock is seen with this token from `start` until `end`.
  abbrev pub Seen : State → Text → Text → ℕ → ℕ → Type 0
  Seen s scope token start end =
      (t : ℕ) → start ≤ t → t < end → get s t (lock_key scope) ≡ some token

  set-Seen :
      (s : State) (scope token other other_scope : Text) (start now end : ℕ)
      → start ≤ now
      → (lock_key other_scope == lock_key scope) ≡ false
      → Seen s scope token start end
      → Seen (set s now (lock_key other_scope) other lock_ttl) scope token now end
  set-Seen s scope token other other_scope start now end h diff seen t a b =
      rw (get-set s now t (lock_key other_scope) (lock_key scope) other lock_ttl a, diff)
        (seen t (omega arith) b)

  nx-taken :
      (s : State) (now : ℕ) (key v w : Text) (ex : ℕ)
      → get s now key ≡ some w
      → set_nx s now key v ex ≡ (s, false)
  nx-taken s now key v w ex h = rw (set_nx_lem s now key v ex, h)

  act-Seen :
      (s : State) (scope token : Text) (start now end : ℕ) (a : Act)
      → start ≤ now
      → now < end
      → token_of a ≢ token
      → Seen s scope token start end
      → Seen (act s now a) scope token now end
  unfolding act release_script try_lock
  act-Seen s scope token start now end (try other_scope other) h l n seen =
      elim (Bool-cases (lock_key other_scope == lock_key scope)) [
        | inl e ↦
            let same = (==_iff (lock_key other_scope) (lock_key scope)).0 e in
            let taken =
              nx-taken s now (lock_key other_scope) other token lock_ttl (rw same (seen now h l)) in
            λ t a b. rw (taken, act) (seen t (omega arith) b)
        | inr e ↦
            rw (set_nx_lem s now (lock_key other_scope) other lock_ttl, act)
              (elim (Bool-cases (is_none (get s now (lock_key other_scope)))) [
                | inl free ↦
                    rw free (set-Seen s scope token other other_scope start now end h e seen)
                | inr full ↦ rw full (λ t a b. seen t (omega arith) b)
              ])
      ]
  act-Seen s scope token start now end (drop_lock other_scope other) h l n seen =
      elim (Bool-cases (get s now (lock_key other_scope) == some other)) [
        | inl mine ↦
            rw (mine, act, release_script)
              (λ t a b.
                rw (get-delete s t (lock_key other_scope) (lock_key scope), other_key mine)
                  (seen t (omega arith) b))
        | inr not_mine ↦ rw (not_mine, act, release_script) (λ t a b. seen t (omega arith) b)
      ]
    where
      other_key :
          (get s now (lock_key other_scope) == some other) ≡ true
          → (lock_key other_scope == lock_key scope) ≡ false
      other_key mine = elim (Bool-cases (lock_key other_scope == lock_key scope)) [
        | inl e ↦
            let same = (==_iff (lock_key other_scope) (lock_key scope)).0 e in
            let got = (==_iff (get s now (lock_key other_scope)) (some other)).0 mine in
            absurd (n (some-injective _ _ (sym got ∙ ap (get s now) same ∙ seen now h l)))
        | inr e ↦ e
      ]

  run-Seen :
      (s : State) (scope token : Text) (start stop end : ℕ) (acts : List (ℕ × Act))
      → stop ≤ end
      → Others token start stop acts
      → Seen s scope token start end
      → (last : ℕ) × (last ≤ stop) × Seen (run s acts) scope token last end
  unfolding run
  run-Seen s scope token start stop end [] h o seen = (start, o, seen)
  run-Seen s scope token start stop end ((now, a) ∷ acts) h o seen =
      run-Seen (act s now a) scope token now stop end acts h o.3
        (act-Seen s scope token start now end a o.0 (omega arith) o.2 seen)

  free-Seen :
      (s : State) (scope token : Text) (now : ℕ)
      → Seen (set s now (lock_key scope) token lock_ttl) scope token now (now + lock_ttl)
  free-Seen s scope token now t a b = rw (
    get-set s now t (lock_key scope) (lock_key scope) token lock_ttl a,
    ==_refl (lock_key scope),
    lt→ltb t (now + lock_ttl) b,
  )

  -- An attempt takes a lock that is free. From then on, whatever workers with other tokens try
  -- and release, on this scope or another, in any order, the lock still carries its token at every
  -- later moment before it expires, and each attempt to take it then is refused.
  pub lock_exclusive :
      (s : State) (scope token : Text) (now stop t : ℕ) (acts : List (ℕ × Act)) (other : Text)
      → get s now (lock_key scope) ≡ none
      → Others token now stop acts
      → stop ≤ t
      → t < now + lock_ttl
      → let taken = try_lock R s now scope token in
        let later = run taken.0 acts in
        (taken.1 ≡ true)
        × (get later t (lock_key scope) ≡ some token)
        × (try_lock R later t scope other ≡ (later, false))
  unfolding try_lock
  lock_exclusive s scope token now stop t acts other free o h l =
      rw (set_nx_lem s now (lock_key scope) token lock_ttl, free)
        (let (last, le, seen) =
            run-Seen (set s now (lock_key scope) token lock_ttl) scope token now stop
              (now + lock_ttl) acts (omega arith) o (free-Seen s scope token now) in
          let mine = seen t (omega arith) l in
          (refl, mine, nx-taken _ t (lock_key scope) other token lock_ttl mine))

  -- The release script takes out the lock that carries its token and no other: after the holder's
  -- release the key is free, and with any other token the state of Redis stays as it is, so a
  -- worker whose lock expired cannot release the lock of its successor.
  pub release_script_own :
      (s : State) (now : ℕ) (key token holder : Text)
      → get s now key ≡ some holder
      → (token ≡ holder → (t : ℕ) → get (release_script R s now key token) t key ≡ none)
        × (token ≢ holder → release_script R s now key token ≡ s)
  unfolding release_script
  release_script_own s now key token holder h = (own, foreign)
    where
      own : token ≡ holder → (t : ℕ) → get (release_script R s now key token) t key ≡ none
      own e t =
          let hit = (==_iff (get s now key) (some token)).1 (h ∙ ap some (sym e)) in
          rw (hit, release_script) (rw (get-delete s t key key, ==_refl key))

      foreign : token ≢ holder → release_script R s now key token ≡ s
      foreign n = elim (Bool-cases (get s now key == some token)) [
        | inl e ↦
            absurd (n (some-injective _ _ (sym ((==_iff (get s now key) (some token)).0 e) ∙ h)))
        | inr e ↦ rw (e, release_script)
      ]
