-- ===== src/Mfa/Fresh.antt =====
-- src/core/mfa_manager.py: no session is handed out after its life has passed.
use plaidify.Base.{
  ℕ, ◌-◌, ◌*◌, ◌≡◌, refl, ap, ◌∙◌, Bool, false, Option, none, some, ltb, arith, nat_eq, Bool-cases,
  Option-cases, inl, inr,
}
use mathlib.Core.Option.{none-ne-some}
use plaidify.Base.Compare.{list_eq}
use plaidify.Base.Dict.{Dict, lookup}
use plaidify.Base.Text.{Text, lit}
use plaidify.Json.{Value, null, bool, num, text, arr, obj, Codec}
use plaidify.Redis.{Redis}
use plaidify.Mfa.{
  MfaSession, expired, restored, payload_expired, number_of, ttl_of, Manager, get_session,
  local_session, read_payload,
}

later :
    (life now : ℕ) (v : Option Value)
    → ltb life (now - number_of 0 v) ≡ false
    → ltb life (now - number_of now v) ≡ false
later life now none h = ground arith
later life now (some null) h = ground arith
later life now (some (bool b)) h = ground arith
later life now (some (num n)) h = h
later life now (some (text t)) h = ground arith
later life now (some (arr vs)) h = ground arith
later life now (some (obj fs)) h = ground arith

restored-fresh :
    (now : ℕ) (p : Dict Text Value)
    → payload_expired now p ≡ false
    → expired now (restored now p) ≡ false
unfolding payload_expired restored
restored-fresh now p h = later (1000 * ttl_of p) now (lookup (lit "created_at") p) h

module _ (codec : Codec) (redis : Redis (Codec.Blob codec)) (configured : Bool) where
  local-fresh :
      (now : ℕ) (id : Text) (s : Manager codec redis configured) (m : MfaSession)
      → (local_session codec redis configured now id s).0 ≡ some m
      → expired now m ≡ false
  unfolding local_session
  local-fresh now id s m h = elim (Option-cases (lookup id (Manager.sessions s))) [
    | inl e ↦ absurd (none-ne-some m (rw e at h))
    | inr (w, e) ↦ elim (Bool-cases (expired now w)) [
      | inl x ↦ absurd (none-ne-some m (rw (e, x) at h))
      | inr x ↦ cc
    ]
  ]

  -- Whatever is in memory and in Redis, a session that `get_session` hands out has not expired.
  pub get_session-fresh :
      (now : ℕ) (id : Text) (s : Manager codec redis configured) (m : MfaSession)
      → (get_session codec redis configured now id s).0 ≡ some m
      → expired now m ≡ false
  unfolding get_session
  get_session-fresh now id s m h = from (local_session codec redis configured now id s) refl
    where
      from :
          (r : Option MfaSession × Manager codec redis configured)
          → local_session codec redis configured now id s ≡ r
          → expired now m ≡ false
      from (some w, s') e = local-fresh now id s m (ap (λ x. x.0) e ∙ (rw e at h))
      from (none, s') e =
          elim (Option-cases (read_payload codec redis configured now id (Manager.store s'))) [
            | inl f ↦ absurd (none-ne-some m (rw (e, f) at h))
            | inr (p, f) ↦ elim (Bool-cases (payload_expired now p)) [
              | inl x ↦ absurd (none-ne-some m (rw (e, f, x) at h))
              | inr x ↦ let same = rw (e, f, x) at h in let fresh = restored-fresh now p x in cc
            ]
          ]
