-- ===== src/LinkSessions/Sanitize.antt =====
-- src/routers/link_sessions.py: `_sanitize_hosted_event_data`.
use plaidify.Base.{
  ◌≡◌, ◌↔◌, refl, subst, ap, ◌∙◌, Bool, true, false, Option, none, some, List, [], ◌∷◌,
  if◌then◌else◌, any, ◌==◌, ==_iff, nat_eq, Bool-cases, inl, inr,
}
use plaidify.Base.Compare.{list_eq}
use plaidify.Base.Dict.{lookup}
use plaidify.Base.Text.{Text, lit}
use plaidify.Json.{
  Value, Items, Fields, null, bool, num, text, arr, obj, nil, cons, end, field, to_dict,
}

-- `_HOSTED_EVENT_FORBIDDEN_KEYS`
abbrev pub forbidden_keys : List Text
forbidden_keys =
    lit "access_token"
    ∷ lit "accessToken"
    ∷ lit "password"
    ∷ lit "password_encrypted"
    ∷ lit "username_encrypted"
    ∷ lit "private_key"
    ∷ lit "secret"
    ∷ lit "result"
    ∷ lit "data"
    ∷ []

-- `key in _HOSTED_EVENT_FORBIDDEN_KEYS`
unfoldable pub is_forbidden : Text → Bool
is_forbidden key = any (λ k. k == key) forbidden_keys

unfoldable mutual
  -- `_sanitize_hosted_event_data`
  pub sanitize : Value → Value
  sanitize null = null
  sanitize (bool b) = bool b
  sanitize (num n) = num n
  sanitize (text t) = text t
  sanitize (arr vs) = arr (sanitize_items vs)
  sanitize (obj fs) = obj (sanitize_fields fs)

  pub sanitize_items : Items → Items
  sanitize_items nil = nil
  sanitize_items (cons v vs) = cons (sanitize v) (sanitize_items vs)

  pub sanitize_fields : Fields → Fields
  sanitize_fields end = end
  sanitize_fields (field k v fs) =
      let rest = sanitize_fields fs in
      let clean = sanitize v in if is_forbidden k then rest else field k clean rest

-- No forbidden key occurs in a value, at any depth.
unfoldable mutual
  pub IsClean : Value → Type 0
  IsClean (arr vs) = AreClean vs
  IsClean (obj fs) = HasClean fs
  IsClean _ = Unit

  pub AreClean : Items → Type 0
  AreClean nil = Unit
  AreClean (cons v vs) = IsClean v × AreClean vs

  pub HasClean : Fields → Type 0
  HasClean end = Unit
  HasClean (field k v fs) = (is_forbidden k ≡ false) × IsClean v × HasClean fs

mutual
  unfolding sanitize IsClean

  value_cleaned : (v : Value) → IsClean (sanitize v)
  value_cleaned null = tt
  value_cleaned (bool b) = tt
  value_cleaned (num n) = tt
  value_cleaned (text t) = tt
  value_cleaned (arr vs) = items_cleaned vs
  value_cleaned (obj fs) = fields_cleaned fs

  items_cleaned : (vs : Items) → AreClean (sanitize_items vs)
  items_cleaned nil = tt
  items_cleaned (cons v vs) = (value_cleaned v, items_cleaned vs)

  fields_cleaned : (fs : Fields) → HasClean (sanitize_fields fs)
  fields_cleaned end = tt
  fields_cleaned (field k v fs) = elim (Bool-cases (is_forbidden k)) [
    | inl e ↦ rw e (fields_cleaned fs)
    | inr e ↦ rw e (e, value_cleaned v, fields_cleaned fs)
  ]

mutual
  unfolding sanitize IsClean

  fixed_value : (v : Value) → IsClean v → sanitize v ≡ v
  fixed_value null h = refl
  fixed_value (bool b) h = refl
  fixed_value (num n) h = refl
  fixed_value (text t) h = refl
  fixed_value (arr vs) h = ap arr (fixed_items vs h)
  fixed_value (obj fs) h = ap obj (fixed_fields fs h)

  fixed_items : (vs : Items) → AreClean vs → sanitize_items vs ≡ vs
  fixed_items nil h = refl
  fixed_items (cons v vs) h = rw (fixed_value v h.0, fixed_items vs h.1) refl

  fixed_fields : (fs : Fields) → HasClean fs → sanitize_fields fs ≡ fs
  fixed_fields end h = refl
  fixed_fields (field k v fs) h = rw (h.0, fixed_value v h.1, fixed_fields fs h.2) refl

abbrev sanitized : Option Value → Option Value
sanitized none = none
sanitized (some v) = some (sanitize v)

lookup-sanitize_fields :
    (k : Text) (fs : Fields)
    → lookup k (to_dict (sanitize_fields fs))
      ≡ (if is_forbidden k then none else sanitized (lookup k (to_dict fs)))
unfolding sanitize lookup
lookup-sanitize_fields k end = elim (Bool-cases (is_forbidden k)) [
  | inl e ↦ rw e refl
  | inr e ↦ rw e refl
]
lookup-sanitize_fields k (field j v fs) = elim (Bool-cases (is_forbidden j)) [
  | inl e ↦ elim (Bool-cases (j == k)) [
    | inl f ↦
        let forbidden = subst (λ t. is_forbidden t ≡ true) ((==_iff j k).0 f) e in
        rw (e, f, forbidden) (lookup-sanitize_fields k fs ∙ rw forbidden refl)
    | inr f ↦ rw (e, f) (lookup-sanitize_fields k fs)
  ]
  | inr e ↦ elim (Bool-cases (j == k)) [
    | inl f ↦
        let allowed = subst (λ t. is_forbidden t ≡ false) ((==_iff j k).0 f) e in
        rw (e, f, allowed) refl
    | inr f ↦ rw (e, f) (lookup-sanitize_fields k fs)
  ]
]

-- What `_sanitize_hosted_event_data` returns has no forbidden key at any depth, and a value is
-- returned unchanged exactly when it had none. A dictionary keeps each key that is not forbidden, with
-- the sanitized value.
pub sanitize-IsClean :
    (v : Value)
    → IsClean (sanitize v)
      × ((sanitize v ≡ v) ↔ IsClean v)
      × ((fs : Fields) (k : Text)
          → v ≡ obj fs
          → lookup k (to_dict (sanitize_fields fs))
            ≡ (if is_forbidden k then none else sanitized (lookup k (to_dict fs))))
sanitize-IsClean v = (
  value_cleaned v,
  (λ e. subst IsClean e (value_cleaned v), fixed_value v),
  λ fs k e. lookup-sanitize_fields k fs,
)
