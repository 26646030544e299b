-- ===== src/SessionStore/Evict.antt =====
-- src/session_store.py: how the in-memory stores are kept small, by age or by order of insertion.
pub mod Bound
use plaidify.Base.{
  ℕ, ◌+◌, ◌-◌, ◌≡◌, Bool, true, false, List, [], ◌∷◌, length, take, ltb, leb, if◌then◌else◌, nat_eq,
  ◌==◌, Option, none, some,
}
use plaidify.Base.Compare.{list_eq}
use plaidify.Base.Dict.{Dict, keys, erase_all, lookup}
use plaidify.Base.Text.{Text}

-- `sorted(d, key=...)`, which keeps the order of equal keys.
abbrev pub insert_by : (Text → ℕ) → Text → List Text → List Text
insert_by age k [] = k ∷ []
insert_by age k (j ∷ js) =
    let rest = insert_by age k js in if leb (age k) (age j) then k ∷ j ∷ js else j ∷ rest

abbrev pub sort_by : (Text → ℕ) → List Text → List Text
sort_by age [] = []
sort_by age (k ∷ ks) = insert_by age k (sort_by age ks)

module _ {V : Type 0} where
  -- The keys of the entries that a test selects.
  unfoldable pub selected : (V → Bool) → Dict Text V → List Text
  selected p [] = []
  selected p ((k, v) ∷ d) = let rest = selected p d in if p v then k ∷ rest else rest

  abbrev age_or : (V → ℕ) → Option V → ℕ
  age_or created none = 0
  age_or created (some v) = created v

  -- `_mem[k].get("created_at", 0)`
  abbrev pub age_of : (V → ℕ) → Dict Text V → Text → ℕ
  age_of created d k = age_or created (lookup k d)

  -- The second half of `_evict_expired_sessions`: over the limit the oldest go.
  unfoldable pub evict_oldest : (V → ℕ) → ℕ → Dict Text V → Dict Text V
  evict_oldest created limit d =
      if ltb limit (length d)
      then erase_all (take (length d - limit) (sort_by (age_of created d) (keys d))) d
      else d

  -- `_evict_expired_sessions` and `_evict_expired_link_launch_bootstraps`
  unfoldable pub evict_expired : (V → Bool) → (V → ℕ) → ℕ → Dict Text V → Dict Text V
  unfolding selected evict_oldest
  evict_expired expired created limit d =
      evict_oldest created limit (erase_all (selected expired d) d)

  -- `_evict_scopes_if_full`, `_evict_deliveries_if_full`: over the limit the first entries go.
  unfoldable pub evict_first : ℕ → Dict Text V → Dict Text V
  evict_first limit d =
      if ltb limit (length d) then erase_all (take (length d - limit) (keys d)) d else d
