-- ===== src/SessionStore/Memory/Once.antt =====
-- src/session_store.py: what is kept for one use is handed out once, in the memory of a process.
use plaidify.Base.{
  ℕ, ◌+◌, ◌-◌, max, take, ==_iff, Option-cases, ◌≤◌, ◌≡◌, refl, ap, true, false, Option, none, some,
  List, [], ◌∷◌, length, arith, if◌then◌else◌, ◌==◌, ==_refl, nat_eq, Bool-cases, inl, inr,
}
use plaidify.Base.Compare.{list_eq}
use plaidify.Base.Dict.{
  Dict, keys, lookup, insert, erase_all, erase, lookup-insert, lookup-erase, length-insert-le,
}
use plaidify.Base.Text.{Text}
use plaidify.SessionStore.Evict.{evict_expired, evict_oldest, selected, sort_by, age_of}
use plaidify.SessionStore.Evict.Bound.{Uniq, evict_expired-le}
use plaidify.SessionStore.Memory.{
  Session, Bootstrap, create_link_session, is_expired, max_sessions, set_link_scopes,
  pop_link_scopes, evict_bootstraps, bootstrap_expired, max_bootstraps, store_link_launch_bootstrap,
  consume_link_launch_bootstrap,
}

-- Creating a link session in a store with each key once leaves at most one session more than the
-- limit, and the new one is found under its token.
pub create_link_session-length :
    (now : ℕ) (token : Text) (given : Session) (d : Dict Text Session)
    → Uniq d
    → length (create_link_session now token given d) ≤ max_sessions + 1
unfolding create_link_session
create_link_session-length now token given d u = omega (
  arith,
  evict_expired-le (is_expired now) _ max_sessions d u,
  length-insert-le token _ (evict_expired (is_expired now) _ max_sessions d),
)

-- The scopes that are set for a link token are popped once: a second pop finds none, whatever was
-- there before.
pub pop-set_link_scopes :
    (token scopes : Text) (d : Dict Text Text)
    → let d' = set_link_scopes token scopes d in
      let (first, rest) = pop_link_scopes token d' in
      (first ≡ some scopes) × ((pop_link_scopes token rest).0 ≡ none)
unfolding set_link_scopes pop_link_scopes
pop-set_link_scopes token scopes d =
    let d' = set_link_scopes token scopes d in
    (
      rw (lookup-insert token token scopes _, ==_refl token) refl,
      rw (lookup-erase token token d', ==_refl token) refl,
    )

-- A use of the bootstrap store at a time.
pub data Use : Type 0 where
  store : ℕ → Text → ℕ → Use
  consume : ℕ → Text → Use

-- The store after the uses, and how often an identifier was consumed.
unfoldable pub uses : Text → List Use → Dict Text Bootstrap → ℕ
unfolding store_link_launch_bootstrap consume_link_launch_bootstrap
uses k [] d = 0
uses k (store now j seconds ∷ us) d = uses k us (store_link_launch_bootstrap now j seconds d)
uses k (consume now j ∷ us) d =
    let (ok, d') = consume_link_launch_bootstrap now j d in
    (if j == k then (if ok then 1 else 0) else 0) + uses k us d'

-- How often an identifier is stored.
unfoldable pub stores_of : Text → List Use → ℕ
stores_of k [] = 0
stores_of k (store now j seconds ∷ us) = (if j == k then 1 else 0) + stores_of k us
stores_of k (consume now j ∷ us) = stores_of k us

-- 1 for an entry that can still be consumed.
abbrev pub left : Option Bootstrap → ℕ
left none = 0
left (some b) = if Bootstrap.consumed b then 0 else 1

left-erase_all :
    (k : Text) (ks : List Text) (d : Dict Text Bootstrap)
    → left (lookup k (erase_all ks d)) ≤ left (lookup k d)
unfolding erase_all
left-erase_all k [] d = omega arith
left-erase_all k (j ∷ ks) d = omega (arith, left-erase_all k ks (erase j d), step)
  where
    step : left (lookup k (erase j d)) ≤ left (lookup k d)
    step =
        rw (lookup-erase j k d)
          (elim (Bool-cases (j == k)) [ inl e ↦ rw e (omega arith) | inr e ↦ rw e (omega arith) ])

left-oldest :
    (k : Text) (created : Bootstrap → ℕ) (limit : ℕ) (d : Dict Text Bootstrap)
    → left (lookup k (evict_oldest created limit d)) ≤ left (lookup k d)
unfolding evict_oldest
left-oldest k created limit d =
    ground
      (arith, left-erase_all k (take (length d - limit) (sort_by (age_of created d) (keys d))) d)

left-evict :
    (k : Text) (now : ℕ) (d : Dict Text Bootstrap)
    → left (lookup k (evict_bootstraps now d)) ≤ left (lookup k d)
unfolding evict_bootstraps evict_expired
left-evict k now d =
    let gone = selected (bootstrap_expired now) d in
    omega (
      arith,
      left-oldest k Bootstrap.created max_bootstraps (erase_all gone d),
      left-erase_all k gone d,
    )

left-insert :
    (k j : Text) (b : Bootstrap) (d : Dict Text Bootstrap)
    → left (lookup k (insert j b d)) ≡ (if j == k then left (some b) else left (lookup k d))
left-insert k j b d =
    rw (lookup-insert j k b d)
      (elim (Bool-cases (j == k)) [ inl e ↦ rw e refl | inr e ↦ rw e refl ])

left-store :
    (k j : Text) (now seconds : ℕ) (d : Dict Text Bootstrap)
    → left (lookup k (store_link_launch_bootstrap now j seconds d))
      ≤ (if j == k then 1 else 0) + left (lookup k d)
unfolding store_link_launch_bootstrap
left-store k j now seconds d = ground (
  arith,
  left-evict k now d,
  left-insert k j (record { consumed = false; created = now; expires_in = max seconds 1 })
      (evict_bootstraps now d),
)

pub left-consume :
    (k j : Text) (now : ℕ) (d : Dict Text Bootstrap)
    → let (ok, d') = consume_link_launch_bootstrap now j d in
      (if j == k then (if ok then 1 else 0) else 0) + left (lookup k d') ≤ left (lookup k d)
unfolding consume_link_launch_bootstrap
left-consume k j now d = elim (Option-cases (lookup j (evict_bootstraps now d))) [
  | inl e ↦ rw e (ground (arith, left-evict k now d))
  | inr (b, e) ↦ rw e (
      ground (
        arith,
        left-evict k now d,
        left-insert k j (record b { consumed = true }) (evict_bootstraps now d),
        same b e,
        ==_iff j k,
      ))
]
  where
    same :
        (b : Bootstrap)
        → lookup j (evict_bootstraps now d) ≡ some b
        → (j == k) ≡ true
        → left (lookup k (evict_bootstraps now d)) ≡ left (some b)
    same b e h = rw ((==_iff j k).0 h) at (ap left e)

-- Over any sequence of uses a launch identifier is consumed at most as often as it is stored, and
-- once more if the store held it unconsumed before.
pub consumed_once :
    (k : Text) (us : List Use) (d : Dict Text Bootstrap)
    → uses k us d ≤ stores_of k us + left (lookup k d)
unfolding uses stores_of store_link_launch_bootstrap
consumed_once k [] d = omega arith
consumed_once k (store now j seconds ∷ us) d = omega (
  arith,
  left-store k j now seconds d,
  consumed_once k us (store_link_launch_bootstrap now j seconds d),
)
consumed_once k (consume now j ∷ us) d =
    omega
      (arith, left-consume k j now d, consumed_once k us (consume_link_launch_bootstrap now j d).1)
