-- ===== src/SelectorCache/Disk.antt =====
-- src/core/selector_cache.py: what is saved is loaded again.
use plaidify.Base.{
  ℕ, ◌≡◌, refl, ◌∙◌, true, [], ◌∷◌, Option, none, some, ◌==◌, ==_iff, nat_eq, Bool-cases, inl, inr,
}
use plaidify.Base.Compare.{list_eq}
use plaidify.Base.Dict.{Dict, lookup, insert, lookup-insert}
use plaidify.Base.Text.{Text}
use plaidify.Json.{to_dict-of_dict}
use plaidify.SessionStore.Evict.Bound.{Uniq}
use plaidify.SelectorCache.{
  CacheEntry, SelectorCache, entry_dict, from_dict, of_time, time, entries_dict, load_entries,
  save_to_disk, new_cache,
}

time_of : (t : Option ℕ) → time (some (of_time t)) ≡ t
time_of none = refl
time_of (some t) = refl

-- A cache entry that is turned into its dictionary and back is the same entry.
pub from_dict-entry_dict : (e : CacheEntry) → from_dict (entry_dict e) ≡ some e
unfolding from_dict entry_dict lookup
from_dict-entry_dict e =
    rw
      (
        time_of (CacheEntry.last_failure_at e),
        time_of (CacheEntry.last_success_at e),
        to_dict-of_dict (CacheEntry.selectors e),
      )
      refl

-- What a key maps to after entries are loaded into a store.
abbrev over : Option CacheEntry → Option CacheEntry → Option CacheEntry
over none other = other
over (some e) other = some e

lookup-load :
    (k : Text) (d acc : Dict Text CacheEntry)
    → Uniq d
    → lookup k (load_entries (entries_dict d) acc) ≡ over (lookup k d) (lookup k acc)
unfolding load_entries lookup
lookup-load k [] acc u = refl
lookup-load k ((j, e) ∷ d) acc u = rw (from_dict-entry_dict e) (
    lookup-load k d (insert j e acc) u.1
    ∙ rw (lookup-insert j k e acc) (elim (Bool-cases (j == k)) [
      | inl h ↦ rw (h, rw ((==_iff j k).0 h) at u.0) refl
      | inr h ↦ rw h refl
    ]))

over-none : (o : Option CacheEntry) → over o none ≡ o
over-none none = refl
over-none (some e) = refl

-- A cache that keeps a file finds, after it is saved and loaded by a new process, the same entry
-- under every key.
pub lookup-save_to_disk :
    (k : Text) (life : ℕ) (c : SelectorCache)
    → SelectorCache.persists c ≡ true
    → Uniq (SelectorCache.store c)
    → lookup k (SelectorCache.store (new_cache true life (SelectorCache.disk (save_to_disk c))))
      ≡ lookup k (SelectorCache.store c)
unfolding new_cache save_to_disk lookup
lookup-save_to_disk k life c h u =
    rw h (lookup-load k (SelectorCache.store c) [] u ∙ over-none (lookup k (SelectorCache.store c)))
