-- ===== src/SelectorCache/Tests.antt =====
-- Runs of src/core/selector_cache.py at concrete inputs.
use plaidify.Base.{
  if◌then◌else◌, ◌≡◌, ◌+◌, ◌*◌, refl, true, ◌&&◌, not, ltb, [], ◌∷◌, none, some, nat_eq,
}
use plaidify.Base.Compare.{list_eq}
use plaidify.Base.Dict.{lookup}
use plaidify.Base.Text.{Text, lit}
use plaidify.SelectorCache.{
  CacheEntry, SelectorCache, new_entry, put, get, max_failures, default_ttl, new_cache,
  save_to_disk,
}
use plaidify.SelectorCache.Disk.{lookup-save_to_disk}
use plaidify.SelectorCache.Failures.{failures, get-put, selectors_of}

abbrev same : Text → Text
same t = t

abbrev entry : CacheEntry
entry = new_entry same same same 1000 (lit "bank.com") (lit "/home") [] 90 default_ttl

abbrev one_entry : SelectorCache
one_entry = record {
  store = (lit "bank.com//home", entry) ∷ [];
  persists = true;
  default_life = default_ttl;
  disk = none;
}

lookup-save_to_disk_example :
    lookup
      (lit "bank.com//home")
      (SelectorCache.store (new_cache true 60 (SelectorCache.disk (save_to_disk one_entry))))
    ≡ lookup (lit "bank.com//home") (SelectorCache.store one_entry)
unfolding lookup
lookup-save_to_disk_example =
    lookup-save_to_disk (lit "bank.com//home") 60 one_entry refl (refl, tt)

get-put_example :
    selectors_of (
      get same same same 9000 (lit "bank.com") (lit "/bill") (
        failures same same same
          (lit "bank.com")
          (lit "/bill")
          (5000 ∷ 6000 ∷ [])
          (put same same same 4000 (lit "bank.com") (lit "/bill") [] 80 (some 60) one_entry)))
    ≡ (if not (ltb (4000 + 1000 * 60) 9000) && ltb (0 + 2) max_failures then some [] else none)
get-put_example =
    get-put same same same (lit "bank.com") (lit "/bill") 9000 4000 80 (5000 ∷ 6000 ∷ []) []
      (some 60) one_entry
