-- ===== src/SelectorCache/Failures.antt =====
-- src/core/selector_cache.py: after how many failures selectors are used no more.
use plaidify.Base.{
  ℕ, suc, ◌+◌, ◌*◌, ◌≡◌, refl, ap, Bool, true, false, ◌&&◌, not, List, [], ◌∷◌, length, Option,
  none, some, if◌then◌else◌, ltb, ==_refl, nat_eq, arith,
}
use plaidify.Base.Compare.{list_eq}
use plaidify.Base.Dict.{Dict, lookup, insert, lookup-insert}
use plaidify.Base.Text.{Text}
use plaidify.Json.{Value}
use plaidify.SelectorCache.{
  CacheEntry, SelectorCache, is_usable, entry_failure, save_to_disk, make_cache_key, get, put,
  new_entry, record_failure, max_failures, life_or,
}

store-save : (c : SelectorCache) → SelectorCache.store (save_to_disk c) ≡ SelectorCache.store c
unfolding save_to_disk
store-save c = ground arith

abbrev pub selectors_of : Option CacheEntry → Option (Dict Text Value)
selectors_of none = none
selectors_of (some e) = some (CacheEntry.selectors e)

module _ (clean strip_slashes hash : Text → Text) (domain path : Text) where
  abbrev key : Text
  key = make_cache_key clean strip_slashes hash domain path

  -- Failures at the given times.
  unfoldable pub failures : List ℕ → SelectorCache → SelectorCache
  failures [] c = c
  failures (t ∷ ts) c = failures ts (record_failure clean strip_slashes hash t domain path c)

  Holds : Dict Text Value → SelectorCache → ℕ → ℕ → ℕ → Type 0
  Holds selectors c created life count =
      (e : CacheEntry) × ((lookup key (SelectorCache.store c) ≡ some e)
        × ((CacheEntry.created_at e ≡ created)
            × ((CacheEntry.ttl e ≡ life)
                × ((CacheEntry.failure_count e ≡ count) × (CacheEntry.selectors e ≡ selectors)))))

  failure-Holds :
      (t created life count : ℕ) (selectors : Dict Text Value) (c : SelectorCache)
      → Holds selectors c created life count
      → Holds selectors
          (record_failure clean strip_slashes hash t domain path c)
          created
          life
          (count + 1)
  unfolding record_failure Holds
  failure-Holds t created life count selectors c (e, (there, (a, (b, (n, same))))) = (
    entry_failure t e,
    (
      rw
          (
            there,
            store-save
                (record c { store = insert key (entry_failure t e) (SelectorCache.store c) }),
            lookup-insert key key (entry_failure t e) (SelectorCache.store c),
            ==_refl key,
          )
          refl,
      (a, (b, (ap (λ k. k + 1) n, same))),
    ),
  )

  failures-Holds :
      (ts : List ℕ) (created life count : ℕ) (selectors : Dict Text Value) (c : SelectorCache)
      → Holds selectors c created life count
      → Holds selectors (failures ts c) created life (count + length ts)
  unfolding failures
  failures-Holds [] created life count selectors c h = rw (plus_zero count) h
    where
      plus_zero : (n : ℕ) → n + 0 ≡ n
      plus_zero n = omega arith
  failures-Holds (t ∷ ts) created life count selectors c h = rw (shift count (length ts)) (
      failures-Holds ts created life (count + 1) selectors
        (record_failure clean strip_slashes hash t domain path c)
        (failure-Holds t created life count selectors c h))
    where
      shift : (a b : ℕ) → a + suc b ≡ (a + 1) + b
      shift a b = omega arith

  put-Holds :
      (now confidence : ℕ) (selectors : Dict Text Value) (ttl : Option ℕ) (c : SelectorCache)
      → Holds selectors
          (put clean strip_slashes hash now domain path selectors confidence ttl c)
          now
          (life_or clean strip_slashes hash ttl (SelectorCache.default_life c))
          0
  unfolding put Holds
  put-Holds now confidence selectors ttl c =
      let e =
        new_entry clean strip_slashes hash now domain path selectors confidence
          (life_or clean strip_slashes hash ttl (SelectorCache.default_life c)) in
      (
        e,
        (
          rw
              (
                store-save (record c { store = insert key e (SelectorCache.store c) }),
                lookup-insert key key e (SelectorCache.store c),
                ==_refl key,
              )
              refl,
          (refl, (refl, (refl, refl))),
        ),
      )

  got :
      (now created life count : ℕ) (selectors : Dict Text Value) (c : SelectorCache)
      → Holds selectors c created life count
      → selectors_of (get clean strip_slashes hash now domain path c) ≡ (
          if not (ltb (created + 1000 * life) now) && ltb count max_failures
          then some selectors
          else none)
  unfolding get is_usable Holds
  got now created life count selectors c (e, (there, (a, (b, (n, same))))) =
      rw (there, usable) (by_use (not (ltb (created + 1000 * life) now) && ltb count max_failures))
    where
      usable : is_usable now e ≡ (not (ltb (created + 1000 * life) now) && ltb count max_failures)
      usable = ground arith

      by_use :
          (b : Bool)
          → selectors_of (if b then some e else none) ≡ (if b then some selectors else none)
      by_use true = ap some same
      by_use false = refl

  -- Selectors that were put into the cache are what is found again, whatever was there before, exactly
  -- until their life has passed or three failures were recorded; from then on nothing is found.
  pub get-put :
      (now t confidence : ℕ) (ts : List ℕ) (selectors : Dict Text Value) (ttl : Option ℕ)
      (c : SelectorCache)
      → let life = life_or clean strip_slashes hash ttl (SelectorCache.default_life c) in
        selectors_of (
          get clean strip_slashes hash now domain path
            (failures ts (put clean strip_slashes hash t domain path selectors confidence ttl c)))
        ≡ (if not (ltb (t + 1000 * life) now) && ltb (0 + length ts) max_failures
            then some selectors
            else none)
  get-put now t confidence ts selectors ttl c =
      got now t (life_or clean strip_slashes hash ttl (SelectorCache.default_life c))
        (0 + length ts) selectors _
        (failures-Holds ts t _ 0 selectors _ (put-Holds t confidence selectors ttl c))
