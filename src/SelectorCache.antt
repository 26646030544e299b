-- ===== src/SelectorCache.antt =====
-- src/core/selector_cache.py: `CacheEntry` and `SelectorCache`. Times count milliseconds, lives
-- seconds. Case conversion, stripping and the hash of a key are parameters; the file is the dictionary
-- that is written to it as JSON.
pub mod Disk
pub mod Failures
mod Tests
use plaidify.Base.{
  ℕ, zero, suc, ◌+◌, ◌*◌, Bool, true, false, ◌&&◌, not, List, [], ◌∷◌, ◌++◌, length, filterb, ltb,
  leb, Option, none, some, ◌==◌, nat_eq, if◌then◌else◌,
}
use plaidify.Base.Compare.{list_eq}
use plaidify.Base.Dict.{Dict, lookup, insert, erase, erase_all, values}
use plaidify.Base.Text.{Text, lit}
use plaidify.Json.{Value, null, num, text, obj, to_dict, of_dict}
use plaidify.SessionStore.Evict.{selected}

-- `DEFAULT_TTL` and `MAX_FAILURES`
abbrev pub default_ttl : ℕ
default_ttl = 604800

abbrev pub max_failures : ℕ
max_failures = 3

pub record CacheEntry : Type 0 where
  pub domain : Text
  pub page_path : Text
  pub selectors : Dict Text Value
  pub confidence : ℕ
  pub created_at : ℕ
  pub ttl : ℕ
  pub failure_count : ℕ
  pub last_failure_at : Option ℕ
  pub last_success_at : Option ℕ
  pub hit_count : ℕ

abbrev pub is_expired : ℕ → CacheEntry → Bool
is_expired now e = ltb (CacheEntry.created_at e + 1000 * CacheEntry.ttl e) now

abbrev pub is_invalidated : CacheEntry → Bool
is_invalidated e = leb max_failures (CacheEntry.failure_count e)

unfoldable pub is_usable : ℕ → CacheEntry → Bool
is_usable now e = not (is_expired now e) && not (is_invalidated e)

-- `CacheEntry.record_success` and `CacheEntry.record_failure`
abbrev pub entry_success : ℕ → CacheEntry → CacheEntry
entry_success now e = record e {
  failure_count = 0;
  last_success_at = some now;
  hit_count = CacheEntry.hit_count e + 1;
}

abbrev pub entry_failure : ℕ → CacheEntry → CacheEntry
entry_failure now e = record e {
  failure_count = CacheEntry.failure_count e + 1;
  last_failure_at = some now;
}

abbrev pub of_time : Option ℕ → Value
of_time none = null
of_time (some t) = num t

-- The dictionary of an entry.
unfoldable pub entry_dict : CacheEntry → Dict Text Value
entry_dict e =
    (lit "domain", text (CacheEntry.domain e))
    ∷ (lit "page_path", text (CacheEntry.page_path e))
    ∷ (lit "selectors", obj (of_dict (CacheEntry.selectors e)))
    ∷ (lit "confidence", num (CacheEntry.confidence e))
    ∷ (lit "created_at", num (CacheEntry.created_at e))
    ∷ (lit "ttl", num (CacheEntry.ttl e))
    ∷ (lit "failure_count", num (CacheEntry.failure_count e))
    ∷ (lit "last_failure_at", of_time (CacheEntry.last_failure_at e))
    ∷ (lit "last_success_at", of_time (CacheEntry.last_success_at e))
    ∷ (lit "hit_count", num (CacheEntry.hit_count e))
    ∷ []

-- `data.get(key, default)` and `data.get(key)` for numbers; the program writes nothing else there.
abbrev pub number : ℕ → Option Value → ℕ
number d (some (num n)) = n
number d _ = d

abbrev pub time : Option Value → Option ℕ
time (some (num n)) = some n
time _ = none

-- `none` is the `KeyError` for one of the four keys that have no default; the program writes no values
-- of other types there.
unfoldable pub from_dict : Dict Text Value → Option CacheEntry
from_dict d =
    needed (lookup (lit "domain") d) (lookup (lit "page_path") d) (lookup (lit "selectors") d)
      (lookup (lit "created_at") d)
  where
    needed : Option Value → Option Value → Option Value → Option Value → Option CacheEntry
    needed (some (text domain)) (some (text path)) (some (obj fs)) (some (num created)) =
        some record {
          domain = domain;
          page_path = path;
          selectors = to_dict fs;
          confidence = number 0 (lookup (lit "confidence") d);
          created_at = created;
          ttl = number default_ttl (lookup (lit "ttl") d);
          failure_count = number 0 (lookup (lit "failure_count") d);
          last_failure_at = time (lookup (lit "last_failure_at") d);
          last_success_at = time (lookup (lit "last_success_at") d);
          hit_count = number 0 (lookup (lit "hit_count") d);
        }
    needed _ _ _ _ = none

-- What is in the file: JSON of dictionaries of entries, or text that `json.loads` refuses. The program
-- writes the first alone.
pub data Contents : Type 0 where
  no_json : Contents
  document : Dict Text (Dict Text Value) → Contents

-- The cache: whether it has a file, and what is in the file.
pub record SelectorCache : Type 0 where
  pub store : Dict Text CacheEntry
  pub persists : Bool
  pub default_life : ℕ
  pub disk : Option Contents

abbrev pub entries_dict : Dict Text CacheEntry → Dict Text (Dict Text Value)
entries_dict [] = []
entries_dict ((k, e) ∷ d) = (k, entry_dict e) ∷ entries_dict d

unfoldable pub save_to_disk : SelectorCache → SelectorCache
save_to_disk c =
    if SelectorCache.persists c
    then record c { disk = some (document (entries_dict (SelectorCache.store c))) }
    else c

-- The loop of `_load_from_disk`: a `KeyError` ends it, and what was read before it stays.
unfoldable pub load_entries :
    Dict Text (Dict Text Value) → Dict Text CacheEntry → Dict Text CacheEntry
load_entries [] store = store
load_entries ((k, d) ∷ ds) store = go (λ e. load_entries ds (insert k e store)) (from_dict d)
  where
    go : (CacheEntry → Dict Text CacheEntry) → Option CacheEntry → Dict Text CacheEntry
    go rest none = store
    go rest (some e) = rest e

-- What `_load_from_disk` reads: nothing where the file is missing or a `JSONDecodeError` is caught.
abbrev pub file_entries : Option Contents → Dict Text (Dict Text Value)
file_entries none = []
file_entries (some no_json) = []
file_entries (some (document d)) = d

-- `SelectorCache.__init__` and `_load_from_disk`
unfoldable pub new_cache : Bool → ℕ → Option Contents → SelectorCache
new_cache persists life disk = record {
  store = if persists then load_entries (file_entries disk) [] else [];
  persists = persists;
  default_life = life;
  disk = disk;
}

module _ (clean strip_slashes hash : Text → Text) where
  unfoldable pub make_cache_key : Text → Text → Text
  make_cache_key domain path = hash (clean domain ++ lit "/" ++ strip_slashes path)

  unfoldable pub get : ℕ → Text → Text → SelectorCache → Option CacheEntry
  get now domain path c = found (lookup (make_cache_key domain path) (SelectorCache.store c))
    where
      found : Option CacheEntry → Option CacheEntry
      found none = none
      found (some e) = if is_usable now e then some e else none

  -- `ttl or self._default_ttl`
  abbrev pub life_or : Option ℕ → ℕ → ℕ
  life_or (some (suc n)) d = suc n
  life_or _ d = d

  abbrev pub new_entry : ℕ → Text → Text → Dict Text Value → ℕ → ℕ → CacheEntry
  new_entry now domain path selectors confidence life = record {
    domain = clean domain;
    page_path = path;
    selectors = selectors;
    confidence = confidence;
    created_at = now;
    ttl = life;
    failure_count = 0;
    last_failure_at = none;
    last_success_at = none;
    hit_count = 0;
  }

  unfoldable pub put :
      ℕ → Text → Text → Dict Text Value → ℕ → Option ℕ → SelectorCache → SelectorCache
  unfolding save_to_disk
  put now domain path selectors confidence ttl c =
      let life = life_or ttl (SelectorCache.default_life c) in
      save_to_disk (record c {
        store =
            insert (make_cache_key domain path)
              (new_entry now domain path selectors confidence life) (SelectorCache.store c);
      })

  abbrev pub recording : (CacheEntry → CacheEntry) → Text → Text → SelectorCache → SelectorCache
  recording change domain path c =
      found (lookup (make_cache_key domain path) (SelectorCache.store c))
    where
      found : Option CacheEntry → SelectorCache
      found none = c
      found (some e) = save_to_disk (record c {
        store = insert (make_cache_key domain path) (change e) (SelectorCache.store c);
      })

  unfoldable pub record_success : ℕ → Text → Text → SelectorCache → SelectorCache
  record_success now = recording (entry_success now)

  unfoldable pub record_failure : ℕ → Text → Text → SelectorCache → SelectorCache
  record_failure now = recording (entry_failure now)

  unfoldable pub invalidate : Text → Text → SelectorCache → Bool × SelectorCache
  invalidate domain path c = found (lookup (make_cache_key domain path) (SelectorCache.store c))
    where
      found : Option CacheEntry → Bool × SelectorCache
      found none = (false, c)
      found (some e) = (
        true,
        save_to_disk
            (record c { store = erase (make_cache_key domain path) (SelectorCache.store c) }),
      )

  unfoldable pub invalidate_domain : Text → SelectorCache → ℕ × SelectorCache
  invalidate_domain domain c =
      removed (selected (λ e. CacheEntry.domain e == clean domain) (SelectorCache.store c))
    where
      removed : List Text → ℕ × SelectorCache
      removed [] = (0, c)
      removed (k ∷ ks) = (
        length (k ∷ ks),
        save_to_disk (record c { store = erase_all (k ∷ ks) (SelectorCache.store c) }),
      )

unfoldable pub clear : SelectorCache → SelectorCache
clear c = save_to_disk (record c { store = [] })

unfoldable pub usable_count : ℕ → SelectorCache → ℕ
usable_count now c = length (filterb (λ e. is_usable now e) (values (SelectorCache.store c)))
