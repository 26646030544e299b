-- ===== src/AccessJobs/Scope.antt =====
-- src/access_jobs.py: `build_lock_scope`, the key under which two jobs exclude each other.
pub mod Injective
use plaidify.Base.{ℕ, ◌≤◌, ◌⊎◌, ◌≢◌, ◌≡◌, Option, none, some, List, [], ◌∷◌, ◌++◌, All, take}
use plaidify.Base.Text.{Text, lit, split_last}

abbrev pub NoColon : Text → Type 0
NoColon = All (λ c. c ≢ b':')

-- The digits that `str` and `hexdigest` write.
abbrev pub IsHex : ℕ → Type 0
IsHex c = ((b'0' ≤ c) × (c ≤ b'9')) ⊎ ((b'a' ≤ c) × (c ≤ b'f'))

-- `s.strip().lower()`, `str` of an integer, and the hexadecimal digest of SHA-256.
pub record Platform : Type 0 where
  pub strip_lower : Text → Text
  pub show_int : ℕ → Text
  pub sha256_hex : Text → Text
  pub strip_lower_idem : (t : Text) → strip_lower (strip_lower t) ≡ strip_lower t
  pub show_int_IsHex : (n : ℕ) → All IsHex (show_int n)
  pub show_int_injective : (m n : ℕ) → show_int m ≡ show_int n → m ≡ n
  pub digest_IsHex : (t : Text) → All IsHex (sha256_hex t)

unfoldable pub scope_hash : Platform → Text → Text → Text
scope_hash p principal_hint site =
    take 16 (p.sha256_hex (p.strip_lower site ++ (b':' ∷ p.strip_lower principal_hint)))

abbrev anonymous_scope : Text → Text
anonymous_scope site_key = lit "anonymous:site:" ++ site_key

-- An empty principal counts as none.
unfoldable pub build_lock_scope : Platform → Text → Option ℕ → Option Text → Text
unfolding scope_hash
build_lock_scope p site (some user_id) principal_hint =
    lit "user:" ++ (p.show_int user_id ++ (lit ":site:" ++ p.strip_lower site))
build_lock_scope p site none (some (c ∷ principal)) =
    lit "principal:"
    ++ (scope_hash p (c ∷ principal) (p.strip_lower site) ++ (lit ":site:" ++ p.strip_lower site))
build_lock_scope p site none (some []) = anonymous_scope (p.strip_lower site)
build_lock_scope p site none none = anonymous_scope (p.strip_lower site)

-- `scope.split(":site:")[-1]`, which a `ConcurrentAccessError` names.
unfoldable pub scope_site : Text → Text
unfolding split_last
scope_site scope = split_last (lit ":site:") 0 [] scope
