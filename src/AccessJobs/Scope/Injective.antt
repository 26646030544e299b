-- ===== src/AccessJobs/Scope/Injective.antt =====
-- src/access_jobs.py: which requests share a lock scope.
use mathlib.Core.Path.{ap₂}
use mathlib.Core.List.{append_assoc, append-nil}
use plaidify.Base.{
  ℕ, ◌≢◌, ◌≡◌, refl, sym, ap, ◌∙◌, ◌↔◌, inl, inr, Option, none, some, [], ◌∷◌, ◌++◌, All, take,
  arith, nat_eqb, false, All-take,
}
use plaidify.Base.Text.{Text, lit, split_last, starts_with}
use plaidify.AccessJobs.Scope.{Platform, NoColon, IsHex, build_lock_scope, scope_hash, scope_site}

-- What a scope names as the owner: a user, a hash of a principal, or nobody in particular.
pub data Owner : Type 0 where
  user : ℕ → Owner
  principal : Text → Owner
  anonymous : Owner

-- The owner that the arguments stand for: a user id goes before a principal.
abbrev pub owner_of : Platform → Text → Option ℕ → Option Text → Owner
owner_of p site (some user_id) hint = user user_id
owner_of p site none (some (c ∷ t)) = principal (scope_hash p (c ∷ t) (p.strip_lower site))
owner_of p site none (some []) = anonymous
owner_of p site none none = anonymous

split_at_colon :
    (xs ys s t : Text)
    → NoColon xs
    → NoColon ys
    → xs ++ (b':' ∷ s) ≡ ys ++ (b':' ∷ t)
    → (xs ≡ ys) × (s ≡ t)
split_at_colon [] [] s t hx hy e = (refl, cc)
split_at_colon [] (y ∷ ys) s t hx hy e = absurd (hy.0 (cc))
split_at_colon (x ∷ xs) [] s t hx hy e = absurd (hx.0 (cc))
split_at_colon (x ∷ xs) (y ∷ ys) s t hx hy e =
    let (a, b) = split_at_colon xs ys s t hx.1 hy.1 (cc) in (cc, b)

site_tail : (s t : Text) → lit "site:" ++ s ≡ lit "site:" ++ t → s ≡ t
site_tail s t e = cc

scope_hash-IsHex : (p : Platform) (hint site : Text) → All IsHex (scope_hash p hint site)
unfolding scope_hash
scope_hash-IsHex p hint site = All-take IsHex 16 _ (p.digest_IsHex _)

hex-NoColon : (t : Text) → All IsHex t → NoColon t
hex-NoColon [] h = tt
hex-NoColon (c ∷ t) h = (λ e. omega (arith, h.0), hex-NoColon t h.1)

scope_text : Platform → Owner → Text → Text
scope_text p (user n) key = lit "user:" ++ (p.show_int n ++ (lit ":site:" ++ key))
scope_text p (principal h) key = lit "principal:" ++ (h ++ (lit ":site:" ++ key))
scope_text p anonymous key = lit "anonymous:site:" ++ key

build-scope_text :
    (p : Platform) (site : Text) (u : Option ℕ) (h : Option Text)
    → build_lock_scope p site u h ≡ scope_text p (owner_of p site u h) (p.strip_lower site)
unfolding build_lock_scope scope_text
build-scope_text p site (some n) h = refl
build-scope_text p site none (some (c ∷ t)) = refl
build-scope_text p site none (some []) = refl
build-scope_text p site none none = refl

-- A principal's hash is written in hexadecimal digits.
IsClean : Owner → Type 0
IsClean (user n) = Unit
IsClean (principal h) = All IsHex h
IsClean anonymous = Unit

owner_of-IsClean :
    (p : Platform) (site : Text) (u : Option ℕ) (h : Option Text) → IsClean (owner_of p site u h)
unfolding IsClean
owner_of-IsClean p site (some n) h = tt
owner_of-IsClean p site none (some (c ∷ t)) = scope_hash-IsHex p (c ∷ t) (p.strip_lower site)
owner_of-IsClean p site none (some []) = tt
owner_of-IsClean p site none none = tt

apart : (a b : ℕ) {s t : Text} → a ≢ b → a ∷ s ≡ b ∷ t → ⊥
apart a b n e = n (cc)

scope_text-injective :
    (p : Platform) (o o' : Owner) (k k' : Text)
    → IsClean o
    → IsClean o'
    → scope_text p o k ≡ scope_text p o' k'
    → (o ≡ o') × (k ≡ k')
unfolding scope_text IsClean
scope_text-injective p (user m) (user n) k k' c c' e =
    let (a, b) =
      split_at_colon _ _ _ _ (hex-NoColon _ (p.show_int_IsHex m))
        (hex-NoColon _ (p.show_int_IsHex n)) (cc) in
    (ap user (p.show_int_injective m n a), site_tail k k' b)
scope_text-injective p (principal g) (principal h) k k' c c' e =
    let (a, b) = split_at_colon g h _ _ (hex-NoColon g c) (hex-NoColon h c') (cc) in
    (ap principal a, site_tail k k' b)
scope_text-injective p anonymous anonymous k k' c c' e = (refl, cc)
scope_text-injective p (user m) (principal h) k k' c c' e = absurd (apart b'u' b'p' (omega arith) e)
scope_text-injective p (user m) anonymous k k' c c' e = absurd (apart b'u' b'a' (omega arith) e)
scope_text-injective p (principal g) (user n) k k' c c' e = absurd (apart b'p' b'u' (omega arith) e)
scope_text-injective p (principal g) anonymous k k' c c' e =
    absurd (apart b'p' b'a' (omega arith) e)
scope_text-injective p anonymous (user n) k k' c c' e = absurd (apart b'a' b'u' (omega arith) e)
scope_text-injective p anonymous (principal h) k k' c c' e =
    absurd (apart b'a' b'p' (omega arith) e)

same_owner :
    (p : Platform) (site site' : Text) (u u' : Option ℕ) (h h' : Option Text)
    → (build_lock_scope p site u h ≡ build_lock_scope p site' u' h') ↔ (
        (owner_of p site u h ≡ owner_of p site' u' h') × (p.strip_lower site ≡ p.strip_lower site'))
same_owner p site site' u u' h h' = (there, back)
  where
    there :
        build_lock_scope p site u h ≡ build_lock_scope p site' u' h'
        → (owner_of p site u h ≡ owner_of p site' u' h')
          × (p.strip_lower site ≡ p.strip_lower site')
    there e =
        scope_text-injective p _ _ _ _ (owner_of-IsClean p site u h)
          (owner_of-IsClean p site' u' h')
          (sym (build-scope_text p site u h) ∙ e ∙ build-scope_text p site' u' h')

    back :
        (owner_of p site u h ≡ owner_of p site' u' h') × (p.strip_lower site ≡ p.strip_lower site')
        → build_lock_scope p site u h ≡ build_lock_scope p site' u' h'
    back (o, k) =
        build-scope_text p site u h ∙ ap₂ (scope_text p) o k ∙ sym (build-scope_text p site' u' h')

-- Who asks: a user, else a principal, up to case and outer blanks, else nobody in particular.
pub data Identity : Type 0 where
  is_user : ℕ → Identity
  is_principal : Text → Identity
  is_nobody : Identity

abbrev pub identity_of : Platform → Option ℕ → Option Text → Identity
identity_of p (some user_id) hint = is_user user_id
identity_of p none (some (c ∷ t)) = is_principal (p.strip_lower (c ∷ t))
identity_of p none (some []) = is_nobody
identity_of p none none = is_nobody

-- The text whose digest stands for a principal at a site.
abbrev pub digested : Platform → Text → Option Text → Text
digested p site none = p.strip_lower site
digested p site (some hint) = p.strip_lower site ++ (b':' ∷ p.strip_lower hint)

-- The first 16 digits of the digest tell the two texts apart.
abbrev pub AreTold : Platform → Text → Text → Type 0
AreTold p s t = take 16 (p.sha256_hex s) ≡ take 16 (p.sha256_hex t) → s ≡ t

append_cancel : (xs s t : Text) → xs ++ s ≡ xs ++ t → s ≡ t
append_cancel [] s t e = e
append_cancel (x ∷ xs) s t e = append_cancel xs s t (cc)

owner-identity :
    (p : Platform) (site site' : Text) (u u' : Option ℕ) (h h' : Option Text)
    → AreTold p (digested p site h) (digested p site' h')
    → p.strip_lower site ≡ p.strip_lower site'
    → owner_of p site u h ≡ owner_of p site' u' h'
    → identity_of p u h ≡ identity_of p u' h'
unfolding scope_hash
owner-identity p site site' (some m) (some n) h h' told k e = cc
owner-identity p site site' (some m) none h none told k e = absurd cc
owner-identity p site site' (some m) none h (some []) told k e = absurd cc
owner-identity p site site' (some m) none h (some (c ∷ t)) told k e = absurd cc
owner-identity p site site' none (some n) none h' told k e = absurd cc
owner-identity p site site' none (some n) (some []) h' told k e = absurd cc
owner-identity p site site' none (some n) (some (c ∷ t)) h' told k e = absurd cc
owner-identity p site site' none none none none told k e = refl
owner-identity p site site' none none none (some []) told k e = refl
owner-identity p site site' none none none (some (d ∷ t')) told k e = absurd cc
owner-identity p site site' none none (some []) none told k e = refl
owner-identity p site site' none none (some []) (some []) told k e = refl
owner-identity p site site' none none (some []) (some (d ∷ t')) told k e = absurd cc
owner-identity p site site' none none (some (c ∷ t)) none told k e = absurd cc
owner-identity p site site' none none (some (c ∷ t)) (some []) told k e = absurd cc
owner-identity p site site' none none (some (c ∷ t)) (some (d ∷ t')) told k e =
    let same : scope_hash p (c ∷ t) (p.strip_lower site)
        ≡ scope_hash p (d ∷ t') (p.strip_lower site') =
      cc in
    let same' = rw (p.strip_lower_idem site, p.strip_lower_idem site') at same in
    let joined = rw (sym k) at (told same') in
    let tails =
      append_cancel (p.strip_lower site) (b':' ∷ p.strip_lower (c ∷ t))
        (b':' ∷ p.strip_lower (d ∷ t')) joined in
    cc

identity-owner :
    (p : Platform) (site site' : Text) (u u' : Option ℕ) (h h' : Option Text)
    → p.strip_lower site ≡ p.strip_lower site'
    → identity_of p u h ≡ identity_of p u' h'
    → owner_of p site u h ≡ owner_of p site' u' h'
unfolding scope_hash
identity-owner p site site' (some m) (some n) h h' k e = cc
identity-owner p site site' (some m) none h none k e = absurd cc
identity-owner p site site' (some m) none h (some []) k e = absurd cc
identity-owner p site site' (some m) none h (some (c ∷ t)) k e = absurd cc
identity-owner p site site' none (some n) none h' k e = absurd cc
identity-owner p site site' none (some n) (some []) h' k e = absurd cc
identity-owner p site site' none (some n) (some (c ∷ t)) h' k e = absurd cc
identity-owner p site site' none none none none k e = refl
identity-owner p site site' none none none (some []) k e = refl
identity-owner p site site' none none none (some (d ∷ t')) k e = absurd cc
identity-owner p site site' none none (some []) none k e = refl
identity-owner p site site' none none (some []) (some []) k e = refl
identity-owner p site site' none none (some []) (some (d ∷ t')) k e = absurd cc
identity-owner p site site' none none (some (c ∷ t)) none k e = absurd cc
identity-owner p site site' none none (some (c ∷ t)) (some []) k e = absurd cc
identity-owner p site site' none none (some (c ∷ t)) (some (d ∷ t')) k e =
    let hints : p.strip_lower (c ∷ t) ≡ p.strip_lower (d ∷ t') = cc in
    ap₂ (λ s h. principal (take 16 (p.sha256_hex (p.strip_lower s ++ (b':' ∷ h))))) k hints

-- Where the digest, cut off after 16 digits, tells the two requests' texts apart, they have the same
-- lock scope exactly when the same user asks, or the same principal, up to case and outer blanks, or
-- nobody in particular both times, for the same site, up to case and outer blanks.
pub build_lock_scope_injective :
    (p : Platform) (site site' : Text) (u u' : Option ℕ) (h h' : Option Text)
    → AreTold p (digested p site h) (digested p site' h')
    → (build_lock_scope p site u h ≡ build_lock_scope p site' u' h')
      ↔ ((identity_of p u h ≡ identity_of p u' h') × (p.strip_lower site ≡ p.strip_lower site'))
build_lock_scope_injective p site site' u u' h h' told = (
  λ e.
      let (o, k) = (same_owner p site site' u u' h h').0 e in
      (owner-identity p site site' u u' h h' told k o, k),
  λ (i, k). (same_owner p site site' u u' h h').1 (identity-owner p site site' u u' h h' k i, k),
)

-- Reading on over a text without colons.
split_last_plain :
    (part xs rest : Text)
    → NoColon xs
    → split_last (lit ":site:") 0 part (xs ++ rest) ≡ split_last (lit ":site:") 0 (part ++ xs) rest
unfolding split_last
split_last_plain part [] rest h = rw (append-nil part)
split_last_plain part (x ∷ xs) rest h =
    let q : nat_eqb b':' x ≡ false = ground arith in
    rw q (rw (← append_assoc part (x ∷ []) xs) (split_last_plain (part ++ x ∷ []) xs rest h.1))

split_last_key : (key : Text) → NoColon key → split_last (lit ":site:") 0 [] key ≡ key
unfolding split_last
split_last_key key h =
    ap (split_last (lit ":site:") 0 []) (sym (append-nil key)) ∙ split_last_plain [] key [] h

split_last_site :
    (part key : Text) → NoColon key → split_last (lit ":site:") 0 part (lit ":site:" ++ key) ≡ key
unfolding split_last
split_last_site part key h = split_last_key key h

not_separator :
    (h rest : Text) → All IsHex h → starts_with (lit "site:") (h ++ (b':' ∷ rest)) ≡ false
not_separator [] rest x = refl
not_separator (c ∷ h) rest x = let q : nat_eqb b's' c ≡ false = not_s c x.0 in rw q
  where
    not_s : (c : ℕ) → IsHex c → nat_eqb b's' c ≡ false
    not_s c (inl d) = ground arith
    not_s c (inr d) = ground arith

split_last_hex :
    (part h key : Text)
    → All IsHex h
    → NoColon key
    → split_last (lit ":site:") 0 part (b':' ∷ (h ++ (lit ":site:" ++ key))) ≡ key
unfolding split_last
split_last_hex part h key x plain = rw (not_separator h (lit "site:" ++ key) x) (
    split_last_plain (part ++ b':' ∷ []) h (lit ":site:" ++ key) (hex-NoColon h x)
    ∙ split_last_site ((part ++ b':' ∷ []) ++ h) key plain)

scope_text-site :
    (p : Platform) (o : Owner) (key : Text)
    → IsClean o
    → NoColon key
    → split_last (lit ":site:") 0 [] (scope_text p o key) ≡ key
unfolding scope_text IsClean
scope_text-site p (user n) key c plain =
    split_last_plain [] (lit "user") _ (omega arith)
    ∙ split_last_hex _ (p.show_int n) key (p.show_int_IsHex n) plain
scope_text-site p (principal h) key c plain =
    split_last_plain [] (lit "principal") _ (omega arith) ∙ split_last_hex _ h key c plain
scope_text-site p anonymous key c plain =
    split_last_plain [] (lit "anonymous") _ (omega arith) ∙ split_last_site _ key plain

-- The site that a conflict names is the one of the request, where the site's key has no colon.
pub scope_site-build :
    (p : Platform) (site : Text) (u : Option ℕ) (h : Option Text)
    → NoColon (p.strip_lower site)
    → scope_site (build_lock_scope p site u h) ≡ p.strip_lower site
unfolding scope_site
scope_site-build p site u h plain =
    rw (build-scope_text p site u h)
      (scope_text-site p (owner_of p site u h) _ (owner_of-IsClean p site u h) plain)
