-- ===== src/Audit/Tampering.antt =====
-- src/audit.py: what the hash chain protects, and what it does not.
use mathlib.Core.List.{reverse, reverse-cons, reverse-reverse, map-append, append_assoc}
use mathlib.Core.Path.{ap₂}
use mathlib.Core.Option.{some-injective}
use plaidify.Base.{
  ◌≡◌, refl, sym, ap, ◌∙◌, subst, true, Option, none, some, List, [], ◌∷◌, ◌++◌, map, length,
  length-append, arith,
}
use plaidify.Base.Text.{Text}
use plaidify.Audit.{
  Platform, CollisionFree, AuditLog, bar, none_text, NoBar, or_none, body_text, compute_hash,
  payload, verify_audit_chain, is_empty, last_hash, verify_from, check_entry,
}
use plaidify.Audit.Chain.{Linked, newest, verify_iff-Linked}

-- No bar stands inside a text without bars.
inside : (ys t s : Text) → NoBar s → s ≡ ys ++ (bar ∷ t) → ⊥
inside [] t [] h e = cc
inside [] t (c ∷ s) h e = h.0 (cc)
inside (y ∷ ys) t [] h e = cc
inside (y ∷ ys) t (c ∷ s) h e = inside ys t s h.1 (cc)

-- The text behind the last bar is determined.
suffix_after_bar :
    (xs ys s t : Text) → NoBar s → NoBar t → xs ++ (bar ∷ s) ≡ ys ++ (bar ∷ t) → s ≡ t
suffix_after_bar [] [] s t hs ht e = cc
suffix_after_bar (x ∷ xs) (y ∷ ys) s t hs ht e = suffix_after_bar xs ys s t hs ht (cc)
suffix_after_bar [] (y ∷ ys) s t hs ht e = absurd (inside ys t s hs (cc))
suffix_after_bar (x ∷ xs) [] s t hs ht e = absurd (inside xs s t ht (cc))

-- The hashes of a valid log: none, or a digest.
data IsDigest (p : Platform) : Option Text → Type 0 where
  first : IsDigest p none
  digest : (t : Text) → IsDigest p (some (p.sha256_hex t))

none_text-NoBar : NoBar none_text
none_text-NoBar = omega arith

prev_determined :
    (p : Platform) (xs ys : Text) (a b : Option Text)
    → IsDigest p a
    → IsDigest p b
    → xs ++ (bar ∷ or_none a) ≡ ys ++ (bar ∷ or_none b)
    → a ≡ b
prev_determined p xs ys a b first first e = refl
prev_determined p xs ys a b first (digest t) e =
    absurd
      (p.digest-ne-none t (sym (suffix_after_bar xs ys _ _ none_text-NoBar (p.digest_NoBar t) e)))
prev_determined p xs ys a b (digest t) first e =
    absurd (p.digest-ne-none t (suffix_after_bar xs ys _ _ (p.digest_NoBar t) none_text-NoBar e))
prev_determined p xs ys a b (digest s) (digest t) e =
    ap some (suffix_after_bar xs ys _ _ (p.digest_NoBar s) (p.digest_NoBar t) e)

newest-IsDigest :
    (p : Platform) (older : List AuditLog) → Linked p older → IsDigest p (newest older)
unfolding compute_hash
newest-IsDigest p [] l = first
newest-IsDigest p (e ∷ older) l =
    subst (λ h. IsDigest p (some h)) (sym l.0.1) (digest (payload p e))

previous :
    (p : Platform) (x y : AuditLog) (xs ys : List AuditLog)
    → Linked p (x ∷ xs)
    → Linked p (y ∷ ys)
    → payload p x ≡ payload p y
    → newest xs ≡ newest ys
unfolding payload
previous p x y xs ys l m same =
    prev_determined p (body_text p x) (body_text p y) (newest xs) (newest ys)
      (newest-IsDigest p xs l.1) (newest-IsDigest p ys m.1) (rw (← l.0.0, ← m.0.0) same)

same_history :
    (p : Platform)
    → CollisionFree p
    → (xs ys : List AuditLog) → Linked p xs
    → Linked p ys
    → newest xs ≡ newest ys
    → map (payload p) xs ≡ map (payload p) ys
unfolding compute_hash
same_history p cf [] [] l m h = refl
same_history p cf [] (y ∷ ys) l m h = cc
same_history p cf (x ∷ xs) [] l m h = cc
same_history p cf (x ∷ xs) (y ∷ ys) l m h =
    let same : payload p x ≡ payload p y = cf _ _ (sym l.0.1 ∙ some-injective _ _ h ∙ m.0.1) in
    ap₂ ◌∷◌ same (same_history p cf xs ys l.1 m.1 (previous p x y xs ys l m same))

last_hash-append :
    (xs : List AuditLog) (e : AuditLog) → last_hash (xs ++ e ∷ []) ≡ some e.entry_hash
last_hash-append [] e = refl
last_hash-append (x ∷ []) e = refl
last_hash-append (x ∷ y ∷ xs) e = last_hash-append (y ∷ xs) e

last_hash-reverse : (older : List AuditLog) → last_hash (reverse older) ≡ newest older
last_hash-reverse [] = refl
last_hash-reverse (e ∷ older) = rw (reverse-cons e older) (last_hash-append (reverse older) e)

newest-reverse : (log : List AuditLog) → newest (reverse log) ≡ last_hash log
newest-reverse log = sym (last_hash-reverse (reverse log)) ∙ ap last_hash (reverse-reverse log)

map-reverse {ℓ κ} :
    {A : Type ℓ} {B : Type κ} (f : A → B) (l : List A) → map f (reverse l) ≡ reverse (map f l)
map-reverse f [] = refl
map-reverse f (x ∷ l) =
    rw (reverse-cons x l, reverse-cons (f x) (map f l), map-append, map-reverse f l)

-- With a hash that has no collisions, two valid logs whose newest entries carry the same hash hold
-- the same payloads, entry by entry: whoever keeps the newest hash notices each change of a payload
-- and each entry put in, left out or moved.
pub same_last-same_payloads :
    (p : Platform) (log log' : List AuditLog)
    → CollisionFree p
    → (verify_audit_chain p log).valid ≡ true
    → (verify_audit_chain p log').valid ≡ true
    → last_hash log ≡ last_hash log'
    → map (payload p) log ≡ map (payload p) log'
same_last-same_payloads p log log' cf v v' same =
    let back =
      same_history p cf (reverse log) (reverse log') ((verify_iff-Linked p log).0 v)
        ((verify_iff-Linked p log').0 v') (newest-reverse log ∙ same ∙ sym (newest-reverse log')) in
    sym (forth log) ∙ ap reverse back ∙ forth log'
  where
    forth : (l : List AuditLog) → reverse (map (payload p) (reverse l)) ≡ map (payload p) l
    forth l = rw (map-reverse (payload p) l) (reverse-reverse (map (payload p) l))

-- The entry with the text before a bar of its action moved to the end of its resource.
abbrev pub shifted : AuditLog → Text → Text → Text → AuditLog
shifted e r a b = record e { resource = some (r ++ (bar ∷ a)); action = b }

abbrev pub unshifted : AuditLog → Text → Text → Text → AuditLog
unshifted e r a b = record e { resource = some r; action = a ++ (bar ∷ b) }

payload-shifted :
    (p : Platform) (e : AuditLog) (r a b : Text)
    → payload p (shifted e r a b) ≡ payload p (unshifted e r a b)
unfolding payload
payload-shifted p e r a b = simp append_assoc

hash-shifted :
    (p : Platform) (e : AuditLog) (r a b : Text)
    → compute_hash p (shifted e r a b) ≡ compute_hash p (unshifted e r a b)
unfolding compute_hash
hash-shifted p e r a b = ap p.sha256_hex (payload-shifted p e r a b)

check_same :
    (p : Platform) (prev : Option Text) (e : AuditLog) (r a b : Text)
    → check_entry p prev (shifted e r a b) ≡ check_entry p prev (unshifted e r a b)
unfolding check_entry
check_same p prev e r a b = rw (hash-shifted p e r a b)

errors_same :
    (p : Platform) (prev : Option Text) (before later : List AuditLog) (e : AuditLog) (r a b : Text)
    → verify_from p prev (before ++ shifted e r a b ∷ later)
      ≡ verify_from p prev (before ++ unshifted e r a b ∷ later)
unfolding verify_from
errors_same p prev [] later e r a b = rw (check_same p prev e r a b)
errors_same p prev (x ∷ before) later e r a b =
    ap (◌++◌ (check_entry p prev x)) (errors_same p (some x.entry_hash) before later e r a b)

length_same :
    (before later : List AuditLog) (x y : AuditLog)
    → length (before ++ x ∷ later) ≡ length (before ++ y ∷ later)
length_same before later x y =
    omega (arith, length-append before (x ∷ later), length-append before (y ∷ later))

-- The parts of a payload are joined with a bar that is not escaped, so an entry can be changed with
-- no trace: wherever it stands, moving text across the bar between resource and action leaves the
-- verdict on the whole log as it was, down to the list of errors.
pub shift_unnoticed :
    (p : Platform) (before later : List AuditLog) (e : AuditLog) (r a b : Text)
    → verify_audit_chain p (before ++ shifted e r a b ∷ later)
      ≡ verify_audit_chain p (before ++ unshifted e r a b ∷ later)
unfolding verify_audit_chain
shift_unnoticed p before later e r a b =
    let same = errors_same p none before later e r a b in
    let long = length_same before later (shifted e r a b) (unshifted e r a b) in
    λ i. record { valid = is_empty (same i); total = long i; errors = same i }
