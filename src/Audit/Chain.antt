-- ===== src/Audit/Chain.antt =====
-- src/audit.py: `verify_audit_chain` decides that the log is a hash chain, and
-- `record_audit_event` extends it.
use mathlib.Core.List.{reverse, reverse-cons, reverse-reverse, append_assoc, append-nil}
use plaidify.Base.{
  ◌≡◌, refl, sym, ap, ◌∙◌, ◌↔◌, true, Option, none, some, List, [], ◌∷◌, ◌++◌, ==_iff, arith,
  nat_eq,
}
use plaidify.Base.Compare.{list_eq, option_eq}
use plaidify.Base.Text.{Text}
use plaidify.Audit.{
  Platform, AuditLog, Event, compute_hash, payload, new_entry, record_audit_event, last_hash,
  check_entry, verify_from, verify_audit_chain, ChainError, is_empty,
}

-- The hash that the next entry must name, after entries that follow one with the hash `prev`.
abbrev last_from : Option Text → List AuditLog → Option Text
last_from prev [] = prev
last_from prev (e ∷ es) = last_from (some e.entry_hash) es

last_hash-last_from :
    (e : AuditLog) (es : List AuditLog) → last_hash (e ∷ es) ≡ last_from none (e ∷ es)
last_hash-last_from e [] = refl
last_hash-last_from e (f ∷ es) = last_hash-last_from f es

last_hash-from : (log : List AuditLog) → last_hash log ≡ last_from none log
last_hash-from [] = refl
last_hash-from (e ∷ es) = last_hash-last_from e es

last_from-append :
    (prev : Option Text) (xs : List AuditLog) (e : AuditLog)
    → last_from prev (xs ++ e ∷ []) ≡ some e.entry_hash
last_from-append prev [] e = refl
last_from-append prev (x ∷ xs) e = last_from-append (some x.entry_hash) xs e

verify_from-append :
    (p : Platform) (prev : Option Text) (xs : List AuditLog) (e : AuditLog)
    → verify_from p prev (xs ++ e ∷ [])
      ≡ verify_from p prev xs ++ check_entry p (last_from prev xs) e
unfolding verify_from
verify_from-append p prev [] e = append-nil (check_entry p prev e)
verify_from-append p prev (x ∷ xs) e =
    ap (◌++◌ (check_entry p prev x)) (verify_from-append p (some x.entry_hash) xs e)
    ∙ sym (append_assoc (check_entry p prev x) _ _)

-- An entry passes its check exactly when it names the hash before it and carries its own.
abbrev pub Fits : Platform → Option Text → AuditLog → Type 0
Fits p prev e = (e.prev_hash ≡ prev) × (e.entry_hash ≡ compute_hash p e)

check_entry-Fits :
    (p : Platform) (prev : Option Text) (e : AuditLog) → Fits p prev e → check_entry p prev e ≡ []
unfolding check_entry
check_entry-Fits p prev e f =
    let a = (==_iff e.prev_hash prev).1 f.0 in
    let b = (==_iff e.entry_hash (compute_hash p e)).1 f.1 in ground (arith, a, b)

Fits-check_entry :
    (p : Platform) (prev : Option Text) (e : AuditLog) → check_entry p prev e ≡ [] → Fits p prev e
unfolding check_entry
Fits-check_entry p prev e h =
    ground (arith, ==_iff e.prev_hash prev, ==_iff e.entry_hash (compute_hash p e))

-- The log as a chain, newest entry first: each entry names the hash of the one before it, the
-- first names none, and each carries the hash of its own payload.
abbrev pub newest : List AuditLog → Option Text
newest [] = none
newest (e ∷ older) = some e.entry_hash

abbrev pub Linked : Platform → List AuditLog → Type 0
Linked p [] = Unit
Linked p (e ∷ older) = Fits p (newest older) e × Linked p older

append-eq-nil {ℓ} : {A : Type ℓ} (xs ys : List A) → xs ++ ys ≡ [] → (xs ≡ []) × (ys ≡ [])
append-eq-nil [] ys h = (refl, h)
append-eq-nil (x ∷ xs) ys h = cc

last_from-reverse : (older : List AuditLog) → last_from none (reverse older) ≡ newest older
last_from-reverse [] = refl
last_from-reverse (e ∷ older) = rw (reverse-cons e older) (last_from-append none (reverse older) e)

verify_from-reverse :
    (p : Platform) (e : AuditLog) (older : List AuditLog)
    → verify_from p none (reverse (e ∷ older))
      ≡ verify_from p none (reverse older) ++ check_entry p (newest older) e
verify_from-reverse p e older =
    rw (reverse-cons e older, verify_from-append p none (reverse older) e, last_from-reverse older)

Linked-verify :
    (p : Platform) (older : List AuditLog)
    → Linked p older
    → verify_from p none (reverse older) ≡ []
unfolding verify_from
Linked-verify p [] l = refl
Linked-verify p (e ∷ older) l =
    rw (verify_from-reverse p e older, Linked-verify p older l.1)
      (check_entry-Fits p (newest older) e l.0)

verify-Linked :
    (p : Platform) (older : List AuditLog)
    → verify_from p none (reverse older) ≡ []
    → Linked p older
verify-Linked p [] h = tt
verify-Linked p (e ∷ older) h =
    let (a, b) = append-eq-nil _ _ (sym (verify_from-reverse p e older) ∙ h) in
    (Fits-check_entry p (newest older) e b, verify-Linked p older a)

is_empty_iff : (es : List ChainError) → (is_empty es ≡ true) ↔ (es ≡ [])
is_empty_iff [] = (λ _. refl, λ _. refl)
is_empty_iff (e ∷ es) = (λ h. cc, λ h. cc)

valid_iff-errors :
    (p : Platform) (log : List AuditLog)
    → ((verify_audit_chain p log).valid ≡ true) ↔ (verify_from p none log ≡ [])
unfolding verify_audit_chain
valid_iff-errors p log = is_empty_iff (verify_from p none log)

-- `verify_audit_chain` answers that the log is valid exactly when, read from the newest entry back,
-- each entry names the hash of the entry before it (the first one names none) and carries the hash
-- of its own payload.
pub verify_iff-Linked :
    (p : Platform) (log : List AuditLog)
    → ((verify_audit_chain p log).valid ≡ true) ↔ Linked p (reverse log)
verify_iff-Linked p log = (
  λ v. verify-Linked p (reverse log) (rw (reverse-reverse log) ((valid_iff-errors p log).0 v)),
  λ l. (valid_iff-errors p log).1 (rw (reverse-reverse log) at (Linked-verify p (reverse log) l)),
)

new_entry-Fits :
    (p : Platform) (log : List AuditLog) (ev : Event)
    → (e : AuditLog) × (record_audit_event p log ev ≡ log ++ e ∷ []) × Fits p (last_hash log) e
unfolding record_audit_event new_entry compute_hash payload
new_entry-Fits p log ev = (
  record (new_entry p log ev) { entry_hash = compute_hash p (new_entry p log ev) },
  refl,
  (refl, refl),
)

-- An entry that `record_audit_event` appends adds no error to what verification finds, whatever the
-- state of the log: a valid log stays valid, and the entries before it stay as they are.
pub record-errors :
    (p : Platform) (log : List AuditLog) (ev : Event)
    → ((verify_audit_chain p (record_audit_event p log ev)).errors
        ≡ (verify_audit_chain p log).errors)
      × ((verify_audit_chain p (record_audit_event p log ev)).valid
          ≡ (verify_audit_chain p log).valid)
unfolding verify_audit_chain
record-errors p log ev =
    let (e, q, f) = new_entry-Fits p log ev in
    let same : verify_from p none (record_audit_event p log ev) ≡ verify_from p none log =
      rw
        (
          q,
          verify_from-append p none log e,
          ← last_hash-from log,
          check_entry-Fits p (last_hash log) e f,
        )
        (append-nil (verify_from p none log)) in
    (same, ap is_empty same)
