-- ===== src/Audit/Retention.antt =====
-- src/app.py `_cleanup_old_audit_logs` against src/audit.py `verify_audit_chain`.
use plaidify.Base.{
  ℕ, ◌-◌, ◌≤◌, ◌<◌, ◌≡◌, refl, true, false, none, some, List, [], ◌∷◌, ◌++◌, All, arith, ==_iff,
  nat_eq,
}
use plaidify.Base.Compare.{list_eq, option_eq}
use plaidify.Base.Text.{Text}
use plaidify.Audit.{
  Platform, AuditLog, verify_audit_chain, verify_from, check_entry, cleanup_old_audit_logs,
  is_empty, ChainError,
}

behind : (a b : List ChainError) → a ++ b ≡ [] → b ≡ []
behind [] b h = h
behind (c ∷ a) b h = cc

errors_nil : (es : List ChainError) → is_empty es ≡ true → es ≡ []
errors_nil [] h = refl
errors_nil (e ∷ es) h = cc

head_unlinked :
    (p : Platform) (y : AuditLog) (recent : List AuditLog) (h : Text)
    → y.prev_hash ≡ some h
    → is_empty (verify_from p none (y ∷ recent)) ≡ false
unfolding verify_from check_entry
head_unlinked p y recent h e = ground (arith, ==_iff y.prev_hash none)

-- An entry behind another one in a log without errors names a hash.
names_hash :
    (p : Platform) (prev : Text) (xs ys : List AuditLog) (y : AuditLog)
    → verify_from p (some prev) (xs ++ y ∷ ys) ≡ []
    → (h : Text) × (y.prev_hash ≡ some h)
unfolding verify_from check_entry
names_hash p prev [] ys y e = (prev, ground (arith, ==_iff y.prev_hash (some prev)))
names_hash p prev (x ∷ xs) ys y e = names_hash p x.entry_hash xs ys y (behind _ _ e)

keeps_recent :
    (now retention : ℕ) (old recent : List AuditLog)
    → All (λ e. e.timestamp < now - retention) old
    → All (λ e. now - retention ≤ e.timestamp) recent
    → cleanup_old_audit_logs now retention (old ++ recent) ≡ recent
unfolding cleanup_old_audit_logs
keeps_recent now retention [] [] o r = refl
keeps_recent now retention [] (e ∷ recent) o r =
    ground (arith, keeps_recent now retention [] recent tt r.1)
keeps_recent now retention (e ∷ old) recent o r =
    ground (arith, keeps_recent now retention old recent o.1 r)

-- The retention job breaks the chain. If a valid log has at least one entry older than the cutoff
-- before an entry that is not, and all entries older than the cutoff stand first, the job leaves
-- exactly the later entries, and verification of what is left answers that it is not valid.
pub cleanup_breaks_chain :
    (p : Platform) (now retention : ℕ) (x y : AuditLog) (old recent : List AuditLog)
    → (verify_audit_chain p (x ∷ old ++ y ∷ recent)).valid ≡ true
    → All (λ e. e.timestamp < now - retention) (x ∷ old)
    → All (λ e. now - retention ≤ e.timestamp) (y ∷ recent)
    → (cleanup_old_audit_logs now retention (x ∷ old ++ y ∷ recent) ≡ y ∷ recent)
      × ((verify_audit_chain p (cleanup_old_audit_logs now retention (x ∷ old ++ y ∷ recent))).valid
          ≡ false)
unfolding verify_audit_chain verify_from
cleanup_breaks_chain p now retention x y old recent v o r =
    let left = keeps_recent now retention (x ∷ old) (y ∷ recent) o r in
    let linked = names_hash p x.entry_hash old recent y (behind _ _ (errors_nil _ v)) in
    (left, rw left (head_unlinked p y recent linked.0 linked.1))
