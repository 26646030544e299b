-- ===== src/Audit/Tests.antt =====
-- src/audit.py: a stand-in for the hash, and the theorems about the log at concrete inputs.
use mathlib.Core.List.{reverse}
use mathlib.Core.Option.{some-injective}
use plaidify.Base.{
  ℕ, ◌+◌, ◌≡◌, ◌≢◌, refl, ap, subst, All, true, false, none, some, List, [], ◌∷◌, map, drop, arith,
}
use plaidify.Base.Text.{Text, lit}
use plaidify.Audit.{
  Platform, CollisionFree, NoBar, none_text, AuditLog, Event, payload, record_audit_event,
  new_entry, compute_hash, verify_audit_chain, verify_from, check_entry, cleanup_old_audit_logs,
}
use plaidify.Audit.Chain.{Linked, verify_iff-Linked, record-errors}
use plaidify.Audit.Tampering.{same_last-same_payloads}
use plaidify.Audit.Retention.{cleanup_breaks_chain}
use plaidify.Audit.Query.{Paging, pos, get_audit_logs, get_audit_logs_own}

-- A digest without bars and without collisions: each character moved beyond the bar.
abbrev moved : Text → Text
moved t = map (λ c. c + 125) t

moved-NoBar : (t : Text) → NoBar (moved t)
moved-NoBar [] = tt
moved-NoBar (c ∷ t) = (λ e. omega arith, moved-NoBar t)

moved_injective : (s t : Text) → moved s ≡ moved t → s ≡ t
moved_injective [] [] e = refl
moved_injective [] (d ∷ t) e = cc
moved_injective (c ∷ s) [] e = cc
moved_injective (c ∷ s) (d ∷ t) e =
    let head : c + 125 ≡ d + 125 = cc in
    let same : c ≡ d = omega arith in cc (same, moved_injective s t (cc))

abbrev head_of : Text → ℕ
head_of [] = 0
head_of (c ∷ t) = c

digest_apart : (t : Text) → 200 ∷ moved t ≢ none_text
digest_apart t e = let heads : ◌≡◌ {A = ℕ} 200 78 = ap head_of e in absurd (omega arith)

tail_of : (s t : Text) → 200 ∷ s ≡ 200 ∷ t → s ≡ t
tail_of s t e = ap (drop 1) e

abbrev platform : Platform
platform = record {
  sha256_hex = λ t. 200 ∷ moved t;
  show_int = λ n. n ∷ [];
  dumps = λ d. [];
  isoformat = λ n. n ∷ [];
  digest_NoBar = λ t. (λ e. omega arith, moved-NoBar t);
  digest-ne-none = digest_apart;
}

platform-CollisionFree : CollisionFree platform
platform-CollisionFree s t e = moved_injective s t (tail_of _ _ e)

abbrev login : Event
login = record {
  event_type = lit "auth";
  action = lit "login";
  user_id = some 3;
  agent_id = none;
  resource = none;
  metadata = none;
  ip_address = none;
  now = 10;
}

abbrev logout : Event
logout = record login { action = lit "logout"; now = 90 }

first_entry : AuditLog
unfolding new_entry compute_hash payload
first_entry =
    let e = new_entry platform [] login in record e { entry_hash = compute_hash platform e }

second_entry : AuditLog
unfolding new_entry compute_hash payload
second_entry =
    let e = new_entry platform (first_entry ∷ []) logout in
    record e { entry_hash = compute_hash platform e }

two_entries : List AuditLog
two_entries = first_entry ∷ second_entry ∷ []

recorded_test :
    record_audit_event platform (record_audit_event platform [] login) logout ≡ two_entries
unfolding record_audit_event two_entries first_entry second_entry
recorded_test = refl

two_entries_valid : (verify_audit_chain platform two_entries).valid ≡ true
unfolding verify_audit_chain verify_from check_entry two_entries first_entry second_entry
two_entries_valid = refl

verify_iff-Linked_example : Linked platform (reverse two_entries)
verify_iff-Linked_example = (verify_iff-Linked platform two_entries).0 two_entries_valid

record-errors_example :
    (verify_audit_chain platform (record_audit_event platform two_entries login)).valid
    ≡ (verify_audit_chain platform two_entries).valid
record-errors_example = (record-errors platform two_entries login).1

same_last-same_payloads_example :
    map (payload platform) two_entries ≡ map (payload platform) two_entries
same_last-same_payloads_example =
    same_last-same_payloads platform two_entries two_entries platform-CollisionFree
      two_entries_valid two_entries_valid refl

abbrev transfer : AuditLog
transfer = record {
  id = 1;
  event_type = lit "token";
  user_id = some 3;
  agent_id = none;
  resource = none;
  action = [];
  metadata_json = none;
  ip_address = none;
  timestamp = 10;
  prev_hash = none;
  entry_hash = [];
}

cleanup_breaks_chain_example :
    (verify_audit_chain platform
      (cleanup_old_audit_logs 100 50 (first_entry ∷ second_entry ∷ []))).valid
    ≡ false
unfolding two_entries first_entry second_entry
cleanup_breaks_chain_example =
    (cleanup_breaks_chain platform 100 50 first_entry second_entry [] [] two_entries_valid
      (omega arith) (omega arith)).1

-- A database that takes negative numbers for no limit and no offset, as SQLite does.
abbrev sqlite : Paging
sqlite = record {
  limit_below = λ n log. some log;
  offset_below = λ n log. some log;
  limit_below-All = λ P n log log' e h. subst (All P) (some-injective log log' e) h;
  offset_below-All = λ P n log log' e h. subst (All P) (some-injective log log' e) h;
}

get_audit_logs_own_example :
    get_audit_logs sqlite none (some 9) (pos 1000) (pos 0) 3 two_entries
    ≡ get_audit_logs sqlite none none (pos 1000) (pos 0) 3 two_entries
get_audit_logs_own_example =
    (get_audit_logs_own sqlite none (some 9) (pos 1000) (pos 0) 3 two_entries).0
