-- ===== src/Audit.antt =====
-- src/audit.py, with the retention job of src/app.py (`_cleanup_old_audit_logs`) and the query of
-- src/routers/audit.py. The table is the list of its rows in the order of their ids. A text is the
-- list of its code points.
pub mod Chain
pub mod Tampering
pub mod Retention
pub mod Query
mod Tests
use plaidify.Base.{
  ℕ, suc, ◌+◌, ◌-◌, ◌≤◌, ◌≢◌, ◌≡◌, Bool, true, false, not, String, Option, none, some, List, [],
  ◌∷◌, ◌++◌, length, ltb, filterb, if◌then◌else◌, All, ◌==◌, nat_eq,
}
use plaidify.Base.Compare.{list_eq, option_eq}
use plaidify.Base.Dict.{Dict}
use plaidify.Base.Text.{Text}
use plaidify.Json.{Value}

-- The character between the parts of a payload.
abbrev pub bar : ℕ
bar = b'|'

-- What `f"{None}"` gives.
abbrev pub none_text : Text
none_text = b'N' ∷ b'o' ∷ b'n' ∷ b'e' ∷ []

abbrev pub NoBar : Text → Type 0
NoBar = All (λ c. c ≢ bar)

-- The library functions that the module calls: SHA-256 with a hexadecimal digest, `str` of an
-- integer, `json.dumps`, and `isoformat` of the naive UTC time, which counts ticks.
pub record Platform : Type 0 where
  pub sha256_hex : Text → Text
  pub show_int : ℕ → Text
  pub dumps : Dict Text Value → Text
  pub isoformat : ℕ → Text
  -- a digest is written in hexadecimal digits, and is longer than the text of `None`
  pub digest_NoBar : (t : Text) → NoBar (sha256_hex t)
  pub digest-ne-none : (t : Text) → sha256_hex t ≢ none_text

-- What collision resistance is taken to mean.
abbrev pub CollisionFree : Platform → Type 0
CollisionFree p = (s t : Text) → p.sha256_hex s ≡ p.sha256_hex t → s ≡ t

-- A row of `audit_logs`. The column of `timestamp` drops the time zone, so it holds the naive time.
pub record AuditLog : Type 0 where
  pub id : ℕ
  pub event_type : Text
  pub user_id : Option ℕ
  pub agent_id : Option Text
  pub resource : Option Text
  pub action : Text
  pub metadata_json : Option Text
  pub ip_address : Option Text
  pub timestamp : ℕ
  pub prev_hash : Option Text
  pub entry_hash : Text

abbrev pub or_none : Option Text → Text
or_none none = none_text
or_none (some t) = t

abbrev pub int_or_none : Platform → Option ℕ → Text
int_or_none p none = none_text
int_or_none p (some n) = p.show_int n

-- All parts of a payload but the previous hash, with the bar behind each.
abbrev pub body_text : Platform → AuditLog → Text
body_text p e =
    e.event_type
    ++ (bar ∷ int_or_none p e.user_id)
    ++ (bar ∷ or_none e.agent_id)
    ++ (bar ∷ or_none e.resource)
    ++ (bar ∷ e.action)
    ++ (bar ∷ or_none e.metadata_json)
    ++ (bar ∷ or_none e.ip_address)
    ++ (bar ∷ p.isoformat e.timestamp)

-- The f-string of `_compute_hash`.
unfoldable pub payload : Platform → AuditLog → Text
payload p e = body_text p e ++ (bar ∷ or_none e.prev_hash)

unfoldable pub compute_hash : Platform → AuditLog → Text
compute_hash p e = p.sha256_hex (payload p e)

-- The arguments of `record_audit_event`, with the time that it reads.
pub record Event : Type 0 where
  pub event_type : Text
  pub action : Text
  pub user_id : Option ℕ
  pub agent_id : Option Text
  pub resource : Option Text
  pub metadata : Option (Dict Text Value)
  pub ip_address : Option Text
  pub now : ℕ

-- `json.dumps(metadata, default=str) if metadata else None`
abbrev pub dump_metadata : Platform → Option (Dict Text Value) → Option Text
dump_metadata p none = none
dump_metadata p (some []) = none
dump_metadata p (some (kv ∷ d)) = some (p.dumps (kv ∷ d))

-- The row with the highest id: its hash, and the id after it.
abbrev pub last_hash : List AuditLog → Option Text
last_hash [] = none
last_hash (e ∷ []) = some e.entry_hash
last_hash (e ∷ f ∷ es) = last_hash (f ∷ es)

abbrev pub next_id : List AuditLog → ℕ
next_id [] = 1
next_id (e ∷ []) = suc e.id
next_id (e ∷ f ∷ es) = next_id (f ∷ es)

-- The row that `record_audit_event` adds, before its hash is known.
unfoldable pub new_entry : Platform → List AuditLog → Event → AuditLog
new_entry p log ev = record {
  id = next_id log;
  event_type = ev.event_type;
  user_id = ev.user_id;
  agent_id = ev.agent_id;
  resource = ev.resource;
  action = ev.action;
  metadata_json = dump_metadata p ev.metadata;
  ip_address = ev.ip_address;
  timestamp = ev.now;
  prev_hash = last_hash log;
  entry_hash = [];
}

-- The payload does not mention the entry's own hash.
unfoldable pub record_audit_event : Platform → List AuditLog → Event → List AuditLog
unfolding new_entry
record_audit_event p log ev =
    let e = new_entry p log ev in log ++ record e { entry_hash = compute_hash p e } ∷ []

pub data ChainError : Type 0 where
  prev_hash_mismatch : ℕ → Option Text → Option Text → ChainError
  entry_hash_mismatch : ℕ → Text → Text → ChainError

-- The body of the loop of `verify_audit_chain`.
unfoldable pub check_entry : Platform → Option Text → AuditLog → List ChainError
check_entry p prev_hash e =
    (if e.prev_hash == prev_hash then [] else prev_hash_mismatch e.id prev_hash e.prev_hash ∷ [])
    ++ (let expected = compute_hash p e in
        if e.entry_hash == expected
        then []
        else entry_hash_mismatch e.id expected e.entry_hash ∷ [])

unfoldable pub verify_from : Platform → Option Text → List AuditLog → List ChainError
verify_from p prev_hash [] = []
verify_from p prev_hash (e ∷ es) = check_entry p prev_hash e ++ verify_from p (some e.entry_hash) es

pub record Verdict : Type 0 where
  pub valid : Bool
  pub total : ℕ
  pub errors : List ChainError

abbrev is_empty : List ChainError → Bool
is_empty [] = true
is_empty (e ∷ es) = false

unfoldable pub verify_audit_chain : Platform → List AuditLog → Verdict
verify_audit_chain p log =
    let errors = verify_from p none log in
    record { valid = is_empty errors; total = length log; errors = errors }

-- One round of `_cleanup_old_audit_logs`: `retention` is `audit_retention_days` in ticks.
unfoldable pub cleanup_old_audit_logs : ℕ → ℕ → List AuditLog → List AuditLog
cleanup_old_audit_logs now retention log =
    let cutoff = now - retention in filterb (λ e. not (ltb e.timestamp cutoff)) log
