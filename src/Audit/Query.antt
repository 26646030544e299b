-- ===== src/Audit/Query.antt =====
-- src/routers/audit.py: `get_audit_logs`. What the database makes of a negative limit or offset is a
-- parameter.
use mathlib.Core.List.{reverse}
use mathlib.Core.Option.{some-injective, none-ne-some}
use plaidify.Base.{
  ℕ, ◌≤◌, ◌≡◌, refl, min, Option, none, some, List, [], ◌∷◌, length, take, drop, filterb, All,
  arith, ◌==◌, nat_eq, if◌then◌else◌, length-take, All-filterb, filterb-All, All-take, All-drop,
  All-reverse, ==_iff, zero, suc, ap, subst, Option-cases, inl, inr,
}
use plaidify.Base.Compare.{list_eq, option_eq}
use plaidify.Base.Text.{Text}
use plaidify.Audit.{AuditLog}

pub data ℤ : Type 0 where
  pos : ℕ → ℤ
  negsuc : ℕ → ℤ

-- `LIMIT` and `OFFSET` with the number -(n + 1): `none` is an error, and no entries are made up. SQLite
-- takes a negative limit for none at all, and a negative offset for 0; PostgreSQL refuses both.
pub record Paging : Type 1 where
  pub limit_below : ℕ → List AuditLog → Option (List AuditLog)
  pub offset_below : ℕ → List AuditLog → Option (List AuditLog)
  pub limit_below-All :
      (P : AuditLog → Type 0) (n : ℕ) (log log' : List AuditLog)
      → limit_below n log ≡ some log'
      → All P log
      → All P log'
  pub offset_below-All :
      (P : AuditLog → Type 0) (n : ℕ) (log log' : List AuditLog)
      → offset_below n log ≡ some log'
      → All P log
      → All P log'

pub record Page : Type 0 where
  pub total : ℕ
  pub offset : ℤ
  pub limit : ℤ
  pub entries : List AuditLog

-- `AuditLog.user_id == user_id`; both branches of the first test filter by the same id.
unfoldable pub owned_by : Option ℕ → ℕ → List AuditLog → List AuditLog
owned_by (some (suc n)) user log =
    if suc n == user
    then filterb (λ e. e.user_id == some (suc n)) log
    else filterb (λ e. e.user_id == some user) log
owned_by _ user log = filterb (λ e. e.user_id == some user) log

-- An empty event type selects all.
unfoldable pub of_type : Option Text → List AuditLog → List AuditLog
of_type (some (c ∷ t)) log = filterb (λ e. e.event_type == (c ∷ t)) log
of_type _ log = log

-- `min(limit, 500)`
unfoldable pub cut_off : ℤ → ℤ
cut_off (pos n) = pos (min n 500)
cut_off (negsuc n) = negsuc n

abbrev pub limited : Paging → ℤ → List AuditLog → Option (List AuditLog)
limited d (pos n) log = some (take n log)
limited d (negsuc n) log = Paging.limit_below d n log

abbrev pub skipping : Paging → ℤ → List AuditLog → Option (List AuditLog)
skipping d (pos n) log = some (drop n log)
skipping d (negsuc n) log = Paging.offset_below d n log

abbrev pub paged : Paging → ℤ → Option (List AuditLog) → Option (List AuditLog)
paged d limit none = none
paged d limit (some rest) = limited d limit rest

abbrev pub answer : ℕ → ℤ → ℤ → Option (List AuditLog) → Option Page
answer total offset limit none = none
answer total offset limit (some entries) =
    some (record { total = total; offset = offset; limit = limit; entries = entries })

-- `none` is an error of the database's.
unfoldable pub get_audit_logs :
    Paging → Option Text → Option ℕ → ℤ → ℤ → ℕ → List AuditLog → Option Page
unfolding owned_by of_type cut_off
get_audit_logs d event_type user_id limit offset user log =
    let found = of_type event_type (owned_by user_id user log) in
    answer (length found) offset (cut_off limit)
      (paged d (cut_off limit) (skipping d offset (reverse found)))

abbrev Mine : ℕ → AuditLog → Type 0
Mine user e = e.user_id ≡ some user

owned_by-user :
    (asked : Option ℕ) (user : ℕ) (log : List AuditLog)
    → owned_by asked user log ≡ owned_by none user log
unfolding owned_by
owned_by-user none user log = refl
owned_by-user (some zero) user log = refl
owned_by-user (some (suc n)) user log = ground (arith, ==_iff (suc n) user)

owned_by-All : (user : ℕ) (log : List AuditLog) → All (Mine user) (owned_by none user log)
unfolding owned_by
owned_by-All user log = filterb-All (Mine user) _ (λ e h. (==_iff e.user_id (some user)).0 h) log

of_type-All {κ} :
    (P : AuditLog → Type κ) (t : Option Text) (log : List AuditLog)
    → All P log
    → All P (of_type t log)
unfolding of_type
of_type-All P (some (c ∷ t)) log h = All-filterb P _ log h
of_type-All P (some []) log h = h
of_type-All P none log h = h

skipping-All :
    (P : AuditLog → Type 0) (d : Paging) (offset : ℤ) (log rest : List AuditLog)
    → skipping d offset log ≡ some rest
    → All P log
    → All P rest
skipping-All P d (pos n) log rest e h = subst (All P) (some-injective _ _ e) (All-drop P n log h)
skipping-All P d (negsuc n) log rest e h = Paging.offset_below-All d P n log rest e h

limited-All :
    (P : AuditLog → Type 0) (d : Paging) (limit : ℤ) (log rest : List AuditLog)
    → limited d limit log ≡ some rest
    → All P log
    → All P rest
limited-All P d (pos n) log rest e h = subst (All P) (some-injective _ _ e) (All-take P n log h)
limited-All P d (negsuc n) log rest e h = Paging.limit_below-All d P n log rest e h

paged-All :
    (P : AuditLog → Type 0) (d : Paging) (limit offset : ℤ) (log rest : List AuditLog)
    → paged d limit (skipping d offset log) ≡ some rest
    → All P log
    → All P rest
paged-All P d limit offset log rest e h = elim (Option-cases (skipping d offset log)) [
  | inl n ↦ absurd (none-ne-some rest (rw n at e))
  | inr (seen, n) ↦
      limited-All P d limit seen rest (rw n at e) (skipping-All P d offset log seen n h)
]

paged-length :
    (d : Paging) (n : ℕ) (skipped : Option (List AuditLog)) (rest : List AuditLog)
    → paged d (cut_off (pos n)) skipped ≡ some rest
    → length rest ≤ min n 500
unfolding cut_off
paged-length d n none rest e = absurd (none-ne-some rest e)
paged-length d n (some seen) rest e =
    subst (λ l. length l ≤ min n 500) (some-injective _ _ e)
      (omega (arith, length-take (min n 500) seen))

answered :
    (total : ℕ) (offset limit : ℤ) (o : Option (List AuditLog)) (page : Page)
    → answer total offset limit o ≡ some page
    → o ≡ some (Page.entries page)
answered total offset limit none page e = absurd (none-ne-some page e)
answered total offset limit (some es) page e =
    ap (λ (p : Page). some (Page.entries p)) (some-injective _ _ e)

-- Whatever user id is asked for, the answer is the one of the user who asks. Every entry on a page is
-- theirs, for any limit and offset, and where the limit is not negative the page has at most as many
-- entries as the limit, which is cut off at 500.
pub get_audit_logs_own :
    (d : Paging) (event_type : Option Text) (asked : Option ℕ) (limit offset : ℤ) (user : ℕ)
    (log : List AuditLog)
    → let result = get_audit_logs d event_type asked limit offset user log in
      (result ≡ get_audit_logs d event_type none limit offset user log)
      × ((page : Page)
          → result ≡ some page
          → All (λ e. e.user_id ≡ some user) page.entries
            × ((n : ℕ) → limit ≡ pos n → length page.entries ≤ min n 500))
unfolding get_audit_logs
get_audit_logs_own d event_type asked limit offset user log = rw (owned_by-user asked user log) (
  refl,
  λ page e.
      let found = of_type event_type (owned_by none user log) in
      let got = answered (length found) offset (cut_off limit) _ page e in
      (
        paged-All (Mine user) d (cut_off limit) offset (reverse found) page.entries got (
            All-reverse (Mine user) _
              (of_type-All (Mine user) event_type _ (owned_by-All user log))),
        λ n l. paged-length d n (skipping d offset (reverse found)) page.entries (
            subst (λ k. paged d (cut_off k) (skipping d offset (reverse found)) ≡ some page.entries)
              l got),
      ),
)
