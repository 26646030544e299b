-- ===== src/Refresh/Restart.antt =====
-- src/scheduled_refresh.py: `load_from_db`, and a scheduler after a restart. What a database column
-- hands back for a time that was written to it is a parameter: `last_refreshed` is declared without a
-- time zone.
use plaidify.Base.{
  ℕ, ◌≡◌, refl, Bool, true, false, ◌&&◌, List, [], ◌∷◌, length, Option, none, some, any, arith,
  filterb, All, Bool-cases, inl, inr, if◌then◌else◌, ◌==◌, nat_eq,
}
use plaidify.Base.Compare.{list_eq}
use plaidify.Base.Dict.{Dict, insert, values}
use plaidify.Base.Text.{Text}
use plaidify.Refresh.{RefreshJob, Scheduler, Stamp}
use plaidify.Refresh.Run.{due_jobs, is_due, and_due, tick, Fetched}

module _ (column : Stamp → Stamp) where
  abbrev pub time_of : Option Stamp → Option Stamp
  time_of none = none
  time_of (some t) = some (column t)

  abbrev pub loaded : RefreshJob → RefreshJob
  loaded row = record row { last_refreshed = time_of (RefreshJob.last_refreshed row) }

  abbrev pub load_rows : List RefreshJob → Dict Text RefreshJob → Dict Text RefreshJob
  load_rows [] jobs = jobs
  load_rows (row ∷ rows) jobs =
      load_rows rows (insert (RefreshJob.access_token row) (loaded row) jobs)

  -- `reads` tells whether the database can be read; an error is only logged.
  unfoldable pub load_from_db : Bool → Scheduler → ℕ × Scheduler
  load_from_db reads s =
      let rows = filterb RefreshJob.enabled (values (Scheduler.rows s)) in
      if reads then (length rows, record s { jobs = load_rows rows (Scheduler.jobs s) }) else (0, s)

-- The process ends and a new one starts: the registry is lost, the table stays.
abbrev pub restart : Scheduler → Scheduler
restart s = record s { jobs = [] }

-- A job without a time, or with one that has no time zone.
abbrev pub Naive : RefreshJob → Type 0
Naive job = unzoned (RefreshJob.last_refreshed job)
  where
    unzoned : Option Stamp → Type 0
    unzoned none = Unit
    unzoned (some last) = Stamp.aware last ≡ false

abbrev pub is_some {ℓ} : {A : Type ℓ} → Option A → Bool
is_some none = false
is_some (some a) = true

-- An enabled job that has been refreshed before.
abbrev pub was_run : RefreshJob → Bool
was_run job = RefreshJob.enabled job && is_some (RefreshJob.last_refreshed job)

insert-Naive :
    (k : Text) (job : RefreshJob) (d : Dict Text RefreshJob)
    → Naive job
    → All Naive (values d)
    → All Naive (values (insert k job d))
unfolding insert
insert-Naive k job [] n h = (n, tt)
insert-Naive k job ((j, w) ∷ d) n h = elim (Bool-cases (j == k)) [
  | inl e ↦ rw e (n, h.1)
  | inr e ↦ rw e (h.0, insert-Naive k job d n h.1)
]

module _ (column : Stamp → Stamp) (no_zone : (t : Stamp) → Stamp.aware (column t) ≡ false) where
  loaded-Naive :
      (row : RefreshJob) (t : Option Stamp)
      → RefreshJob.last_refreshed row ≡ t
      → Naive (loaded column row)
  loaded-Naive row none e = rw e tt
  loaded-Naive row (some t) e = rw e (no_zone t)

  load_rows-Naive :
      (rows : List RefreshJob) (d : Dict Text RefreshJob)
      → All Naive (values d)
      → All Naive (values (load_rows column rows d))
  load_rows-Naive [] d h = h
  load_rows-Naive (row ∷ rows) d h =
      load_rows-Naive rows (insert (RefreshJob.access_token row) (loaded column row) d) (
        insert-Naive (RefreshJob.access_token row) (loaded column row) d
          (loaded-Naive row (RefreshJob.last_refreshed row) refl) h)

  load-Naive :
      (s : Scheduler) → All Naive (values (Scheduler.jobs (load_from_db column true (restart s)).1))
  unfolding load_from_db
  load-Naive s = load_rows-Naive (filterb RefreshJob.enabled (values (Scheduler.rows s))) [] tt

raises :
    (max_backoff now : ℕ) (job : RefreshJob)
    → Naive job
    → was_run job ≡ true
    → and_due max_backoff now job ≡ none
unfolding is_due
raises max_backoff now job n h = ground arith

due_jobs-none :
    (max_backoff now : ℕ) (jobs : List RefreshJob)
    → All Naive jobs
    → any was_run jobs ≡ true
    → due_jobs max_backoff now jobs ≡ none
unfolding due_jobs
due_jobs-none max_backoff now [] n h = absurd cc
due_jobs-none max_backoff now (job ∷ jobs) n h = elim (Bool-cases (was_run job)) [
  | inl e ↦ rw (raises max_backoff now job n.0 e) refl
  | inr e ↦ ground (arith, due_jobs-none max_backoff now jobs n.1 (rw e at h))
]

tick-none :
    (max_backoff now : ℕ) (hook writes : Bool) (fetch : ℕ → RefreshJob → Fetched) (s : Scheduler)
    → due_jobs max_backoff now (values (Scheduler.jobs s)) ≡ none
    → tick max_backoff hook writes fetch now s ≡ (s, [])
unfolding tick
tick-none max_backoff now hook writes fetch s h = rw h refl

-- If the column hands times back without a time zone, then after a restart that loads an enabled job
-- which has been refreshed before, no round of the loop runs any job, at any time, and nothing changes.
pub restart_stalls :
    (column : Stamp → Stamp)
    → ((t : Stamp) → Stamp.aware (column t) ≡ false)
    → (max_backoff now : ℕ) (hook writes : Bool) (fetch : ℕ → RefreshJob → Fetched) (s : Scheduler)
    → let s' = (load_from_db column true (restart s)).1 in
      any was_run (values (Scheduler.jobs s')) ≡ true
      → tick max_backoff hook writes fetch now s' ≡ (s', [])
restart_stalls column no_zone max_backoff now hook writes fetch s h =
    tick-none max_backoff now hook writes fetch _
      (due_jobs-none max_backoff now _ (load-Naive column no_zone s) h)
