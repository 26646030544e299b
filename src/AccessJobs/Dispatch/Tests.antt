-- ===== src/AccessJobs/Dispatch/Tests.antt =====
-- src/access_jobs.py: a stream and a cipher to stand in for the platform's, and the theorems about the
-- dispatch at a concrete job.
use mathlib.Core.Option.{none-ne-some}
use plaidify.Base.{
  ℕ, zero, suc, ◌≡◌, ◌≢◌, ◌<◌, refl, ◌⊎◌, ◌++◌, Bool, true, false, Option, none, some, List, [],
  ◌∷◌, if◌then◌else◌, ◌==◌, nat_eq, arith,
}
use plaidify.Base.Compare.{list_eq}
use plaidify.Base.Dict.{Dict, lookup, insert, erase, lookup-erase}
use plaidify.Base.Text.{Text, lit}
use plaidify.Json.{Value, null, text, arr, nil, cons, identity_codec}
use plaidify.Redis.{Redis}
use plaidify.Redis.Simple.{simple}
use plaidify.AccessJobs.Locking.{local_locking, acquire_local}
use plaidify.AccessJobs.Lock.{acquire_local_lock, local}
use plaidify.AccessJobs.Scope.{build_lock_scope}
use plaidify.AccessJobs.Create.{Request}
use plaidify.AccessJobs.Tests.{platform}
use plaidify.AccessJobs.Dispatch.Start.{start_access_job, start-process_message}
use plaidify.AccessJobs.Job.{AccessJob, JobStatus, pending, running, completed}
use plaidify.AccessJobs.Execute.{World, Execution, finished}
use plaidify.AccessJobs.Execute.Outcomes.{Stored}
use plaidify.AccessJobs.Dispatch.{
  raised_on, missing, loaded, job_id_of, process_dispatched_access_job, Message, Streams, Shop,
  Worker, process_message, load_dispatch_payload, dispatch_payload_key, resolve_dispatched_executor,
}
use plaidify.AccessJobs.Dispatch.Payload.{
  Cipher, encrypt_dispatch_kwargs, decrypt-encrypt_dispatch_kwargs,
}
use plaidify.AccessJobs.Dispatch.Queue.{dispatch_payload}
use plaidify.AccessJobs.Dispatch.Removed.{Gone, Untouched, process_message-removes}
use plaidify.AccessJobs.Dispatch.Settled.{IsSettled, keyed_insert, process_message-IsSettled}
use plaidify.AccessJobs.Dispatch.Waiting.{
  awaiting, IsOpenIn, wait_for_terminal_job_result, wait-verdict,
}

abbrev Log : Type 0
Log = Dict Text (Dict Text Text)

abbrev is_there : Option (Dict Text Text) → Bool
is_there none = false
is_there (some m) = true

abbrev entries : Log → List (List Message)
entries [] = []
entries (m ∷ ms) = (m ∷ []) ∷ []

first_entry : (s : Log) (m : Message) (ms : Log) → s ≡ m ∷ ms → entries s ≡ (m ∷ []) ∷ []
first_entry s m ms e = rw e refl

abbrev holds : Log → Text → Bool
holds s id = is_there (lookup id s)

holds_erase :
    (s : Log) (id other : Text)
    → holds (erase id s) other ≡ (if id == other then false else holds s other)
holds_erase s id other = rw (lookup-erase id other s) (split (id == other))
  where
    split :
        (b : Bool)
        → is_there (if b then none else lookup other s) ≡ (if b then false else holds s other)
    split true = refl
    split false = refl

abbrev log : Streams
log = record {
  State = Log;
  holds = holds;
  ensure_group = λ s. s;
  xautoclaim = λ s. ([], s);
  xreadgroup = λ s. (entries s, s);
  xadd = λ s m. s ++ (lit "1-0", m) ∷ [];
  xack = λ s id. s;
  xdel = λ s id. erase id s;
  stale = λ s. [];
  fresh = λ s. s;
  holds-xdel = holds_erase;
  stale-ensure_group = λ s. refl;
  fresh-ensure_group = λ s. refl;
  stale-xadd = λ s fields. refl;
  fresh-xadd = λ s fields. (lit "1-0", refl);
  xautoclaim-none = λ s e. (refl, refl);
  xreadgroup-first = first_entry;
}

abbrev opened : Value → Option Value
opened (arr (cons v nil)) = some v
opened _ = none

boxed_not_null : (v : Value) → arr (cons v nil) ≢ null
boxed_not_null v e = absurd cc

abbrev boxes : Cipher
boxes = record {
  encrypt = λ v. arr (cons v nil);
  decrypt = opened;
  not_null = boxed_not_null;
  decrypt-encrypt = λ v. refl;
}

abbrev store : Redis (Dict Text Value)
store = simple (Dict Text Value)

abbrev answers : Dict Text Value → Execution identity_codec local_locking
answers kwargs = record { outcome = finished []; sessions = λ s. s; locks = λ l. l }

abbrev job : AccessJob identity_codec
job = record {
  id = lit "ajob-1";
  user_id = some 2;
  site = lit "bank";
  job_type = lit "connect";
  status = pending;
  lock_scope = lit "user:2:site:bank";
  session_id = some (lit "access-1");
  metadata_json = none;
  result_json = none;
  error_message = none;
  created_at = 0;
  started_at = none;
  completed_at = none;
}

abbrev kwargs : Dict Text Value
kwargs = (lit "username", text (lit "ann")) ∷ []

abbrev payload : Dict Text Value
unfolding dispatch_payload encrypt_dispatch_kwargs
payload = dispatch_payload boxes 5 (lit "ajob-1") (lit "connect_to_site") kwargs

abbrev world : World identity_codec local_locking
world = record {
  rows = (lit "ajob-1", job) ∷ [];
  commits = [];
  locks = [];
  sessions = [];
  audit = [];
}

abbrev message : Message
message = (lit "1-0", (lit "job_id", lit "ajob-1") ∷ [])

abbrev shop : Shop identity_codec local_locking log store boxes
shop = record {
  world = world;
  payloads = (dispatch_payload_key (lit "ajob-1"), (payload, 5000)) ∷ [];
  stream = message ∷ [];
}

abbrev worker : Worker identity_codec local_locking log store boxes
worker = record {
  overrides = [];
  connect_to_site = answers;
  type_error_text = [];
  database_error_text = [];
  mark_raises = false;
  decrypt_error_text = [];
  now = 7;
  start = 8;
  finish = 9;
}

keyed :
    (id : Text) (row : AccessJob identity_codec)
    → lookup id ((lit "ajob-1", job) ∷ []) ≡ some row
    → row.id ≡ id
unfolding lookup insert
keyed = keyed_insert identity_codec local_locking job [] (λ id row h. absurd (none-ne-some row h))

process_message-removes_example :
    (Gone identity_codec local_locking log store boxes
        (lit "1-0")
        (process_message identity_codec local_locking log store boxes worker message shop).1
      × ((id : Text)
          → job_id_of (lookup (lit "job_id") message.1) ≡ some id
          → load_dispatch_payload identity_codec local_locking log store boxes 7 id
              (process_message identity_codec local_locking log store boxes worker message shop).1
            ≡ missing))
    ⊎ (((process_message identity_codec local_locking log store boxes worker message shop).0
          ≡ raised_on)
        × Untouched identity_codec local_locking log store boxes shop
            (process_message identity_codec local_locking log store boxes worker message shop).1
        × ((id : Text) × ((job_id_of (lookup (lit "job_id") message.1) ≡ some id)
              × ((p : Dict Text Value)
                  → load_dispatch_payload identity_codec local_locking log store boxes 7 id shop
                    ≢ loaded p))))
process_message-removes_example =
    process_message-removes identity_codec local_locking log store boxes worker message shop

process_message-IsSettled_example :
    IsSettled identity_codec local_locking
      (process_message identity_codec local_locking log store boxes worker message shop).1.world
      (lit "ajob-1")
unfolding lookup load_dispatch_payload acquire_local acquire_local_lock
process_message-IsSettled_example =
    process_message-IsSettled identity_codec local_locking log store boxes worker refl message shop
      (lit "ajob-1") job (refl, λ id row h. keyed id row h) refl refl (λ e. cc) (λ e. cc)

decrypt-encrypt_dispatch_kwargs_example :
    lookup (lit "username") (encrypt_dispatch_kwargs boxes kwargs) ≡ none
unfolding lookup
decrypt-encrypt_dispatch_kwargs_example = (decrypt-encrypt_dispatch_kwargs boxes kwargs refl refl).0

abbrev running_job : AccessJob identity_codec
running_job = record job { status = running; started_at = some 6 }

abbrev completed_job : AccessJob identity_codec
completed_job = record job { status = completed }

abbrev rows : ℕ → Dict Text (AccessJob identity_codec)
rows zero = (lit "ajob-1", running_job) ∷ []
rows (suc n) = (lit "ajob-1", completed_job) ∷ []

wait-verdict_example : wait_for_terminal_job_result identity_codec 5 rows (lit "ajob-1") ≢ awaiting
unfolding lookup
wait-verdict_example =
    (wait-verdict identity_codec 1 5 rows (lit "ajob-1") completed_job (omega arith) running_before
      refl refl).0
  where
    running_before : (i : ℕ) → i < 1 → IsOpenIn identity_codec (rows i) (lit "ajob-1")
    running_before zero h = (running_job, refl, refl)
    running_before (suc i) h = absurd (omega arith)

abbrev request : Request
request = record {
  site = lit "bank";
  job_type = lit "connect";
  user_id = some 2;
  principal_hint = none;
  session_id = none;
  metadata = none;
}

abbrev empty_shop : Shop identity_codec local_locking log store boxes
empty_shop = record { world = record world { rows = [] }; payloads = []; stream = [] }

start-process_message_example :
    (status : JobStatus) × Stored identity_codec local_locking
      (process_dispatched_access_job identity_codec local_locking log store boxes worker
        (start_access_job identity_codec local_locking log store boxes platform true 3600
          (lit "ajob-2")
          (lit "access-2")
          5
          request
          (some (lit "connect_to_site"))
          kwargs
          empty_shop).1).1.world
      (lit "ajob-2")
      status
unfolding lookup acquire_local acquire_local_lock resolve_dispatched_executor
start-process_message_example =
    let stored =
      start-process_message identity_codec local_locking log store boxes platform worker 3600
        (lit "ajob-2") (lit "access-2") 5 request b'c' (lit "onnect_to_site") kwargs empty_shop
        answers
        (record {
          backend = local;
          scope = build_lock_scope platform (lit "bank") (some 2) none;
          token = none;
          released = false;
        })
        (refl, λ id row h. absurd (none-ne-some row h)) refl refl refl (omega arith) (omega arith)
        refl refl refl refl refl in
    (_, stored.2)
