-- ===== src/AccessJobs/Tests.antt =====
-- src/access_jobs.py: stand-ins for the platform, and the theorems at concrete inputs.
use plaidify.Base.{
  ℕ, zero, suc, ◌+◌, ◌%◌, ◌↔◌, ◌≡◌, ◌≢◌, refl, ap, true, false, none, some, List, [], ◌∷◌, inl, All,
  arith, drop,
}
use plaidify.Base.Dict.{Dict, lookup, insert}
use plaidify.Base.Text.{Text, lit}
use plaidify.Json.{Value, identity_codec}
use plaidify.Redis.{Redis}
use plaidify.Redis.Simple.{simple}
use plaidify.AccessJobs.Scope.{Platform, IsHex, build_lock_scope}
use plaidify.AccessJobs.Scope.Injective.{AreTold, is_principal, build_lock_scope_injective}
use plaidify.AccessJobs.Lock.{
  HeldScopeLock, Locks, local, redis, acquire_scope_lock, acquire_redis_loop, Surroundings,
  out_of_fuel, acquire_redis_lock, acquire_local_lock, lock_key, lock_ttl, try_lock,
}
use plaidify.AccessJobs.Lock.Waiting.{acquire_redis_lock_ends}
use plaidify.AccessJobs.Lock.Exclusive.{Act, try, drop_lock, run, lock_exclusive}
use plaidify.AccessJobs.Locking.{
  Locking, local_locking, acquire_local, scope_locking, acquire_scope,
}
use plaidify.AccessJobs.Job.{AccessJob, pending, mfa_required}
use plaidify.AccessJobs.Execute.{
  World, mfa_error, finished, Execution, execute_existing_job, persist_job,
}
use plaidify.AccessJobs.Execute.Cleanup.{GivenBack, execute-locks}
use plaidify.AccessJobs.Execute.Outcomes.{Stored, execute-Stored}
use plaidify.AccessJobs.Create.{Request}

abbrev head_of : Text → ℕ
head_of [] = 0
head_of (c ∷ t) = c

-- Numbers as strokes, and a digest that writes a digit for each character.
pub strokes : ℕ → Text
strokes zero = []
strokes (suc n) = b'1' ∷ strokes n

pub strokes-IsHex : (n : ℕ) → All IsHex (strokes n)
unfolding strokes
strokes-IsHex zero = tt
strokes-IsHex (suc n) = (inl (omega arith), strokes-IsHex n)

pub strokes_injective : (m n : ℕ) → strokes m ≡ strokes n → m ≡ n
unfolding strokes
strokes_injective zero zero e = refl
strokes_injective zero (suc n) e = cc
strokes_injective (suc m) zero e = cc
strokes_injective (suc m) (suc n) e = ap suc (strokes_injective m n (ap (drop 1) e))

abbrev pub digits : Text → Text
digits [] = []
digits (c ∷ t) = (b'0' + c % 10) ∷ digits t

pub digits-IsHex : (t : Text) → All IsHex (digits t)
digits-IsHex [] = tt
digits-IsHex (c ∷ t) = (inl (omega arith), digits-IsHex t)

abbrev pub platform : Platform
platform = record {
  strip_lower = λ t. t;
  show_int = strokes;
  sha256_hex = digits;
  strip_lower_idem = λ t. refl;
  show_int_IsHex = strokes-IsHex;
  show_int_injective = strokes_injective;
  digest_IsHex = digits-IsHex;
}

told_apart : AreTold platform (lit "bank:ann") (lit "bank:bob")
told_apart e =
    let digit : ◌≡◌ {A = ℕ} 55 56 = ap (λ t. head_of (drop 5 t)) e in absurd (omega arith)

build_lock_scope_injective_example :
    (build_lock_scope platform (lit "bank") none (some (lit "ann"))
      ≡ build_lock_scope platform (lit "bank") none (some (lit "bob")))
    ↔ ((is_principal (lit "ann") ≡ is_principal (lit "bob")) × (lit "bank" ≡ lit "bank"))
build_lock_scope_injective_example =
    build_lock_scope_injective platform (lit "bank") (lit "bank") none none (some (lit "ann"))
      (some (lit "bob")) told_apart

abbrev store : Redis Text
store = simple Text

quiet : Surroundings store
quiet = record { reachable = λ i. true; drift = λ i. 3; others = λ i s. s; local_others = λ l. l }

abbrev no_locks : Locks store
no_locks = record { store = []; local_locks = [] }

acquire_redis_lock_ends_example :
    acquire_redis_lock store quiet (lit "token") (lit "scope") 0 no_locks ≢ out_of_fuel
acquire_redis_lock_ends_example =
    acquire_redis_lock_ends store quiet (lit "token") (lit "scope") 0 no_locks

rivals : List (ℕ × Act)
rivals = (5, try (lit "scope") (lit "b")) ∷ (9, drop_lock (lit "scope") (lit "b")) ∷ []

lock_exclusive_example :
    store.get
      (run store (store.set_nx [] 0 (lock_key (lit "scope")) (lit "a") lock_ttl).0 rivals)
      100
      (lock_key (lit "scope"))
    ≡ some (lit "a")
unfolding rivals lookup insert try_lock
lock_exclusive_example =
    (lock_exclusive store [] (lit "scope") (lit "a") 0 10 100 rivals (lit "b") refl
      (omega arith, omega arith, b_not_a, (omega arith, omega arith, b_not_a, omega arith))
      (omega arith) (omega arith)).1
  where
    b_not_a : lit "b" ≢ lit "a"
    b_not_a e = let heads : ◌≡◌ {A = ℕ} 98 97 = ap head_of e in absurd (omega arith)

abbrev job : AccessJob identity_codec
job = record {
  id = lit "ajob-1";
  user_id = some 2;
  site = lit "bank";
  job_type = lit "connect";
  status = pending;
  lock_scope = lit "user:11:site:bank";
  session_id = some (lit "access-1");
  metadata_json = none;
  result_json = none;
  error_message = none;
  created_at = 0;
  started_at = none;
  completed_at = none;
}

abbrev start_world : World identity_codec local_locking
start_world = record { rows = []; commits = []; locks = []; sessions = []; audit = [] }

asks_for_mfa : Dict Text Value → Execution identity_codec local_locking
asks_for_mfa kwargs = record {
  outcome = mfa_error (lit "otp") (lit "access-1") (lit "MFA required");
  sessions = λ s. lit "access-1" ∷ s;
  locks = λ l. l;
}

abbrev held_lock : HeldScopeLock
held_lock = record {
  backend = local;
  scope = lit "user:11:site:bank";
  token = none;
  released = false;
}

-- A Redis lock of one job.
abbrev redis_locking : Locking
redis_locking = scope_locking store true true quiet (lit "token") 5 9

abbrev redis_world : World identity_codec redis_locking
redis_world = record { rows = []; commits = []; locks = no_locks; sessions = []; audit = [] }

abbrev finishes : Dict Text Value → Execution identity_codec redis_locking
finishes kwargs = record { outcome = finished []; sessions = λ s. s; locks = λ l. l }

abbrev redis_lock : HeldScopeLock
redis_lock = record {
  backend = redis;
  scope = lit "user:11:site:bank";
  token = some (lit "token");
  released = false;
}

execute-locks_example :
    GivenBack identity_codec redis_locking redis_lock finishes
      (redis_locking.acquire no_locks (lit "user:11:site:bank")).1
      (execute_existing_job identity_codec redis_locking redis_world job finishes [] none 5
        9).1.locks
unfolding acquire_scope acquire_scope_lock acquire_redis_lock acquire_redis_loop try_lock quiet
    lookup insert persist_job
execute-locks_example =
    ((execute-locks identity_codec redis_locking redis_world job finishes [] none 5 9).0 redis_lock
        refl).0
      (λ e. cc)

execute-Stored_example :
    Stored identity_codec local_locking
      (execute_existing_job identity_codec local_locking start_world job asks_for_mfa [] none 5 9).1
      (lit "ajob-1")
      mfa_required
unfolding acquire_local acquire_local_lock lookup asks_for_mfa
execute-Stored_example =
    (execute-Stored identity_codec local_locking start_world job asks_for_mfa [] none 5 9 refl).0
      held_lock refl

abbrev request : Request
request = record {
  site = lit "bank";
  job_type = lit "connect";
  user_id = some 2;
  principal_hint = none;
  session_id = none;
  metadata = none;
}
