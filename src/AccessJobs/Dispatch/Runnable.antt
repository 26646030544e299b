-- ===== src/AccessJobs/Dispatch/Runnable.antt =====
-- src/access_jobs.py `process_dispatched_access_job`: the payloads that a worker can carry out.
use plaidify.Base.{◌≡◌, some, nat_eq}
use plaidify.Base.Compare.{list_eq}
use plaidify.Base.Dict.{Dict, lookup}
use plaidify.Base.Text.{Text, lit}
use plaidify.Json.{Value, Codec}
use plaidify.Redis.{Redis}
use plaidify.AccessJobs.Locking.{Locking}
use plaidify.AccessJobs.Dispatch.{
  Streams, text_value, dict_value, Worker, Executor, resolve_dispatched_executor,
}
use plaidify.AccessJobs.Dispatch.Payload.{Cipher, decrypt_dispatch_kwargs}

module _ (C : Codec) (L : Locking) (S : Streams) (R : Redis (Codec.Blob C)) (K : Cipher)
    (wk : Worker C L S R K) where
  -- A payload that the worker can carry out.
  pub record Runnable (payload : Dict Text Value) : Type 0 where
    pub name : Text
    pub executor : Executor C L S R K
    pub encrypted : Dict Text Value
    pub kwargs : Dict Text Value
    pub named : text_value (lookup (lit "executor") payload) ≡ some name
    pub resolved : resolve_dispatched_executor C L S R K wk name ≡ some executor
    pub given : dict_value (lookup (lit "executor_kwargs") payload) ≡ some encrypted
    pub decrypted : decrypt_dispatch_kwargs K encrypted ≡ some kwargs
