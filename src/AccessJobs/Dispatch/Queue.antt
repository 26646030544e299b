-- ===== src/AccessJobs/Dispatch/Queue.antt =====
-- src/access_jobs.py: `_store_dispatch_payload` and `_queue_dispatched_access_job`, the server's side
-- of the dispatch. Times count milliseconds, as the time in the payload does.
use plaidify.Base.{
  ℕ, ◌*◌, ◌+◌, ◌≤◌, ◌<◌, ◌≡◌, refl, ap, ◌∙◌, ◌||◌, none, some, [], ◌∷◌, if◌then◌else◌, ◌==◌,
  ==_refl, nat_eq, lt→ltb,
}
use plaidify.Base.Compare.{list_eq}
use plaidify.Base.Dict.{Dict, lookup}
use plaidify.Base.Text.{Text, lit}
use plaidify.Json.{Value, num, text, obj, of_dict, to_dict-of_dict, Codec}
use plaidify.Redis.{Redis}
use plaidify.AccessJobs.Locking.{Locking}
use plaidify.AccessJobs.Dispatch.{
  Streams, Shop, loaded, read_as, dispatch_payload_key, text_value, dict_value,
  load_dispatch_payload,
}
use plaidify.AccessJobs.Dispatch.Payload.{
  Cipher, username, password, username_encrypted, password_encrypted, is_given,
  encrypt_dispatch_kwargs, decrypt_dispatch_kwargs, decrypt-encrypt_dispatch_kwargs,
}

-- The payload that `_store_dispatch_payload` writes.
unfoldable pub dispatch_payload : Cipher → ℕ → Text → Text → Dict Text Value → Dict Text Value
dispatch_payload K now job_id executor kwargs =
    (lit "job_id", text job_id)
    ∷ (lit "executor", text executor)
    ∷ (lit "executor_kwargs", obj (of_dict (encrypt_dispatch_kwargs K kwargs)))
    ∷ (lit "queued_at", num now)
    ∷ []

module _ (C : Codec) (L : Locking) (S : Streams) (R : Redis (Codec.Blob C)) (K : Cipher) where
  -- `ttl` is `access_job_payload_ttl`, in seconds.
  unfoldable pub store_dispatch_payload :
      ℕ → ℕ → Text → Text → Dict Text Value → Shop C L S R K → Shop C L S R K
  unfolding dispatch_payload
  store_dispatch_payload ttl now job_id executor kwargs s = record s {
    payloads =
        Redis.set R (Shop.payloads s) now (dispatch_payload_key job_id)
          (Codec.dumps C (dispatch_payload K now job_id executor kwargs)) (1000 * ttl);
  }

  unfoldable pub queue_dispatched_access_job :
      ℕ → ℕ → Text → Text → Dict Text Value → Shop C L S R K → Shop C L S R K
  unfolding store_dispatch_payload
  queue_dispatched_access_job ttl now job_id executor kwargs s =
      let grouped = record s { stream = Streams.ensure_group S (Shop.stream s) } in
      let stored = store_dispatch_payload ttl now job_id executor kwargs grouped in
      record stored { stream = Streams.xadd S (Shop.stream stored) ((lit "job_id", job_id) ∷ []) }

  stored :
      (ttl now later : ℕ) (job_id executor : Text) (kwargs : Dict Text Value) (s : Shop C L S R K)
      → now ≤ later
      → later < now + 1000 * ttl
      → load_dispatch_payload C L S R K later job_id
          (queue_dispatched_access_job ttl now job_id executor kwargs s)
        ≡ read_as C L S R K
            (Codec.loads C (Codec.dumps C (dispatch_payload K now job_id executor kwargs)))
  unfolding load_dispatch_payload queue_dispatched_access_job store_dispatch_payload
  stored ttl now later job_id executor kwargs s after before =
      rw
        (
          Redis.get-set R (Shop.payloads s) now later (dispatch_payload_key job_id)
              (dispatch_payload_key job_id)
              (Codec.dumps C (dispatch_payload K now job_id executor kwargs)) (1000 * ttl) after,
          ==_refl (dispatch_payload_key job_id),
          lt→ltb later (now + 1000 * ttl) before,
          Codec.is_empty-dumps C (dispatch_payload K now job_id executor kwargs),
        )
        refl

  -- What a worker loads, within the life of the payload, of a job that was queued: the name of the
  -- executor, and arguments that it decrypts to those given, if they had no key of an encrypted
  -- credential (`None` as a credential becomes a missing one).
  pub load-queue_dispatched_access_job :
      (ttl now later : ℕ) (job_id executor : Text) (kwargs : Dict Text Value) (s : Shop C L S R K)
      → now ≤ later
      → later < now + 1000 * ttl
      → lookup username_encrypted kwargs ≡ none
      → lookup password_encrypted kwargs ≡ none
      → (payload : Dict Text Value) × (load_dispatch_payload C L S R K later job_id
            (queue_dispatched_access_job ttl now job_id executor kwargs s)
          ≡ loaded payload)
        × (text_value (lookup (lit "executor") payload) ≡ some executor)
        × ((encrypted : Dict Text Value) × (dict_value (lookup (lit "executor_kwargs") payload)
              ≡ some encrypted)
            × ((clear : Dict Text Value) × (decrypt_dispatch_kwargs K encrypted ≡ some clear)
                × ((k : Text)
                    → lookup k clear ≡ (
                        if (username == k) || (password == k)
                        then is_given (lookup k kwargs)
                        else lookup k kwargs))))
  unfolding dispatch_payload lookup
  load-queue_dispatched_access_job ttl now later job_id executor kwargs s after before nu np =
      let (payload, read, same) =
        Codec.loads-dumps C (dispatch_payload K now job_id executor kwargs) in
      let e = encrypt_dispatch_kwargs K kwargs in
      (
        payload,
        stored ttl now later job_id executor kwargs s after before ∙ ap (read_as C L S R K) read,
        ap text_value (same (lit "executor")),
        (
          e,
          ap dict_value (same (lit "executor_kwargs")) ∙ ap some (to_dict-of_dict e),
          (decrypt-encrypt_dispatch_kwargs K kwargs nu np).2,
        ),
      )
