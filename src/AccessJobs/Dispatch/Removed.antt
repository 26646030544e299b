-- ===== src/AccessJobs/Dispatch/Removed.antt =====
-- src/access_jobs.py `process_dispatched_access_job`: a claimed message leaves the stream.
use mathlib.Core.Option.{some-injective, none-ne-some}
use plaidify.Base.{
  ℕ, ◌≡◌, ◌≢◌, ◌⊎◌, refl, sym, ◌∙◌, Bool, true, false, some, ==_refl, nat_eq, Option-cases, inl,
  inr,
}
use plaidify.Base.Compare.{list_eq}
use plaidify.Base.Dict.{Dict, lookup}
use plaidify.Base.Text.{Text, lit}
use plaidify.Json.{Codec, Value}
use plaidify.Redis.{Redis}
use plaidify.AccessJobs.Locking.{Locking}
use plaidify.AccessJobs.Job.{failed}
use plaidify.AccessJobs.Execute.{World}
use plaidify.AccessJobs.Dispatch.{
  Message, Streams, dispatch_payload_key, job_id_of, Shop, Worker, ack_dispatched_message,
  delete_dispatch_payload, load_dispatch_payload, process_message, attempt, settle, mark_job,
  expired_message, expired, finally, Loaded, missing, malformed, loaded, Ended, raised_on,
}
use plaidify.AccessJobs.Dispatch.Payload.{Cipher}

module _ (C : Codec) (L : Locking) (S : Streams) (R : Redis (Codec.Blob C)) (K : Cipher) where
  gone :
      (s : Shop C L S R K) (id : Text)
      → Streams.holds S (Shop.stream (ack_dispatched_message C L S R K id s)) id ≡ false
  unfolding ack_dispatched_message
  gone s id = Streams.holds-xdel S _ id id ∙ rw (==_refl id) refl

  no_payload :
      (s : Shop C L S R K) (t : ℕ) (m id : Text)
      → load_dispatch_payload C L S R K t id
          (ack_dispatched_message C L S R K m (delete_dispatch_payload C L S R K id s))
        ≡ missing
  unfolding ack_dispatched_message delete_dispatch_payload load_dispatch_payload
  no_payload s t m id =
      rw
        (
          Redis.get-delete R (Shop.payloads s) t (dispatch_payload_key id)
              (dispatch_payload_key id),
          ==_refl (dispatch_payload_key id),
        )
        refl

  kept_payload :
      (s : Shop C L S R K) (t : ℕ) (m id : Text) (w : World C L)
      → load_dispatch_payload C L S R K t id
          (ack_dispatched_message C L S R K m (record s { world = w }))
        ≡ load_dispatch_payload C L S R K t id s
  unfolding ack_dispatched_message load_dispatch_payload
  kept_payload s t m id w = refl

  -- The shop after a message is processed, and whether an exception other than a cancellation goes on.
  abbrev pub Gone : Text → Shop C L S R K → Type 0
  Gone message_id after = Streams.holds S (Shop.stream after) message_id ≡ false

  abbrev pub Untouched : Shop C L S R K → Shop C L S R K → Type 0
  Untouched s after = (Shop.stream after ≡ Shop.stream s) × (Shop.payloads after ≡ Shop.payloads s)

  -- What is left when the payload is missing: the message is gone, or an exception goes on.
  expired-removes :
      (s : Shop C L S R K) (message_id : Text) (marked : Bool × World C L)
      → let result = expired C L S R K message_id s marked in
        (Gone message_id result.1
          × ((t : ℕ) (id : Text)
              → load_dispatch_payload C L S R K t id result.1
                ≡ load_dispatch_payload C L S R K t id s))
        ⊎ ((result.0 ≡ raised_on) × Untouched s result.1)
  unfolding expired
  expired-removes s message_id (true, w) =
      inl (gone (record s { world = w }) message_id, λ t id. kept_payload s t message_id id w)
  expired-removes s message_id (false, w) = inr (refl, (refl, refl))

  finally-removes :
      (s : Shop C L S R K) (message_id id : Text) (t : ℕ) (e : Ended C L S R K)
      (settled : Bool × World C L)
      → let result = finally C L S R K message_id id e s settled in
        Gone message_id result.1 × (load_dispatch_payload C L S R K t id result.1 ≡ missing)
  unfolding plaidify.AccessJobs.Dispatch.clean_up ack_dispatched_message
  finally-removes s message_id id t e (ok, w) =
      let s' = record s { world = w } in
      (gone (delete_dispatch_payload C L S R K id s') message_id, no_payload s' t message_id id)

  -- A message that is processed leaves the stream, and the payload of the job that it names is gone
  -- too, whatever the message, the executor and the database do, unless an exception comes before the
  -- `try`: the payload is no JSON, or it is missing and the job cannot be marked as failed. Then the
  -- exception goes on, and the stream and the payloads are as they were.
  pub process_message-removes :
      (wk : Worker C L S R K) (m : Message) (s : Shop C L S R K)
      → let result = process_message C L S R K wk m s in
        (Gone m.0 result.1
          × ((id : Text)
              → job_id_of (lookup (lit "job_id") m.1) ≡ some id
              → load_dispatch_payload C L S R K (Worker.now wk) id result.1 ≡ missing))
        ⊎ ((result.0 ≡ raised_on)
            × Untouched s result.1
            × ((id : Text) × ((job_id_of (lookup (lit "job_id") m.1) ≡ some id)
                  × ((p : Dict Text Value)
                      → load_dispatch_payload C L S R K (Worker.now wk) id s ≢ loaded p))))
  unfolding process_message
  process_message-removes wk (message_id, fields) s =
      elim (Option-cases (job_id_of (lookup (lit "job_id") fields))) [
        | inl e ↦ rw e (inl (gone s message_id, λ id h. absurd (none-ne-some id h)))
        | inr (id, e) ↦ by_payload id e (load_dispatch_payload C L S R K (Worker.now wk) id s) refl
      ]
    where
      by_payload :
          (id : Text)
          → job_id_of (lookup (lit "job_id") fields) ≡ some id
          → (l : Loaded C L S R K) → load_dispatch_payload C L S R K (Worker.now wk) id s ≡ l
          → let result = process_message C L S R K wk (message_id, fields) s in
            (Gone message_id result.1
              × ((id : Text)
                  → job_id_of (lookup (lit "job_id") fields) ≡ some id
                  → load_dispatch_payload C L S R K (Worker.now wk) id result.1 ≡ missing))
            ⊎ ((result.0 ≡ raised_on)
                × Untouched s result.1
                × ((id : Text) × ((job_id_of (lookup (lit "job_id") fields) ≡ some id)
                      × ((p : Dict Text Value)
                          → load_dispatch_payload C L S R K (Worker.now wk) id s ≢ loaded p))))
      by_payload id e malformed f = rw (e, f) (inr (refl, (refl, refl), (id, (refl, λ p h. cc))))
      by_payload id e missing f =
          let marked =
            mark_job C L S R K failed (Worker.mark_raises wk) (Worker.now wk) id expired_message
              (Shop.world s) in
          rw (e, f)
            (elim (expired-removes s message_id marked) [
              | inl (a, kept) ↦
                  inl (a, λ j h. kept (Worker.now wk) j ∙ rw (sym (some-injective id j h)) f)
              | inr (r, same) ↦ inr (r, same, (id, (refl, λ p h. cc)))
            ])
      by_payload id e (loaded payload) f =
          let r = attempt C L S R K wk id payload (Shop.world s) in
          let (a, b) =
            finally-removes s message_id id (Worker.now wk) r.0 (settle C L S R K wk id r) in
          rw (e, f) (inl (a, λ j h. rw (sym (some-injective id j h)) b))
