-- ===== src/Mfa/Submitted.antt =====
-- src/core/mfa_manager.py: a code that one process submits is read by another through Redis.
use plaidify.Base.{
  ℕ, ◌+◌, ◌*◌, ◌≤◌, ◌≡◌, refl, ap, ◌∙◌, true, false, none, some, ltb, ==_refl, nat_eq,
}
use plaidify.Base.Compare.{list_eq}
use plaidify.Base.Dict.{Dict, lookup, insert, lookup-insert}
use plaidify.Base.Text.{Text, lit}
use plaidify.Json.{Value, text, Codec}
use plaidify.Redis.{Redis}
use plaidify.Mfa.{
  payload_expired, remaining_ttl, Manager, redis_key, read_payload, submit_code,
  fetch_submitted_code, text_of,
}

-- Payloads that agree on every key expire together.
expired-same :
    (now : ℕ) (p q : Dict Text Value)
    → ((k : Text) → lookup k q ≡ lookup k p)
    → payload_expired now q ≡ payload_expired now p
unfolding payload_expired
expired-same now p q same = rw (same (lit "ttl"), same (lit "created_at")) refl

-- A code does not change when a payload expires.
expired-code :
    (now : ℕ) (v : Value) (p : Dict Text Value)
    → payload_expired now (insert (lit "code") v p) ≡ payload_expired now p
unfolding payload_expired
expired-code now v p =
    rw
      (
        lookup-insert (lit "code") (lit "ttl") v p,
        lookup-insert (lit "code") (lit "created_at") v p,
      )
      refl

module _ (codec : Codec) (redis : Redis (Codec.Blob codec)) where
  -- What is read back of a payload that was written.
  read-written :
      (t t' ex : ℕ) (id : Text) (p : Dict Text Value) (s : Redis.State redis)
      → t ≤ t'
      → ltb t' (t + ex) ≡ true
      → (q : Dict Text Value) × (read_payload codec redis true t' id
            (Redis.set redis s t (redis_key id) (Codec.dumps codec p) ex)
          ≡ some q)
        × ((k : Text) → lookup k q ≡ lookup k p)
  read-written t t' ex id p s later alive =
      let (q, reads, same) = Codec.loads-dumps codec p in
      (
        q,
        rw
            (
              Redis.get-set redis s t t' (redis_key id) (redis_key id) (Codec.dumps codec p) ex
                  later,
              ==_refl (redis_key id),
              alive,
              Codec.is_empty-dumps codec p,
            )
            reads,
        same,
      )

  -- A process that does not hold the session itself, but reads a payload of it that has not expired,
  -- accepts a code for it; and as long as the payload lives, every process fetches this code.
  pub submit-fetch :
      (t t' : ℕ) (id code : Text) (p : Dict Text Value) (here there : Manager codec redis true)
      → lookup id (Manager.sessions here) ≡ none
      → read_payload codec redis true t id (Manager.store here) ≡ some p
      → t ≤ t'
      → payload_expired t p ≡ false
      → payload_expired t' p ≡ false
      → ltb t' (t + 1000 * remaining_ttl t (insert (lit "code") (text code) p)) ≡ true
      → let (accepted, after) = submit_code codec redis true t id code here in
        (accepted ≡ true)
        × ((fetch_submitted_code codec redis true t' id
              (record there { store = Manager.store after })).0
            ≡ some code)
  unfolding submit_code fetch_submitted_code
  submit-fetch t t' id code p here there absent reads later fresh fresh' alive =
      let p' = insert (lit "code") (text code) p in
      let (q, back, same) =
        read-written t t' (1000 * remaining_ttl t p') id p' (Manager.store here) later alive in
      let unexpired = expired-same t' p' q same ∙ expired-code t' (text code) p ∙ fresh' in
      let got =
        ap text_of (same (lit "code") ∙ lookup-insert (lit "code") (lit "code") (text code) p) in
      rw (absent, reads, fresh) (refl, rw (back, unexpired) got)
