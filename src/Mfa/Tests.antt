-- ===== src/Mfa/Tests.antt =====
-- Runs of src/core/mfa_manager.py at concrete inputs.
use plaidify.Base.{◌≡◌, ◌+◌, ◌*◌, refl, ltb, true, false, none, some, [], ◌∷◌, arith, nat_eq}
use plaidify.Base.Compare.{list_eq}
use plaidify.Base.Dict.{Dict, lookup, insert}
use plaidify.Base.Text.{Text, lit}
use plaidify.Json.{Value, text, identity_codec}
use plaidify.Redis.{Redis}
use plaidify.Redis.Simple.{simple}
use plaidify.Mfa.{
  MfaSession, Manager, expired, submit_code, fetch_submitted_code, get_session, local_session,
  session_payload, redis_key, payload_expired, remaining_ttl,
}
use plaidify.Mfa.Fresh.{get_session-fresh}
use plaidify.Mfa.Submitted.{submit-fetch}

abbrev server : Redis (Dict Text Value)
server = simple (Dict Text Value)

abbrev pending : MfaSession
pending = record {
  session_id = lit "s1";
  site = lit "bank";
  mfa_type = lit "otp";
  created_at = 1000;
  ttl = 300;
  is_set = false;
  code = none;
  metadata = [];
  fetches = true;
}

-- A process without the session, which is in Redis; and one with it.
abbrev here : Manager identity_codec server true
here = record {
  sessions = [];
  store = (redis_key (lit "s1"), (session_payload pending, 301000)) ∷ [];
}

abbrev there : Manager identity_codec server true
there = record here { sessions = (lit "s1", pending) ∷ [] }

found : (get_session identity_codec server true 2000 (lit "s1") there).0 ≡ some pending
unfolding get_session local_session lookup
found = refl

get_session-fresh_example : expired 2000 pending ≡ false
get_session-fresh_example =
    get_session-fresh identity_codec server true 2000 (lit "s1") there pending found

fresh_at :
    (payload_expired 2000 (session_payload pending) ≡ false)
    × (payload_expired 9000 (session_payload pending) ≡ false)
unfolding payload_expired lookup
fresh_at = (refl, refl)

alive :
    ltb 9000 (
      2000
      + 1000 * remaining_ttl 2000 (insert (lit "code") (text (lit "42")) (session_payload pending)))
    ≡ true
unfolding remaining_ttl insert lookup
alive = refl

submit-fetch_example :
    let (accepted, after) =
      submit_code identity_codec server true 2000 (lit "s1") (lit "42") here in
    (accepted ≡ true)
    × ((fetch_submitted_code identity_codec server true 9000
          (lit "s1")
          (record there { store = Manager.store after })).0
        ≡ some (lit "42"))
unfolding lookup
submit-fetch_example =
    submit-fetch identity_codec server 2000 9000 (lit "s1") (lit "42") (session_payload pending)
      here there refl refl (omega arith) fresh_at.0 fresh_at.1 alive
