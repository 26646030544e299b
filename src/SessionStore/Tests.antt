-- ===== src/SessionStore/Tests.antt =====
-- Runs of src/session_store.py at concrete inputs.
use plaidify.Base.{◌≡◌, ◌≤◌, ◌+◌, refl, true, false, none, some, [], ◌∷◌, arith, nat_eq, List}
use plaidify.Base.Compare.{list_eq}
use plaidify.Base.Dict.{Dict, lookup, insert}
use plaidify.Base.Text.{Text, lit}
use plaidify.Json.{num}
use plaidify.Redis.{Redis}
use plaidify.Redis.Simple.{simple}
use plaidify.SessionStore.Memory.{Session, get_webhook_deliveries}
use plaidify.SessionStore.Memory.Once.{Use, store, consume, uses, stores_of, consumed_once}
use plaidify.SessionStore.Memory.Deliveries.{last, add_all, get-add_all}
use plaidify.SessionStore.Shared.Once.{
  consume_shared, consume_script, script, fallback, consume_shared_once,
}

abbrev token : Text
token = lit "link-1"

abbrev other : Text
other = lit "link-2"

abbrev new_session : Session
new_session = record { created_at = none; events = none; subscribers = none; fields = [] }

abbrev one_session : Dict Text Session
one_session = (other, record new_session { created_at = some 5 }) ∷ []

abbrev some_uses : List Use
some_uses = store 10 token 60 ∷ consume 20 token ∷ consume 30 token ∷ consume 40 other ∷ []

consumed_once_example : uses token some_uses [] ≤ stores_of token some_uses + 0
unfolding lookup
consumed_once_example = consumed_once token some_uses []

no_deliveries : get_webhook_deliveries token [] ≡ last []
unfolding get_webhook_deliveries lookup
no_deliveries = refl

get-add_all_example :
    get_webhook_deliveries token (add_all token (num 1 ∷ num 2 ∷ []) []) ≡ last (num 1 ∷ num 2 ∷ [])
unfolding insert
get-add_all_example = get-add_all token (num 1 ∷ num 2 ∷ []) [] [] (omega arith) no_deliveries

abbrev shared : Redis.State (simple Text)
shared = (lit "plaidify:link_launch_bootstrap:link-1", (lit "issued", 60000)) ∷ []

consumed_first : (consume_shared (simple Text) (λ s t k. 50000) script 10 token shared).0 ≡ true
unfolding consume_shared consume_script lookup
consumed_first = refl

consume_shared_once_example :
    (consume_shared
      (simple Text)
      (λ s t k. 50000)
      (fallback (λ r. r) (λ r. r))
      20
      token
      (consume_shared (simple Text) (λ s t k. 50000) script 10 token shared).1).0
    ≡ false
consume_shared_once_example =
    consume_shared_once (simple Text) (λ s t k. 50000) script (fallback (λ r. r) (λ r. r)) 10 20
      token shared (omega arith) consumed_first
