-- ===== src/SessionStore/Memory/Deliveries.antt =====
-- src/session_store.py: the delivery log of a webhook is the last deliveries.
use plaidify.Base.{
  ℕ, zero, suc, ◌+◌, ◌-◌, ◌≤◌, ◌≡◌, refl, sym, ap, ◌∙◌, List, [], ◌∷◌, ◌++◌, length, drop, arith,
  length-drop, length-append, ==_refl, nat_eq,
}
use plaidify.Base.Compare.{list_eq}
use plaidify.Base.Dict.{Dict, lookup, insert, lookup-insert}
use plaidify.Base.Text.{Text}
use plaidify.Json.{Value}
use plaidify.SessionStore.Evict.{evict_first}
use plaidify.SessionStore.Memory.{
  trim, max_deliveries, max_webhooks, or_default, add_webhook_delivery, get_webhook_deliveries,
}

-- The last deliveries, as a specification.
abbrev pub last : List Value → List Value
last vs = drop (length vs - max_deliveries) vs

trim-last : (vs : List Value) → trim vs ≡ last vs
trim-last vs = ground arith

module _ {A : Type 0} where
  drop-append : (m : ℕ) (xs ys : List A) → m ≤ length xs → drop m xs ++ ys ≡ drop m (xs ++ ys)
  drop-append zero xs ys h = refl
  drop-append (suc m) [] ys h = absurd (omega arith)
  drop-append (suc m) (x ∷ xs) ys h = drop-append m xs ys (omega arith)

  drop-none : (m : ℕ) → drop {A = A} m [] ≡ []
  drop-none zero = refl
  drop-none (suc m) = refl

  drop-drop : (a b : ℕ) (xs : List A) → drop a (drop b xs) ≡ drop (b + a) xs
  drop-drop a zero xs = ap (λ n. drop n xs) (omega arith)
  drop-drop a (suc b) [] = drop-none a ∙ sym (drop-none (suc b + a))
  drop-drop a (suc b) (x ∷ xs) = drop-drop a b xs ∙ sym (ap (λ n. drop n (x ∷ xs)) (shift b a))
    where
      shift : (b a : ℕ) → suc b + a ≡ suc (b + a)
      shift b a = omega arith

last-last : (vs : List Value) (v : Value) → last (last vs ++ v ∷ []) ≡ last (vs ++ v ∷ [])
last-last vs v =
    let m = length vs - max_deliveries in
    let joined = drop-append m vs (v ∷ []) (omega arith) in
    let w = vs ++ v ∷ [] in
    let k = length (last vs ++ v ∷ []) - max_deliveries in
    rw joined (
      drop-drop (length (drop m w) - max_deliveries) m w
      ∙ ap (λ n. drop n w) (omega (arith, length-drop m w, length-append vs (v ∷ []))))

append_nil : (us : List Value) → us ++ [] ≡ us
append_nil [] = refl
append_nil (u ∷ us) = ap (◌∷◌ u) (append_nil us)

append_assoc : (us : List Value) (v : Value) (vs : List Value) → (us ++ v ∷ []) ++ vs ≡ us ++ v ∷ vs
append_assoc [] v vs = refl
append_assoc (u ∷ us) v vs = ap (◌∷◌ u) (append_assoc us v vs)

length-insert-insert :
    (k : Text) (x y : List Value) (d : Dict Text (List Value))
    → length (insert k x (insert k y d)) ≡ length (insert k x d)
unfolding insert
length-insert-insert k x y [] = rw (==_refl k) refl
length-insert-insert k x y ((j, w) ∷ d) = ground (arith, length-insert-insert k x y d)

length-insert-ge :
    (k : Text) (x : List Value) (d : Dict Text (List Value)) → length d ≤ length (insert k x d)
unfolding insert
length-insert-ge k x [] = omega arith
length-insert-ge k x ((j, w) ∷ d) = ground (arith, length-insert-ge k x d)

length-insert-any :
    (k : Text) (x y : List Value) (d : Dict Text (List Value))
    → length (insert k x d) ≡ length (insert k y d)
unfolding insert
length-insert-any k x y [] = refl
length-insert-any k x y ((j, w) ∷ d) = ground (arith, length-insert-any k x y d)

evict_first-room :
    (d : Dict Text (List Value)) → length d ≤ max_webhooks → evict_first max_webhooks d ≡ d
unfolding evict_first
evict_first-room d h = ground arith

-- A store that still has room for a webhook.
abbrev pub HasRoom : Text → Dict Text (List Value) → Type 0
HasRoom k d = length (insert k [] d) ≤ max_webhooks

module _ (k : Text) (v : Value) (d : Dict Text (List Value)) (room : HasRoom k d) where
  kept : evict_first max_webhooks d ≡ d
  kept = evict_first-room d (omega (arith, length-insert-ge k [] d, room))

  get-add :
      (us : List Value)
      → get_webhook_deliveries k d ≡ last us
      → get_webhook_deliveries k (add_webhook_delivery k v d) ≡ last (us ++ v ∷ [])
  unfolding get_webhook_deliveries add_webhook_delivery
  get-add us h =
      rw (kept, lookup-insert k k (trim (or_default [] (lookup k d) ++ v ∷ [])) d, ==_refl k, h)
        (trim-last (last us ++ v ∷ []) ∙ last-last us v)

  add-HasRoom : HasRoom k (add_webhook_delivery k v d)
  unfolding add_webhook_delivery
  add-HasRoom = rw kept (
      omega
        (arith, length-insert-insert k [] (trim (or_default [] (lookup k d) ++ v ∷ [])) d, room))

-- The store after deliveries to one webhook.
unfoldable pub add_all : Text → List Value → Dict Text (List Value) → Dict Text (List Value)
add_all k [] d = d
add_all k (v ∷ vs) d = add_all k vs (add_webhook_delivery k v d)

-- In a store that has room for the webhook, and whose log for it holds the last of some deliveries,
-- the log after any further deliveries is the last 200 of all of them, in order.
pub get-add_all :
    (k : Text) (vs us : List Value) (d : Dict Text (List Value))
    → HasRoom k d
    → get_webhook_deliveries k d ≡ last us
    → get_webhook_deliveries k (add_all k vs d) ≡ last (us ++ vs)
unfolding add_all
get-add_all k [] us d room h = h ∙ ap last (sym (append_nil us))
get-add_all k (v ∷ vs) us d room h =
    get-add_all k vs (us ++ v ∷ []) (add_webhook_delivery k v d) (add-HasRoom k v d room)
      (get-add k v d room us h)
    ∙ ap last (append_assoc us v vs)
