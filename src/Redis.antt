-- ===== src/Redis.antt =====
-- What the server relies on of Redis, which is no part of the repository: plain keys with an
-- expiry. `B` is the type of the values, and times count ticks of the server's clock.
pub mod Simple
use plaidify.Base.{
  ℕ, ◌+◌, ◌≤◌, ◌≡◌, Bool, true, false, Option, none, some, ltb, if◌then◌else◌, ◌==◌, nat_eq,
}
use plaidify.Base.Compare.{list_eq}
use plaidify.Base.Text.{Text}

abbrev pub is_none {ℓ} : {A : Type ℓ} → Option A → Bool
is_none none = true
is_none (some _) = false

pub record Redis (B : Type 0) : Type 1 where
  pub State : Type 0
  -- `GET key` at a time
  pub get : State → ℕ → Text → Option B
  -- `SET key value EX seconds` at a time; the expiry is given in ticks
  pub set : State → ℕ → Text → B → ℕ → State
  -- `SET key value NX EX seconds`, with its answer
  pub set_nx : State → ℕ → Text → B → ℕ → State × Bool
  -- `DEL key`
  pub delete : State → Text → State
  -- A key is there from its `SET` until the expiry; other keys are left alone.
  pub get-set :
      (s : State) (t t' : ℕ) (k j : Text) (v : B) (ex : ℕ)
      → t ≤ t'
      → get (set s t k v ex) t' j
        ≡ (if k == j then (if ltb t' (t + ex) then some v else none) else get s t' j)
  pub get-delete :
      (s : State) (t : ℕ) (k j : Text) → get (delete s k) t j ≡ (if k == j then none else get s t j)
  -- `NX` sets the key only if it is not there.
  pub set_nx_lem :
      (s : State) (t : ℕ) (k : Text) (v : B) (ex : ℕ)
      → set_nx s t k v ex ≡ (if is_none (get s t k) then (set s t k v ex, true) else (s, false))
