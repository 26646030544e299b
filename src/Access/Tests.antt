-- ===== src/Access/Tests.antt =====
-- src/dependencies.py: the theorems at a concrete API key.
use plaidify.Base.{◌≡◌, refl, true, none, some, List, [], ◌∷◌, inr}
use plaidify.Base.Text.{Text, lit}
use plaidify.LinkSessions.Origin.{contains}
use plaidify.Access.{Platform, AuthContext, constrain_requested_scopes}
use plaidify.Access.Scopes.{constrain_requested_scopes-allowed}

abbrev pub platform : Platform
platform = record {
  strip = λ t. t;
  lower = λ t. t;
  load_list = λ t. none;
  sha256_hex = λ t. t;
  user_of_token = λ now t. inr 7;
}

abbrev context : AuthContext
context = record {
  user = 7;
  is_api_key = true;
  api_key_id = some (lit "key-1");
  agent_id = none;
  allowed_scopes = some (lit "balance" ∷ lit "name" ∷ []);
  allowed_sites = none;
}

constrain_requested_scopes-allowed_example :
    (scopes : List Text) × (some (lit "name" ∷ []) ≡ some scopes)
    × ((x : Text) → contains x scopes ≡ true → contains x (lit "balance" ∷ lit "name" ∷ []) ≡ true)
unfolding constrain_requested_scopes contains
constrain_requested_scopes-allowed_example =
    let r =
      constrain_requested_scopes-allowed platform (some context) (lit "balance" ∷ lit "name" ∷ [])
        (some (lit "read:name" ∷ [])) (some (lit "name" ∷ [])) refl refl in
    (r.0, r.1, r.2)
