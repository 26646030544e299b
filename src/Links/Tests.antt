-- ===== src/Links/Tests.antt =====
-- src/routers/links.py: the theorems at concrete tokens.
use plaidify.Base.{◌≡◌, ◌≢◌, refl, true, false, none, some, [], ◌∷◌, inr}
use plaidify.Base.Dict.{Dict, lookup, erase}
use plaidify.Base.Text.{Text, lit}
use plaidify.Json.{Value, num, obj, end, field, identity_codec}
use plaidify.AccessJobs.Locking.{local_locking, acquire_local}
use plaidify.AccessJobs.Job.{result_metadata, merge_metadata}
use plaidify.AccessJobs.Execute.{World, Execution, finished, execute_existing_job}
use plaidify.LinkSessions.Origin.{contains}
use plaidify.LinkSessions.Create.{Link}
use plaidify.AccessJobs.Tests.{platform}
use plaidify.Access.{Platform}
use plaidify.Links.Fetch.{fetch_data}
use plaidify.Links.Confined.{fetch_data-IsConfined}
use plaidify.Links.{AccessToken, Tables, exchange_public_token, submit_credentials}
use plaidify.Links.Tokens.{exchange_public_token-once, submit_credentials-twice}

abbrev link : Link
link = record { link_token = lit "link-1"; site = lit "bank"; user_id = 7 }

abbrev tables : Tables
tables = record {
  links = link ∷ [];
  tokens = [];
  public_tokens =
      record {
        token = lit "public-1";
        link_token = lit "link-1";
        access_token = lit "access-1";
        user_id = 7;
        expires_at = 100;
        exchanged = false;
      }
      ∷ [];
  grants = [];
  link_scopes = (lit "link-1", lit "balance") ∷ [];
}

exchange_public_token-once_example :
    (exchange_public_token 90 7
      (some (lit "public-1"))
      (exchange_public_token 50 7 (some (lit "public-1")) tables).1).0
    ≢ inr (lit "access-1")
unfolding exchange_public_token
exchange_public_token-once_example =
    (exchange_public_token-once 50 7 (some (lit "public-1")) tables (lit "access-1") refl).1 90 7
      (lit "access-1")

abbrev first_submission : Tables
first_submission =
    (submit_credentials inr (λ t. t) (lit "a") 7 (lit "link-1") (some (lit "u")) (some (lit "p"))
      none none tables).1

submit_credentials-twice_example :
    (row : AccessToken) × (Tables.tokens
        (submit_credentials inr
          (λ t. t)
          (lit "b")
          7
          (lit "link-1")
          (some (lit "u"))
          (some (lit "p"))
          none
          none
          first_submission).1
      ≡ row ∷ Tables.tokens first_submission)
    × (AccessToken.scopes row ≡ none)
unfolding submit_credentials lookup erase
submit_credentials-twice_example =
    (submit_credentials-twice inr (λ t. t) (lit "a") (lit "b") 7 (lit "link-1") (some (lit "u"))
      (some (lit "p")) (some (lit "u")) (some (lit "p")) tables (lit "a", some (lit "balance"))
      (lit "b", none) refl refl).2

abbrev reader : Platform
reader = record {
  strip = λ t. t;
  lower = λ t. t;
  load_list = λ t. some (lit "read:balance" ∷ []);
  sha256_hex = λ t. t;
  user_of_token = λ now t. inr 7;
}

abbrev fetching : Tables
fetching = record tables {
  tokens =
      record {
        token = lit "access-1";
        link_token = lit "link-1";
        username_encrypted = lit "u";
        password_encrypted = lit "p";
        scopes = some (lit "balance");
        user_id = 7;
        instructions = none;
      }
      ∷ [];
}

returns : Dict Text Value → Execution identity_codec local_locking
returns kwargs = record {
  outcome =
      finished
        ((lit "data", obj (field (lit "balance") (num 3) (field (lit "ssn") (num 4) end))) ∷ []);
  sessions = λ s. s;
  locks = λ l. l;
}

abbrev world : World identity_codec local_locking
world = record { rows = []; commits = []; locks = []; sessions = []; audit = [] }

fetch_data-IsConfined_example : contains (lit "balance") (lit "balance" ∷ []) ≡ true
unfolding lookup fetch_data execute_existing_job acquire_local returns result_metadata
    merge_metadata
fetch_data-IsConfined_example =
    (fetch_data-IsConfined reader identity_codec local_locking platform (λ t. t) (lit "ajob-1")
        (lit "access-1") 1 2 3 returns none 7 (lit "access-1") none fetching world _ link none
        (some (lit "balance" ∷ [])) refl refl refl refl refl _ (field (lit "balance") (num 3) end)
        (lit "balance") (num 3) refl refl refl).1
      (lit "balance" ∷ []) refl
