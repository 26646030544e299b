-- ===== src/LinkSessions/Tests.antt =====
-- src/routers/link_sessions.py: the theorems at concrete sessions.
use plaidify.Base.{◌≡◌, ◌≢◌, refl, true, false, Option, none, some, [], ◌∷◌, nat_eq}
use plaidify.Base.Compare.{list_eq}
use plaidify.Base.Dict.{Dict, lookup, insert, erase_all}
use plaidify.SessionStore.Evict.{evict_expired}
use plaidify.Base.Text.{Text, lit}
use plaidify.Json.{Value, num, text, obj, end, field, identity_codec}
use plaidify.SessionStore.Memory.{Session, evict_bootstraps}
use plaidify.AccessJobs.Job.{AccessJob, completed}
use plaidify.AccessJobs.Create.{LiveSession}
use plaidify.LinkSessions.Sanitize.{sanitize, IsClean, sanitize-IsClean}
use plaidify.LinkSessions.Origin.{Headers}
use plaidify.LinkSessions.Create.{
  Platform, Server, Claims, claims, redeemed, exchange_link_bootstrap,
}
use plaidify.LinkSessions.Exchange.{exchange_once}
use plaidify.LinkSessions.Events.{Hub, post_link_session_event}
use plaidify.LinkSessions.Browser.{completed_in, post-completed}
use plaidify.LinkSessions.Clean.{IsCleanHub, post-IsCleanHub}
use plaidify.LinkSessions.Reconcile.{Database, reconcile_link_session}

sanitize-IsClean_example :
    IsClean
      (sanitize (obj (field (lit "site") (obj (field (lit "password") (text (lit "p")) end)) end)))
sanitize-IsClean_example =
    (sanitize-IsClean
      (obj (field (lit "site") (obj (field (lit "password") (text (lit "p")) end)) end))).0

abbrev platform : Platform
platform = record {
  strip = λ t. t;
  urlparse = λ t. none;
  dumps = λ scopes. [];
  int_of = λ t. some 7;
  generate_keypair = λ t. lit "key";
}

abbrev launch : Claims platform
launch = record {
  sub = some (lit "7");
  jti = some (lit "launch");
  site = none;
  allowed_origin = some (lit "https://a");
  allowed_origins = [];
  scopes = none;
  expires = 900;
}

abbrev from_a : Headers
from_a = record { origin = some (lit "https://a/"); referer = none }

abbrev server : Server
server = record {
  stores = record {
    link_sessions = [];
    link_scopes = [];
    link_refresh_schedules = [];
    link_launch_bootstraps =
        (lit "launch", record { consumed = false; created = 0; expires_in = 60 }) ∷ [];
    webhook_deliveries = [];
  };
  links = [];
}

exchange_once_example :
    (exchange_link_bootstrap platform 9
      (lit "link-2")
      (claims launch)
      from_a
      (exchange_link_bootstrap platform 5 (lit "link-1") (claims launch) from_a server).1).0
    ≢ redeemed (record {
      link_token = lit "link-2";
      link_url = lit "/link?token=link-2";
      public_key = lit "key";
      expires_in = 600;
      scopes = none;
    })
unfolding exchange_link_bootstrap lookup evict_bootstraps evict_expired erase_all
exchange_once_example =
    (exchange_once platform 5 (lit "link-1") launch from_a server
        (record {
          link_token = lit "link-1";
          link_url = lit "/link?token=link-1";
          public_key = lit "key";
          expires_in = 600;
          scopes = none;
        })
        refl).1
      9 (lit "link-2") launch from_a _ refl

abbrev session : Session
session = record {
  created_at = some 0;
  events = some [];
  subscribers = none;
  fields =
      (lit "status", text (lit "completed")) ∷ (lit "current_job_id", text (lit "ajob-1")) ∷ [];
}

abbrev hub : Hub
hub = record { sessions = (lit "link-1", session) ∷ []; webhooks = []; published = []; fired = [] }

abbrev exit : Dict Text Value
exit = (lit "event", text (lit "EXIT")) ∷ (lit "secret", num 1) ∷ []

post-completed_example : completed_in (lit "link-1") (Hub.sessions hub) ≡ true
unfolding post_link_session_event completed_in lookup insert
post-completed_example = post-completed 5 (lit "now") (lit "link-1") exit hub refl

post-IsCleanHub_example :
    IsCleanHub (post_link_session_event 5 (lit "now") (lit "link-1") exit hub).1
unfolding lookup IsClean
post-IsCleanHub_example =
    post-IsCleanHub 5 (lit "now") (lit "link-1") exit hub tt (record { published = tt; fired = tt })

abbrev job : AccessJob identity_codec
job = record {
  id = lit "ajob-1";
  user_id = some 7;
  site = lit "bank";
  job_type = lit "connect";
  status = completed;
  lock_scope = lit "user:7:site:bank";
  session_id = some (lit "access-1");
  metadata_json = none;
  result_json = none;
  error_message = none;
  created_at = 0;
  started_at = some 1;
  completed_at = some 2;
}

abbrev no_session : Text → Option LiveSession
no_session t = none

abbrev database : Database identity_codec
database = record { jobs = (lit "ajob-1", job) ∷ []; public_tokens = [] }

-- The page says that an institution is chosen, after the job has ended.
abbrev reset : Hub
reset = record hub {
  sessions =
      (
        lit "link-1",
        record session {
          fields =
              (lit "status", text (lit "awaiting_credentials"))
              ∷ (lit "current_job_id", text (lit "ajob-1"))
              ∷ [];
        },
      )
      ∷ [];
}

abbrev first_pass : Option Session × Database identity_codec × Hub
first_pass =
    reconcile_link_session identity_codec 5 (lit "t1") (lit "public-1") no_session (lit "link-1")
      none database reset
