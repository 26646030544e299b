-- ===== src/Lib.antt =====
-- Verification library of Plaidify: the Python server under src/ of the repository.
--
-- Parts, and the files that model them (paths from the repository's root):
--   src/access_jobs.py        AccessJobs: `Scope` builds the lock scope of a job, `Lock` is the Redis
--                             and the local lock, `Locking` the interface that a job relies on, `Job`
--                             the record and its metadata, `Execute` is `_execute_existing_job`,
--                             `Create` makes and shows jobs, `Dispatch` sends them through a stream
--                             of Redis to a worker (`Dispatch/Start` the server's side)
--   src/audit.py              Audit, with the retention job of src/app.py and the query endpoint of
--                             src/routers/audit.py (`Audit/Query`)
--   src/core/circuit_breaker.py  Breaker (`CircuitBreaker`) and Retry (`retry_with_backoff`)
--   src/session_store.py      SessionStore: `Evict` is how the stores are kept small, `Memory` the
--                             stores of one process, `Shared` the same stores in Redis
--   src/scheduled_refresh.py  Refresh: the schedules and the registry of jobs, `Run` one round of the
--                             scheduler's loop, `Restart` the jobs loaded from the database, `Unscheduled`
--                             a job that is taken out while it runs
--   src/core/mfa_manager.py   Mfa: sessions that wait for a code, in memory and in Redis
--   src/core/read_only_policy.py  ReadOnly: what is blocked after authentication
--   src/core/selector_cache.py    SelectorCache: cached selectors and their file
--   src/routers/link_sessions.py  LinkSessions: `Sanitize` and `Origin` are its helpers, `Create` makes
--                             sessions and redeems launch tokens (`Exchange`), `Events` takes the
--                             page's events, `Reconcile` lets a session follow its access job,
--                             `Status` shows it
--   src/dependencies.py       Access: API keys, agents, scopes and sites (`Sets` the sets of texts)
--   src/routers/links.py      Links: access tokens and public tokens, `Fetch` is `fetch_data`
-- The engine asks `ReadOnly` before it acts and waits in `Mfa` for codes; jobs run under its policy.
-- `Links` asks `Access` what its caller may reach and runs a job of `AccessJobs`.
-- A link session is kept by `SessionStore` and follows a job of `AccessJobs`.
-- A job takes its scope's lock, runs the executor, stores the outcome and gives the lock back.
--
-- An operation is a function from the state before to the state after and its result; a concurrent
-- history is a list of steps in the order in which they take effect. Names are the source's.
-- `Base` has Python's dictionaries as association lists in insertion order, tests and lists;
-- `Json` has JSON values; `Redis` states what is relied on of a Redis server.
--
-- Times are natural numbers of ticks, delays, thresholds and scores too: floats occur in the source
-- only as such. Hash functions, `json`, case conversion, regular expressions and Redis are parameters
-- (the records `Platform`, `Codec`, `Redis`, or functions), and each test module has an instance of
-- those it needs.
--
-- Loops over collections recur on the list. `retry_loop` has fuel for `retries + 1` attempts and the
-- wait for a Redis lock for one round per millisecond of the wait; both are shown to be enough.
--
-- Not modelled: logging and metrics, HTTP and the database session, the browser and the providers
-- behind it, cryptographic libraries, and the parts that no file above names.
pub mod Base
pub mod Json
pub mod Redis
pub mod Breaker
pub mod Retry
pub mod Audit
pub mod AccessJobs
pub mod SessionStore
pub mod Refresh
pub mod Mfa
pub mod ReadOnly
pub mod SelectorCache
pub mod LinkSessions
pub mod Access
pub mod Links
