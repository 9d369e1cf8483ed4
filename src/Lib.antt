-- ===== src/Lib.antt =====
-- The Go package social publishes posts on Mastodon, LinkedIn and X. Posts stand in a table as
-- drafts, scheduled for a time, or queued for the slots of a publication schedule. A scheduler wakes
-- when the next post is due, publishes what is due, lets the slots that have fired take posts from
-- the queue, and repeats transient failures by a table of delays. Beside it, a router turns the
-- signals of an application into jobs, and a worker delivers these to agents over HTTP.
--
-- How the files correspond to the code:
-- - Model: the rows of the tables (schema.go, post.go, schedule.go, credential.go, router.go), the
--   error values (mastodon.go), what goes over HTTP, and a time zone. Db is the whole database.
-- - Table: SELECT, UPDATE, DELETE and COUNT on lists of rows; Table/Order: ORDER BY; Table/Single: a
--   row that is the only one with its key.
-- - Exec: methods as functions of an environment and a state that return a value or an error. Each
--   use of the clock, of the database, of the network and of random identifiers has a number, and
--   the environment answers by that number: calls of the database may fail one by one, a context may
--   be cancelled at any test, and a statement that fails writes nothing. Exec/Keeps has the rules for
--   invariants of the tables, Exec/Runs those for methods that always return, Exec/Yields and
--   Exec/Returns those for what a method's value and end state are like.
-- - Post: post.go (insertPost, updatePost, markPostPublished, markPostFailed, getPost, listPosts,
--   deletePost, inTx, duePosts, nextScheduledAt, logDeliveryAttempt, deliveryAttemptCount);
--   Post/Statements has its SQL.
-- - Credential: credential.go. AES-GCM with base64 is a pair of functions of the environment;
--   Credential/Readback is about what an upsert stores.
-- - Config: platform_config.go; Config/Clients: config_mcp.go, reloadPlatformClient and the clients
--   that New makes (social.go); Config/Stored, Config/Restart: what a restart loads; Config/View,
--   Config/Secret: what the summaries tell.
-- - Platform, Platform/Mastodon, Platform/LinkedIn, Platform/Twitter: mastodon.go, linkedin.go and
--   twitter.go: publishing, media upload, token refresh, the weighted length on X (Twitter/Weight);
--   Platform/Text has what they use of strings and strconv, and the modules Connect below the
--   platforms have authURL, exchangeCode, generatePKCE and fetchPersonURN.
-- - Schedule: schedule.go; Schedule/TimeOfDay is Sscanf for "%d:%d", Schedule/Fired is
--   firedSlotsBetween.
-- - Oauth: the state tokens of oauth.go; Oauth/Callback: its three callbacks.
-- - Scheduler: scheduler.go: nextInterval, publishWithRetry, publishNow, callPlatformPublish;
--   Scheduler/Refresh is maybeRefreshXCredential, Scheduler/Queue is processDue with
--   processSlotQueue; Scheduler/Marks and Scheduler/Selection: what an attempt and a tick keep.
-- - Router: router.go; Router/Validate: the validation of routes of route.go; Router/Worker is
--   route_worker.go.
-- - Tools: the tools on posts of mcp.go; Tools/Credentials: those on credentials; Tools/Schedules:
--   schedule_mcp.go; Tools/Statuses and Tools/Vocabulary: the statuses of stored posts;
--   Tools/Lasting, Tools/Elsewhere and Tools/Untouched: published posts.
-- - PostHttp: the HTTP handlers of post_http.go.
-- - Service: social.go with the loops of scheduler.go and route_worker.go, as a step relation on the
--   state of the whole program: Register, AddRoutes and Stop, requests, tools and events, and the
--   turns of the two goroutines, in any order; Service/Entry: the routes that Register mounts and the
--   tools; Service/Flow: the state flow; Service/Laws: what an invariant of the tables needs of the
--   SQL statements, and most other modules below that every operation then keeps it; Service/OnJobs,
--   Service/Attempts, Service/Settled: the jobs of the router; Service/Stop and Service/Joined: how
--   the program ends.
-- - Tests: concrete worlds and tables on which the theorems are applied.
--
-- How the parts interact: the scheduler reads due and queued posts (Post, Schedule), takes the
-- credential (Credential), may refresh it, calls a platform client (Platform) and writes the outcome
-- back (Post). The tools change posts through Post and publish through the scheduler's publishNow;
-- the HTTP handlers change posts through Post alone. A connection begins with a tool on credentials,
-- which stores a state token, and ends with a callback, which consumes the token, exchanges the code
-- at the platform and stores a credential. The clients come from the stored configurations, at the
-- start or when a tool changes one. The router's handler writes jobs that the worker reads; both meet
-- only in the table of jobs.
--
-- Bounds and fuel: instants are nanoseconds as natural numbers, durations are integers that wrap at
-- 64 bits where the code multiplies by a second. The inner loops of the slot queue recur on the
-- counts and lists they run over. The walk over the days of a window runs on fuel, the length of the
-- window in nanoseconds plus one. In a zone whose days begin one after the other each round moves the
-- cursor by at least a nanosecond.
--
-- Not modelled: the data definition statements, the migration, what the core library does with the
-- state flow that Register declares, and the descriptions of the tools for the protocol. A request, a
-- tool, an event, a tick and a round are one step each: what others do in the middle of one is left
-- out, and so are the locks around the clients. The select of a goroutine may take either case when
-- both are ready, and its timer may fire at any time. The calls of the host do not overlap; Register
-- and Stop are called at most once each, while AddRoutes may be called at any time and replace the
-- router. An error in the middle of reading rows comes with the rows that were read for the due jobs
-- alone; elsewhere the callers drop them, and it is the error of the query. Third-party code is an
-- argument: the application core's identifiers, tokens and error texts, the clock, the network and the
-- resolver, the zone database, time formats, URLs, JSON, the collation of the database, random bytes,
-- AES-GCM, SHA-256 and HMAC.
pub mod Prelude
pub mod Table
pub mod Model
pub mod Exec
pub mod Post
pub mod Config
pub mod Credential
pub mod Platform
pub mod Schedule
pub mod Service
pub mod Oauth
pub mod Scheduler
pub mod Router
pub mod Tools
pub mod PostHttp
pub mod Tests
