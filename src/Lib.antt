-- ===== src/Lib.antt =====
-- Signal Yard is a gateway for events of agents and tools. Four Go services share one Postgres
-- database and exchange messages over NATS JetStream:
--   the gateway (internal/coreapi) authenticates agents, limits their rate and publishes their events;
--   the webhook adapter (internal/webhook) verifies the deliveries of tools and publishes them too;
--   the normalizer (internal/normalizer) validates each event against the active schema of its category,
--   routes it, or quarantines it until a schema is approved;
--   the schema registry (internal/registry) keeps the versioned schemas, and the proposals that
--   administrators approve or reject.
-- The registry, the normalizer and the adapter authenticate with internal/platform.
--
-- The modules, and what they model:
--   Common                 helpers: tests, lists as tables (select, find, update, count, max_of, order_by)
--   Platform.Exec          Go functions that return (T, error) and write state; handlers and responses
--   Platform.Database      the tables of migrations/*.sql, one record for each kind of row
--   Platform.World         the shared state and the calls to the outside
--   Platform.Auth          internal/platform/auth.go and cors.go
--   Platform.Environ       what the four config.go share; Settings of each service is its config.go
--   Platform.Keeps, Platform.KeepsDb, Platform.Inversion
--                          how an action changes the state, rule by rule; what its parts did
--   Registry.Schemas, Registry.Proposals, Registry.Agents
--                          internal/registry/store.go
--   Registry.Git           internal/registry/git.go; Registry.Git.Open is what runs at the start
--   Registry.Handlers      internal/registry/handlers.go and events.go
--   Registry.Router        internal/registry/server.go
--   Registry.Versions, Registry.NewVersion, Registry.Dispatch, Registry.CommitTables, Registry.Settled,
--   Registry.Published, Registry.Approval, Registry.Access
--                          theorems about the registry
--   Normalizer             internal/normalizer: Worker and Replay are worker.go, RegistryClient, Store and
--                          Server the files of these names, Router the routes of server.go
--   Gateway                internal/coreapi: Rate is rate.go, Auth is auth.go, Slug, Keys and Store are
--                          store.go, Handlers is handlers.go, Router is server.go
--   Webhook                internal/webhook: Verify, Normalize, Store, Server; Router is in server.go
--   Gateway.Migrations     Store.Migrate, and the loop of cmd/core-api-gateway/main.go
--   Dispatch of Gateway, Normalizer and Webhook
--                          what their requests keep, given what their writes keep; Frame says which tables
--                          they write
--   Normalizer.Cached, .Fetched, .Counts, .Stored, .Redelivered, .Duplicated, .Quarantined, .Replayed
--   Gateway.Rate.Isolated, .Rate.Burst, .Revoked, .Slugs, .Unseen, .Idempotent, .Tokens, .Queried, .Migrations.Again
--   Webhook.Refusal, .Retried, .Signed
--                          theorems about them
--   System                 runs of the four services on one world: Step and Run; System.Registry,
--                          System.Quarantine and System.AuditLog are theorems about runs
--   Tests                  runs at concrete inputs
--
-- Names are those of the code in snake case: Store.CreateSchemaVersion is create_schema_version.
-- A function that returns an error is an Exec: it maps a state to a result and the state it leaves,
-- also when it fails. A handler raises the response with which it returns early. A request body is an
-- Option: none where decoding fails.
--
-- The outside (Platform.World.Env) answers by the number of the call: whether the database, JetStream
-- or git fails there, what time it is, which UUID is made. A theorem for every Env is one for every
-- pattern of failures. A failing statement writes nothing; a transaction that fails restores the
-- tables, unless it is the answer to its Commit that is an error: then Env says whether it took
-- effect. Hashes, JWTs, OpenID Connect, JSON schema validation, YAML and the registry's HTTP answers
-- are parameters. UUIDs are numbers, uuid.Nil is 0; times are nanoseconds since the zero time. The
-- arithmetic of float64 (Platform.Float64), which the rate limiter uses, is a field of Env. A table is
-- the list of its rows in the order of insertion; a foreign key or unique index is a test in the
-- operation that it can refuse.
--
-- In a run (System) requests, deliveries and restarts come in any order, and a message may come twice or
-- late. Each request is served as a whole.
--
-- No loop needs fuel: each is over a list.
--
-- Not modelled: process start-up (cmd, but for the loop over the migrations), the set-up of streams and
-- consumers, telemetry and metrics, static documents, the contents of git commits, the loop that fetches messages from JetStream (each delivery is
-- one call of a handler), and the goroutine of TouchAPIKey, which runs in line. The classifier and the
-- dashboard are other programs.
pub mod Common
pub mod Platform
pub mod Registry
pub mod Normalizer
pub mod Gateway
pub mod Webhook
pub mod System
pub mod Tests
