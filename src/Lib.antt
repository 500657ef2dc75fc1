-- ===== src/Lib.antt =====
-- Skill Bridge: the Go backend (backend/). Four services answer gRPC calls: skills-service keeps the
-- taxonomy of skills, users-service the profiles and the skills of users, jobs-service the jobs and
-- their matches, auth-service the accounts and sessions. A service stores in its own Postgres
-- schema, caches lists in Redis, publishes events to Kafka and notifications to RabbitMQ, and
-- consumes the events of the others: user.skills.updated feeds the snapshot from which jobs-service
-- matches a posted job. The GraphQL gateway stands in front of them and limits the rate of requests.
--
-- Files and the code they model (paths from the repository's root):
--   Base, Base/*        Go's strings, errors and results, for all other files
--   Ids, Ids/Laws       dedupeNonEmpty, of which the services hold the same copy
--   Platform            the interfaces cache.Cache and Publisher of backend/internal/platform, JSON,
--                       and the state of a service: database, cache, and what was published
--   Platform/Laws       what the services rely on of a cache and of JSON
--   Fakes               instances in memory, for the examples
--   Skills/Server       backend/internal/skills/server.go: CreateSkill, ListSkills, GetSkillsByIds
--   Jobs/Model          backend/internal/jobs/model.go and the events of platform/kafka/events.go
--   Jobs/Server         backend/internal/jobs/server.go and cache_invalidation.go
--   Jobs/Server/History the same, as requests and events that follow one another
--   Jobs/Snapshot       backend/internal/jobs/snapshot.go: HandleUserSkillsUpdated
--   Jobs/Matcher        backend/internal/jobs/matcher.go: HandleJobPosted and the match store
--   Jobs/Matcher/Announced  who is told of a match when upserts fail
--   Users/Server        backend/internal/users/server.go: profiles, and AddUserSkill with its event
--   Auth/Model          backend/internal/auth/model.go and the claims of platform/jwks/token.go
--   Auth/Google         the exchange with Google of backend/internal/auth/oauth.go
--   Auth/Server         backend/internal/auth/server.go and oauth.go: Register, Login, Google sign-in
--   CacheClient         backend/internal/platform/cache/cache.go, over the calls of go-redis
--   RateLimit           backend/internal/gateway/ratelimit/ratelimit.go
--   RateLimit/FromEnv   its configuration in main of backend/cmd/api-gateway/main.go
--   Gateway/Authctx     backend/internal/gateway/authctx and the checks of gateway/graph/helpers.go
--   Gateway/Bridge      backend/internal/gateway/realtime: the handler of notifications
--   Gateway/Clients     the gRPC clients, the GraphQL types and the conversions of gateway/graph
--   Gateway/Loaders     backend/internal/gateway/dataloader/dataloader.go: the batch functions
--   Gateway/Lookups     resolveSkills, resolveDisplayNames and their variants with data loaders, of
--                       backend/internal/gateway/graph/helpers.go
--   Gateway/Resolvers   backend/internal/gateway/graph/schema.resolvers.go, but for OnNotification
--   Gateway/Resolvers/Matched  from a match to the history that a user reads
--   Gateway/Subscription  the goroutine of OnNotification, as a step relation
--   Gateway/Websocket   wsInitFunc and wsCloseFunc of backend/cmd/api-gateway/main.go (of which
--                       backend/cmd/allinone/main.go holds a copy), and the gauge of connections
--   Gateway/Ready       the check behind the gateway's /readyz, of backend/cmd/api-gateway/main.go
--   Gateway/Cors        backend/internal/gateway/cors/cors.go
--   KeyClient           backend/internal/platform/jwks/client.go: the cache of public keys
--   KeyServer           backend/internal/platform/jwks/keys.go, server.go and the verifier of token.go
--   Kafka               backend/internal/platform/kafka/producer.go and consumer.go
--   Kafka/Projection    that consumer with the handler of backend/internal/jobs/snapshot.go
--   Rabbit              backend/internal/platform/rabbitmq: topology.go, producer.go, consumer.go, close.go
--   Rabbit/Settle       the loop of that consumer, also with the handler of Gateway/Bridge
--   Observe             backend/internal/platform/sentry/sentry.go and tracing/tracing.go
--   Observe/Metrics     backend/internal/platform/telemetry/telemetry.go
--   Process/RequestIds  backend/internal/platform/requestid/requestid.go, and the logger's field
--   Process/Startup     backend/internal/platform/db/db.go and health/health.go, with the helpers of
--                       backend/cmd/allinone/main.go that connect a service
--   Process/Shutdown    backend/internal/platform/shutdown/shutdown.go and the interceptor of
--                       sentry/sentry.go that answers a panic
--   Process/Lifecycle   the calls of each main of backend/cmd that can fail at its start (Starts), the
--                       parts that it then runs (Commands), and what its shutdown stops when
-- The other modules hold the documented behaviour of the parameters and the theorems; the modules
-- Tests, GraphTests and LiveTests hold the examples, on the tables of Jobs/Memory and
-- Skills/Memory and on Fakes.
--
-- A method of a server is a function of the same name with underscores; its result is a value or an
-- error beside the new state, and a call that fails can have changed the state. The struct of a
-- server is a record with the calls it makes: gorm's calls are the fields of a record per service
-- (SkillsDb, JobsDb, SnapshotDb, MatchDb, UsersDb, AuthDb), and the records named Is... state their
-- documented behaviour where a theorem relies on it. New ids, the time, bcrypt, the signature of
-- tokens, the OAuth library, the split of an address and the division of floats are parameters too.
-- A publication is appended to the list `sent` when it is called. Between the services stand the
-- clients of Kafka and RabbitMQ: a consumer's loop runs over what its library hands it, turn by turn,
-- so that the loop is a structural recursion over a list.
-- A shutdown is a family of moments: its gRPC servers stop at once and each at its own time. A part that
-- does not stop when it is told, because a handler outlasts the deadline or a close gives up, is `late`;
-- the live subscriptions of the gateway are parts that no step stops.
-- What else runs concurrently is a step relation: the goroutine of a subscription with the messages,
-- the close of its channel, the client and the end of its context around it, and the WebSocket connections that come
-- and go in any order. The loop over the bytes of a number (KeyServer.bytes_loop) has the number
-- itself as fuel, which is enough because each round divides it by 256. The other loops run over lists
-- and need no fuel.
--
-- Not modelled: logging apart from the fields and the reports of errors, how long an operation took,
-- the set-up of the servers and of their routes in backend/cmd, the columns of timestamps that no
-- handler reads, the spans of traces, generated code, the notification service and the frontend.
pub mod Base
pub mod Ids
pub mod Observe
pub mod Platform
pub mod Fakes
pub mod Skills
pub mod Jobs
pub mod Auth
pub mod CacheClient
pub mod RateLimit
pub mod Users
pub mod Gateway
pub mod Kafka
pub mod KeyClient
pub mod KeyServer
pub mod Rabbit
pub mod Process
