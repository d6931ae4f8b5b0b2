-- ===== src/Lib.antt =====
-- Verification of AegisCore: how a committed change of the RBAC policy reaches the authorization
-- engine of every replica, the sessions and tokens of users, and the runtime libraries that these
-- stand on.
--
-- Parts and how they interact. A transaction that changes the policy also inserts an outbox event.
-- The dispatcher of each replica claims due events under a lease, publishes them to Redis, and
-- acknowledges or reschedules them. The watcher of each replica takes the messages as hints, reads the
-- database's revision, and refreshes the engine; the coordinator does the same right after a local
-- change. The engine decides requests with the policy that it has loaded, and denies while it is behind
-- its target. A login stores a refresh session in Redis and signs a pair of tokens; a refresh reads that
-- session, compares it with the claims and with the user's token version, and may replace it; a logout
-- deletes one session, or raises the token version and detaches them all, and the
-- worker pool runs the purge of what was detached. The scheduler's lock, the Redis subscriber, the local
-- cache, the worker pool and the rate limiter are shared libraries.
--
-- Files, by the code they model (permission/ is user-service/internal/features/permission/):
--   Base                      numbers, lists, int64, texts shared by all
--   Rbac/Outbox               permission/application/outbox.go
--   Rbac/Outbox/Store         permission/infrastructure/postgres/outbox_store.go
--   Rbac/Dispatcher           permission/application/dispatcher.go
--   Rbac/Engine               permission/infrastructure/casbin/enforcer.go, enforcer_lifecycle.go
--   Rbac/Engine/Flights       the goroutines around that engine, as a step relation
--   Rbac/Engine/Enforcement   Enforce of enforcer.go
--   Rbac/Message              permission/infrastructure/redis/message.go, the script of store.go
--   Rbac/Sync                 permission/application/policy_sync.go
--   Rbac/Watcher              permission/infrastructure/redis/watcher.go
--   Runtime/Scheduler         common/runtime/scheduler/lock.go, validation.go
--   Runtime/Subscriber        common/runtime/redispubsub/subscriber.go
--   Runtime/RateLimit         common/http/middleware/ratelimit.go
--   Auth/Domain               user-service/internal/features/auth/domain (auth/ below)
--   Auth/Keyspace             what auth/infrastructure/redis is given: Redis, JSON, scores, the link
--   Auth/Sessions             auth/infrastructure/redis/scripts, refresh_session_store.go
--   Auth/TokenVersions        auth/infrastructure/redis/token_version_store.go
--   Auth/PasswordChange       auth/infrastructure/redis/password_change_session_store.go
--   Auth/Tokens               auth/application/tokens/issuer.go, common/security/auth/jwt.go
--   Auth/Issuer               the operations of issuer.go on texts
--   Auth/Bearer               common/security/auth/token.go
--   Auth/Credentials          auth/infrastructure/postgres/credential_store.go
--   Auth/Verifier             auth/application/credentials/verifier.go
--   Auth/Validator            auth/application/validators, common/security/auth/token_version.go
--   Auth/Lifecycle            auth/application/sessions, auth/application/validators
--   Auth/UseCases             auth/application/command
--   Auth/Refresh, Replay      what a refresh has checked, and the use case over the Redis adapter
--   Runtime/LocalCache        common/runtime/localcache
--   Runtime/WorkerPool        common/runtime/workerpool: pool.go, execution.go, lifecycle.go
--   Tests                     the theorems at concrete inputs
-- Functions and types keep the source's names in snake case and UpperCamelCase.
--
-- Conventions. Native numbers throughout; time.Duration and int64 are the integers of Base/Int, with
-- the wrap-around of 64 bits written out where the source doubles. Instants are nanoseconds since
-- 1970. A UUID is a number, 0 the nil one. What a component asks of its surroundings (clock, context,
-- database replies, Redis, JSON, Casbin, token buckets) is a parameter that may answer differently at
-- each call; code that runs under a mutex or in one transaction is one function, and other goroutines
-- or replicas act between such functions. errors.Join is a list.
--
-- Loops. The backoff loops recurse on the rounds that are left, so that no fuel is chosen. Acquire
-- recurses on the rounds that its surroundings play; with a bound on the attempts that many rounds
-- are shown to be enough. The loops of dispatchBatch, HandlePayloads, the receive loop of the
-- subscriber and Cleanup recurse on what they go through. The loop that purges a detached session index
-- runs on fuel, of which one unit per session and one more is enough.
--
-- Not modelled: logs, metrics and error texts; the goroutines that only wait for a ticker and call the
-- modelled functions (Dispatcher.run, Watcher.run, the janitor of the limiter); Casbin's own
-- evaluation; the HTTP transport of the feature auth; and the features role and user.
pub mod Auth
pub mod Base
pub mod Rbac
pub mod Runtime
mod Tests
