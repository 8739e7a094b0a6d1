-- ===== src/Lib.antt =====
-- A verification library for WatchWarden's controller (controller/src) and for the store of its web
-- interface (ui/src/store). The controller keeps one WebSocket connection to each agent, asks the
-- agents to check their containers for new images, decides which updates run on their own, orders
-- and batches the updates, prunes old images, and tells the operator by notifications and the
-- browsers by events.
--
-- The parts, and where they are modelled:
--   Semver              controller/src/lib/semver.ts: extractVersionParts, semverMatchesLevel, extractTag,
--                       extractExplicitTag, extractRepository; the automatic updates of the hub use it.
--   Orchestrator        controller/src/scheduler/orchestrator.ts: resolveUpdateBatches, topologicalSort,
--                       executeOrchestratedUpdate.
--   Scheduler           controller/src/scheduler/engine.ts: the cron tasks and the staggered check, which
--                       announces its size to the batcher.
--   Hub.Requests        controller/src/ws/hub.ts: sendAndWait and what settles its promises; the prune
--                       service waits through it.
--   Hub.AutoUpdate      controller/src/ws/hub.ts, the case CHECK_RESULT, with its statements of
--                       controller/src/db/queries.ts.
--   Hub.UpdateResult    controller/src/ws/hub.ts, the case UPDATE_RESULT, with insertUpdateLog and
--                       insertUpdateLogAndDigests of controller/src/db/queries.ts.
--   Hub.Queues          controller/src/ws/hub.ts: the promise chains that serialise an agent's messages.
--   Hub.Registration    controller/src/ws/hub.ts: authenticateAgent, tryRecoveryRegister.
--   Hub.Connections     controller/src/ws/hub.ts: sockets, heartbeats, statuses, the progress throttle.
--   Hub.TokenBucket     controller/src/ws/hub.ts: the rate limit of a connection.
--   SessionBatcher      controller/src/notifications/session-batcher.ts: update and check results,
--                       gathered into notifications.
--   Notifier            controller/src/notifications/notifier.ts and template-helpers.ts: which channels
--                       get an event, templates and links.
--   RegistryClient      controller/src/lib/registry-client.ts: references, credentials, the cache, and the
--                       lists of tags.
--   AgentRoutes         controller/src/api/routes/agents.ts: update, rollback, restart and versions, over
--                       the orchestrator and the hub's log.
--   Auth                controller/src/api/routes/auth.ts, controller/src/api/middleware/auth.ts: login,
--                       refresh, the password and the check of a request.
--   PruneService        controller/src/ws/prune-service.ts: single prunes and runs over all agents.
--   ApiTokens           controller/src/api/middleware/api-token-auth.ts, controller/src/api/routes/
--                       api-tokens.ts and their queries.
--   UiBroadcaster       controller/src/ws/ui-broadcaster.ts: events to the browsers.
--   Logger              controller/src/lib/logger.ts: the level and the debug mode.
--   UiStore             ui/src/store/useStore.ts: progress, checks and toasts.
-- Base, JsMap and Timers hold what they share: lists and tests on the native numbers, strings as lists
-- of code units, JavaScript's Map and Set with string keys, setTimeout and clearTimeout.
--
-- State is a record with the source's fields, an operation a function on it under the source's name
-- in snake case, and what the code sends or writes is a list in the state. Where the code waits, the
-- operation ends and another one goes on, so that sequences of operations are the interleavings of
-- the handlers. Times, random identifiers, the answers of the database that are not modelled, bcrypt,
-- PBKDF2, jsonwebtoken, SHA-256 and node-cron are arguments.
--
-- Bounds: the recursion of topologicalSort runs on fuel, one more than the containers to update, and
-- every visit takes one of their ids out, so it is enough, also for cyclic dependencies. Numbers are
-- natural numbers; a difference that the source can make negative is compared in the way the source
-- compares it. The token bucket counts in thousandths of a token instead of in floating point.
--
-- The scan of a template runs on one more than its characters, and the digests of tags on the number of
-- their names, of which each round takes at least one; the digits of a number n on n + 1.
--
-- Not modelled: the SQL of PostgreSQL apart from the statements that a model contains, the HTTP routes
-- other than those named above, the senders of notifications, the network exchange with registries,
-- the rate limits of the web framework, log lines, the Go agent, and the pages of the web interface.
pub mod Base
pub mod JsMap
pub mod Semver
pub mod Timers
pub mod SessionBatcher
pub mod Logger
pub mod UiBroadcaster
pub mod Hub
pub mod PruneService
pub mod ApiTokens
pub mod Orchestrator
pub mod Scheduler
pub mod AgentRoutes
pub mod Auth
pub mod RegistryClient
pub mod Notifier
pub mod UiStore
