-- ===== src/Lib.antt =====
-- A backend that stands between trading EAs and a console in the browser. Each EA has a bridge, a
-- client of the WebSocket namespace /console, which registers the EA, sends telemetry and takes
-- commands; browsers subscribe to EAs there and send their commands over HTTP; a scheduler gives up
-- EAs that are silent, records points of their profit, and removes sockets with an expired token.
--
-- The parts, each with the file of the repository that it models:
-- - Prelude: shared names, tests on numbers and texts, association lists, lists and integers over ℕ.
-- - Cache: src/common/cache/ttl-cache.ts, the store of the last frames with their expiry times.
-- - Json, Data: JSON values; the documents of src/console/schemas, socket data, events and effects.
-- - Platform: what is used and not implemented here (mongoose, jose, uuid, JSON texts, base64) as a
--   record of operations with their documented laws; Platform.Exec is the state of the program and
--   its handlers as actions that give back the state beside an exception too; Platform.Documents has
--   the laws by agent; Platform.Memory is a platform of lists on which every theorem is applied once.
-- - Text: the text functions of the language that the sources use (split, trim, toLowerCase).
-- - Token: src/common/auth/safetyscore-token.ts and src/common/guards/safetyscore-token.guard.ts.
-- - Gateway: src/console/console.gateway.ts. Connection has handleConnection and handleDisconnect,
--   Bridge the events of a bridge, Client those of a browser, Sweep sweepExpiredSockets. A handler
--   takes a socket with its data and gives it back changed.
-- - Service: src/console/console.service.ts. Commands has the five single commands, Bulk
--   fanOutCommand with stopAccount and killAll, Settings the keys and pushSettings, Instances the
--   list and hideInstance, History the audit log and the points, Daily getPnlDailySummary up to the
--   aggregation that the database runs, Access who may do what. The modules called Isolation follow
--   what a method leaves of the EAs of other users.
-- - Scheduler: src/console/console.scheduler.ts.
-- - Http: Controller is src/console/console.controller.ts behind the guard; Bodies has the bodies of
--   src/console/dto behind the validation pipe of src/main.ts, which is a parameter; Logger has the
--   options of the request logger in src/app.module.ts; ErrorFilter is
--   src/common/http/http-error.filter.ts with its log lines; Throttle is src/common/guards/console-throttler.guard.ts
--   with client-ip.ts and risk.utils.ts; Middleware is src/middleware/required-headers.middleware.ts
--   with the media type check of src/main.ts; Origin is src/common/security/origin.ts with the check
--   of src/common/ws/socketio.adapter.ts.
-- - System: all of the above as one state machine, with an occurrence for each handler and each job;
--   System.Ownership, System.Audit and System.Telemetry follow an EA's owner, the audit log and the
--   cached state through its histories;
--   System.Server adds the sockets that are connected, each with its data, as a step relation, on which
--   System.Rooms and System.Bridges say who is in the rooms.
--   The modules called Keeps hold, beside each part, that its handlers leave alone what every write
--   but a registration's upsert leaves alone; Platform.Keeps has the rules for that.
-- - Tests: the theorems at concrete inputs.
--
-- How the parts meet: the service and the scheduler read the gateway's cache and send through its
-- rooms, the gateway verifies tokens as the guard does, and all of them share one state, `World`:
-- the database, the cache, the map of current bridge sockets, the cached key, a count of ids drawn
-- and the trace of what socket.io was asked. A socket that is asked to disconnect gets its
-- disconnect handler as a step of its own. A handler runs as one action; what other handlers do
-- while it awaits the database is modelled for two registrations, in Gateway.Bridge.Race, for a
-- registration that comes between the check and the update of a request to hide, in
-- Service.Instances.Race, for one that comes before the update of a disconnect handler, in
-- System.Offline, and for the disconnect handler that runs within a takeover's kick up to
-- its await, in System.Kick. `now` is what a handler's calls of Date.now() return, in milliseconds; the token's
-- times are in seconds.
--
-- Nothing runs on fuel: every loop of the program is over a list. Numbers are unbounded, as the times
-- and counts of the program stay far below 2^53, and the numbers of a JSON value are integers; where a
-- frame states its time as another value, it is converted as the language does, with the number of a
-- text as a parameter.
--
-- Not modelled: log lines but those of the error filter; the wiring of the framework (modules,
-- decorators, CORS options, body parsers, the health route); the schema of the environment, which is
-- handed to joi; the classes of src/console/dto/telemetry.dto.ts, which nothing checks at run time; and
-- node's hash function, which is a parameter.
pub mod Prelude
pub mod Cache
pub mod Json
pub mod Data
pub mod Platform
pub mod Text
pub mod Token
pub mod Gateway
pub mod Service
pub mod Scheduler
pub mod Http
pub mod System
pub mod Tests
