-- ===== src/Lib.antt =====
-- A verification library for the banking and vehicle telemetry monorepo.
--
-- The program. An HTTP API (apps/app-apis), behind the tokens of an auth API (apps/auth-api), keeps
-- customers, accounts, locks, comments and transfers in Postgres. A request for a transfer stores a
-- pending row and puts a job on a queue; a worker (apps/executor, with packages/shared/src/transfers)
-- takes the jobs one by one and moves the money in a transaction. Apart from that, trackers in vehicles
-- connect over TCP (apps/telemetry-ingest), announce themselves and send packets in a binary protocol
-- (packages/teltonika); the server turns these into events (packages/events), stores them through Kafka
-- and acknowledges them; consumers (apps/telemetry-consumers) write readings and raise alerts.
--
-- The files.
--   Base                  shared names, Boolean tests, lists and tables over native numbers
--   Bank/Errors           packages/shared/src/errors.ts; isUniqueViolation
--   Bank/Responses        packages/shared/src/middleware/error-handler.ts
--   Bank/Schema           packages/db/src/schema: rows, and the database as a value
--   Bank/Tx               queries and handlers as functions of a state that return or throw; transactions
--   Bank/Inserts          the INSERT of each table under its keys and checks
--   Bank/Transfers        executor.ts, processor.ts and dto.ts of packages/shared/src/transfers, and
--                         apps/app-apis/src/modules/transfers/service.ts with enqueueTransfer
--   Bank/Accounts, Locks, Comments, Customers
--                         the services of these names in apps/app-apis/src/modules
--   Bank/Ledger           balances against the completed transfers, and the end of a job (Settling)
--   Bank/Api              the HTTP layer: the schemas of requests (Validation, Routes/Requests: money.ts and
--                         middleware/validate.ts of packages/shared/src, the schemas.ts of the modules),
--                         requireAuth (Access: apps/app-apis/src/middleware/auth.ts), and the handlers and
--                         responses (Routes: each router.ts, packages/shared/src/route.ts, app.ts)
--   Bank/Machine          the API, the queue and the one worker as a machine: Changes has what a request may
--                         do, Ledgers the invariant, Refinement the abstract ledger
--   Auth                  apps/auth-api: service.ts, router.ts and schemas.ts of modules/auth, lib/tokens.ts,
--                         and packages/db/src/schema/users.ts
--   Teltonika             packages/teltonika/src: bytes and cursor, crc, avl, testing (the encoder), imei,
--                         ack, framer (under Framer: its rounds, chunks, bounds and opening); RoundTrip
--                         relates the parser and the encoder
--   Telemetry/Events      normalize.ts of packages/teltonika, build.ts of packages/events
--   Telemetry/Ingest      apps/telemetry-ingest/src/server.ts: one connection, and under Server the registry
--                         of connections
--   Telemetry/Schema      the event schema of packages/events/src/schemas.ts
--   Telemetry/Engine, Writers
--                         transitionsFor of engine.ts, and the rows that locations.ts and fuel.ts store, all
--                         in apps/telemetry-consumers/src/consumers
--   Telemetry/Vehicles, EngineWriter, Consumers
--                         vehicles.ts, the handlers of consumers/engine.ts, locations.ts and fuel.ts, and
--                         consumers/index.ts, in apps/telemetry-consumers/src
--   Telemetry/Kafka       client.ts, topics.ts and decodeTelemetryEvent of packages/events/src
--   OpenApi               packages/shared/src/openapi: merge.ts (Json has the trees, Texts the names, Merge
--                         the merge), docs-router.ts and the path templates of registry.ts (Docs)
--   Runtime               the env.ts, health.ts and the shutdown of main.ts of the five services in apps
--   Alerting              consumer.ts (shouldFire, Handler) and rules.ts (Rules) of
--                         apps/telemetry-consumers/src/alerting
--   Examples              the theorems at concrete inputs
--
-- Correspondence. A function of the source has the same name in snake case. Ids are UUIDs read as
-- numbers, times are milliseconds, money is in cents; a balance is a natural number since the schema's
-- check forbids a negative one, and an update that would leave the column's range throws. What the
-- program draws from outside is an argument: the time `now`, the id of a new row, the digest of a request
-- (SHA-256 of its JSON), whether the queue accepts a job, whether a publish resolves. Every handler and
-- every transaction is one step, and so is the worker's read of a row: requests come between it and the run
-- of the executor on that row. A path parameter is a UUID or none, and a request stands beside the path and
-- the Authorization header that it came with. What cors and express.json make of a message is a part of it:
-- cors answers an OPTIONS request, and express.json fails on a body that it cannot read. The merge of OpenAPI
-- documents shares the entries that it copies with the document that they come from, and what is rewritten
-- in that document later is rewritten in the result; bcrypt, jose, kafkajs, `JSON.parse`, text functions and the
-- great-circle distance are parameters. An error carries its code, not its message.
--
-- Bounds and fuel. The columns of money hold less than 2 ^ 63. `drain`, the loop of the framer's `push`,
-- has one round more than the buffer has bytes, and each round but the last takes a byte at least. The
-- client `follow` in Bank/Accounts/History asks for a number of pages that its theorem bounds. The search
-- for a free name in OpenApi/Merge has two rounds more than there are names in use, and the digits of a
-- number n one round more than n. All other loops are structural.
--
-- Not modelled: the rounding of numbers above 2 ^ 53 and of coordinates to floating point (a coordinate
-- is its integer of 1e-7 degrees); row locks inside a transaction; two workers at once, but for what the
-- executor does with a row read too early; failures of the database other than its constraints; BullMQ's
-- retries and deduplication (a job may be taken any number of times); an idle timeout while a publish is
-- awaited; log lines, sockets, CORS headers and the matching of paths; ids in upper case,
-- which the transfers service takes for other ids than the stored ones; the start of the services and of the Kafka
-- consumers; the building of an OpenAPI document from routes, but for its paths; the loading of keys;
-- the Docker containers of the tests; migrations and seeds.
pub mod Base
pub mod Bank
pub mod Teltonika
pub mod Alerting
pub mod Auth
pub mod Telemetry
pub mod OpenApi
pub mod Runtime
pub mod Examples
