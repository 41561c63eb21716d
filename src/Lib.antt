-- ===== src/Lib.antt =====
-- Verification of the seller app load tester, a Go service that drives load runs against a seller's
-- ONDC endpoints and measures the callbacks.
--
-- An operator opens a session for a seller (BPP), the service searches its catalog, and a preorder run
-- sends select, init and confirm requests at a rate. The seller answers each request with a callback
-- (on_select, on_init, on_confirm), which the service matches to its request by the transaction.
-- At the end of a run every transaction is classified and the latencies are summarized.
--
-- The parts, their files and their code (paths from the root of the repository):
--   Base and its children: names of the libraries passed on, Boolean tests, lists, texts, association
--     lists with expiring entries, signed integers, and their lemmas.
--   Float: float64 values as the formulas that the program evaluates.
--   Json: decoded JSON values and the Go idioms over them.
--   Latency (internal/domain/latency): events and summaries, the percentile routines.
--   Session (internal/domain/session/types.go, validation.go, and `buildRunJourneyMetrics` of
--     manager.go): the records, the validations, the journey metrics.
--   Store: the two stores as tables, the errors, and the actions over them. Store/Keys, Store/Redis,
--     Store/Counters and Store/Routes model internal/ports/session/redis_store.go, Store/Mongo models
--     internal/ports/session/mongo_store.go.
--   Manager (internal/domain/session/manager.go): the operations on sessions and runs.
--   Dispatch (internal/domain/pipeline/dispatcher.go): the send loop, and in Dispatch/Semaphore the
--     interleavings of the loop, its channel, its wait group and the goroutines.
--   Limiter (internal/domain/session/rate_limiter.go): the Lua token buckets and their caller.
--   RunLog (internal/shared/runlog): the payloads and send times of a run; RunLog itself is
--     memory_store.go, and RunLog/Redis is redis_store.go over the commands of internal/shared/redis.
--   Notifier (internal/domain/pipeline/callback_notifier.go): waiting for a number of callbacks.
--   Callbacks (internal/handlers/callbacks): the callback handlers and the latency queue; Callbacks/Queue
--     has the interleavings of the calls that enqueue events and of the workers.
--   Preorder (internal/handlers/testing/routes.go): `finalizeRunLatencies` and `updateMetrics`.
--   Pacing (the `pacingThrottle` of the same file): the spacing of the requests of a run.
--   Coordinator (internal/domain/pipeline/coordinator.go): the payload that goes out, the
--     deliberate errors, and the three stages of a run.
--   Select (internal/domain/pipeline/select_batch.go): the select payloads, from an example or from a
--     catalog, their normalization and their identifiers.
--   Batch (internal/domain/pipeline/init_confirm_from_callbacks.go, init_confirm_batch.go): the init and
--     confirm payloads, from the callbacks in the run log or from an example.
--   Report (internal/domain/pipeline/report.go): the report of a run from its files.
--   Auth (internal/shared/ondcauth/ondcauth.go): signing and verifying the Authorization header.
--   Registry (internal/ports/registry/http_client.go): the lookup of public keys, and its cache.
--   Witnesses: concrete inputs for the theorems.
--
-- How they interact: the manager and the handlers run the store actions of Store (`Exec`), which take
-- an environment (clock, fresh identifier, failing calls) and a world (both stores). The callback
-- handlers change the run log, the notifier and the latency queue next to that world; the end of a run
-- reads the run log and the events that the callbacks left in MongoDB. The batch builders read a run log
-- through its method `Get`, so either run log serves them. The registry client signs its requests with Auth,
-- and Callbacks/Signed puts the two in the place of the verifier of the callback handlers.
--
-- Conventions. A method is a function by clauses with the name of the Go method in snake case. Integers
-- that count requests, milliseconds or nanoseconds are unbounded natural numbers: they stay far below
-- 2^63. A Go map is an association list, and the order in which Go ranges over it is that of the
-- list. A call of a store client may fail at each use, and what the code then
-- does is written out. No function needs fuel: every loop is structural recursion over a list, except
-- the concurrent ones, which are step relations without a bound on the number of steps.
--
-- Base64, BLAKE2b, ed25519, the printing and reading of numbers and times, random choices, and fresh
-- identifiers are parameters; a theorem that relies on one of them names what it takes.
--
-- Not modelled: the HTTP layer, the JSON encoding of records, files, log lines, the search payloads, the
-- goroutine of a whole run (`runPreorder`), the configuration, and the export command.
pub mod Auth
pub mod Base
pub mod Batch
pub mod Select
pub mod Registry
pub mod Report
pub mod Float
pub mod Json
pub mod Latency
pub mod Session
pub mod Store
pub mod Manager
pub mod Dispatch
pub mod Limiter
pub mod RunLog
pub mod Preorder
pub mod Notifier
pub mod Callbacks
pub mod Coordinator
pub mod Witnesses
pub mod Pacing
