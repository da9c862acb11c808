-- ===== src/Lib.antt =====
-- The webhook delivery engine (Go): durable ingestion of events, signed at-least-once delivery by
-- workers, multi-tenant isolation and bounded resources.
--
-- The program and its parts. Producers call an HTTP API (cmd/api) that authenticates an API key
-- (internal/auth), limits the call (internal/ratelimit), and stores endpoints (internal/endpoint)
-- and events (internal/event) under authenticated encryption (internal/platform/cryptobox). Workers
-- (internal/delivery) claim due deliveries from PostgreSQL, open their envelopes, sign and send them
-- (internal/signing, internal/outboundhttp), and finalize each attempt as a success, a retry or a
-- permanent failure. A maintenance loop purges old data (internal/retention), and a console gives
-- browsers short sessions (internal/consolesession).
--
-- Conventions. A Go string or byte slice is the list of its bytes. An int, an int64 and a duration
-- in nanoseconds are integers, and an operation that can leave int64 is wrapped by `int64`. A time
-- is its number of nanoseconds since the epoch. An error return is the type `Result`, with the
-- error values of the package as constructors. The standard library's `strings`, `strconv`,
-- `encoding/*` are modelled in Golang.antt and below. Cryptographic primitives (AES-GCM, HMAC),
-- randomness, the clock, the database, DNS, JSON and URL parsers are arguments, with what is relied
-- on as hypotheses. Logging, metrics and tracing calls are left out: they return nothing that the
-- modelled code reads. Clearing secrets in memory is left out as well.
--
-- Which file models which part.
--   Common.antt and below: numbers, lists, bytes, integers and `Result`, shared by all.
--   Golang.antt and below: `strconv`, `strings`, `encoding/*` and `time`, as far as they are used.
--   Cryptobox.antt: internal/platform/cryptobox/cryptobox.go (`Seal`, `Open`, `AAD`).
--   Cryptobox/Keyrings.antt: internal/platform/cryptobox/materials.go and secretfile.go.
--   Signing.antt: internal/signing/signing.go (`Sign`, `HeaderValue`, `Verify`).
--   Outboundhttp.antt: the profiles of internal/platform/config/config.go, and `Authority`.
--   Outboundhttp/Policy.antt: internal/outboundhttp/policy.go, which addresses may be dialled.
--   Outboundhttp/Dialer.antt: `DialContext` of internal/outboundhttp/client.go.
--   Outboundhttp/Destination.antt: internal/outboundhttp/destination.go.
--   Delivery/Retry.antt: internal/delivery/retry.go, retry and poll delays.
--   Delivery/Types.antt: internal/delivery/types.go.
--   Delivery/Scheduler.antt: internal/delivery/scheduler.go, the worker's loop as a step relation.
--   Delivery/Requests.antt: internal/delivery/claim_crypto.go, and how outbound.go makes a request.
--   Delivery/Results.antt: how outbound.go classifies a reply, and postgres.go stores it.
--   Delivery/Outbound.antt: `deliver` of outbound.go and `processClaim` of delivery.go.
--   Delivery/Options.antt: the worker's settings, from internal/platform/config/validation.go and
--     cmd/worker/main.go to `NewRunnerWithOptions` and `claim` of internal/delivery/delivery.go.
--   Delivery/Replays.antt: internal/delivery/replay.go.
--   Endpoint.antt: the event types of internal/endpoint/validation.go.
--   Endpoint/Service.antt: internal/endpoint/endpoint.go (`CreateAs`, `Get`) with types.go.
--   Endpoint/Rotation.antt: internal/endpoint/rotation.go (`Rotate`).
--   Event/Json.antt: `decodeUnique` of internal/event/event.go, on the tokens of Go's decoder.
--   Event/Publish.antt: `Service.Publish` and `validateAndCanonicalize` of internal/event/event.go.
--   Event/Store.antt: internal/event/postgres.go, over lists of rows.
--   Event/Handler.antt: internal/event/http.go.
--   Tenanttx.antt: internal/platform/tenanttx/tenanttx.go (`Within`).
--   Config.antt and below: internal/platform/config, from `defaults` to `Load`: Readers.antt,
--     Environment.antt and Flags.antt read the settings, Validation.antt and Secrets.antt check them.
--   Quotas.antt: internal/platform/config/quota.go.
--   Ratelimit/Quota.antt: internal/ratelimit/ratelimit.go, the quotas of authenticated calls.
--   Ratelimit/Edge.antt: internal/ratelimit/edge.go and internal/platform/config/edge.go.
--   Auth.antt: internal/auth/auth.go, tokens and whom the middleware lets pass.
--   Retention.antt: internal/retention/retention.go (`RunOnce`, `Ready`).
--   Consolesession.antt: internal/consolesession/session.go.
--   Cursors.antt: the cursors of internal/delivery/list.go and internal/endpoint/list.go.
-- A module's proofs are in the modules below it, its tests and concrete runs in `Examples`.
--
-- How the parts meet. An attempt (Delivery/Outbound.antt) opens the envelopes of Cryptobox.antt,
-- signs by Signing.antt, and takes its delay from Delivery/Retry.antt; the loop of
-- Delivery/Scheduler.antt runs attempts as jobs, of which it sees only the end and its error. An
-- event's payload is sealed by Event/Publish.antt and opened by Delivery/Requests.antt; a destination
-- is parsed by Outboundhttp/Destination.antt and passes the policy of Delivery/Requests.antt.
--
-- The database. A transaction is a function from the tables to a result and the tables after it; an
-- error gives back the tables before, but a commit that answers with an error may also have been kept
-- (Tenanttx.antt). The tables are lists, a query is a function on
-- them, and the order that `ORDER BY` gives is an argument. Transactions run one after the other.
--
-- Bounds and fuel. The loop of the retry delay is a recursion on the rounds that its counter allows.
-- The purge loop of Retention.antt has fuel; any fuel above a measure of the database that each
-- purge with progress lowers is enough. The JSON decoder of Event/Json.antt has fuel; twice the
-- number of tokens is enough. All other loops run over lists. Integers of 64 and 16 bits wrap around
-- where the code can reach their ends. The key of the sort that the database applies is not looked
-- into.
--
-- What is not modelled. HTTP plumbing, telemetry, logging, templates and the SQL of the stored
-- procedures, and the handlers of internal/console and internal/chaoslab, which only pass values on.
-- Aggregates (internal/insights) are SQL. The commands under cmd start these parts and are
-- left out, and so is a panic inside a transaction.
mod Common
mod Golang
pub mod Cryptobox
pub mod Signing
pub mod Outboundhttp
pub mod Delivery
pub mod Ratelimit
pub mod Auth
pub mod Retention
pub mod Consolesession
pub mod Cursors
pub mod Quotas
pub mod Endpoint
pub mod Config
pub mod Tenanttx
pub mod Event
