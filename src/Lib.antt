-- ===== src/Lib.antt =====
-- A peak-load service for bank transactions (Go): an HTTP API that writes to PostgreSQL, caches in
-- Redis, queues work in RabbitMQ and guards the database by a circuit breaker, beside a baseline
-- ("v0") that does everything at once.
--
-- Files. Paths are from the repository's root.
--   Values, Metrics: the request, response and message types of api/handler and api/queue, Go's
--     errors, and the collectors of api/metrics/prometheus.go.
--   Config: `getEnv`, strconv.Atoi and the durations, as api/cache/redis.go reads its settings.
--   Digits, Text: decimal and hexadecimal texts and what reading them gives; where a text is split.
--   Services: what the program calls and does not implement, as one record of operations over
--     abstract states; Services/Sql has the SQL texts, Services/Action the state that a handler
--     works on and one action for each call, Services/Laws what the services document, as
--     hypotheses, and Services/Laws/Reads what they say of a query's answer.
--   Tables: the tables of migrations/init.sql and what each SQL text does to them; Tables/Ledger
--     reads balances and statuses off them, Tables/Payments adds up payments.
--   Cache: Get, Set, Delete, DefaultTTL and the key functions of api/cache/redis.go;
--     Cache/Coherent is about caches whose entries are current, Cache/Others about the entries that
--     a use of the cache leaves alone.
--   Queue: Publish, QueueDepth and the consumer's loop of api/queue/rabbitmq.go.
--   Handler/CreateTransaction, Handler/GetTransaction, Handler/GetUserBalance: the handlers of
--     api/handler/transaction.go and user.go; Handler/Baseline those of v0_transaction.go. A Go
--     function with early returns is a chain of functions, one for each stage between the
--     returns, and carries the function's name at its head (`create_transaction` for
--     CreateTransaction). Each handler's properties are in modules below it; Handler/Reads is about
--     any sequence of the two reads, Handler/Versions about two versions of one read.
--   Middleware/RequestContext, Logger, Timeout, RateLimit, CircuitBreaker: the files of
--     api/middleware, with the rest of gin's chain as an argument; RequestContext and Timeout are
--     both in timeout.go.
--   Health: healthCheck of api/main.go. Collector: collectMetrics of it.
--   Server, Routes: a request, the state that requests share, and the middleware and routes that
--     main gives to gin; Routes/Quiet and Routes/Accounting are about metrics and log,
--     Routes/Refusals and Routes/Passing about the requests that are turned away and those that are
--     not, Routes/Posting about POST /transactions behind all of it, Routes/Unpaid and
--     Routes/Payments about what the routes do to the balances, Routes/Sent and Routes/Accepted
--     about the messages that they leave in the queue.
--   System: the goroutines of the service, each taking whole steps in any order;
--     System/Balances is about the balances after a run, System/Accepted about the requests that
--     a run pays, System/Invariant about what a run keeps, System/Caches about the cache while reads
--     and the worker alternate.
--   Startup: the Init and Close functions of api/db/postgres.go, api/cache/redis.go and
--     api/queue/rabbitmq.go, and the order in which main calls them.
--   Worker: processTransaction of api/main.go and the consumer that runs it; Worker/Freshness
--     and Worker/Balances are about the cache after it.
--   Pipeline: the specification of an executed transaction; Pipeline/Async holds the queued way to
--     it, Pipeline/Immediate the baseline's.
--   Examples: services in memory that meet all the laws, and the theorems at concrete calls.
--
-- State. A handler is a function from the world (the states of the services and the list of the
-- metrics' updates) to an answer and the next world. A call of a service may fail with any error.
-- The operations move abstract states, so what other clients do between two calls is not
-- excluded, except by the laws of the database, which speak of one client at a time. A float64 is
-- its bits; its conversions to and from NUMERIC(18, 2) are parameters (`Columns`). The rate
-- limiter's state, a map of addresses into a heap of limiters, and the log's lines stand beside the
-- world in the state of the server. The set-up runs over the state of the network and ends in its
-- result or in the exit of the process. Timeout's goroutine and select are a step relation.
--
-- Bounds. Loops are over lists (the consumer's over its deliveries, the clean-up's over the map, the
-- collector's over its ticks), so no fuel is needed. The dialling has the five rounds of its own
-- loop as its bound. The digits of n are computed with fuel n + 1, and each division by the
-- base makes a smaller number.
--
-- Failures. Any call of a service may return an error, and the error of an INSERT, an UPDATE or a
-- Commit may come after its effect (the reply was lost), so the theorems leave both open. A
-- publication without an error may be lost too, where the queue has no room. The gauge of the
-- circuit breaker follows the calls of OnStateChange that gobreaker makes.
--
-- Not modelled: gin's mode (but for the choice of it) and its matching of a path (a request carries
-- its route), panics and gin.Recovery, and how gobreaker counts (its documented answers are
-- hypotheses). gin, the JSON encoder, uuid, the clock and the client libraries are parameters. A
-- request's handler is one step of a run in System; Handler/CreateTransaction/Idempotency/Race and
-- Handler/GetTransaction/Late take two handlers apart.
mod Prelude
pub mod Values
pub mod Metrics
pub mod Config
pub mod Services
pub mod Tables
pub mod Cache
pub mod Queue
pub mod Handler
pub mod Middleware
pub mod Text
pub mod Digits
pub mod Server
pub mod Startup
pub mod Collector
pub mod Health
pub mod Routes
pub mod Worker
pub mod System
pub mod Pipeline
pub mod Examples
