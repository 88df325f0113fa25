-- ===== src/Lib.antt =====
-- Verification of the commerce backend: an API process and a worker process over one Postgres
-- database, joined by an outbox table, Kafka and an inbox table.
--
-- The API process takes orders (internal/http/order): `CreateOrder` holds stock and writes the
-- order, its reservations and an outbox row in one transaction; `Cancel`, `Pay` and `Fulfill` move
-- an order along the state machine of internal/domain/order.go. The relay
-- (internal/platform/outbox) publishes outbox rows. The worker process (cmd/worker) reads the
-- events: the payment handler charges new orders, the inventory handler commits or releases their
-- reservations, and each message is recorded by the audit. The inbox (internal/platform/inbox)
-- tells the handlers which events they have handled.
--
-- Files:
--   Base      names of the libraries, tests and lists over native numbers, integers, text
--   Domain    internal/domain: errors and their codes, statuses, `CanTransition`, `Transition`, and
--             the state machine as a step relation
--   Store     the tables (Table, Models), transactions whose statements may fail (Tx), calls by
--             services (Call), the rules for what a transaction ensures or keeps (Ensures), and
--             the ledger, inbox and outbox statements of internal/platform (Rows,
--             Inbox)
--   Orders    internal/http/order: Stock, Create, Change and Queries are repository.go, Service is
--             service.go, Handler is handler.go; the others hold the theorems on these
--   Workers   internal/worker and the loop of cmd/worker: Payload, Payment, Inventory, Audit,
--             Dispatch, and the theorems on these
--   Commerce  the steps of the two processes on orders, and histories of steps; the writes to
--             products by their sellers are not steps
--   Auth      internal/http/auth: users, login, the rotation of refresh tokens, and the handlers
--   Access    internal/http/middleware: the API key, the rate limit, authentication and roles as
--             filters, and internal/http/server where it composes them
--   Web       pkg/response: what the handlers share
--   Products  internal/http/product: the service, its pages, the caches, and the handlers
--   Relay     internal/platform/outbox: the relay's cycle and its pause flag; Wire is
--             internal/platform/kafka, an event on its way to a worker
--   Search    internal/platform/typesense: the search client and its retry
--   Notify    internal/http/notify: the hub, the notifier's loop, and the handshake
--   Health    internal/http/health: readiness
--   Lab       internal/http/lab: reindexing, and the views of the outbox
--   Config    internal/config: the configuration from the environment
--   Wishlist  internal/http/wishlist: the lists, their cached counts, and the handlers
--   Tests     runs of the model on small databases
--
-- How the model reads the code. A transaction is a function from the database and a list of faults
-- to its outcome: each statement reads one fault, which says whether it fails for a reason outside
-- the program, and a transaction that returns an error or whose commit fails leaves the database as
-- it was. A step of a history is one whole transaction: the rows that two operations on an order
-- or a product share are locked by the first statement that touches them. One transaction reads one
-- clock and draws one UUID. The loops are structural recursion over the rows they read, so that no
-- fuel is needed; the retries of the audit are the three of the source.
--
-- What is simplified. Amounts are whole units of the currency, on which the arithmetic of `float64`
-- is exact below 2 ^ 53, and times are seconds. Text is a list of code points: trimming and lower
-- case are those of ASCII and Latin-1, and lengths count code points. A JSON number in an event is
-- a natural number below 2 ^ 64. A sequence is a counter that a rollback resets, whereas Postgres
-- leaves a gap. Foreign keys to users and the 32 bits of Postgres integers are not modelled. The
-- key of a table that no query reads is left out of its record, as is `updated_at` of a payment,
-- `created_at` of a product and of a user, and the currency in an event.
-- Redis, Kafka, MongoDB, Typesense, bcrypt, JSON, SHA-256, golang-jwt, the limiter, the circuit
-- breaker and the validator are parameters or answers that may be any. So is what Postgres keeps of a
-- response in a column of the type `jsonb`, and what the writing of JSON makes of the bytes in a dead
-- letter. In Auth the statements on the user table do not fail, and checking and deleting a token id
-- is one step, which Race takes apart. In Products the statements of the listings may fail, and those
-- of the other handlers do not.
--
-- Outside the transactions on orders, what an outside service does is an answer read from a list,
-- one to a request, which says whether the request is served and whether its answer comes back. The
-- search client asks at most three times, which its code bounds; the notifier's wait is bounded by
-- its doubling. Decimal digits are written with fuel 19, enough below 2 ^ 63.
--
-- Not modelled: the request log, request ids, timeouts, security headers and CORS, which wrap
-- libraries; the summaries of the lab; and what only wires libraries together (metrics, telemetry,
-- connections, start-up).
pub mod Base
pub mod Domain
pub mod Store
pub mod Orders
pub mod Workers
pub mod Commerce
pub mod Auth
pub mod Access
pub mod Web
pub mod Products
pub mod Relay
pub mod Search
pub mod Notify
pub mod Health
pub mod Lab
pub mod Config
pub mod Wishlist
pub mod Tests
