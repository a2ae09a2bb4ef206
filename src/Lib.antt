-- ===== src/Lib.antt =====
-- Verification of the booking platform: a set of Go services that hold, pay for and confirm bookings
-- of resources, and tell each other what happened by events.
--
-- The parts, and the files that model them (paths from the repository's root):
--   Contracts/Events      shared/contracts/events: names, payloads, the envelope's fields
--   Platform/Session      what a call of the program sees of its database, and of the driver (pgx)
--   Platform/Tx           shared/platform/pgxx `WithinTx`, and shared/platform/pgerr
--   Platform/Idempotency  shared/platform/idempotency `Claim`
--   Platform/Outbox       shared/platform/outbox `Enqueue`, and the services' `stage`
--   Platform/Inbox        shared/platform/inbox `Process`
--   Contracts/Validity    shared/contracts/events/envelope.go `Validate`, `Parse`, `New`
--   Platform/Relay        shared/platform/outbox/relay.go `publishBatch`; Drain has `drain`, `prune`
--                         and `Run`. Relayed, Passes, Batches, Weights, Passing, Healthy and Draining
--                         hold what a pass and a drain do, and Pruned and
--                         Spared what a prune deletes
--   Platform/Consumer     shared/platform/consumer `handleDelivery`, with Retries and Deliveries
--   Platform/Http         the replies of the servers; RetryTransport, with Resending, is
--                         shared/platform/httpx/retry.go
--   Platform/Keyed        tables whose rows have a key: lookup, update, counts
--   Availability/...      services/availability: Reservation (internal/domain/reservation.go), Table
--                         (the SQL of internal/infra/store.go on migrations/0001_reservation.sql),
--                         Store (internal/infra/store.go), Service (internal/domain/service.go),
--                         Consumer (internal/events/bookingcancelled.go), Requests (all of them),
--                         Api (internal/api/server.go), Lifetime (requests and prunes)
--   Booking/...           services/booking: Lifecycle (internal/domain/booking.go), Table and Store
--                         (internal/infra/store.go on migrations/0001_booking.sql), Service
--                         (internal/domain/service.go), Consumers (internal/events), Requests,
--                         Clients (internal/infra/availability.go, catalog.go), and Remote, which sets
--                         them against Availability's Api; Api (internal/api/server.go)
--                         and Privacy
--   Payment/...           services/payment: Lifecycle (internal/domain/payment.go), Table and Store
--                         (internal/infra/store.go), Service (internal/domain/service.go), Signature
--                         and Webhook (internal/stripe, internal/api/webhook.go), Consumer
--                         (internal/events/bookingheld.go), Requests, Api (internal/api/server.go)
--   Catalog/...           services/catalog: Product and Cursor (internal/domain), Store
--                         (internal/infra/store.go), Service (internal/domain/service.go), Api
--                         (internal/api/server.go); Paging, Walk and Bounds are about its pages
--   Gateway/...           services/gateway: RateLimit (internal/ratelimit), with Limiting
--   Notification/...      services/notification: Message (internal/domain/notification.go) and
--                         Confirmation (internal/events/confirmation.go, internal/infra/store.go);
--                         Amounts, Sending and Mailed are about them
--   Examples/...          the theorems at concrete inputs
-- The other modules of a service hold proofs: Effects and Applied or Recorded say what the body of a
-- transaction did, Invariant that it keeps the service's invariant, Safety that every operation does,
-- and Runs what follows for any run; Answers, Signed, Compensation, Paid and Charging are about single
-- operations.
--
-- How it is modelled. An operation is an action: a function of a `World`, which says how each call of
-- the driver ends (it may be refused, be lost, or be carried out and its answer lost), what other
-- connections commit before a transaction, how the clock moves and which ids are minted, and of a
-- `Session`, which holds the tables. An error is what errors.Is and errors.As find in Go's error.
-- Transactions are serial, as the row locks and the keys' primary key make those that conflict; what
-- others commit shows where a transaction or a lone query begins. That others keep a consistent
-- database consistent leaves out that they prune its outbox, where the counts of the outbox are part
-- of it; Availability/Lifetime has prunes as steps of their own, and follows what they delete. The SQL is a function on the
-- tables with the migrations' constraints. The loops are over lists, or over the attempts that are
-- left, but for `drain`, which goes on while its batches are full, and for a client's walk of a
-- listing: they take fuel. Each full pass of a drain takes at least one from the tries that the rows
-- have left (`tries`, of which a pending row has as many as it may still be tried, and one), so one
-- more than `tries` is enough; a walk needs one more than the listing has products.
--
-- The relay talks to a broker that confirms a message, drops it, or takes it and loses the confirm;
-- what it has taken stays with it when the transaction is rolled back. A consumer's delivery is
-- handled in attempts, between which others commit, and ends in one of three answers. A reply of a
-- server is its status with a body or an error's code, and a client reads that reply or none.
--
-- Parameters, being no code of the repository: the driver and the clock (`World`), the regular
-- expression and the text length of the database (`Engine`), encoding/json (`decode`), Stripe
-- (`Provider`), HMAC-SHA256 and the Go library's string functions (`Crypto`, `TokenCodec`, `Codec`),
-- the order of uuids (`UuidOrder`), the message broker (`Broker`), net/http (`Outside`), the token
-- bucket of golang.org/x/time/rate (`TokenBucket`), the mail server and the customers'
-- addresses (`Post`), the text of a mail (`Layout`), and, to booking's saga, the catalog and
-- availability clients (`Remotes`).
--
-- Not modelled: the broker's connection and queues, the gateway's routes, authorisation and proxy,
-- the sweeper's timer, booking's `List` and the request for it, the redaction of a mail address, which
-- is a parameter of `Layout`; the lengths of the waits between attempts; the format of ids and the
-- ranges of the database's integers; logging, metrics, configuration and panics.
pub mod Prelude
pub mod Contracts
pub mod Platform
pub mod Availability
pub mod Booking
pub mod Catalog
pub mod Gateway
pub mod Notification
pub mod Payment
pub mod Examples
