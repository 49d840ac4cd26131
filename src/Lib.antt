-- ===== src/Lib.antt =====
-- Marketplace API: a shop whose checkout, outbox, relay and consumer place each order once.
--
-- The program. An HTTP request becomes one call of `checkout` (src/checkout.ts), a database
-- transaction that claims an idempotency key, takes stock, debits the buyer, writes the order with
-- its lines, a job and an outbox row, and binds the key to the order. The relay
-- (src/outbox/relay.ts) reads outbox rows, publishes their events to RabbitMQ and marks the rows.
-- The consumer (src/broker/consume-order-placed.ts) parses each message (src/broker/order-placed.ts)
-- and applies its effect in one more transaction (src/broker/effects.ts), then acks it.
--
-- The files.
--   Base              numbers, lists, sums over tables, texts, results
--   Js                JSON values, numbers of JavaScript, and the host's functions
--   Db.Rows           src/entities/, src/outbox/ddl.ts: the tables, one record for each row type
--   Db.Tx             a transaction as a state passing function: a throw restores the tables and
--                     keeps the sequences
--   Checkout.Steps    src/checkout.ts: types, the key, `reserve_line` and `reserve_lines` (the loop
--                     over items), `debit`
--   Checkout.Run      src/checkout.ts: `save_order`, `save_job`, `insert_outbox`, `bind_key`, and
--                     `checkout` that composes them
--   Checkout.{Outcome, StepLaws, Measures, Conservation, Idempotency, Orders, Consistency, Priced,
--                     Written}
--                     the proofs about checkout
--   Broker.Event      src/broker/order-placed.ts; its proofs are in Broker.Event.Laws
--   Broker.Effects    src/broker/effects.ts; its proofs are in Broker.Effects.Once
--   Broker.Consumer   src/broker/consume-order-placed.ts; its proofs are in Broker.Consumer.Exact
--   Broker.Publisher  src/broker/order-placed-publisher.service.ts and the connection of
--                     src/broker/publish-order-placed.ts; proofs are in
--                     Broker.Publisher.{Single, Reached, Strays}
--   Broker.Background `startBackgroundConsumer`, `open` and `safeClose` of
--                     src/broker/consume-order-placed.ts; proofs are in
--                     Broker.Background.{Owned, Reached}
--   Broker.Topology   `deathReason` of src/broker/topology.ts
--   Outbox.Relay      src/outbox/relay.ts; its proofs are in Outbox.Selection and Outbox.Published
--   Pagination        src/common/pagination/pagination.ts; its proofs are in Pagination.Pages and
--                     Pagination.Walk
--   Orders.Events     src/orders/order-events.service.ts, `ownerId`, and the handler `events` of
--                     src/orders/orders.controller.ts; its proofs are in Orders.Write, Orders.Since
--                     and Orders.Stream
--   Orders.{Publish, Service, Update, Gateway}
--                     `publish` of src/orders/order-events.service.ts, src/orders/orders.service.ts,
--                     `updateStatus`, and src/orders/orders.gateway.ts; their proofs are in
--                     Orders.Log, Orders.Reads, Orders.Update and Orders.Rooms
--   Products          src/products/products.service.ts; its proofs are in Products.Catalog
--   Idempotency       src/common/idempotency/idempotency.interceptor.ts; its proofs are in
--                     Idempotency.{Records, History, Spaced, Replies}
--   Jobs              src/job-worker.ts; its proofs are in Jobs.{Rows, Once, Invariant}
--   Problems          src/common/problem/: bodies, titles and truth of values; `ProblemFilter` is in
--                     Problems.Filter, and src/common/validation/validation.ts in
--                     Problems.Validation; proofs are in Problems.{Located, Answers}. Problems.Middleware
--                     is `validatorErrorHandler` of src/configure-app.ts
--   Repos             src/repos/products.repo.ts (`catalogWithRevenue`, `findById`); its proofs are in
--                     Repos.Catalog. Repos.Insert is `create` with its proof, and Repos.Users is
--                     src/repos/users.repo.ts with its proofs
--   Demo              src/outbox/demo-support.ts; Demo.Flow is src/demo-outbox.ts, which composes the
--                     interceptor, the controller, the checkout, the relay and the consumer; proofs
--                     are in Demo.{Place, Posts, Sent, Counts, Cleaned, Prepared}
--   Demo.Crash        src/demo-crash-write.ts and src/demo-crash-relay.ts; proofs are in
--                     Demo.{Lost, Resent, Crashes}
--   Demo.Duplicate    src/demo-duplicate.ts; its proofs are in Demo.Duplicate.{Traces, Rerun}
--   Demo.Publish      src/demo-publish.ts; Demo.Dlq is src/demo-dlq.ts
--   Demo.Race         src/demo-race.ts; its proofs are in Demo.Race.{Rows, Setup, Sold, Main}
--   Config            src/data-source.ts and src/broker/demo-setup.ts, up to the settings of the
--                     connection; its proofs are in Config.Loaded. Config.Workers is
--                     src/outbox/autostart.ts, src/broker/broker-url.ts and the test of `onModuleInit`
--   Retry             src/retry.ts; its proofs are in Retry.Attempts
--   Seed              src/seed.ts: Seed.Data is what it writes, Seed.Loop the form of its loops;
--                     proofs are in Seed.{Funded, Listed, Ordered, Again}
--   Store             src/store/store.service.ts; its proofs are in Store.Sale
--   Tests             runs on concrete data, and one use of each result
--
-- Names follow the source in snake_case: `reserve_line` is one turn of the loop in `checkout`,
-- `apply_order_placed` is `applyOrderPlaced`, `relay_outbox` is `relayOutbox`, `attach` is `attach`.
--
-- Choices of the model.
--   * A SQL statement is a function on the list of rows of its table. Transactions run one after
--     the other. An `UPDATE … WHERE … RETURNING` is a test and a write in one step, as it is under
--     its row lock.
--   * A transaction that throws gives back its tables; sequences keep what was taken from them.
--   * Ids, prices, quantities and balances are natural numbers, as the identity columns and the
--     check constraints of the schema have them; ids stay in the range of bigint. A number above the
--     largest int4 that reaches a parameter of type int4 is the database's error 22003. Times are
--     natural numbers.
--   * `JSON.parse`, `JSON.stringify`, base64url, `toISOString`, SHA-256 and the conversion of texts to
--     numbers are the fields of `Host` and `Base64`, parameters. What breaks a connection, what the
--     broker confirms and which rows another transaction has locked are arguments, so the results
--     hold for all of them.
--   * The events that the process publishes while a listener's log is read, and after it, are two
--     lists, arguments of the handler.
--   * The job workers, the publisher service, the background consumer and the requests that carry an
--     idempotency key are step relations: which worker, caller or request has the next turn, what the
--     clock reads, what a handler returns and which worker or connection fails are arguments of a
--     step.
--   * A value that is thrown and is no `HttpException` is read as JSON; the conversion of a value to
--     a text in a template literal is a parameter of `catch`.
--   * All loops are structural recursion, on their lists or on the attempts that are left. The client
--     that reads pages (Pagination.Walk) is given a number of requests as its fuel.
--
--   * The seed script is no transaction: a turn of a loop that throws leaves what the turns before it
--     have saved. Of several rows that `findOne` may answer with, it takes the first.
--   * Of the environment, the first entry of a name counts; `new URL`, `decodeURIComponent` and the
--     files that exist are the fields of `UrlHost`.
--
-- Not modelled: AMQP and HTTP I/O, the declaration of queues, timers, pools, log lines and the wiring of
-- the process, which only call libraries; the schema of the environment, which the library zod checks;
-- the migrations, for which the row types stand; the health probe, the printed report and the counter of
-- queries; and the demos of the retry, of the workers and of the queries per page, which time the
-- components against a live database.

pub mod Base
pub mod Js
pub mod Db
pub mod Broker
pub mod Checkout
pub mod Outbox
pub mod Tests
pub mod Pagination
pub mod Orders
pub mod Problems
pub mod Repos
pub mod Demo
pub mod Config
pub mod Retry
pub mod Seed
pub mod Store
pub mod Idempotency
pub mod Products
pub mod Jobs
