-- ===== src/Lib.antt =====
-- Verification of the logistics order fulfilment platform.
--
-- The platform is a set of services. The order API places orders and moves them along their
-- statuses; each change is written, in the transaction that makes it, into an outbox table, and a
-- poller hands the outbox to Kafka (the topic order.status_changed) and to RabbitMQ (the routing
-- keys reserve_stock and notify). The inventory service reserves stock for a reserve_stock message
-- and answers on a reply queue, which the order API consumes: it cancels an order whose stock is
-- short. The inventory also consumes the status changes: a confirmed payment commits the order's
-- reservations, a cancellation releases them. The audit and the analytics service keep logs of the
-- status changes, and the notification service logs the notifications that it would send.
--
-- The files:
--   Prelude          lists, tables with a primary key, tables with a unique constraint, decimals,
--                    results.
--   Contracts        packages/contracts/src. Status, Schema and Json: the event and its schema;
--                    Topology: the names of queues and getNextRetryTarget; Delivery: a message as
--                    a consumer meets it. RoundTrip and Retry are about them.
--   OrderApi         apps/order-api/src. StateMachine, Entities, Payloads, Store (the tables, their
--                    constraints and transactions), Service (placeOrder, transition, findOne),
--                    Listing (findAll), Poller (jobs/outbox-poller.service.ts), Jobs, ReplyQueue
--                    (orders/reply-queue.consumer.ts), Http (the controller and its filter).
--                    Lifecycle, History, Writes, Consistency, System, Dedupe, Outcomes, Drain,
--                    Faults, Cancellation, Answers and Pages are about them.
--   Inventory        apps/inventory-service/src. Entities, Service (reserveStock and
--                    settleReservation), ReserveConsumer and EventConsumer (the handle of each
--                    consumer). Conservation, Moves, Ledger, Reserve, Settled, SettleTotal,
--                    Replies and Patience are about them.
--   EventLogs        apps/audit-service/src (Audit), apps/analytics-service/src (Analytics,
--                    TimeInStatus). Deliveries, Ingestion, Reports and Samples are about them.
--   Notification     apps/notification-service/src (Service). Sending is about it.
--   Rabbit           src/messaging/rabbitmq.module.ts of the order API, the inventory service and the
--                    notification service (Setup). Declared is about it.
--   Kafka            packages/contracts/src/topology/kafka.ts and src/messaging/kafka.consumer.ts of
--                    the three services that consume (Subscriptions).
--   Config           src/common/config/env.validation.ts of each service (Env). Reads is about it.
--   Migrations       src/database/migrations of each service: Ddl (the statements and the database
--                    that runs them), Orders, Stock, Logs. Revert is about them.
--   Web              apps/web. StatusMachine, Styles, Format and Types: lib; OrderForm and Ui:
--                    store/slices; Client and Fetches: lib/api.ts, store/api.ts and the proxy
--                    routes; View, Pagination, Charts, FormPage, Sidebar, Toasts and
--                    TransitionActions: components; OrdersPage, OrderPage, FraudPage, AnalyticsPage and PlainPages: app.
--                    A page is the list of what it shows, with what its controls ask for. Agreement,
--                    Paging, Offers and Durations are about them.
--   Composition      the order API, its poller, the brokers, the inventory's two consumers and the
--                    audit service as one system. World: its state and its steps, which interleave
--                    in any order. Announced, Backing, Invariant and Safety: what holds in every
--                    run; Rows, Batch, Delivered, Sound and Routed: the outbox and what it hands over;
--                    Polls and Drained: what the polls make of it once the brokers work.
--   Examples         concrete inputs.
--
-- How state and calls are modelled. A database is a record of tables, a transaction a function from
-- it to a result, which rolls back on an error. A run of a service is a list of calls, one after the
-- other: the order API and the settlements lock the rows that they change, so theirs of one order do
-- follow each other, but reserveStock looks for existing reservations without a lock, and two
-- deliveries of one message that are handled at once are not modelled. Failures from outside are
-- arguments: a database or Redis that does not answer, a broker that refuses. What a handler does to
-- its channel is the list of its acknowledgements and sends. Texts and times that the runtime
-- makes (uuids, the present time) are arguments too.
--
-- Parameters stand for what is not in the repository: the numbers of JavaScript and their printing
-- and parsing (JsNumber), parseInt, trim, split and the formats of a locale (Locale), JSON.parse, `new Date`,
-- what a numeric column accepts, what the columns of the logs accept, SUM over a numeric column, the
-- database that runs a migration, and the broker's `x-death` header, of which only the entry for a
-- first death in a queue is relied on.
-- Quantities are natural numbers up to the maximum of an integer column.
--
-- What a query of findAll does with orders of one creation time is an argument, one for each query.
-- Events of one time are averaged in the table's order, which the SQL leaves open.
--
-- In Composition a broker hands any message that it was ever given to its consumer again, at any
-- time. Kafka does less once a consumer's offset has advanced, so this is used only for what holds in
-- every run, and not to show that a run can be led anywhere.
--
-- Fuel. `trail` runs on fuel; more than the number of retry queues is enough. The attempts of the
-- inventory's event consumer run on the fuel retry_attempts, which is enough.
--
-- Not modelled: the layout and styles of the web interface, its shared elements (components/ui is a
-- copy of the elements of shadcn/ui), the fraud service (Python), the wiring of NestJS modules and
-- health checks, the drawing of the invoice's PDF, and Kafka's and RabbitMQ's own delivery.
pub mod Prelude
pub mod Contracts
pub mod OrderApi
pub mod Inventory
pub mod Composition
pub mod Config
pub mod EventLogs
pub mod Examples
pub mod Kafka
pub mod Migrations
pub mod Notification
pub mod Rabbit
pub mod Web
