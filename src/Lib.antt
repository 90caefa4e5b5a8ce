-- ===== src/Lib.antt =====
-- CommerceOps: an order, product and payment backend with an event worker.
--
-- The program and its parts. The Order service (app/order) reserves stock at the Product service
-- (app/product) through app/clients/product_client.py, stores the order, charges it at the Payment
-- service (app/payment) through app/clients/payment_client.py, and publishes events to SQS
-- (app/core/queue.py). The Payment service charges a third-party gateway
-- (app/payment/gateway_client.py) and keeps the result; fake_gateway/main.py stands in for that
-- gateway. A worker (app/worker.py) takes the events off the queue and runs the handlers, each at
-- most once as far as its durable records tell (app/core/idempotency.py). All calls of another
-- service go through bulkhead, circuit breaker and retry (app/core/reliability.py), and Redis is
-- reached through helpers that turn its failures into misses (app/core/cache.py).
--
-- What models what.
--   Base: Boolean tests, lists, results, code that may raise, and tables by key.
--   Reliability: app/core/reliability.py. Retry has backoff_delays and retry_with_backoff, Breaker
--     has CircuitBreaker, Bulkhead has Bulkhead, and Protected the composition of the three that
--     the clients share. The methods of the breaker are steps under its lock; Breaker.run and
--     Bulkhead.Threads interleave the steps of many threads.
--   EnsureDatabase: app/core/ensure_database.py over a server that is a parameter.
--   Cache: app/core/cache.py over a Redis that is a parameter; Cache.Laws says what is used of it.
--   Settings: app/core/config.py, the settings with their defaults and the three validators.
--   Sessions: app/core/database.py. with_read_retry; Engines has the two engines and
--     replica_lag_seconds.
--   Product: app/product/models.py and app/product/service.py; Stock has reserve_stock and
--     release_stock, Catalog has the cached reads and update_product, Creation create_product, Routes
--     the internal routes, Inventory what those promise, and Pages the public routes that write
--     (app/product/router.py, app/product/schemas.py).
--   Idempotency: app/core/idempotency.py and ProcessedEvent of app/core/models.py.
--   Queue: app/core/queue.py over an SQS that is a parameter; Queue.Laws and
--     Queue.Sent say what is used of it.
--   Worker: app/worker.py, from _parse to run_worker. Worker.Race interleaves process_event of many
--     workers on one event; a call of app/core/idempotency.py is one step there. Worker.Lease puts the
--     lease of _handle_message around it; Cache.Lasting says what it takes for the lease to exclude.
--   Payment: Gateway has app/payment/gateway_client.py, Service has app/payment/service.py, and Router
--     app/payment/router.py. Service.Race interleaves charge of many threads, with the SELECT, the
--     gateway and the commit as its steps, under the unique constraint of app/payment/models.py.
--   FakeGateway: fake_gateway/main.py, its two locked sections and their composition.
--     Chaos has the chaos settings and their endpoints.
--   Order: app/order/service.py over peers that are a parameter; Order.Stocked says what is used of
--     them where stock is counted, Order.Paid where charges are. Routes has app/order/router.py with
--     app/order/schemas.py.
--   Clients: app/clients/product_client.py and app/clients/payment_client.py.
--   Customer: app/customer/service.py with the unique index of app/customer/models.py, and
--     app/customer/router.py.
--   Health: readiness_check of app/core/service_app.py, and the probes of the three clients.
--   Dlq: app/dlq.py, but for its command line.
--   System: the services together. Requests runs the Order service's peers as the two clients, with
--     their module-level guards, before the routes of
--     app/product/internal_router.py. Charges runs the gateway client before the route of
--     fake_gateway/main.py; Payments puts app/payment/router.py in front of it, Paid the Order
--     service with its client in front of that, and Race many threads of the Payment service, whose
--     requests to the gateway do not overlap there (FakeGateway.Once has two that do). What carries
--     a request is a parameter, and System.Http says how it fits the route: it loses no reply in
--     Requests, and may lose any in Charges, Payments, Paid and Race. Twice is about a release whose reply is lost.
--   Drills: loadtest/ha_experiment.py over a stack that is a parameter; Polling has the loop on a
--     deadline, and Failover, Promotion, Lag and Restore the four drills. Failover.Log says what the
--     requests of a drill were answered, which is a parameter too. Drills.Chaos and Drills.QueueLoad
--     have parts of loadtest/chaos_experiment.py and loadtest/queue_experiment.py.
--
-- Code that changes state takes the state and gives it back beside its result; a raised exception
-- is an `err` with the state that the code left. An HTTP request, a call of Redis or SQS, the clock
-- and the random source are parameters that act on a state of their own. Functions keep the names
-- of the source; a loop body or the rest of a handler after a call has a name of its own, and a
-- comment says which part it is.
--
-- Numbers and loops. Money is in cents and time in milliseconds, as natural numbers; a subtraction
-- of the source that could go below 0 is guarded there or written as an addition. Loops are
-- structural: over a list, or over the attempts that `range` counts. `run_worker` takes the number
-- of iterations, as its argument `max_iterations` does. The `while` loop of `redrive` has fuel
-- `max_messages + 1`: each round that goes on moves or fails one message more, and the last round
-- only tests. The loops of the drills run while the clock is before a deadline; their fuel is enough
-- where the clock does not go back and the poll interval, as often, makes up the timeout.
--
-- What is not modelled. Failures of Postgres, but for the broken unique constraint that
-- record_handler_done and create_customer expect, that a second row of a payment meets, and that a
-- NULL in a product meets; the wiring of FastAPI, and the GET routes of the catalogue, which pass
-- their arguments on; how pydantic reads the environment; command lines; the Locust users, the
-- measurements of loadtest/microservices_experiment.py, and the scenarios that only print what they
-- see; the event handlers (app/notification, app/analytics, app/search), which only log; log lines and
-- metrics; the rounding of amounts to cents.
pub mod Base
pub mod Reliability
pub mod Cache
pub mod Product
pub mod Idempotency
pub mod Queue
pub mod Worker
pub mod Payment
pub mod FakeGateway
pub mod Order
pub mod Clients
pub mod Sessions
pub mod System
pub mod Dlq
pub mod Customer
pub mod Health
pub mod Settings
pub mod EnsureDatabase
pub mod Drills
