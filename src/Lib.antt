-- ===== src/Lib.antt =====
-- A model of rocket-factory, a set of Go services that sell spaceships built from parts.
--
-- Parts and how they interact. The order service takes HTTP requests; it asks the inventory over gRPC
-- for parts, for the compatibility of a ship, and for the reservation, release and consumption of
-- units, and the payment service for a transaction; paid orders are announced on Kafka, and the
-- assembly service answers there with ShipAssembled events, which the order service consumes. The
-- inventory and the order service keep their PostgreSQL tables behind a transaction manager. The IAM
-- service keeps users in PostgreSQL and their sessions in Redis; the order service and the inventory ask
-- it over gRPC who a caller is.
--
-- Which file models which part:
--   Prelude           shared names, maps with keys, identifiers, results, calls that change a world,
--                     the transaction manager (its documented behaviour), int64 with wrap-around, and a
--                     pigeonhole lemma for lists of identifiers
--   Inventory/Properties, Part, Record
--                     inventory/internal/model, inventory/internal/repository/{record,converter}:
--                     value objects, the part's counters, the row and its restoration
--   Inventory/Repository
--                     inventory/internal/repository/part: `list_parts` is list, `update_reserved_batch`
--                     is UpdateReservedBatch, over a table that is a list of rows
--   Inventory/Service inventory/internal/service/application/part: Reserve, Release, Commit as
--                     transactions on the table (`change_body` is their common closure)
--   Inventory/Compatibility
--                     inventory/internal/service/domain and validate_compatibility.go
--   Inventory/Api     inventory/internal/api and inventory/internal/interceptor/error.go
--   Order/Model, Record, Repository
--                     order/internal/model, order/internal/repository: the tables `orders` and
--                     `order_items` with the keys of migrations/order
--   Order/Service     order/internal/service/order: Create, Get, Pay, Cancel; a call has the tables and
--                     the world outside, `pay_body` and `cancel_body` are the closures of the code
--   Order/Consumer    order/internal/consumer/assembly_consumer
--   Order/Clients     order/internal/client/grpc, over the generated stubs as parameters
--   Order/Api         order/internal/api/order
--   Order/System      the order service with the inventory as the other end of its client: stub, server,
--                     interceptor and handlers are composed as the services compose them; Ledger is the
--                     step relation of calls over the tables of both, with the announced orders
--   Order/Messages    order/internal/producer, and the consumer on a Kafka message
--   Order/Http        the chain of HTTP middlewares of order/internal/app/app.go
--   Payment           payment/internal
--   Assembly          assembly/internal; Messages has its producer and its consumer on a message
--   Inventory/Clients inventory/internal/client/grpc/iam
--   Iam               iam/internal: Users is the repository of users, Sessions that of sessions over Redis,
--                     Service the service, Api the handlers and the interceptor; Access puts it behind the
--                     clients and checks of the other services
--   Platform/Kafka    platform/pkg/kafka: `consume_claim` is ConsumeClaim over the list of what its rounds
--                     receive, `consume` is Consume for at most so many rounds
--   Platform/Closer, Http
--                     platform/pkg/closer, platform/pkg/ratelimit, platform/pkg/tracing/middleware.go
--   Platform/App      Run of order/internal/app/app.go and payment/internal/app/app.go
--   Platform/Setup    platform/pkg/redis, platform/pkg/metrics, platform/pkg/logger, platform/pkg/grpc/health
--   Order/Tracing     order/internal/service/order/tracing
--   Config            order/internal/config, inventory/internal/config/pg.go
--   Delivery          events from the producer of one service to the handler of the other
--   Session           platform/pkg/auth, platform/pkg/middleware/kafka/session.go,
--                     order/internal/{middleware,interceptor}, inventory/internal/interceptor/auth.go
--
-- How the code is read. A UUID is a number, its text form a parameter with the facts that the code
-- relies on. An error is its sentinel, the one at the end of the chain that errors.Is finds; messages
-- and logging are left out. int64 and int fields are integers, sums wrap around. A statement may fail
-- whenever the database says so, which is a parameter, as are the order of the rows of a SELECT
-- without ORDER BY, the commit of a transaction, the other services, the clock and fresh identifiers.
-- Where the code would dereference a nil pointer the model panics. A call of the IAM service has a
-- moment, which gives what the clock, the randomness and the faults are while it runs; a Redis command
-- that fails has not been executed, and what Redis, bcrypt, protobuf and sarama promise are named laws.
-- Instants are nanoseconds; those that Redis keeps are int64, and what a TIMESTAMP column keeps of one is
-- a parameter. Whether Auth of the inventory admits the order service's call is a parameter of
-- Order/System; Auth itself is in Session. Loops are structural recursion over lists.
-- The one endless loop, Consume, is given a number of rounds; that so many are enough is a theorem.
--
-- Not modelled: generated code, which is not the repository's own; the wiring of the objects, and the
-- exporters and providers of OpenTelemetry, which are built by calls of their libraries. Of the configuration
-- only the choice of the file and the DSN are modelled. Timeouts of calls are errors that the other side may
-- give.
pub mod Prelude
pub mod Inventory
pub mod Order
pub mod Payment
pub mod Session
pub mod Assembly
pub mod Iam
pub mod Platform
pub mod Delivery
pub mod Config
