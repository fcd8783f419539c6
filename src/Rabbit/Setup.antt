-- ===== src/Rabbit/Setup.antt =====
-- `setup` of the channel in src/messaging/rabbitmq.module.ts of apps/order-api,
-- apps/inventory-service and apps/notification-service: the commands that it gives to the broker,
-- in order.
use logistics_order_fulfillm.Prelude.{
  ℕ, suc, String, Option, none, some, List, [], ◌∷◌, ◌++◌, get_elem?,
}
use logistics_order_fulfillm.Contracts.Topology.{
  QueueTopology, rabbitmq_exchange, retry_stages_ms, reserve_stock, notify,
  stock_reservation_results,
}

-- The `arguments` of a queue; absent ones are `none`.
pub record QueueArguments : Type 0 where
  pub message_ttl : Option ℕ
  pub dead_letter_exchange : Option String
  pub dead_letter_routing_key : Option String

-- All of them are `durable`, and the exchange is `direct`.
pub data Command : Type 0 where
  assert_exchange : String → Command
  assert_queue : String → QueueArguments → Command
  bind_queue : String → String → String → Command

abbrev pub no_arguments : QueueArguments
no_arguments = record {
  message_ttl = none;
  dead_letter_exchange = none;
  dead_letter_routing_key = none;
}

abbrev pub retry_arguments : Option ℕ → String → QueueArguments
retry_arguments ttl main_queue = record {
  message_ttl = ttl;
  dead_letter_exchange = some "";
  dead_letter_routing_key = some main_queue;
}

-- `retryQueues.forEach((queueName, i) => …)`, from the index `i` on
unfoldable pub assert_retry_queues : String → ℕ → List String → List Command
assert_retry_queues main_queue i [] = []
assert_retry_queues main_queue i (queue_name ∷ names) =
    assert_queue queue_name (retry_arguments (get_elem? retry_stages_ms i) main_queue)
    ∷ assert_retry_queues main_queue (suc i) names

-- A queue with its retry stages and its DLQ.
unfoldable pub assert_topology : List Command → QueueTopology → List Command
assert_topology binding t =
    assert_queue t.queue no_arguments ∷ binding
    ++ assert_retry_queues t.queue 0 t.config.retry_queues
    ++ assert_queue t.config.dlq no_arguments ∷ []

unfoldable pub order_api_setup : List Command
unfolding assert_topology
order_api_setup = assert_exchange rabbitmq_exchange ∷ assert_topology [] stock_reservation_results

unfoldable pub inventory_setup : List Command
unfolding assert_topology
inventory_setup =
    assert_exchange rabbitmq_exchange
      ∷ assert_topology
          (bind_queue reserve_stock.queue rabbitmq_exchange reserve_stock.routing_key ∷ [])
          reserve_stock
    ++ assert_topology [] stock_reservation_results

unfoldable pub notification_setup : List Command
unfolding assert_topology
notification_setup =
    assert_exchange rabbitmq_exchange
    ∷ assert_topology (bind_queue notify.queue rabbitmq_exchange notify.routing_key ∷ []) notify

-- The services that consume from RabbitMQ.
pub data Service : Type 0 where
  order_api inventory notification : Service

abbrev pub setup : Service → List Command
setup order_api = order_api_setup
setup inventory = inventory_setup
setup notification = notification_setup

-- The queue that the service consumes.
abbrev pub consumed : Service → QueueTopology
consumed order_api = stock_reservation_results
consumed inventory = reserve_stock
consumed notification = notify
