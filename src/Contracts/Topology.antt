-- ===== src/Contracts/Topology.antt =====
-- packages/contracts/src/topology: the names of queues and topics, and the routing of a message
-- that failed.
use logistics_order_fulfillm.Prelude.{
  ◌<>◌, ℕ, String, Bool, false, not, ◌&&◌, ◌||◌, Option, none, some, List, [], ◌∷◌, map, ◌==◌, keep,
  length, get_elem?, decimal,
}

abbrev pub rabbitmq_exchange : String
rabbitmq_exchange = "order.direct"

abbrev pub order_status_changed_topic : String
order_status_changed_topic = "order.status_changed"

abbrev pub retry_stages_ms : List ℕ
retry_stages_ms = 1000 ∷ 5000 ∷ 15000 ∷ []

unfoldable pub retry_queue_names : String → List String
unfolding decimal
retry_queue_names base_queue =
    map (λ ms. base_queue <> ".retry." <> decimal ms <> "ms") retry_stages_ms

pub record RetryableQueueConfig : Type 0 where
  pub retry_queues : List String
  pub dlq : String

-- A queue with its routing key; `config` holds its retry stages and its DLQ.
pub record QueueTopology : Type 0 where
  pub routing_key : String
  pub queue : String
  pub config : RetryableQueueConfig

abbrev pub reserve_stock : QueueTopology
reserve_stock = record {
  routing_key = "reserve_stock";
  queue = "inventory.reserve_stock";
  config = record {
    retry_queues = retry_queue_names "inventory.reserve_stock";
    dlq = "inventory.reserve_stock.failed";
  };
}

abbrev pub notify : QueueTopology
notify = record {
  routing_key = "notify";
  queue = "notification.send";
  config = record {
    retry_queues = retry_queue_names "notification.send";
    dlq = "notification.send.failed";
  };
}

abbrev pub stock_reservation_results_queue : String
stock_reservation_results_queue = "order-api.stock-reservation-results"

-- The reply queue has no routing key of its own: it is addressed by its name.
abbrev pub stock_reservation_results : QueueTopology
stock_reservation_results = record {
  routing_key = stock_reservation_results_queue;
  queue = stock_reservation_results_queue;
  config = record {
    retry_queues = retry_queue_names stock_reservation_results_queue;
    dlq = stock_reservation_results_queue <> ".failed";
  };
}

-- An entry of the broker's `x-death` header.
pub record XDeathEntry : Type 0 where
  pub queue : Option String

-- `retrySet.has`
unfoldable pub has : List String → String → Bool
has [] q = false
has (r ∷ rs) q = r == q || has rs q

-- `entry.queue && retrySet.has(entry.queue)`; the empty text is falsy
passed : List String → Option String → Bool
unfolding has
passed retry_set none = false
passed retry_set (some q) = not (q == "") && has retry_set q

unfoldable pub is_passage : List String → XDeathEntry → Bool
unfolding passed
is_passage retry_set entry = passed retry_set entry.queue

unfoldable pub passages : List String → List XDeathEntry → ℕ
unfolding is_passage
passages retry_set x_death = length (keep (is_passage retry_set) x_death)

abbrev pub or_dlq : Option String → String → String
or_dlq none dlq = dlq
or_dlq (some q) dlq = q

-- The headers may be absent, and so may their `x-death`.
abbrev pub x_death_or_empty : Option (List XDeathEntry) → List XDeathEntry
x_death_or_empty none = []
x_death_or_empty (some l) = l

unfoldable pub get_next_retry_target : Option (List XDeathEntry) → RetryableQueueConfig → String
get_next_retry_target x_death config =
    or_dlq (get_elem? config.retry_queues (passages config.retry_queues (x_death_or_empty x_death)))
      config.dlq
