-- ===== src/Examples/Topologies.antt =====
-- The topology and the event schema at concrete inputs.
use logistics_order_fulfillm.Rabbit.Setup.{consumed, inventory, no_arguments, setup}
use logistics_order_fulfillm.Prelude.{
  ℕ, ◌≡◌, refl, String, List, [], ◌∷◌, ◌++◌, none, some, if◌then◌else◌, decimal, arith, Option, ◌⊎◌,
}
use logistics_order_fulfillm.Contracts.Status.{placed, payment_confirmed}
use logistics_order_fulfillm.Contracts.Topology.{
  XDeathEntry, retry_queue_names, notify, get_next_retry_target,
}
use logistics_order_fulfillm.Contracts.Retry.{IsRetryConfig, trail, trail_lem}
use logistics_order_fulfillm.Contracts.Schema.{
  OrderStatusChangedEvent, event_json, parse_event, event_ok,
}
use logistics_order_fulfillm.Contracts.RoundTrip.{parse_event-event_json}
use logistics_order_fulfillm.Rabbit.Declared.{IsAsserted, IsStage, setup-retry_target}
use logistics_order_fulfillm.Examples.Samples.{naturals}

-- a broker that keeps the entries of other queues in their order
abbrev expire : String → List XDeathEntry → List XDeathEntry
expire q deaths = record { queue = some q } ∷ deaths

notify-IsRetryConfig : IsRetryConfig notify.config
unfolding retry_queue_names decimal
notify-IsRetryConfig = record {
  named = ((refl, refl), ((refl, refl), ((refl, refl), tt)));
  distinct = ((refl, (refl, tt)), ((refl, tt), (tt, tt)));
}

trail_lem_example :
    trail expire notify.config 4 [] ≡ notify.config.retry_queues ++ notify.config.dlq ∷ []
unfolding retry_queue_names
trail_lem_example =
    trail_lem expire notify.config (λ q deaths fresh. refl) notify-IsRetryConfig 4 (omega arith)

abbrev event : OrderStatusChangedEvent ℕ
event = record {
  schema_version = 1;
  trace_id = "trace-1";
  order_id = "order-1";
  customer_id = "customer-1";
  previous_status = some placed;
  new_status = payment_confirmed;
  timestamp = "2026-01-01T00:00:00.000Z";
  delivery_address = "1 Main Street";
  order_value = 10;
  items = record { sku = "A"; qty = 2; unit_price = 5 } ∷ [];
  branch_id = "branch_01";
}

parse_event-event_json_example :
    parse_event naturals (event_json event) ≡ (if event_ok naturals event then some event else none)
parse_event-event_json_example = parse_event-event_json naturals event

parses : parse_event naturals (event_json event) ≡ some event
unfolding event_ok
parses = parse_event-event_json naturals event

abbrev one_death : Option (List XDeathEntry)
one_death = some (record { queue = some "inventory.reserve_stock.retry.1000ms" } ∷ [])

setup-retry_target_example :
    ((get_next_retry_target one_death (consumed inventory).config ≡ (consumed inventory).config.dlq)
      × IsAsserted
          (get_next_retry_target one_death (consumed inventory).config)
          no_arguments
          (setup inventory))
    ⊎ IsStage
        (consumed inventory).queue
        (get_next_retry_target one_death (consumed inventory).config)
        (setup inventory)
setup-retry_target_example = setup-retry_target inventory one_death

-- The order API and the inventory both assert the queue of the results.
