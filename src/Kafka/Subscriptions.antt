-- ===== src/Kafka/Subscriptions.antt =====
-- packages/contracts/src/topology/kafka.ts, and the constructor and `onModuleInit` of
-- src/messaging/kafka.consumer.ts of the inventory, the audit and the analytics service.
use logistics_order_fulfillm.Prelude.{
  Bool, List, Option, String, ap, arith, if◌then◌else◌, keep, map, none, not, refl, some, true,
  ◌==◌, ◌≡◌,
}
use logistics_order_fulfillm.Contracts.Topology.{order_status_changed_topic}

-- The services that read the topic; the fraud service is written in Python.
pub data EventService : Type 0 where
  analytics_service fraud_service audit_service inventory_service : EventService

-- CONSUMER_GROUPS
unfoldable pub consumer_groups : EventService → String
consumer_groups analytics_service = "analytics-service"
consumer_groups fraud_service = "fraud-service"
consumer_groups audit_service = "audit-service"
consumer_groups inventory_service = "inventory-service"

-- The consumer that a service creates, and what it subscribes to.
pub record Subscription : Type 0 where
  pub client_id : String
  pub brokers : List String
  pub group_id : String
  pub topic : String
  pub from_beginning : Bool

-- The three services with a `kafka.consumer.ts`.
pub data Consumer : Type 0 where
  inventory audit analytics : Consumer

or_empty : Option String → String
or_empty none = ""
or_empty (some text) = text

-- `split` is `split(',')`, and `kafka_brokers` the variable KAFKA_BROKERS of the environment.
module _ (split : String → List String) (trim : String → String)
    (kafka_brokers : Option String) where
  -- `.map((b) => b.trim()).filter(Boolean)`: the empty text is falsy.
  unfoldable pub broker_list : List String
  unfolding or_empty
  broker_list = keep (λ b. not (b == "")) (map trim (split (or_empty kafka_brokers)))

  unfoldable pub inventory_subscription : Subscription
  unfolding broker_list
  inventory_subscription = record {
    client_id = "inventory-service";
    brokers = broker_list;
    group_id = consumer_groups inventory_service;
    topic = order_status_changed_topic;
    from_beginning = true;
  }

  unfoldable pub audit_subscription : Subscription
  unfolding broker_list
  audit_subscription = record {
    client_id = "audit-service";
    brokers = broker_list;
    group_id = consumer_groups audit_service;
    topic = order_status_changed_topic;
    from_beginning = true;
  }

  unfoldable pub analytics_subscription : Subscription
  unfolding broker_list
  analytics_subscription = record {
    client_id = "analytics-service";
    brokers = broker_list;
    group_id = consumer_groups analytics_service;
    topic = order_status_changed_topic;
    from_beginning = true;
  }

  abbrev pub subscription : Consumer → Subscription
  subscription inventory = inventory_subscription
  subscription audit = audit_subscription
  subscription analytics = analytics_subscription

-- The service of a group.
member : String → Option EventService
member group =
    if group == "analytics-service"
    then some analytics_service
    else if group == "fraud-service"
    then some fraud_service
    else if group == "audit-service"
    then some audit_service
    else if group == "inventory-service"
    then some inventory_service
    else none

member-consumer_groups : (s : EventService) → member (consumer_groups s) ≡ some s
unfolding member consumer_groups
member-consumer_groups analytics_service = refl
member-consumer_groups fraud_service = refl
member-consumer_groups audit_service = refl
member-consumer_groups inventory_service = refl

-- No two services share a consumer group, so that each reads every event.
pub consumer_groups-injective :
    (s s' : EventService) → consumer_groups s ≡ consumer_groups s' → s ≡ s'
consumer_groups-injective s s' same =
    ground (arith, member-consumer_groups s, member-consumer_groups s', ap member same)

abbrev pub service_of : Consumer → EventService
service_of inventory = inventory_service
service_of audit = audit_service
service_of analytics = analytics_service

-- Each consumer reads the topic of the status changes from its beginning, in its service's group.
pub subscription_lem :
    (split : String → List String) (trim : String → String) (kafka_brokers : Option String)
    (c : Consumer)
    → let s = subscription split trim kafka_brokers c in
      (s.topic ≡ order_status_changed_topic)
      × (s.from_beginning ≡ true)
      × (s.group_id ≡ consumer_groups (service_of c))
unfolding inventory_subscription audit_subscription analytics_subscription
subscription_lem split trim kafka_brokers inventory = (refl, refl, refl)
subscription_lem split trim kafka_brokers audit = (refl, refl, refl)
subscription_lem split trim kafka_brokers analytics = (refl, refl, refl)
