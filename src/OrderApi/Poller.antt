-- ===== src/OrderApi/Poller.antt =====
-- apps/order-api/src/jobs/outbox-poller.service.ts, with `publish` of the two producers of
-- apps/order-api/src/messaging.
use logistics_order_fulfillm.Prelude.{
  ℕ, String, Bool, true, false, Option, none, some, List, [], ◌∷◌, ◌++◌, keep, take, leb, eqb,
  if◌then◌else◌,
}
use logistics_order_fulfillm.Contracts.Topology.{rabbitmq_exchange}
use logistics_order_fulfillm.OrderApi.Entities.{
  OutboxChannel, kafka, rabbitmq, Payload, status_changed, reserve, notification, OutboxEntry,
}

-- What becomes of one entry: it is published and saved; the broker refuses it; or it is published
-- and the save of `publishedAt` fails.
pub data Attempt : Type 0 where
  delivered refused unsaved : Attempt

-- A message as it is handed to Kafka or to RabbitMQ.
pub data Message (N : Type 0) : Type 0 where
  to_topic : String → String → Payload N → Message N
  to_exchange : String → String → Payload N → Message N

is_null : Option ℕ → Bool
is_null none = true
is_null (some t) = false

abbrev pub batch_size : ℕ
batch_size = 50

module _ {N : Type 0} where
  -- `payload.order_id`
  unfoldable pub payload_key : Payload N → String
  payload_key (status_changed e) = e.order_id
  payload_key (reserve p) = p.order_id
  payload_key (notification p) = p.order_id

  message_on : OutboxChannel → String → Payload N → Message N
  unfolding payload_key
  message_on kafka topic payload = to_topic topic (payload_key payload) payload
  message_on rabbitmq routing_key payload = to_exchange rabbitmq_exchange routing_key payload

  -- `kafkaProducer.publish` or `rabbitProducer.publish`, by the entry's channel
  unfoldable pub message : OutboxEntry N → Message N
  unfolding message_on
  message entry = message_on entry.channel entry.routing_key entry.payload

  unfoldable pub is_pending : OutboxEntry N → Bool
  unfolding is_null
  is_pending entry = is_null entry.published_at

  unfoldable pub insert_oldest : OutboxEntry N → List (OutboxEntry N) → List (OutboxEntry N)
  insert_oldest e [] = e ∷ []
  insert_oldest e (d ∷ rows) =
      if leb e.created_at d.created_at then e ∷ d ∷ rows else d ∷ insert_oldest e rows

  -- ORDER BY created_at ASC; rows of one time keep the order of their insertion.
  unfoldable pub oldest_first : List (OutboxEntry N) → List (OutboxEntry N)
  oldest_first [] = []
  oldest_first (e ∷ rows) = insert_oldest e (oldest_first rows)

  -- `repo.find` of the entries that are not published
  unfoldable pub pending_batch : List (OutboxEntry N) → List (OutboxEntry N)
  pending_batch outbox = take batch_size (oldest_first (keep is_pending outbox))

  abbrev stamp : ℕ → ℕ → OutboxEntry N → OutboxEntry N
  stamp now id row = if eqb row.id id then record row { published_at = some now } else row

  -- `repo.save(entry)` with `publishedAt` set
  unfoldable pub mark_published : ℕ → ℕ → List (OutboxEntry N) → List (OutboxEntry N)
  mark_published now id [] = []
  mark_published now id (row ∷ rows) = stamp now id row ∷ mark_published now id rows

pub record PollerState (N : Type 0) : Type 0 where
  pub outbox : List (OutboxEntry N)
  pub is_polling : Bool
  -- what the brokers have been handed, in order
  pub sent : List (Message N)

module _ {N : Type 0} (now : ℕ) where
  unfoldable pub after_attempt : OutboxEntry N → Attempt → PollerState N → PollerState N
  after_attempt entry delivered p = record p {
    outbox = mark_published now entry.id p.outbox;
    sent = p.sent ++ message entry ∷ [];
  }
  after_attempt entry refused p = p
  after_attempt entry unsaved p = record p { sent = p.sent ++ message entry ∷ [] }

  -- One round of the loop; an error is logged and the loop goes on.
  unfoldable pub publish_entry :
      (OutboxEntry N → Attempt) → OutboxEntry N → PollerState N → PollerState N
  unfolding after_attempt
  publish_entry attempt entry p = after_attempt entry (attempt entry) p

  unfoldable pub publish_all :
      (OutboxEntry N → Attempt) → List (OutboxEntry N) → PollerState N → PollerState N
  publish_all attempt [] p = p
  publish_all attempt (entry ∷ entries) p =
      publish_all attempt entries (publish_entry attempt entry p)

  -- `pollAndPublish`, from its start to its end; `query_fails` is a `find` that throws.
  unfoldable pub poll_and_publish : (OutboxEntry N → Attempt) → Bool → PollerState N → PollerState N
  poll_and_publish attempt query_fails p =
      if p.is_polling
      then p
      else (let started = record p { is_polling = true } in
          let published =
            if query_fails then started else publish_all attempt (pending_batch p.outbox) started in
          record published { is_polling = false })
