-- ===== src/Contracts/Delivery.antt =====
-- A RabbitMQ message as a consumer's `handle` meets it, and what `handle` does to the channel; the
-- reservation results of packages/contracts/src/types/messages.ts.
use logistics_order_fulfillm.Prelude.{String, Bool, Option, List, [], ◌∷◌, ℕ}
use logistics_order_fulfillm.Contracts.Topology.{
  XDeathEntry, RetryableQueueConfig, get_next_retry_target,
}

pub record ConsumeMessage : Type 0 where
  pub content : String
  pub x_death : Option (List XDeathEntry)

-- The result of `JSON.parse(msg.content.toString())` at the type that the source gives it: a text
-- that is no JSON, the value `null`, or a payload.
pub data Body (P : Type 0) : Type 0 where
  malformed null_body : Body P
  payload : P → Body P

pub data ChannelAction : Type 0 where
  ack : ChannelAction
  send_to_queue : String → String → ChannelAction

-- The end of a `handle`: the state of its service, what it did to the channel, and whether it threw
-- an error that nobody catches.
pub record Handled (S : Type 0) : Type 0 where
  pub state : S
  pub actions : List ChannelAction
  pub uncaught : Bool

-- Routed to the next stage of the queue, and acknowledged.
unfoldable pub retry_later : RetryableQueueConfig → ConsumeMessage → List ChannelAction
retry_later config msg =
    send_to_queue (get_next_retry_target msg.x_death config) msg.content ∷ ack ∷ []

-- What a consumer may do with a message: the message is acknowledged as its last act, after at most
-- one copy of it was published.
pub data IsSettled (msg : ConsumeMessage) : List ChannelAction → Type 0 where
  done : IsSettled msg (ack ∷ [])
  rerouted : (q : String) → IsSettled msg (send_to_queue q msg.content ∷ ack ∷ [])

pub record UnavailableItem : Type 0 where
  pub sku : String
  pub requested_qty : ℕ
  pub available_qty : ℕ

pub data ReservationStatus : Type 0 where
  reserved : ReservationStatus
  -- with `unavailable_items`
  insufficient_stock : List UnavailableItem → ReservationStatus

pub record StockReservationResult : Type 0 where
  pub trace_id : String
  pub order_id : String
  pub status : ReservationStatus
