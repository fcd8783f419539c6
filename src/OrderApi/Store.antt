-- ===== src/OrderApi/Store.antt =====
-- The database of the order API (its entities' tables with their constraints), the transactions
-- over it, and the BullMQ queues.
use Prim.Native.String.{count}
use logistics_order_fulfillm.Prelude.{
  ℕ, ◌+◌, String, Bool, true, false, ◌&&◌, ◌||◌, Option, none, some, List, [], ◌∷◌, ◌++◌, ◌==◌,
  Result, ok, err, leb, keep, all, if◌then◌else◌,
}
use logistics_order_fulfillm.Prelude.Table
use logistics_order_fulfillm.Contracts.Status.{OrderStatus}
use logistics_order_fulfillm.OrderApi.Entities.{
  Platform, OrderItem, OrderRow, Order, OutboxChannel, Payload, OutboxEntry, Job,
  PaymentTimeoutJobData, DeliveryReminderJobData, GenerateInvoiceJobData,
}

pub record Db (N : Type 0) : Type 0 where
  -- the ids of `customers`
  pub customers : List String
  pub orders : List OrderRow
  pub order_items : List OrderItem
  pub outbox : List (OutboxEntry N)
  -- the sequence of the outbox's BIGSERIAL
  pub next_outbox_id : ℕ

pub data OrderError : Type 0 where
  not_found : String → OrderError
  invalid_transition : OrderStatus → OrderStatus → OrderError
  schema_error database_error queue_error : OrderError

-- What a request meets: the time, the uuids that are generated for it, and whether the database or
-- Redis fails on it.
pub record Ambient : Type 0 where
  pub now : ℕ
  pub now_text : String
  pub order_uuid : String
  pub trace_uuid : String
  pub item_uuid : ℕ → String
  pub database_fails : Bool
  pub redis_fails : Bool

abbrev pub Txn : Type 0 → Type 0 → Type 0
Txn N A = Db N → Result OrderError (A × Db N)

-- The rows of `order_items` of one order.
unfoldable pub items_of : String → List OrderItem → List OrderItem
items_of id rows = keep (λ item. item.order_id == id) rows

contains : List String → String → Bool
contains [] s = false
contains (t ∷ ts) s = t == s || contains ts s

is_free : Option OrderRow → Bool
is_free none = true
is_free (some row) = false

module _ {N : Type 0} where
  abbrev pub pure : {A : Type 0} → A → Txn N A
  pure a db = ok (a, db)

  abbrev pub throw : {A : Type 0} → OrderError → Txn N A
  throw e db = err e

  infixl 5 ◌>>=◌ ◌>>◌
  abbrev pub ◌>>=◌ : {A B : Type 0} → Txn N A → (A → Txn N B) → Txn N B
  ◌>>=◌ m f db = elim (m db) [ err e ↦ err e | ok (a, db') ↦ f a db' ]

  abbrev pub ◌>>◌ : {B : Type 0} → Txn N (Unit {0}) → Txn N B → Txn N B
  m >> k = m >>= λ _. k

  abbrev pub settle :
      {A : Type 0} → Db N → Result OrderError (A × Db N) → Result OrderError A × Db N
  settle db (err e) = (err e, db)
  settle db (ok (a, db')) = (ok a, db')

  -- dataSource.transaction: a thrown error rolls everything back, and so does a database that
  -- fails, at whichever statement.
  unfoldable pub transaction : {A : Type 0} → Bool → Txn N A → Db N → Result OrderError A × Db N
  transaction fails body db = if fails then (err database_error, db) else settle db (body db)

  -- The checks of the columns of `order_items`.
  item_fits : Platform N → OrderItem → Bool
  item_fits pf item =
      leb (count item.sku) 50
      && leb 1 item.qty
      && leb item.qty 2147483647
      && pf.fits_numeric item.unit_price

  -- The keys and the checks of `orders`, and those of the items that are inserted with it.
  unfoldable pub order_fits : Platform N → Order → Db N → Bool
  unfolding contains is_free item_fits
  order_fits pf order db =
      is_free (Table.find (λ row. row.id) order.id db.orders)
      && contains db.customers order.customer_id
      && leb (count order.branch_id) 20
      && pf.fits_numeric order.total_value
      && all (item_fits pf) order.items

  -- The tables with an order and its items.
  unfoldable pub with_order : Order → Db N → Db N
  with_order order db = record db {
    orders = Table.save (λ row. row.id) order.row db.orders;
    order_items = db.order_items ++ order.items;
  }

  -- `manager.save(order)` of an order that is not in the table; its items cascade.
  unfoldable pub insert_order : Platform N → Order → Txn N (Unit {0})
  insert_order pf order db =
      if order_fits pf order db then ok (tt, with_order order db) else err database_error

  unfoldable pub with_row : OrderRow → Db N → Db N
  with_row row db = record db { orders = Table.save (λ r. r.id) row db.orders }

  -- `manager.save(order)` of an order that is there; its items are as they were.
  unfoldable pub update_order : OrderRow → Txn N (Unit {0})
  update_order row db = ok (tt, with_row row db)

  -- The outbox with one more row; the columns that are not given have their defaults.
  unfoldable pub push_outbox :
      ℕ → OutboxChannel → String → String → String → Payload N → Db N → Db N
  push_outbox now channel routing_key aggregate_id event_type payload db = record db {
    outbox =
        db.outbox
        ++ record {
          id = db.next_outbox_id;
          channel = channel;
          routing_key = routing_key;
          aggregate_type = "order";
          aggregate_id = aggregate_id;
          event_type = event_type;
          payload = payload;
          created_at = now;
          published_at = none;
        }
          ∷ [];
    next_outbox_id = db.next_outbox_id + 1;
  }

  -- `manager.insert(OutboxEntry, …)`
  unfoldable pub insert_outbox :
      ℕ → OutboxChannel → String → String → String → Payload N → Txn N (Unit {0})
  insert_outbox now channel routing_key aggregate_id event_type payload db =
      ok (tt, push_outbox now channel routing_key aggregate_id event_type payload db)

-- The database and the three BullMQ queues.
pub record State (N : Type 0) : Type 0 where
  pub db : Db N
  pub open db use *
  pub payment_timeout_queue : List (Job PaymentTimeoutJobData)
  pub delivery_reminder_queue : List (Job DeliveryReminderJobData)
  pub generate_invoice_queue : List (Job GenerateInvoiceJobData)
