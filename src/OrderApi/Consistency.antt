-- ===== src/OrderApi/Consistency.antt =====
-- The outbox and the order table tell the same story, whatever requests the order API serves
-- (apps/order-api/src/orders/orders.service.ts).
use logistics_order_fulfillm.Prelude.{
  ℕ, String, ◌≡◌, refl, true, Option, none, some, ◌++◌, [], ◌∷◌, arith, Option-cases, inl, inr,
  eq_iff,
}
use mathlib.Core.List.{append-nil}
use logistics_order_fulfillm.Prelude.Table
use logistics_order_fulfillm.Contracts.Status.{OrderStatus, placed}
use logistics_order_fulfillm.OrderApi.StateMachine.{can_transition}
use logistics_order_fulfillm.OrderApi.Entities.{
  Platform, OrderRow, Order, OutboxChannel, Payload, CreateOrderDto,
}
use logistics_order_fulfillm.OrderApi.Payloads.{build_notify_payload, status_changed_event}
use logistics_order_fulfillm.OrderApi.Store.{Db, Ambient, push_outbox, with_order, with_row}
use logistics_order_fulfillm.OrderApi.Service.{create_order}
use logistics_order_fulfillm.OrderApi.History.{
  changes, history, history-append, replay, replay-append, is_legal,
}
use logistics_order_fulfillm.OrderApi.Writes.{placed_db, with_notify, moved_db, moved_order}

abbrev pub status_of : Option OrderRow → Option OrderStatus
status_of none = none
status_of (some row) = some row.status

module _ {N : Type 0} where
  -- For each order the changes in the outbox are legal, and end in the status of the table; an order
  -- that is not in the table has none.
  abbrev pub IsConsistent : Db N → Type 0
  IsConsistent db =
      (id : String)
      → replay none (history id db.outbox)
        ≡ some (status_of (Table.find (λ row. row.id) id db.orders))

  history-push :
      (id : String) (now : ℕ) (channel : OutboxChannel) (key aggregate type : String)
      (p : Payload N) (db : Db N)
      → history id (push_outbox now channel key aggregate type p db).outbox
        ≡ history id db.outbox ++ changes id p
  unfolding push_outbox history
  history-push id now channel key aggregate type p db = rw (history-append id db.outbox, append-nil)

  orders-push :
      (now : ℕ) (channel : OutboxChannel) (key aggregate type : String) (p : Payload N) (db : Db N)
      → (push_outbox now channel key aggregate type p db).orders ≡ db.orders
  unfolding push_outbox
  orders-push now channel key aggregate type p db = refl

module _ {N : Type 0} (pf : Platform N) where
  history-with_notify :
      (id : String) (amb : Ambient) (order : Order) (to : OrderStatus) (db : Db N)
      → history id (with_notify pf amb order to db).outbox ≡ history id db.outbox
  unfolding changes
  history-with_notify id amb order to db = elim (Option-cases (build_notify_payload order to)) [
    | inl quiet ↦ rw quiet
    | inr (p, said) ↦ rw said (rw (history-push, append-nil))
  ]

  orders-with_notify :
      (amb : Ambient) (order : Order) (to : OrderStatus) (db : Db N)
      → (with_notify pf amb order to db).orders ≡ db.orders
  orders-with_notify amb order to db = elim (Option-cases (build_notify_payload order to)) [
    | inl quiet ↦ rw quiet
    | inr (p, said) ↦ rw said (rw orders-push)
  ]

  pub placed_db-IsConsistent :
      (dto : CreateOrderDto N) (amb : Ambient) (db : Db N)
      → Table.find (λ row. row.id) amb.order_uuid db.orders ≡ none
      → IsConsistent db
      → IsConsistent (placed_db pf dto amb db)
  unfolding changes with_order create_order status_changed_event is_legal
  placed_db-IsConsistent dto amb db free c id =
      simp
        (
          history-with_notify, history-push, orders-with_notify, orders-push, append-nil,
          Table.find-save,
        )
        (ground (
          arith,
          c id,
          eq_iff amb.order_uuid id,
          append-nil (history id db.outbox),
          replay-append none (history id db.outbox) (none, placed) none,
        ))

  pub moved_db-IsConsistent :
      (id : String) (to : OrderStatus) (amb : Ambient) (row : OrderRow) (db : Db N)
      → Table.find (λ r. r.id) id db.orders ≡ some row
      → can_transition row.status to ≡ true
      → IsConsistent db
      → IsConsistent (moved_db pf to amb row db)
  unfolding changes with_row status_changed_event is_legal
  moved_db-IsConsistent id to amb row db found legal c j =
      simp (history-with_notify, history-push, orders-with_notify, orders-push, Table.find-save)
        (ground (
          arith,
          c j,
          eq_iff row.id j,
          Table.key-find (λ (r : OrderRow). r.id) id row db.orders,
          append-nil (history j db.outbox),
          replay-append none (history j db.outbox) (some row.status, to) (some row.status),
        ))

  pub orders-moved_db :
      (to : OrderStatus) (amb : Ambient) (row : OrderRow) (db : Db N)
      → (moved_db pf to amb row db).orders
        ≡ Table.save (λ r. r.id) (record row { status = to; updated_at = amb.now }) db.orders
  unfolding with_row
  orders-moved_db to amb row db = rw (orders-with_notify, orders-push)

  pub items-moved_db :
      (to : OrderStatus) (amb : Ambient) (row : OrderRow) (db : Db N)
      → (moved_db pf to amb row db).order_items ≡ db.order_items
  unfolding with_row push_outbox
  items-moved_db to amb row db =
      elim (Option-cases (build_notify_payload (moved_order pf to amb row db) to)) [
        | inl quiet ↦ rw quiet
        | inr (p, said) ↦ rw said
      ]

  pub orders-placed_db :
      (dto : CreateOrderDto N) (amb : Ambient) (db : Db N)
      → (placed_db pf dto amb db).orders
        ≡ Table.save (λ r. r.id) (create_order pf dto amb).row db.orders
  unfolding with_order push_outbox
  orders-placed_db dto amb db = rw orders-with_notify

  pub items-placed_db :
      (dto : CreateOrderDto N) (amb : Ambient) (db : Db N)
      → (placed_db pf dto amb db).order_items ≡ db.order_items ++ (create_order pf dto amb).items
  unfolding with_order push_outbox
  items-placed_db dto amb db =
      elim (Option-cases (build_notify_payload (create_order pf dto amb) placed)) [
        | inl quiet ↦ rw quiet
        | inr (p, said) ↦ rw said
      ]

  pub history-placed_db :
      (dto : CreateOrderDto N) (amb : Ambient) (db : Db N)
      → history (create_order pf dto amb).id (placed_db pf dto amb db).outbox
        ≡ history (create_order pf dto amb).id db.outbox ++ (none, placed) ∷ []
  unfolding changes with_order create_order status_changed_event
  history-placed_db dto amb db =
      simp (history-with_notify, history-push, append-nil)
        (ground (arith, eq_iff amb.order_uuid amb.order_uuid))
