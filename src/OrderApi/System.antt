-- ===== src/OrderApi/System.antt =====
-- The order API as a sequence of requests (apps/order-api/src/orders/orders.service.ts): the HTTP
-- handlers, the reply queue's consumer and the payment timeout all call `placeOrder` or
-- `transition`, each in its own transaction under the row's lock, so a run is their sequence.
use logistics_order_fulfillm.Prelude.{
  String, ◌≡◌, refl, sym, subst, Bool, true, false, none, some, List, [], ◌∷◌, Result, ok, err,
  arith, Option-cases, inl, inr,
}
use logistics_order_fulfillm.Prelude.Table
use logistics_order_fulfillm.Contracts.Status
use logistics_order_fulfillm.Contracts.Status.{OrderStatus}
use logistics_order_fulfillm.Contracts.Schema.{event_ok}
use logistics_order_fulfillm.OrderApi.Payloads.{status_changed_event}
use logistics_order_fulfillm.OrderApi.StateMachine.{can_transition}
use logistics_order_fulfillm.OrderApi.Entities.{Platform, Order, CreateOrderDto, OrderRow}
use logistics_order_fulfillm.OrderApi.Store.{
  Db, State, Ambient, Txn, OrderError, order_fits, settle, transaction,
}
use logistics_order_fulfillm.OrderApi.Service.{
  create_order, place_in_transaction, place_order, transition_row, transition_in_transaction,
  transition, enqueue_payment_timeout, enqueue_after,
}
use logistics_order_fulfillm.OrderApi.Writes.{
  place_lem, placed_db, moved_db, write_transition_lem, moved_order,
}
use logistics_order_fulfillm.OrderApi.Consistency.{
  IsConsistent, placed_db-IsConsistent, moved_db-IsConsistent,
}

pub data Request (N : Type 0) : Type 0 where
  place : CreateOrderDto N → Request N
  move : String → OrderStatus → Request N

module _ {N : Type 0} where
  transaction-keeps :
      (P : Db N → Type 0) {A : Type 0} (fails : Bool) (body : Txn N A) (db : Db N)
      → P db
      → ((a : A) (db' : Db N) → body db ≡ ok (a, db') → P db')
      → P (transaction fails body db).1
  unfolding transaction
  transaction-keeps P {A} true body db p keep = p
  transaction-keeps P {A} false body db p keep = go (body db) refl
    where
      go : (r : Result OrderError (A × Db N)) → body db ≡ r → P (settle db r).1
      go (ok (a, db')) e = keep a db' e
      go (err x) e = p

module _ {N : Type 0} (pf : Platform N) where
  unfoldable pub perform : Request N → Ambient → State N → State N
  perform (place dto) amb s = (place_order pf dto amb s).1
  perform (move id to) amb s = (transition pf id to amb s).1

  unfoldable pub serve : List (Request N × Ambient) → State N → State N
  serve [] s = s
  serve ((r, amb) ∷ rs) s = serve rs (perform r amb s)

  free_of_fits :
      (order : Order) (db : Db N)
      → order_fits pf order db ≡ true
      → Table.find (λ row. row.id) order.id db.orders ≡ none
  unfolding order_fits
  free_of_fits order db h = ground arith

  pub db-enqueue_payment_timeout :
      (amb : Ambient) (r : Result OrderError Order × Db N) (s : State N)
      → (enqueue_payment_timeout pf amb r s).1.db ≡ r.1
  unfolding enqueue_payment_timeout
  db-enqueue_payment_timeout amb (ok order, db) s = ground arith
  db-enqueue_payment_timeout amb (err e, db) s = refl

  pub db-enqueue_after :
      (to : OrderStatus) (amb : Ambient) (r : Result OrderError Order × Db N) (s : State N)
      → (enqueue_after pf to amb r s).1.db ≡ r.1
  unfolding enqueue_after
  db-enqueue_after to amb (ok order, db) s = ground arith
  db-enqueue_after to amb (err e, db) s = refl

  -- What a request's transaction keeps, if the writes of a placement and of a transition keep it.
  module _ (P : Db N → Type 0)
      (placed : (dto : CreateOrderDto N) (amb : Ambient) (db : Db N)
        → Table.find (λ row. row.id) amb.order_uuid db.orders ≡ none
        → event_ok pf.js
            (status_changed_event pf amb.now_text (create_order pf dto amb) none Status.placed)
          ≡ true
        → P db
        → P (placed_db pf dto amb db))
      (moved : (id : String) (to : OrderStatus) (amb : Ambient) (row : OrderRow) (db : Db N)
        → Table.find (λ r. r.id) id db.orders ≡ some row
        → can_transition row.status to ≡ true
        → event_ok pf.js (
            status_changed_event pf amb.now_text
              (moved_order pf to amb row db)
              (some row.status)
              to)
          ≡ true
        → P db
        → P (moved_db pf to amb row db)) where
    place-keeps :
        (dto : CreateOrderDto N) (amb : Ambient) (db : Db N)
        → P db
        → (order : Order) (db' : Db N) → place_in_transaction pf dto amb db ≡ ok (order, db')
        → P db'
    place-keeps dto amb db c order db' h =
        let fits : order_fits pf (create_order pf dto amb) db ≡ true =
          ground (arith, place_lem pf dto amb db) in
        let good : event_ok pf.js
              (status_changed_event pf amb.now_text (create_order pf dto amb) none Status.placed)
            ≡ true =
          ground (arith, place_lem pf dto amb db) in
        let e : placed_db pf dto amb db ≡ db' = ground (arith, place_lem pf dto amb db) in
        subst P e (
          placed dto amb db (unfold create_order in free_of_fits (create_order pf dto amb) db fits)
            good c)

    move-keeps :
        (id : String) (to : OrderStatus) (amb : Ambient) (db : Db N)
        → P db
        → (order : Order) (db' : Db N) → transition_in_transaction pf id to amb db ≡ ok (order, db')
        → P db'
    unfolding transition_in_transaction
    move-keeps id to amb db c order db' h =
        elim (Option-cases (Table.find (λ row. row.id) id db.orders)) [
          | inl missing ↦
              let h' : transition_row pf id to amb none db ≡ ok (order, db') = rw missing at h in
              unfold transition_row in cc
          | inr (row, found) ↦
              let h' : transition_row pf id to amb (some row) db ≡ ok (order, db') =
                rw found at h in
              let legal : can_transition row.status to ≡ true =
                unfold transition_row in ground arith in
              let good : event_ok pf.js (
                    status_changed_event pf amb.now_text (moved_order pf to amb row db)
                      (some row.status) to)
                  ≡ true =
                unfold transition_row in ground (arith, write_transition_lem pf to amb row db) in
              let e : moved_db pf to amb row db ≡ db' =
                unfold transition_row in ground (arith, write_transition_lem pf to amb row db) in
              subst P e (moved id to amb row db found legal good c)
        ]

    pub perform-keeps :
        (r : Request N) (amb : Ambient) (s : State N) → P s.db → P (perform r amb s).db
    unfolding perform place_order transition
    perform-keeps (place dto) amb s c =
        let body = place_in_transaction pf dto amb in
        subst P (sym (db-enqueue_payment_timeout amb (transaction amb.database_fails body s.db) s))
          (transaction-keeps P amb.database_fails body s.db c (place-keeps dto amb s.db c))
    perform-keeps (move id to) amb s c =
        let body = transition_in_transaction pf id to amb in
        subst P (sym (db-enqueue_after to amb (transaction amb.database_fails body s.db) s))
          (transaction-keeps P amb.database_fails body s.db c (move-keeps id to amb s.db c))

  pub perform-IsConsistent :
      (r : Request N) (amb : Ambient) (s : State N)
      → IsConsistent s.db
      → IsConsistent (perform r amb s).db
  perform-IsConsistent =
      perform-keeps IsConsistent (λ dto amb db free good. placed_db-IsConsistent pf dto amb db free)
        (λ id to amb row db found legal good. moved_db-IsConsistent pf id to amb row db found legal)

  -- If each order's status changes in the outbox form a legal history that ends in the status of
  -- its row, and an order without a row has none, then this holds after any list of placements and
  -- transitions, whichever of them fail.
  pub serve-IsConsistent :
      (rs : List (Request N × Ambient)) (s : State N)
      → IsConsistent s.db
      → IsConsistent (serve rs s).db
  unfolding serve
  serve-IsConsistent [] s c = c
  serve-IsConsistent ((r, amb) ∷ rs) s c =
      serve-IsConsistent rs (perform r amb s) (perform-IsConsistent r amb s c)
