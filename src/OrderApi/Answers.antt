-- ===== src/OrderApi/Answers.antt =====
-- What an error answer of the HTTP interface tells the client
-- (apps/order-api/src/orders/orders.controller.ts).
use logistics_order_fulfillm.Prelude.{
  String, ◌≡◌, ◌≢◌, refl, Bool, Result, ok, err, arith, Bool-cases, inl, inr,
}
use logistics_order_fulfillm.OrderApi.Entities.{Platform, Order}
use logistics_order_fulfillm.OrderApi.Store.{
  State, Ambient, OrderError, not_found, invalid_transition, schema_error, database_error,
  queue_error,
}
use logistics_order_fulfillm.OrderApi.Service.{place_order, transition}
use logistics_order_fulfillm.OrderApi.Outcomes.{place_order-atomic, transition-atomic}
use logistics_order_fulfillm.OrderApi.Listing.{Ties}
use logistics_order_fulfillm.OrderApi.Http.{
  HttpRequest, create, list_orders, read_order, change, ErrorBody, failed, is_valid, catch, respond,
  run, respond_to,
}

module _ {N : Type 0} (pf : Platform N) (is_uuid : String → Bool)
    (refusal : HttpRequest N → String) where
  respond-failed :
      (path timestamp : String) (r : Result OrderError Order) (body : ErrorBody)
      → respond pf is_uuid refusal path timestamp r ≡ failed body
      → (e : OrderError) × (r ≡ err e) × (e ≢ queue_error)
  unfolding respond catch
  respond-failed path timestamp (ok order) body h = ground arith
  respond-failed path timestamp (err (not_found id)) body h =
      (not_found id, refl, λ e. ground arith)
  respond-failed path timestamp (err (invalid_transition from to)) body h =
      (invalid_transition from to, refl, λ e. ground arith)
  respond-failed path timestamp (err schema_error) body h = ground arith
  respond-failed path timestamp (err database_error) body h = ground arith
  respond-failed path timestamp (err queue_error) body h = ground arith

  run-failed :
      (path : String) (ties : Ties) (request : HttpRequest N) (amb : Ambient) (s : State N)
      (body : ErrorBody)
      → (run pf is_uuid refusal path ties request amb s).0 ≡ failed body
      → (run pf is_uuid refusal path ties request amb s).1 ≡ s
  unfolding run
  run-failed path ties (create dto) amb s body h =
      let (e, failing, other) =
        respond-failed path amb.now_text (place_order pf dto amb s).0 body h in
      place_order-atomic pf dto amb s e failing other
  run-failed path ties (list_orders page limit) amb s body h = refl
  run-failed path ties (read_order id) amb s body h = refl
  run-failed path ties (change id to) amb s body h =
      let (e, failing, other) =
        respond-failed path amb.now_text (transition pf id to amb s).0 body h in
      transition-atomic pf id to amb s e failing other

  -- A request that the HTTP interface answers with a handled error, of the validation or of the
  -- services, has changed nothing.
  pub respond_to-failed :
      (path : String) (ties : Ties) (request : HttpRequest N) (amb : Ambient) (s : State N)
      (body : ErrorBody)
      → (respond_to pf is_uuid refusal path ties request amb s).0 ≡ failed body
      → (respond_to pf is_uuid refusal path ties request amb s).1 ≡ s
  unfolding respond_to
  respond_to-failed path ties request amb s body h =
      elim (Bool-cases (is_valid pf is_uuid refusal request)) [
        | inl valid ↦
            let h' : (run pf is_uuid refusal path ties request amb s).0 ≡ failed body =
              rw valid at h in
            rw valid (run-failed path ties request amb s body h')
        | inr bad ↦ rw bad
      ]
