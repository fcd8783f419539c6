-- ===== src/OrderApi/Http.antt =====
-- apps/order-api/src/orders/orders.controller.ts with the DTOs that validate its requests, the
-- exceptions, and apps/order-api/src/common/filters/http-exception.filter.ts.
use logistics_order_fulfillm.Prelude.{
  ◌<>◌, ℕ, String, Bool, ◌&&◌, Result, ok, err, leb, length, all, if◌then◌else◌,
}
use logistics_order_fulfillm.Contracts.Status
use logistics_order_fulfillm.Contracts.Status.{OrderStatus}
use logistics_order_fulfillm.OrderApi.Entities.{Platform, Order, CreateOrderItemDto, CreateOrderDto}
use logistics_order_fulfillm.OrderApi.Store.{
  State, Ambient, OrderError, not_found, invalid_transition, schema_error, database_error,
  queue_error,
}
use logistics_order_fulfillm.OrderApi.Service.{place_order, transition, find_one}
use logistics_order_fulfillm.OrderApi.Listing.{Ties, PaginatedOrders, find_all}

-- The four routes, with their parameters after the conversion of their types.
pub data HttpRequest (N : Type 0) : Type 0 where
  create : CreateOrderDto N → HttpRequest N
  list_orders : ℕ → ℕ → HttpRequest N
  read_order : String → HttpRequest N
  change : String → OrderStatus → HttpRequest N

-- The fields of the filter's JSON; the rest of an exception's own body is left out.
pub record ErrorBody : Type 0 where
  pub status_code : ℕ
  pub path : String
  pub timestamp : String
  pub message : String

-- `unhandled` is an error that is no HttpException, which the filter does not catch.
pub data Response : Type 0 where
  sent_order : Order → Response
  sent_page : PaginatedOrders → Response
  failed : ErrorBody → Response
  unhandled : OrderError → Response

module _ {N : Type 0} (pf : Platform N) (is_uuid : String → Bool)
    (refusal : HttpRequest N → String) where
  item_dto_ok : CreateOrderItemDto N → Bool
  item_dto_ok item =
      leb 1 item.qty && pf.js.is_number item.unit_price && pf.js.is_nonneg item.unit_price

  -- What the validation asks of a request.
  unfoldable pub is_valid : HttpRequest N → Bool
  unfolding item_dto_ok
  is_valid (create dto) =
      is_uuid dto.customer_id && leb 1 (length dto.items) && all item_dto_ok dto.items
  is_valid (list_orders page limit) = leb 1 page && leb 1 limit && leb limit 100
  is_valid (read_order id) = is_uuid id
  is_valid (change id to) = is_uuid id

  -- The filter.
  unfoldable pub catch : String → String → OrderError → Response
  catch path timestamp (not_found id) = failed (record {
    status_code = 404;
    path = path;
    timestamp = timestamp;
    message = "Order " <> id <> " not found";
  })
  catch path timestamp (invalid_transition from to) = failed (record {
    status_code = 400;
    path = path;
    timestamp = timestamp;
    message = "Cannot transition order from " <> Status.text from <> " to " <> Status.text to;
  })
  catch path timestamp schema_error = unhandled schema_error
  catch path timestamp database_error = unhandled database_error
  catch path timestamp queue_error = unhandled queue_error

  unfoldable pub respond : String → String → Result OrderError Order → Response
  respond path timestamp (ok order) = sent_order order
  respond path timestamp (err e) = catch path timestamp e

  -- The controller's method; `ties` is what the query of a list does with orders of one time.
  unfoldable pub run : String → Ties → HttpRequest N → Ambient → State N → Response × State N
  run path ties (create dto) amb s =
      let r = place_order pf dto amb s in (respond path amb.now_text r.0, r.1)
  run path ties (list_orders page limit) amb s = (sent_page (find_all ties page limit s.db), s)
  run path ties (read_order id) amb s = (respond path amb.now_text (find_one id s.db), s)
  run path ties (change id to) amb s =
      let r = transition pf id to amb s in (respond path amb.now_text r.0, r.1)

  -- A request that the validation refuses does not reach the controller; `refusal` is its message.
  unfoldable pub respond_to : String → Ties → HttpRequest N → Ambient → State N → Response × State N
  respond_to path ties request amb s = if is_valid request then run path ties request amb s else (
    failed (record {
      status_code = 400;
      path = path;
      timestamp = amb.now_text;
      message = refusal request;
    }),
    s,
  )
