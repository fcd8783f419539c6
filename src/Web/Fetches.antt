-- ===== src/Web/Fetches.antt =====
-- The requests of apps/web/lib/api.ts to the backend services and of apps/web/store/api.ts to the proxy
-- routes, with what becomes of the answers. `encode` is `encodeURIComponent`.
use logistics_order_fulfillm.Prelude.{
  ◌<>◌, ℕ, String, Option, none, some, List, Result, decimal, zero, ltb, ◌^◌, if◌then◌else◌,
}
use logistics_order_fulfillm.Contracts.Status.{OrderStatus}
use logistics_order_fulfillm.Web.Types.{
  Order, PaginatedOrders, AnalyticsSummary, OrdersPerHourPoint, TimeInStatusPoint, FraudFlag,
}
use logistics_order_fulfillm.Web.Client.{
  FetchResponse, ClientError, json_or_throw, fetch_order, fetch_flags_by_order,
}
use logistics_order_fulfillm.Web.OrdersPage.{
  JsInteger, natural, negative, infinity, negative_infinity,
}
use logistics_order_fulfillm.Web.FormPage.{CreateOrderPayload}

-- A body of JSON; every request of api.ts has `cache: 'no-store'`.
pub data RequestBody (N : Type 0) : Type 0 where
  new_status : OrderStatus → RequestBody N
  payload : CreateOrderPayload N → RequestBody N

pub record FetchRequest (N : Type 0) : Type 0 where
  pub method : String
  pub url : String
  pub body : Option (RequestBody N)

abbrev get : {N : Type 0} → String → FetchRequest N
get url = record { method = "GET"; url = url; body = none }

-- The base URLs of lib/env.ts.
pub record BaseUrls : Type 0 where
  pub order_api : String
  pub analytics_api : String
  pub fraud_api : String

-- A number in a template; `exponential` is how JavaScript prints one of 10^21 or more.
natural_text : (ℕ → String) → ℕ → String
natural_text exponential n = if ltb n (10 ^ 21) then decimal n else exponential n

integer_text : (ℕ → String) → JsInteger → String
unfolding natural_text
integer_text exponential (natural n) = natural_text exponential n
integer_text exponential (negative zero) = "0"
integer_text exponential (negative n) = "-" <> natural_text exponential n
integer_text exponential infinity = "Infinity"
integer_text exponential negative_infinity = "-Infinity"

-- The responses of the runtime's `fetch`, at each type of an answer.
module _ {N : Type 0} (base : BaseUrls) (encode : String → String) where
  unfoldable pub fetch_orders :
      (ℕ → String)
      → (FetchRequest N → FetchResponse PaginatedOrders)
      → JsInteger
      → ℕ
      → Result ClientError PaginatedOrders
  unfolding integer_text
  fetch_orders exponential fetch page limit = json_or_throw (
      fetch (
        get (
          base.order_api
          <> "/orders?page="
          <> integer_text exponential page
          <> "&limit="
          <> decimal limit)))

  unfoldable pub fetch_order_by_id :
      (FetchRequest N → FetchResponse Order) → String → Result ClientError (Option Order)
  fetch_order_by_id fetch id = fetch_order (fetch (get (base.order_api <> "/orders/" <> encode id)))

  unfoldable pub transition_order :
      (FetchRequest N → FetchResponse Order) → String → OrderStatus → Result ClientError Order
  transition_order fetch id to = json_or_throw (
      fetch (record {
        method = "PATCH";
        url = base.order_api <> "/orders/" <> encode id <> "/transition";
        body = some (new_status to);
      }))

  unfoldable pub fetch_summary :
      (FetchRequest N → FetchResponse AnalyticsSummary) → Result ClientError AnalyticsSummary
  fetch_summary fetch = json_or_throw (fetch (get (base.analytics_api <> "/analytics/summary")))

  unfoldable pub fetch_orders_per_hour :
      (FetchRequest N → FetchResponse (List OrdersPerHourPoint))
      → ℕ
      → Result ClientError (List OrdersPerHourPoint)
  fetch_orders_per_hour fetch hours =
      json_or_throw
        (fetch (get (base.analytics_api <> "/analytics/orders-per-hour?hours=" <> decimal hours)))

  unfoldable pub fetch_time_in_status :
      (FetchRequest N → FetchResponse (List (TimeInStatusPoint N)))
      → Result ClientError (List (TimeInStatusPoint N))
  fetch_time_in_status fetch =
      json_or_throw (fetch (get (base.analytics_api <> "/analytics/time-in-status")))

  unfoldable pub fetch_flags :
      (FetchRequest N → FetchResponse (List FraudFlag)) → Result ClientError (List FraudFlag)
  fetch_flags fetch = json_or_throw (fetch (get (base.fraud_api <> "/flags")))

  unfoldable pub fetch_flags_of :
      (FetchRequest N → FetchResponse (List FraudFlag))
      → String
      → Result ClientError (List FraudFlag)
  fetch_flags_of fetch order_id =
      fetch_flags_by_order (fetch (get (base.fraud_api <> "/flags/" <> encode order_id)))

module _ {N : Type 0} where
  -- The two mutations of the store, below the base URL `/api`.
  unfoldable pub create_order_request : CreateOrderPayload N → FetchRequest N
  create_order_request body = record {
    method = "POST";
    url = "/api/orders";
    body = some (payload body);
  }

  unfoldable pub transition_order_request :
      (String → String) → String → OrderStatus → FetchRequest N
  transition_order_request encode id to = record {
    method = "PATCH";
    url = "/api/orders/" <> encode id <> "/transition";
    body = some (new_status to);
  }
