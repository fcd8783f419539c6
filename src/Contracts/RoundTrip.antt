-- ===== src/Contracts/RoundTrip.antt =====
-- The schema of packages/contracts against the wire form of an event.
use logistics_order_fulfillm.Prelude.{
  Option, none, some, true, List, [], ◌∷◌, of_some, all, ◌≡◌, refl, arith, if◌then◌else◌,
}
use logistics_order_fulfillm.Contracts.Status.{OrderStatus, of_text-text}
use logistics_order_fulfillm.Contracts.Json.{JsNumber, Json, Items, no_items, item}
use logistics_order_fulfillm.Contracts.Schema.{
  EventItem, OrderStatusChangedEvent, as_status, as_status_or_null, status_json, item_json,
  items_json, event_json, parse_item, parse_items, parse_metadata, parse_event, item_ok, event_ok,
}

module _ {N : Type 0} (js : JsNumber N) where
  parse_item-item_json :
      (e : EventItem N) → parse_item js (item_json e) ≡ (if item_ok js e then some e else none)
  unfolding parse_item item_json item_ok
  parse_item-item_json e = ground arith

  parse_items-items_json :
      (es : List (EventItem N))
      → parse_items js (items_json es) ≡ (if all (item_ok js) es then some es else none)
  unfolding parse_items items_json
  parse_items-items_json [] = refl
  parse_items-items_json (e ∷ es) =
      ground (arith, parse_item-item_json e, parse_items-items_json es)

  as_status_or_null-status_json :
      (s : Option OrderStatus) → as_status_or_null {N = N} (some (status_json s)) ≡ some s
  unfolding as_status_or_null status_json
  as_status_or_null-status_json none = refl
  as_status_or_null-status_json (some s) = rw (of_text-text s)

  -- The schema's parse of the wire form of an event is the event if its numbers satisfy the
  -- schema, and an error otherwise.
  pub parse_event-event_json :
      (e : OrderStatusChangedEvent N)
      → parse_event js (event_json e) ≡ (if event_ok js e then some e else none)
  unfolding parse_event event_json event_ok parse_metadata as_status
  parse_event-event_json e = ground (
    arith,
    as_status_or_null-status_json e.previous_status,
    of_text-text e.new_status,
    parse_items-items_json e.items,
  )

  parse_item-ok : (j : Json N) → of_some (item_ok js) (parse_item js j) ≡ true
  unfolding parse_item item_ok
  parse_item-ok j = ground arith

  parse_items-ok : (j : Items N) → of_some (all (item_ok js)) (parse_items js j) ≡ true
  unfolding parse_items
  parse_items-ok no_items = refl
  parse_items-ok (item j rest) = ground (arith, parse_item-ok j, parse_items-ok rest)

  -- An event that the schema's parse accepts, of any JSON value, has numbers that satisfy the
  -- schema.
  pub parse_event-ok :
      (j : Json N) {e : OrderStatusChangedEvent N}
      → parse_event js j ≡ some e
      → event_ok js e ≡ true
  unfolding parse_event event_ok
  parse_event-ok j h = grind (arith, parse_items-ok)
