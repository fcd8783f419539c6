-- ===== src/Web/FraudPage.antt =====
-- apps/web/app/fraud/page.tsx
use logistics_order_fulfillm.Prelude.{
  ◌<>◌, String, Option, none, some, List, [], ◌∷◌, ◌++◌, map, Result, ok, err, ◌==◌, if◌then◌else◌,
  false, true,
}
use logistics_order_fulfillm.Web.Types.{FraudFlag}
use logistics_order_fulfillm.Web.Format.{Locale, format_date_time}
use logistics_order_fulfillm.Web.OrdersPage.{thrown_text, short_id}
use logistics_order_fulfillm.Web.View.{
  plain, linked, Node, link, input, submit, table_head, table_row, severity_badge, page_header,
  empty_state, error_state, refresh_button, if_text,
}

-- What a visitor asks of the page: to refresh it, or to type into the filter.
pub data FraudAction : Type 0 where
  refresh : FraudAction
  typed : String → FraudAction

-- A missing id is as an empty one, which is falsy.
unfoldable pub filter_of : (String → String) → Option String → String
filter_of trim none = ""
filter_of trim (some order_id) = trim order_id

-- The flags and the error after the fetch.
flags_of : Result (Option String) (List FraudFlag) → List FraudFlag × String
flags_of (ok flags) = (flags, "")
flags_of (err e) = ([], thrown_text e "Failed to load fraud flags.")

unfoldable pub fetched_flags :
    (String → Result (Option String) (List FraudFlag))
    → Result (Option String) (List FraudFlag)
    → String
    → List FraudFlag × String
unfolding flags_of
fetched_flags fetch_flags_by_order fetch_flags order_id =
    if order_id == "" then flags_of fetch_flags else flags_of (fetch_flags_by_order order_id)

module _ {N : Type 0} (locale : Locale N) where
  flag_row : FraudFlag → Node FraudAction
  flag_row flag = table_row (
      linked ("/orders/" <> flag.order_id) (short_id flag.order_id) flag.order_id
      ∷ plain flag.rule_name
      ∷ severity_badge flag.severity
      ∷ plain flag.reason
      ∷ plain (format_date_time locale flag.created_at)
      ∷ [])

  flags_table : String → List FraudFlag → List (Node FraudAction)
  unfolding flag_row
  flags_table order_id [] =
      empty_state
        (if order_id == "" then "No fraud flags recorded." else "No flags for this order.")
      ∷ []
  flags_table order_id (flag ∷ flags) =
      table_head ("Order" ∷ "Rule" ∷ "Severity" ∷ "Reason" ∷ "Flagged At" ∷ [])
      ∷ map flag_row (flag ∷ flags)

  flags_body : String → List FraudFlag × String → List (Node FraudAction)
  unfolding flags_table
  flags_body order_id (flags, error) =
      if error == ""
      then flags_table order_id flags
      else error_state "Couldn't load fraud flags" ("Could not reach the fraud service: " <> error)
          none

  unfoldable pub fraud_page :
      (String → Result (Option String) (List FraudFlag))
      → Result (Option String) (List FraudFlag)
      → String
      → List (Node FraudAction)
  unfolding flags_body
  fraud_page fetch_flags_by_order fetch_flags order_id =
      page_header "Fraud Flags" none none none (refresh_button refresh false ∷ [])
      ++ input "Filter by order ID" order_id typed
        ∷ submit "Filter" true
        ∷ if_text order_id (link "/fraud" "Clear" ∷ [])
      ++ flags_body order_id (fetched_flags fetch_flags_by_order fetch_flags order_id)
