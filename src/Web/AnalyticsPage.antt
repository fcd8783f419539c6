-- ===== src/Web/AnalyticsPage.antt =====
-- apps/web/app/analytics/page.tsx
use logistics_order_fulfillm.Prelude.{
  ℕ, String, Bool, true, false, ◌||◌, Option, none, some, List, [], ◌∷◌, map, Result, ok, err,
  if◌then◌else◌,
}
use logistics_order_fulfillm.Contracts.Status.{OrderStatus}
use logistics_order_fulfillm.Web.Types.{AnalyticsSummary, OrdersPerHourPoint, TimeInStatusPoint}
use logistics_order_fulfillm.Web.Format.{Locale, format_money}
use logistics_order_fulfillm.Web.Charts.{Chart, orders_per_hour_chart, time_in_status_chart}
use logistics_order_fulfillm.Web.View.{Cell, status_badge}

-- What the page shows below its title, with its refresh button.
pub record AnalyticsView (N : Type 0) : Type 0 where
  pub warning : Option String
  pub total_orders_placed : String
  pub total_order_value : String
  -- the badge and the count of each status, or a text
  pub orders_by_status : List (Cell × ℕ)
  pub no_statuses : Option String
  pub orders_per_hour : Chart ℕ
  pub time_in_status : Chart N

abbrev fulfilled_or : {E A : Type 0} → A → Result E A → A
fulfilled_or fallback (ok a) = a
fulfilled_or fallback (err e) = fallback

abbrev summary_or_null : {E : Type 0} → Result E AnalyticsSummary → Option AnalyticsSummary
summary_or_null (ok summary) = some summary
summary_or_null (err e) = none

abbrev is_rejected : {E A : Type 0} → Result E A → Bool
is_rejected (ok a) = false
is_rejected (err e) = true

status_entries : Option AnalyticsSummary → List (OrderStatus × ℕ)
status_entries none = []
status_entries (some summary) = summary.counts_by_status

no_data_text : List (OrderStatus × ℕ) → Option String
no_data_text [] = some "No data"
no_data_text (entry ∷ entries) = none

-- `toLocaleString` of a whole number is `grouped`.
module _ {N : Type 0} (locale : Locale N) (grouped : ℕ → String) where
  orders_text : Option AnalyticsSummary → String
  orders_text none = "—"
  orders_text (some summary) = grouped summary.total_orders_placed

  value_text : Option AnalyticsSummary → String
  value_text none = "—"
  value_text (some summary) = format_money locale summary.total_order_value

  -- The page, by what its three fetches end with; one that fails does not keep the others away.
  unfoldable pub analytics_page :
      {E : Type 0}
      → Result E AnalyticsSummary
      → Result E (List OrdersPerHourPoint)
      → Result E (List (TimeInStatusPoint N))
      → AnalyticsView N
  unfolding orders_text value_text status_entries no_data_text
  analytics_page summary_res oph_res tis_res =
      let summary = summary_or_null summary_res in
      let entries = status_entries summary in
      record {
        warning =
            if is_rejected summary_res || is_rejected oph_res || is_rejected tis_res
            then some "Some analytics data could not be loaded from the analytics service."
            else none;
        total_orders_placed = orders_text summary;
        total_order_value = value_text summary;
        orders_by_status = map (λ e. (status_badge e.0, e.1)) entries;
        no_statuses = no_data_text entries;
        orders_per_hour = orders_per_hour_chart locale (fulfilled_or [] oph_res);
        time_in_status = time_in_status_chart locale (fulfilled_or [] tis_res);
      }
