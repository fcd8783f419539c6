-- ===== src/Web/Charts.antt =====
-- apps/web/components/charts: the data of the two charts and the texts of their tooltips.
use logistics_order_fulfillm.Prelude.{
  ◌<>◌, ℕ, String, List, [], ◌∷◌, map, eqb, decimal, if◌then◌else◌,
}
use logistics_order_fulfillm.Web.Types.{OrdersPerHourPoint, TimeInStatusPoint}
use logistics_order_fulfillm.Web.Styles.{status_style}
use logistics_order_fulfillm.Web.Format.{Locale, format_hour_label, format_duration}

-- A bar: its label on the axis, its height, its colour, and the tooltip's value and name.
pub record ChartBar (N : Type 0) : Type 0 where
  pub label : String
  pub height : N
  pub color : String
  pub tooltip : String × String

pub data Chart (N : Type 0) : Type 0 where
  -- an `EmptyState`
  no_data : String → Chart N
  bars : List (ChartBar N) → Chart N

abbrev plural : ℕ → String
plural n = if eqb n 1 then "" else "s"

module _ {N : Type 0} (locale : Locale N) where
  order_bar : OrdersPerHourPoint → ChartBar ℕ
  order_bar d = record {
    label = format_hour_label locale d.hour;
    height = d.count;
    color = "url(#ordersPerHourGradient)";
    tooltip = (decimal d.count <> " order" <> plural d.count, "Orders");
  }

  -- OrdersPerHourChart.tsx
  unfoldable pub orders_per_hour_chart : List OrdersPerHourPoint → Chart ℕ
  unfolding order_bar
  orders_per_hour_chart [] = no_data "No order activity in this window yet."
  orders_per_hour_chart (d ∷ points) = bars (map order_bar (d ∷ points))

  status_bar : TimeInStatusPoint N → ChartBar N
  status_bar d = record {
    label = (status_style d.status).label;
    height = d.avg_seconds;
    color = (status_style d.status).dot;
    tooltip = (
      format_duration locale d.avg_seconds,
      "avg (" <> decimal d.sample_size <> " sample" <> plural d.sample_size <> ")",
    );
  }

  -- TimeInStatusChart.tsx
  unfoldable pub time_in_status_chart : List (TimeInStatusPoint N) → Chart N
  unfolding status_bar
  time_in_status_chart [] = no_data "No status transitions recorded yet."
  time_in_status_chart (d ∷ points) = bars (map status_bar (d ∷ points))
