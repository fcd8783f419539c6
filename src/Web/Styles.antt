-- ===== src/Web/Styles.antt =====
-- apps/web/lib/statusStyles.ts
use logistics_order_fulfillm.Prelude.{String}
use logistics_order_fulfillm.Contracts.Status.{
  OrderStatus, placed, payment_confirmed, picking, packed, shipped, delivered, cancelled,
}
use logistics_order_fulfillm.Web.Types.{FraudSeverity, low, medium, high}

-- `icon` is the name of the icon's component.
pub record StatusStyle : Type 0 where
  pub pill : String
  pub dot_class : String
  pub dot : String
  pub label : String
  pub icon : String

pub record SeverityStyle : Type 0 where
  pub pill : String
  pub dot_class : String
  pub label : String
  pub icon : String

unfoldable pub status_style : OrderStatus → StatusStyle
status_style placed = record {
  pill = "bg-blue-50 text-blue-600";
  dot_class = "bg-blue-500";
  dot = "#3b82f6";
  label = "Placed";
  icon = "Package";
}
status_style payment_confirmed = record {
  pill = "bg-blue-50 text-blue-700";
  dot_class = "bg-blue-600";
  dot = "#2563eb";
  label = "Payment Confirmed";
  icon = "CreditCard";
}
status_style picking = record {
  pill = "bg-blue-100 text-blue-700";
  dot_class = "bg-blue-600";
  dot = "#2563eb";
  label = "Picking";
  icon = "PackageSearch";
}
status_style packed = record {
  pill = "bg-blue-100 text-blue-800";
  dot_class = "bg-blue-700";
  dot = "#1d4ed8";
  label = "Packed";
  icon = "PackageCheck";
}
status_style shipped = record {
  pill = "bg-blue-100 text-blue-900";
  dot_class = "bg-blue-800";
  dot = "#1e40af";
  label = "Shipped";
  icon = "Truck";
}
status_style delivered = record {
  pill = "bg-green-50 text-green-700";
  dot_class = "bg-green-600";
  dot = "#16a34a";
  label = "Delivered";
  icon = "CheckCircle2";
}
status_style cancelled = record {
  pill = "bg-red-50 text-red-700";
  dot_class = "bg-red-600";
  dot = "#dc2626";
  label = "Cancelled";
  icon = "XCircle";
}

unfoldable pub severity_style : FraudSeverity → SeverityStyle
severity_style low = record {
  pill = "bg-green-50 text-green-700";
  dot_class = "bg-green-600";
  label = "Low";
  icon = "ShieldCheck";
}
severity_style medium = record {
  pill = "bg-amber-50 text-amber-700";
  dot_class = "bg-amber-600";
  label = "Medium";
  icon = "ShieldAlert";
}
severity_style high = record {
  pill = "bg-red-50 text-red-700";
  dot_class = "bg-red-600";
  label = "High";
  icon = "ShieldX";
}
