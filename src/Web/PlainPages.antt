-- ===== src/Web/PlainPages.antt =====
-- The pages of apps/web/app that only show something: the home page, the page of a missing resource,
-- the three error pages and the page of a new order.
use logistics_order_fulfillm.Prelude.{String, Bool, none, some, List, [], ◌∷◌, ◌++◌}
use logistics_order_fulfillm.Web.OrderForm.{OrderFormState, Action}
use logistics_order_fulfillm.Web.FormPage.{order_form}
use logistics_order_fulfillm.Web.View.{Node, heading, paragraph, link, page_header, error_state}

-- What an error page asks for.
pub data ErrorAction : Type 0 where
  reset : ErrorAction

unfoldable pub orders_error : List (Node ErrorAction)
orders_error =
    error_state "Couldn't load orders"
      "Something went wrong while loading the orders list. Please try again."
      (some ("Try again", reset))

unfoldable pub order_detail_error : List (Node ErrorAction)
order_detail_error =
    error_state "Couldn't load this order"
      "Something went wrong while loading this order's details. Please try again."
      (some ("Try again", reset))

unfoldable pub analytics_error : List (Node ErrorAction)
analytics_error =
    error_state "Couldn't load analytics"
      "Something went wrong while loading analytics data. Please try again."
      (some ("Try again", reset))

pub record Section : Type 0 where
  pub href : String
  pub title : String
  pub desc : String

abbrev pub home_sections : List Section
home_sections =
    record {
      href = "/orders";
      title = "Orders";
      desc = "Browse orders and track their status through the fulfillment pipeline.";
    }
    ∷ record {
      href = "/orders/new";
      title = "Place an Order";
      desc = "Create a new order for a customer.";
    }
    ∷ record {
      href = "/analytics";
      title = "Analytics";
      desc = "Throughput, status breakdown, and time spent in each status.";
    }
    ∷ record {
      href = "/fraud";
      title = "Fraud Flags";
      desc = "Review orders flagged by the fraud detection service.";
    }
    ∷ []

module _ {A : Type 0} where
  section_nodes : List Section → List (Node A)
  section_nodes [] = []
  section_nodes (s ∷ ss) = link s.href s.title ∷ paragraph s.desc ∷ section_nodes ss

  unfoldable pub home_page : List (Node A)
  unfolding section_nodes
  home_page =
      heading "Logistics Ops Dashboard" none
      ∷ paragraph
          "Place orders, track them through the fulfillment pipeline, and monitor throughput and fraud signals — all in one place."
      ∷ section_nodes home_sections

  unfoldable pub not_found_page : List (Node A)
  not_found_page =
      heading "Not found" none
      ∷ paragraph "The page or resource you're looking for doesn't exist."
      ∷ link "/orders" "Back to orders"
      ∷ []

unfoldable pub new_order_page : Bool → OrderFormState → List (Node Action)
new_order_page is_loading state =
    page_header "Place a New Order" none
      (some "Requires an existing customer ID from elsewhere in the system.") none []
    ++ order_form is_loading state
