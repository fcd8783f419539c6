-- ===== src/Web.antt =====
-- apps/web: the parts of the interface that decide what a user may do.
pub mod StatusMachine
pub mod OrderForm
pub mod Agreement
pub mod Ui
pub mod Client
pub mod Types
pub mod Styles
pub mod View
pub mod Format
pub mod OrdersPage
pub mod FraudPage
pub mod TransitionActions
pub mod OrderPage
pub mod Charts
pub mod AnalyticsPage
pub mod FormPage
pub mod Fetches
pub mod PlainPages
pub mod Durations
pub mod Offers
pub mod Pagination
pub mod Paging
pub mod Sidebar
pub mod Toasts
