-- ===== src/Composition/Logged.antt =====
-- What a predicate of the rows of the audit log keeps when the service records an event
-- (apps/audit-service/src/audit/audit.service.ts).
use logistics_order_fulfillm.Prelude.{
  String, ℕ, ◌≡◌, Bool, some, List, [], ◌∷◌, All, arith, Bool-cases, inl, inr, subst,
}
use logistics_order_fulfillm.Prelude.Unique.{holds, insert_or_ignore}
use logistics_order_fulfillm.Prelude.Everywhere.{All-append}
use logistics_order_fulfillm.Contracts.Status
use logistics_order_fulfillm.Contracts.Json.{JsNumber}
use logistics_order_fulfillm.Contracts.Schema.{OrderStatusChangedEvent}
use logistics_order_fulfillm.EventLogs.Audit.{OrderStatusLog, log_of, record_event}

module _ {N : Type 0} (js : JsNumber N) (to_date : String → ℕ) (accepts : OrderStatusLog N → Bool)
    (P : OrderStatusLog N → Type 0) (event : OrderStatusChangedEvent N) where
  All-insert :
      (row : OrderStatusLog N) (rows : List (OrderStatusLog N))
      → P row
      → All P rows
      → All P (insert_or_ignore (λ r. r.order_id) (λ r. Status.text r.new_status) row rows)
  unfolding insert_or_ignore
  All-insert row rows new old =
      elim (Bool-cases (holds (λ r. r.order_id) (λ r. Status.text r.new_status) row rows)) [
        | inl known ↦ rw known old
        | inr fresh ↦ rw fresh (All-append P rows (row ∷ []) old (new, tt))
      ]

  pub All-record_event :
      (rows rows' : List (OrderStatusLog N))
      → record_event js to_date accepts event rows ≡ some rows'
      → P (log_of js to_date event)
      → All P rows
      → All P rows'
  unfolding record_event
  All-record_event rows rows' recorded new old =
      elim (Bool-cases (accepts (log_of js to_date event))) [
        | inl taken ↦
            let row = log_of js to_date event in
            let same : insert_or_ignore (λ r. r.order_id) (λ r. Status.text r.new_status) row rows
                ≡ rows' =
              ground arith in
            subst (All P) same (All-insert row rows new old)
        | inr refused ↦ absurd (ground arith)
      ]
