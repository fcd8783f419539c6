-- ===== src/EventLogs/Ingestion.antt =====
-- What the two event logs hold after any deliveries
-- (apps/audit-service/src/audit/audit.service.ts,
-- apps/analytics-service/src/analytics/analytics.service.ts).
use logistics_order_fulfillm.Prelude.{
  ℕ, String, ◌≡◌, ◌∙◌, Bool, true, Option, none, some, List, ◌++◌, if◌then◌else◌, arith,
  Option-cases, inl, inr, ◌>>=◌,
}
use logistics_order_fulfillm.Prelude.Unique.{insert_all, are_unique, insert_all-fresh}
use logistics_order_fulfillm.Contracts.Status
use logistics_order_fulfillm.Contracts.Json.{JsNumber, Json}
use logistics_order_fulfillm.Contracts.Schema.{OrderStatusChangedEvent, parse_event}
use logistics_order_fulfillm.EventLogs.Audit
use logistics_order_fulfillm.EventLogs.Analytics
use logistics_order_fulfillm.EventLogs.Deliveries.{
  or_old, consume, rows_of, insert_some, consume_lem, insert_all_unique, insert_all_twice,
}

module _ {N : Type 0} (js : JsNumber N) (to_date : String → ℕ)
    (json_parse : String → Option (Json N)) where
  module _ (accepts : Audit.OrderStatusLog N → Bool) where
    accepted : Option (OrderStatusChangedEvent N) → Option (Audit.OrderStatusLog N)
    accepted none = none
    accepted (some e) =
        if accepts (Audit.log_of js to_date e) then some (Audit.log_of js to_date e) else none

    -- The row of a message that is an event and that the table takes.
    unfoldable pub audit_row : String → Option (Audit.OrderStatusLog N)
    unfolding accepted
    audit_row raw = accepted (json_parse raw >>= parse_event js)

    audit_law :
        (raw : String) (rows : List (Audit.OrderStatusLog N))
        → or_old rows (Audit.each_message js to_date accepts json_parse raw rows)
          ≡ insert_some (λ r. r.order_id) (λ r. Status.text r.new_status) (audit_row raw) rows
    unfolding audit_row Audit.each_message Audit.record_event insert_some
    audit_law raw rows = elim (Option-cases (json_parse raw)) [
      | inl bad ↦ rw (bad, ◌>>=◌)
      | inr (j, is_json) ↦ elim (Option-cases (parse_event js j)) [
        | inl bad ↦ rw (is_json, ◌>>=◌, bad)
        | inr (e, is_event) ↦ rw (is_json, ◌>>=◌, is_event) (ground arith)
      ]
    ]

    audit_lem :
        (raws : List String) (rows : List (Audit.OrderStatusLog N))
        → consume (Audit.each_message js to_date accepts json_parse) raws rows
          ≡ insert_all
              (λ r. r.order_id)
              (λ r. Status.text r.new_status)
              (rows_of audit_row raws)
              rows
    audit_lem =
        consume_lem (λ r. r.order_id) (λ r. Status.text r.new_status)
          (Audit.each_message js to_date accepts json_parse) audit_row audit_law

    -- If no two rows of the audit log have one order and status, this holds after any deliveries.
    pub audit_unique :
        (raws : List String) (rows : List (Audit.OrderStatusLog N))
        → are_unique (λ r. r.order_id) (λ r. Status.text r.new_status) rows ≡ true
        → are_unique
            (λ r. r.order_id)
            (λ r. Status.text r.new_status)
            (consume (Audit.each_message js to_date accepts json_parse) raws rows)
          ≡ true
    audit_unique raws rows u =
        rw (audit_lem raws rows) (insert_all_unique _ _ (rows_of audit_row raws) rows u)

    -- Delivering the same messages to the audit service again, all of them and in their order,
    -- changes nothing in its log.
    pub audit-again :
        (raws : List String) (rows : List (Audit.OrderStatusLog N))
        → let deliver = Audit.each_message js to_date accepts json_parse in
          consume deliver raws (consume deliver raws rows) ≡ consume deliver raws rows
    audit-again raws rows =
        rw (audit_lem raws rows, audit_lem) (insert_all_twice _ _ (rows_of audit_row raws) rows)

    -- If the rows of the audit log and those of the delivered events that its table takes have
    -- pairwise different orders or statuses, the deliveries append exactly those rows, in their
    -- order.
    pub audit_complete :
        (raws : List String) (rows : List (Audit.OrderStatusLog N))
        → are_unique
            (λ r. r.order_id)
            (λ r. Status.text r.new_status)
            (rows ++ rows_of audit_row raws)
          ≡ true
        → consume (Audit.each_message js to_date accepts json_parse) raws rows
          ≡ rows ++ rows_of audit_row raws
    audit_complete raws rows u =
        audit_lem raws rows ∙ insert_all-fresh _ _ (rows_of audit_row raws) rows u

  module _ (accepts : Analytics.OrderStatusEvent → Bool) where
    taken : Option (OrderStatusChangedEvent N) → Option (Analytics.OrderStatusEvent)
    taken none = none
    taken (some e) =
        if accepts (Analytics.row_of js to_date e)
        then some (Analytics.row_of js to_date e)
        else none

    -- The row of a message that is an event and that the table takes.
    unfoldable pub analytics_row : String → Option (Analytics.OrderStatusEvent)
    unfolding taken
    analytics_row raw = taken (json_parse raw >>= parse_event js)

    analytics_law :
        (raw : String) (rows : List (Analytics.OrderStatusEvent))
        → or_old rows (Analytics.each_message js to_date accepts json_parse raw rows)
          ≡ insert_some (λ r. r.order_id) (λ r. Status.text r.new_status) (analytics_row raw) rows
    unfolding analytics_row Analytics.each_message Analytics.ingest insert_some
    analytics_law raw rows = elim (Option-cases (json_parse raw)) [
      | inl bad ↦ rw (bad, ◌>>=◌)
      | inr (j, is_json) ↦ elim (Option-cases (parse_event js j)) [
        | inl bad ↦ rw (is_json, ◌>>=◌, bad)
        | inr (e, is_event) ↦ rw (is_json, ◌>>=◌, is_event) (ground arith)
      ]
    ]

    analytics_lem :
        (raws : List String) (rows : List (Analytics.OrderStatusEvent))
        → consume (Analytics.each_message js to_date accepts json_parse) raws rows
          ≡ insert_all
              (λ r. r.order_id)
              (λ r. Status.text r.new_status)
              (rows_of analytics_row raws)
              rows
    analytics_lem =
        consume_lem (λ r. r.order_id) (λ r. Status.text r.new_status)
          (Analytics.each_message js to_date accepts json_parse) analytics_row analytics_law

    -- If no two rows of the analytics have one order and status, this holds after any deliveries.
    pub analytics_unique :
        (raws : List String) (rows : List (Analytics.OrderStatusEvent))
        → are_unique (λ r. r.order_id) (λ r. Status.text r.new_status) rows ≡ true
        → are_unique
            (λ r. r.order_id)
            (λ r. Status.text r.new_status)
            (consume (Analytics.each_message js to_date accepts json_parse) raws rows)
          ≡ true
    analytics_unique raws rows u =
        rw (analytics_lem raws rows) (insert_all_unique _ _ (rows_of analytics_row raws) rows u)

    -- Delivering the same messages to the analytics service again, all of them and in their order,
    -- changes nothing in its table.
    pub analytics-again :
        (raws : List String) (rows : List (Analytics.OrderStatusEvent))
        → let deliver = Analytics.each_message js to_date accepts json_parse in
          consume deliver raws (consume deliver raws rows) ≡ consume deliver raws rows
    analytics-again raws rows =
        rw (analytics_lem raws rows, analytics_lem)
          (insert_all_twice _ _ (rows_of analytics_row raws) rows)

    -- If the rows of the analytics and those of the delivered events that its table takes have
    -- pairwise different orders or statuses, the deliveries append exactly those rows, in their
    -- order.
    pub analytics_complete :
        (raws : List String) (rows : List (Analytics.OrderStatusEvent))
        → are_unique
            (λ r. r.order_id)
            (λ r. Status.text r.new_status)
            (rows ++ rows_of analytics_row raws)
          ≡ true
        → consume (Analytics.each_message js to_date accepts json_parse) raws rows
          ≡ rows ++ rows_of analytics_row raws
    analytics_complete raws rows u =
        analytics_lem raws rows ∙ insert_all-fresh _ _ (rows_of analytics_row raws) rows u
