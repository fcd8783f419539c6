-- ===== src/OrderApi/Jobs.antt =====
-- apps/order-api/src/jobs: the processors of the BullMQ jobs. The drawing of the PDF is output only;
-- of the invoice its lines are kept.
use logistics_order_fulfillm.Prelude.{
  ◌<>◌, String, Option, none, some, List, [], ◌∷◌, ◌++◌, map, Result, ok, err, decimal,
}
use logistics_order_fulfillm.Contracts.Status.{cancelled}
use logistics_order_fulfillm.OrderApi.Entities.{
  Platform, OrderItem, Order, PaymentTimeoutJobData, GenerateInvoiceJobData,
  DeliveryReminderJobData,
}
use logistics_order_fulfillm.OrderApi.Store.{Db, State, Ambient, OrderError, invalid_transition}
use logistics_order_fulfillm.OrderApi.Service.{transition, find_one}

-- A refused transition is a no-op; any other error goes to BullMQ, which retries the job.
payment_timeout_catch :
    {N : Type 0} → Result OrderError Order × State N → Option OrderError × State N
payment_timeout_catch (ok order, s) = (none, s)
payment_timeout_catch (err (invalid_transition from to), s) = (none, s)
payment_timeout_catch (err e, s) = (some e, s)

-- `process` of the payment timeout: the error that it throws, and the state after it.
unfoldable pub process_payment_timeout :
    {N : Type 0}
    → Platform N
    → PaymentTimeoutJobData
    → Ambient
    → State N
    → Option OrderError × State N
unfolding payment_timeout_catch
process_payment_timeout pf job amb s =
    payment_timeout_catch (transition pf job.order_id cancelled amb s)

item_line : OrderItem → String
item_line item = "  " <> item.sku <> " x" <> decimal item.qty <> " @ " <> item.unit_price

-- The texts of the invoice, in the order in which they are drawn.
unfoldable pub invoice_lines : GenerateInvoiceJobData → Order → List String
unfolding item_line
invoice_lines job order =
    "Invoice"
    ∷ ("Order ID: " <> order.id)
    ∷ ("Trace ID: " <> job.trace_id)
    ∷ ("Customer ID: " <> order.customer_id)
    ∷ ("Delivery Address: " <> order.delivery_address)
    ∷ "Items:"
    ∷ (map item_line order.items ++ ("Total: " <> order.total_value) ∷ [])

invoice_of :
    GenerateInvoiceJobData → Result OrderError Order → Result OrderError (String × List String)
invoice_of job (err e) = err e
invoice_of job (ok order) = ok ("invoice-" <> job.order_id <> ".pdf", invoice_lines job order)

-- `process` of the invoice job: the file's name and its texts, or the error of `findOne`.
unfoldable pub process_invoice :
    {N : Type 0} → GenerateInvoiceJobData → Db N → Result OrderError (String × List String)
unfolding invoice_of
process_invoice job db = invoice_of job (find_one job.order_id db)

-- `process` of the delivery reminder: the line that it logs, and nothing else.
unfoldable pub process_delivery_reminder : DeliveryReminderJobData → String
process_delivery_reminder job =
    "Delivery reminder: order " <> job.order_id <> " for customer " <> job.customer_id
    <> " is arriving soon (trace_id=" <> job.trace_id <> ")"
