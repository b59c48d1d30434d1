-- ===== src/Db.antt =====
-- app/models/db.py: the tables, the reads of them, and the transaction that the write tools run in.
-- A table is the list of its rows in the order of insertion. Timestamps, actions, results and reasons
-- that only the program writes keep their types; a status column is a text, as anything may write it.
pub mod Tables
use text.Mathlib.Text.{is_lt}
use Prim.Native.String.{compare}
use bounded_refund_agent.Prelude.{
  ℕ, ℤ, String, Bool, Option, none, some, List, [], ◌∷◌, ◌++◌, ◌==◌, select, find, any, count,
  length, if◌then◌else◌,
}
use bounded_refund_agent.Result.{
  Result, ok, err, Exception, value_error, integrity_error, traverse, ◌>>=◌,
}
use bounded_refund_agent.Clock.{IsoText}
use bounded_refund_agent.Domain.{
  Order, OrderStatus, Payment, PaymentStatus, captured, refunded, Shipment, ShipmentStatus,
  RefundPolicy,
}
use bounded_refund_agent.Schemas.{ActionName, ExecutionPermit, ExecutionResult, ReasonCode, Summary}
pub use Tables.*

-- `str(status)` and `OrderStatus(text)`, which raises on any other text.
unfoldable pub order_status_text : OrderStatus → String
order_status_text OrderStatus.paid = "PAID"
order_status_text OrderStatus.ready_to_ship = "READY_TO_SHIP"
order_status_text OrderStatus.shipped = "SHIPPED"
order_status_text OrderStatus.delivered = "DELIVERED"
order_status_text OrderStatus.cancelled = "CANCELLED"

unfoldable pub payment_status_text : PaymentStatus → String
payment_status_text captured = "CAPTURED"
payment_status_text refunded = "REFUNDED"

unfoldable pub shipment_status_text : ShipmentStatus → String
shipment_status_text ShipmentStatus.preparing = "PREPARING"
shipment_status_text ShipmentStatus.ready_to_ship = "READY_TO_SHIP"
shipment_status_text ShipmentStatus.shipped = "SHIPPED"
shipment_status_text ShipmentStatus.delivered = "DELIVERED"
shipment_status_text ShipmentStatus.cancelled = "CANCELLED"

unfoldable pub parse_order_status : String → Result OrderStatus
parse_order_status s =
    if s == "PAID"
    then ok OrderStatus.paid
    else if s == "READY_TO_SHIP"
    then ok OrderStatus.ready_to_ship
    else if s == "SHIPPED"
    then ok OrderStatus.shipped
    else if s == "DELIVERED"
    then ok OrderStatus.delivered
    else if s == "CANCELLED"
    then ok OrderStatus.cancelled
    else err value_error

unfoldable pub parse_payment_status : String → Result PaymentStatus
parse_payment_status s =
    if s == "CAPTURED"
    then ok captured
    else if s == "REFUNDED"
    then ok refunded
    else err value_error

unfoldable pub parse_shipment_status : String → Result ShipmentStatus
parse_shipment_status s =
    if s == "PREPARING"
    then ok ShipmentStatus.preparing
    else if s == "READY_TO_SHIP"
    then ok ShipmentStatus.ready_to_ship
    else if s == "SHIPPED"
    then ok ShipmentStatus.shipped
    else if s == "DELIVERED"
    then ok ShipmentStatus.delivered
    else if s == "CANCELLED"
    then ok ShipmentStatus.cancelled
    else err value_error

unfoldable pub row_to_order : OrderRow → Result Order
row_to_order row = do
  status ← parse_order_status row.status
  ok (record {
    order_id = row.order_id;
    customer_id = row.customer_id;
    policy_id = row.policy_id;
    status = status;
    total_cents = row.total_cents;
    placed_at = row.placed_at;
    delivered_at = row.delivered_at;
    version = row.version;
  })

unfoldable pub row_to_payment : PaymentRow → Result Payment
row_to_payment row = do
  status ← parse_payment_status row.status
  ok (record {
    payment_id = row.payment_id;
    order_id = row.order_id;
    status = status;
    captured_cents = row.captured_cents;
    refunded_cents = row.refunded_cents;
    version = row.version;
  })

unfoldable pub row_to_shipment : ShipmentRow → Result Shipment
row_to_shipment row = do
  status ← parse_shipment_status row.status
  ok (record {
    shipment_id = row.shipment_id;
    order_id = row.order_id;
    status = status;
    carrier = row.carrier;
    version = row.version;
  })

-- `ORDER BY key`, first row: the least key in the order of the texts.
unfoldable pub first_by {ℓ} : {A : Type ℓ} → (A → String) → List A → Option A
first_by key [] = none
first_by key (x ∷ xs) = elim (first_by key xs) [
  | none ↦ some x
  | some y ↦ if is_lt (compare (key y) (key x)) then some y else some x
]

unfoldable pub fetch_order : String → Db → Result (Option Order)
unfolding row_to_order
fetch_order id db = traverse row_to_order (find (λ row. row.order_id == id) db.orders)

unfoldable pub fetch_payment_by_id : String → Db → Result (Option Payment)
unfolding row_to_payment
fetch_payment_by_id id db = traverse row_to_payment (find (λ row. row.payment_id == id) db.payments)

unfoldable pub payment_row_for_order : String → Db → Option PaymentRow
unfolding first_by
payment_row_for_order id db =
    first_by (λ row. row.payment_id) (select (λ row. row.order_id == id) db.payments)

unfoldable pub fetch_payment_for_order : String → Db → Result (Option Payment)
unfolding payment_row_for_order row_to_payment
fetch_payment_for_order id db = traverse row_to_payment (payment_row_for_order id db)

unfoldable pub fetch_shipment_for_order : String → Db → Result (Option Shipment)
unfolding first_by row_to_shipment
fetch_shipment_for_order id db =
    traverse row_to_shipment
      (first_by (λ row. row.shipment_id) (select (λ row. row.order_id == id) db.shipments))

unfoldable pub fetch_refund_policy : String → Db → Result (Option RefundPolicy)
fetch_refund_policy id db = ok (find (λ row. row.policy_id == id) db.refund_policies)

unfoldable pub mutation_log_rows : String → Db → List LogRow
mutation_log_rows run db = select (λ row. row.run_id == run) db.mutation_log

unfoldable pub mutation_count : Option String → Db → ℕ
mutation_count none db = length db.mutation_log
mutation_count (some run) db = count (λ row. row.run_id == run) db.mutation_log
