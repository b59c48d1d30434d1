-- ===== src/WriteTools.antt =====
-- app/tools/write_tools.py and app/executor/_authority.py: the write tools, which want an
-- authorization that the executor minted, and run inside its transaction.
pub mod Guard
use Prim.Native.String.{◌++◌ as ◌^^◌}
use bounded_refund_agent.Prelude.{
  ℕ, ℤ, pos, ◌+ℤ◌, eqb_ℤ, ltb_ℤ, eqb, String, Bool, true, false, not, ◌&&◌, ◌||◌, Option, none,
  some, List, [], ◌∷◌, ◌==◌, if◌then◌else◌,
}
use bounded_refund_agent.Result.{Result, ok, err, Exception, permit_required, stale_resource}
use bounded_refund_agent.Clock.{IsoText}
use bounded_refund_agent.Domain.{OrderStatus, refunded, ShipmentStatus}
use bounded_refund_agent.Schemas.{ActionName, same_action, ReasonCode, Summary}
use bounded_refund_agent.Db.{
  Db, OrderRow, PaymentRow, ShipmentRow, order_status_text, payment_status_text,
  shipment_status_text,
}
use bounded_refund_agent.Tx.{
  Tx, pure, raise, ◌>>=◌, ◌>>◌, guard, update_orders, update_payments, update_shipments,
  insert_refund, insert_ticket, insert_log,
}

-- `_EXECUTOR_TOKEN`, and any other object.
pub data Token : Type 0 where
  executor_token other_object : Token

pub record WriteAuthorization : Type 0 where
  pub permit_id : String
  pub action : ActionName
  pub resource_id : String
  pub max_amount_cents : ℤ
  pub run_id : String

-- `WriteAuthorization.__init__`
unfoldable pub new_authorization : Token → WriteAuthorization → Result WriteAuthorization
new_authorization executor_token auth = ok auth
new_authorization other_object auth = err permit_required

pub record WriteOutcome : Type 0 where
  pub action : ActionName
  pub resource_id : String
  pub amount_cents : ℤ
  pub created_id : String

-- `none` is an argument that is no `WriteAuthorization`.
unfoldable pub require : Option WriteAuthorization → ActionName → String → Tx WriteAuthorization
unfolding same_action
require none action resource = raise permit_required
require (some auth) action resource =
    if same_action auth.action action && auth.resource_id == resource
    then pure auth
    else raise permit_required

unfoldable pub log_mutation : String → ActionName → String → ℤ → IsoText → Tx (Unit {0})
unfolding insert_log
log_mutation run action resource amount now = insert_log (record {
  run_id = run;
  action = action;
  resource_id = resource;
  amount_cents = amount;
  created_at = now;
})

abbrev pub is_order_at : String → ℤ → OrderRow → Bool
is_order_at id version row = row.order_id == id && eqb_ℤ row.version version

abbrev pub is_payment_at : String → ℤ → PaymentRow → Bool
is_payment_at id version row = row.payment_id == id && eqb_ℤ row.version version

-- The shipments of the order that are still PREPARING or READY_TO_SHIP.
abbrev pub is_cancellable_shipment : String → ShipmentRow → Bool
is_cancellable_shipment id row =
    row.order_id == id && (row.status == "PREPARING" || row.status == "READY_TO_SHIP")

abbrev pub cancelled_order : OrderRow → OrderRow
cancelled_order row = record row { status = "CANCELLED"; version = row.version +ℤ pos 1 }

abbrev pub cancelled_shipment : ShipmentRow → ShipmentRow
cancelled_shipment row = record row { status = "CANCELLED"; version = row.version +ℤ pos 1 }

abbrev pub refunded_payment : ℤ → PaymentRow → PaymentRow
refunded_payment amount row = record row {
  status = "REFUNDED";
  refunded_cents = row.refunded_cents +ℤ amount;
  version = row.version +ℤ pos 1;
}

unfoldable pub cancel_order : Option WriteAuthorization → String → ℤ → IsoText → Tx WriteOutcome
unfolding require log_mutation
cancel_order auth order_id expected now = do
  authorized ← require auth ActionName.cancel_order order_id
  rowcount ← update_orders (is_order_at order_id expected) cancelled_order
  guard (eqb rowcount 1) stale_resource
  update_shipments (is_cancellable_shipment order_id) cancelled_shipment
  log_mutation authorized.run_id ActionName.cancel_order order_id (pos 0) now
  pure (record {
    action = ActionName.cancel_order;
    resource_id = order_id;
    amount_cents = pos 0;
    created_id = order_id;
  })

unfoldable pub issue_refund :
    Option WriteAuthorization → String → String → ℤ → ℤ → IsoText → Tx WriteOutcome
unfolding require log_mutation insert_refund
issue_refund auth payment_id order_id amount expected now = do
  authorized ← require auth ActionName.issue_refund payment_id
  guard (not (ltb_ℤ authorized.max_amount_cents amount)) permit_required
  rowcount ← update_payments (is_payment_at payment_id expected) (refunded_payment amount)
  guard (eqb rowcount 1) stale_resource
  insert_refund (record {
    refund_id = "ref_" ^^ authorized.permit_id;
    payment_id = payment_id;
    order_id = order_id;
    amount_cents = amount;
    created_at = now;
    run_id = authorized.run_id;
    permit_id = authorized.permit_id;
  })
  log_mutation authorized.run_id ActionName.issue_refund payment_id amount now
  pure (record {
    action = ActionName.issue_refund;
    resource_id = payment_id;
    amount_cents = amount;
    created_id = "ref_" ^^ authorized.permit_id;
  })

-- The cut `summary[:200]` is not modelled: a summary is kept by what it says.
unfoldable pub create_support_ticket :
    Option WriteAuthorization → String → ReasonCode → Summary → IsoText → Tx WriteOutcome
unfolding require log_mutation insert_ticket
create_support_ticket auth order_id reason summary now = do
  authorized ← require auth ActionName.create_support_ticket order_id
  insert_ticket (record {
    ticket_id = "tkt_" ^^ authorized.permit_id;
    order_id = order_id;
    reason_code = reason;
    summary = summary;
    created_at = now;
    run_id = authorized.run_id;
  })
  log_mutation authorized.run_id ActionName.create_support_ticket order_id (pos 0) now
  pure (record {
    action = ActionName.create_support_ticket;
    resource_id = order_id;
    amount_cents = pos 0;
    created_id = "tkt_" ^^ authorized.permit_id;
  })
