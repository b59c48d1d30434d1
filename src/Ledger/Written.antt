-- ===== src/Ledger/Written.antt =====
-- The transaction of app/executor/executor.py keeps the primary and foreign keys of app/models/db.py.
use Prim.Native.String.{◌++◌ as ◌^^◌}
use bounded_refund_agent.Prelude.{
  ℤ, pos, eqb, ltb_ℤ, not, String, refl, Bool, true, false, ◌&&◌, ◌==◌, Option, none, some,
  if◌then◌else◌,
}
use bounded_refund_agent.Result.{permit_required, stale_resource}
use bounded_refund_agent.Clock.{IsoText}
use bounded_refund_agent.Schemas.{ActionName, ActionProposal, ExecutionPermit, same_action}
use bounded_refund_agent.Tx.{Tx, update_where}
use bounded_refund_agent.Tx as T
use bounded_refund_agent.Tx.Ensures.{Ensures-pure, Ensures-raise, Ensures-bind}
use bounded_refund_agent.WriteTools
use bounded_refund_agent.WriteTools.{
  cancelled_order, cancelled_shipment, is_cancellable_shipment, is_order_at, is_payment_at,
  refunded_payment, WriteAuthorization, WriteOutcome, log_mutation, require,
}
use bounded_refund_agent.Executor.Commit.{
  TicketText, amount_of, call_tool, finish, mark_used, reason_or, result_of, summary_or, write,
}
use bounded_refund_agent.Ledger.Updates.{
  Keeps, guard-Keeps, insert_log-Keeps, update_orders-Keeps, update_payments-Keeps,
  update_shipments-Keeps, update_permits-Keeps,
}
use bounded_refund_agent.Ledger.Inserted.{
  insert_ticket-Keeps, insert_refund-Keeps, insert_record-Keeps,
}
use bounded_refund_agent.World.{Run}

require-Keeps :
    (auth : Option WriteAuthorization) (a : ActionName) (id : String) → Keeps (require auth a id)
unfolding require
require-Keeps none a id = Ensures-raise _
require-Keeps (some auth) a id = checked (same_action auth.action a && auth.resource_id == id)
  where
    checked : (b : Bool) → Keeps (if b then T.pure auth else T.raise permit_required)
    checked true = Ensures-pure auth (λ db t. t)
    checked false = Ensures-raise _

log_mutation-Keeps :
    (run : String) (a : ActionName) (resource : String) (amount : ℤ) (now : IsoText)
    → Keeps (log_mutation run a resource amount now)
unfolding log_mutation
log_mutation-Keeps run a resource amount now = insert_log-Keeps _

call_tool-Keeps :
    (a : ActionName) (auth : WriteAuthorization) (permit : ExecutionPermit) (p : ActionProposal)
    (ticket : TicketText) (time : IsoText)
    → Keeps (call_tool a auth permit p ticket time)
unfolding call_tool WriteTools.cancel_order WriteTools.issue_refund WriteTools.create_support_ticket
call_tool-Keeps ActionName.cancel_order auth permit p ticket time =
    Ensures-bind (require-Keeps (some auth) ActionName.cancel_order p.order_id) λ authorized.
      Ensures-bind
        (update_orders-Keeps (is_order_at p.order_id permit.expected_resource_version)
          cancelled_order (λ row. refl))
        λ n. Ensures-bind (guard-Keeps (eqb n 1) stale_resource) λ _.
          Ensures-bind
            (update_shipments-Keeps (is_cancellable_shipment p.order_id) cancelled_shipment
              (λ row. refl))
            λ _.
              Ensures-bind
                (log_mutation-Keeps authorized.run_id ActionName.cancel_order p.order_id (pos 0)
                  time)
                λ _.
                  Ensures-pure
                    (record {
                      action = ActionName.cancel_order;
                      resource_id = p.order_id;
                      amount_cents = pos 0;
                      created_id = p.order_id;
                    })
                    (λ db t. t)
call_tool-Keeps ActionName.issue_refund auth permit p ticket time =
    Ensures-bind (require-Keeps (some auth) ActionName.issue_refund permit.resource_id)
      λ authorized.
        Ensures-bind
          (guard-Keeps (not (ltb_ℤ authorized.max_amount_cents (amount_of p))) permit_required)
          λ _.
            Ensures-bind
              (update_payments-Keeps
                (is_payment_at permit.resource_id permit.expected_resource_version)
                (refunded_payment (amount_of p)) (λ row. refl))
              λ n. Ensures-bind (guard-Keeps (eqb n 1) stale_resource) λ _.
                Ensures-bind
                  (insert_refund-Keeps (record {
                    refund_id = "ref_" ^^ authorized.permit_id;
                    payment_id = permit.resource_id;
                    order_id = p.order_id;
                    amount_cents = amount_of p;
                    created_at = time;
                    run_id = authorized.run_id;
                    permit_id = authorized.permit_id;
                  }))
                  λ _.
                    Ensures-bind
                      (log_mutation-Keeps authorized.run_id ActionName.issue_refund
                        permit.resource_id (amount_of p) time)
                      λ _.
                        Ensures-pure
                          (record {
                            action = ActionName.issue_refund;
                            resource_id = permit.resource_id;
                            amount_cents = amount_of p;
                            created_id = "ref_" ^^ authorized.permit_id;
                          })
                          (λ db t. t)
call_tool-Keeps ActionName.create_support_ticket auth permit p ticket time =
    Ensures-bind (require-Keeps (some auth) ActionName.create_support_ticket p.order_id)
      λ authorized.
        Ensures-bind
          (insert_ticket-Keeps (record {
            ticket_id = "tkt_" ^^ authorized.permit_id;
            order_id = p.order_id;
            reason_code = reason_or ticket.reason;
            summary = summary_or ticket.summary p;
            created_at = time;
            run_id = authorized.run_id;
          }))
          λ _.
            Ensures-bind
              (log_mutation-Keeps authorized.run_id ActionName.create_support_ticket p.order_id
                (pos 0) time)
              λ _.
                Ensures-pure
                  (record {
                    action = ActionName.create_support_ticket;
                    resource_id = p.order_id;
                    amount_cents = pos 0;
                    created_id = "tkt_" ^^ authorized.permit_id;
                  })
                  (λ db t. t)

finish-Keeps :
    (run : Run) (permit : ExecutionPermit) (time : IsoText) (o : WriteOutcome)
    → Keeps (finish run permit time o)
unfolding finish
finish-Keeps run permit time o =
    Ensures-bind
      (insert_record-Keeps (record {
        idempotency_key = permit.idempotency_key;
        run_id = run.run_id;
        action = o.action;
        resource_id = o.resource_id;
        amount_cents = o.amount_cents;
        result = result_of o;
        created_at = time;
      }))
      λ _.
        Ensures-bind
          (update_permits-Keeps (λ row. row.permit_id == permit.permit_id) mark_used (λ row. refl))
          λ _. Ensures-pure (result_of o) (λ db t. t)

pub write-Keeps :
    (run : Run) (auth : WriteAuthorization) (permit : ExecutionPermit) (p : ActionProposal)
    (ticket : TicketText) (time : IsoText)
    → Keeps (write run auth permit p ticket time)
unfolding write
write-Keeps run auth permit p ticket time =
    Ensures-bind (call_tool-Keeps p.action auth permit p ticket time)
      λ o. finish-Keeps run permit time o
