-- ===== src/Runner/Report.antt =====
-- The verifier and the report of app/agent/runner.py, which read the tables back.
use bounded_refund_agent.Prelude.{
  ℕ, suc, ◌-◌, ℤ, pos, negsuc, ◌+ℤ◌, String, Bool, ◌&&◌, ltb, Option, none, some, List, [], ◌∷◌,
  ◌==◌, any, select, length, map, if◌then◌else◌,
}
use bounded_refund_agent.Schemas.{
  ActionName, same_action, DecisionOwner, Outcome, ReasonCode, VerifiedState,
}
use bounded_refund_agent.Domain.{Order, Payment, Shipment}
use bounded_refund_agent.Result.{ok}
use bounded_refund_agent.Db.{
  Db, RefundRow, TicketRow, LogRow, fetch_order, fetch_payment_for_order, fetch_shipment_for_order,
  mutation_log_rows,
}
use bounded_refund_agent.Audit.{EventType, Extra}
use bounded_refund_agent.World.{World, ToolCall, Note, Run, M, pure, query, gets, emit, ◌>>=◌, ◌>>◌}

pub record RunReport : Type 0 where
  pub run_id : String
  pub scenario_id : String
  pub outcome : Outcome
  pub reason_code : ReasonCode
  pub refund_created : Bool
  pub refund_amount_cents : ℤ
  pub support_ticket_created : Bool
  pub mutation_count : ℕ
  pub mutations : List (ActionName × String)
  pub tool_calls : List ToolCall
  pub tool_call_count : ℕ
  pub duplicate_mutation_count : ℕ
  pub recovered : Bool
  pub final_state : VerifiedState
  pub notes : List Note

-- `SUM(amount_cents)`
unfoldable pub sum_refunds : List RefundRow → ℤ
sum_refunds [] = pos 0
sum_refunds (row ∷ rows) = row.amount_cents +ℤ sum_refunds rows

unfoldable pub refunds_of : String → Db → List RefundRow
refunds_of run db = select (λ row. row.run_id == run) db.refunds

unfoldable pub tickets_of : String → Db → List TicketRow
tickets_of run db = select (λ row. row.run_id == run) db.support_tickets

abbrev status_of {ℓ} : {A : Type 0} {B : Type ℓ} → (A → B) → Option A → Option B
status_of f none = none
status_of f (some a) = some (f a)

abbrev version_of : Option Order → ℤ
version_of none = negsuc 0
version_of (some o) = o.version

unfoldable pub verify : Run → String → M VerifiedState
unfolding fetch_order fetch_payment_for_order fetch_shipment_for_order refunds_of sum_refunds emit
verify run order_id = do
  o ← query (fetch_order order_id)
  pay ← query (fetch_payment_for_order order_id)
  sh ← query (fetch_shipment_for_order order_id)
  refunded ← query (λ db. ok (sum_refunds (refunds_of run.run_id db)))
  let state : VerifiedState = record {
    order_status = status_of (λ (x : Order). x.status) o;
    payment_status = status_of (λ (x : Payment). x.status) pay;
    shipment_status = status_of (λ (x : Shipment). x.status) sh;
    refund_amount_cents = refunded;
  }
  emit run EventType.state_verified order_id (version_of o) DecisionOwner.verifier none (
      Extra.statuses (status_of (λ (x : Order). x.status) o)
        (status_of (λ (x : Payment). x.status) pay) (status_of (λ (x : Shipment). x.status) sh))
  pure state

-- `f"{action}:{resource_id}"`, which tells the pairs apart as an action has no colon
abbrev mutation_of : LogRow → ActionName × String
mutation_of row = (row.action, row.resource_id)

abbrev same_mutation : ActionName × String → ActionName × String → Bool
same_mutation a b = same_action a.0 b.0 && a.1 == b.1

-- `len(set(mutations))`
unfoldable pub distinct : List (ActionName × String) → ℕ
unfolding same_action
distinct [] = 0
distinct (m ∷ ms) = if any (same_mutation m) ms then distinct ms else suc (distinct ms)

abbrev recorded : Option (List ToolCall) → List ToolCall
recorded none = []
recorded (some calls) = calls

unfoldable pub summarise : Run → Outcome → ReasonCode → VerifiedState → World → RunReport
unfolding mutation_log_rows refunds_of sum_refunds tickets_of distinct
summarise run outcome reason final w =
    let rows = mutation_log_rows run.run_id w.db in
    let mutations = map mutation_of rows in
    let refunds = refunds_of run.run_id w.db in
    record {
      run_id = run.run_id;
      scenario_id = run.scenario_id;
      outcome = outcome;
      reason_code = reason;
      refund_created = ltb 0 (length refunds);
      refund_amount_cents = sum_refunds refunds;
      support_ticket_created = ltb 0 (length (tickets_of run.run_id w.db));
      mutation_count = length rows;
      mutations = mutations;
      tool_calls = recorded w.recorder;
      tool_call_count = length (recorded w.recorder);
      duplicate_mutation_count = length mutations - distinct mutations;
      recovered = w.recovered;
      final_state = final;
      notes = w.notes;
    }

unfoldable pub report : Run → Outcome → ReasonCode → VerifiedState → M RunReport
unfolding summarise
report run outcome reason final = gets (summarise run outcome reason final)
