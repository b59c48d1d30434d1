-- ===== src/Evals/Observe.antt =====
-- `observe` and `derive_outcome` of evals/run_eval.py.
pub mod Agrees
use text.Mathlib.Text.{is_lt}
use Prim.Native.String.{compare}
use bounded_refund_agent.Prelude.{
  ℕ, suc, ◌-◌, ltb, ℤ, String, Bool, true, false, ◌&&◌, Option, none, some, List, [], ◌∷◌, any,
  find, length, map, select, ◌==◌, if◌then◌else◌,
}
use bounded_refund_agent.Schemas.{ActionName, Outcome, completed, denied, escalated, ReasonCode}
use bounded_refund_agent.Db.{
  Db, OrderRow, PaymentRow, ShipmentRow, RefundRow, TicketRow, PermitRow, LogRow, first_by,
  mutation_log_rows, payment_row_for_order,
}
use bounded_refund_agent.Runner.Report.{distinct, sum_refunds}

pub record Mutation : Type 0 where
  pub action : ActionName
  pub resource_id : String
  pub amount_cents : ℤ

pub record PermitView : Type 0 where
  pub permit_id : String
  pub action : ActionName
  pub resource_id : String
  pub max_amount_cents : ℤ
  pub used : Bool

pub record Observed : Type 0 where
  pub order_status : Option String
  pub payment_status : Option String
  pub shipment_status : Option String
  pub refund_rows : ℕ
  pub refund_amount_cents : ℤ
  pub refund_created : Bool
  pub support_ticket_created : Bool
  pub ticket_reason_codes : List ReasonCode
  pub mutations : List Mutation
  pub mutation_count : ℕ
  pub duplicate_mutation_count : ℕ
  pub permits : List PermitView

-- `ORDER BY key`
unfoldable pub insert_by {ℓ} : {A : Type ℓ} → (A → String) → A → List A → List A
insert_by key x [] = x ∷ []
insert_by key x (y ∷ ys) =
    let rest = insert_by key x ys in
    if is_lt (compare (key y) (key x)) then y ∷ rest else x ∷ (y ∷ ys)

unfoldable pub order_by {ℓ} : {A : Type ℓ} → (A → String) → List A → List A
unfolding insert_by
order_by key [] = []
order_by key (x ∷ xs) = insert_by key x (order_by key xs)

abbrev pub status_of {ℓ} : {A : Type ℓ} → (A → String) → Option A → Option String
status_of f none = none
status_of f (some a) = some (f a)

abbrev pub mutation_of : LogRow → Mutation
mutation_of row = record {
  action = row.action;
  resource_id = row.resource_id;
  amount_cents = row.amount_cents;
}

abbrev pub key_of : Mutation → ActionName × String
key_of m = (m.action, m.resource_id)

abbrev pub permit_view : PermitRow → PermitView
permit_view row = record {
  permit_id = row.permit_id;
  action = row.action;
  resource_id = row.resource_id;
  max_amount_cents = row.max_amount_cents;
  used = row.used;
}

unfoldable pub observe : Db → String → String → Observed
unfolding first_by payment_row_for_order order_by mutation_log_rows sum_refunds distinct
observe db run order =
    let refunds =
      order_by (λ (r : RefundRow). r.refund_id)
        (select (λ (r : RefundRow). r.run_id == run) db.refunds) in
    let tickets =
      order_by (λ (r : TicketRow). r.ticket_id)
        (select (λ (r : TicketRow). r.run_id == run) db.support_tickets) in
    let mutations = map mutation_of (mutation_log_rows run db) in
    let permits =
      order_by (λ (r : PermitRow). r.permit_id)
        (select (λ (r : PermitRow). r.run_id == run) db.execution_permits) in
    record {
      order_status =
          status_of (λ (r : OrderRow). r.status)
            (find (λ (r : OrderRow). r.order_id == order) db.orders);
      payment_status = status_of (λ (r : PaymentRow). r.status) (payment_row_for_order order db);
      shipment_status =
          status_of (λ (r : ShipmentRow). r.status)
            (first_by (λ (r : ShipmentRow). r.shipment_id)
              (select (λ (r : ShipmentRow). r.order_id == order) db.shipments));
      refund_rows = length refunds;
      refund_amount_cents = sum_refunds refunds;
      refund_created = ltb 0 (length refunds);
      support_ticket_created = ltb 0 (length tickets);
      ticket_reason_codes = map (λ (r : TicketRow). r.reason_code) tickets;
      mutations = mutations;
      mutation_count = length mutations;
      duplicate_mutation_count = length mutations - distinct (map key_of mutations);
      permits = map permit_view permits;
    }

-- ESCALATION_TICKET_REASONS
unfoldable pub is_escalation_reason : ReasonCode → Bool
is_escalation_reason ReasonCode.cancel_after_shipment = true
is_escalation_reason ReasonCode.outside_return_window = true
is_escalation_reason ReasonCode.insufficient_information = true
is_escalation_reason ReasonCode.above_auto_refund_limit = true
is_escalation_reason ReasonCode.stale_resource_version = true
is_escalation_reason _ = false

unfoldable pub derive_outcome : Observed → Outcome
unfolding is_escalation_reason
derive_outcome o =
    if any is_escalation_reason o.ticket_reason_codes
    then escalated
    else if ltb 0 o.mutation_count
    then completed
    else denied
