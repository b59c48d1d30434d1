-- ===== src/Db/Tables.antt =====
-- The rows of the tables of SCHEMA in app/models/db.py.
use bounded_refund_agent.Prelude.{ℤ, String, Option, List}
use bounded_refund_agent.Clock.{IsoText}
use bounded_refund_agent.Domain.{RefundPolicy}
use bounded_refund_agent.Schemas.{ActionName, ExecutionPermit, ExecutionResult, ReasonCode, Summary}

pub record OrderRow : Type 0 where
  pub order_id : String
  pub customer_id : String
  pub policy_id : String
  pub status : String
  pub total_cents : ℤ
  pub placed_at : IsoText
  pub delivered_at : Option IsoText
  pub version : ℤ

pub record PaymentRow : Type 0 where
  pub payment_id : String
  pub order_id : String
  pub status : String
  pub captured_cents : ℤ
  pub refunded_cents : ℤ
  pub version : ℤ

pub record ShipmentRow : Type 0 where
  pub shipment_id : String
  pub order_id : String
  pub status : String
  pub carrier : String
  pub version : ℤ

pub record TicketRow : Type 0 where
  pub ticket_id : String
  pub order_id : String
  pub reason_code : ReasonCode
  pub summary : Summary
  pub created_at : IsoText
  pub run_id : String

pub record RefundRow : Type 0 where
  pub refund_id : String
  pub payment_id : String
  pub order_id : String
  pub amount_cents : ℤ
  pub created_at : IsoText
  pub run_id : String
  pub permit_id : String

-- A row of `execution_permits`: the permit's columns and two more.
pub record PermitRow : Type 0 where
  pub permit : ExecutionPermit
  pub open permit use *
  pub created_at : IsoText
  pub run_id : String

-- `result` is what `result_json` holds.
pub record ExecutionRow : Type 0 where
  pub idempotency_key : String
  pub run_id : String
  pub action : ActionName
  pub resource_id : String
  pub amount_cents : ℤ
  pub result : ExecutionResult
  pub created_at : IsoText

-- `seq` is the position in the table.
pub record LogRow : Type 0 where
  pub run_id : String
  pub action : ActionName
  pub resource_id : String
  pub amount_cents : ℤ
  pub created_at : IsoText

pub record Db : Type 0 where
  pub refund_policies : List RefundPolicy
  pub orders : List OrderRow
  pub payments : List PaymentRow
  pub shipments : List ShipmentRow
  pub support_tickets : List TicketRow
  pub refunds : List RefundRow
  pub execution_permits : List PermitRow
  pub execution_records : List ExecutionRow
  pub mutation_log : List LogRow
