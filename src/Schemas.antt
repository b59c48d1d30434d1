-- ===== src/Schemas.antt =====
-- app/models/schemas.py: what a planner may say, and what the server issues.
pub mod Gate
pub mod Bounds
use bounded_refund_agent.Prelude.{
  arith, ◌≡◌, refl, ℕ, ℤ, pos, negsuc, String, Bool, true, false, Option, none, List,
}
use bounded_refund_agent.Clock.{IsoText}
use bounded_refund_agent.Domain.{OrderStatus, PaymentStatus, ShipmentStatus}

pub data ActionName : Type 0 where
  cancel_order issue_refund create_support_ticket : ActionName

-- `a is b`
unfoldable pub same_action : ActionName → ActionName → Bool
same_action cancel_order cancel_order = true
same_action issue_refund issue_refund = true
same_action create_support_ticket create_support_ticket = true
same_action _ _ = false

pub same_action_refl : (a : ActionName) → same_action a a ≡ true
unfolding same_action
same_action_refl cancel_order = refl
same_action_refl issue_refund = refl
same_action_refl create_support_ticket = refl

pub same_action_sound : (a b : ActionName) → same_action a b ≡ true → a ≡ b
unfolding same_action
same_action_sound a b h = ground arith

-- `str(action)`
unfoldable pub action_text : ActionName → String
action_text cancel_order = "cancel_order"
action_text issue_refund = "issue_refund"
action_text create_support_ticket = "create_support_ticket"

pub data Decision : Type 0 where
  allow deny escalate : Decision

pub data Outcome : Type 0 where
  completed denied escalated : Outcome

pub data ReasonCode : Type 0 where
  cancellable_before_shipment refundable_within_limits ticket_requested : ReasonCode
  cancel_after_shipment order_already_cancelled payment_already_refunded : ReasonCode
  above_auto_refund_limit amount_exceeds_captured outside_return_window : ReasonCode
  insufficient_information stale_resource_version invalid_proposal unknown_action : ReasonCode
  permit_expired permit_already_used permit_resource_mismatch permit_action_mismatch : ReasonCode
  permit_amount_exceeded permit_missing idempotent_replay read_unavailable : ReasonCode
  transition_not_allowed : ReasonCode

-- `str(reason)`
unfoldable pub reason_code_text : ReasonCode → String
reason_code_text cancellable_before_shipment = "cancellable_before_shipment"
reason_code_text refundable_within_limits = "refundable_within_limits"
reason_code_text ticket_requested = "ticket_requested"
reason_code_text cancel_after_shipment = "cancel_after_shipment"
reason_code_text order_already_cancelled = "order_already_cancelled"
reason_code_text payment_already_refunded = "payment_already_refunded"
reason_code_text above_auto_refund_limit = "above_auto_refund_limit"
reason_code_text amount_exceeds_captured = "amount_exceeds_captured"
reason_code_text outside_return_window = "outside_return_window"
reason_code_text insufficient_information = "insufficient_information"
reason_code_text stale_resource_version = "stale_resource_version"
reason_code_text invalid_proposal = "invalid_proposal"
reason_code_text unknown_action = "unknown_action"
reason_code_text permit_expired = "permit_expired"
reason_code_text permit_already_used = "permit_already_used"
reason_code_text permit_resource_mismatch = "permit_resource_mismatch"
reason_code_text permit_action_mismatch = "permit_action_mismatch"
reason_code_text permit_amount_exceeded = "permit_amount_exceeded"
reason_code_text permit_missing = "permit_missing"
reason_code_text idempotent_replay = "idempotent_replay"
reason_code_text read_unavailable = "read_unavailable"
reason_code_text transition_not_allowed = "transition_not_allowed"

pub data DecisionOwner : Type 0 where
  planner policy executor verifier : DecisionOwner

pub record ActionProposal : Type 0 where
  pub action : ActionName
  pub order_id : String
  pub amount_cents : Option ℤ
  pub reason : String

pub record ExecutionPermit : Type 0 where
  pub permit_id : String
  pub action : ActionName
  pub resource_id : String
  pub expected_resource_version : ℤ
  pub max_amount_cents : ℤ
  pub expires_at : IsoText
  pub idempotency_key : String
  pub used : Bool

-- The names of the read tools and of the records that they fetch.
pub data ReadTool : Type 0 where
  get_order get_payment get_shipment get_refund_policy : ReadTool

pub data RecordName : Type 0 where
  order payment shipment refund_policy : RecordName

-- What a detail text says; its wording, with a float in it, is not modelled.
pub data Detail : Type 0 where
  blank no_proposal needs_positive_amount stale_after_replan : Detail
  resource : String → Detail
  order_status : OrderStatus → Detail
  exceeds : ℤ → ℤ → Detail
  -- microseconds since the delivery, and the window in days
  too_late : ℤ → ℤ → Detail
  unavailable : List ReadTool → List RecordName → Detail

pub record PolicyResult : Type 0 where
  pub decision : Decision
  pub reason_code : ReasonCode
  pub max_amount_cents : ℤ
  pub resource_id : String
  pub expected_resource_version : ℤ
  pub detail : Detail

-- A support ticket's reason code and summary.
pub data Summary : Type 0 where
  reason_text : String → Summary
  escalation : ReasonCode → Detail → Summary

pub record ExecutionResult : Type 0 where
  pub committed : Bool
  pub action : Option ActionName
  pub resource_id : String
  pub amount_cents : ℤ
  pub reason_code : Option ReasonCode
  pub replayed : Bool
  pub created_id : String

pub record VerifiedState : Type 0 where
  pub order_status : Option OrderStatus
  pub payment_status : Option PaymentStatus
  pub shipment_status : Option ShipmentStatus
  pub refund_amount_cents : ℤ
