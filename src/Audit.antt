-- ===== src/Audit.antt =====
-- app/audit.py: the events of a trace. An unknown event type cannot be written, as the types are an
-- enumeration, and the file of JSON lines is modelled in Cli.
use bounded_refund_agent.Prelude.{ℕ, ℤ, String, Option}
use bounded_refund_agent.Clock.{IsoText}
use bounded_refund_agent.Domain.{OrderStatus, PaymentStatus, ShipmentStatus}
use bounded_refund_agent.Schemas.{ActionName, Decision, DecisionOwner, Outcome, ReasonCode}

pub data EventType : Type 0 where
  user_request_received proposal_created proposal_validated proposal_rejected : EventType
  policy_allowed policy_denied permit_issued mutation_attempted mutation_committed : EventType
  mutation_replayed mutation_rejected state_verified run_finished : EventType

-- The keyword arguments beyond the required fields.
pub data Extra : Type 0 where
  no_extra : Extra
  permit_id : String → Extra
  replayed_permit : String → String → Extra
  attempt : ℕ → Extra
  action : ActionName → Extra
  decision : Decision → Extra
  statuses : Option OrderStatus → Option PaymentStatus → Option ShipmentStatus → Extra
  finished : Outcome → ℕ → Extra

pub record Event : Type 0 where
  pub run_id : String
  pub scenario_id : String
  pub event_type : EventType
  pub resource_id : String
  pub resource_version : ℤ
  pub decision_owner : DecisionOwner
  pub reason_code : Option ReasonCode
  pub timestamp : IsoText
  pub extra : Extra
