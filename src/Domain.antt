-- ===== src/Domain.antt =====
-- app/models/domain.py: the closed statuses, the transition tables and the records.
pub mod Transitions
use bounded_refund_agent.Prelude.{ℤ, String, Bool, Option, List, [], ◌∷◌, any, true, false}
use bounded_refund_agent.Clock.{IsoText}

pub data OrderStatus : Type 0 where
  paid ready_to_ship shipped delivered cancelled : OrderStatus

pub data PaymentStatus : Type 0 where
  captured refunded : PaymentStatus

pub data ShipmentStatus : Type 0 where
  preparing ready_to_ship shipped delivered cancelled : ShipmentStatus

-- `a is b` on the members of each enum.
unfoldable pub same_order_status : OrderStatus → OrderStatus → Bool
same_order_status OrderStatus.paid OrderStatus.paid = true
same_order_status OrderStatus.ready_to_ship OrderStatus.ready_to_ship = true
same_order_status OrderStatus.shipped OrderStatus.shipped = true
same_order_status OrderStatus.delivered OrderStatus.delivered = true
same_order_status OrderStatus.cancelled OrderStatus.cancelled = true
same_order_status _ _ = false

unfoldable pub same_payment_status : PaymentStatus → PaymentStatus → Bool
same_payment_status captured captured = true
same_payment_status refunded refunded = true
same_payment_status _ _ = false

unfoldable pub same_shipment_status : ShipmentStatus → ShipmentStatus → Bool
same_shipment_status ShipmentStatus.preparing ShipmentStatus.preparing = true
same_shipment_status ShipmentStatus.ready_to_ship ShipmentStatus.ready_to_ship = true
same_shipment_status ShipmentStatus.shipped ShipmentStatus.shipped = true
same_shipment_status ShipmentStatus.delivered ShipmentStatus.delivered = true
same_shipment_status ShipmentStatus.cancelled ShipmentStatus.cancelled = true
same_shipment_status _ _ = false

-- ORDER_TRANSITIONS and PAYMENT_TRANSITIONS: the targets of each status.
unfoldable pub order_transitions : OrderStatus → List OrderStatus
order_transitions OrderStatus.paid = OrderStatus.ready_to_ship ∷ OrderStatus.cancelled ∷ []
order_transitions OrderStatus.ready_to_ship = OrderStatus.shipped ∷ OrderStatus.cancelled ∷ []
order_transitions OrderStatus.shipped = OrderStatus.delivered ∷ []
order_transitions OrderStatus.delivered = []
order_transitions OrderStatus.cancelled = []

unfoldable pub payment_transitions : PaymentStatus → List PaymentStatus
payment_transitions captured = refunded ∷ []
payment_transitions refunded = []

unfoldable pub order_transition_allowed : OrderStatus → OrderStatus → Bool
unfolding same_order_status order_transitions
order_transition_allowed current target = any (same_order_status target) (order_transitions current)

unfoldable pub payment_transition_allowed : PaymentStatus → PaymentStatus → Bool
unfolding same_payment_status payment_transitions
payment_transition_allowed current target =
    any (same_payment_status target) (payment_transitions current)

pub record Order : Type 0 where
  pub order_id : String
  pub customer_id : String
  pub policy_id : String
  pub status : OrderStatus
  pub total_cents : ℤ
  pub placed_at : IsoText
  pub delivered_at : Option IsoText
  pub version : ℤ

pub record Payment : Type 0 where
  pub payment_id : String
  pub order_id : String
  pub status : PaymentStatus
  pub captured_cents : ℤ
  pub refunded_cents : ℤ
  pub version : ℤ

pub record Shipment : Type 0 where
  pub shipment_id : String
  pub order_id : String
  pub status : ShipmentStatus
  pub carrier : String
  pub version : ℤ

pub record RefundPolicy : Type 0 where
  pub policy_id : String
  pub name : String
  pub auto_refund_limit_cents : ℤ
  pub post_delivery_window_days : ℤ
  pub version : ℤ
