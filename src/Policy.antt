-- ===== src/Policy.antt =====
-- app/policy/rules.py and app/policy/constants.py: the deterministic policy engine.
pub mod Refund
pub mod Cancel
pub mod Ladder
use bounded_refund_agent.Prelude.{
  ℕ, ℤ, pos, negsuc, ◌*ℤ◌, ◌-ℤ◌, ltb_ℤ, leb_ℤ, eqb_ℤ, String, Bool, true, false, ◌||◌, Option, none,
  some, is_some, not, List, [], ◌∷◌, select, any, if◌then◌else◌,
}
use bounded_refund_agent.Result.{Result, ok, err, assertion_error, ◌>>=◌}
use bounded_refund_agent.Clock.{IsoText, parse_iso}
use bounded_refund_agent.Domain.{
  Order, OrderStatus, Payment, RefundPolicy, Shipment, ShipmentStatus, same_order_status,
  same_payment_status, same_shipment_status, refunded,
}
use bounded_refund_agent.Schemas.{
  ActionName, cancel_order, issue_refund, create_support_ticket, ActionProposal, Decision, Detail,
  PolicyResult, ReasonCode, ReadTool, RecordName,
}

abbrev pub auto_refund_limit_cents : ℤ
auto_refund_limit_cents = pos 25000

abbrev pub post_delivery_refund_window_days : ℤ
post_delivery_refund_window_days = pos 14

abbrev pub permit_ttl_seconds : ℤ
permit_ttl_seconds = pos 120

abbrev pub read_max_attempts : ℕ
read_max_attempts = 2

abbrev pub cancellable_order_statuses : List OrderStatus
cancellable_order_statuses = OrderStatus.paid ∷ OrderStatus.ready_to_ship ∷ []

abbrev pub order_shipped_or_later : List OrderStatus
order_shipped_or_later = OrderStatus.shipped ∷ OrderStatus.delivered ∷ []

abbrev pub shipped_or_later : List ShipmentStatus
shipped_or_later = ShipmentStatus.shipped ∷ ShipmentStatus.delivered ∷ []

pub record PolicySnapshot : Type 0 where
  pub now : ℤ
  pub order : Option Order
  pub payment : Option Payment
  pub shipment : Option Shipment
  pub refund_policy : Option RefundPolicy
  pub read_failures : List ReadTool

unfoldable pub required_records : ActionName → List RecordName
required_records cancel_order = RecordName.order ∷ RecordName.shipment ∷ []
required_records issue_refund =
    RecordName.order ∷ RecordName.payment ∷ RecordName.refund_policy ∷ []
required_records create_support_ticket = RecordName.order ∷ []

-- `getattr(snapshot, name) is None`
unfoldable pub is_missing : PolicySnapshot → RecordName → Bool
is_missing s RecordName.order = not (is_some s.order)
is_missing s RecordName.payment = not (is_some s.payment)
is_missing s RecordName.shipment = not (is_some s.shipment)
is_missing s RecordName.refund_policy = not (is_some s.refund_policy)

unfoldable pub missing_records : ActionProposal → PolicySnapshot → List RecordName
unfolding required_records is_missing
missing_records p s = select (is_missing s) (required_records p.action)

unfoldable pub escalate : ReasonCode → PolicySnapshot → Detail → PolicyResult
escalate reason s detail = record {
  decision = Decision.escalate;
  reason_code = reason;
  max_amount_cents = pos 0;
  resource_id = elim s.order [ none ↦ "" | some o ↦ o.order_id ];
  expected_resource_version = elim s.order [ none ↦ negsuc 0 | some o ↦ o.version ];
  detail = detail;
}

unfoldable pub deny : ReasonCode → Detail → PolicyResult
deny reason detail = record {
  decision = Decision.deny;
  reason_code = reason;
  max_amount_cents = pos 0;
  resource_id = "";
  expected_resource_version = negsuc 0;
  detail = detail;
}

unfoldable pub allow : ReasonCode → ℤ → String → ℤ → PolicyResult
allow reason amount resource version = record {
  decision = Decision.allow;
  reason_code = reason;
  max_amount_cents = amount;
  resource_id = resource;
  expected_resource_version = version;
  detail = Detail.blank;
}

-- `_evaluate_cancel`, past its assertion
unfoldable pub decide_cancel : PolicySnapshot → Order → Shipment → PolicyResult
unfolding escalate deny allow same_order_status same_shipment_status
decide_cancel s o sh =
    if same_order_status o.status OrderStatus.cancelled
    then deny ReasonCode.order_already_cancelled (Detail.resource o.order_id)
    else if any (same_order_status o.status) order_shipped_or_later
        || any (same_shipment_status sh.status) shipped_or_later
    then escalate ReasonCode.cancel_after_shipment s (Detail.order_status o.status)
    else if any (same_order_status o.status) cancellable_order_statuses
    then allow ReasonCode.cancellable_before_shipment (pos 0) o.order_id o.version
    else escalate ReasonCode.cancel_after_shipment s (Detail.order_status o.status)

-- `assert order is not None and shipment is not None`
unfoldable pub assert_cancel : PolicySnapshot → Option Order → Option Shipment → Result PolicyResult
assert_cancel s (some o) (some sh) = ok (decide_cancel s o sh)
assert_cancel s _ _ = err assertion_error

unfoldable pub evaluate_cancel : PolicySnapshot → Result PolicyResult
unfolding assert_cancel
evaluate_cancel s = assert_cancel s s.order s.shipment

-- `refund_policy.auto_refund_limit_cents or AUTO_REFUND_LIMIT_CENTS`
unfoldable pub refund_limit : RefundPolicy → ℤ
refund_limit pol =
    if eqb_ℤ pol.auto_refund_limit_cents (pos 0)
    then auto_refund_limit_cents
    else pol.auto_refund_limit_cents

abbrev pub microseconds_per_day : ℤ
microseconds_per_day = pos 86400000000

-- `elapsed_days > window_days`, multiplied out. The float quotient of the source is exact enough to
-- give the same answer for every window of less than 2 ^ 15 days.
unfoldable pub is_outside_window : ℤ → ℤ → RefundPolicy → Bool
is_outside_window now delivered pol =
    ltb_ℤ (pol.post_delivery_window_days *ℤ microseconds_per_day) (now -ℤ delivered)

-- The last test of `_evaluate_refund`, at the instant of the delivery. The column is NOT NULL, so the
-- window is never `None`.
unfoldable pub decide_delivered : PolicySnapshot → RefundPolicy → PolicyResult → ℤ → PolicyResult
unfolding is_outside_window escalate
decide_delivered s pol allowed delivered =
    if is_outside_window s.now delivered pol
    then escalate ReasonCode.outside_return_window s
        (Detail.too_late (s.now -ℤ delivered) pol.post_delivery_window_days)
    else allowed

unfoldable pub decide_window :
    PolicySnapshot → RefundPolicy → PolicyResult → Option IsoText → Result PolicyResult
unfolding decide_delivered parse_iso
decide_window s pol allowed none = ok allowed
decide_window s pol allowed (some text) =
    parse_iso text >>= λ delivered. ok (decide_delivered s pol allowed delivered)

unfoldable pub decide_amount :
    PolicySnapshot → Order → Payment → RefundPolicy → ℤ → Result PolicyResult
unfolding refund_limit escalate deny allow
decide_amount s o pay pol amount =
    if leb_ℤ amount (pos 0)
    then ok (deny ReasonCode.invalid_proposal Detail.needs_positive_amount)
    else if ltb_ℤ pay.captured_cents amount
    then ok (deny ReasonCode.amount_exceeds_captured (Detail.exceeds amount pay.captured_cents))
    else if ltb_ℤ (refund_limit pol) amount
    then ok
        (escalate ReasonCode.above_auto_refund_limit s (Detail.exceeds amount (refund_limit pol)))
    else decide_window s pol
        (allow ReasonCode.refundable_within_limits amount pay.payment_id pay.version) o.delivered_at

unfoldable pub decide_asked :
    PolicySnapshot → Order → Payment → RefundPolicy → Option ℤ → Result PolicyResult
unfolding deny
decide_asked s o pay pol none = ok (deny ReasonCode.invalid_proposal Detail.needs_positive_amount)
decide_asked s o pay pol (some amount) = decide_amount s o pay pol amount

unfoldable pub decide_refund :
    ActionProposal → PolicySnapshot → Order → Payment → RefundPolicy → Result PolicyResult
unfolding same_payment_status deny
decide_refund p s o pay pol =
    if same_payment_status pay.status refunded
    then ok (deny ReasonCode.payment_already_refunded (Detail.resource pay.payment_id))
    else decide_asked s o pay pol p.amount_cents

-- `assert order is not None and payment is not None and refund_policy is not None`
unfoldable pub assert_refund :
    ActionProposal
    → PolicySnapshot
    → Option Order
    → Option Payment
    → Option RefundPolicy
    → Result PolicyResult
assert_refund p s (some o) (some pay) (some pol) = decide_refund p s o pay pol
assert_refund p s _ _ _ = err assertion_error

unfoldable pub evaluate_refund : ActionProposal → PolicySnapshot → Result PolicyResult
unfolding assert_refund
evaluate_refund p s = assert_refund p s s.order s.payment s.refund_policy

-- `assert order is not None`
unfoldable pub assert_ticket : Option Order → Result PolicyResult
unfolding allow
assert_ticket none = err assertion_error
assert_ticket (some o) = ok (allow ReasonCode.ticket_requested (pos 0) o.order_id o.version)

unfoldable pub evaluate_ticket : PolicySnapshot → Result PolicyResult
unfolding assert_ticket
evaluate_ticket s = assert_ticket s.order

-- The actions are a closed enum, so the source's last line is never reached.
unfoldable pub dispatch : ActionName → ActionProposal → PolicySnapshot → Result PolicyResult
dispatch cancel_order p s = evaluate_cancel s
dispatch issue_refund p s = evaluate_refund p s
dispatch create_support_ticket p s = evaluate_ticket s

unfoldable pub is_informed : List ReadTool → List RecordName → Bool
is_informed [] [] = true
is_informed _ _ = false

unfoldable pub evaluate : Option ActionProposal → PolicySnapshot → Result PolicyResult
unfolding is_informed missing_records escalate deny dispatch
evaluate none s = ok (deny ReasonCode.invalid_proposal Detail.no_proposal)
evaluate (some p) s =
    if is_informed s.read_failures (missing_records p s)
    then dispatch p.action p s
    else ok (
        escalate ReasonCode.insufficient_information s
          (Detail.unavailable s.read_failures (missing_records p s)))
