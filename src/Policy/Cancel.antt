-- ===== src/Policy/Cancel.antt =====
-- When a cancellation is allowed: `_evaluate_cancel` of app/policy/rules.py.
use bounded_refund_agent.Prelude.{
  ◌↔◌, pos, ◌≡◌, ◌≢◌, ◌⊎◌, Option, some, [], arith, ap, sym, refl, ◌∙◌,
}
use bounded_refund_agent.Result.{ok}
use bounded_refund_agent.Domain.{Order, OrderStatus, Shipment, ShipmentStatus}
use bounded_refund_agent.Schemas.{ActionProposal, Decision, PolicyResult, ReasonCode, cancel_order}
use bounded_refund_agent.Policy.{
  PolicySnapshot, evaluate, evaluate_cancel, assert_cancel, decide_cancel, allow,
}

-- The order has not been handed to the carrier, by its own row and by its shipment's.
pub record IsCancellable (s : PolicySnapshot) (o : Order) (sh : Shipment) : Type 0 where
  pub has_order : s.order ≡ some o
  pub has_shipment : s.shipment ≡ some sh
  pub all_read : s.read_failures ≡ []
  pub order_waits : (o.status ≡ OrderStatus.paid) ⊎ (o.status ≡ OrderStatus.ready_to_ship)
  pub not_shipped : sh.status ≢ ShipmentStatus.shipped
  pub not_delivered : sh.status ≢ ShipmentStatus.delivered

abbrev pub allowed_cancel : Order → PolicyResult
allowed_cancel o = allow ReasonCode.cancellable_before_shipment (pos 0) o.order_id o.version

assert_cancel_sound :
    (s : PolicySnapshot) (mo : Option Order) (ms : Option Shipment) {r : PolicyResult}
    → assert_cancel s mo ms ≡ ok r
    → (o : Order) × (sh : Shipment) × (mo ≡ some o) × (ms ≡ some sh) × (decide_cancel s o sh ≡ r)
unfolding assert_cancel
assert_cancel_sound s (some o) (some sh) h = (o, sh, refl, refl, cc)
assert_cancel_sound s _ _ h = cc

evaluate-cancel_parts :
    (p : ActionProposal) (s : PolicySnapshot) (r : PolicyResult)
    → p.action ≡ cancel_order
    → evaluate (some p) s ≡ ok r
    → r.decision ≡ Decision.allow
    → (s.read_failures ≡ []) × (assert_cancel s s.order s.shipment ≡ ok r)
unfolding evaluate evaluate_cancel
evaluate-cancel_parts p s r act h a = ground arith

decide_cancel_sound :
    (s : PolicySnapshot) (o : Order) (sh : Shipment)
    → (decide_cancel s o sh).decision ≡ Decision.allow
    → ((o.status ≡ OrderStatus.paid) ⊎ (o.status ≡ OrderStatus.ready_to_ship))
      × (sh.status ≢ ShipmentStatus.shipped)
      × (sh.status ≢ ShipmentStatus.delivered)
      × (decide_cancel s o sh ≡ allowed_cancel o)
unfolding decide_cancel
decide_cancel_sound s o sh h = ground arith

-- If the policy allows a cancellation, then the order is PAID or READY_TO_SHIP, its shipment is neither
-- SHIPPED nor DELIVERED, and the result names the order at the version that was read.
evaluate-allow-IsCancellable :
    (p : ActionProposal) (s : PolicySnapshot) {r : PolicyResult}
    → p.action ≡ cancel_order
    → evaluate (some p) s ≡ ok r
    → r.decision ≡ Decision.allow
    → (o : Order) × (sh : Shipment) × IsCancellable s o sh × (r ≡ allowed_cancel o)
evaluate-allow-IsCancellable p s {r} act h a =
    let (hf, h') = evaluate-cancel_parts p s r act h a in
    let (o, sh, ho, hs, e) = assert_cancel_sound s s.order s.shipment h' in
    let (w, n, d, e') = decide_cancel_sound s o sh (ap (λ (x : PolicyResult). x.decision) e ∙ a) in
    (
      o,
      sh,
      record {
        has_order = ho;
        has_shipment = hs;
        all_read = hf;
        order_waits = w;
        not_shipped = n;
        not_delivered = d;
      },
      sym e ∙ e',
    )

decide_cancel_complete :
    (s : PolicySnapshot) (o : Order) (sh : Shipment)
    → IsCancellable s o sh
    → decide_cancel s o sh ≡ allowed_cancel o
unfolding decide_cancel
decide_cancel_complete s o sh c = ground arith

-- Conversely, a cancellation with all of that is always allowed.
IsCancellable-evaluate-allow :
    (p : ActionProposal) (s : PolicySnapshot) (o : Order) (sh : Shipment)
    → p.action ≡ cancel_order
    → IsCancellable s o sh
    → evaluate (some p) s ≡ ok (allowed_cancel o)
unfolding evaluate evaluate_cancel
IsCancellable-evaluate-allow p s o sh act c = ground (arith, decide_cancel_complete s o sh c)

-- A result of the policy for a cancellation allows it exactly where every record was read, the order is
-- PAID or READY_TO_SHIP, the shipment is neither SHIPPED nor DELIVERED, and the result names the order at
-- the version that was read.
pub evaluate-allow-iff-IsCancellable :
    (p : ActionProposal) (s : PolicySnapshot) (r : PolicyResult)
    → p.action ≡ cancel_order
    → ((evaluate (some p) s ≡ ok r) × (r.decision ≡ Decision.allow))
      ↔ ((o : Order) × (sh : Shipment) × IsCancellable s o sh × (r ≡ allowed_cancel o))
unfolding allow
evaluate-allow-iff-IsCancellable p s r act = (
  λ (e, a). evaluate-allow-IsCancellable p s act e a,
  λ (o, sh, c, same). (
    IsCancellable-evaluate-allow p s o sh act c ∙ ap ok (sym same),
    ap (λ (x : PolicyResult). x.decision) same,
  ),
)
