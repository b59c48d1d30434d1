-- ===== src/Domain/Transitions.antt =====
-- The state machines of app/models/domain.py as step relations.
use bounded_refund_agent.Prelude.{◌≡◌, ◌↔◌, refl, Bool, true, false, arith}
use bounded_refund_agent.Domain.{OrderStatus, order_transition_allowed}

-- The diagram of docs/DESIGN.md.
infix 40 ◌⟶◌ ◌⟶*◌
pub data ◌⟶◌ : OrderStatus → OrderStatus → Type 0 where
  prepare : OrderStatus.paid ⟶ OrderStatus.ready_to_ship
  ship : OrderStatus.ready_to_ship ⟶ OrderStatus.shipped
  deliver : OrderStatus.shipped ⟶ OrderStatus.delivered
  cancel_paid : OrderStatus.paid ⟶ OrderStatus.cancelled
  cancel_ready : OrderStatus.ready_to_ship ⟶ OrderStatus.cancelled

-- A path of transitions that the table allows.
pub data ◌⟶*◌ : OrderStatus → OrderStatus → Type 0 where
  here : {s : OrderStatus} → s ⟶* s
  next : {s t u : OrderStatus} → order_transition_allowed s t ≡ true → t ⟶* u → s ⟶* u

ruleset edges = (prepare, ship, deliver, cancel_paid, cancel_ready)

edge_allowed : {s t : OrderStatus} → s ⟶ t → order_transition_allowed s t ≡ true
unfolding order_transition_allowed
edge_allowed prepare = ground arith
edge_allowed ship = ground arith
edge_allowed deliver = ground arith
edge_allowed cancel_paid = ground arith
edge_allowed cancel_ready = ground arith

allowed_edge : (s t : OrderStatus) → order_transition_allowed s t ≡ true → s ⟶ t
unfolding order_transition_allowed
allowed_edge s t h = grind (arith, edges)

-- The transition table allows exactly the edges of the diagram.
pub order_transition_allowed-iff-edge :
    (s t : OrderStatus) → (order_transition_allowed s t ≡ true) ↔ (s ⟶ t)
order_transition_allowed-iff-edge s t = (allowed_edge s t, edge_allowed)

-- SHIPPED and DELIVERED.
unfoldable pub is_gone : OrderStatus → Bool
is_gone OrderStatus.shipped = true
is_gone OrderStatus.delivered = true
is_gone _ = false

edge-is_gone : {s t : OrderStatus} → s ⟶ t → is_gone s ≡ true → is_gone t ≡ true
unfolding is_gone
edge-is_gone prepare h = ground arith
edge-is_gone ship h = refl
edge-is_gone deliver h = refl
edge-is_gone cancel_paid h = ground arith
edge-is_gone cancel_ready h = ground arith

path-is_gone : {s t : OrderStatus} → s ⟶* t → is_gone s ≡ true → is_gone t ≡ true
path-is_gone here h = h
path-is_gone (next {s} {t} e path) h = path-is_gone path (edge-is_gone (allowed_edge s t e) h)

-- An order that is SHIPPED or DELIVERED becomes CANCELLED by no number of transitions that the table
-- allows.
pub gone_never_cancelled : (s : OrderStatus) → is_gone s ≡ true → ¬ (s ⟶* OrderStatus.cancelled)
unfolding is_gone
gone_never_cancelled s h path = let e = path-is_gone path h in ground arith
