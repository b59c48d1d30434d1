-- ===== src/Seed/World.antt =====
-- The seeded world of simulator/data.py: its references, its ledger, and a payment for each order.
use bounded_refund_agent.Prelude.{◌≡◌, arith}
use bounded_refund_agent.Result.{ok}
use bounded_refund_agent.Db.{Db, OrderRow, PaymentRow, ShipmentRow}
use bounded_refund_agent.Domain.{RefundPolicy}
use bounded_refund_agent.Ledger.Same.{SameLedger, SameLedger-refl, SameLedger-trans}
use bounded_refund_agent.Seed.{
  WorldSpec, SeededWorld, insert_policy, insert_order, insert_payment, insert_shipment,
}
use bounded_refund_agent.Seed.Rows.{Rng, seed_world}
use bounded_refund_agent.Seed.Keeps.{IsSeedable, seed_world-keeps}

insert_policy_lem :
    (row : RefundPolicy) (db db' : Db) (a : Unit {0})
    → insert_policy row db ≡ ok (a, db')
    → SameLedger db db'
unfolding insert_policy
insert_policy_lem row db db' a e = ground arith

insert_order_lem :
    (row : OrderRow) (db db' : Db) (a : Unit {0})
    → insert_order row db ≡ ok (a, db')
    → SameLedger db db'
unfolding insert_order
insert_order_lem row db db' a e = ground arith

insert_payment_lem :
    (row : PaymentRow) (db db' : Db) (a : Unit {0})
    → insert_payment row db ≡ ok (a, db')
    → SameLedger db db'
unfolding insert_payment
insert_payment_lem row db db' a e = ground arith

insert_shipment_lem :
    (row : ShipmentRow) (db db' : Db) (a : Unit {0})
    → insert_shipment row db ≡ ok (a, db')
    → SameLedger db db'
unfolding insert_shipment
insert_shipment_lem row db db' a e = ground arith

IsSeedable-SameLedger : (old : Db) → IsSeedable (SameLedger old)
IsSeedable-SameLedger old = record {
  policies =
      λ row. record { at = λ db db' a s e. SameLedger-trans s (insert_policy_lem row db db' a e) };
  orders =
      λ row. record { at = λ db db' a s e. SameLedger-trans s (insert_order_lem row db db' a e) };
  payments =
      λ row. record { at = λ db db' a s e. SameLedger-trans s (insert_payment_lem row db db' a e) };
  shipments = λ row. record {
    at = λ db db' a s e. SameLedger-trans s (insert_shipment_lem row db db' a e);
  };
}

-- Seeding leaves the permits, the log and what must agree with it alone.
pub seed_world-SameLedger :
    {G : Type 0} (rng : Rng G) (spec : WorldSpec) (db db' : Db) (made : SeededWorld)
    → seed_world rng spec db ≡ ok (made, db')
    → SameLedger db db'
seed_world-SameLedger rng spec db db' made e =
    (seed_world-keeps (IsSeedable-SameLedger db) rng spec).at db db' made (SameLedger-refl db) e
