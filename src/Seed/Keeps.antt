-- ===== src/Seed/Keeps.antt =====
-- Properties of the tables that the insertions of simulator/data.py keep, carried through `seed_world`.
use bounded_refund_agent.Prelude.{ℕ, ◌+◌, String, ◌≡◌, refl, List, [], ◌∷◌}
use bounded_refund_agent.Result.{Result, ok, err}
use bounded_refund_agent.Db.{Db, OrderRow, PaymentRow, ShipmentRow}
use bounded_refund_agent.Domain.{RefundPolicy}
use bounded_refund_agent.Tx.Ensures.{
  Ensures, Ensures-pure, Ensures-raise, Ensures-bind, Ensures-weaken,
}
use bounded_refund_agent.Seed.{
  PolicySpec, OrderSpec, PaymentSpec, ShipmentSpec, WorldSpec, seed_policies, insert_policy,
  insert_order, insert_payment, insert_shipment, carrier_at, policy_row,
}
use bounded_refund_agent.Seed.Rows.{
  Rng, Progress, lift, first, required, seed_order, seed_orders, unseeded, seeded, payment_id_of,
  payment_row, payment_status_of, shipment_id_of, shipment_row, shipment_status_of, order_row,
  order_status_of, progressed, seed_payment, seed_payments, seed_shipment, seed_shipments,
  seed_world, or_default,
}

module _ {P : Db → Type 0} {A : Type 0} where
  pub Ensures-lift : (r : Result A) → Ensures P (λ a db. (r ≡ ok a) × P db) (lift r)
  Ensures-lift (ok a) = Ensures-pure a (λ db p. (refl, p))
  Ensures-lift (err e) = Ensures-raise e

-- A property of the tables that each of the four insertions keeps.
pub record IsSeedable (P : Db → Type 0) : Type 0 where
  pub policies : (row : RefundPolicy) → Ensures P (λ _. P) (insert_policy row)
  pub orders : (row : OrderRow) → Ensures P (λ _. P) (insert_order row)
  pub payments : (row : PaymentRow) → Ensures P (λ _. P) (insert_payment row)
  pub shipments : (row : ShipmentRow) → Ensures P (λ _. P) (insert_shipment row)

module _ {P : Db → Type 0} {A : Type 0} where
  pub Ensures-lifted : (r : Result A) → Ensures P (λ a. P) (lift r)
  Ensures-lifted r = Ensures-weaken (λ db p. p) (λ a db h. h.1) (Ensures-lift r)

module _ {P : Db → Type 0} (kept : IsSeedable P) where
  pub seed_policies-keeps : (specs : List PolicySpec) → Ensures P (λ _. P) (seed_policies specs)
  unfolding seed_policies
  seed_policies-keeps [] = Ensures-pure [] (λ db p. p)
  seed_policies-keeps (spec ∷ specs) = Ensures-bind (kept.policies (policy_row spec)) λ _.
      Ensures-bind (seed_policies-keeps specs)
        λ ids. Ensures-pure ((policy_row spec).policy_id ∷ ids) (λ db p. p)

  seed_payment-keeps : (spec : PaymentSpec) → Ensures P (λ _. P) (seed_payment spec)
  unfolding seed_payment
  seed_payment-keeps spec = Ensures-bind (Ensures-lifted (required spec.order_id)) λ order.
      Ensures-bind (Ensures-lifted (payment_status_of spec)) λ status.
        Ensures-bind (kept.payments (payment_row spec order status))
          λ _. Ensures-pure (payment_id_of spec order) (λ db p. p)

  pub seed_payments-keeps : (specs : List PaymentSpec) → Ensures P (λ _. P) (seed_payments specs)
  unfolding seed_payments
  seed_payments-keeps [] = Ensures-pure [] (λ db p. p)
  seed_payments-keeps (spec ∷ specs) =
      Ensures-bind (seed_payment-keeps spec)
        λ id. Ensures-bind (seed_payments-keeps specs) λ ids. Ensures-pure (id ∷ ids) (λ db p. p)

  module _ {G : Type 0} (rng : Rng G) where
    seed_shipment-keeps :
        (spec : ShipmentSpec) (g : G) → Ensures P (λ _. P) (seed_shipment rng spec g)
    unfolding seed_shipment
    seed_shipment-keeps spec g = Ensures-bind (Ensures-lifted (required spec.order_id)) λ order.
        Ensures-bind (Ensures-lifted (shipment_status_of spec)) λ status.
          Ensures-bind (Ensures-lifted (carrier_at (rng.randrange 3 g).0)) λ carrier.
            Ensures-bind (kept.shipments (shipment_row spec order status carrier))
              λ _. Ensures-pure (shipment_id_of spec order, (rng.randrange 3 g).1) (λ db p. p)

    pub seed_shipments-keeps :
        (specs : List ShipmentSpec) (g : G) → Ensures P (λ _. P) (seed_shipments rng specs g)
    unfolding seed_shipments
    seed_shipments-keeps [] g = Ensures-pure [] (λ db p. p)
    seed_shipments-keeps (spec ∷ specs) g = Ensures-bind (seed_shipment-keeps spec g) λ made.
        Ensures-bind (seed_shipments-keeps specs made.1)
          λ ids. Ensures-pure (made.0 ∷ ids) (λ db p. p)

    seed_order-keeps :
        (policy : String) (payments : List PaymentSpec) (shipments : List ShipmentSpec) (index : ℕ)
        (spec : OrderSpec) (progress : Progress G)
        → Ensures P (λ _. P) (seed_order rng policy payments shipments index spec progress)
    unfolding seed_order
    seed_order-keeps policy payments shipments index spec progress =
        Ensures-bind (Ensures-lifted (order_status_of spec)) λ status.
          Ensures-bind
            (kept.orders
              (order_row policy index spec status (rng.randrange 1000000 progress.rng).0))
            λ _.
              Ensures-pure
                (progressed payments shipments index spec status
                  (rng.randrange 1000000 progress.rng).1 progress)
                (λ db p. p)

    seed_orders-keeps :
        (policy : String) (payments : List PaymentSpec) (shipments : List ShipmentSpec) (index : ℕ)
        (specs : List OrderSpec) (progress : Progress G)
        → Ensures P (λ _. P) (seed_orders rng policy payments shipments index specs progress)
    unfolding seed_orders
    seed_orders-keeps policy payments shipments index [] progress = Ensures-pure _ (λ db p. p)
    seed_orders-keeps policy payments shipments index (spec ∷ specs) progress =
        Ensures-bind (seed_order-keeps policy payments shipments index spec progress)
          λ progress'. seed_orders-keeps policy payments shipments (index + 1) specs progress'

    -- What the four insertions keep, seeding keeps.
    pub seed_world-keeps : (spec : WorldSpec) → Ensures P (λ _. P) (seed_world rng spec)
    unfolding seed_world
    seed_world-keeps spec = Ensures-bind (seed_policies-keeps (or_default spec.policies)) λ ids.
        Ensures-bind (Ensures-lifted (first ids)) λ policy.
          Ensures-bind
            (seed_orders-keeps policy spec.payments spec.shipments 1 spec.orders
              (unseeded rng spec))
            λ progress. Ensures-bind (seed_payments-keeps progress.payments) λ paid.
              Ensures-bind (seed_shipments-keeps progress.shipments progress.rng)
                λ shipped. Ensures-pure (seeded ids progress.order_ids paid shipped) (λ db p. p)
