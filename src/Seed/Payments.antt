-- ===== src/Seed/Payments.antt =====
-- The payments that `seed_world` of simulator/data.py makes for the orders.
use bounded_refund_agent.Prelude.{
  ℕ, ◌+◌, String, ◌≡◌, subst, Bool, true, Option, none, some, List, [], ◌∷◌, ◌++◌, All, All-map,
  All-snoc, any, any-append_left, ◌==◌, eq_refl, eq_iff, arith, Bool-cases, inl, inr,
}
use bounded_refund_agent.Result.{ok}
use bounded_refund_agent.Db.{Db, OrderRow, PaymentRow, ShipmentRow}
use bounded_refund_agent.Domain.{RefundPolicy, OrderStatus}
use bounded_refund_agent.Tx.Ensures.{Ensures, Ensures-pure, Ensures-bind, Ensures-weaken}
use bounded_refund_agent.Seed.{
  OrderSpec, PaymentSpec, ShipmentSpec, WorldSpec, SeededWorld, insert_policy, insert_order,
  insert_payment, insert_shipment,
}
use bounded_refund_agent.Seed.Rows.{
  Rng, Progress, first, required, named, names_payment, generated_payment, seed_order, seed_orders,
  payment_id_of, payment_row, payment_status_of, order_status_of, order_id_of, progressed,
  seed_payment, seed_payments, seed_shipments, seed_world, unseeded, seeded,
}
use bounded_refund_agent.Seed.Keeps.{
  IsSeedable, Ensures-lift, Ensures-lifted, seed_payments-keeps, seed_shipments-keeps,
}

abbrev True : Db → Type 0
True db = Unit

-- The order has a payment.
abbrev pub IsPayable : Db → String → Type 0
IsPayable db id = any (λ (r : PaymentRow). r.order_id == id) db.payments ≡ true

module _ (id : String) where
  insert_policy-IsPayable :
      (row : RefundPolicy) (db db' : Db) (a : Unit {0})
      → IsPayable db id
      → insert_policy row db ≡ ok (a, db')
      → IsPayable db' id
  unfolding insert_policy
  insert_policy-IsPayable row db db' a h e = ground arith

  insert_order-IsPayable :
      (row : OrderRow) (db db' : Db) (a : Unit {0})
      → IsPayable db id
      → insert_order row db ≡ ok (a, db')
      → IsPayable db' id
  unfolding insert_order
  insert_order-IsPayable row db db' a h e = ground arith

  insert_payment-IsPayable :
      (row : PaymentRow) (db db' : Db) (a : Unit {0})
      → IsPayable db id
      → insert_payment row db ≡ ok (a, db')
      → IsPayable db' id
  unfolding insert_payment
  insert_payment-IsPayable row db db' a h e =
      ground (arith, any-append_left (λ (r : PaymentRow). r.order_id == id) db.payments (row ∷ []))

  insert_shipment-IsPayable :
      (row : ShipmentRow) (db db' : Db) (a : Unit {0})
      → IsPayable db id
      → insert_shipment row db ≡ ok (a, db')
      → IsPayable db' id
  unfolding insert_shipment
  insert_shipment-IsPayable row db db' a h e = ground arith

  IsSeedable-IsPayable : IsSeedable (λ db. IsPayable db id)
  IsSeedable-IsPayable = record {
    policies = λ row. record { at = λ db db' a h e. insert_policy-IsPayable row db db' a h e };
    orders = λ row. record { at = λ db db' a h e. insert_order-IsPayable row db db' a h e };
    payments = λ row. record { at = λ db db' a h e. insert_payment-IsPayable row db db' a h e };
    shipments = λ row. record { at = λ db db' a h e. insert_shipment-IsPayable row db db' a h e };
  }

any-append_here {ℓ} :
    {A : Type ℓ} (p : A → Bool) (xs : List A) (x : A) → p x ≡ true → any p (xs ++ x ∷ []) ≡ true
any-append_here p [] x h = ground arith
any-append_here p (y ∷ xs) x h = ground (arith, any-append_here p xs x h)

insert_payment-pays :
    (row : PaymentRow) (db db' : Db) (a : Unit {0})
    → insert_payment row db ≡ ok (a, db')
    → IsPayable db' row.order_id
unfolding insert_payment
insert_payment-pays row db db' a e =
    let self = eq_refl row.order_id in
    ground
      (arith, any-append_here (λ (r : PaymentRow). r.order_id == row.order_id) db.payments row self)

-- A payment's specification pays the order that it names.
seed_payment-pays :
    (spec : PaymentSpec) (id : String)
    → named spec.order_id id ≡ true
    → Ensures True (λ _ db. IsPayable db id) (seed_payment spec)
unfolding seed_payment
seed_payment-pays spec id h = Ensures-bind (Ensures-lift (required spec.order_id)) λ order.
    Ensures-bind (Ensures-lifted (payment_status_of spec)) λ status.
      Ensures-bind
        (record {
          at = λ db db' a r e.
              pays order spec.order_id r.0 h db'
                (insert_payment-pays (payment_row spec order status) db db' a e);
        })
        λ _. Ensures-pure (payment_id_of spec order) (λ db p. p)
  where
    pays :
        (order : String) (named_order : Option String)
        → required named_order ≡ ok order
        → named named_order id ≡ true
        → (db : Db) → IsPayable db order
        → IsPayable db id
    pays order none e n db k = cc
    pays order (some o) e n db k = subst (IsPayable db) (ground (arith, eq_iff o id)) k

seed_payments-pays :
    (specs : List PaymentSpec) (id : String)
    → names_payment id specs ≡ true
    → Ensures True (λ _ db. IsPayable db id) (seed_payments specs)
unfolding seed_payments names_payment
seed_payments-pays [] id h = cc
seed_payments-pays (spec ∷ specs) id h = elim (Bool-cases (named spec.order_id id)) [
  | inl here ↦ Ensures-bind (seed_payment-pays spec id here) λ made.
      Ensures-bind (seed_payments-keeps (IsSeedable-IsPayable id) specs)
        λ ids. Ensures-pure (made ∷ ids) (λ db p. p)
  | inr there ↦
      Ensures-bind {R = λ _ db. Unit} (record { at = λ db db' a p e. tt })
        λ made.
          Ensures-bind (seed_payments-pays specs id (ground arith))
            λ ids. Ensures-pure (made ∷ ids) (λ db p. p)
]

-- The payments to be made name every order so far, and every order that the specification's own name.
record IsCovering {G : Type 0} (explicit : List PaymentSpec) (progress : Progress G) : Type 0 where
  declared :
      (id : String) → names_payment id explicit ≡ true → names_payment id progress.payments ≡ true
  orders : All (λ id. names_payment id progress.payments ≡ true) progress.order_ids

names_payment-append :
    (id : String) (xs ys : List PaymentSpec)
    → names_payment id xs ≡ true
    → names_payment id (xs ++ ys) ≡ true
unfolding names_payment
names_payment-append id xs ys h = any-append_left (λ (s : PaymentSpec). named s.order_id id) xs ys h

names_generated :
    (id : String) (spec : OrderSpec) (xs : List PaymentSpec)
    → names_payment id (xs ++ generated_payment id spec ∷ []) ≡ true
unfolding names_payment
names_generated id spec xs =
    any-append_here (λ (s : PaymentSpec). named s.order_id id) xs (generated_payment id spec)
      (eq_refl id)

module _ {G : Type 0} (explicit : List PaymentSpec) (shipments : List ShipmentSpec) where
  progressed-IsCovering :
      (index : ℕ) (spec : OrderSpec) (status : OrderStatus) (g : G) (progress : Progress G)
      → IsCovering explicit progress
      → IsCovering explicit (progressed explicit shipments index spec status g progress)
  unfolding progressed
  progressed-IsCovering index spec status g progress c =
      let id = order_id_of index spec in
      elim (Bool-cases (names_payment id explicit)) [
        | inl given ↦ rw (given) (record {
          declared = c.declared;
          orders =
              All-snoc (λ i. names_payment i progress.payments ≡ true) progress.order_ids id
                c.orders (c.declared id given);
        })
        | inr missing ↦ rw (missing) (record {
          declared = λ i h. names_payment-append i progress.payments _ (c.declared i h);
          orders =
              All-snoc
                (λ i. names_payment i (progress.payments ++ generated_payment id spec ∷ []) ≡ true)
                progress.order_ids id
                (All-map (λ i h. names_payment-append i progress.payments _ h) progress.order_ids
                  c.orders)
                (names_generated id spec progress.payments);
        })
      ]

  module _ (rng : Rng G) where
    seed_order-IsCovering :
        (policy : String) (index : ℕ) (spec : OrderSpec) (progress : Progress G)
        → Ensures
            (λ db. IsCovering explicit progress)
            (λ p db. IsCovering explicit p)
            (seed_order rng policy explicit shipments index spec progress)
    unfolding seed_order
    seed_order-IsCovering policy index spec progress =
        Ensures-bind (Ensures-lifted (order_status_of spec)) λ status.
          Ensures-bind {R = λ _ db. IsCovering explicit progress}
            (record { at = λ db db' a c e. c })
            λ _.
              Ensures-pure
                (progressed explicit shipments index spec status
                  (rng.randrange 1000000 progress.rng).1 progress)
                (λ db c.
                  progressed-IsCovering index spec status (rng.randrange 1000000 progress.rng).1
                    progress c)

    seed_orders-IsCovering :
        (policy : String) (index : ℕ) (specs : List OrderSpec) (progress : Progress G)
        → Ensures
            (λ db. IsCovering explicit progress)
            (λ p db. IsCovering explicit p)
            (seed_orders rng policy explicit shipments index specs progress)
    unfolding seed_orders
    seed_orders-IsCovering policy index [] progress = Ensures-pure progress (λ db c. c)
    seed_orders-IsCovering policy index (spec ∷ specs) progress =
        Ensures-bind (seed_order-IsCovering policy index spec progress)
          λ progress'. seed_orders-IsCovering policy (index + 1) specs progress'

module _ {G : Type 0} (rng : Rng G) where
  pay_all :
      (spec : WorldSpec) (progress : Progress G)
      → Ensures
          (λ db. IsCovering spec.payments progress)
          (λ _ db. All (IsPayable db) progress.order_ids)
          (seed_payments progress.payments)
  pay_all spec progress = record {
    at = λ db db' a c e.
        All-map (λ id h. (seed_payments-pays progress.payments id h).at db db' a tt e)
          progress.order_ids c.orders;
  }

  ship_all :
      (specs : List ShipmentSpec) (g : G) (ids : List String)
      → Ensures
          (λ db. All (IsPayable db) ids)
          (λ _ db. All (IsPayable db) ids)
          (seed_shipments rng specs g)
  ship_all specs g ids = record {
    at = λ db db' a h e.
        All-map
          (λ id k. (seed_shipments-keeps (IsSeedable-IsPayable id) rng specs g).at db db' a k e) ids
          h;
  }

  seed_world-pays :
      (spec : WorldSpec)
      → Ensures True (λ made db. All (IsPayable db) made.order_ids) (seed_world rng spec)
  unfolding seed_world
  seed_world-pays spec =
      Ensures-bind {R = λ _ db. Unit} (record { at = λ db db' a p e. tt })
        λ ids. Ensures-bind (Ensures-lifted (first ids)) λ policy.
          Ensures-bind
            (Ensures-weaken (λ db p. record { declared = λ id h. h; orders = tt }) (λ a db c. c)
              (seed_orders-IsCovering spec.payments spec.shipments rng policy 1 spec.orders
                (unseeded rng spec)))
            λ progress. Ensures-bind (pay_all spec progress) λ paid.
              Ensures-bind (ship_all progress.shipments progress.rng progress.order_ids)
                λ shipped. Ensures-pure (seeded ids progress.order_ids paid shipped) (λ db p. p)

-- Whatever a scenario declares and whatever numbers are drawn: where the seeding of a world commits, each
-- order that it reports has a payment, declared or generated.
pub seed_world-IsPayable :
    {G : Type 0} (rng : Rng G) (spec : WorldSpec) (db db' : Db) (made : SeededWorld)
    → seed_world rng spec db ≡ ok (made, db')
    → All (IsPayable db') made.order_ids
seed_world-IsPayable rng spec db db' made e = (seed_world-pays rng spec).at db db' made tt e
