-- ===== src/Ledger/Inserted.antt =====
-- The INSERT statements of app/models/db.py and simulator/data.py keep the primary and foreign keys.
use bounded_refund_agent.Prelude.{
  String, ◌≡◌, ◌∙◌, sym, subst, ap, true, false, ◌==◌, [], ◌∷◌, ◌++◌, any, arith,
}
use bounded_refund_agent.Result.{ok}
use bounded_refund_agent.Domain.{RefundPolicy}
use bounded_refund_agent.Db.{
  Db, OrderRow, PaymentRow, ShipmentRow, TicketRow, RefundRow, PermitRow, ExecutionRow,
}
use bounded_refund_agent.Tx.{insert_refund, insert_ticket, insert_permit, insert_record}
use bounded_refund_agent.Seed.{insert_policy, insert_order, insert_payment, insert_shipment}
use bounded_refund_agent.Ledger.Keys.{
  IsTyped, Typed, any-map, keys_of, map-snoc, order_key, payment_key, refund_key, shipment_key,
  ticket_key,
}
use bounded_refund_agent.Ledger.Inserts.{
  insert_policy-IsTyped, insert_order-IsTyped, insert_payment-IsTyped, insert_shipment-IsTyped,
  insert_ticket-IsTyped, insert_refund-IsTyped, insert_permit-IsTyped, insert_record-IsTyped,
}
use bounded_refund_agent.Ledger.Updates.{Keeps}

insert_permit_checks :
    (row : PermitRow) (db db' : Db) (a : Unit {0})
    → insert_permit row db ≡ ok (a, db')
    → (any (λ (r : PermitRow). r.permit_id == row.permit_id) db.execution_permits ≡ false)
      × (db' ≡ record db { execution_permits = db.execution_permits ++ row ∷ [] })
unfolding insert_permit
insert_permit_checks row db db' a h = ground arith

pub insert_permit-Keeps : (row : PermitRow) → Keeps (insert_permit row)
insert_permit-Keeps row = record {
  at = λ db db' a t h.
      let (new, e) = insert_permit_checks row db db' a h in
      subst Typed (sym e) (
        subst IsTyped
          (ap (λ l. record (keys_of db) { permits = l })
            (sym (map-snoc (λ (r : PermitRow). r.permit_id) db.execution_permits row)))
          (insert_permit-IsTyped (keys_of db) t row.permit_id (
            any-map (λ (y : String). y == row.permit_id) (λ (r : PermitRow). r.permit_id)
              db.execution_permits
            ∙ new)));
}

insert_record_checks :
    (row : ExecutionRow) (db db' : Db) (a : Unit {0})
    → insert_record row db ≡ ok (a, db')
    → (any (λ (r : ExecutionRow). r.idempotency_key == row.idempotency_key) db.execution_records
        ≡ false)
      × (db' ≡ record db { execution_records = db.execution_records ++ row ∷ [] })
unfolding insert_record
insert_record_checks row db db' a h = ground arith

pub insert_record-Keeps : (row : ExecutionRow) → Keeps (insert_record row)
insert_record-Keeps row = record {
  at = λ db db' a t h.
      let (new, e) = insert_record_checks row db db' a h in
      subst Typed (sym e) (
        subst IsTyped
          (ap (λ l. record (keys_of db) { records = l })
            (sym (map-snoc (λ (r : ExecutionRow). r.idempotency_key) db.execution_records row)))
          (insert_record-IsTyped (keys_of db) t row.idempotency_key (
            any-map (λ (y : String). y == row.idempotency_key)
              (λ (r : ExecutionRow). r.idempotency_key) db.execution_records
            ∙ new)));
}

insert_ticket_checks :
    (row : TicketRow) (db db' : Db) (a : Unit {0})
    → insert_ticket row db ≡ ok (a, db')
    → (any (λ (r : TicketRow). r.ticket_id == row.ticket_id) db.support_tickets ≡ false)
      × (any (λ (r : OrderRow). r.order_id == row.order_id) db.orders ≡ true)
      × (db' ≡ record db { support_tickets = db.support_tickets ++ row ∷ [] })
unfolding insert_ticket
insert_ticket_checks row db db' a h = ground arith

pub insert_ticket-Keeps : (row : TicketRow) → Keeps (insert_ticket row)
insert_ticket-Keeps row = record {
  at = λ db db' a t h.
      let (new, order_there, e) = insert_ticket_checks row db db' a h in
      subst Typed (sym e) (
        subst IsTyped
          (ap (λ l. record (keys_of db) { tickets = l })
            (sym (map-snoc ticket_key db.support_tickets row)))
          (insert_ticket-IsTyped (keys_of db) t (ticket_key row)
            (any-map (λ (y : String × String). y.0 == row.ticket_id) ticket_key db.support_tickets
              ∙ new)
            (any-map (λ (y : String × String). y.0 == row.order_id) order_key db.orders
              ∙ order_there)));
}

insert_refund_checks :
    (row : RefundRow) (db db' : Db) (a : Unit {0})
    → insert_refund row db ≡ ok (a, db')
    → (any (λ (r : RefundRow). r.refund_id == row.refund_id) db.refunds ≡ false)
      × (any (λ (r : PaymentRow). r.payment_id == row.payment_id) db.payments ≡ true)
      × (any (λ (r : OrderRow). r.order_id == row.order_id) db.orders ≡ true)
      × (db' ≡ record db { refunds = db.refunds ++ row ∷ [] })
unfolding insert_refund
insert_refund_checks row db db' a h = ground arith

pub insert_refund-Keeps : (row : RefundRow) → Keeps (insert_refund row)
insert_refund-Keeps row = record {
  at = λ db db' a t h.
      let (new, payment_there, order_there, e) = insert_refund_checks row db db' a h in
      subst Typed (sym e) (
        subst IsTyped
          (ap (λ l. record (keys_of db) { refunds = l }) (sym (map-snoc refund_key db.refunds row)))
          (insert_refund-IsTyped (keys_of db) t (refund_key row)
            (any-map (λ (y : String × (String × String)). y.0 == row.refund_id) refund_key
                db.refunds
              ∙ new)
            (any-map (λ (y : String × String). y.0 == row.payment_id) payment_key db.payments
              ∙ payment_there)
            (any-map (λ (y : String × String). y.0 == row.order_id) order_key db.orders
              ∙ order_there)));
}

insert_policy_checks :
    (row : RefundPolicy) (db db' : Db) (a : Unit {0})
    → insert_policy row db ≡ ok (a, db')
    → (any (λ (r : RefundPolicy). r.policy_id == row.policy_id) db.refund_policies ≡ false)
      × (db' ≡ record db { refund_policies = db.refund_policies ++ row ∷ [] })
unfolding insert_policy
insert_policy_checks row db db' a h = ground arith

pub insert_policy-Keeps : (row : RefundPolicy) → Keeps (insert_policy row)
insert_policy-Keeps row = record {
  at = λ db db' a t h.
      let (new, e) = insert_policy_checks row db db' a h in
      subst Typed (sym e) (
        subst IsTyped
          (ap (λ l. record (keys_of db) { policies = l })
            (sym (map-snoc (λ (r : RefundPolicy). r.policy_id) db.refund_policies row)))
          (insert_policy-IsTyped (keys_of db) t row.policy_id (
            any-map (λ (y : String). y == row.policy_id) (λ (r : RefundPolicy). r.policy_id)
              db.refund_policies
            ∙ new)));
}

insert_order_checks :
    (row : OrderRow) (db db' : Db) (a : Unit {0})
    → insert_order row db ≡ ok (a, db')
    → (any (λ (r : OrderRow). r.order_id == row.order_id) db.orders ≡ false)
      × (any (λ (r : RefundPolicy). r.policy_id == row.policy_id) db.refund_policies ≡ true)
      × (db' ≡ record db { orders = db.orders ++ row ∷ [] })
unfolding insert_order
insert_order_checks row db db' a h = ground arith

pub insert_order-Keeps : (row : OrderRow) → Keeps (insert_order row)
insert_order-Keeps row = record {
  at = λ db db' a t h.
      let (new, policy_there, e) = insert_order_checks row db db' a h in
      subst Typed (sym e) (
        subst IsTyped
          (ap (λ l. record (keys_of db) { orders = l }) (sym (map-snoc order_key db.orders row)))
          (insert_order-IsTyped (keys_of db) t (order_key row)
            (any-map (λ (y : String × String). y.0 == row.order_id) order_key db.orders ∙ new)
            (any-map (λ (y : String). y == row.policy_id) (λ (r : RefundPolicy). r.policy_id)
                db.refund_policies
              ∙ policy_there)));
}

insert_payment_checks :
    (row : PaymentRow) (db db' : Db) (a : Unit {0})
    → insert_payment row db ≡ ok (a, db')
    → (any (λ (r : PaymentRow). r.payment_id == row.payment_id) db.payments ≡ false)
      × (any (λ (r : OrderRow). r.order_id == row.order_id) db.orders ≡ true)
      × (db' ≡ record db { payments = db.payments ++ row ∷ [] })
unfolding insert_payment
insert_payment_checks row db db' a h = ground arith

pub insert_payment-Keeps : (row : PaymentRow) → Keeps (insert_payment row)
insert_payment-Keeps row = record {
  at = λ db db' a t h.
      let (new, order_there, e) = insert_payment_checks row db db' a h in
      subst Typed (sym e) (
        subst IsTyped
          (ap (λ l. record (keys_of db) { payments = l })
            (sym (map-snoc payment_key db.payments row)))
          (insert_payment-IsTyped (keys_of db) t (payment_key row)
            (any-map (λ (y : String × String). y.0 == row.payment_id) payment_key db.payments ∙ new)
            (any-map (λ (y : String × String). y.0 == row.order_id) order_key db.orders
              ∙ order_there)));
}

insert_shipment_checks :
    (row : ShipmentRow) (db db' : Db) (a : Unit {0})
    → insert_shipment row db ≡ ok (a, db')
    → (any (λ (r : ShipmentRow). r.shipment_id == row.shipment_id) db.shipments ≡ false)
      × (any (λ (r : OrderRow). r.order_id == row.order_id) db.orders ≡ true)
      × (db' ≡ record db { shipments = db.shipments ++ row ∷ [] })
unfolding insert_shipment
insert_shipment_checks row db db' a h = ground arith

pub insert_shipment-Keeps : (row : ShipmentRow) → Keeps (insert_shipment row)
insert_shipment-Keeps row = record {
  at = λ db db' a t h.
      let (new, order_there, e) = insert_shipment_checks row db db' a h in
      subst Typed (sym e) (
        subst IsTyped
          (ap (λ l. record (keys_of db) { shipments = l })
            (sym (map-snoc shipment_key db.shipments row)))
          (insert_shipment-IsTyped (keys_of db) t (shipment_key row)
            (any-map (λ (y : String × String). y.0 == row.shipment_id) shipment_key db.shipments
              ∙ new)
            (any-map (λ (y : String × String). y.0 == row.order_id) order_key db.orders
              ∙ order_there)));
}
