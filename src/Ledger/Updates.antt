-- ===== src/Ledger/Updates.antt =====
-- The UPDATE statements and the log keep the primary and foreign keys of app/models/db.py.
use bounded_refund_agent.Prelude.{◌≡◌, refl, sym, subst, ap, Bool, [], ◌∷◌, ◌++◌, arith}
use bounded_refund_agent.Result.{Exception, ok}
use bounded_refund_agent.Db.{Db, OrderRow, PaymentRow, ShipmentRow, PermitRow, LogRow}
use bounded_refund_agent.Tx.{
  Tx, guard, update_where, update_orders, update_payments, update_shipments, update_permits,
  insert_log,
}
use bounded_refund_agent.Tx.Ensures.{Ensures}
use bounded_refund_agent.Ledger.Keys.{
  IsTyped, Typed, keys_of, map-update_where, order_key, payment_key, shipment_key,
}

abbrev pub Keeps : {A : Type 0} → Tx A → Type 0
Keeps m = Ensures Typed (λ _. Typed) m

-- A statement that commits the tables `f db` under a condition that holds of no other tables.
module _ {A : Type 0} {m : Tx A} where
  pub Keeps-into :
      (f : Db → Db)
      → ((db db' : Db) (a : A) → m db ≡ ok (a, db') → db' ≡ f db)
      → ((db : Db) → keys_of (f db) ≡ keys_of db)
      → Keeps m
  Keeps-into f into same = record {
    at = λ db db' a t e. subst Typed (sym (into db db' a e)) (subst IsTyped (sym (same db)) t);
  }

pub guard-Keeps : (b : Bool) (e : Exception) → Keeps (guard b e)
guard-Keeps b e = Keeps-into (λ db. db) (λ db db' a h. ground arith) (λ db. refl)

pub insert_log-Keeps : (row : LogRow) → Keeps (insert_log row)
unfolding insert_log
insert_log-Keeps row =
    Keeps-into (λ db. record db { mutation_log = db.mutation_log ++ row ∷ [] })
      (λ db db' a h. ground arith) (λ db. refl)

pub update_orders-Keeps :
    (p : OrderRow → Bool) (f : OrderRow → OrderRow)
    → ((row : OrderRow) → order_key (f row) ≡ order_key row)
    → Keeps (update_orders p f)
update_orders-Keeps p f same =
    Keeps-into (λ db. record db { orders = update_where p f db.orders })
      (λ db db' a h. ground arith)
      (λ db.
        ap (λ l. record (keys_of db) { orders = l })
          (map-update_where order_key p f db.orders same))

pub update_payments-Keeps :
    (p : PaymentRow → Bool) (f : PaymentRow → PaymentRow)
    → ((row : PaymentRow) → payment_key (f row) ≡ payment_key row)
    → Keeps (update_payments p f)
update_payments-Keeps p f same =
    Keeps-into (λ db. record db { payments = update_where p f db.payments })
      (λ db db' a h. ground arith)
      (λ db.
        ap (λ l. record (keys_of db) { payments = l })
          (map-update_where payment_key p f db.payments same))

pub update_shipments-Keeps :
    (p : ShipmentRow → Bool) (f : ShipmentRow → ShipmentRow)
    → ((row : ShipmentRow) → shipment_key (f row) ≡ shipment_key row)
    → Keeps (update_shipments p f)
update_shipments-Keeps p f same =
    Keeps-into (λ db. record db { shipments = update_where p f db.shipments })
      (λ db db' a h. ground arith)
      (λ db.
        ap (λ l. record (keys_of db) { shipments = l })
          (map-update_where shipment_key p f db.shipments same))

pub update_permits-Keeps :
    (p : PermitRow → Bool) (f : PermitRow → PermitRow)
    → ((row : PermitRow) → (f row).permit_id ≡ row.permit_id)
    → Keeps (update_permits p f)
update_permits-Keeps p f same =
    Keeps-into (λ db. record db { execution_permits = update_where p f db.execution_permits })
      (λ db db' a h. ground arith)
      (λ db.
        ap (λ l. record (keys_of db) { permits = l })
          (map-update_where (λ (row : PermitRow). row.permit_id) p f db.execution_permits same))
