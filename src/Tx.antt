-- ===== src/Tx.antt =====
-- The body of one `immediate_transaction`: it returns a value and the tables, or raises, and then what
-- it wrote is rolled back. The statements that the program executes in such a body stand here.
pub mod Ensures
use bounded_refund_agent.Prelude.{
  ℕ, String, Bool, List, [], ◌∷◌, ◌++◌, ◌==◌, any, count, if◌then◌else◌,
}
use bounded_refund_agent.Result.{Result, ok, err, Exception, integrity_error}
use bounded_refund_agent.Db.{
  Db, OrderRow, PaymentRow, ShipmentRow, TicketRow, RefundRow, PermitRow, ExecutionRow, LogRow,
}

abbrev pub Tx : Type 0 → Type 0
Tx A = Db → Result (A × Db)

module _ {A : Type 0} where
  abbrev pub pure : A → Tx A
  pure a db = ok (a, db)

  abbrev pub raise : Exception → Tx A
  raise e db = err e

infixl 5 ◌>>=◌ ◌>>◌
abbrev pub ◌>>=◌ : {A B : Type 0} → Tx A → (A → Tx B) → Tx B
◌>>=◌ m f db = elim (m db) [ ok (a, db') ↦ f a db' | err e ↦ err e ]

abbrev pub ◌>>◌ : {B : Type 0} → Tx (Unit {0}) → Tx B → Tx B
m >> k = m >>= λ _. k

-- `if not b: raise e`
abbrev pub guard : Bool → Exception → Tx (Unit {0})
guard b e db = if b then ok (tt, db) else err e

-- UPDATE … WHERE p; its `rowcount` is `count p` of the table before.
unfoldable pub update_where {ℓ} : {A : Type ℓ} → (A → Bool) → (A → A) → List A → List A
update_where p f [] = []
update_where p f (x ∷ xs) = (if p x then f x else x) ∷ update_where p f xs

abbrev pub update_orders : (OrderRow → Bool) → (OrderRow → OrderRow) → Tx ℕ
update_orders p f db = ok (count p db.orders, record db { orders = update_where p f db.orders })

abbrev pub update_payments : (PaymentRow → Bool) → (PaymentRow → PaymentRow) → Tx ℕ
update_payments p f db =
    ok (count p db.payments, record db { payments = update_where p f db.payments })

abbrev pub update_shipments : (ShipmentRow → Bool) → (ShipmentRow → ShipmentRow) → Tx (Unit {0})
update_shipments p f db = ok (tt, record db { shipments = update_where p f db.shipments })

abbrev pub update_permits : (PermitRow → Bool) → (PermitRow → PermitRow) → Tx (Unit {0})
update_permits p f db =
    ok (tt, record db { execution_permits = update_where p f db.execution_permits })

-- An INSERT fails on a primary key that is there and on a foreign key that is not.
abbrev pub order_exists : String → Db → Bool
order_exists id db = any (λ row. row.order_id == id) db.orders

abbrev pub payment_exists : String → Db → Bool
payment_exists id db = any (λ row. row.payment_id == id) db.payments

unfoldable pub insert_refund : RefundRow → Tx (Unit {0})
insert_refund row db =
    if any (λ (r : RefundRow). r.refund_id == row.refund_id) db.refunds
    then err integrity_error
    else if payment_exists row.payment_id db
    then (if order_exists row.order_id db
        then ok (tt, record db { refunds = db.refunds ++ row ∷ [] })
        else err integrity_error)
    else err integrity_error

unfoldable pub insert_ticket : TicketRow → Tx (Unit {0})
insert_ticket row db =
    if any (λ (r : TicketRow). r.ticket_id == row.ticket_id) db.support_tickets
    then err integrity_error
    else if order_exists row.order_id db
    then ok (tt, record db { support_tickets = db.support_tickets ++ row ∷ [] })
    else err integrity_error

unfoldable pub insert_permit : PermitRow → Tx (Unit {0})
insert_permit row db =
    if any (λ (r : PermitRow). r.permit_id == row.permit_id) db.execution_permits
    then err integrity_error
    else ok (tt, record db { execution_permits = db.execution_permits ++ row ∷ [] })

unfoldable pub insert_record : ExecutionRow → Tx (Unit {0})
insert_record row db =
    if any (λ (r : ExecutionRow). r.idempotency_key == row.idempotency_key) db.execution_records
    then err integrity_error
    else ok (tt, record db { execution_records = db.execution_records ++ row ∷ [] })

unfoldable pub insert_log : LogRow → Tx (Unit {0})
insert_log row db = ok (tt, record db { mutation_log = db.mutation_log ++ row ∷ [] })
