-- ===== src/Ledger/Typed.antt =====
-- Runs and scenarios keep the primary and foreign keys of app/models/db.py.
use bounded_refund_agent.Prelude.{◌∙◌, ◌≡◌, refl, sym, subst, ap, ◌==◌, List, [], ◌∷◌, arith}
use bounded_refund_agent.Result.{Result, ok, err}
use bounded_refund_agent.Db.{Db, OrderRow, PaymentRow, ShipmentRow}
use bounded_refund_agent.Failures.{
  Edit, StateChange, apply, edit_order, edit_payment, edit_shipment, edit_all, update_resource,
}
use bounded_refund_agent.Tx.{update_where}
use bounded_refund_agent.Executor.Commit.{authorization}
use bounded_refund_agent.Ledger.Keys.{
  IsTyped, Typed, keys_of, map-update_where, order_key, payment_key, shipment_key,
}
use bounded_refund_agent.Ledger.Inserted.{
  insert_policy-Keeps, insert_order-Keeps, insert_payment-Keeps, insert_shipment-Keeps,
  insert_permit-Keeps,
}
use bounded_refund_agent.Safety.Core.{IsSafe}
use bounded_refund_agent.Safety.Whole.{run_all-Leads}
use bounded_refund_agent.Seed.{SeededWorld}
use bounded_refund_agent.Seed.Keeps.{IsSeedable, seed_world-keeps}
use bounded_refund_agent.Seed.Rows.{Rng, seed_world}
use bounded_refund_agent.Scenario.{
  ScenarioSpec, assemble, no_rows, options_of, run_of, run_scenario, seeded_run, started,
}
use bounded_refund_agent.Scenario.Sound.{assemble-db}
use bounded_refund_agent.World.{World}
use bounded_refund_agent.Ledger.Written.{write-Keeps}
use bounded_refund_agent.Failures.{bump}
use bounded_refund_agent.Prelude.{◌⊎◌, inl, inr}

-- The edits of the injector change no key.
edit_all-key :
    {A K : Type 0} (f : Edit → A → A) (key : A → K) (edits : List Edit) (row : A)
    → ((e : Edit) (x : A) → key (f e x) ≡ key x)
    → key (edit_all f edits row) ≡ key row
unfolding edit_all
edit_all-key f key [] row same = refl
edit_all-key f key (e ∷ es) row same = edit_all-key f key es (f e row) same ∙ same e row

edit_order-key : (e : Edit) (row : OrderRow) → order_key (edit_order e row) ≡ order_key row
unfolding edit_order
edit_order-key e row = ground arith

edit_payment-key :
    (e : Edit) (row : PaymentRow) → payment_key (edit_payment e row) ≡ payment_key row
unfolding edit_payment
edit_payment-key e row = ground arith

edit_shipment-key :
    (e : Edit) (row : ShipmentRow) → shipment_key (edit_shipment e row) ≡ shipment_key row
unfolding edit_shipment
edit_shipment-key e row = ground arith

-- The tables after an edit of each kind.
abbrev edited_orders : StateChange → Db → List OrderRow
edited_orders c db =
    update_where (λ row. row.order_id == c.resource_id)
      (λ row.
        let row' = edit_all edit_order c.set_values row in
        record row' { version = bump c.bump_version row'.version })
      db.orders

abbrev edited_payments : StateChange → Db → List PaymentRow
edited_payments c db =
    update_where (λ row. row.payment_id == c.resource_id)
      (λ row.
        let row' = edit_all edit_payment c.set_values row in
        record row' { version = bump c.bump_version row'.version })
      db.payments

abbrev edited_shipments : StateChange → Db → List ShipmentRow
edited_shipments c db =
    update_where (λ row. row.shipment_id == c.resource_id)
      (λ row.
        let row' = edit_all edit_shipment c.set_values row in
        record row' { version = bump c.bump_version row'.version })
      db.shipments

apply_cases :
    (c : StateChange) (db db' : Db)
    → apply c db ≡ ok db'
    → (db' ≡ record db { orders = edited_orders c db })
      ⊎ ((db' ≡ record db { payments = edited_payments c db })
          ⊎ (db' ≡ record db { shipments = edited_shipments c db }))
unfolding apply update_resource
apply_cases c db db' e = ground arith

apply-Typed : (c : StateChange) (db db' : Db) → apply c db ≡ ok db' → Typed db → Typed db'
apply-Typed c db db' e t = elim (apply_cases c db db' e) [
  | inl o ↦
      let same =
        map-update_where order_key (λ row. row.order_id == c.resource_id) _ db.orders
          (λ row. edit_all-key edit_order order_key c.set_values row edit_order-key) in
      subst Typed (sym o)
        (subst IsTyped (sym (ap (λ l. record (keys_of db) { orders = l }) same)) t)
  | inr (inl p) ↦
      let same =
        map-update_where payment_key (λ row. row.payment_id == c.resource_id) _ db.payments
          (λ row. edit_all-key edit_payment payment_key c.set_values row edit_payment-key) in
      subst Typed (sym p)
        (subst IsTyped (sym (ap (λ l. record (keys_of db) { payments = l }) same)) t)
  | inr (inr q) ↦
      let same =
        map-update_where shipment_key (λ row. row.shipment_id == c.resource_id) _ db.shipments
          (λ row. edit_all-key edit_shipment shipment_key c.set_values row edit_shipment-key) in
      subst Typed (sym q)
        (subst IsTyped (sym (ap (λ l. record (keys_of db) { shipments = l }) same)) t)
]

IsSafe-Typed : IsSafe Typed
IsSafe-Typed = record {
  edits = apply-Typed;
  permits = λ row db db' unused e t. (insert_permit-Keeps row).at db db' tt t e;
  writes = λ run permit p ticket time db db' r cleared e t.
      (write-Keeps run (authorization run permit) permit p ticket time).at db db' r t e;
}

IsSeedable-Typed : IsSeedable Typed
IsSeedable-Typed = record {
  policies = insert_policy-Keeps;
  orders = insert_order-Keeps;
  payments = insert_payment-Keeps;
  shipments = insert_shipment-Keeps;
}

module _ (spec : ScenarioSpec) where
  started-Typed :
      (db : Db) (made : Result World)
      → assemble spec db ≡ made
      → Typed db
      → Typed (started spec db made).1
  started-Typed db (err x) e t = t
  started-Typed db (ok w) e t =
      (run_all-Leads IsSafe-Typed (run_of spec) (options_of spec)).at w
        (subst Typed (sym (assemble-db spec db w e)) t)

  seeded_run-Typed :
      (db : Db) (made : Result (SeededWorld × Db))
      → ((ids : SeededWorld) (seeded : Db) → made ≡ ok (ids, seeded) → Typed seeded)
      → Typed db
      → Typed (seeded_run spec db made).1
  seeded_run-Typed db (err x) kept t = t
  seeded_run-Typed db (ok (ids, seeded)) kept t =
      started-Typed seeded (assemble spec seeded) refl (kept ids seeded refl)

no_rows-Typed : Typed no_rows
no_rows-Typed = record {
  policies = tt;
  orders = (tt, tt);
  payments = (tt, tt);
  shipments = (tt, tt);
  tickets = (tt, tt);
  refunds = tt;
  refund_payments = tt;
  refund_orders = tt;
  permits = tt;
  records = tt;
}

-- Whatever a scenario declares, whatever numbers are drawn, whatever is proposed and whatever fails: in the
-- tables that a scenario leaves in a new file, also where it raises, no two rows of a table have the same
-- primary key, and each order refers to a policy, each payment, shipment and ticket to an order, and each
-- refund to a payment and an order that are there.
pub run_scenario-IsTyped :
    {G : Type 0} (rng : Rng G) (spec : ScenarioSpec)
    → IsTyped (keys_of (run_scenario rng spec no_rows).1)
unfolding run_scenario
run_scenario-IsTyped rng spec =
    seeded_run-Typed spec no_rows (seed_world rng spec.world no_rows)
      (λ ids seeded e.
        (seed_world-keeps IsSeedable-Typed rng spec.world).at no_rows seeded ids no_rows-Typed e)
      no_rows-Typed
