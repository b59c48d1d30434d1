-- ===== src/Trace/Targets.antt =====
-- The reading of a target by app/executor/executor.py ends in no lost response.
use bounded_refund_agent.Prelude.{
  String, ◌≡◌, Bool, true, false, Option, none, some, arith, if◌then◌else◌,
}
use bounded_refund_agent.Result.{Result, ok, err, traverse}
use bounded_refund_agent.Result as R
use bounded_refund_agent.Schemas.{ActionName, ActionProposal, same_action}
use bounded_refund_agent.Db.{
  Db, OrderRow, PaymentRow, fetch_order, fetch_payment_for_order, row_to_order, row_to_payment,
  parse_order_status, parse_payment_status,
}
use bounded_refund_agent.Executor.{order_target, payment_target, resolve_target}
use bounded_refund_agent.Runner.Attempts.{is_response_timeout}

-- The reading of a target ends in no lost response: an unknown status is a ValueError.
abbrev pub IsPlain : {A : Type 0} → Result A → Type 0
IsPlain (ok a) = Unit
IsPlain (err e) = is_response_timeout e ≡ false

row_to_order-IsPlain : (row : OrderRow) → IsPlain (row_to_order row)
unfolding row_to_order parse_order_status
row_to_order-IsPlain row = ground arith

row_to_payment-IsPlain : (row : PaymentRow) → IsPlain (row_to_payment row)
unfolding row_to_payment parse_payment_status
row_to_payment-IsPlain row = ground arith

found-IsPlain : {B : Type 0} (r : Result B) → IsPlain r → IsPlain (R.◌>>=◌ r (λ b. ok (some b)))
found-IsPlain (ok b) h = tt
found-IsPlain (err e) h = h

traverse-IsPlain :
    {A B : Type 0} (f : A → Result B) (found : Option A)
    → ((a : A) → IsPlain (f a))
    → IsPlain (traverse f found)
traverse-IsPlain f none h = tt
traverse-IsPlain f (some a) h = found-IsPlain (f a) (h a)

mapped-IsPlain :
    {A B : Type 0} (f : A → B) (r : Result (Option A))
    → IsPlain r
    → IsPlain (R.◌>>=◌ r (traverse (λ a. ok (f a))))
mapped-IsPlain f (ok none) h = tt
mapped-IsPlain f (ok (some a)) h = tt
mapped-IsPlain f (err e) h = h

order_target-IsPlain : (id : String) (db : Db) → IsPlain (order_target id db)
unfolding fetch_order
order_target-IsPlain id db =
    mapped-IsPlain _ (fetch_order id db) (traverse-IsPlain row_to_order _ row_to_order-IsPlain)

payment_target-IsPlain : (id : String) (db : Db) → IsPlain (payment_target id db)
unfolding fetch_payment_for_order
payment_target-IsPlain id db =
    mapped-IsPlain _ (fetch_payment_for_order id db)
      (traverse-IsPlain row_to_payment _ row_to_payment-IsPlain)

either-IsPlain :
    {A : Type 0} (b : Bool) (f g : Db → Result A) (db : Db)
    → IsPlain (f db)
    → IsPlain (g db)
    → IsPlain ((if b then f else g) db)
either-IsPlain true f g db h k = h
either-IsPlain false f g db h k = k

pub resolve_target-IsPlain : (p : ActionProposal) (db : Db) → IsPlain (resolve_target p db)
unfolding resolve_target
resolve_target-IsPlain p db =
    either-IsPlain (same_action p.action ActionName.issue_refund) _ _ db
      (payment_target-IsPlain p.order_id db) (order_target-IsPlain p.order_id db)
