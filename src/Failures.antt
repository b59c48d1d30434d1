-- ===== src/Failures.antt =====
-- simulator/failures.py: deterministic failure injection. Tools and actions key the budgets; a
-- dictionary is a function, which for a missing key gives the source's default.
pub mod Budget
use bounded_refund_agent.Prelude.{
  ℕ, suc, ◌+◌, ℤ, pos, ◌+ℤ◌, String, Bool, true, false, Option, none, some, List, [], ◌∷◌, ◌++◌,
  ◌==◌, ltb, leb, if◌then◌else◌, ◌&&◌, map,
}
use bounded_refund_agent.Result.{Result, ok, err, value_error}
use bounded_refund_agent.Clock.{IsoText}
use bounded_refund_agent.Schemas.{
  ActionName, same_action, ReadTool, get_order, get_payment, get_shipment, get_refund_policy,
}
use bounded_refund_agent.Db.{Db, OrderRow, PaymentRow, ShipmentRow}
use bounded_refund_agent.Tx.{update_where}

pub data Resource : Type 0 where
  order payment shipment unknown : Resource

-- One entry of `set_values`: a column and its new value.
pub data Edit : Type 0 where
  status : String → Edit
  delivered_at : Option IsoText → Edit
  total_cents captured_cents refunded_cents : ℤ → Edit
  carrier : String → Edit
  other_column : Edit

pub record StateChange : Type 0 where
  pub resource : Resource
  pub resource_id : String
  pub set_values : List Edit
  pub bump_version : Bool

-- `_EDITABLE_COLUMNS`
unfoldable pub editable : Resource → Edit → Bool
editable order (status _) = true
editable order (delivered_at _) = true
editable order (total_cents _) = true
editable payment (status _) = true
editable payment (captured_cents _) = true
editable payment (refunded_cents _) = true
editable shipment (status _) = true
editable shipment (carrier _) = true
editable _ _ = false

unfoldable pub all_editable : Resource → List Edit → Bool
unfolding editable
all_editable r [] = true
all_editable r (e ∷ es) = editable r e && all_editable r es

-- The assignments of one UPDATE, on a row of each table.
unfoldable pub edit_order : Edit → OrderRow → OrderRow
edit_order (status s) row = record row { status = s }
edit_order (delivered_at d) row = record row { delivered_at = d }
edit_order (total_cents n) row = record row { total_cents = n }
edit_order _ row = row

unfoldable pub edit_payment : Edit → PaymentRow → PaymentRow
edit_payment (status s) row = record row { status = s }
edit_payment (captured_cents n) row = record row { captured_cents = n }
edit_payment (refunded_cents n) row = record row { refunded_cents = n }
edit_payment _ row = row

unfoldable pub edit_shipment : Edit → ShipmentRow → ShipmentRow
edit_shipment (status s) row = record row { status = s }
edit_shipment (carrier c) row = record row { carrier = c }
edit_shipment _ row = row

unfoldable pub edit_all {ℓ} : {A : Type ℓ} → (Edit → A → A) → List Edit → A → A
edit_all f [] row = row
edit_all f (e ∷ es) row = edit_all f es (f e row)

unfoldable pub bump : Bool → ℤ → ℤ
bump b v = if b then v +ℤ pos 1 else v

-- `UPDATE {table} SET … WHERE {key} = ?`
unfoldable pub update_resource : StateChange → Db → Result Db
unfolding edit_order edit_payment edit_shipment edit_all bump
update_resource c db = elim c.resource [
  | order ↦ ok (record db {
    orders =
        update_where (λ row. row.order_id == c.resource_id)
          (λ row.
            let row' = edit_all edit_order c.set_values row in
            record row' { version = bump c.bump_version row'.version })
          db.orders;
  })
  | payment ↦ ok (record db {
    payments =
        update_where (λ row. row.payment_id == c.resource_id)
          (λ row.
            let row' = edit_all edit_payment c.set_values row in
            record row' { version = bump c.bump_version row'.version })
          db.payments;
  })
  | shipment ↦ ok (record db {
    shipments =
        update_where (λ row. row.shipment_id == c.resource_id)
          (λ row.
            let row' = edit_all edit_shipment c.set_values row in
            record row' { version = bump c.bump_version row'.version })
          db.shipments;
  })
  | unknown ↦ err value_error
]

-- `StateChange.apply`; with nothing to assign the update changes no row.
unfoldable pub apply : StateChange → Db → Result Db
unfolding all_editable update_resource
apply c db = if all_editable c.resource c.set_values then update_resource c db else err value_error

pub record FailureSpec : Type 0 where
  pub read_timeouts : ReadTool → ℕ
  pub pre_commit_changes : ActionName → List StateChange
  -- by default 1
  pub pre_commit_times : ActionName → ℕ
  pub post_commit_timeout_actions : ActionName → ℕ

pub data InjectorEvent : Type 0 where
  read_timeout : ReadTool → ℕ → InjectorEvent
  pre_commit_state_change post_commit_response_timeout : ActionName → InjectorEvent

pub record FailureInjector : Type 0 where
  pub spec : FailureSpec
  pub read_calls : ReadTool → ℕ
  pub pre_commit_fired : ActionName → ℕ
  pub post_commit_fired : ActionName → ℕ
  pub events : List InjectorEvent

unfoldable pub same_tool : ReadTool → ReadTool → Bool
same_tool get_order get_order = true
same_tool get_payment get_payment = true
same_tool get_shipment get_shipment = true
same_tool get_refund_policy get_refund_policy = true
same_tool _ _ = false

-- `counters[key] = seen + 1`
abbrev pub count_tool : ReadTool → (ReadTool → ℕ) → ReadTool → ℕ
count_tool tool counters t = if same_tool tool t then counters t + 1 else counters t

abbrev pub count_action : ActionName → (ActionName → ℕ) → ActionName → ℕ
count_action action counters a = if same_action action a then counters a + 1 else counters a

unfoldable pub new_injector : FailureSpec → FailureInjector
new_injector spec = record {
  spec = spec;
  read_calls = λ _. 0;
  pre_commit_fired = λ _. 0;
  post_commit_fired = λ _. 0;
  events = [];
}

unfoldable pub read_should_fail : ReadTool → FailureInjector → Bool × FailureInjector
unfolding same_tool
read_should_fail tool i =
    let seen = i.read_calls tool in
    let counted = record i { read_calls = count_tool tool i.read_calls } in
    if ltb seen (i.spec.read_timeouts tool)
    then (true, record counted { events = i.events ++ read_timeout tool (seen + 1) ∷ [] })
    else (false, counted)

unfoldable pub should_timeout_after_commit : ActionName → FailureInjector → Bool × FailureInjector
unfolding same_action
should_timeout_after_commit action i =
    if ltb (i.post_commit_fired action) (i.spec.post_commit_timeout_actions action)
    then (
      true,
      record i {
        post_commit_fired = count_action action i.post_commit_fired;
        events = i.events ++ post_commit_response_timeout action ∷ [];
      },
    )
    else (false, i)

-- Whether the changes of an action are to be made now: there are some, and the budget is not used up.
unfoldable pub is_due : ActionName → FailureInjector → Bool
is_due action i = elim (i.spec.pre_commit_changes action) [
  | [] ↦ false
  | _ ∷ _ ↦ ltb (i.pre_commit_fired action) (i.spec.pre_commit_times action)
]

unfoldable pub fire : ActionName → FailureInjector → FailureInjector
unfolding same_action
fire action i = record i { pre_commit_fired = count_action action i.pre_commit_fired }

unfoldable pub fired : ActionName → FailureInjector → FailureInjector
fired action i = record i { events = i.events ++ pre_commit_state_change action ∷ [] }
