-- ===== src/Seed.antt =====
-- simulator/data.py: the synthetic world of a scenario. `random.Random` is a parameter: how it starts
-- from a seed, and its `randrange`.
pub mod Rows
pub mod Keeps
pub mod World
pub mod Payments
use Prim.Native.String.{◌++◌ as ◌^^◌, count}
use bounded_refund_agent.Prelude.{
  ℕ, zero, suc, ◌+◌, ◌-◌, eqb, ℤ, pos, String, Bool, true, false, not, ◌&&◌, ◌||◌, Option, none,
  some, List, [], ◌∷◌, ◌++◌, any, map, ◌==◌, if◌then◌else◌,
}
use bounded_refund_agent.Result.{Result, ok, err, integrity_error, key_error, index_error}
use bounded_refund_agent.Clock.{IsoText, aware}
use bounded_refund_agent.Domain.{OrderStatus, RefundPolicy, ShipmentStatus}
use bounded_refund_agent.Policy.{auto_refund_limit_cents, post_delivery_refund_window_days}
use bounded_refund_agent.Db.{
  Db, OrderRow, PaymentRow, ShipmentRow, order_status_text, parse_order_status, payment_status_text,
  parse_payment_status, shipment_status_text, parse_shipment_status,
}
use bounded_refund_agent.Tx.{Tx, pure, raise, ◌>>=◌, ◌>>◌, order_exists}
use bounded_refund_agent.Permits.{decimal}

-- The entries of a specification; a missing key is `none`.
pub record PolicySpec : Type 0 where
  pub policy_id : Option String
  pub name : Option String
  pub auto_refund_limit_cents : Option ℤ
  pub post_delivery_window_days : Option ℤ
  pub version : Option ℤ

pub record OrderSpec : Type 0 where
  pub order_id : Option String
  pub customer_id : Option String
  pub policy_id : Option String
  pub status : Option String
  pub total_cents : Option ℤ
  pub placed_at : Option IsoText
  pub delivered_at : Option IsoText
  pub version : Option ℤ
  pub without_shipment : Bool

pub record PaymentSpec : Type 0 where
  pub payment_id : Option String
  pub order_id : Option String
  pub status : Option String
  pub captured_cents : Option ℤ
  pub refunded_cents : Option ℤ
  pub version : Option ℤ

pub record ShipmentSpec : Type 0 where
  pub shipment_id : Option String
  pub order_id : Option String
  pub status : Option String
  pub carrier : Option String
  pub version : Option ℤ

pub record WorldSpec : Type 0 where
  pub seed : Option ℤ
  pub policies : List PolicySpec
  pub orders : List OrderSpec
  pub payments : List PaymentSpec
  pub shipments : List ShipmentSpec

pub record SeededWorld : Type 0 where
  pub order_ids : List String
  pub payment_ids : List String
  pub shipment_ids : List String
  pub policy_ids : List String

abbrev pub default_seed : ℤ
default_seed = pos 20260921

-- DEFAULT_PLACED_AT, in microseconds
abbrev pub default_placed_at : IsoText
default_placed_at = aware (pos 1772355600000000)

-- `spec.get(key, default)`
abbrev pub get_or {ℓ} : {A : Type ℓ} → Option A → A → A
get_or none default = default
get_or (some a) default = a

-- `_ORDER_TO_SHIPMENT`
unfoldable pub order_to_shipment : OrderStatus → ShipmentStatus
order_to_shipment OrderStatus.paid = ShipmentStatus.preparing
order_to_shipment OrderStatus.ready_to_ship = ShipmentStatus.ready_to_ship
order_to_shipment OrderStatus.shipped = ShipmentStatus.shipped
order_to_shipment OrderStatus.delivered = ShipmentStatus.delivered
order_to_shipment OrderStatus.cancelled = ShipmentStatus.cancelled

-- `CARRIERS[n]`
unfoldable pub carrier_at : ℕ → Result String
carrier_at n =
    if eqb n 0
    then ok "SYNTHETIC_POST"
    else if eqb n 1
    then ok "SIM_EXPRESS"
    else if eqb n 2
    then ok "FAKE_FREIGHT"
    else err index_error

abbrev zeros : ℕ → String
zeros zero = ""
zeros (suc n) = "0" ^^ zeros n

-- `{n:0wd}`
unfoldable pub padded : ℕ → ℕ → String
unfolding decimal
padded width n = zeros (width - count (decimal n n)) ^^ decimal n n

-- `{**default_policy_spec(), **policy}`, as a row
unfoldable pub policy_row : PolicySpec → RefundPolicy
policy_row spec = record {
  policy_id = get_or spec.policy_id "pol_standard";
  name = get_or spec.name "standard synthetic refund policy";
  auto_refund_limit_cents = get_or spec.auto_refund_limit_cents auto_refund_limit_cents;
  post_delivery_window_days =
      get_or spec.post_delivery_window_days post_delivery_refund_window_days;
  version = get_or spec.version (pos 1);
}

abbrev pub default_policy_spec : PolicySpec
default_policy_spec = record {
  policy_id = none;
  name = none;
  auto_refund_limit_cents = none;
  post_delivery_window_days = none;
  version = none;
}

abbrev pub policy_exists : String → Db → Bool
policy_exists id db = any (λ (r : RefundPolicy). r.policy_id == id) db.refund_policies

unfoldable pub insert_policy : RefundPolicy → Tx (Unit {0})
insert_policy row db =
    if policy_exists row.policy_id db
    then err integrity_error
    else ok (tt, record db { refund_policies = db.refund_policies ++ row ∷ [] })

unfoldable pub insert_order : OrderRow → Tx (Unit {0})
insert_order row db =
    if any (λ (r : OrderRow). r.order_id == row.order_id) db.orders
    then err integrity_error
    else if policy_exists row.policy_id db
    then ok (tt, record db { orders = db.orders ++ row ∷ [] })
    else err integrity_error

unfoldable pub insert_payment : PaymentRow → Tx (Unit {0})
insert_payment row db =
    if any (λ (r : PaymentRow). r.payment_id == row.payment_id) db.payments
    then err integrity_error
    else if order_exists row.order_id db
    then ok (tt, record db { payments = db.payments ++ row ∷ [] })
    else err integrity_error

unfoldable pub insert_shipment : ShipmentRow → Tx (Unit {0})
insert_shipment row db =
    if any (λ (r : ShipmentRow). r.shipment_id == row.shipment_id) db.shipments
    then err integrity_error
    else if order_exists row.order_id db
    then ok (tt, record db { shipments = db.shipments ++ row ∷ [] })
    else err integrity_error

unfoldable pub seed_policies : List PolicySpec → Tx (List String)
unfolding policy_row insert_policy
seed_policies [] = pure []
seed_policies (spec ∷ specs) = do
  let row = policy_row spec
  insert_policy row
  ids ← seed_policies specs
  pure (row.policy_id ∷ ids)
