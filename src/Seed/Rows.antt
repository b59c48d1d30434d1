-- ===== src/Seed/Rows.antt =====
-- `seed_world` of simulator/data.py: its three loops and its transaction.
use Prim.Native.String.{◌++◌ as ◌^^◌}
use bounded_refund_agent.Prelude.{
  ℕ, ◌+◌, ℤ, pos, String, Bool, false, not, ◌&&◌, Option, none, some, List, [], ◌∷◌, ◌++◌, any,
  ◌==◌, if◌then◌else◌,
}
use bounded_refund_agent.Result.{Result, ok, err, key_error, index_error}
use bounded_refund_agent.Domain.{OrderStatus, PaymentStatus, captured, ShipmentStatus}
use bounded_refund_agent.Db.{
  OrderRow, PaymentRow, ShipmentRow, order_status_text, parse_order_status, payment_status_text,
  parse_payment_status, shipment_status_text, parse_shipment_status,
}
use bounded_refund_agent.Tx.{Tx, pure, raise, ◌>>=◌, ◌>>◌}
use bounded_refund_agent.Seed.{
  PolicySpec, OrderSpec, PaymentSpec, ShipmentSpec, WorldSpec, SeededWorld, default_seed,
  default_placed_at, default_policy_spec, get_or, order_to_shipment, carrier_at, padded,
  seed_policies, insert_order, insert_payment, insert_shipment,
}

-- A generator of type `G`: `random.Random(seed)`, and `randrange` with the generator after it.
pub record Rng (G : Type 0) : Type 0 where
  pub start : ℤ → G
  pub randrange : ℕ → G → ℕ × G

abbrev pub lift : {A : Type 0} → Result A → Tx A
lift (ok a) = pure a
lift (err e) = raise e

-- `list[0]`
abbrev pub first : List String → Result String
first [] = err index_error
first (x ∷ xs) = ok x

-- `spec.get("policies") or [default_policy_spec()]`
abbrev pub or_default : List PolicySpec → List PolicySpec
or_default [] = default_policy_spec ∷ []
or_default (spec ∷ specs) = spec ∷ specs

-- `spec["order_id"]`
abbrev pub required : Option String → Result String
required none = err key_error
required (some id) = ok id

-- The order identifiers that the payments or the shipments of the specification name.
abbrev pub named : Option String → String → Bool
named none id = false
named (some o) id = o == id

unfoldable pub names_payment : String → List PaymentSpec → Bool
names_payment id specs = any (λ (s : PaymentSpec). named s.order_id id) specs

unfoldable pub names_shipment : String → List ShipmentSpec → Bool
names_shipment id specs = any (λ (s : ShipmentSpec). named s.order_id id) specs

-- What the loop over the orders changes besides the tables.
pub record Progress (G : Type 0) : Type 0 where
  pub rng : G
  pub payments : List PaymentSpec
  pub shipments : List ShipmentSpec
  pub order_ids : List String

abbrev pub generated_payment : String → OrderSpec → PaymentSpec
generated_payment id spec = record {
  payment_id = none;
  order_id = some id;
  status = none;
  captured_cents = some (get_or spec.total_cents (pos 10000));
  refunded_cents = none;
  version = none;
}

abbrev pub generated_shipment : String → OrderStatus → ShipmentSpec
generated_shipment id status = record {
  shipment_id = none;
  order_id = some id;
  status = some (shipment_status_text (order_to_shipment status));
  carrier = none;
  version = none;
}

abbrev pub order_id_of : ℕ → OrderSpec → String
order_id_of index spec = get_or spec.order_id ("ord_" ^^ padded 4 index)

abbrev pub order_status_of : OrderSpec → Result OrderStatus
order_status_of spec = parse_order_status (get_or spec.status (order_status_text OrderStatus.paid))

-- The row of an order, with the number drawn for its customer.
abbrev pub order_row : String → ℕ → OrderSpec → OrderStatus → ℕ → OrderRow
order_row policy index spec status customer = record {
  order_id = order_id_of index spec;
  customer_id = get_or spec.customer_id ("cus_" ^^ padded 6 customer);
  policy_id = get_or spec.policy_id policy;
  status = order_status_text status;
  total_cents = get_or spec.total_cents (pos 10000);
  placed_at = get_or spec.placed_at default_placed_at;
  delivered_at = spec.delivered_at;
  version = get_or spec.version (pos 1);
}

-- The payments and the shipments that the specification itself declares decide what is generated.
unfoldable pub progressed :
    {G : Type 0}
    → List PaymentSpec
    → List ShipmentSpec
    → ℕ
    → OrderSpec
    → OrderStatus
    → G
    → Progress G
    → Progress G
unfolding names_payment names_shipment
progressed payments shipments index spec status rng progress = record {
  rng = rng;
  payments =
      if names_payment (order_id_of index spec) payments
      then progress.payments
      else progress.payments ++ generated_payment (order_id_of index spec) spec ∷ [];
  shipments =
      if not (names_shipment (order_id_of index spec) shipments) && not spec.without_shipment
      then progress.shipments ++ generated_shipment (order_id_of index spec) status ∷ []
      else progress.shipments;
  order_ids = progress.order_ids ++ order_id_of index spec ∷ [];
}

module _ {G : Type 0} (rng : Rng G) where
  unfoldable pub seed_order :
      String → List PaymentSpec → List ShipmentSpec → ℕ → OrderSpec → Progress G → Tx (Progress G)
  unfolding order_status_text parse_order_status padded insert_order progressed
  seed_order policy payments shipments index spec progress = do
    status ← lift (order_status_of spec)
    insert_order (order_row policy index spec status (rng.randrange 1000000 progress.rng).0)
    pure (
        progressed payments shipments index spec status (rng.randrange 1000000 progress.rng).1
          progress)

  unfoldable pub seed_orders :
      String
      → List PaymentSpec
      → List ShipmentSpec
      → ℕ
      → List OrderSpec
      → Progress G
      → Tx (Progress G)
  unfolding seed_order
  seed_orders policy payments shipments index [] progress = pure progress
  seed_orders policy payments shipments index (spec ∷ specs) progress = do
    progress' ← seed_order policy payments shipments index spec progress
    seed_orders policy payments shipments (index + 1) specs progress'

abbrev pub unseeded : {G : Type 0} → Rng G → WorldSpec → Progress G
unseeded rng spec = record {
  rng = rng.start (get_or spec.seed default_seed);
  payments = spec.payments;
  shipments = spec.shipments;
  order_ids = [];
}

abbrev pub payment_id_of : PaymentSpec → String → String
payment_id_of spec order = get_or spec.payment_id ("pay_" ^^ order)

abbrev pub payment_row : PaymentSpec → String → PaymentStatus → PaymentRow
payment_row spec order status = record {
  payment_id = payment_id_of spec order;
  order_id = order;
  status = payment_status_text status;
  captured_cents = get_or spec.captured_cents (pos 10000);
  refunded_cents = get_or spec.refunded_cents (pos 0);
  version = get_or spec.version (pos 1);
}

abbrev pub payment_status_of : PaymentSpec → Result PaymentStatus
payment_status_of spec = parse_payment_status (get_or spec.status (payment_status_text captured))

unfoldable pub seed_payment : PaymentSpec → Tx String
unfolding parse_payment_status payment_status_text insert_payment
seed_payment spec = do
  order ← lift (required spec.order_id)
  status ← lift (payment_status_of spec)
  insert_payment (payment_row spec order status)
  pure (payment_id_of spec order)

unfoldable pub seed_payments : List PaymentSpec → Tx (List String)
unfolding seed_payment
seed_payments [] = pure []
seed_payments (spec ∷ specs) = do id ← seed_payment spec; ids ← seed_payments specs; pure (id ∷ ids)

abbrev pub seeded : List String → List String → List String → List String → SeededWorld
seeded policies orders payments shipments = record {
  order_ids = orders;
  payment_ids = payments;
  shipment_ids = shipments;
  policy_ids = policies;
}

abbrev pub shipment_id_of : ShipmentSpec → String → String
shipment_id_of spec order = get_or spec.shipment_id ("shp_" ^^ order)

abbrev pub shipment_row : ShipmentSpec → String → ShipmentStatus → String → ShipmentRow
shipment_row spec order status carrier = record {
  shipment_id = shipment_id_of spec order;
  order_id = order;
  status = shipment_status_text status;
  carrier = get_or spec.carrier carrier;
  version = get_or spec.version (pos 1);
}

abbrev pub shipment_status_of : ShipmentSpec → Result ShipmentStatus
shipment_status_of spec =
    parse_shipment_status (get_or spec.status (shipment_status_text ShipmentStatus.preparing))

module _ {G : Type 0} (rng : Rng G) where
  -- The carrier is drawn also where the specification names one.
  unfoldable pub seed_shipment : ShipmentSpec → G → Tx (String × G)
  unfolding parse_shipment_status shipment_status_text insert_shipment carrier_at
  seed_shipment spec g = do
    order ← lift (required spec.order_id)
    status ← lift (shipment_status_of spec)
    carrier ← lift (carrier_at (rng.randrange 3 g).0)
    insert_shipment (shipment_row spec order status carrier)
    pure (shipment_id_of spec order, (rng.randrange 3 g).1)

  unfoldable pub seed_shipments : List ShipmentSpec → G → Tx (List String)
  unfolding seed_shipment
  seed_shipments [] g = pure []
  seed_shipments (spec ∷ specs) g = do
    (id, g') ← seed_shipment spec g
    ids ← seed_shipments specs g'
    pure (id ∷ ids)

  -- The body between BEGIN and COMMIT, which any exception rolls back.
  unfoldable pub seed_world : WorldSpec → Tx SeededWorld
  unfolding seed_policies seed_orders seed_payments seed_shipments
  seed_world spec = do
    policy_ids ← seed_policies (or_default spec.policies)
    policy ← lift (first policy_ids)
    progress ← seed_orders rng policy spec.payments spec.shipments 1 spec.orders (unseeded rng spec)
    payment_ids ← seed_payments progress.payments
    shipment_ids ← seed_shipments progress.shipments progress.rng
    pure (seeded policy_ids progress.order_ids payment_ids shipment_ids)
