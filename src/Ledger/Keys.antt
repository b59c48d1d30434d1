-- ===== src/Ledger/Keys.antt =====
-- The primary and foreign keys of the tables of app/models/db.py.
use bounded_refund_agent.Prelude.{
  String, ◌≡◌, refl, ap, Bool, true, false, ◌||◌, ◌==◌, List, [], ◌∷◌, ◌++◌, any, map, All, All-map,
  any-append_left, arith, if◌then◌else◌,
}
use bounded_refund_agent.Domain.{RefundPolicy}
use bounded_refund_agent.Db.{
  Db, OrderRow, PaymentRow, ShipmentRow, TicketRow, RefundRow, PermitRow, ExecutionRow,
}
use bounded_refund_agent.Tx.{update_where}

-- Of each row its primary key, and what it refers to.
pub record Keys : Type 0 where
  pub policies : List String
  pub orders : List (String × String)
  pub payments : List (String × String)
  pub shipments : List (String × String)
  pub tickets : List (String × String)
  pub refunds : List (String × (String × String))
  pub permits : List String
  pub records : List String

abbrev pub order_key : OrderRow → String × String
order_key row = (row.order_id, row.policy_id)

abbrev pub payment_key : PaymentRow → String × String
payment_key row = (row.payment_id, row.order_id)

abbrev pub shipment_key : ShipmentRow → String × String
shipment_key row = (row.shipment_id, row.order_id)

abbrev pub ticket_key : TicketRow → String × String
ticket_key row = (row.ticket_id, row.order_id)

abbrev pub refund_key : RefundRow → String × (String × String)
refund_key row = (row.refund_id, (row.payment_id, row.order_id))

abbrev pub keys_of : Db → Keys
keys_of db = record {
  policies = map (λ (row : RefundPolicy). row.policy_id) db.refund_policies;
  orders = map order_key db.orders;
  payments = map payment_key db.payments;
  shipments = map shipment_key db.shipments;
  tickets = map ticket_key db.support_tickets;
  refunds = map refund_key db.refunds;
  permits = map (λ (row : PermitRow). row.permit_id) db.execution_permits;
  records = map (λ (row : ExecutionRow). row.idempotency_key) db.execution_records;
}

-- No two entries have the same key.
abbrev pub IsUnique {ℓ} : {A : Type ℓ} → (A → String) → List A → Type 0
IsUnique key [] = Unit
IsUnique key (x ∷ xs) = (any (λ y. key x == key y) xs ≡ false) × IsUnique key xs

-- Each entry refers to one that is there.
abbrev pub Refers {ℓ κ} :
    {A : Type ℓ} {B : Type κ} → (A → String) → List A → (B → String) → List B → Type 0
Refers reference xs key ys = All (λ x. any (λ y. key y == reference x) ys ≡ true) xs

-- Unique keys, and references to entries that are there.
abbrev pub IsTable {κ} : {B : Type κ} → (B → String) → List B → List (String × String) → Type 0
IsTable key ys xs =
    IsUnique (λ (x : String × String). x.0) xs × Refers (λ (x : String × String). x.1) xs key ys

-- The constraints of SCHEMA.
pub record IsTyped (k : Keys) : Type 0 where
  pub policies : IsUnique (λ (x : String). x) k.policies
  pub orders : IsTable (λ (x : String). x) k.policies k.orders
  pub payments : IsTable (λ (x : String × String). x.0) k.orders k.payments
  pub shipments : IsTable (λ (x : String × String). x.0) k.orders k.shipments
  pub tickets : IsTable (λ (x : String × String). x.0) k.orders k.tickets
  pub refunds : IsUnique (λ (x : String × (String × String)). x.0) k.refunds
  pub refund_payments :
      Refers
        (λ (x : String × (String × String)). x.1.0)
        k.refunds
        (λ (x : String × String). x.0)
        k.payments
  pub refund_orders :
      Refers
        (λ (x : String × (String × String)). x.1.1)
        k.refunds
        (λ (x : String × String). x.0)
        k.orders
  pub permits : IsUnique (λ (x : String). x) k.permits
  pub records : IsUnique (λ (x : String). x) k.records

abbrev pub Typed : Db → Type 0
Typed db = IsTyped (keys_of db)

any-snoc {ℓ} :
    {A : Type ℓ} (p : A → Bool) (xs : List A) (x : A)
    → any p xs ≡ false
    → p x ≡ false
    → any p (xs ++ x ∷ []) ≡ false
any-snoc p [] x h e = ground arith
any-snoc p (y ∷ ys) x h e = ground (arith, any-snoc p ys x)

module _ {ℓ} {A : Type ℓ} (key : A → String) where
  pub IsUnique-snoc :
      (xs : List A) (x : A)
      → IsUnique key xs
      → any (λ y. key y == key x) xs ≡ false
      → IsUnique key (xs ++ x ∷ [])
  IsUnique-snoc [] x h new = (refl, tt)
  IsUnique-snoc (y ∷ ys) x h new = (
    any-snoc (λ z. key y == key z) ys x h.0 (ground (arith, new)),
    IsUnique-snoc ys x h.1 (ground (arith, new)),
  )

module _ {ℓ κ} {A : Type ℓ} {B : Type κ} where
  -- More entries to refer to.
  pub Refers-more :
      (reference : A → String) (key : B → String) (xs : List A) (ys : List B) (y : B)
      → Refers reference xs key ys
      → Refers reference xs key (ys ++ y ∷ [])
  Refers-more reference key xs ys y =
      All-map (λ x. any-append_left (λ z. key z == reference x) ys (y ∷ [])) xs

  pub any-map : (p : B → Bool) (f : A → B) (xs : List A) → any p (map f xs) ≡ any (λ x. p (f x)) xs
  any-map p f [] = refl
  any-map p f (x ∷ xs) = ap (λ b. p (f x) || b) (any-map p f xs)

  pub map-snoc : (f : A → B) (xs : List A) (x : A) → map f (xs ++ x ∷ []) ≡ map f xs ++ f x ∷ []
  map-snoc f [] x = refl
  map-snoc f (y ∷ ys) x = ap (λ l. f y ∷ l) (map-snoc f ys x)

  -- An UPDATE that leaves the keys alone.
  pub map-update_where :
      (f : A → B) (p : A → Bool) (g : A → A) (xs : List A)
      → ((x : A) → f (g x) ≡ f x)
      → map f (update_where p g xs) ≡ map f xs
  unfolding update_where
  map-update_where f p g [] same = refl
  map-update_where f p g (x ∷ xs) same =
      rw (map-update_where f p g xs same) (ap (λ k. k ∷ map f xs) (updated (p x)))
    where
      updated : (b : Bool) → f (if b then g x else x) ≡ f x
      updated true = same x
      updated false = refl
