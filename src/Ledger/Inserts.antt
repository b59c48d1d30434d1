-- ===== src/Ledger/Inserts.antt =====
-- The INSERT statements keep the primary and foreign keys: on the keys alone.
use bounded_refund_agent.Prelude.{
  String, ◌≡◌, ◌==◌, true, false, List, [], ◌∷◌, ◌++◌, any, All-snoc,
}
use bounded_refund_agent.Ledger.Keys.{IsTable, IsTyped, IsUnique-snoc, Keys, Refers-more}

module _ {κ} {B : Type κ} (key : B → String) (ys : List B) where
  IsTable-snoc :
      (xs : List (String × String)) (x : String × String)
      → IsTable key ys xs
      → any (λ (y : String × String). y.0 == x.0) xs ≡ false
      → any (λ y. key y == x.1) ys ≡ true
      → IsTable key ys (xs ++ x ∷ [])
  IsTable-snoc xs x t new there =
      (IsUnique-snoc (λ (z : String × String). z.0) xs x t.0 new, All-snoc _ xs x t.1 there)

  IsTable-more :
      (xs : List (String × String)) (y : B) → IsTable key ys xs → IsTable key (ys ++ y ∷ []) xs
  IsTable-more xs y t = (t.0, Refers-more _ key xs ys y t.1)

module _ (k : Keys) (t : IsTyped k) where
  pub insert_policy-IsTyped :
      (x : String)
      → any (λ y. y == x) k.policies ≡ false
      → IsTyped (record k { policies = k.policies ++ x ∷ [] })
  insert_policy-IsTyped x new = record {
    policies = IsUnique-snoc (λ (x : String). x) k.policies x t.policies new;
    orders = IsTable-more (λ (x : String). x) k.policies k.orders x t.orders;
    payments = t.payments;
    shipments = t.shipments;
    tickets = t.tickets;
    refunds = t.refunds;
    refund_payments = t.refund_payments;
    refund_orders = t.refund_orders;
    permits = t.permits;
    records = t.records;
  }

  pub insert_order-IsTyped :
      (x : String × String)
      → any (λ (y : String × String). y.0 == x.0) k.orders ≡ false
      → any (λ y. y == x.1) k.policies ≡ true
      → IsTyped (record k { orders = k.orders ++ x ∷ [] })
  insert_order-IsTyped x new there = record {
    policies = t.policies;
    orders = IsTable-snoc (λ (x : String). x) k.policies k.orders x t.orders new there;
    payments = IsTable-more (λ (x : String × String). x.0) k.orders k.payments x t.payments;
    shipments = IsTable-more (λ (x : String × String). x.0) k.orders k.shipments x t.shipments;
    tickets = IsTable-more (λ (x : String × String). x.0) k.orders k.tickets x t.tickets;
    refunds = t.refunds;
    refund_payments = t.refund_payments;
    refund_orders =
        Refers-more _ (λ (x : String × String). x.0) k.refunds k.orders x t.refund_orders;
    permits = t.permits;
    records = t.records;
  }

  pub insert_payment-IsTyped :
      (x : String × String)
      → any (λ (y : String × String). y.0 == x.0) k.payments ≡ false
      → any (λ (y : String × String). y.0 == x.1) k.orders ≡ true
      → IsTyped (record k { payments = k.payments ++ x ∷ [] })
  insert_payment-IsTyped x new there = record {
    policies = t.policies;
    orders = t.orders;
    payments =
        IsTable-snoc (λ (x : String × String). x.0) k.orders k.payments x t.payments new there;
    shipments = t.shipments;
    tickets = t.tickets;
    refunds = t.refunds;
    refund_payments =
        Refers-more _ (λ (x : String × String). x.0) k.refunds k.payments x t.refund_payments;
    refund_orders = t.refund_orders;
    permits = t.permits;
    records = t.records;
  }

  pub insert_shipment-IsTyped :
      (x : String × String)
      → any (λ (y : String × String). y.0 == x.0) k.shipments ≡ false
      → any (λ (y : String × String). y.0 == x.1) k.orders ≡ true
      → IsTyped (record k { shipments = k.shipments ++ x ∷ [] })
  insert_shipment-IsTyped x new there = record {
    policies = t.policies;
    orders = t.orders;
    payments = t.payments;
    shipments =
        IsTable-snoc (λ (x : String × String). x.0) k.orders k.shipments x t.shipments new there;
    tickets = t.tickets;
    refunds = t.refunds;
    refund_payments = t.refund_payments;
    refund_orders = t.refund_orders;
    permits = t.permits;
    records = t.records;
  }

  pub insert_ticket-IsTyped :
      (x : String × String)
      → any (λ (y : String × String). y.0 == x.0) k.tickets ≡ false
      → any (λ (y : String × String). y.0 == x.1) k.orders ≡ true
      → IsTyped (record k { tickets = k.tickets ++ x ∷ [] })
  insert_ticket-IsTyped x new there = record {
    policies = t.policies;
    orders = t.orders;
    payments = t.payments;
    shipments = t.shipments;
    tickets = IsTable-snoc (λ (x : String × String). x.0) k.orders k.tickets x t.tickets new there;
    refunds = t.refunds;
    refund_payments = t.refund_payments;
    refund_orders = t.refund_orders;
    permits = t.permits;
    records = t.records;
  }

  pub insert_refund-IsTyped :
      (x : String × (String × String))
      → any (λ (y : String × (String × String)). y.0 == x.0) k.refunds ≡ false
      → any (λ (y : String × String). y.0 == x.1.0) k.payments ≡ true
      → any (λ (y : String × String). y.0 == x.1.1) k.orders ≡ true
      → IsTyped (record k { refunds = k.refunds ++ x ∷ [] })
  insert_refund-IsTyped x new paid ordered = record {
    policies = t.policies;
    orders = t.orders;
    payments = t.payments;
    shipments = t.shipments;
    tickets = t.tickets;
    refunds = IsUnique-snoc (λ (z : String × (String × String)). z.0) k.refunds x t.refunds new;
    refund_payments = All-snoc _ k.refunds x t.refund_payments paid;
    refund_orders = All-snoc _ k.refunds x t.refund_orders ordered;
    permits = t.permits;
    records = t.records;
  }

  pub insert_permit-IsTyped :
      (x : String)
      → any (λ y. y == x) k.permits ≡ false
      → IsTyped (record k { permits = k.permits ++ x ∷ [] })
  insert_permit-IsTyped x new = record {
    policies = t.policies;
    orders = t.orders;
    payments = t.payments;
    shipments = t.shipments;
    tickets = t.tickets;
    refunds = t.refunds;
    refund_payments = t.refund_payments;
    refund_orders = t.refund_orders;
    permits = IsUnique-snoc (λ (x : String). x) k.permits x t.permits new;
    records = t.records;
  }

  pub insert_record-IsTyped :
      (x : String)
      → any (λ y. y == x) k.records ≡ false
      → IsTyped (record k { records = k.records ++ x ∷ [] })
  insert_record-IsTyped x new = record {
    policies = t.policies;
    orders = t.orders;
    payments = t.payments;
    shipments = t.shipments;
    tickets = t.tickets;
    refunds = t.refunds;
    refund_payments = t.refund_payments;
    refund_orders = t.refund_orders;
    permits = t.permits;
    records = IsUnique-snoc (λ (x : String). x) k.records x t.records new;
  }
