-- ===== src/Schemas/Bounds.antt =====
-- The bounds of `ActionProposal`, behind `_validate` of app/agent/runner.py.
use Prim.Native.String.{count}
use bounded_refund_agent.Prelude.{
  ℕ, ◌≤◌, ℤ, pos, ◌≤ℤ◌, String, ◌≡◌, refl, subst, Bool, true, false, Option, none, some, List,
  arith, Bool-cases, inl, inr,
}
use bounded_refund_agent.Schemas.{ActionName, ActionProposal, ReasonCode}
use bounded_refund_agent.Schemas.Gate.{
  Value, null, value, mapping, get, known_fields, action_field, text_field, amount_field, assemble,
  model_validate, max_order_id, max_reason, max_amount, validate, or_invalid, names_unknown_action,
}

abbrev pub IsText : ℕ → String → Type 0
IsText max_length s = (1 ≤ count s) × (count s ≤ max_length)

abbrev pub IsAmount : Option ℤ → Type 0
IsAmount none = Unit
IsAmount (some n) = (pos 0 ≤ℤ n) × (n ≤ℤ max_amount)

pub record IsInBounds (p : ActionProposal) : Type 0 where
  pub order_id : IsText max_order_id p.order_id
  pub amount : IsAmount p.amount_cents
  pub reason : IsText max_reason p.reason

text_field-IsText :
    (max_length : ℕ) (v : Option Value) (s : String)
    → text_field max_length v ≡ some s
    → IsText max_length s
unfolding text_field
text_field-IsText max_length none s h = cc
text_field-IsText max_length (some null) s h = cc
text_field-IsText max_length (some (value r none n)) s h = cc
text_field-IsText max_length (some (value r (some t) n)) s h = ground arith

amount_field-IsAmount : (v : Option Value) (n : Option ℤ) → amount_field v ≡ some n → IsAmount n
unfolding amount_field
amount_field-IsAmount none none h = tt
amount_field-IsAmount none (some n) h = cc
amount_field-IsAmount (some null) none h = tt
amount_field-IsAmount (some null) (some n) h = cc
amount_field-IsAmount (some (value r t none)) n h = cc
amount_field-IsAmount (some (value r t (some m))) none h = tt
amount_field-IsAmount (some (value r t (some m))) (some n) h = ground arith

assemble-IsInBounds :
    (known : Bool) (a : Option ActionName) (o : Option String) (n : Option (Option ℤ))
    (r : Option String) (p : ActionProposal)
    → ((s : String) → o ≡ some s → IsText max_order_id s)
    → ((m : Option ℤ) → n ≡ some m → IsAmount m)
    → ((s : String) → r ≡ some s → IsText max_reason s)
    → assemble known a o n r ≡ some p
    → IsInBounds p
unfolding assemble
assemble-IsInBounds true (some a) (some o) (some n) (some r) p ho hn hr h =
    let made : ActionProposal = record { action = a; order_id = o; amount_cents = n; reason = r } in
    let e : made ≡ p = ground arith in
    subst IsInBounds e (record { order_id = ho o refl; amount = hn n refl; reason = hr r refl })
assemble-IsInBounds false a o n r p ho hn hr h = cc
assemble-IsInBounds true none o n r p ho hn hr h = cc
assemble-IsInBounds true (some a) none n r p ho hn hr h = cc
assemble-IsInBounds true (some a) (some o) none r p ho hn hr h = cc
assemble-IsInBounds true (some a) (some o) (some n) none p ho hn hr h = cc

model_validate-IsInBounds :
    (m : List (String × Value)) (p : ActionProposal) → model_validate m ≡ some p → IsInBounds p
unfolding model_validate
model_validate-IsInBounds m p h =
    assemble-IsInBounds (known_fields m) (action_field (get "action" m))
      (text_field max_order_id (get "order_id" m)) (amount_field (get "amount_cents" m))
      (text_field max_reason (get "reason" m)) p (text_field-IsText max_order_id (get "order_id" m))
      (amount_field-IsAmount (get "amount_cents" m)) (text_field-IsText max_reason (get "reason" m))
      h

or_invalid_lem :
    (q : Option ActionProposal) (p : ActionProposal) (reason : Option ReasonCode)
    → or_invalid q ≡ (some p, reason)
    → q ≡ some p
or_invalid_lem none p reason h = cc
or_invalid_lem (some q) p reason h = cc

-- Whatever a planner's mapping holds, a proposal that the gate makes of it has an order identifier of 1 to 64
-- characters, a reason of 1 to 200 characters, and no amount or one from 0 to 100000000.
pub validate-IsInBounds :
    (m : List (String × Value)) (p : ActionProposal) (reason : Option ReasonCode)
    → validate (mapping m) ≡ (some p, reason)
    → IsInBounds p
unfolding validate
validate-IsInBounds m p reason h = elim (Bool-cases (names_unknown_action (get "action" m))) [
  | inl unknown ↦ ground arith
  | inr known ↦
      model_validate-IsInBounds m p (or_invalid_lem (model_validate m) p reason (ground (arith, h)))
]
