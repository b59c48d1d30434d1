-- ===== src/Schemas/Gate.antt =====
-- The schema gate: `_validate` of app/agent/runner.py over `ActionProposal` of
-- app/models/schemas.py, and the raw values that a planner may emit.
use Prim.Native.String.{count}
use bounded_refund_agent.Prelude.{
  ℕ, ℤ, pos, String, Bool, true, false, ◌&&◌, ◌||◌, Option, none, some, List, [], ◌∷◌, ◌==◌, leb,
  leb_ℤ, if◌then◌else◌,
}
use bounded_refund_agent.Schemas.{
  ActionName, cancel_order, issue_refund, create_support_ticket, ReasonCode, invalid_proposal,
  unknown_action, ActionProposal,
}

-- A Python value by what the gate reads in it: `str(value)`, its text if it is a `str`, and the
-- integer that pydantic's lax mode reads in it.
pub data Value : Type 0 where
  null : Value
  value : String → Option String → Option ℤ → Value

pub data RawProposal : Type 0 where
  nothing : RawProposal
  validated : ActionProposal → RawProposal
  mapping : List (String × Value) → RawProposal
  -- neither a proposal nor a mapping
  other : RawProposal

-- `mapping.get(key)`; a missing key and a `None` are told apart by `none` and `some null`.
unfoldable pub get : String → List (String × Value) → Option Value
get k [] = none
get k ((j, v) ∷ m) = if j == k then some v else get k m

unfoldable pub parse_action : String → Option ActionName
parse_action s =
    if s == "cancel_order"
    then some cancel_order
    else if s == "issue_refund"
    then some issue_refund
    else if s == "create_support_ticket"
    then some create_support_ticket
    else none

abbrev pub max_order_id : ℕ
max_order_id = 64

abbrev pub max_reason : ℕ
max_reason = 200

abbrev pub max_amount : ℤ
max_amount = pos 100000000

-- `extra="forbid"`
unfoldable pub known_fields : List (String × Value) → Bool
known_fields [] = true
known_fields ((k, _) ∷ m) =
    (k == "action" || k == "order_id" || k == "amount_cents" || k == "reason") && known_fields m

unfoldable pub action_field : Option Value → Option ActionName
unfolding parse_action
action_field (some (value _ (some s) _)) = parse_action s
action_field _ = none

-- A required text of 1 to `max_length` characters.
unfoldable pub text_field : ℕ → Option Value → Option String
text_field max_length (some (value _ (some s) _)) =
    if leb 1 (count s) && leb (count s) max_length then some s else none
text_field _ _ = none

-- An optional amount: absent and `None` are accepted, a number only within the bounds.
unfoldable pub amount_field : Option Value → Option (Option ℤ)
amount_field none = some none
amount_field (some null) = some none
amount_field (some (value _ _ none)) = none
amount_field (some (value _ _ (some n))) =
    if leb_ℤ (pos 0) n && leb_ℤ n max_amount then some (some n) else none

-- Where every field is read, the proposal.
unfoldable pub assemble :
    Bool
    → Option ActionName
    → Option String
    → Option (Option ℤ)
    → Option String
    → Option ActionProposal
assemble true (some a) (some o) (some n) (some r) =
    some (record { action = a; order_id = o; amount_cents = n; reason = r })
assemble _ _ _ _ _ = none

-- `ActionProposal.model_validate`
unfoldable pub model_validate : List (String × Value) → Option ActionProposal
unfolding get known_fields action_field text_field amount_field assemble
model_validate m =
    assemble (known_fields m) (action_field (get "action" m))
      (text_field max_order_id (get "order_id" m)) (amount_field (get "amount_cents" m))
      (text_field max_reason (get "reason" m))

-- `action is not None and str(action) not in set(ActionName)`
unfoldable pub names_unknown_action : Option Value → Bool
unfolding parse_action
names_unknown_action (some (value rendered _ _)) = elim (parse_action rendered) [
  | none ↦ true
  | some _ ↦ false
]
names_unknown_action _ = false

abbrev pub or_invalid : Option ActionProposal → Option ActionProposal × Option ReasonCode
or_invalid none = (none, some invalid_proposal)
or_invalid (some p) = (some p, none)

unfoldable pub validate : RawProposal → Option ActionProposal × Option ReasonCode
unfolding get names_unknown_action model_validate
validate nothing = (none, some invalid_proposal)
validate (validated p) = (some p, none)
validate (mapping m) =
    if names_unknown_action (get "action" m)
    then (none, some unknown_action)
    else or_invalid (model_validate m)
validate other = (none, some invalid_proposal)

-- `_raw_order_id`
unfoldable pub raw_order_id : RawProposal → String
unfolding get
raw_order_id (validated p) = p.order_id
raw_order_id (mapping m) = elim (get "order_id" m) [ some (value _ (some s) _) ↦ s | _ ↦ "" ]
raw_order_id _ = ""
