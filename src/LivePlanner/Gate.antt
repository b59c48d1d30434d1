-- ===== src/LivePlanner/Gate.antt =====
-- What the gate of app/agent/runner.py accepts of a proposal of app/agent/live_planner.py.
use bounded_refund_agent.Prelude.{
  ℕ, ℤ, String, ◌≡◌, refl, sym, ◌∙◌, subst, ap, ◌↔◌, true, false, Option, none, some, List, [], ◌∷◌,
  ◌++◌, All, ◌==◌, arith, Option-cases, inl, inr,
}
use bounded_refund_agent.Schemas.{ActionName, ActionProposal, ReasonCode}
use bounded_refund_agent.Schemas.Gate.{
  value, mapping, get, known_fields, action_field, text_field, amount_field, assemble, parse_action,
  model_validate, max_order_id, max_reason, validate, or_invalid, names_unknown_action,
}
use bounded_refund_agent.Schemas.Bounds.{IsText, IsAmount, IsInBounds}
use bounded_refund_agent.LivePlanner.{
  LiveProposal, Block, Libraries, LivePlanner, PlannerContext, Request, Response, absent,
  amount_value, as_raw_proposal, first_text, model_dump, object, parse, proposal, propose_live,
  request_of, text_value,
}

-- The same proposal, its action named by text.
pub record Says (p : LiveProposal) (q : ActionProposal) : Type 0 where
  pub action : parse_action p.action ≡ some q.action
  pub order_id : p.order_id ≡ q.order_id
  pub amount_cents : p.amount_cents ≡ q.amount_cents
  pub reason : p.reason ≡ q.reason

text_field_iff :
    (n : ℕ) (r s t : String) (i : Option ℤ)
    → (text_field n (some (value r (some s) i)) ≡ some t) ↔ ((s ≡ t) × IsText n t)
unfolding text_field
text_field_iff n r s t i = (
  λ h. let e : s ≡ t = ground arith in (e, subst (IsText n) e (ground arith)),
  λ (e, b). rw (e) (ground arith),
)

amount_field_iff :
    (lib : Libraries) (v w : Option ℤ)
    → (amount_field (some (amount_value lib v)) ≡ some w) ↔ ((v ≡ w) × IsAmount w)
unfolding amount_field
amount_field_iff lib none none = (λ h. (refl, tt), λ h. refl)
amount_field_iff lib none (some m) = (λ h. cc, λ h. cc)
amount_field_iff lib (some n) none = (λ h. ground arith, λ h. cc)
amount_field_iff lib (some n) (some m) = (λ h. ground arith, λ h. ground arith)

assemble_iff :
    (a : Option ActionName) (o : Option String) (n : Option (Option ℤ)) (r : Option String)
    (q : ActionProposal)
    → (assemble true a o n r ≡ some q) ↔ (
        (a ≡ some q.action)
        × (o ≡ some q.order_id)
        × (n ≡ some q.amount_cents)
        × (r ≡ some q.reason))
unfolding assemble
assemble_iff (some a) (some o) (some n) (some r) q = (
  λ h.
      let made : ActionProposal = record {
        action = a;
        order_id = o;
        amount_cents = n;
        reason = r;
      } in
      let e : made ≡ q = ground arith in
      (
        ap (λ (x : ActionProposal). some x.action) e,
        ap (λ (x : ActionProposal). some x.order_id) e,
        ap (λ (x : ActionProposal). some x.amount_cents) e,
        ap (λ (x : ActionProposal). some x.reason) e,
      ),
  λ (ha, ho, hn, hr).
      let ea : a ≡ q.action = cc ha in
      let eo : o ≡ q.order_id = cc ho in
      let en : n ≡ q.amount_cents = cc hn in
      let er : r ≡ q.reason = cc hr in
      λ i. some (record { action = ea i; order_id = eo i; amount_cents = en i; reason = er i }),
)
assemble_iff none o n r q = (λ h. cc, λ h. cc)
assemble_iff (some a) none n r q = (λ h. cc, λ h. cc)
assemble_iff (some a) (some o) none r q = (λ h. cc, λ h. cc)
assemble_iff (some a) (some o) (some n) none q = (λ h. cc, λ h. cc)

unknown_named :
    (lib : Libraries) (s : String)
    → parse_action s ≡ none
    → names_unknown_action (some (text_value lib s)) ≡ true
unfolding names_unknown_action
unknown_named lib s h = rw (h, names_unknown_action) refl

known_named :
    (lib : Libraries) (s : String) (a : ActionName)
    → parse_action s ≡ some a
    → names_unknown_action (some (text_value lib s)) ≡ false
unfolding names_unknown_action
known_named lib s a h = rw (h, names_unknown_action) refl

-- What the gate makes of a parsed proposal of a known action.
abbrev made_of : Libraries → LiveProposal → Option ActionProposal
made_of lib p =
    assemble true (parse_action p.action)
      (text_field max_order_id (some (text_value lib p.order_id)))
      (amount_field (some (amount_value lib p.amount_cents)))
      (text_field max_reason (some (text_value lib p.reason)))

refused :
    (lib : Libraries) (p : LiveProposal)
    → parse_action p.action ≡ none
    → validate (mapping (model_dump lib p)) ≡ (none, some ReasonCode.unknown_action)
unfolding validate model_dump get
refused lib p h = rw (unknown_named lib p.action h) refl

accepted :
    (lib : Libraries) (p : LiveProposal) (a : ActionName)
    → parse_action p.action ≡ some a
    → validate (mapping (model_dump lib p)) ≡ or_invalid (made_of lib p)
unfolding validate model_dump get model_validate action_field known_fields
accepted lib p a h = rw (known_named lib p.action a h) refl

or_invalid_iff :
    (o : Option ActionProposal) (q : ActionProposal)
    → (or_invalid o ≡ (some q, none)) ↔ (o ≡ some q)
or_invalid_iff none q = (λ h. cc, λ h. cc)
or_invalid_iff (some p) q =
    (λ h. ap (λ (x : Option ActionProposal × Option ReasonCode). x.0) h, λ h. ap or_invalid h)

made_of_iff :
    (lib : Libraries) (p : LiveProposal) (q : ActionProposal)
    → (made_of lib p ≡ some q) ↔ (Says p q × IsInBounds q)
made_of_iff lib p q =
    let texts =
      text_field_iff max_order_id p.order_id p.order_id q.order_id (lib.int_of_text p.order_id) in
    let reasons = text_field_iff max_reason p.reason p.reason q.reason (lib.int_of_text p.reason) in
    let amounts = amount_field_iff lib p.amount_cents q.amount_cents in
    let fields = assemble_iff (parse_action p.action) _ _ _ q in
    (
      λ h.
          let (a, o, n, r) = fields.0 h in
          let (same_id, id) = texts.0 o in
          let (same_amount, amount) = amounts.0 n in
          let (same_reason, reason) = reasons.0 r in
          (
            record {
              action = a;
              order_id = same_id;
              amount_cents = same_amount;
              reason = same_reason;
            },
            record { order_id = id; amount = amount; reason = reason },
          ),
      λ (says, bounds). fields.1 (
        says.action,
        texts.1 (says.order_id, bounds.order_id),
        amounts.1 (says.amount_cents, bounds.amount),
        reasons.1 (says.reason, bounds.reason),
      ),
    )

-- A parsed proposal passes the gate of the server exactly where it names one of the three actions and has
-- an order identifier, an amount and a reason within the bounds; what passes is then what the model said.
pub live_proposal_iff :
    (lib : Libraries) (p : LiveProposal) (q : ActionProposal)
    → (validate (mapping (model_dump lib p)) ≡ (some q, none)) ↔ (Says p q × IsInBounds q)
live_proposal_iff lib p q = elim (Option-cases (parse_action p.action)) [
  | inl unknown ↦ (
    λ h. let bad = sym (refused lib p unknown) ∙ h in cc,
    λ (says, bounds). let bad = sym unknown ∙ says.action in cc,
  )
  | inr (a, known) ↦
      let same = accepted lib p a known in
      let made = or_invalid_iff (made_of lib p) q in
      let fields = made_of_iff lib p q in
      (λ h. fields.0 (made.0 (sym same ∙ h)), λ h. same ∙ made.1 (fields.1 h))
]

-- A response that says a proposal: parsed, or as JSON in the first block of text.
pub data Answers (lib : Libraries) (p : LiveProposal) (r : Response) : Type 0 where
  parsed : r.parsed_output ≡ proposal p → Answers lib p r
  written :
      (before after : List Block) (block : Block)
      → r.parsed_output ≡ absent
      → r.content ≡ before ++ block ∷ after
      → All (λ (b : Block). (b.kind == "text") ≡ false) before
      → (block.kind == "text") ≡ true
      → lib.json_loads block.text ≡ object (model_dump lib p)
      → Answers lib p r

first_text-written :
    (before after : List Block) (block : Block)
    → All (λ (b : Block). (b.kind == "text") ≡ false) before
    → (block.kind == "text") ≡ true
    → first_text (before ++ block ∷ after) ≡ block.text
unfolding first_text
first_text-written [] after block silent is_text = rw (is_text) refl
first_text-written (b ∷ before) after block (other, silent) is_text =
    rw (other) (first_text-written before after block silent is_text)

Answers-raw :
    (lib : Libraries) (p : LiveProposal) (r : Response)
    → Answers lib p r
    → as_raw_proposal lib r ≡ mapping (model_dump lib p)
unfolding as_raw_proposal parse
Answers-raw lib p r (parsed e) = rw (e) refl
Answers-raw lib p r (written before after block e content silent is_text loaded) =
    let found = first_text-written before after block silent is_text in
    rw (e, content, found, loaded) refl

-- Where the provider's answer to the planner's request says a proposal, parsed, or as JSON in its first block
-- of text, it passes the gate of the server exactly where it names one of the three actions and has an order
-- identifier, an amount and a reason within the bounds; what passes is then what the provider said.
pub propose_live_iff :
    (lib : Libraries) (client : Request → Response) (planner : LivePlanner)
    (context : PlannerContext) (p : LiveProposal) (q : ActionProposal)
    → Answers lib p (client (request_of lib planner context))
    → (validate (propose_live lib client planner context) ≡ (some q, none))
      ↔ (Says p q × IsInBounds q)
unfolding propose_live
propose_live_iff lib client planner context p q said =
    let same = Answers-raw lib p (client (request_of lib planner context)) said in
    let gate = live_proposal_iff lib p q in
    (λ h. gate.0 (ap validate (sym same) ∙ h), λ h. ap validate same ∙ gate.1 h)
