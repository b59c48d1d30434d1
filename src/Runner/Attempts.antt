-- ===== src/Runner/Attempts.antt =====
-- One attempt: `_attempt`, `_execute_allowed`, `_escalate` and `_snapshot` of app/agent/runner.py.
use bounded_refund_agent.Prelude.{
  ℕ, ℤ, pos, negsuc, eqb, String, Bool, true, false, Option, none, some, List, [], ◌∷◌, ◌++◌, ◌==◌,
  if◌then◌else◌,
}
use bounded_refund_agent.Result.{Exception, ok, read_unavailable, response_timeout}
use bounded_refund_agent.Domain.{Order, RefundPolicy}
use bounded_refund_agent.Schemas.{
  ActionName, ActionProposal, Decision, DecisionOwner, Detail, ExecutionPermit, ExecutionResult,
  Outcome, PolicyResult, ReasonCode, reason_code_text, ReadTool, Summary,
}
use bounded_refund_agent.Schemas.Gate.{RawProposal, nothing, validate, raw_order_id}
use bounded_refund_agent.Policy.{PolicySnapshot, evaluate}
use bounded_refund_agent.Db.{fetch_order}
use bounded_refund_agent.Audit.{EventType, Extra}
use bounded_refund_agent.Permits.{issue_permit}
use bounded_refund_agent.ReadTools.{get_order, get_payment, get_shipment, get_refund_policy}
use bounded_refund_agent.Executor.{execute}
use bounded_refund_agent.Executor.Commit.{no_ticket_text}
use bounded_refund_agent.World.{
  World, Note, Run, M, pure, lift, query, modify, catch, now, emit, ◌>>=◌, ◌>>◌,
}

-- `_Attempt`
pub record Attempt : Type 0 where
  pub outcome : Outcome
  pub reason_code : ReasonCode
  pub replan : Bool
  pub escalate_after_replan : Bool

abbrev pub ended : Outcome → ReasonCode → Attempt
ended outcome reason = record {
  outcome = outcome;
  reason_code = reason;
  replan = false;
  escalate_after_replan = false;
}

abbrev pub add_note : Note → World → World
add_note note w = record w { notes = w.notes ++ note ∷ [] }

-- `ScriptedPlanner.propose`
unfoldable pub propose : M RawProposal
propose w = elim w.proposals [
  | [] ↦ (ok nothing, w)
  | raw ∷ rest ↦ (ok raw, record w { proposals = rest })
]

abbrev pub is_unavailable : Exception → Bool
is_unavailable read_unavailable = true
is_unavailable _ = false

-- `try: … except ReadUnavailable as failure: failures.append(failure.tool)`
unfoldable pub try_read : {A : Type 0} → ReadTool → M (Option A) → M (Option A × List ReadTool)
try_read tool m = catch (do found ← m; pure (found, [])) is_unavailable (pure (none, tool ∷ []))

-- `"payment" in needed`
unfoldable pub needs_payment : ActionName → Bool
needs_payment ActionName.issue_refund = true
needs_payment _ = false

unfoldable pub needs_shipment : ActionName → Bool
needs_shipment ActionName.cancel_order = true
needs_shipment _ = false

abbrev pub read_policy : ActionName → Option Order → M (Option RefundPolicy × List ReadTool)
read_policy ActionName.issue_refund (some o) =
    try_read ReadTool.get_refund_policy (get_refund_policy o.policy_id)
read_policy _ _ = pure (none, [])

unfoldable pub snapshot : ActionProposal → M PolicySnapshot
unfolding try_read needs_payment needs_shipment get_order get_payment get_shipment get_refund_policy
snapshot p = do
  (o, f1) ← try_read ReadTool.get_order (get_order p.order_id)
  (pay, f2) ←
      (if needs_payment p.action
        then try_read ReadTool.get_payment (get_payment p.order_id)
        else pure (none, []))
  (sh, f3) ←
      (if needs_shipment p.action
        then try_read ReadTool.get_shipment (get_shipment p.order_id)
        else pure (none, []))
  (pol, f4) ← read_policy p.action o
  time ← now
  pure (record {
    now = time;
    order = o;
    payment = pay;
    shipment = sh;
    refund_policy = pol;
    read_failures = f1 ++ (f2 ++ (f3 ++ f4));
  })

-- The wording of the detail is left out of the proposal's reason, which only becomes the summary.
abbrev pub ticket_proposal : Order → ReasonCode → ActionProposal
ticket_proposal o reason = record {
  action = ActionName.create_support_ticket;
  order_id = o.order_id;
  amount_cents = none;
  reason = reason_code_text reason;
}

unfoldable pub escalate_order : Run → Order → ReasonCode → Detail → M (Unit {0})
unfolding issue_permit emit execute
escalate_order run o reason detail = do
  permit ← issue_permit run ActionName.create_support_ticket o.order_id o.version (pos 0)
  emit run EventType.permit_issued permit.resource_id permit.expected_resource_version
      DecisionOwner.executor (some reason) (Extra.permit_id permit.permit_id)
  execute run (some permit.permit_id) (ticket_proposal o reason)
        (record { reason = some reason; summary = some (Summary.escalation reason detail) })
      >>= λ _. pure tt

abbrev pub escalate_found : Run → String → Option Order → ReasonCode → Detail → M (Unit {0})
escalate_found run order_id none reason detail = modify (add_note (Note.no_ticket order_id))
escalate_found run order_id (some o) reason detail = escalate_order run o reason detail

-- `_escalate`; its result is never used.
unfoldable pub escalate : Run → String → ReasonCode → Detail → M (Unit {0})
unfolding escalate_order fetch_order
escalate run order_id reason detail = do
  found ← query (fetch_order order_id)
  escalate_found run order_id found reason detail

abbrev pub is_response_timeout : Exception → Bool
is_response_timeout response_timeout = true
is_response_timeout _ = false

abbrev pub note_recovery : String → World → World
note_recovery key w = record w { notes = w.notes ++ Note.response_lost key ∷ []; recovered = true }

abbrev pub reason_or : Option ReasonCode → ReasonCode
reason_or none = ReasonCode.invalid_proposal
reason_or (some r) = r

-- `result.reason_code is ReasonCode.STALE_RESOURCE_VERSION`
abbrev pub is_stale_reason : Option ReasonCode → Bool
is_stale_reason (some ReasonCode.stale_resource_version) = true
is_stale_reason _ = false

unfoldable pub conclude : Bool → ℕ → PolicyResult → ExecutionResult → Attempt
conclude replans n decision r =
    if r.committed
    then ended Outcome.completed decision.reason_code
    else if is_stale_reason r.reason_code
    then (if replans
        then (if eqb n 1
            then record (ended Outcome.denied ReasonCode.stale_resource_version) { replan = true }
            else record (ended Outcome.escalated ReasonCode.stale_resource_version) {
              escalate_after_replan = true;
            })
        else ended Outcome.denied ReasonCode.stale_resource_version)
    else ended Outcome.denied (reason_or r.reason_code)

-- The write, and one retry with the same permit if its response is lost.
unfoldable pub execute_once_more : Run → ExecutionPermit → ActionProposal → M ExecutionResult
unfolding execute
execute_once_more run permit p =
    catch (execute run (some permit.permit_id) p no_ticket_text) is_response_timeout (
      modify (note_recovery permit.idempotency_key)
      >> execute run (some permit.permit_id) p no_ticket_text)

unfoldable pub execute_allowed : Run → Bool → ActionProposal → PolicyResult → ℕ → M Attempt
unfolding issue_permit emit execute_once_more conclude
execute_allowed run replans p decision n = do
  permit ←
      issue_permit run p.action decision.resource_id decision.expected_resource_version
        decision.max_amount_cents
  emit run EventType.permit_issued permit.resource_id permit.expected_resource_version
      DecisionOwner.executor (some decision.reason_code) (Extra.permit_id permit.permit_id)
  modify (λ w. record w { last_execution = some (permit.permit_id, p) })
  r ← execute_once_more run permit p
  pure (conclude replans n decision r)

abbrev pub order_version : Option Order → ℤ
order_version none = negsuc 0
order_version (some o) = o.version

abbrev pub text_or : String → String → String
text_or a b = if a == "" then b else a

-- What follows `policy_allowed`: a ticket, or the action itself.
abbrev pub acted : Run → Bool → ℕ → ActionProposal → PolicyResult → Decision → M (Attempt × String)
acted run replans n p d Decision.escalate =
    escalate run p.order_id d.reason_code d.detail
    >> pure (ended Outcome.escalated d.reason_code, p.order_id)
acted run replans n p d _ = execute_allowed run replans p d n >>= λ a. pure (a, p.order_id)

unfoldable pub allowed : Run → Bool → ℕ → ActionProposal → PolicyResult → M (Attempt × String)
unfolding emit escalate execute_allowed
allowed run replans n p d = do
  emit run EventType.policy_allowed (text_or d.resource_id p.order_id) d.expected_resource_version
      DecisionOwner.policy (some d.reason_code) (Extra.decision d.decision)
  acted run replans n p d d.decision

abbrev pub decided_as :
    Run
    → Bool
    → ℕ
    → ActionProposal
    → PolicySnapshot
    → PolicyResult
    → Decision
    → M (Attempt × String)
decided_as run replans n p s d Decision.deny =
    emit run EventType.policy_denied p.order_id (order_version s.order) DecisionOwner.policy
      (some d.reason_code) Extra.no_extra
    >> pure (ended Outcome.denied d.reason_code, p.order_id)
decided_as run replans n p s d _ = allowed run replans n p d

unfoldable pub decided :
    Run → Bool → ℕ → ActionProposal → PolicySnapshot → PolicyResult → M (Attempt × String)
unfolding emit allowed
decided run replans n p s d = decided_as run replans n p s d d.decision

unfoldable pub validated_attempt : Run → Bool → ℕ → ActionProposal → M (Attempt × String)
unfolding emit snapshot evaluate decided
validated_attempt run replans n p = do
  emit run EventType.proposal_validated p.order_id (negsuc 0) DecisionOwner.policy none
      (Extra.action p.action)
  s ← snapshot p
  d ← lift (evaluate (some p) s)
  decided run replans n p s d

unfoldable pub gated :
    Run
    → Bool
    → ℕ
    → String
    → Option ActionProposal × Option ReasonCode
    → RawProposal
    → M (Attempt × String)
unfolding emit validated_attempt raw_order_id
gated run replans n order_id (none, reason) raw = do
  emit run EventType.proposal_rejected (text_or (raw_order_id raw) order_id) (negsuc 0)
      DecisionOwner.policy (some (reason_or reason)) Extra.no_extra
  pure (ended Outcome.denied (reason_or reason), order_id)
gated run replans n order_id (some p, reason) raw = validated_attempt run replans n p

unfoldable pub attempt : Run → Bool → ℕ → String → M (Attempt × String)
unfolding propose emit raw_order_id validate gated
attempt run replans n order_id = do
  raw ← propose
  emit run EventType.proposal_created (text_or (raw_order_id raw) order_id) (negsuc 0)
      DecisionOwner.planner none (Extra.attempt n)
  gated run replans n order_id (validate raw) raw
