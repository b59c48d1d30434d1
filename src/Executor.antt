-- ===== src/Executor.antt =====
-- app/executor/executor.py: the nine checks, the commit, and the answer to a retry.
pub mod Commit
pub mod Replay
pub mod Commits
use bounded_refund_agent.Prelude.{
  ℤ, pos, negsuc, ltb_ℤ, eqb_ℤ, String, Bool, true, false, not, ◌&&◌, Option, none, some, List, [],
  ◌∷◌, ◌==◌, find, is_some, if◌then◌else◌,
}
use bounded_refund_agent.Result.{
  Result, Exception, ok, err, response_timeout, stale_resource, traverse,
}
use bounded_refund_agent.Result as R
use bounded_refund_agent.Clock.{parse_iso}
use bounded_refund_agent.Domain.{
  OrderStatus, Payment, refunded, order_transition_allowed, payment_transition_allowed,
}
use bounded_refund_agent.Schemas.{
  ActionName, same_action, ActionProposal, ExecutionPermit, ExecutionResult, ReasonCode,
  DecisionOwner, Summary,
}
use bounded_refund_agent.Db.{
  Db, fetch_order, fetch_payment_for_order, order_status_text, payment_status_text,
  parse_order_status, parse_payment_status,
}
use bounded_refund_agent.Audit.{EventType, Extra}
use bounded_refund_agent.Permits.{load_permit}
use bounded_refund_agent.Injection.{apply_pre_commit, response_lost}
use bounded_refund_agent.World.{World, Run, M, pure, lift, query, gets, now, emit, ◌>>=◌, ◌>>◌}
use Commit.{rejected, amount_of, TicketText, commit}

pub record Target : Type 0 where
  pub resource_id : String
  pub version : ℤ
  pub status : String

abbrev pub order_target : String → Db → Result (Option Target)
order_target id db = R.◌>>=◌ (fetch_order id db) (
    traverse λ o. ok (record {
      resource_id = o.order_id;
      version = o.version;
      status = order_status_text o.status;
    }))

abbrev pub payment_target : String → Db → Result (Option Target)
payment_target id db = R.◌>>=◌ (fetch_payment_for_order id db) (
    traverse λ p. ok (record {
      resource_id = p.payment_id;
      version = p.version;
      status = payment_status_text p.status;
    }))

unfoldable pub resolve_target : ActionProposal → Db → Result (Option Target)
unfolding fetch_order fetch_payment_for_order order_status_text payment_status_text same_action
resolve_target p =
    if same_action p.action ActionName.issue_refund
    then payment_target p.order_id
    else order_target p.order_id

unfoldable pub transition_allowed : ActionProposal → Target → Result Bool
unfolding parse_order_status parse_payment_status order_transition_allowed
    payment_transition_allowed same_action
transition_allowed p t =
    if same_action p.action ActionName.cancel_order
    then R.◌>>=◌ (parse_order_status t.status)
        (λ s. ok (order_transition_allowed s OrderStatus.cancelled))
    else if same_action p.action ActionName.issue_refund
    then R.◌>>=◌ (parse_payment_status t.status) (λ s. ok (payment_transition_allowed s refunded))
    else ok true

abbrev pub replay : ExecutionResult → ExecutionResult
replay r = record r { replayed = true; reason_code = some ReasonCode.idempotent_replay }

unfoldable pub stored_result : String → Db → Option ExecutionResult
stored_result key db = elim (find (λ row. row.idempotency_key == key) db.execution_records) [
  | none ↦ none
  | some row ↦ some (replay row.result)
]

-- The stored result, or else the rejection.
abbrev pub stored_or : Option ExecutionResult → ReasonCode → ExecutionPermit → ExecutionResult
stored_or none reason permit = rejected reason permit.resource_id
stored_or (some r) reason permit = r

-- Past every check that refuses: the world may move, and then the write is tried.
unfoldable pub proceed :
    Run → ExecutionPermit → ActionProposal → TicketText → Target → M ExecutionResult
unfolding transition_allowed apply_pre_commit commit
proceed run permit p ticket t = do
  allowed ← lift (transition_allowed p t)
  if allowed
      then apply_pre_commit p.action >> commit run permit p ticket
      else pure (rejected ReasonCode.transition_not_allowed permit.resource_id)

-- The checks that follow the reading of the execution record.
unfoldable pub check_stored :
    Run
    → ExecutionPermit
    → ActionProposal
    → TicketText
    → Target
    → Option ExecutionResult
    → M ExecutionResult
unfolding proceed
check_stored run permit p ticket t stored =
    if permit.used
    then pure (stored_or stored ReasonCode.permit_already_used permit)
    else if ltb_ℤ permit.max_amount_cents (amount_of p)
    then pure (rejected ReasonCode.permit_amount_exceeded permit.resource_id)
    else if not (eqb_ℤ t.version permit.expected_resource_version)
    then pure (stored_or stored ReasonCode.stale_resource_version permit)
    else elim stored [ none ↦ proceed run permit p ticket t | some r ↦ pure r ]

unfoldable pub check_expiry :
    Run → ExecutionPermit → ActionProposal → TicketText → Target → M ExecutionResult
unfolding check_stored stored_result parse_iso
check_expiry run permit p ticket t = do
  time ← now
  expires ← lift (parse_iso permit.expires_at)
  if ltb_ℤ expires time then pure (rejected ReasonCode.permit_expired permit.resource_id) else (do
    stored ← query (λ db. ok (stored_result permit.idempotency_key db))
    check_stored run permit p ticket t stored)

unfoldable pub check_target :
    Run → ExecutionPermit → ActionProposal → TicketText → Option Target → M ExecutionResult
unfolding check_expiry
check_target run permit p ticket none =
    pure (rejected ReasonCode.permit_resource_mismatch permit.resource_id)
check_target run permit p ticket (some t) =
    if t.resource_id == permit.resource_id
    then check_expiry run permit p ticket t
    else pure (rejected ReasonCode.permit_resource_mismatch permit.resource_id)

unfoldable pub run_checks :
    Run → Option ExecutionPermit → ActionProposal → TicketText → M ExecutionResult
unfolding check_target resolve_target same_action
run_checks run none p ticket = pure (rejected ReasonCode.permit_missing "")
run_checks run (some permit) p ticket =
    if same_action permit.action p.action
    then (do target ← query (resolve_target p); check_target run permit p ticket target)
    else pure (rejected ReasonCode.permit_action_mismatch permit.resource_id)

-- `permit.resource_id if permit else proposal.order_id`, `permit.permit_id if permit else ""` and
-- `target.version if target else -1`
abbrev event_resource : Option ExecutionPermit → ActionProposal → String
event_resource none p = p.order_id
event_resource (some permit) p = permit.resource_id

abbrev event_permit : Option ExecutionPermit → String
event_permit none = ""
event_permit (some permit) = permit.permit_id

abbrev target_version : Option Target → ℤ
target_version none = negsuc 0
target_version (some t) = t.version

unfoldable pub emit_event :
    Run
    → EventType
    → ActionProposal
    → Option ExecutionPermit
    → Option ReasonCode
    → Extra
    → M (Unit {0})
unfolding resolve_target emit
emit_event run type p permit reason extra = do
  watched ← gets (λ w. is_some w.audit)
  if watched
      then (do
        target ← query (resolve_target p)
        emit run type (event_resource permit p) (target_version target) DecisionOwner.executor
            reason extra)
      else pure tt

abbrev permit_extra : Option ExecutionPermit → Extra
permit_extra permit = Extra.permit_id (event_permit permit)

unfoldable pub report_committed :
    Run → ActionProposal → Option ExecutionPermit → ExecutionResult → M ExecutionResult
unfolding emit_event response_lost
report_committed run p permit r = do
  emit_event run EventType.mutation_committed p permit r.reason_code (permit_extra permit)
  lost ← response_lost p.action
  if lost then lift (err response_timeout) else pure r

-- The event that tells how the call ended, and the response that may be lost after a commit.
unfoldable pub report :
    Run → ActionProposal → Option ExecutionPermit → ExecutionResult → M ExecutionResult
unfolding report_committed emit_event
report run p permit r =
    if r.committed
    then (if r.replayed
        then emit_event run EventType.mutation_replayed p permit r.reason_code
            (Extra.replayed_permit (event_permit permit) r.created_id)
          >> pure r
        else report_committed run p permit r)
    else emit_event run EventType.mutation_rejected p permit r.reason_code (permit_extra permit)
      >> pure r

unfoldable pub execute : Run → Option String → ActionProposal → TicketText → M ExecutionResult
unfolding load_permit emit_event run_checks report
execute run permit_id p ticket = do
  permit ← query (λ db. ok (load_permit permit_id db))
  emit_event run EventType.mutation_attempted p permit none (permit_extra permit)
  r ← run_checks run permit p ticket
  report run p permit r
