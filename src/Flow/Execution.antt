-- ===== src/Flow/Execution.antt =====
-- `issue_permit` of app/executor/permits.py and `execute` of app/executor/executor.py: what they let grow.
use bounded_refund_agent.Prelude.{
  ◌+◌, ℤ, String, not, ltb_ℤ, eqb_ℤ, ◌==◌, Option, none, some, arith,
}
use bounded_refund_agent.Schemas.{
  ActionName, ActionProposal, ExecutionPermit, ExecutionResult, ReasonCode, same_action,
}
use bounded_refund_agent.Audit.{EventType, Extra}
use bounded_refund_agent.Permits.{issue_permit}
use bounded_refund_agent.Executor.{
  Target, proceed, check_stored, check_expiry, check_target, run_checks, emit_event, report,
  report_committed, execute,
}
use bounded_refund_agent.Executor.Commit.{TicketText, amount_of, commit}
use bounded_refund_agent.World.{World, Run, pure}
use bounded_refund_agent.Flow.{
  Grown-refl, Advances, Flows, Flows-pure, Flows-lift, Flows-query, Flows-gets, Flows-if,
  Flows-transaction, Flows-catch, Flows-modify, Flows-bind,
}
use bounded_refund_agent.Flow.Calls.{
  Flows-now, Flows-emit, Flows-record_call, apply_pre_commit-Flows, response_lost-Flows,
}

sequence-Advances : (w : World) → Advances w (record w { sequence = w.sequence + 1 })
sequence-Advances w = record {
  audit = Grown-refl w.audit;
  recorder = Grown-refl w.recorder;
  sequence = omega arith;
  proposals = omega arith;
}

module _ (run : Run) where
  pub issue_permit-Flows :
      (a : ActionName) (resource : String) (version amount : ℤ)
      → Flows (issue_permit run a resource version amount)
  unfolding issue_permit
  issue_permit-Flows a resource version amount = Flows-bind (Flows-modify _ sequence-Advances) λ _.
      Flows-bind (Flows-gets _) λ sequence.
        Flows-bind Flows-now λ issued_at. Flows-bind (Flows-transaction _) λ _. Flows-pure _

  emit_event-Flows :
      (type : EventType) (p : ActionProposal) (permit : Option ExecutionPermit)
      (reason : Option ReasonCode) (extra : Extra)
      → Flows (emit_event run type p permit reason extra)
  unfolding emit_event
  emit_event-Flows type p permit reason extra = Flows-bind (Flows-gets _) λ watched.
      Flows-if watched _ _ (Flows-bind (Flows-query _) λ target. Flows-emit run type _ _ _ _ _)
        (Flows-pure tt)

  commit-Flows :
      (permit : ExecutionPermit) (p : ActionProposal) (ticket : TicketText)
      → Flows (commit run permit p ticket)
  unfolding commit
  commit-Flows permit p ticket = Flows-bind (Flows-lift _) λ auth. Flows-bind Flows-now λ time.
      Flows-bind (Flows-record_call _) λ _. Flows-catch _ _ _ (Flows-transaction _) (Flows-pure _)

  proceed-Flows :
      (permit : ExecutionPermit) (p : ActionProposal) (ticket : TicketText) (t : Target)
      → Flows (proceed run permit p ticket t)
  unfolding proceed
  proceed-Flows permit p ticket t = Flows-bind (Flows-lift _) λ allowed.
      Flows-if allowed _ _
        (Flows-bind (apply_pre_commit-Flows p.action) λ _. commit-Flows permit p ticket)
        (Flows-pure _)

  check_stored-Flows :
      (permit : ExecutionPermit) (p : ActionProposal) (ticket : TicketText) (t : Target)
      (stored : Option ExecutionResult)
      → Flows (check_stored run permit p ticket t stored)
  unfolding check_stored
  check_stored-Flows permit p ticket t stored = Flows-if permit.used _ _ (Flows-pure _) (
      Flows-if (ltb_ℤ permit.max_amount_cents (amount_of p)) _ _ (Flows-pure _) (
        Flows-if (not (eqb_ℤ t.version permit.expected_resource_version)) _ _ (Flows-pure _)
          (stored_or_proceed stored)))
    where
      stored_or_proceed :
          (found : Option ExecutionResult)
          → Flows (elim found [ none ↦ proceed run permit p ticket t | some r ↦ pure r ])
      stored_or_proceed none = proceed-Flows permit p ticket t
      stored_or_proceed (some r) = Flows-pure r

  check_target-Flows :
      (permit : ExecutionPermit) (p : ActionProposal) (ticket : TicketText) (target : Option Target)
      → Flows (check_target run permit p ticket target)
  unfolding check_target check_expiry
  check_target-Flows permit p ticket none = Flows-pure _
  check_target-Flows permit p ticket (some t) =
      Flows-if (t.resource_id == permit.resource_id) _ _
        (Flows-bind Flows-now λ time. Flows-bind (Flows-lift _) λ expires.
          Flows-if (ltb_ℤ expires time) _ _ (Flows-pure _)
            (Flows-bind (Flows-query _) λ stored. check_stored-Flows permit p ticket t stored))
        (Flows-pure _)

  run_checks-Flows :
      (permit : Option ExecutionPermit) (p : ActionProposal) (ticket : TicketText)
      → Flows (run_checks run permit p ticket)
  unfolding run_checks
  run_checks-Flows none p ticket = Flows-pure _
  run_checks-Flows (some permit) p ticket =
      Flows-if (same_action permit.action p.action) _ _
        (Flows-bind (Flows-query _) λ target. check_target-Flows permit p ticket target)
        (Flows-pure _)

  report-Flows :
      (p : ActionProposal) (permit : Option ExecutionPermit) (r : ExecutionResult)
      → Flows (report run p permit r)
  unfolding report report_committed
  report-Flows p permit r =
      Flows-if r.committed _ _
        (Flows-if r.replayed _ _ (Flows-bind (emit_event-Flows _ p permit _ _) λ _. Flows-pure r) (
          Flows-bind (emit_event-Flows _ p permit _ _) λ _.
            Flows-bind (response_lost-Flows p.action)
              λ lost. Flows-if lost _ _ (Flows-lift _) (Flows-pure r)))
        (Flows-bind (emit_event-Flows _ p permit _ _) λ _. Flows-pure r)

  pub execute-Flows :
      (id : Option String) (p : ActionProposal) (ticket : TicketText)
      → Flows (execute run id p ticket)
  unfolding execute
  execute-Flows id p ticket = Flows-bind (Flows-query _) λ permit.
      Flows-bind (emit_event-Flows _ p permit _ _)
        λ _. Flows-bind (run_checks-Flows permit p ticket) λ r. report-Flows p permit r
