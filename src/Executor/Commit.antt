-- ===== src/Executor/Commit.antt =====
-- `_commit` of app/executor/executor.py: the one transaction that changes the world.
use bounded_refund_agent.Prelude.{ℤ, pos, String, Bool, true, false, Option, none, some, ◌==◌}
use bounded_refund_agent.Result.{Exception, stale_resource}
use bounded_refund_agent.Clock.{IsoText, to_iso}
use bounded_refund_agent.Schemas.{
  ActionName, ActionProposal, ExecutionPermit, ExecutionResult, ReasonCode, Summary, reason_text,
}
use bounded_refund_agent.Db.{PermitRow}
use bounded_refund_agent.Tx.{Tx, insert_record, update_permits}
use bounded_refund_agent.Tx as T
use bounded_refund_agent.WriteTools
use bounded_refund_agent.WriteTools.{
  WriteAuthorization, WriteOutcome, new_authorization, executor_token,
}
use bounded_refund_agent.World.{
  ToolCall, Run, M, pure, lift, modify, transaction, catch, now, record_call, ◌>>=◌, ◌>>◌,
}

-- `_rejected`
abbrev pub rejected : ReasonCode → String → ExecutionResult
rejected reason resource = record {
  committed = false;
  action = none;
  resource_id = resource;
  amount_cents = pos 0;
  reason_code = some reason;
  replayed = false;
  created_id = "";
}

-- `proposal.amount_cents or 0`
unfoldable pub amount_of : ActionProposal → ℤ
amount_of p = elim p.amount_cents [ none ↦ pos 0 | some n ↦ n ]

-- `ticket_reason_code` and `ticket_summary`; by default they are empty.
pub record TicketText : Type 0 where
  pub reason : Option ReasonCode
  pub summary : Option Summary

abbrev pub no_ticket_text : TicketText
no_ticket_text = record { reason = none; summary = none }

-- `ticket_reason_code or "ticket_requested"` and `ticket_summary or proposal.reason`
abbrev pub reason_or : Option ReasonCode → ReasonCode
reason_or none = ReasonCode.ticket_requested
reason_or (some r) = r

abbrev pub summary_or : Option Summary → ActionProposal → Summary
summary_or none p = reason_text p.reason
summary_or (some s) p = s

unfoldable pub call_tool :
    ActionName
    → WriteAuthorization
    → ExecutionPermit
    → ActionProposal
    → TicketText
    → IsoText
    → Tx WriteOutcome
unfolding WriteTools.cancel_order WriteTools.issue_refund WriteTools.create_support_ticket amount_of
call_tool ActionName.cancel_order auth permit p ticket time =
    WriteTools.cancel_order (some auth) p.order_id permit.expected_resource_version time
call_tool ActionName.issue_refund auth permit p ticket time =
    WriteTools.issue_refund (some auth) permit.resource_id p.order_id (amount_of p)
      permit.expected_resource_version time
call_tool ActionName.create_support_ticket auth permit p ticket time =
    WriteTools.create_support_ticket (some auth) p.order_id (reason_or ticket.reason)
      (summary_or ticket.summary p) time

unfoldable pub result_of : WriteOutcome → ExecutionResult
result_of o = record {
  committed = true;
  action = some o.action;
  resource_id = o.resource_id;
  amount_cents = o.amount_cents;
  reason_code = none;
  replayed = false;
  created_id = o.created_id;
}

abbrev pub mark_used : PermitRow → PermitRow
mark_used row = record row { permit = record (row.permit) { used = true } }

-- The execution record and the consumed permit, in the same transaction as the write.
unfoldable pub finish : Run → ExecutionPermit → IsoText → WriteOutcome → Tx ExecutionResult
unfolding insert_record result_of
finish run permit time o =
    T.◌>>◌
      (insert_record (record {
        idempotency_key = permit.idempotency_key;
        run_id = run.run_id;
        action = o.action;
        resource_id = o.resource_id;
        amount_cents = o.amount_cents;
        result = result_of o;
        created_at = time;
      }))
      (T.◌>>◌ (update_permits (λ row. row.permit_id == permit.permit_id) mark_used)
        (T.pure (result_of o)))

unfoldable pub write :
    Run
    → WriteAuthorization
    → ExecutionPermit
    → ActionProposal
    → TicketText
    → IsoText
    → Tx ExecutionResult
unfolding call_tool finish
write run auth permit p ticket time =
    T.◌>>=◌ (call_tool p.action auth permit p ticket time) (finish run permit time)

abbrev pub authorization : Run → ExecutionPermit → WriteAuthorization
authorization run permit = record {
  permit_id = permit.permit_id;
  action = permit.action;
  resource_id = permit.resource_id;
  max_amount_cents = permit.max_amount_cents;
  run_id = run.run_id;
}

-- `except StaleResource`
unfoldable pub is_stale : Exception → Bool
is_stale stale_resource = true
is_stale _ = false

unfoldable pub commit : Run → ExecutionPermit → ActionProposal → TicketText → M ExecutionResult
unfolding new_authorization write now to_iso is_stale record_call amount_of
commit run permit p ticket = do
  auth ← lift (new_authorization executor_token (authorization run permit))
  time ← now
  modify (record_call (ToolCall.write p.action p.order_id (amount_of p)))
  catch (transaction (write run auth permit p ticket (to_iso time))) is_stale
      (pure (rejected ReasonCode.stale_resource_version permit.resource_id))
