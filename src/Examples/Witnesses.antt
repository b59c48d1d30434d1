-- ===== src/Examples/Witnesses.antt =====
-- Each theorem at a concrete input.
use bounded_refund_agent.Prelude.{
  if◌then◌else◌, ◌≡◌, ◌↔◌, ◌≢◌, refl, inl, inr, ℤ, pos, true, false, ltb, none, some, [], arith,
}
use bounded_refund_agent.Result.{ok, err, assertion_error, permit_required, read_unavailable}
use bounded_refund_agent.Clock.{aware}
use bounded_refund_agent.Domain.{
  Order, OrderStatus, Payment, Shipment, RefundPolicy, order_transition_allowed,
}
use bounded_refund_agent.Domain.Transitions.{
  ◌⟶*◌, gone_never_cancelled, is_gone, ◌⟶◌, order_transition_allowed-iff-edge,
}
use bounded_refund_agent.Schemas.{Decision, ActionName, ReadTool, ReasonCode, Summary}
use bounded_refund_agent.Schemas.Gate.{mapping, validate}
use bounded_refund_agent.Schemas.Bounds.{IsInBounds, validate-IsInBounds}
use bounded_refund_agent.Policy.{
  evaluate, evaluate_refund, decide_refund, decide_asked, decide_amount, decide_window,
}
use bounded_refund_agent.Policy.Refund.{
  IsRefundable, allowed_refund, evaluate-allow-iff-IsRefundable,
}
use bounded_refund_agent.Policy.Cancel.{
  IsCancellable, allowed_cancel, evaluate-allow-iff-IsCancellable,
}
use bounded_refund_agent.Policy.Ladder.{evaluate-ne-assertion_error, zero_limit_allows}
use bounded_refund_agent.Failures.{new_injector, read_should_fail, should_timeout_after_commit}
use bounded_refund_agent.Failures.Budget.{after_reads, after_commits, new_injector-budgets}
use bounded_refund_agent.WriteTools
use bounded_refund_agent.WriteTools.Guard.{authorizes, unauthorized_raises}
use bounded_refund_agent.Permits.{load_permit}
use bounded_refund_agent.Executor.{execute, replay, resolve_target}
use bounded_refund_agent.Executor.Replay.{IsReplay, execute-replays}
use bounded_refund_agent.Clock.{parse_iso}
use bounded_refund_agent.Executor.Commit.{no_ticket_text}
use bounded_refund_agent.Safety.Refusals.{is_refused, execute-refused_unchanged}
use bounded_refund_agent.Ledger.Backing.{IsBacked, run_all-IsBacked}
use bounded_refund_agent.Ledger.Growth.{IsPaid, run_all-IsPaid}
use bounded_refund_agent.Ledger.Mirror.{IsMirrored, run_all-IsMirrored}
use bounded_refund_agent.Runner.{run_all}
use bounded_refund_agent.Runner.Report.{RunReport}
use bounded_refund_agent.Ledger.Totals.{logged_total}
use bounded_refund_agent.Ledger.Reported.{run_all-IsTrue}
use bounded_refund_agent.Prelude
use bounded_refund_agent.World
use bounded_refund_agent.World.{catch, transaction}
use bounded_refund_agent.Tx.{update_where}
use bounded_refund_agent.Db.{parse_payment_status, parse_shipment_status, fetch_order}
use bounded_refund_agent.ReadTools.{call}
use bounded_refund_agent.ReadTools.Retries.{call-injected}
use bounded_refund_agent.Examples.{
  settled_world, stored_row, payment_target, consumed_permit, flaky_world, the_run, options,
  refund_world, the_db, the_order, the_payment, the_policy, zero_limit_policy, cancel_proposal,
  refund_proposal, full_snapshot, empty_snapshot, refund_mapping, one_timeout,
}

run_all-IsBacked_example : IsBacked (run_all the_run options refund_world).1.db
run_all-IsBacked_example = run_all-IsBacked the_run options refund_world tt

run_all-IsPaid_example : IsPaid (run_all the_run options refund_world).1.db
run_all-IsPaid_example = run_all-IsPaid the_run options refund_world (omega arith)

nothing_logged : IsMirrored the_db
nothing_logged = record { records = refl; refunds = refl; tickets = refl }

run_all-IsMirrored_example : IsMirrored (run_all the_run options refund_world).1.db
run_all-IsMirrored_example = run_all-IsMirrored the_run options refund_world nothing_logged

consumed_refused :
    is_refused (load_permit (some "prm_run0_001") the_db) (refund_proposal (pos 50)) ≡ true
unfolding is_refused load_permit
consumed_refused = refl

execute-refused_unchanged_example :
    (execute the_run
      (some "prm_run0_001")
      (refund_proposal (pos 50))
      no_ticket_text
      refund_world).1.db
    ≡ the_db
execute-refused_unchanged_example =
    execute-refused_unchanged the_run (some "prm_run0_001") (refund_proposal (pos 50))
      no_ticket_text refund_world consumed_refused

evaluate-ne-assertion_error_example :
    evaluate (some cancel_proposal) empty_snapshot ≢ err assertion_error
evaluate-ne-assertion_error_example =
    evaluate-ne-assertion_error (some cancel_proposal) empty_snapshot

zero_limit_allows_example :
    evaluate (some (refund_proposal (pos 3000))) (full_snapshot zero_limit_policy)
    ≡ ok (allowed_refund the_payment (pos 3000))
zero_limit_allows_example =
    zero_limit_allows (refund_proposal (pos 3000)) (full_snapshot zero_limit_policy) the_order
      the_payment zero_limit_policy (pos 3000) refl refl refl refl refl refl refl (ground arith)
      (ground arith) refl refl (ground arith)

refund_validated : validate (mapping refund_mapping) ≡ (some (refund_proposal (pos 3000)), none)
unfolding validate
refund_validated = refl

validate-IsInBounds_example : IsInBounds (refund_proposal (pos 3000))
validate-IsInBounds_example =
    validate-IsInBounds refund_mapping (refund_proposal (pos 3000)) none refund_validated

unauthorized_raises_example :
    (authorizes none ActionName.cancel_order "ord1" ≡ false
      → WriteTools.cancel_order none "ord1" (pos 1) (aware (pos 0)) the_db ≡ err permit_required)
    × (authorizes none ActionName.issue_refund "ord1" ≡ false
        → WriteTools.issue_refund none "ord1" "ord1" (pos 5) (pos 1) (aware (pos 0)) the_db
          ≡ err permit_required)
    × (authorizes none ActionName.create_support_ticket "ord1" ≡ false
        → WriteTools.create_support_ticket none "ord1" ReasonCode.ticket_requested
            (Summary.reason_text "help")
            (aware (pos 0))
            the_db
          ≡ err permit_required)
unauthorized_raises_example =
    unauthorized_raises none "ord1" "ord1" (pos 1) (pos 5) ReasonCode.ticket_requested
      (Summary.reason_text "help") (aware (pos 0)) the_db

order_transition_allowed-iff-edge_example :
    (order_transition_allowed OrderStatus.paid OrderStatus.cancelled ≡ true)
    ↔ (OrderStatus.paid ⟶ OrderStatus.cancelled)
order_transition_allowed-iff-edge_example =
    order_transition_allowed-iff-edge OrderStatus.paid OrderStatus.cancelled

shipped_is_gone : is_gone OrderStatus.shipped ≡ true
unfolding is_gone
shipped_is_gone = refl

gone_never_cancelled_example : ¬ (OrderStatus.shipped ⟶* OrderStatus.cancelled)
gone_never_cancelled_example = gone_never_cancelled OrderStatus.shipped shipped_is_gone

refund_run : (r : RunReport) × ((run_all the_run options refund_world).0 ≡ ok r)
unfolding run_all World.◌>>=◌ catch transaction evaluate_refund decide_refund decide_asked
    decide_amount decide_window Prelude.◌+ℤ◌ Prelude.◌*ℤ◌ update_where parse_shipment_status
refund_run = (_, refl)

run_all-IsTrue_example :
    (refund_run.0).refund_amount_cents
    ≡ logged_total "run1" (run_all the_run options refund_world).1.db.mutation_log
run_all-IsTrue_example =
    run_all-IsTrue the_run options refund_world refund_run.0 nothing_logged refund_run.1

call-injected_example :
    (call ReadTool.get_order "ord1" (fetch_order "ord1") flaky_world).0
    ≡ (if ltb 1 1 then err read_unavailable else fetch_order "ord1" the_db)
unfolding new_injector
call-injected_example =
    call-injected ReadTool.get_order "ord1" (fetch_order "ord1") flaky_world
      (new_injector one_timeout) refl

shown_again :
    IsReplay
      (some "prm_run0_001")
      (refund_proposal (pos 100))
      settled_world
      consumed_permit
      payment_target
      (pos 900000000)
      stored_row
unfolding load_permit resolve_target parse_iso parse_payment_status Prelude.◌+ℤ◌
shown_again = record {
  loaded = refl;
  consumed = refl;
  same = refl;
  found = refl;
  same_resource = refl;
  expiry = refl;
  in_force = ground arith;
  stored = refl;
}

execute-replays_example :
    ((execute the_run
        (some "prm_run0_001")
        (refund_proposal (pos 100))
        no_ticket_text
        settled_world).0
      ≡ ok (replay stored_row.result))
    × ((execute the_run
          (some "prm_run0_001")
          (refund_proposal (pos 100))
          no_ticket_text
          settled_world).1.db
        ≡ settled_world.db)
execute-replays_example =
    execute-replays the_run (some "prm_run0_001") (refund_proposal (pos 100)) no_ticket_text
      settled_world consumed_permit payment_target (pos 900000000) stored_row shown_again

evaluate-allow-iff-IsRefundable_example :
    ((evaluate (some (refund_proposal (pos 3000))) (full_snapshot the_policy)
        ≡ ok (allowed_refund the_payment (pos 3000)))
      × ((allowed_refund the_payment (pos 3000)).decision ≡ Decision.allow))
    ↔ ((o : Order) × (pay : Payment) × (pol : RefundPolicy) × (amount : ℤ) × IsRefundable
          (refund_proposal (pos 3000))
          (full_snapshot the_policy)
          o
          pay
          pol
          amount
        × (allowed_refund the_payment (pos 3000) ≡ allowed_refund pay amount))
evaluate-allow-iff-IsRefundable_example =
    evaluate-allow-iff-IsRefundable (refund_proposal (pos 3000)) (full_snapshot the_policy)
      (allowed_refund the_payment (pos 3000)) refl

evaluate-allow-iff-IsCancellable_example :
    ((evaluate (some cancel_proposal) (full_snapshot the_policy) ≡ ok (allowed_cancel the_order))
      × ((allowed_cancel the_order).decision ≡ Decision.allow))
    ↔ ((o : Order) × (sh : Shipment) × IsCancellable (full_snapshot the_policy) o sh
        × (allowed_cancel the_order ≡ allowed_cancel o))
evaluate-allow-iff-IsCancellable_example =
    evaluate-allow-iff-IsCancellable cancel_proposal (full_snapshot the_policy)
      (allowed_cancel the_order) refl

new_injector-budgets_example :
    ((read_should_fail ReadTool.get_payment
        (after_reads ReadTool.get_payment 1 (new_injector one_timeout))).0
      ≡ ltb 1 1)
    × ((should_timeout_after_commit ActionName.issue_refund
          (after_commits ActionName.issue_refund 1 (new_injector one_timeout))).0
        ≡ ltb 1 1)
new_injector-budgets_example =
    new_injector-budgets one_timeout ReadTool.get_payment ActionName.issue_refund 1
