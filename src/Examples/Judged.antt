-- ===== src/Examples/Judged.antt =====
-- The theorems on scenarios, their evaluation and the live planner at concrete inputs.
use bounded_refund_agent.Prelude
use bounded_refund_agent.Prelude.{
  ℕ, ◌+◌, ◌≤◌, ℤ, pos, ◌≤ℤ◌, String, ◌≡◌, refl, ◌↔◌, Bool, true, false, Option, none, some, List,
  [], ◌∷◌, arith, All, count, length,
}
use bounded_refund_agent.Result.{ok}
use bounded_refund_agent.Schemas.{completed, ReasonCode}
use bounded_refund_agent.Schemas.Gate.{mapping, validate}
use bounded_refund_agent.Schemas.Bounds.{IsInBounds}
use bounded_refund_agent.Db.{Db, parse_payment_status}
use bounded_refund_agent.Ledger.Book.{book, ◌⇒*◌, run_all-refines}
use bounded_refund_agent.Ledger.Backing.{IsBacked}
use bounded_refund_agent.Ledger.Growth.{IsPaid}
use bounded_refund_agent.Ledger.Mirror.{IsMirrored}
use bounded_refund_agent.Safety.Rejected.{IsRejected, run_all-rejected_unchanged}
use bounded_refund_agent.Clock.{to_iso, parse_iso}
use bounded_refund_agent.Schemas.{ExecutionResult}
use bounded_refund_agent.Permits.{load_permit}
use bounded_refund_agent.Executor.{Target, execute, resolve_target, transition_allowed}
use bounded_refund_agent.Executor.Commit.{amount_of, authorization, no_ticket_text, write}
use bounded_refund_agent.Executor.Commits.{IsAccepted, committed_at, execute-commits}
use bounded_refund_agent.Flow.Fuel.{chain-settles}
use bounded_refund_agent.Runner.{run_all, chain}
use bounded_refund_agent.Runner.Report.{RunReport}
use bounded_refund_agent.Tx.{update_where}
use bounded_refund_agent.Failures.{new_injector}
use bounded_refund_agent.Policy.{evaluate_cancel, decide_cancel}
use bounded_refund_agent.Seed.{SeededWorld, order_to_shipment}
use bounded_refund_agent.Seed.Rows.{seed_world}
use bounded_refund_agent.Seed.Payments.{IsPayable, seed_world-IsPayable}
use bounded_refund_agent.Scenario.{no_rows, run_of, run_scenario}
use bounded_refund_agent.Scenario.Sound.{run_scenario-IsSound}
use bounded_refund_agent.Evals.Observe.{observe}
use bounded_refund_agent.Evals.Observe.Agrees.{Agrees}
use bounded_refund_agent.Evals.Judge.{check_safety}
use bounded_refund_agent.Evals.Judge.Exact.{IsSafeRun, check_safety-iff-IsSafeRun}
use bounded_refund_agent.Evals.Bypass.{permit_not_consumed, count_policy_bypass}
use bounded_refund_agent.Evals.Bypass.Cover.{
  IsCovered, count_policy_bypass-IsCovered, unused_before_counts,
}
use bounded_refund_agent.Evals.Criteria.{GateRow, release_criteria, verdict}
use bounded_refund_agent.Evals.Criteria.Gates.{IsReleasable, verdict-iff-IsReleasable}
use bounded_refund_agent.Evals.Score.Aggregate.{gates, evaluate_release}
use bounded_refund_agent.Evals.Score.Reported.{run_scenario-Agrees}
use bounded_refund_agent.Cli.{Line, exits}
use bounded_refund_agent.Cli.Commands.{cmd_eval}
use bounded_refund_agent.Cli.Release.{IsReleased, cmd_eval-IsReleased}
use bounded_refund_agent.LivePlanner.{Libraries, Response, absent, model_dump, object, propose_live}
use bounded_refund_agent.LivePlanner.Gate.{Says, written, live_proposal_iff, propose_live_iff}
use bounded_refund_agent.World
use bounded_refund_agent.World.{catch, transaction}
use bounded_refund_agent.Examples.{
  the_run, the_db, options, refund_world, rejected_world, open_permit, open_world, payment_target,
  refund_proposal,
}
use bounded_refund_agent.Examples.Specs.{
  still, one_order_world, cancel_spec, no_refund, idle_specs, idle_manifest, cancel_mutation,
  cancel_permit, plain_libraries, live_context, live_planner, live_refund, read_refund,
}

run_all-refines_example : book refund_world.db ⇒* book (run_all the_run options refund_world).1.db
run_all-refines_example = run_all-refines the_run options refund_world

seeded_order : (r : SeededWorld × Db) × (seed_world still one_order_world no_rows ≡ ok (r.0, r.1))
unfolding seed_world order_to_shipment
seeded_order = (_, refl)

seed_world-IsPayable_example : All (IsPayable seeded_order.0.1) seeded_order.0.0.order_ids
seed_world-IsPayable_example =
    seed_world-IsPayable still one_order_world no_rows seeded_order.0.1 seeded_order.0.0
      seeded_order.1

run_scenario-IsSound_example :
    IsBacked (run_scenario still cancel_spec no_rows).1
    × IsPaid (run_scenario still cancel_spec no_rows).1
    × IsMirrored (run_scenario still cancel_spec no_rows).1
run_scenario-IsSound_example = run_scenario-IsSound still cancel_spec

check_safety-iff-IsSafeRun_example :
    (check_safety no_refund (observe no_rows "run_S1" "ord1") ≡ [])
    ↔ IsSafeRun no_refund (observe no_rows "run_S1" "ord1")
check_safety-iff-IsSafeRun_example =
    check_safety-iff-IsSafeRun no_refund (observe no_rows "run_S1" "ord1")

no_bypass : count_policy_bypass (cancel_permit "prm1" true ∷ []) (cancel_mutation ∷ []) ≡ []
unfolding count_policy_bypass
no_bypass = refl

count_policy_bypass-IsCovered_example :
    IsCovered (cancel_permit "prm1" true ∷ []) (cancel_mutation ∷ [])
count_policy_bypass-IsCovered_example =
    count_policy_bypass-IsCovered (cancel_permit "prm1" true ∷ []) (cancel_mutation ∷ []) no_bypass

unused_before_counts_example :
    (count_policy_bypass
        (cancel_permit "prm1" false ∷ cancel_permit "prm2" true ∷ [])
        (cancel_mutation ∷ [])
      ≡ permit_not_consumed "prm1" cancel_mutation ∷ [])
    × IsCovered (cancel_permit "prm1" false ∷ cancel_permit "prm2" true ∷ []) (cancel_mutation ∷ [])
unused_before_counts_example =
    unused_before_counts cancel_mutation (cancel_permit "prm1" false) (cancel_permit "prm2" true)
      refl refl refl (omega arith)
      (record { action = refl; resource = refl; consumed = refl; within = omega arith })

verdict-iff-IsReleasable_example :
    ((rows : List GateRow) × (verdict release_criteria (gates []) ≡ ok (true, rows)))
    ↔ IsReleasable release_criteria (gates [])
verdict-iff-IsReleasable_example = verdict-iff-IsReleasable release_criteria (gates [])

live_proposal_iff_example :
    (validate (mapping (model_dump plain_libraries live_refund)) ≡ (some read_refund, none))
    ↔ (Says live_refund read_refund × IsInBounds read_refund)
live_proposal_iff_example = live_proposal_iff plain_libraries live_refund read_refund

-- An answer without a parsed output, with the proposal in its second block.
abbrev written_libraries : Libraries
written_libraries = record plain_libraries {
  json_loads = λ s. object (model_dump plain_libraries live_refund);
}

abbrev written_answer : Response
written_answer = record {
  parsed_output = absent;
  content = record { kind = "thinking"; text = "" } ∷ record { kind = "text"; text = "{...}" } ∷ [];
}

propose_live_iff_example :
    (validate (propose_live written_libraries (λ request. written_answer) live_planner live_context)
      ≡ (some read_refund, none))
    ↔ (Says live_refund read_refund × IsInBounds read_refund)
unfolding model_dump
propose_live_iff_example =
    propose_live_iff written_libraries (λ request. written_answer) live_planner live_context
      live_refund read_refund
      (written (record { kind = "thinking"; text = "" } ∷ []) []
        (record { kind = "text"; text = "{...}" }) refl refl (refl, tt) refl refl)

reported_cancel : (r : RunReport) × ((run_scenario still cancel_spec no_rows).0 ≡ ok r)
unfolding run_scenario order_to_shipment World.◌>>=◌ catch new_injector evaluate_cancel
    decide_cancel transaction Prelude.◌+ℤ◌ Prelude.◌*ℤ◌ update_where
reported_cancel = (_, refl)

run_scenario-Agrees_example :
    Agrees
      (observe (run_scenario still cancel_spec no_rows).1 (run_of cancel_spec).run_id "ord1")
      reported_cancel.0
run_scenario-Agrees_example =
    run_scenario-Agrees still cancel_spec "ord1" reported_cancel.0 reported_cancel.1

passed_idle : (lines : List Line) × (cmd_eval still idle_specs idle_manifest ≡ (exits 0, lines))
unfolding cmd_eval evaluate_release World.◌>>=◌
passed_idle = (_, refl)

cmd_eval-IsReleased_example : IsReleased still idle_manifest passed_idle.0
cmd_eval-IsReleased_example =
    cmd_eval-IsReleased still idle_specs idle_manifest passed_idle.0 passed_idle.1

one_proposal_left : length refund_world.proposals ≤ 1
one_proposal_left = omega arith

chain-settles_example :
    chain the_run options 1 completed ReasonCode.cancellable_before_shipment "ord1" refund_world
    ≡ chain the_run options
        (1 + 7)
        completed
        ReasonCode.cancellable_before_shipment
        "ord1"
        refund_world
chain-settles_example =
    chain-settles the_run options 1 7 completed ReasonCode.cancellable_before_shipment "ord1"
      refund_world one_proposal_left

wire-IsRejected : IsRejected rejected_world
unfolding validate
wire-IsRejected = refl

run_all-rejected_unchanged_example : (run_all the_run options rejected_world).1.db ≡ the_db
run_all-rejected_unchanged_example =
    run_all-rejected_unchanged the_run options rejected_world wire-IsRejected refl

-- What the transaction of the refund returns and leaves.
refund_write :
    (x : ExecutionResult × Db) × (write the_run
        (authorization the_run open_permit)
        open_permit
        (refund_proposal (pos 100))
        no_ticket_text
        (to_iso (committed_at open_world))
        open_world.db
      ≡ ok (x.0, x.1))
    × (x.0.committed ≡ true)
    × (x.0.replayed ≡ false)
    × ((target : Option Target) × (resolve_target (refund_proposal (pos 100)) x.1 ≡ ok target))
unfolding write update_where resolve_target parse_payment_status
refund_write = (_, refl, refl, refl, (_, refl))

refund-IsAccepted :
    IsAccepted the_run
      (some "prm_run0_001")
      (refund_proposal (pos 100))
      no_ticket_text
      open_world
      open_permit
      payment_target
      refund_write.0.0
      refund_write.0.1
unfolding load_permit resolve_target parse_iso parse_payment_status transition_allowed Prelude.◌+ℤ◌
    amount_of
refund-IsAccepted = record {
  loaded = refl;
  same = refl;
  found = refl;
  same_resource = refl;
  expires = pos 900000000;
  expiry = refl;
  in_force = ground arith;
  unused = refl;
  within = omega arith;
  version = refl;
  fresh = refl;
  allowed = refl;
  quiet = refl;
  writes = refund_write.1;
  committed = refund_write.2;
  replayed = refund_write.3;
  target = refund_write.4.0;
  found_after = refund_write.4.1;
}

execute-commits_example :
    ((execute the_run (some "prm_run0_001") (refund_proposal (pos 100)) no_ticket_text open_world).0
      ≡ ok refund_write.0.0)
    × ((execute the_run
          (some "prm_run0_001")
          (refund_proposal (pos 100))
          no_ticket_text
          open_world).1.db
        ≡ refund_write.0.1)
execute-commits_example =
    execute-commits the_run (some "prm_run0_001") (refund_proposal (pos 100)) no_ticket_text
      open_world open_permit payment_target refund_write.0.0 refund_write.0.1 refund-IsAccepted
