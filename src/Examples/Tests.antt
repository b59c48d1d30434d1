-- ===== src/Examples/Tests.antt =====
-- Runs of the model on the small world.
use bounded_refund_agent.Schemas.{completed}
use bounded_refund_agent.Seed.{padded, order_to_shipment}
use bounded_refund_agent.Scenario.{no_rows, run_scenario}
use bounded_refund_agent.Evals.Observe.{observe, derive_outcome}
use bounded_refund_agent.Evals.Score.Rate.{rate}
use bounded_refund_agent.Examples.Specs.{still, cancel_spec}
use bounded_refund_agent.Prelude
use bounded_refund_agent.Prelude.{◌≡◌, refl, some, map, length, pos, ◌∷◌, []}
use bounded_refund_agent.Db.{parse_shipment_status, OrderRow, ShipmentRow}
use bounded_refund_agent.Failures.{new_injector, apply}
use bounded_refund_agent.Tx.{update_where}
use bounded_refund_agent.World
use bounded_refund_agent.World.{catch, transaction}
use bounded_refund_agent.Policy.{
  evaluate_cancel, decide_cancel, evaluate_refund, decide_refund, decide_asked, decide_amount,
  decide_window,
}
use bounded_refund_agent.Schemas.Gate.{validated}
use bounded_refund_agent.Runner.{run_all}
use bounded_refund_agent.Examples.{
  the_run, options, refund_world, collected_world, world_with, cancel_proposal, refund_proposal,
}

-- A refund of 30.00 is paid once, although its permit is shown again after the run.
one_refund : length (run_all the_run options refund_world).1.db.mutation_log ≡ 1
unfolding run_all World.◌>>=◌ catch transaction evaluate_refund decide_refund decide_asked
    decide_amount decide_window Prelude.◌+ℤ◌ Prelude.◌*ℤ◌ update_where parse_shipment_status
one_refund = refl

one_cancel :
    length (run_all the_run options (world_with (validated cancel_proposal ∷ []))).1.db.mutation_log
    ≡ 1
unfolding run_all World.◌>>=◌ catch transaction evaluate_cancel decide_cancel Prelude.◌+ℤ◌
    Prelude.◌*ℤ◌ update_where parse_shipment_status
one_cancel = refl

-- More than was captured is denied.
no_refund :
    length
      (run_all the_run options
        (world_with (validated (refund_proposal (pos 6000)) ∷ []))).1.db.mutation_log
    ≡ 0
unfolding run_all World.◌>>=◌ catch transaction evaluate_refund decide_refund decide_asked
    decide_amount decide_window Prelude.◌+ℤ◌ Prelude.◌*ℤ◌ update_where parse_shipment_status
no_refund = refl

-- A parcel that leaves just before the commit does not stop the cancellation: the order ends CANCELLED
-- while its shipment is SHIPPED, as the commit is guarded by the order's version only.
collected_and_cancelled :
    (map (λ (o : OrderRow). o.status) (run_all the_run options collected_world).1.db.orders
      ≡ "CANCELLED" ∷ [])
    × (map (λ (s : ShipmentRow). s.status) (run_all the_run options collected_world).1.db.shipments
        ≡ "SHIPPED" ∷ [])
unfolding run_all World.◌>>=◌ catch transaction evaluate_cancel decide_cancel Prelude.◌+ℤ◌
    Prelude.◌*ℤ◌ update_where parse_shipment_status new_injector apply
collected_and_cancelled = (refl, refl)

-- Shares: three successes of four, a tie that goes to the even neighbour, and no scenario at all.
shares :
    (rate 3 4 ≡ 7500)
    × (rate 1 32 ≡ 312)
    × (rate 3 32 ≡ 938)
    × (rate 0 0 ≡ 10000)
    × (rate 22 24 ≡ 9167)
unfolding rate
shares = (refl, refl, refl, refl, refl)

-- The seventh customer of a seeded world, and a number of more digits than the width.
padded_numbers : (padded 6 7 ≡ "000007") × (padded 4 12345 ≡ "12345")
unfolding padded
padded_numbers = (refl, refl)

-- The scenario of a cancellation: one mutation, a cancelled order, a completed outcome.
cancelled_scenario :
    ((observe (run_scenario still cancel_spec no_rows).1 "run_S1" "ord1").mutation_count ≡ 1)
    × ((observe (run_scenario still cancel_spec no_rows).1 "run_S1" "ord1").order_status
        ≡ some "CANCELLED")
    × (derive_outcome (observe (run_scenario still cancel_spec no_rows).1 "run_S1" "ord1")
        ≡ completed)
unfolding run_scenario observe derive_outcome order_to_shipment World.◌>>=◌ catch new_injector
    evaluate_cancel decide_cancel transaction Prelude.◌+ℤ◌ Prelude.◌*ℤ◌ update_where
cancelled_scenario = (refl, refl, refl)
