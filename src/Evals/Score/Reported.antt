-- ===== src/Evals/Score/Reported.antt =====
-- The report of `run_scenario` in app/agent/runner.py against what evals/run_eval.py reads of its tables.
use bounded_refund_agent.Prelude.{String, ◌≡◌, refl, sym, subst}
use bounded_refund_agent.Result.{Result, ok, err}
use bounded_refund_agent.Db.{Db}
use bounded_refund_agent.World.{World}
use bounded_refund_agent.Ledger.Same.{SameLedger}
use bounded_refund_agent.Ledger.Mirror.{IsMirrored, SameLedger-IsMirrored}
use bounded_refund_agent.Seed.{SeededWorld}
use bounded_refund_agent.Seed.Rows.{Rng, seed_world}
use bounded_refund_agent.Seed.World.{seed_world-SameLedger}
use bounded_refund_agent.Runner.Report.{RunReport}
use bounded_refund_agent.Scenario.{
  ScenarioSpec, assemble, no_rows, options_of, run_of, run_scenario, seeded_run, started,
}
use bounded_refund_agent.Scenario.Sound.{assemble-db}
use bounded_refund_agent.Evals.Observe.{observe}
use bounded_refund_agent.Evals.Observe.Agrees.{Agrees, run_all-Agrees}

module _ (spec : ScenarioSpec) (order : String) (r : RunReport) where
  started-Agrees :
      (db : Db) (made : Result World)
      → assemble spec db ≡ made
      → IsMirrored db
      → (started spec db made).0 ≡ ok r
      → Agrees (observe (started spec db made).1 (run_of spec).run_id order) r
  started-Agrees db (err x) e m h = cc
  started-Agrees db (ok w) e m h =
      run_all-Agrees (run_of spec) (options_of spec) w order r
        (subst IsMirrored (sym (assemble-db spec db w e)) m) h

  seeded_run-Agrees :
      (db : Db) (made : Result (SeededWorld × Db))
      → ((ids : SeededWorld) (seeded : Db) → made ≡ ok (ids, seeded) → SameLedger db seeded)
      → IsMirrored db
      → (seeded_run spec db made).0 ≡ ok r
      → Agrees (observe (seeded_run spec db made).1 (run_of spec).run_id order) r
  seeded_run-Agrees db (err x) kept m h = cc
  seeded_run-Agrees db (ok (ids, seeded)) kept m h =
      started-Agrees seeded (assemble spec seeded) refl
        (SameLedger-IsMirrored db seeded (kept ids seeded refl) m) h

-- Where a scenario in a new file returns a report, the report agrees with the tables, as the evaluation reads
-- them under the run's identifier: the refunded amount, whether there is a refund and a ticket, and the
-- numbers of mutations and of repeated ones are the same.
pub run_scenario-Agrees :
    {G : Type 0} (rng : Rng G) (spec : ScenarioSpec) (order : String) (r : RunReport)
    → (run_scenario rng spec no_rows).0 ≡ ok r
    → Agrees (observe (run_scenario rng spec no_rows).1 (run_of spec).run_id order) r
unfolding run_scenario
run_scenario-Agrees rng spec order r h =
    seeded_run-Agrees spec order r no_rows (seed_world rng spec.world no_rows)
      (λ ids seeded e. seed_world-SameLedger rng spec.world no_rows seeded ids e)
      (record { records = refl; refunds = refl; tickets = refl }) h
