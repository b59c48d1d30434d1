-- ===== src/Flow/Whole.antt =====
-- A property of the actions of app/agent/runner.py passes to a whole run.
use bounded_refund_agent.Prelude.{refl}
use bounded_refund_agent.Runner.{Options, run_all}
use bounded_refund_agent.Runner.Report.{report}
use bounded_refund_agent.World.{Run, M}
use bounded_refund_agent.Flow.Shape.{IsFlow, either}
use bounded_refund_agent.Flow.Runs.{
  attempt_loop-flows, chain-flows, escalate-flows, replay_last-flows, verify-flows,
}

module _ {run : Run} {F : (A : Type 0) → M A → Type 0} (flow : IsFlow run F) where
  pub run_all-flows : (options : Options) → F _ (run_all run options)
  unfolding run_all report
  run_all-flows options = flow.binds (flow.emits _ _ _ _ _ _ refl) λ _.
      flow.binds (attempt_loop-flows flow options _ 1 _) λ end.
        flow.binds (either (F _) end.escalates _ _ (escalate-flows flow _ _ _) (flow.pures tt)) λ _.
          flow.binds (flow.observes _) λ fuel. flow.binds (chain-flows flow options fuel _ _ _) λ c.
            flow.binds (flow.observes _) λ last.
              flow.binds
                (either (F _) options.replay_last_permit _ _ (replay_last-flows flow last)
                  (flow.pures tt))
                λ _. flow.binds (verify-flows flow _) λ final.
                  flow.binds (flow.observes _)
                    λ summary. flow.binds (flow.emits _ _ _ _ _ _ refl) λ _. flow.pures _
