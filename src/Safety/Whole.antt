-- ===== src/Safety/Whole.antt =====
-- Safe properties of the tables across the parts that `Runner.run` is built of, and the whole of it.
use bounded_refund_agent.Prelude.{sym, subst, ℕ, zero, suc, ◌+◌, String, Option, some, arith}
use bounded_refund_agent.Result.{Result}
use bounded_refund_agent.Schemas.{ActionProposal, ExecutionPermit, ReadTool}
use bounded_refund_agent.Policy.{read_max_attempts}
use bounded_refund_agent.Db.{Db}
use bounded_refund_agent.Injection.{read_fails}
use bounded_refund_agent.ReadTools.{attempts, call}
use bounded_refund_agent.Runner.{Options, run_all}
use bounded_refund_agent.Runner.Attempts.{propose, try_read, execute_once_more}
use bounded_refund_agent.Runner.Report.{verify}
use bounded_refund_agent.World.{Run}
use bounded_refund_agent.World.Leads.{
  Leads, IsSilent, IsSilent-lift, IsSilent-query, IsSilent-gets, IsSilent-now, IsSilent-emit,
  IsSilent-record_call, IsSilent-Leads, Leads-modify, Leads-pure, Leads-if, Leads-bind, Leads-catch,
}
use bounded_refund_agent.Flow.Shape.{IsFlow}
use bounded_refund_agent.Flow.Whole.{run_all-flows}
use bounded_refund_agent.Safety.Core.{IsSafe}
use bounded_refund_agent.Safety.Runs.{execute-Leads, issue_permit-Leads}

IsSilent-read_fails : (tool : ReadTool) → IsSilent (read_fails tool)
unfolding read_fails
IsSilent-read_fails tool = record { same = λ w. ground arith }

IsSilent-propose : IsSilent propose
unfolding propose
IsSilent-propose = record { same = λ w. ground arith }

-- The reads of the tables change nothing, whether they answer or give up.
module _ {Q : Db → Type 0} where
  attempts-Leads :
      {A : Type 0} (tool : ReadTool) (argument : String) (fetch : Db → Result (Option A))
      (left n : ℕ)
      → Leads Q Q (attempts tool argument fetch left n)
  unfolding attempts
  attempts-Leads tool argument fetch zero n = IsSilent-Leads (IsSilent-lift _)
  attempts-Leads tool argument fetch (suc left) n =
      Leads-bind (λ db h. h) (IsSilent-Leads (IsSilent-record_call _))
        λ _.
          Leads-bind (λ db h. h) (IsSilent-Leads (IsSilent-read_fails tool))
            λ failed.
              Leads-if failed _ _ (λ _. attempts-Leads tool argument fetch left (n + 1))
                (λ _. IsSilent-Leads (IsSilent-query fetch))

  try_read-Leads :
      {A : Type 0} (tool reads : ReadTool) (argument : String) (fetch : Db → Result (Option A))
      → Leads Q Q (try_read tool (call reads argument fetch))
  unfolding try_read call
  try_read-Leads tool reads argument fetch =
      Leads-catch _ _ _ (λ db h. h)
        (Leads-bind (λ db h. h) (attempts-Leads reads argument fetch read_max_attempts 1)
          λ found. Leads-pure _ (λ db h. h))
        (Leads-pure _ (λ db h. h))

  pub verify-Leads : (run : Run) (id : String) → Leads Q Q (verify run id)
  unfolding verify
  verify-Leads run id =
      Leads-bind (λ db h. h) (IsSilent-Leads (IsSilent-query _))
        λ o.
          Leads-bind (λ db h. h) (IsSilent-Leads (IsSilent-query _))
            λ pay.
              Leads-bind (λ db h. h) (IsSilent-Leads (IsSilent-query _))
                λ sh.
                  Leads-bind (λ db h. h) (IsSilent-Leads (IsSilent-query _))
                    λ total.
                      Leads-bind (λ db h. h) (IsSilent-Leads (IsSilent-emit run _ _ _ _ _ _))
                        λ _. Leads-pure _ (λ db h. h)

module _ {Q : Db → Type 0} (safe : IsSafe Q) (run : Run) where
  execute_once_more-Leads :
      (permit : ExecutionPermit) (p : ActionProposal) → Leads Q Q (execute_once_more run permit p)
  unfolding execute_once_more
  execute_once_more-Leads permit p =
      Leads-catch _ _ _ (λ db h. h) (execute-Leads safe run (some permit.permit_id) _ _)
        (Leads-bind (λ db h. h) (Leads-modify _ (λ w h. h))
          λ _. execute-Leads safe run (some permit.permit_id) _ _)

  pub Leads-IsFlow : IsFlow run (λ A m. Leads Q Q m)
  Leads-IsFlow = record {
    pures = λ a. Leads-pure a (λ db h. h);
    lifts = λ r. IsSilent-Leads (IsSilent-lift r);
    queries = λ q. IsSilent-Leads (IsSilent-query q);
    observes = λ f. IsSilent-Leads (IsSilent-gets f);
    binds = Leads-bind (λ db h. h);
    keeps = λ f same kept. Leads-modify f (λ w h. subst Q (sym (kept w)) h);
    nows = IsSilent-Leads IsSilent-now;
    emits = λ type resource version owner reason extra plain.
        IsSilent-Leads (IsSilent-emit run type resource version owner reason extra);
    proposes = IsSilent-Leads IsSilent-propose;
    reads = try_read-Leads;
    permits = issue_permit-Leads safe run;
    executes = execute-Leads safe run;
    executes_once_more = execute_once_more-Leads;
  }

  -- What the three writes keep, a whole run keeps, for every planner, clock and injector, and also
  -- where the run ends in an exception.
  pub run_all-Leads : (options : Options) → Leads Q Q (run_all run options)
  run_all-Leads = run_all-flows Leads-IsFlow
