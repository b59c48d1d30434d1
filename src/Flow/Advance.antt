-- ===== src/Flow/Advance.antt =====
-- What the parts that `Runner.run` of app/agent/runner.py is built of let grow.
use bounded_refund_agent.Prelude.{◌≡◌, refl, Option, some, List, [], ◌∷◌, ap, length, arith}
use bounded_refund_agent.Result.{Result, ok}
use bounded_refund_agent.Schemas.{ActionProposal, ExecutionPermit, ReadTool}
use bounded_refund_agent.Schemas.Gate.{RawProposal, nothing}
use bounded_refund_agent.Db.{Db}
use bounded_refund_agent.ReadTools.{call}
use bounded_refund_agent.Prelude.{String}
use bounded_refund_agent.Runner.Attempts.{propose, try_read, execute_once_more}
use bounded_refund_agent.World.{World, Run}
use bounded_refund_agent.Flow.{
  Grown-refl, Advances, Advances-refl, IsAlike-Advances, alike, Flows, Flows-pure, Flows-lift,
  Flows-query, Flows-gets, Flows-catch, Flows-modify, Flows-bind,
}
use bounded_refund_agent.Flow.Shape.{IsFlow}
use bounded_refund_agent.Flow.Calls.{Flows-now, Flows-emit, call-Flows}
use bounded_refund_agent.Flow.Execution.{issue_permit-Flows, execute-Flows}

propose-Advances :
    (w : World) (ps : List RawProposal)
    → w.proposals ≡ ps
    → Advances w
        (elim ps as (λ (x : List RawProposal). Result RawProposal × World) [
          | [] ↦ (ok nothing, w)
          | raw ∷ rest ↦ (ok raw, record w { proposals = rest })
        ]).1
propose-Advances w [] e = Advances-refl w
propose-Advances w (raw ∷ rest) e = record {
  audit = Grown-refl w.audit;
  recorder = Grown-refl w.recorder;
  sequence = omega arith;
  proposals = let same = ap length e in omega arith;
}

propose-Flows : Flows propose
unfolding propose
propose-Flows = record { at = λ w. propose-Advances w w.proposals refl }

try_read-Flows :
    {A : Type 0} (tool reads : ReadTool) (argument : String) (fetch : Db → Result (Option A))
    → Flows (try_read tool (call reads argument fetch))
unfolding try_read
try_read-Flows tool reads argument fetch =
    Flows-catch _ _ _ (Flows-bind (call-Flows reads argument fetch) λ found. Flows-pure _)
      (Flows-pure _)

module _ (run : Run) where
  execute_once_more-Flows :
      (permit : ExecutionPermit) (p : ActionProposal) → Flows (execute_once_more run permit p)
  unfolding execute_once_more
  execute_once_more-Flows permit p =
      Flows-catch _ _ _ (execute-Flows run (some permit.permit_id) _ _) (
        Flows-bind (Flows-modify _ (λ w. alike refl refl refl refl))
          λ _. execute-Flows run (some permit.permit_id) _ _)

  pub Flows-IsFlow : IsFlow run (λ A m. Flows m)
  Flows-IsFlow = record {
    pures = Flows-pure;
    lifts = Flows-lift;
    queries = Flows-query;
    observes = Flows-gets;
    binds = Flows-bind;
    keeps = λ f same kept. Flows-modify f (λ w. IsAlike-Advances (same w));
    nows = Flows-now;
    emits = λ type resource version owner reason extra plain.
        Flows-emit run type resource version owner reason extra;
    proposes = propose-Flows;
    reads = try_read-Flows;
    permits = issue_permit-Flows run;
    executes = execute-Flows run;
    executes_once_more = execute_once_more-Flows;
  }
