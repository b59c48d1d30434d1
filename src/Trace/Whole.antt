-- ===== src/Trace/Whole.antt =====
-- The trace of a run of app/agent/runner.py reports the rows that the run adds to the log.
use bounded_refund_agent.Prelude.{◌+◌, ◌≤◌, ◌≡◌, true, is_some, ap}
use bounded_refund_agent.Result.{ok}
use bounded_refund_agent.Db.{Db}
use bounded_refund_agent.Runner.Report.{RunReport}
use bounded_refund_agent.Runner.{Options, run_all}
use bounded_refund_agent.World.{World, Run}
use bounded_refund_agent.Flow.Shape.{IsFlow}
use bounded_refund_agent.Flow.Whole.{run_all-flows}
use bounded_refund_agent.Trace.{
  commits, mutations, is_settled, nothing_added, Balances, Quiet-Balances, Balances-bind,
}
use bounded_refund_agent.Trace.Quiet.{
  Quiet-pure, Quiet-lift, Quiet-query, Quiet-gets, Quiet-modify, Quiet-now, Quiet-emit,
}
use bounded_refund_agent.Trace.Parts.{try_read-Quiet, propose-Quiet, issue_permit-Quiet}
use bounded_refund_agent.Trace.Execution.{execute-Balances, execute_once_more-Balances}

Balances-IsFlow : (run : Run) → IsFlow run (λ A m. Balances run.run_id A m)
Balances-IsFlow run = record {
  pures = λ a. Quiet-Balances (Quiet-pure a);
  lifts = λ r. Quiet-Balances (Quiet-lift r);
  queries = λ q. Quiet-Balances (Quiet-query q);
  observes = λ f. Quiet-Balances (Quiet-gets f);
  binds = Balances-bind;
  keeps = λ f same kept. Quiet-Balances (
      Quiet-modify f
        (λ w. nothing_added (same w).audit (ap (λ (d : Db). d.mutation_log) (kept w))));
  nows = Quiet-Balances Quiet-now;
  emits = λ type resource version owner reason extra plain.
      Quiet-Balances (Quiet-emit run type resource version owner reason extra plain);
  proposes = Quiet-Balances propose-Quiet;
  reads = λ tool named argument fetch. Quiet-Balances (try_read-Quiet tool named argument fetch);
  permits = λ a resource version amount.
      Quiet-Balances (issue_permit-Quiet run a resource version amount);
  executes = λ id p ticket. execute-Balances run p ticket id;
  executes_once_more = execute_once_more-Balances run;
}

-- Whatever is proposed and whatever fails, and also where a run ends in an exception: a run adds at least as
-- many rows under its identifier to the log of mutations as events that report a commit to its trace.
pub run_all-reports_at_most :
    (run : Run) (options : Options) (w : World)
    → let w' = (run_all run options w).1 in
      commits w' + mutations run.run_id w ≤ mutations run.run_id w' + commits w
run_all-reports_at_most run options w = ((run_all-flows (Balances-IsFlow run) options).at w).at_most

-- A run with a trace that returns a report, whatever is proposed and whatever fails on the way, adds exactly
-- as many events that report a commit to the trace as rows under its identifier to the log of mutations.
pub run_all-reports_each :
    (run : Run) (options : Options) (w : World) (r : RunReport)
    → is_some w.audit ≡ true
    → (run_all run options w).0 ≡ ok r
    → let w' = (run_all run options w).1 in
      commits w' + mutations run.run_id w ≡ mutations run.run_id w' + commits w
run_all-reports_each run options w r seen e =
    ((run_all-flows (Balances-IsFlow run) options).at w).exact seen (ap is_settled e)

-- A run neither makes a trace nor drops one.
pub run_all-watched :
    (run : Run) (options : Options) (w : World)
    → is_some (run_all run options w).1.audit ≡ is_some w.audit
run_all-watched run options w = ((run_all-flows (Balances-IsFlow run) options).at w).watched
