-- ===== src/Ledger/Reported.antt =====
-- The report that `Runner.run` returns against the log that it leaves.
use bounded_refund_agent.Prelude.{◌≡◌, sym, subst}
use bounded_refund_agent.Result.{ok}
use bounded_refund_agent.Schemas.{Outcome, ReasonCode, VerifiedState}
use bounded_refund_agent.Db.{Db}
use bounded_refund_agent.World.{World, Run}
use bounded_refund_agent.World.Leads.{
  IsSilent-gets, IsSilent-emit, IsSilent-Leads, Leads-pure, Leads-if,
}
use bounded_refund_agent.World.Yields.{Yields, Yields-pure, Yields-bind, Yields-bind_gets}
use bounded_refund_agent.Flow.Runs.{
  attempt_loop-flows, chain-flows, escalate-flows, replay_last-flows,
}
use bounded_refund_agent.Safety.Whole.{Leads-IsFlow, verify-Leads}
use bounded_refund_agent.Runner.{Options, run_all}
use bounded_refund_agent.Runner.Report.{RunReport, report, summarise}
use bounded_refund_agent.Ledger.Mirror.{IsMirrored, IsSafe-IsMirrored}
use bounded_refund_agent.Ledger.Totals.{logged_total, summarise-agrees}

-- The refunded amount of a report is what the run's refunds in the log add up to.
abbrev pub IsTrue : Run → RunReport → Db → Type 0
IsTrue run r db = r.refund_amount_cents ≡ logged_total run.run_id db.mutation_log

truly_reported :
    (run : Run) (outcome : Outcome) (reason : ReasonCode) (final : VerifiedState) (w : World)
    → IsMirrored w.db
    → (db : Db) → db ≡ w.db
    → IsTrue run (summarise run outcome reason final w) db
truly_reported run outcome reason final w m db e =
    subst (IsTrue run (summarise run outcome reason final w)) (sym e)
      (summarise-agrees run outcome reason final w m).0

-- What holds of the tables and of any report that is made of them holds of the report that a run returns
-- and of the tables it leaves.
module _ (run : Run) {T : RunReport → Db → Type 0}
    (reported : (outcome : Outcome) (reason : ReasonCode) (final : VerifiedState) (w : World)
      → IsMirrored w.db
      → (db : Db) → db ≡ w.db
      → T (summarise run outcome reason final w) db) where
  pub run_all-Yields : (options : Options) → Yields IsMirrored T (run_all run options)
  unfolding run_all report
  run_all-Yields options = Yields-bind (IsSilent-Leads (IsSilent-emit run _ _ _ _ _ _)) λ _.
      Yields-bind (attempt_loop-flows (Leads-IsFlow IsSafe-IsMirrored run) options _ 1 _) λ end.
        Yields-bind
          (Leads-if end.escalates _ _
            (λ _. escalate-flows (Leads-IsFlow IsSafe-IsMirrored run) _ _ _)
            (λ _. Leads-pure tt (λ db h. h)))
          λ _. Yields-bind (IsSilent-Leads (IsSilent-gets _)) λ fuel.
            Yields-bind (chain-flows (Leads-IsFlow IsSafe-IsMirrored run) options fuel _ _ _) λ c.
              Yields-bind (IsSilent-Leads (IsSilent-gets _)) λ last.
                Yields-bind
                  (Leads-if options.replay_last_permit _ _
                    (λ _. replay_last-flows (Leads-IsFlow IsSafe-IsMirrored run) last)
                    (λ _. Leads-pure tt (λ db h. h)))
                  λ _. Yields-bind (verify-Leads run _) λ final. Yields-bind_gets _ _ λ w m.
                    Yields-bind (IsSilent-Leads (IsSilent-emit run _ _ _ _ _ _))
                      λ _. Yields-pure _ (reported c.0 c.1 final w m)

-- A run that returns a report, with tables before it whose execution records, refunds and tickets are
-- row by row those of the log, reports as refunded exactly what its refunds in the log add up to.
pub run_all-IsTrue :
    (run : Run) (options : Options) (w : World) (r : RunReport)
    → IsMirrored w.db
    → (run_all run options w).0 ≡ ok r
    → r.refund_amount_cents ≡ logged_total run.run_id (run_all run options w).1.db.mutation_log
run_all-IsTrue run options w r m e =
    (run_all-Yields run {T = IsTrue run} (truly_reported run) options).at w m r e
