-- ===== src/Safety/Runs.antt =====
-- Safe properties of the tables across `Executor.execute` and `PermitIssuer.issue_permit`.
use bounded_refund_agent.Prelude.{
  ℤ, String, ◌≡◌, refl, sym, subst, Option, none, some, List, [], ◌∷◌, arith, eq_iff,
}
use bounded_refund_agent.Schemas.{ActionName, ActionProposal, ExecutionPermit, ExecutionResult}
use bounded_refund_agent.Db.{Db, PermitRow}
use bounded_refund_agent.Permits.{find_permit, load_permit, issue_permit, new_permit}
use bounded_refund_agent.Executor.{run_checks, report, report_committed, execute}
use bounded_refund_agent.Executor.Commit.{TicketText}
use bounded_refund_agent.World.{Run}
use bounded_refund_agent.World.Leads.{
  Leads, IsSilent-lift, IsSilent-gets, IsSilent-now, IsSilent-Leads, Leads-modify, Leads-pure,
  Leads-if, Leads-transaction, Leads-bind, Leads-bind_query, Leads-weaken,
}
use bounded_refund_agent.Safety.Core.{
  HasPermit, IsSafe, run_checks-Leads, emit_event-Leads, IsSilent-response_lost,
}

find_permit-id :
    (id : String) (rows : List PermitRow) (permit : ExecutionPermit)
    → find_permit id rows ≡ some permit
    → permit.permit_id ≡ id
find_permit-id id [] permit h = cc
find_permit-id id (row ∷ rows) permit h =
    ground (arith, eq_iff row.permit_id id, find_permit-id id rows permit)

load_permit-find :
    (id : String) (db : Db) (permit : ExecutionPermit)
    → load_permit (some id) db ≡ some permit
    → find_permit id db.execution_permits ≡ some permit
unfolding load_permit
load_permit-find id db permit h = ground arith

-- A loaded permit stands in the table under its own identifier.
pub load_permit-HasPermit :
    (id : Option String) (db : Db) (permit : ExecutionPermit)
    → load_permit id db ≡ some permit
    → HasPermit permit db
unfolding load_permit
load_permit-HasPermit none db permit h = cc
load_permit-HasPermit (some id) db permit h =
    let found = load_permit-find id db permit h in
    subst (λ k. find_permit k db.execution_permits ≡ some permit)
      (sym (find_permit-id id db.execution_permits permit found)) found

module _ {Q : Db → Type 0} (safe : IsSafe Q) (run : Run) where
  report-Leads :
      (p : ActionProposal) (permit : Option ExecutionPermit) (r : ExecutionResult)
      → Leads Q Q (report run p permit r)
  unfolding report report_committed
  report-Leads p permit r =
      Leads-if r.committed _ _
        (λ _.
          Leads-if r.replayed _ _
            (λ _.
              Leads-bind (λ db h. h) (emit_event-Leads run _ p permit _ _)
                λ _. Leads-pure r (λ db h. h))
            (λ _.
              Leads-bind (λ db h. h) (emit_event-Leads run _ p permit _ _)
                λ _.
                  Leads-bind (λ db h. h) (IsSilent-Leads (IsSilent-response_lost p.action))
                    λ lost.
                      Leads-if lost _ _ (λ _. IsSilent-Leads (IsSilent-lift _))
                        (λ _. Leads-pure r (λ db h. h))))
        (λ _.
          Leads-bind (λ db h. h) (emit_event-Leads run _ p permit _ _)
            λ _. Leads-pure r (λ db h. h))

  checked-Leads :
      (id : Option String) (permit : Option ExecutionPermit) (p : ActionProposal)
      (ticket : TicketText)
      → Leads (λ db. Q db × (load_permit id db ≡ permit)) Q (run_checks run permit p ticket)
  checked-Leads id none p ticket = unfold run_checks in Leads-pure _ (λ db h. h.0)
  checked-Leads id (some permit) p ticket =
      Leads-weaken (λ db h. (h.0, load_permit-HasPermit id db permit h.1))
        (run_checks-Leads safe run permit p ticket)

  -- Every call of the executor, allowed, refused or raising, keeps a safe property.
  pub execute-Leads :
      (id : Option String) (p : ActionProposal) (ticket : TicketText)
      → Leads Q Q (execute run id p ticket)
  unfolding execute
  execute-Leads id p ticket =
      Leads-bind_query _ _ (λ db h. h)
        λ permit.
          Leads-bind (λ db h. h.0) (emit_event-Leads run _ p permit _ _)
            λ _.
              Leads-bind (λ db h. h)
                (Leads-weaken (λ db h. (h.0, cc (h.1))) (checked-Leads id permit p ticket))
                λ r. report-Leads p permit r

  pub issue_permit-Leads :
      (a : ActionName) (resource : String) (version amount : ℤ)
      → Leads Q Q (issue_permit run a resource version amount)
  unfolding issue_permit new_permit
  issue_permit-Leads a resource version amount =
      Leads-bind (λ db h. h) (Leads-modify _ (λ w h. h))
        λ _.
          Leads-bind (λ db h. h) (IsSilent-Leads (IsSilent-gets _))
            λ sequence.
              Leads-bind (λ db h. h) (IsSilent-Leads IsSilent-now)
                λ issued_at.
                  Leads-bind (λ db h. h)
                    (Leads-transaction _ (λ db h. h) λ db db' u e. safe.permits _ db db' refl e)
                    λ _. Leads-pure _ (λ db h. h)
