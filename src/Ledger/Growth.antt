-- ===== src/Ledger/Growth.antt =====
-- The length of `mutation_log`, against the number of consumed permits.
use bounded_refund_agent.Prelude.{
  ℕ, ◌+◌, ◌≡◌, ap, sym, subst, false, Bool-cases, inl, inr, some, List, [], ◌∷◌, ◌++◌, count,
  length, ◌≤◌, ◌==◌, arith, length-append, count-append,
}
use bounded_refund_agent.Clock.{IsoText}
use bounded_refund_agent.Schemas.{ActionProposal, ExecutionPermit, ExecutionResult}
use bounded_refund_agent.Db.{Db, PermitRow}
use bounded_refund_agent.Tx.{update_where}
use bounded_refund_agent.Permits.{find_permit}
use bounded_refund_agent.Executor.Commit.{TicketText}
use bounded_refund_agent.Effect.{WriteEffect, write_lem, log_row}
use bounded_refund_agent.Ledger.Same.{SameLedger, apply-SameLedger, insert_permit_lem}
use bounded_refund_agent.Ledger.Backing.{found_hit, found_miss, spend}
use bounded_refund_agent.Safety.Core.{IsSafe, IsCleared}
use bounded_refund_agent.Safety.Whole.{run_all-Leads}
use bounded_refund_agent.Runner.{Options, run_all}
use bounded_refund_agent.World.{World, Run}

abbrev pub used_permits : Db → ℕ
used_permits db = count (λ (row : PermitRow). row.used) db.execution_permits

-- Every logged mutation can be given a consumed permit of its own.
abbrev pub IsPaid : Db → Type 0
IsPaid db = length db.mutation_log ≤ used_permits db

-- Consuming a permit that was found unused adds to the consumed ones, and none is given back.
spend-used :
    (permit : ExecutionPermit) (rows : List PermitRow)
    → count (λ (row : PermitRow). row.used) rows
      ≤ count (λ (row : PermitRow). row.used) (spend permit rows)
unfolding update_where
spend-used permit [] = omega arith
spend-used permit (row ∷ rows) = ground (arith, spend-used permit rows)

spend_unused :
    (permit : ExecutionPermit) (rows : List PermitRow)
    → find_permit permit.permit_id rows ≡ some permit
    → permit.used ≡ false
    → count (λ (row : PermitRow). row.used) rows + 1
      ≤ count (λ (row : PermitRow). row.used) (spend permit rows)
unfolding update_where
spend_unused permit [] found unused = cc
spend_unused permit (row ∷ rows) found unused =
    elim (Bool-cases (row.permit_id == permit.permit_id)) [
      | inl hit ↦
          let e =
            ap (λ (q : ExecutionPermit). q.used)
              (found_hit permit.permit_id permit row rows hit found) in
          ground (arith, spend-used permit rows)
      | inr miss ↦
          let rest = found_miss permit.permit_id permit row rows miss found in
          ground (arith, spend_unused permit rows rest unused)
    ]

WriteEffect-IsPaid :
    (run : Run) (permit : ExecutionPermit) (p : ActionProposal) (ticket : TicketText)
    (time : IsoText) (db db' : Db) (r : ExecutionResult)
    → IsCleared permit p db
    → WriteEffect run permit p ticket time db r db'
    → IsPaid db
    → IsPaid db'
WriteEffect-IsPaid run permit p ticket time db db' r c e h =
    let more = spend_unused permit db.execution_permits c.has_permit c.unused in
    let longer = length-append db.mutation_log (log_row run p.action permit p time ∷ []) in
    rw (e.log, e.permits, longer) (omega arith)

pub SameLedger-IsPaid : (db db' : Db) → SameLedger db db' → IsPaid db → IsPaid db'
SameLedger-IsPaid db db' s h = rw (s.log, s.permits) h

insert-IsPaid :
    (row : PermitRow) (db : Db)
    → IsPaid db
    → IsPaid (record db { execution_permits = db.execution_permits ++ row ∷ [] })
insert-IsPaid row db h =
    let more = count-append (λ (r : PermitRow). r.used) db.execution_permits (row ∷ []) in
    rw (more) (omega arith)

pub IsSafe-IsPaid : IsSafe IsPaid
IsSafe-IsPaid = record {
  edits = λ c db db' e. SameLedger-IsPaid db db' (apply-SameLedger c db db' e);
  permits = λ row db db' unused e h.
      subst IsPaid (sym (insert_permit_lem row db db' e)) (insert-IsPaid row db h);
  writes = λ run permit p ticket time db db' r cleared e.
      WriteEffect-IsPaid run permit p ticket time db db' r cleared
        (write_lem run permit p ticket time db db' r e);
}

-- Whatever the planner proposes and whatever fails: if before a run the log is no longer than the number
-- of consumed permits, then so it is after the run.
pub run_all-IsPaid :
    (run : Run) (options : Options) (w : World) → IsPaid w.db → IsPaid (run_all run options w).1.db
run_all-IsPaid run options w = (run_all-Leads IsSafe-IsPaid run options).at w
