-- ===== src/Ledger/Backing.antt =====
-- The rows of `mutation_log` against the consumed rows of `execution_permits`.
use bounded_refund_agent.Prelude.{
  any-append_left, All-map, All-snoc, leb_ℤ, ◌≤ℤ◌, String, ◌≡◌, sym, subst, Bool, true, false, not,
  ◌&&◌, ◌||◌, some, List, [], ◌∷◌, All, any, ◌==◌, eq_refl, Bool-cases, inl, inr, arith,
}
use bounded_refund_agent.Clock.{IsoText}
use bounded_refund_agent.Schemas.{
  ActionName, cancel_order, issue_refund, create_support_ticket, ActionProposal, ExecutionPermit,
  ExecutionResult, same_action,
}
use bounded_refund_agent.Db.{Db, PermitRow, LogRow}
use bounded_refund_agent.Tx.{update_where}
use bounded_refund_agent.Permits.{find_permit}
use bounded_refund_agent.Executor.Commit.{TicketText, mark_used, amount_of}
use bounded_refund_agent.Effect.{WriteEffect, write_lem, log_row}
use bounded_refund_agent.Ledger.Same.{SameLedger, apply-SameLedger, insert_permit_lem}
use bounded_refund_agent.Safety.Core.{IsSafe, IsCleared}
use bounded_refund_agent.Safety.Whole.{run_all-Leads}
use bounded_refund_agent.Runner.{Options, run_all}
use bounded_refund_agent.World.{World, Run}

-- A consumed permit for the row's action and resource, and for at least its amount if it is a refund.
unfoldable pub backs : LogRow → PermitRow → Bool
unfolding same_action
backs l row =
    row.used
    && (same_action row.action l.action
        && (row.resource_id == l.resource_id
            && (not (same_action l.action issue_refund)
                || leb_ℤ l.amount_cents row.max_amount_cents)))

abbrev pub Backed : List PermitRow → LogRow → Type 0
Backed permits l = any (backs l) permits ≡ true

abbrev pub IsBacked : Db → Type 0
IsBacked db = All (Backed db.execution_permits) db.mutation_log

abbrev pub spend : ExecutionPermit → List PermitRow → List PermitRow
spend permit = update_where (λ row. row.permit_id == permit.permit_id) mark_used

-- A backing permit stays one when some permit is consumed.
Backed-spend :
    (permit : ExecutionPermit) (l : LogRow) (rows : List PermitRow)
    → Backed rows l
    → Backed (spend permit rows) l
unfolding update_where backs
Backed-spend permit l [] h = h
Backed-spend permit l (row ∷ rows) h = ground (arith, Backed-spend permit l rows)

marked_backs :
    (run : Run) (permit : ExecutionPermit) (p : ActionProposal) (time : IsoText) (a : ActionName)
    (row : PermitRow)
    → row.permit ≡ permit
    → permit.action ≡ a
    → amount_of p ≤ℤ permit.max_amount_cents
    → backs (log_row run a permit p time) (mark_used row) ≡ true
unfolding backs
marked_backs run permit p time cancel_order row e same within =
    ground (arith, eq_refl permit.resource_id)
marked_backs run permit p time issue_refund row e same within =
    ground (arith, eq_refl permit.resource_id)
marked_backs run permit p time create_support_ticket row e same within =
    ground (arith, eq_refl permit.resource_id)

pub found_hit :
    (id : String) (permit : ExecutionPermit) (row : PermitRow) (rows : List PermitRow)
    → (row.permit_id == id) ≡ true
    → find_permit id (row ∷ rows) ≡ some permit
    → row.permit ≡ permit
found_hit id permit row rows hit found = ground arith

pub found_miss :
    (id : String) (permit : ExecutionPermit) (row : PermitRow) (rows : List PermitRow)
    → (row.permit_id == id) ≡ false
    → find_permit id (row ∷ rows) ≡ some permit
    → find_permit id rows ≡ some permit
found_miss id permit row rows miss found = ground arith

-- The consumed permit backs the row that its transaction logs.
spend-Backed :
    (run : Run) (permit : ExecutionPermit) (p : ActionProposal) (time : IsoText)
    (rows : List PermitRow)
    → find_permit permit.permit_id rows ≡ some permit
    → permit.action ≡ p.action
    → amount_of p ≤ℤ permit.max_amount_cents
    → Backed (spend permit rows) (log_row run p.action permit p time)
unfolding update_where
spend-Backed run permit p time [] found same within = cc
spend-Backed run permit p time (row ∷ rows) found same within =
    elim (Bool-cases (row.permit_id == permit.permit_id)) [
      | inl hit ↦
          let e = found_hit permit.permit_id permit row rows hit found in
          ground (arith, marked_backs run permit p time p.action row e same within)
      | inr miss ↦
          let rest = found_miss permit.permit_id permit row rows miss found in
          ground (arith, spend-Backed run permit p time rows rest same within)
    ]

pub SameLedger-IsBacked : (db db' : Db) → SameLedger db db' → IsBacked db → IsBacked db'
SameLedger-IsBacked db db' s h = rw (s.log, s.permits) h

WriteEffect-IsBacked :
    (run : Run) (permit : ExecutionPermit) (p : ActionProposal) (ticket : TicketText)
    (time : IsoText) (db db' : Db) (r : ExecutionResult)
    → IsCleared permit p db
    → WriteEffect run permit p ticket time db r db'
    → IsBacked db
    → IsBacked db'
WriteEffect-IsBacked run permit p ticket time db db' r c e h =
    let rows = db.execution_permits in
    rw (e.log, e.permits)
      (All-snoc (Backed (spend permit rows)) db.mutation_log (log_row run p.action permit p time)
        (All-map (λ l. Backed-spend permit l rows) db.mutation_log h)
        (spend-Backed run permit p time rows c.has_permit c.same c.within))

pub IsSafe-IsBacked : IsSafe IsBacked
IsSafe-IsBacked = record {
  edits = λ c db db' e. SameLedger-IsBacked db db' (apply-SameLedger c db db' e);
  permits = λ row db db' unused e h.
      subst IsBacked (sym (insert_permit_lem row db db' e)) (
        All-map (λ l. any-append_left (backs l) db.execution_permits (row ∷ [])) db.mutation_log h);
  writes = λ run permit p ticket time db db' r cleared e.
      WriteEffect-IsBacked run permit p ticket time db db' r cleared
        (write_lem run permit p ticket time db db' r e);
}

-- No mutation without a permit, whatever the planner proposes and whatever fails: if before a run
-- every logged mutation has a consumed permit in the table, for the same action and the same
-- resource, and for at least its amount if it is a refund, then so has every one after the run, which
-- may also end in an exception.
pub run_all-IsBacked :
    (run : Run) (options : Options) (w : World)
    → IsBacked w.db
    → IsBacked (run_all run options w).1.db
run_all-IsBacked run options w = (run_all-Leads IsSafe-IsBacked run options).at w
