-- ===== src/Ledger/Mirror.antt =====
-- The rows of `mutation_log` against those of `execution_records`, `refunds` and `support_tickets`.
use mathlib.Core.List.{map-append}
use bounded_refund_agent.Prelude.{
  select-append, ℤ, String, ◌≡◌, sym, refl, subst, Bool, [], ◌∷◌, map, select,
}
use bounded_refund_agent.Clock.{IsoText}
use bounded_refund_agent.Schemas.{
  ActionName, cancel_order, issue_refund, create_support_ticket, ActionProposal, ExecutionPermit,
  ExecutionResult, same_action,
}
use bounded_refund_agent.Db.{Db, RefundRow, TicketRow, ExecutionRow, LogRow}
use bounded_refund_agent.Executor.Commit.{TicketText}
use bounded_refund_agent.Effect.{WriteEffect, write_lem, new_refunds, new_tickets, log_row}
use bounded_refund_agent.Ledger.Same.{SameLedger, apply-SameLedger, insert_permit_lem}
use bounded_refund_agent.Safety.Core.{IsSafe}
use bounded_refund_agent.Safety.Whole.{run_all-Leads}
use bounded_refund_agent.Runner.{Options, run_all}
use bounded_refund_agent.World.{World, Run}

-- The log row that an execution record stands for.
abbrev pub record_entry : ExecutionRow → LogRow
record_entry row = record {
  run_id = row.run_id;
  action = row.action;
  resource_id = row.resource_id;
  amount_cents = row.amount_cents;
  created_at = row.created_at;
}

-- What a refund and its log row share: the run, the payment, the amount and the time.
abbrev pub refund_entry : RefundRow → String × String × ℤ × IsoText
refund_entry row = (row.run_id, row.payment_id, row.amount_cents, row.created_at)

abbrev pub logged_refund : LogRow → String × String × ℤ × IsoText
logged_refund row = (row.run_id, row.resource_id, row.amount_cents, row.created_at)

-- What a ticket and its log row share: the run, the order and the time.
abbrev pub ticket_entry : TicketRow → String × String × IsoText
ticket_entry row = (row.run_id, row.order_id, row.created_at)

abbrev pub logged_ticket : LogRow → String × String × IsoText
logged_ticket row = (row.run_id, row.resource_id, row.created_at)

abbrev pub is_action : ActionName → LogRow → Bool
is_action a row = same_action row.action a

pub record IsMirrored (db : Db) : Type 0 where
  pub records : map record_entry db.execution_records ≡ db.mutation_log
  pub refunds :
      map refund_entry db.refunds
      ≡ map logged_refund (select (is_action issue_refund) db.mutation_log)
  pub tickets :
      map ticket_entry db.support_tickets
      ≡ map logged_ticket (select (is_action create_support_ticket) db.mutation_log)

pub SameLedger-IsMirrored : (db db' : Db) → SameLedger db db' → IsMirrored db → IsMirrored db'
SameLedger-IsMirrored db db' s m = record {
  records = rw (s.records, s.log) m.records;
  refunds = rw (s.refunds, s.log) m.refunds;
  tickets = rw (s.tickets, s.log) m.tickets;
}

module _ (run : Run) (permit : ExecutionPermit) (p : ActionProposal) (ticket : TicketText)
    (time : IsoText) where
  new_refunds_lem :
      (a : ActionName)
      → map refund_entry (new_refunds run a permit p time)
        ≡ map logged_refund (select (is_action issue_refund) (log_row run a permit p time ∷ []))
  unfolding same_action
  new_refunds_lem cancel_order = refl
  new_refunds_lem issue_refund = refl
  new_refunds_lem create_support_ticket = refl

  new_tickets_lem :
      (a : ActionName)
      → map ticket_entry (new_tickets run a permit p ticket time)
        ≡ map logged_ticket
            (select (is_action create_support_ticket) (log_row run a permit p time ∷ []))
  unfolding same_action
  new_tickets_lem cancel_order = refl
  new_tickets_lem issue_refund = refl
  new_tickets_lem create_support_ticket = refl

  WriteEffect-IsMirrored :
      (db db' : Db) (r : ExecutionResult)
      → WriteEffect run permit p ticket time db r db'
      → IsMirrored db
      → IsMirrored db'
  WriteEffect-IsMirrored db db' r e m = record {
    records = rw (e.records, e.log) (simp (map-append, m.records));
    refunds =
        rw (e.refunds, e.log)
          (simp (select-append, map-append, m.refunds, new_refunds_lem p.action));
    tickets =
        rw (e.tickets, e.log)
          (simp (select-append, map-append, m.tickets, new_tickets_lem p.action));
  }

pub IsSafe-IsMirrored : IsSafe IsMirrored
IsSafe-IsMirrored = record {
  edits = λ c db db' e. SameLedger-IsMirrored db db' (apply-SameLedger c db db' e);
  permits = λ row db db' unused e m.
      subst IsMirrored (sym (insert_permit_lem row db db' e))
        (record { records = m.records; refunds = m.refunds; tickets = m.tickets });
  writes = λ run permit p ticket time db db' r cleared e.
      WriteEffect-IsMirrored run permit p ticket time db db' r
        (write_lem run permit p ticket time db db' r e);
}

-- A run keeps the ledger true, whatever the planner proposes, whatever fails, and also where it ends in
-- an exception: if before it the execution records, the refunds and the tickets are row by row those
-- of the log, then so they are after it.
pub run_all-IsMirrored :
    (run : Run) (options : Options) (w : World)
    → IsMirrored w.db
    → IsMirrored (run_all run options w).1.db
run_all-IsMirrored run options w = (run_all-Leads IsSafe-IsMirrored run options).at w
