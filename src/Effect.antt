-- ===== src/Effect.antt =====
-- What a committed transaction of app/executor/executor.py writes, table by table.
use Prim.Native.String.{◌++◌ as ◌^^◌}
use mathlib.Core.List.{append-nil}
use bounded_refund_agent.Prelude.{
  ℤ, pos, ◌≡◌, ◌∙◌, ap, refl, true, false, List, [], ◌∷◌, ◌++◌, ◌==◌, eq_iff, arith,
}
use bounded_refund_agent.Result.{Result, ok, err}
use bounded_refund_agent.Clock.{IsoText}
use bounded_refund_agent.Schemas.{
  ActionName, cancel_order, issue_refund, create_support_ticket, ActionProposal, ExecutionPermit,
  ExecutionResult,
}
use bounded_refund_agent.Db.{Db, RefundRow, TicketRow, ExecutionRow, LogRow}
use bounded_refund_agent.Tx.{update_where, insert_record}
use bounded_refund_agent.WriteTools.{WriteOutcome}
use bounded_refund_agent.Executor.Commit.{
  TicketText, amount_of, authorization, call_tool, finish, mark_used, result_of, write, reason_or,
  summary_or,
}
use bounded_refund_agent.World.{Run}

-- The amount that an action logs: only a refund has one.
abbrev pub logged_amount : ActionName → ActionProposal → ℤ
logged_amount issue_refund p = amount_of p
logged_amount _ p = pos 0

abbrev pub log_row : Run → ActionName → ExecutionPermit → ActionProposal → IsoText → LogRow
log_row run a permit p time = record {
  run_id = run.run_id;
  action = a;
  resource_id = permit.resource_id;
  amount_cents = logged_amount a p;
  created_at = time;
}

abbrev pub refund_row : Run → ExecutionPermit → ActionProposal → IsoText → RefundRow
refund_row run permit p time = record {
  refund_id = "ref_" ^^ permit.permit_id;
  payment_id = permit.resource_id;
  order_id = p.order_id;
  amount_cents = amount_of p;
  created_at = time;
  run_id = run.run_id;
  permit_id = permit.permit_id;
}

abbrev pub ticket_row : Run → ExecutionPermit → ActionProposal → TicketText → IsoText → TicketRow
ticket_row run permit p ticket time = record {
  ticket_id = "tkt_" ^^ permit.permit_id;
  order_id = permit.resource_id;
  reason_code = reason_or ticket.reason;
  summary = summary_or ticket.summary p;
  created_at = time;
  run_id = run.run_id;
}

abbrev pub new_refunds :
    Run → ActionName → ExecutionPermit → ActionProposal → IsoText → List RefundRow
new_refunds run issue_refund permit p time = refund_row run permit p time ∷ []
new_refunds run _ permit p time = []

abbrev pub new_tickets :
    Run → ActionName → ExecutionPermit → ActionProposal → TicketText → IsoText → List TicketRow
new_tickets run create_support_ticket permit p ticket time =
    ticket_row run permit p ticket time ∷ []
new_tickets run _ permit p ticket time = []

-- What one write tool leaves: its log row, at most one refund or ticket, and the other tables of the
-- ledger as they were.
pub record ToolEffect (run : Run) (a : ActionName) (permit : ExecutionPermit) (p : ActionProposal)
    (ticket : TicketText) (time : IsoText) (db : Db) (o : WriteOutcome) (db' : Db) : Type 0 where
  pub action : o.action ≡ a
  pub resource : o.resource_id ≡ permit.resource_id
  pub amount : o.amount_cents ≡ logged_amount a p
  pub log : db'.mutation_log ≡ db.mutation_log ++ log_row run a permit p time ∷ []
  pub refunds : db'.refunds ≡ db.refunds ++ new_refunds run a permit p time
  pub tickets : db'.support_tickets ≡ db.support_tickets ++ new_tickets run a permit p ticket time
  pub records : db'.execution_records ≡ db.execution_records
  pub permits : db'.execution_permits ≡ db.execution_permits

module _ (run : Run) (permit : ExecutionPermit) (p : ActionProposal) (ticket : TicketText)
    (time : IsoText) where
  call_tool_lem :
      (a : ActionName) (db db' : Db) (o : WriteOutcome)
      → call_tool a (authorization run permit) permit p ticket time db ≡ ok (o, db')
      → ToolEffect run a permit p ticket time db o db'
  unfolding call_tool
  call_tool_lem cancel_order db db' o h = ground (
    arith,
    eq_iff permit.resource_id p.order_id,
    append-nil db.refunds,
    append-nil db.support_tickets,
  )
  call_tool_lem issue_refund db db' o h =
      ground (arith, eq_iff permit.resource_id permit.resource_id, append-nil db.support_tickets)
  call_tool_lem create_support_ticket db db' o h =
      ground (arith, eq_iff permit.resource_id p.order_id, append-nil db.refunds)

abbrev pub execution_row :
    Run → ExecutionPermit → ActionProposal → IsoText → ExecutionResult → ExecutionRow
execution_row run permit p time r = record {
  idempotency_key = permit.idempotency_key;
  run_id = run.run_id;
  action = p.action;
  resource_id = permit.resource_id;
  amount_cents = logged_amount p.action p;
  result = r;
  created_at = time;
}

-- What the whole transaction leaves.
pub record WriteEffect (run : Run) (permit : ExecutionPermit) (p : ActionProposal)
    (ticket : TicketText) (time : IsoText) (db : Db) (r : ExecutionResult) (db' : Db) : Type 0 where
  pub committed : r.committed ≡ true
  pub fresh : r.replayed ≡ false
  pub log : db'.mutation_log ≡ db.mutation_log ++ log_row run p.action permit p time ∷ []
  pub refunds : db'.refunds ≡ db.refunds ++ new_refunds run p.action permit p time
  pub tickets :
      db'.support_tickets ≡ db.support_tickets ++ new_tickets run p.action permit p ticket time
  pub records :
      db'.execution_records ≡ db.execution_records ++ execution_row run permit p time r ∷ []
  pub permits :
      db'.execution_permits
      ≡ update_where (λ row. row.permit_id == permit.permit_id) mark_used db.execution_permits

module _ (run : Run) (permit : ExecutionPermit) (p : ActionProposal) (ticket : TicketText)
    (time : IsoText) where
  recorded : (o : WriteOutcome) → ExecutionRow
  recorded o = record {
    idempotency_key = permit.idempotency_key;
    run_id = run.run_id;
    action = o.action;
    resource_id = o.resource_id;
    amount_cents = o.amount_cents;
    result = result_of o;
    created_at = time;
  }

  insert_record_lem :
      (row : ExecutionRow) (db mid : Db) (u : Unit {0})
      → insert_record row db ≡ ok (u, mid)
      → mid ≡ record db { execution_records = db.execution_records ++ row ∷ [] }
  unfolding insert_record
  insert_record_lem row db mid u h = ground arith

  after_insert :
      (o : WriteOutcome) (db db' : Db) (r : ExecutionResult) (made : Result (Unit {0} × Db))
      → insert_record (recorded o) db ≡ made
      → ◌≡◌ {A = Result (ExecutionResult × Db)}
          (elim made [
            | ok (u, mid) ↦ ok (
              result_of o,
              record mid {
                execution_permits =
                    update_where
                      (λ row. row.permit_id == permit.permit_id)
                      mark_used
                      mid.execution_permits;
              },
            )
            | err e ↦ err e
          ])
          (ok (r, db'))
      → (r ≡ result_of o)
        × (db' ≡ record db {
          execution_records = db.execution_records ++ recorded o ∷ [];
          execution_permits =
              update_where
                (λ row. row.permit_id == permit.permit_id)
                mark_used
                db.execution_permits;
        })
  after_insert o db db' r (ok (u, mid)) e h =
      ground (arith, insert_record_lem (recorded o) db mid u e)
  after_insert o db db' r (err x) e h = cc

  finish_lem :
      (o : WriteOutcome) (db db' : Db) (r : ExecutionResult)
      → finish run permit time o db ≡ ok (r, db')
      → (r ≡ result_of o)
        × (db' ≡ record db {
          execution_records = db.execution_records ++ recorded o ∷ [];
          execution_permits =
              update_where
                (λ row. row.permit_id == permit.permit_id)
                mark_used
                db.execution_permits;
        })
  unfolding finish recorded
  finish_lem o db db' r h = after_insert o db db' r (insert_record (recorded o) db) refl h

  after_tool :
      (db db' : Db) (r : ExecutionResult) (made : Result (WriteOutcome × Db))
      → call_tool p.action (authorization run permit) permit p ticket time db ≡ made
      → ◌≡◌ {A = Result (ExecutionResult × Db)}
          (elim made [ ok (o, mid) ↦ finish run permit time o mid | err e ↦ err e ])
          (ok (r, db'))
      → WriteEffect run permit p ticket time db r db'
  unfolding result_of recorded
  after_tool db db' r (ok (o, mid)) e h =
      let t = call_tool_lem run permit p ticket time p.action db mid o e in
      let f = finish_lem o mid db' r h in
      record {
        committed = ground arith;
        fresh = ground arith;
        log = ap (λ (d : Db). d.mutation_log) f.1 ∙ t.log;
        refunds = ap (λ (d : Db). d.refunds) f.1 ∙ t.refunds;
        tickets = ap (λ (d : Db). d.support_tickets) f.1 ∙ t.tickets;
        records = ground (arith, ap (λ (d : Db). d.execution_records) f.1);
        permits = ground (arith, ap (λ (d : Db). d.execution_permits) f.1);
      }
  after_tool db db' r (err x) e h = cc

  -- The effect of every transaction that commits.
  pub write_lem :
      (db db' : Db) (r : ExecutionResult)
      → write run (authorization run permit) permit p ticket time db ≡ ok (r, db')
      → WriteEffect run permit p ticket time db r db'
  unfolding write
  write_lem db db' r h =
      after_tool db db' r (call_tool p.action (authorization run permit) permit p ticket time db)
        refl h
