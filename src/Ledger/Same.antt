-- ===== src/Ledger/Same.antt =====
-- The tables that the edits of simulator/failures.py and the insertion of a permit leave alone.
use bounded_refund_agent.Prelude.{◌≡◌, ◌∙◌, refl, arith, ◌∷◌, [], ◌++◌}
use bounded_refund_agent.Result.{ok}
use bounded_refund_agent.Db.{Db, PermitRow}
use bounded_refund_agent.Tx.{insert_permit}
use bounded_refund_agent.Failures.{StateChange, apply}

pub record SameLedger (db db' : Db) : Type 0 where
  pub log : db'.mutation_log ≡ db.mutation_log
  pub refunds : db'.refunds ≡ db.refunds
  pub tickets : db'.support_tickets ≡ db.support_tickets
  pub records : db'.execution_records ≡ db.execution_records
  pub permits : db'.execution_permits ≡ db.execution_permits

pub SameLedger-refl : (db : Db) → SameLedger db db
SameLedger-refl db = record {
  log = refl;
  refunds = refl;
  tickets = refl;
  records = refl;
  permits = refl;
}

pub SameLedger-trans : {a b c : Db} → SameLedger a b → SameLedger b c → SameLedger a c
SameLedger-trans h k = record {
  log = k.log ∙ h.log;
  refunds = k.refunds ∙ h.refunds;
  tickets = k.tickets ∙ h.tickets;
  records = k.records ∙ h.records;
  permits = k.permits ∙ h.permits;
}

pub apply-SameLedger : (c : StateChange) (db db' : Db) → apply c db ≡ ok db' → SameLedger db db'
unfolding apply
apply-SameLedger c db db' e = ground arith

-- An inserted permit is the only change.
pub insert_permit_lem :
    (row : PermitRow) (db db' : Db)
    → insert_permit row db ≡ ok (tt, db')
    → db' ≡ record db { execution_permits = db.execution_permits ++ row ∷ [] }
unfolding insert_permit
insert_permit_lem row db db' e = ground arith
